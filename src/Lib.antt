-- ===== src/Lib.antt =====
-- emergency-ration-webhook: a Kubernetes admission webhook that holds the pods of a cluster to a
-- share of its capacity, and the controllers that keep its figures.
--
-- The parts and how they interact. Two controllers write the status of two cluster-scoped
-- resources: the supply controller sums the allocatable capacity of the nodes into the
-- ClusterCapacity, the demand controller sums the requests of the pods into the Allocation, with
-- ceilings that are a percentage of the supply. The webhook reads both from caches and decides each
-- pod: missing, stale or unreadable data rejects, an exempt pod is admitted, any other pod is held
-- to the ceilings, and dry-run mode turns the denial into a warning. Every decision is logged and
-- counted. The equalizer, a process of its own, reads these figures of several clusters and patches
-- their budgets so that clusters over a target are compensated by the others.
--
--   Common        shared definitions: 32, 64 and 128-bit integers over ℤ with saturation and
--                 wrap-around written out (Word), results, texts as character codes, the
--                 interface of 64-bit floats (Float), and tasks: steps over a world that run on fuel
--                 and may fail (Task)
--   K8s           the types of the crates kube and k8s-openapi that the code reads, and interfaces of
--                 the admission constructors and of the reflector store, with their documented laws
--   Crd           src/crd: the two resources, budgets, modes and the exemption policy
--   Resources     src/resources/quantity.rs: quantities and the effective request of a pod
--   TimeUtil      src/time_util.rs: timestamps and the civil calendar; Era has the arithmetic of the
--                 calendar on numbers
--   Webhook       src/webhook: error.rs (Failure), admission.rs (Admission) and handler.rs. Of
--                 handler.rs, Summary has the values of a decision, Evaluate the decision, Observe
--                 the log events and metric calls, Handler the path from body to reply
--   Metrics       src/metrics.rs: the calls on the Prometheus series, as values
--   Controllers   src/controllers: node_filter.rs (NodeFilter), the singletons of both controllers
--                 (Singleton), allocation.rs (Demand) and node_capacity.rs (Supply), each with
--                 its loop (Run)
--   Equalizer     src/equalizer: algorithm.rs (Algorithm), and crd.rs and reconcile.rs: Resolve has
--                 the reading of one target, Reconcile the patches and the status; Run has the
--                 loop of src/bin/capacity-equalizer
--   System        the parts together: the status that the demand controller writes, as the webhook
--                 reads it, and admissions, ends of pods and ticks in any order (Interleaving)
--   Config        src/config.rs: the settings of the webhook
--   Verify        src/bin/erw-verify: args.rs (Args), env_config.rs (EnvFile), scenarios/mod.rs
--                 (Scenarios), enforcement.rs (Enforcement) and degradation.rs (Degradation),
--                 main.rs and image.rs (Run), setup.rs (Manifests for what it applies, Setup for the
--                 wait) and teardown.rs (Teardown)
--   Tests         sample data and runs
--
-- State and operations. The webhook keeps none but its caches: `evaluate` is a function of the
-- request, the two stores, the clock's reading and the settings. It returns early in six places;
-- each stage of the model (`allocation_stage`, `status_stage`, `exemption_stage`,
-- `freshness_stage`, `supply_stage`, `budget_stage`, `settle`) is the code from one early return
-- to the next, over what was read before. The controllers' state is the API server, an
-- interface `Api` whose calls take the server and return it; ApiLaws is what its documentation
-- promises of one object, and IsAnswering what an available server does. The loop of a controller is a
-- function of the events of a stretch of time: its own ticks or node events, with what the caches then
-- hold, and anything that others do to the server. A panic, the latency and the clock are inputs; the
-- guarded decision of the handler never awaits, and is a future that is ready when it is first polled.
-- The verification tool's phases are an interface over a world that they change, and each of its
-- scenarios a task over the cluster, an interface too. The interleavings are a step relation on the
-- pods, the stored allocation and what was admitted since it was written; the pods are new ones, and
-- their updates are left out. The manifests are JSON values, and an index of serde_json that panics
-- is `none`.
--
-- Integers. `+` and `+=` on i64 and i32 wrap around, as in the release profile that the images are
-- built with; saturating_add and the clamps are written out. Loops are structural recursion on
-- lists. Some run on fuel: the decimal printing of a number, one unit per digit, which is enough for
-- the 20 digits of a 64-bit number, and the polling of a deletion, where 91 polls two seconds apart
-- outlast its deadline of 180 seconds. So do the wait for readiness, with a round for each second,
-- and the loops of the degradation scenarios, where 61 rounds outlast a window of 30 seconds at two
-- submissions a second, and one of 60 seconds at a reading every two, and the loops of the
-- enforcement scenarios, where 61 rounds outlast 30 seconds at two readings a second and 15 seconds at
-- a submission a second.
--
-- Not modelled: the client of a target (src/equalizer/cluster_client.rs), the process of the webhook
-- (src/main.rs), the client and the report of the verification tool (client.rs, report.rs and build.rs
-- of src/bin/erw-verify), HTTP routing, the reading and writing of JSON and YAML, the reflectors that
-- fill the caches, Prometheus' registry and its text format, which are the libraries' work or the
-- wiring of it.
pub mod Common
pub mod K8s
pub mod Crd
pub mod Resources
pub mod TimeUtil
pub mod System
pub mod Verify
pub mod Config
pub mod Webhook
pub mod Metrics
pub mod Controllers
pub mod Equalizer
pub mod Tests
