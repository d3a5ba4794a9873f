-- ===== src/Verify/Degradation/Classification.antt =====
-- How the scenarios of bin/erw-verify/scenarios/degradation.rs read the webhook's own messages.
use mathlib.Core.List.{append_assoc}
use emergency_ration_webhook.Common.{ℕ, ◌++◌, true, ◌≡◌, ◌∙◌, refl, ap}
use emergency_ration_webhook.Common.Text.{codes, Text, show_ℕ, is_prefix, contains}
use emergency_ration_webhook.Common.Text.Decimal.{codes-append}
use emergency_ration_webhook.Common.Text.Search.{contains-append}
use emergency_ration_webhook.Webhook.Failure.{
  capacity_data_stale, capacity_data_missing, MissingCapacityData, allocation, cluster_capacity,
  message, ◌<>◌,
}
use emergency_ration_webhook.Verify.Degradation.{
  expected, unexpected, expect_capacity_unavailable, expect_stale,
}

expect_capacity_unavailable-append :
    (xs ys : Text)
    → is_prefix (codes "capacity data unavailable") ys ≡ true
    → expect_capacity_unavailable (xs ++ ys) ≡ expected
unfolding expect_capacity_unavailable
expect_capacity_unavailable-append xs ys h =
    rw (contains-append (codes "capacity data unavailable") xs ys h) refl

expect_stale-append :
    (xs ys : Text) → is_prefix (codes "exceeds") ys ≡ true → expect_stale (xs ++ ys) ≡ expected
unfolding expect_stale
expect_stale-append xs ys h = rw (contains-append (codes "exceeds") xs ys h) refl

-- The message of stale data, up to the age and behind it.
message-stale :
    (age threshold : ℕ)
    → codes (message (capacity_data_stale age threshold))
      ≡ codes "capacity data unavailable: last refresh "
        ++ (codes (show_ℕ age)
            ++ (codes "s ago exceeds " ++ codes (show_ℕ threshold <> "s threshold")))
unfolding message
message-stale age threshold =
    codes-append "capacity data unavailable: last refresh " _
    ∙ ap (codes "capacity data unavailable: last refresh " ++◌) (
        codes-append (show_ℕ age) _ ∙ ap (codes (show_ℕ age) ++◌) (codes-append "s ago exceeds " _))

missing-expected :
    (which : MissingCapacityData) (before after : Text)
    → expect_capacity_unavailable
        (before ++ (codes (message (capacity_data_missing which)) ++ after))
      ≡ expected
unfolding message
missing-expected allocation before after = expect_capacity_unavailable-append before _ refl
missing-expected cluster_capacity before after = expect_capacity_unavailable-append before _ refl

stale-unavailable :
    (age threshold : ℕ) (before after : Text)
    → expect_capacity_unavailable
        (before ++ (codes (message (capacity_data_stale age threshold)) ++ after))
      ≡ expected
stale-unavailable age threshold before after =
    rw (message-stale age threshold) (expect_capacity_unavailable-append before _ refl)

stale-expected :
    (age threshold : ℕ) (before after : Text)
    → expect_stale (before ++ (codes (message (capacity_data_stale age threshold)) ++ after))
      ≡ expected
stale-expected age threshold before after =
    let opening =
      before
      ++ (codes "capacity data unavailable: last refresh "
          ++ (codes (show_ℕ age) ++ codes "s ago ")) in
    let ending = codes "exceeds " ++ (codes (show_ℕ threshold <> "s threshold") ++ after) in
    let split : before ++ (codes (message (capacity_data_stale age threshold)) ++ after)
        ≡ opening ++ ending =
      rw (message-stale age threshold) (simp append_assoc) in
    rw split (expect_stale-append opening ending refl)

missing-not_stale :
    (which : MissingCapacityData)
    → expect_stale (codes (message (capacity_data_missing which))) ≡ unexpected
unfolding expect_stale message contains
missing-not_stale allocation = refl
missing-not_stale cluster_capacity = refl

-- Whatever stands around the webhook's message, S10 takes the rejection for missing data as the one it
-- waits for, S11 takes that for stale data, and S10 takes that for stale data as well; but S11 does not
-- take the bare message for missing data.
pub expect_messages :
    (which : MissingCapacityData) (age threshold : ℕ) (before after : Text)
    → (expect_capacity_unavailable
          (before ++ (codes (message (capacity_data_missing which)) ++ after))
        ≡ expected)
      × (expect_stale (before ++ (codes (message (capacity_data_stale age threshold)) ++ after))
          ≡ expected)
      × (expect_capacity_unavailable
            (before ++ (codes (message (capacity_data_stale age threshold)) ++ after))
          ≡ expected)
      × (expect_stale (codes (message (capacity_data_missing which))) ≡ unexpected)
expect_messages which age threshold before after = (
  missing-expected which before after,
  stale-expected age threshold before after,
  stale-unavailable age threshold before after,
  missing-not_stale which,
)
