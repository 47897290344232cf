-- ===== src/Tests/Timestamps.antt =====
-- Timestamps at concrete words.
use hybridmvcc.Base.{◌+◌, ◌-◌, ◌^◌, false, ◌≡◌, refl, arith, Ordering}
use hybridmvcc.Timestamp.{type_, raw_timestamp, inc, cmp, is_invalid}
use hybridmvcc.Timestamp.Order.{cmp_half_circle}
use hybridmvcc.Timestamp.Successor.{inc_lem}

cmp_half_circle_example : (cmp 5 (5 + 2 ^ 61) ≡ Ordering.lt) × (cmp (5 + 2 ^ 61) 5 ≡ Ordering.lt)
cmp_half_circle_example =
    cmp_half_circle 5 (5 + 2 ^ 61) (omega arith) (omega arith) (unfold type_ in refl)
      (unfold raw_timestamp in refl)

-- At the wrap the successor of the last commit timestamp is 1.
inc_lem_example :
    (is_invalid (inc (2 ^ 62 - 1)) ≡ false)
    × (type_ (inc (2 ^ 62 - 1)) ≡ type_ (2 ^ 62 - 1))
    × (cmp (2 ^ 62 - 1) (inc (2 ^ 62 - 1)) ≡ Ordering.lt)
inc_lem_example = inc_lem (2 ^ 62 - 1) (omega arith)

inc_wrap : inc (2 ^ 62 - 1) ≡ 1
unfolding inc
inc_wrap = refl
