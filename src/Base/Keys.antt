-- ===== src/Base/Keys.antt =====
-- The key order, `K: Ord`, as an interface: what `Ord` documents of `cmp`.
use Prim.Native.Nat.{ℕ, compare, Ordering}
use mathlib.Core.Path.{◌≡◌}
use mathlib.Core.Logic.{◌↔◌}
use mathlib.Core.Bool.{Bool, true, false}
use native.Mathlib.Omega.{arith}

abbrev pub reverse_ordering : Ordering → Ordering
reverse_ordering Ordering.lt = Ordering.gt
reverse_ordering Ordering.eq = Ordering.eq
reverse_ordering Ordering.gt = Ordering.lt

pub record Ord {ℓ} (K : Type ℓ) : Type ℓ where
  pub cmp : K → K → Ordering
  pub cmp_eq : (a b : K) → (cmp a b ≡ Ordering.eq) ↔ (a ≡ b)
  pub cmp_swap : (a b : K) → cmp b a ≡ reverse_ordering (cmp a b)
  pub cmp_trans :
      (a b c : K) → cmp a b ≡ Ordering.lt → cmp b c ≡ Ordering.lt → cmp a c ≡ Ordering.lt

abbrev pub is_lt : Ordering → Bool
is_lt Ordering.lt = true
is_lt _ = false

abbrev pub is_eq : Ordering → Bool
is_eq Ordering.eq = true
is_eq _ = false

abbrev pub is_gt : Ordering → Bool
is_gt Ordering.gt = true
is_gt _ = false

module _ {ℓ} {K : Type ℓ} ⦃o : Ord K⦄ where
  abbrev pub key_lt : K → K → Bool
  key_lt a b = is_lt (o.cmp a b)

  abbrev pub key_gt : K → K → Bool
  key_gt a b = is_gt (o.cmp a b)

  abbrev pub key_eq : K → K → Bool
  key_eq a b = is_eq (o.cmp a b)

pub ℕ-cmp_eq : (a b : ℕ) → (compare a b ≡ Ordering.eq) ↔ (a ≡ b)
ℕ-cmp_eq a b = ground arith

pub ℕ-cmp_swap : (a b : ℕ) → compare b a ≡ reverse_ordering (compare a b)
ℕ-cmp_swap a b = ground arith

pub ℕ-cmp_trans :
    (a b c : ℕ) → compare a b ≡ Ordering.lt → compare b c ≡ Ordering.lt → compare a c ≡ Ordering.lt
ℕ-cmp_trans a b c h k = ground arith

instance abbrev pub ℕ_ord : Ord ℕ
ℕ_ord = record { cmp = compare; cmp_eq = ℕ-cmp_eq; cmp_swap = ℕ-cmp_swap; cmp_trans = ℕ-cmp_trans }
