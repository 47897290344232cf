-- ===== src/Base/Assign.antt =====
-- Assignments to an element of a list, `xs[i] = x` and `xs[i] |= x`.
use Prim.Native.Nat.{ℕ, zero, suc, ◌<◌}
use mathlib.Core.Path.{◌≡◌, refl, ap}
use mathlib.Core.Logic.{◌≢◌}
use mathlib.Core.Option.{some}
use mathlib.Core.List.{List, [], ◌∷◌}
use native.Mathlib.Omega.{arith}
use hybridmvcc.Base.Lists.{length, get_elem?}
use hybridmvcc.Base.Results.{Outcome, ok, panic, ◌>>=◌}

-- `set_elem i f xs` is an assignment to the element `i`, a panic when it is out of range.
unfoldable pub set_elem : {A : Type 0} → ℕ → (A → A) → List A → Outcome (List A)
set_elem i f [] = panic
set_elem zero f (x ∷ xs) = ok (f x ∷ xs)
set_elem (suc i) f (x ∷ xs) = do rest ← set_elem i f xs; ok (x ∷ rest)

-- An assignment in range: the element there is changed, and no other.
pub record Assigned {A : Type 0} (i : ℕ) (f : A → A) (xs : List A) : Type 0 where
  pub old : A
  pub after : List A
  pub was : get_elem? xs i ≡ some old
  pub runs : set_elem i f xs ≡ ok after
  pub same_length : length after ≡ length xs
  pub is : get_elem? after i ≡ some (f old)
  pub others : (j : ℕ) → j ≢ i → get_elem? after j ≡ get_elem? xs j

pub set_elem_lem :
    {A : Type 0} → (i : ℕ) (f : A → A) (xs : List A) → i < length xs → Assigned i f xs
unfolding set_elem
set_elem_lem i f [] h = absurd (omega arith)
set_elem_lem zero f (x ∷ xs) h = record {
  old = x;
  after = f x ∷ xs;
  was = refl;
  runs = refl;
  same_length = refl;
  is = refl;
  others = λ j. elim j as (λ k. k ≢ 0 → get_elem? (f x ∷ xs) k ≡ get_elem? (x ∷ xs) k) [
    | zero ↦ λ ne. absurd (ne refl)
    | suc j' ↦ λ ne. refl
  ];
}
set_elem_lem (suc i) f (x ∷ xs) h =
    let a = set_elem_lem i f xs (omega arith) in
    record {
      old = a.old;
      after = x ∷ a.after;
      was = a.was;
      runs = ap (λ r. r >>= λ rest. ok (x ∷ rest)) a.runs;
      same_length = ap suc a.same_length;
      is = a.is;
      others = λ j. elim j as (λ k. k ≢ suc i → get_elem? (x ∷ a.after) k ≡ get_elem? (x ∷ xs) k) [
        | zero ↦ λ ne. refl
        | suc j' ↦ λ ne. a.others j' (λ e. ne (ap suc e))
      ];
    }

pub some-injective : {A : Type 0} {x y : A} → some x ≡ some y → x ≡ y
some-injective e = cc e
