-- ===== src/Base/Results.antt =====
-- result.rs: `Result<T>` with the crate's error type. A panic (an assertion, `unreachable!`, an
-- index out of range, `unwrap` on an error) is a third outcome. Messages are not kept.
use mathlib.Core.Path.{◌≡◌, refl, ap}
use mathlib.Core.Logic.{◌⊎◌, inl, inr}

pub data Error : Type 0 where
  io file_access wrong_object_type data_corrupted program_limit_exceed : Error
  invalid_state invalid_argument out_of_memory transaction_aborted : Error

pub data Outcome {ℓ} (A : Type ℓ) : Type ℓ where
  ok : A → Outcome A
  err : Error → Outcome A
  panic : Outcome A

-- The `?` operator.
infixl 5 ◌>>=◌
abbrev pub ◌>>=◌ {ℓ ℓ'} : {A : Type ℓ} {B : Type ℓ'} → Outcome A → (A → Outcome B) → Outcome B
panic >>= next = panic
err code >>= next = err code
ok done >>= next = next done

-- `?` in a method: the state stays as the failed call left it.
abbrev pub then_with {ℓ ℓ' κ} :
    {A : Type ℓ} {B : Type ℓ'} {S : Type κ}
    → Outcome A × S
    → (A → S → Outcome B × S)
    → Outcome B × S
then_with run next = elim run.0 [
  | ok done ↦ next done run.1
  | err code ↦ (err code, run.1)
  | panic ↦ (panic, run.1)
]

pub then_with-ok {ℓ ℓ' κ} :
    {A : Type ℓ} {B : Type ℓ'} {S : Type κ} {run : Outcome A × S} (next : A → S → Outcome B × S)
    (done : A) (s : S)
    → run ≡ (ok done, s)
    → then_with run next ≡ next done s
then_with-ok next done s e = ap (λ r. then_with r next) e

-- To split on a computed outcome and keep the equation.
pub Outcome-cases {ℓ} :
    {A : Type ℓ} (m : Outcome A)
    → ((a : A) × (m ≡ ok a)) ⊎ ((e : Error) × (m ≡ err e)) ⊎ (m ≡ panic)
Outcome-cases (ok a) = inl (a, refl)
Outcome-cases (err e) = inr (inl (e, refl))
Outcome-cases panic = inr (inr refl)

-- A bind that succeeds has its first step succeed.
pub bind-ok {ℓ ℓ'} :
    {A : Type ℓ} {B : Type ℓ'} (first : Outcome A) (next : A → Outcome B) {done : B}
    → (first >>= next) ≡ ok done
    → (a : A) × (first ≡ ok a) × (next a ≡ ok done)
bind-ok panic next e = cc
bind-ok (err code) next e = cc
bind-ok (ok a) next e = (a, refl, e)
