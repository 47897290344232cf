-- ===== src/Block/Filter/Bits.antt =====
-- Bits and bytes of a filter: an assignment sets its bit and clears none.
use hybridmvcc.Base.{
  set_elem_lem, set_elem, Option-cases, ok, get_elem?, ℕ, zero, suc, ◌+◌, ◌*◌, ◌/◌, ◌%◌, ◌<◌, Bool,
  true, false, Option, none, some, List, ◌==◌, ◌≡◌, inl, inr, sym, ap, ◌∙◌, arith, Bool-cases,
  length,
}
use hybridmvcc.Block.Filter.{bit_of, set_bit}

pub set_bit-sets : (byte bit : ℕ) → bit_of (set_bit byte bit) bit ≡ true
unfolding bit_of set_bit
set_bit-sets byte zero = ground arith
set_bit-sets byte (suc bit) =
    ap (λ n. bit_of n bit) (halves (set_bit (byte / 2) bit) byte) ∙ set_bit-sets (byte / 2) bit
  where
    halves : (n m : ℕ) → (n * 2 + m % 2) / 2 ≡ n
    halves n m = omega arith

pub set_bit-keeps :
    (byte bit other : ℕ) → bit_of byte other ≡ true → bit_of (set_bit byte bit) other ≡ true
unfolding bit_of set_bit
set_bit-keeps byte zero zero h = ground arith
set_bit-keeps byte zero (suc other) h =
    ap (λ n. bit_of n other) (let e : (byte / 2 * 2 + 1) / 2 ≡ byte / 2 = omega arith in e) ∙ h
set_bit-keeps byte (suc bit) zero h =
    ap (λ n. n == 1)
      (let e : (set_bit (byte / 2) bit * 2 + byte % 2) % 2 ≡ byte % 2 = omega arith in e)
    ∙ h
set_bit-keeps byte (suc bit) (suc other) h =
    ap (λ n. bit_of n other)
      (let e : (set_bit (byte / 2) bit * 2 + byte % 2) / 2 ≡ set_bit (byte / 2) bit = omega arith in
        e)
    ∙ set_bit-keeps (byte / 2) bit other h

-- Out of range no bit is set.
unfoldable pub bit_in : List ℕ → ℕ → ℕ → Bool
bit_in bytes i bit = elim (get_elem? bytes i) [ none ↦ false | some byte ↦ bit_of byte bit ]

abbrev pub Grows : List ℕ → List ℕ → Type 0
Grows before after = (i bit : ℕ) → bit_in before i bit ≡ true → bit_in after i bit ≡ true

pub set_elem-Grows :
    (i bit : ℕ) (bytes : List ℕ)
    → i < length bytes
    → (after : List ℕ) × (set_elem i (λ byte. set_bit byte bit) bytes ≡ ok after)
      × (length after ≡ length bytes)
      × Grows bytes after
      × (bit_in after i bit ≡ true)
unfolding bit_in
set_elem-Grows i bit bytes h =
    let a = set_elem_lem i (λ byte. set_bit byte bit) bytes h in
    (
      a.after,
      a.runs,
      a.same_length,
      λ j other set. elim (Bool-cases (j == i)) [
        | inl e ↦
            let same : j ≡ i = ground (arith, e) in
            ap (λ k. bit_in a.after k other) same
            ∙ ap (seen other) a.is
            ∙ set_bit-keeps a.old bit other
                (ap (seen other) (sym a.was) ∙ ap (λ k. bit_in bytes k other) (sym same) ∙ set)
        | inr e ↦ ap (seen other) (a.others j (λ same. absurd (ground (arith, e)))) ∙ set
      ],
      ap (seen bit) a.is ∙ set_bit-sets a.old bit,
    )
  where
    seen : ℕ → Option ℕ → Bool
    seen other found = elim found [ none ↦ false | some byte ↦ bit_of byte other ]

pub bit_in-found :
    (bytes : List ℕ) (i bit : ℕ)
    → bit_in bytes i bit ≡ true
    → (byte : ℕ) × (get_elem? bytes i ≡ some byte) × (bit_of byte bit ≡ true)
unfolding bit_in
bit_in-found bytes i bit set = elim (Option-cases (get_elem? bytes i)) [
  | inl e ↦ absurd (cc (set, ap (seen bit) e))
  | inr (byte, e) ↦ (byte, e, sym (ap (seen bit) e) ∙ set)
]
  where
    seen : ℕ → Option ℕ → Bool
    seen bit found = elim found [ none ↦ false | some byte ↦ bit_of byte bit ]
