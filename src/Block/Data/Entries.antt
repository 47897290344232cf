-- ===== src/Block/Data/Entries.antt =====
-- One entry of a block: its key is restored from the prefix and the rest, and `next` steps over it.
use hybridmvcc.Base.{
  slice_at, length-drop, append_assoc, length-append, drop-append_at, ℕ, ◌+◌, ◌-◌, ◌^◌, ◌<◌, ◌≤◌,
  Option, none, some, List, [], ◌∷◌, ◌++◌, ◌==◌, ok, ◌≡◌, inl, inr, refl, sym, ap, ◌∙◌, arith,
  Bool-cases, length, take, drop,
}
use hybridmvcc.Bytes.{VarInt, IsVarInt}
use hybridmvcc.Block.Data.{
  DataBlockIterator, shared_prefix, shared_with, next_key, entry_bytes, decode_at, next_entry,
  assemble_key, next,
}

pub prefix_lem :
    (xs ys : List ℕ) → take (shared_prefix xs ys) xs ++ drop (shared_prefix xs ys) ys ≡ ys
unfolding shared_prefix
prefix_lem [] ys = refl
prefix_lem (x ∷ xs) [] = refl
prefix_lem (x ∷ xs) (y ∷ ys) = elim (Bool-cases (x == y)) [
  | inl e ↦ rw e (ground (arith, prefix_lem xs ys, e))
  | inr e ↦ rw e refl
]

prefix-le : (xs ys : List ℕ) → shared_prefix xs ys ≤ length ys
unfolding shared_prefix
prefix-le [] ys = omega arith
prefix-le (x ∷ xs) [] = omega arith
prefix-le (x ∷ xs) (y ∷ ys) = ground (arith, prefix-le xs ys)

pub next_key_lem :
    (last : Option (List ℕ)) (key : List ℕ) → next_key last (shared_with last key) key ≡ key
next_key_lem none key = refl
next_key_lem (some last) key = prefix_lem last key

pub shared-le : (last : Option (List ℕ)) (key : List ℕ) → shared_with last key ≤ length key
shared-le none key = omega arith
shared-le (some last) key = prefix-le last key

-- To read on behind `a`.
pub regroup :
    {A : Type 0} (c p a x post : List A)
    → c ≡ p ++ (a ++ x ++ post)
    → (c ≡ p ++ (a ++ (x ++ post))) × (c ≡ p ++ a ++ (x ++ post))
regroup c p a x post e =
    let near = e ∙ ap (λ t. p ++ t) (append_assoc a x post) in
    (near, near ∙ sym (append_assoc p a (x ++ post)))

module _ (v : VarInt) (laws : IsVarInt v) where
  decode_at_lem :
      (contents : List ℕ) (start n : ℕ) (pre rest : List ℕ)
      → contents ≡ pre ++ (v.encode_var n ++ rest)
      → start ≡ length pre
      → n < 2 ^ 64
      → decode_at v contents start ≡ ok (n, length (v.encode_var n))
  unfolding decode_at
  decode_at_lem contents start n pre rest e h b =
      rw (e, drop-append_at start pre (v.encode_var n ++ rest) h, laws.var_back n rest b)
        (ground (arith, length-append pre (v.encode_var n ++ rest)))

  -- The iterator behind an entry.
  abbrev pub behind : DataBlockIterator → ℕ → List ℕ → List ℕ → DataBlockIterator
  behind it shared key value =
      let header =
        length (v.encode_var shared)
        + length (v.encode_var (length key - shared))
        + length (v.encode_var (length value)) in
      record it {
        value_offset = it.offset + header + (length key - shared);
        offset = it.offset + header + (length key - shared) + length value;
        restart_key = take shared it.restart_key ++ drop shared key;
      }

  pub next-entry :
      (it : DataBlockIterator) (shared : ℕ) (key value pre post : List ℕ)
      → it.contents ≡ pre ++ (entry_bytes v shared key value ++ post)
      → it.offset ≡ length pre
      → it.offset < it.restarts_offset
      → shared ≤ length key
      → length key < 2 ^ 64
      → length value < 2 ^ 64
      → next v it
        ≡ ok (
          some (take shared it.restart_key ++ drop shared key, value),
          behind it shared key value,
        )
  unfolding next next_entry assemble_key
  next-entry it shared key value pre post e h lt le bk bv =
      let s = v.encode_var shared in
      let n = v.encode_var (length key - shared) in
      let l = v.encode_var (length value) in
      let d = drop shared key in
      let a = regroup it.contents pre s (n ++ (l ++ (d ++ value))) post (unfold entry_bytes in e) in
      let b = regroup it.contents (pre ++ s) n (l ++ (d ++ value)) post a.1 in
      let c = regroup it.contents (pre ++ s ++ n) l (d ++ value) post b.1 in
      let k = regroup it.contents (pre ++ s ++ n ++ l) d value post c.1 in
      let ps = length-append pre s in
      let pn = length-append (pre ++ s) n in
      let pl = length-append (pre ++ s ++ n) l in
      let pd = length-append (pre ++ s ++ n ++ l) d in
      let own = length-drop shared key in
      rw
        (
          decode_at_lem it.contents it.offset shared pre _ a.0 h (omega arith),
          decode_at_lem it.contents (it.offset + length s) (length key - shared) (pre ++ s) _ b.0
              (omega arith) (omega arith),
          decode_at_lem it.contents (it.offset + (length s + length n)) (length value)
              (pre ++ s ++ n) _ c.0 (omega arith) bv,
          slice_at it.contents (it.offset + (length s + length n + length l)) (length key - shared)
              (pre ++ s ++ n ++ l) d (value ++ post) k.0 (omega arith) (omega arith),
          slice_at it.contents
              (it.offset + (length s + length n + length l) + (length key - shared)) (length value)
              (pre ++ s ++ n ++ l ++ d) value post k.1 (omega arith) refl,
        )
        (ground arith)
