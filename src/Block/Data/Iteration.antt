-- ===== src/Block/Data/Iteration.antt =====
-- Iterating over a sealed block gives back what was added to it.
use hybridmvcc.Base.{
  ◌>>=◌, ◌%◌, ◌*◌, suc, ltb, append-nil, All, length-drop, append_assoc, length-append,
  drop-append_at, ℕ, ◌+◌, ◌-◌, ◌^◌, ◌<◌, Option, none, some, List, [], ◌∷◌, ◌++◌, ok, ◌≡◌, inl, inr,
  refl, sym, ap, ◌∙◌, arith, Bool-cases, length, take, drop,
}
use hybridmvcc.Bytes.{IsByteOrder, ByteOrder, VarInt, IsVarInt}
use hybridmvcc.Block.Data.{
  reset, seal, num_restarts, new_iterator, new_builder, restart_bytes, restart_due, read_all, add,
  DataBlockBuilder, DataBlockIterator, shared_with, entry_bytes, next,
}
use hybridmvcc.Block.Data.Entries.{prefix_lem, next_key_lem, shared-le, regroup, behind, next-entry}

abbrev pub Entry : Type 0
Entry = List ℕ × List ℕ

module _ (v : VarInt) (laws : IsVarInt v) where
  abbrev pub add_all : DataBlockBuilder → List Entry → DataBlockBuilder
  add_all b [] = b
  add_all b ((key, value) ∷ es) = add_all (add v b key value) es

  -- The bytes that `add_all` puts behind the buffer.
  abbrev added : DataBlockBuilder → List Entry → List ℕ
  added b [] = []
  added b ((key, value) ∷ es) =
      entry_bytes v (shared_with (restart_due b).last_key key) key value
      ++ added (add v b key value) es

  due-buffer : (b : DataBlockBuilder) → (restart_due b).buffer ≡ b.buffer
  unfolding restart_due
  due-buffer b = ground arith

  buffer-add :
      (b : DataBlockBuilder) (key value : List ℕ)
      → (add v b key value).buffer
        ≡ b.buffer ++ entry_bytes v (shared_with (restart_due b).last_key key) key value
  unfolding add
  buffer-add b key value =
      ap (λ t. t ++ entry_bytes v (shared_with (restart_due b).last_key key) key value)
        (due-buffer b)

  buffer-add_all :
      (b : DataBlockBuilder) (es : List Entry) → (add_all b es).buffer ≡ b.buffer ++ added b es
  buffer-add_all b [] = sym (append-nil b.buffer)
  buffer-add_all b ((key, value) ∷ es) =
      buffer-add_all (add v b key value) es
      ∙ ap (λ t. t ++ added (add v b key value) es) (buffer-add b key value)
      ∙ append_assoc b.buffer (entry_bytes v (shared_with (restart_due b).last_key key) key value)
          (added (add v b key value) es)

  pub add_all-append :
      (b : DataBlockBuilder) (es : List Entry) (key value : List ℕ)
      → add_all b (es ++ (key, value) ∷ []) ≡ add v (add_all b es) key value
  add_all-append b [] key value = refl
  add_all-append b ((k, x) ∷ es) key value = add_all-append (add v b k x) es key value

  interval-add :
      (b : DataBlockBuilder) (key value : List ℕ)
      → (add v b key value).restart_interval ≡ b.restart_interval
  unfolding add restart_due
  interval-add b key value = ground arith

  pub interval-add_all :
      (b : DataBlockBuilder) (es : List Entry)
      → (add_all b es).restart_interval ≡ b.restart_interval
  interval-add_all b [] = refl
  interval-add_all b ((key, value) ∷ es) =
      interval-add_all (add v b key value) es ∙ interval-add b key value

  -- The reader holds the key that the builder shares the next prefix with.
  abbrev Sync : Option (List ℕ) → List ℕ → Type 0
  Sync none held = Unit
  Sync (some last) held = held ≡ last

  Sync-due :
      (b : DataBlockBuilder) (held : List ℕ)
      → Sync b.last_key held
      → Sync (restart_due b).last_key held
  unfolding restart_due
  Sync-due b held h = elim (Bool-cases (ltb b.restart_counter b.restart_interval)) [
    | inl e ↦ rw e h
    | inr e ↦ rw e tt
  ]

  held_key :
      (last : Option (List ℕ)) (held key : List ℕ)
      → Sync last held
      → take (shared_with last key) held ++ drop (shared_with last key) key ≡ key
  held_key none held key h = refl
  held_key (some last) held key h = rw h (prefix_lem last key)

  last_key-add :
      (b : DataBlockBuilder) (key value : List ℕ) → (add v b key value).last_key ≡ some key
  unfolding add
  last_key-add b key value = ap (λ t. some t) (next_key_lem (restart_due b).last_key key)

  abbrev pub Small : List Entry → Type 0
  Small = All (λ (x : Entry). (length x.0 < 2 ^ 64) × (length x.1 < 2 ^ 64))

  length-entry_bytes :
      (shared : ℕ) (key value : List ℕ)
      → length (entry_bytes v shared key value)
        ≡ length (v.encode_var shared)
          + length (v.encode_var (length key - shared))
          + length (v.encode_var (length value))
          + (length key - shared)
          + length value
  unfolding entry_bytes
  length-entry_bytes shared key value =
      let s = v.encode_var shared in
      let n = v.encode_var (length key - shared) in
      let l = v.encode_var (length value) in
      let d = drop shared key in
      omega (
        arith,
        length-append s (n ++ (l ++ (d ++ value))),
        length-append n (l ++ (d ++ value)),
        length-append l (d ++ value),
        length-append d value,
        length-drop shared key,
      )

  pub buffer_grows :
      (b : DataBlockBuilder) (e : Entry) (es : List Entry) → 0 < length (add_all b (e ∷ es)).buffer
  buffer_grows b (key, value) es =
      let bytes = entry_bytes v (shared_with (restart_due b).last_key key) key value in
      omega (
        arith,
        ap length (buffer-add_all b ((key, value) ∷ es)),
        length-append b.buffer (bytes ++ added (add v b key value) es),
        length-append bytes (added (add v b key value) es),
        length-entry_bytes (shared_with (restart_due b).last_key key) key value,
        laws.var_pos (shared_with (restart_due b).last_key key),
      )

  -- The iterator gives these entries one by one, and then none.
  unfoldable pub Gives : DataBlockIterator → List Entry → Type 0
  Gives it [] = (it' : DataBlockIterator) × (next v it ≡ ok (none, it'))
  Gives it (e ∷ es) = (it' : DataBlockIterator) × (next v it ≡ ok (some e, it')) × Gives it' es

  gives_lem :
      (es : List Entry) (b : DataBlockBuilder) (it : DataBlockIterator) (tail : List ℕ)
      → Small es
      → it.contents ≡ b.buffer ++ (added b es ++ tail)
      → it.offset ≡ length b.buffer
      → it.restarts_offset ≡ length (b.buffer ++ added b es)
      → Sync b.last_key it.restart_key
      → Gives it es
  unfolding Gives
  gives_lem [] b it tail small e o r sync =
      (reset it, unfold next in ground (arith, length-append b.buffer []))
  gives_lem ((key, value) ∷ es) b it tail small e o r sync =
      let last = (restart_due b).last_key in
      let shared = shared_with last key in
      let bytes = entry_bytes v shared key value in
      let more = added (add v b key value) es in
      let at = regroup it.contents b.buffer bytes more tail e in
      let kept = held_key last it.restart_key key (Sync-due b it.restart_key sync) in
      let grown = buffer-add b key value in
      let step =
        next-entry v laws it shared key value b.buffer (more ++ tail) at.0 o
          (omega (
            arith,
            r,
            o,
            length-append b.buffer (bytes ++ more),
            length-append bytes more,
            length-entry_bytes shared key value,
            laws.var_pos shared,
          ))
          (shared-le last key) small.0.0 small.0.1 in
      let ih =
        gives_lem es (add v b key value) (behind v laws it shared key value) tail small.1
          (at.1 ∙ ap (λ t. t ++ (more ++ tail)) (sym grown))
          (omega (
            arith,
            o,
            length-entry_bytes shared key value,
            length-append b.buffer bytes,
            ap length grown,
          ))
          (r ∙ ap length (sym (append_assoc b.buffer bytes more) ∙ ap (λ t. t ++ more) (sym grown)))
          (rw (last_key-add b key value) kept) in
      (
        behind v laws it shared key value,
        step ∙ ap (λ k. ok (some (k, value), behind v laws it shared key value)) kept,
        ih,
      )

  read_all_lem :
      (es : List Entry) (it : DataBlockIterator)
      → Gives it es
      → read_all v (suc (length es)) it ≡ ok es
  unfolding read_all Gives
  read_all_lem [] it (it', e) = rw e refl
  read_all_lem (x ∷ es) it (it', e, rest) = rw (e, read_all_lem es it' rest) refl

pub length-restart_bytes :
    (e : ByteOrder) (laws : IsByteOrder e) (rs : List ℕ)
    → length (restart_bytes e rs) ≡ length rs * 4
unfolding restart_bytes
length-restart_bytes e laws [] = refl
length-restart_bytes e laws (r ∷ rs) = omega (
  arith,
  length-append (e.write_u32 (r % 2 ^ 32)) (restart_bytes e rs),
  laws.u32_width (r % 2 ^ 32),
  length-restart_bytes e laws rs,
)

module _ (e : ByteOrder) (v : VarInt) (words : IsByteOrder e) (laws : IsVarInt v) where
  -- The iterator at the front of a sealed block.
  abbrev front : DataBlockBuilder → DataBlockIterator
  front b = record {
    contents = (seal e b).0;
    offset = 0;
    value_offset = 0;
    restarts_offset = length b.buffer;
    restart_key = [];
  }

  num_restarts-append : (x : List ℕ) (n : ℕ) → n < 2 ^ 32 → num_restarts e (x ++ e.write_u32 n) ≡ n
  unfolding num_restarts
  num_restarts-append x n h =
      let w = e.write_u32 n in
      ap e.read_u32 (
        drop-append_at (length (x ++ w) - 4) x w
          (omega (arith, length-append x w, words.u32_width n))
        ∙ sym (append-nil w))
      ∙ words.u32_back n [] h

  num_restarts-seal :
      (b : DataBlockBuilder)
      → length b.restarts < 2 ^ 32
      → num_restarts e (seal e b).0 ≡ length b.restarts
  unfolding seal
  num_restarts-seal b h =
      let n = length b.restarts in
      let r = restart_bytes e b.restarts in
      let same : n % 2 ^ 32 ≡ n = omega arith in
      rw same (
        ap (λ t. num_restarts e t) (sym (append_assoc b.buffer r (e.write_u32 n)))
        ∙ num_restarts-append (b.buffer ++ r) n h)

  new-seal :
      (b : DataBlockBuilder)
      → length b.restarts < 2 ^ 32
      → new_iterator e (seal e b).0 ≡ ok (front b)
  unfolding new_iterator seal
  new-seal b h =
      let n = length b.restarts in
      let r = restart_bytes e b.restarts in
      let w = e.write_u32 (n % 2 ^ 32) in
      let total = length-append b.buffer (r ++ w) in
      let rest = length-append r w in
      let width = words.u32_width (n % 2 ^ 32) in
      let size = length-restart_bytes e words b.restarts in
      rw (num_restarts-seal b h) (ground (arith, total, rest, width, size))

  pub seal-Gives :
      (restart_interval : ℕ) (es : List Entry)
      → Small v laws es
      → length (add_all v laws (new_builder restart_interval) es).restarts < 2 ^ 32
      → (it : DataBlockIterator) × (new_iterator e
            (seal e (add_all v laws (new_builder restart_interval) es)).0
          ≡ ok it)
        × Gives v laws it es
  unfolding new_builder seal
  seal-Gives restart_interval es small h =
      let b = add_all v laws (new_builder restart_interval) es in
      let tail = restart_bytes e b.restarts ++ e.write_u32 (length b.restarts % 2 ^ 32) in
      let grown = buffer-add_all v laws (new_builder restart_interval) es in
      (
        front b,
        new-seal b h,
        gives_lem v laws es (new_builder restart_interval) (front b) tail small
            (ap (λ t. t ++ tail) grown) refl (ap length grown) tt,
      )

  -- Iterating from the front over the sealed block gives back all entries that were added, in
  -- their order, and then ends: for entries and restart points whose sizes the block's format can
  -- hold, and whatever the restart interval.
  pub read-seal :
      (restart_interval : ℕ) (es : List Entry)
      → Small v laws es
      → length (add_all v laws (new_builder restart_interval) es).restarts < 2 ^ 32
      → (new_iterator e (seal e (add_all v laws (new_builder restart_interval) es)).0 >>= λ it.
          read_all v (suc (length es)) it)
        ≡ ok es
  read-seal restart_interval es small h =
      let (it, starts, gives) = seal-Gives restart_interval es small h in
      rw starts (read_all_lem v laws es it gives)
