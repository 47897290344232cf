-- ===== src/Block/Data.antt =====
-- src/block/data_block.rs: blocks of entries in key order, each key without the prefix that it
-- shares with the one before. Keys and values are bytes.
pub mod Entries
pub mod Iteration
use hybridmvcc.Base.{
  slice, ℕ, zero, suc, ◌+◌, ◌-◌, ◌*◌, ◌/◌, ◌%◌, ◌^◌, ◌<◌, ◌≤◌, Bool, true, false, not, ◌&&◌, ◌||◌,
  Option, none, some, List, [], ◌∷◌, ◌++◌, ◌==◌, Outcome, ok, err, panic, ◌≡◌, ◌≢◌, ◌⊎◌, ◌↔◌, inl,
  inr, refl, sym, ap, ◌∙◌, arith, All, Ordering, if◌then◌else◌, Ord, key_eq, key_lt, Bool-cases,
  Option-cases, ◌>>=◌, ltb, leb, length, take, drop, is_lt, is_eq, is_gt, compare, min,
}
use hybridmvcc.Bytes.{ByteOrder, VarInt}

-- An index or a slice out of range.
abbrev pub or_panic : {A : Type 0} → Option A → Outcome A
or_panic none = panic
or_panic (some a) = ok a

-- The loop over the shared prefix of two keys.
unfoldable pub shared_prefix : List ℕ → List ℕ → ℕ
shared_prefix [] ys = 0
shared_prefix (x ∷ xs) [] = 0
shared_prefix (x ∷ xs) (y ∷ ys) = if x == y then suc (shared_prefix xs ys) else 0

pub record DataBlockBuilder : Type 0 where
  pub buffer : List ℕ
  pub restarts : List ℕ
  pub restart_interval : ℕ
  pub last_key : Option (List ℕ)
  pub restart_counter : ℕ

unfoldable pub new_builder : ℕ → DataBlockBuilder
new_builder restart_interval = record {
  buffer = [];
  restarts = 0 ∷ [];
  restart_interval = restart_interval;
  last_key = none;
  restart_counter = 0;
}

abbrev pub builder_empty : DataBlockBuilder → Bool
builder_empty b = length b.buffer == 0

abbrev pub full_len : DataBlockBuilder → ℕ
full_len b = length b.buffer + length b.restarts * 4 + 4

unfoldable pub reset_builder : DataBlockBuilder → DataBlockBuilder
reset_builder b = record b { buffer = []; restarts = 0 ∷ []; restart_counter = 0; last_key = none }

-- `add` starts a new run of shared prefixes after `restart_interval` entries.
unfoldable pub restart_due : DataBlockBuilder → DataBlockBuilder
restart_due b = if ltb b.restart_counter b.restart_interval then b else record b {
  restarts = b.restarts ++ length b.buffer ∷ [];
  last_key = none;
  restart_counter = 0;
}

abbrev pub shared_with : Option (List ℕ) → List ℕ → ℕ
shared_with none key = 0
shared_with (some last) key = shared_prefix last key

abbrev pub next_key : Option (List ℕ) → ℕ → List ℕ → List ℕ
next_key none shared key = key
next_key (some last) shared key = take shared last ++ drop shared key

module _ (v : VarInt) where
  unfoldable pub entry_bytes : ℕ → List ℕ → List ℕ → List ℕ
  entry_bytes shared key value =
      v.encode_var shared
      ++ (v.encode_var (length key - shared)
          ++ (v.encode_var (length value) ++ (drop shared key ++ value)))

  unfoldable pub add : DataBlockBuilder → List ℕ → List ℕ → DataBlockBuilder
  add b key value =
      let due = restart_due b in
      let shared = shared_with due.last_key key in
      record due {
        buffer = due.buffer ++ entry_bytes shared key value;
        last_key = some (next_key due.last_key shared key);
        restart_counter = suc due.restart_counter;
      }

-- The loop of `seal` over the restart points; `as u32` keeps the low half.
unfoldable pub restart_bytes : ByteOrder → List ℕ → List ℕ
restart_bytes e [] = []
restart_bytes e (r ∷ rest) = e.write_u32 (r % 2 ^ 32) ++ restart_bytes e rest

-- `seal` drains the restart points and takes the buffer.
unfoldable pub seal : ByteOrder → DataBlockBuilder → List ℕ × DataBlockBuilder
seal e b = (
  b.buffer ++ (restart_bytes e b.restarts ++ e.write_u32 (length b.restarts % 2 ^ 32)),
  record b { buffer = []; restarts = [] },
)

pub record DataBlockIterator : Type 0 where
  pub contents : List ℕ
  pub offset : ℕ
  pub value_offset : ℕ
  pub restarts_offset : ℕ
  pub restart_key : List ℕ

unfoldable pub reset : DataBlockIterator → DataBlockIterator
reset it = record it { offset = 0; value_offset = 0; restart_key = [] }

abbrev pub valid : DataBlockIterator → Bool
valid it =
    ltb 0 (length it.restart_key)
    && (ltb 0 it.value_offset && leb it.value_offset it.restarts_offset)

unfoldable pub current : DataBlockIterator → Outcome (Option (List ℕ × List ℕ))
current it =
    if valid it
    then (do
      value ← or_panic (slice it.value_offset (it.offset - it.value_offset) it.contents)
      ok (some (it.restart_key, value)))
    else ok none

module _ (e : ByteOrder) where
  unfoldable pub num_restarts : List ℕ → ℕ
  num_restarts contents = e.read_u32 (drop (length contents - 4) contents)

  -- A block that is too short for its number of restart points panics.
  unfoldable pub new_iterator : List ℕ → Outcome DataBlockIterator
  new_iterator contents =
      let trailer = num_restarts contents * 4 + 4 in
      if leb trailer (length contents)
      then ok (record {
        contents = contents;
        offset = 0;
        value_offset = 0;
        restarts_offset = length contents - trailer;
        restart_key = [];
      })
      else panic

  unfoldable pub get_restart_offset : DataBlockIterator → ℕ → Outcome ℕ
  get_restart_offset it index = do
    word ← or_panic (slice (it.restarts_offset + 4 * index) 4 it.contents)
    ok (e.read_u32 word)

module _ (v : VarInt) where
  unfoldable pub decode_at : List ℕ → ℕ → Outcome (ℕ × ℕ)
  decode_at contents start =
      if leb start (length contents) then ok (v.decode_var (drop start contents)) else panic

  -- What the header of an entry says: the shared and the own part of the key, the value's length
  -- and the header's own.
  pub record Header : Type 0 where
    pub shared : ℕ
    pub non_shared : ℕ
    pub value_len : ℕ
    pub header_len : ℕ

  unfoldable pub next_entry : DataBlockIterator → Outcome (Header × DataBlockIterator)
  next_entry it = do
    (shared, shared_len) ← decode_at it.contents it.offset
    (non_shared, non_shared_len) ← decode_at it.contents (it.offset + shared_len)
    (value_len, value_len_len) ← decode_at it.contents (it.offset + (shared_len + non_shared_len))
    let header_len = shared_len + non_shared_len + value_len_len
    ok (
      record {
        shared = shared;
        non_shared = non_shared;
        value_len = value_len;
        header_len = header_len;
      },
      record it {
        value_offset = it.offset + header_len + non_shared;
        offset = it.offset + header_len + non_shared + value_len;
      },
    )

  unfoldable pub assemble_key : DataBlockIterator → ℕ → ℕ → ℕ → Outcome DataBlockIterator
  assemble_key it key_offset shared non_shared = do
    bytes ← or_panic (slice key_offset non_shared it.contents)
    ok (record it { restart_key = take shared it.restart_key ++ bytes })

  unfoldable pub next : DataBlockIterator → Outcome (Option (List ℕ × List ℕ) × DataBlockIterator)
  next it = if leb it.restarts_offset it.offset then ok (none, reset it) else do
    (h, it') ← next_entry it
    it'' ← assemble_key it' (it.offset + h.header_len) h.shared h.non_shared
    value ← or_panic (slice it''.value_offset h.value_len it''.contents)
    ok (some (it''.restart_key, value), it'')

  -- A loop over the entries that are left, `while let Some(entry) = iter.next()`.
  unfoldable pub read_all : ℕ → DataBlockIterator → Outcome (List (List ℕ × List ℕ))
  read_all zero it = panic
  read_all (suc fuel) it = do
    (entry, it') ← next it
    elim entry [ none ↦ ok [] | some pair ↦ do rest ← read_all fuel it'; ok (pair ∷ rest) ]

  module _ (e : ByteOrder) (key_comp : List ℕ → List ℕ → Ordering) where
    unfoldable pub seek_to_restart : DataBlockIterator → ℕ → Outcome DataBlockIterator
    seek_to_restart it index = do
      offset ← get_restart_offset e it index
      (h, it') ← next_entry (record it { offset = offset })
      assemble_key it' (offset + h.header_len) h.shared h.non_shared

    -- The binary search of `seek`; `high - low` falls in every round.
    unfoldable pub seek_loop :
        ℕ → DataBlockIterator → List ℕ → ℕ → ℕ → Outcome (ℕ × DataBlockIterator)
    seek_loop zero it key low high = if leb high low then ok (low, it) else panic
    seek_loop (suc fuel) it key low high = if leb high low then ok (low, it) else do
      let mid = (low + high + 1) / 2
      it' ← seek_to_restart it mid
      elim (is_lt (key_comp it'.restart_key key)) [
        | true ↦ seek_loop fuel it' key mid high
        | false ↦ seek_loop fuel it' key low (mid - 1)
      ]

    -- The scan of `seek`: it stops behind the first entry that is not below the key.
    unfoldable pub scan_to : ℕ → DataBlockIterator → List ℕ → Outcome DataBlockIterator
    scan_to zero it key = panic
    scan_to (suc fuel) it key = do
      (entry, it') ← next it
      elim entry [
        | none ↦ ok it'
        | some (k, value) ↦ elim (is_lt (key_comp k key)) [
          | true ↦ scan_to fuel it' key
          | false ↦ ok it'
        ]
      ]

    -- Every entry has at least one byte, so the block's length is fuel enough for the scan.
    unfoldable pub seek : DataBlockIterator → List ℕ → Outcome DataBlockIterator
    seek it key = do
      let restarts = num_restarts e it.contents
      (low, it') ← seek_loop restarts (reset it) key 0 (restarts - 1)
      offset ← get_restart_offset e it' low
      scan_to (suc (length it.contents)) (record it' { offset = offset }) key
