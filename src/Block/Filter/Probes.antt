-- ===== src/Block/Filter/Probes.antt =====
-- The probes of a hash: adding sets them all and clears no bit, and the reader finds them set.
use hybridmvcc.Base.{
  ℕ, zero, suc, ◌+◌, ◌*◌, ◌%◌, ◌^◌, ◌<◌, ◌≤◌, Bool, true, false, List, Outcome, ok, ◌≡◌, refl, ap,
  ◌∙◌, arith, ◌>>=◌, leb, length,
}
use hybridmvcc.Block.Filter.{step, byte_at, bit_at, add_probes, add_hash_prepared, probes_match}
use hybridmvcc.Block.Filter.Bits.{bit_in-found, bit_in, Grows, set_elem-Grows}

-- All bits that `probes` rounds from `h` look at are set.
unfoldable pub Probes : ℕ → ℕ → ℕ → List ℕ → Type 0
Probes zero h offset bytes = Unit {0}
Probes (suc probes) h offset bytes =
    (bit_in bytes (offset + byte_at h) (bit_at h) ≡ true)
    × Probes probes (h * step % 2 ^ 32) offset bytes

pub Probes-Grows :
    (probes h offset : ℕ) (before after : List ℕ)
    → Grows before after
    → Probes probes h offset before
    → Probes probes h offset after
unfolding Probes
Probes-Grows zero h offset before after grows p = tt
Probes-Grows (suc probes) h offset before after grows p = (
  grows (offset + byte_at h) (bit_at h) p.0,
  Probes-Grows probes (h * step % 2 ^ 32) offset before after grows p.1,
)

-- A run that adds to `bytes`: it ends, keeps the length and all bits, and `P` holds of its result.
pub record Added (run : Outcome (List ℕ)) (bytes : List ℕ) (P : List ℕ → Type 0) : Type 0 where
  pub after : List ℕ
  pub runs : run ≡ ok after
  pub same_length : length after ≡ length bytes
  pub grows : Grows bytes after
  pub holds : P after

-- The high half of a hash and the start of a cache line that lies in the filter.
abbrev pub InRange : ℕ → ℕ × ℕ → Type 0
InRange len e = (e.0 < 2 ^ 32) × (e.1 + 64 ≤ len)

abbrev pub Set : ℕ → List ℕ → ℕ × ℕ → Type 0
Set probes bytes e = Probes probes e.0 e.1 bytes

add_probes_lem :
    (probes h offset : ℕ) (bytes : List ℕ)
    → h < 2 ^ 32
    → offset + 64 ≤ length bytes
    → Added (add_probes probes h offset bytes) bytes (Probes probes h offset)
unfolding add_probes Probes
add_probes_lem zero h offset bytes word room = record {
  after = bytes;
  runs = refl;
  same_length = refl;
  grows = λ i bit set. set;
  holds = tt;
}
add_probes_lem (suc probes) h offset bytes word room =
    let (after, runs, same, grows, set) =
      set_elem-Grows (offset + byte_at h) (bit_at h) bytes (omega (arith, word, room)) in
    let later =
      add_probes_lem probes (h * step % 2 ^ 32) offset after (omega arith) (omega (arith, same)) in
    record {
      after = later.after;
      runs =
          ap (λ r. r >>= λ next. add_probes probes (h * step % 2 ^ 32) offset next) runs
          ∙ later.runs;
      same_length = later.same_length ∙ same;
      grows = λ i bit s. later.grows i bit (grows i bit s);
      holds = (later.grows (offset + byte_at h) (bit_at h) set, later.holds);
    }

pub add_hash_prepared_lem :
    (probes : ℕ) (e : ℕ × ℕ) (bytes : List ℕ)
    → InRange (length bytes) e
    → Added (add_hash_prepared probes e bytes) bytes (λ after. Set probes after e)
unfolding add_hash_prepared
add_hash_prepared_lem probes (h, offset) bytes (word, room) =
    let added = add_probes_lem probes h offset bytes word room in
    let e : leb offset (length bytes) ≡ true = ground (arith, room) in
    record {
      after = added.after;
      runs = rw e added.runs;
      same_length = added.same_length;
      grows = added.grows;
      holds = added.holds;
    }

pub probes_match_lem :
    (probes h offset : ℕ) (bytes : List ℕ)
    → Probes probes h offset bytes
    → probes_match probes h offset bytes ≡ ok true
unfolding probes_match Probes
probes_match_lem zero h offset bytes p = refl
probes_match_lem (suc probes) h offset bytes p =
    let (byte, found, set) = bit_in-found bytes (offset + byte_at h) (bit_at h) p.0 in
    let next = probes_match probes (h * step % 2 ^ 32) offset bytes in
    rw found (
      ap (λ (t : Bool). let r : Outcome Bool = elim t [ true ↦ next | false ↦ ok false ] in r) set
      ∙ probes_match_lem probes (h * step % 2 ^ 32) offset bytes p.1)
