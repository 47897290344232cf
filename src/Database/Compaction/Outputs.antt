-- ===== src/Database/Compaction/Outputs.antt =====
-- A compaction's output files have all pairs of its inputs, in their order.
use native.Mathlib.Nat.{mul-le-mul_right}
use hybridmvcc.Base.{
  then_with, Option, length-append, ◌≤◌, ◌^◌, ◌+◌, ◌*◌, then_with-ok, ℕ, zero, suc, ◌<◌, Bool, true,
  false, none, some, List, [], ◌∷◌, ◌++◌, Outcome, ok, ◌≡◌, inl, inr, refl, sym, ap, ◌∙◌, arith,
  Bool-cases, ltb, length,
}
use hybridmvcc.Base.{append_assoc, append-nil}
use mathlib.Core.Path.{subst}
use hybridmvcc.Database.Flush.{create_table_builder, BlockTableOptions}
use hybridmvcc.Database.Compaction.{on_builder, build_output, on_merge, fill_output}
use hybridmvcc.Base.{Ord}
use hybridmvcc.MergingIter.{TableIterator, iterator}
use hybridmvcc.MergingIter.Fused.{next-again}
use hybridmvcc.MergingIter.Rows.{Yields}
use hybridmvcc.Table.BlockTable.{Format}
use hybridmvcc.Table.BlockTable.Builder.{finish, BlockTableBuilder, add, size_hint}
use hybridmvcc.Table.BlockTable.Builder.Blocks.{IsFormat}
use hybridmvcc.Table.BlockTable.RoundTrip.{finish-Holds, new-Holds, IsTableOf, Holds, add-Holds}
use hybridmvcc.Wal.Segment.{Device}
use hybridmvcc.Wal.Segment.Pages.{Accepts}

module _ {K V I : Type 0} (f : Format K V) (laws : IsFormat f) (device : Device)
    (a : Accepts device) (options : BlockTableOptions) (t : TableIterator K V I)
    (output_level max_file_size : ℕ) where
  -- An iterator that has said that it is at its end says so again.
  abbrev pub Fused : Type 0
  Fused =
      (it it' : I)
      → t.next_pair it ≡ (ok none, it')
      → (it'' : I) × (t.next_pair it' ≡ (ok none, it''))

  abbrev Holding : BlockTableBuilder K → List (K × V) → Type 0
  Holding = Holds f laws options.block_restart_interval options.millibits_per_key device a

  abbrev pub EndsIn : K → List (K × V) → Type 0
  EndsIn key pairs = (init : List (K × V)) × (value : V) × (pairs ≡ init ++ (key, value) ∷ [])

  record Filled (fuel : ℕ) (last : K) (b : BlockTableBuilder K) (citer : I)
      (done rest : List (K × V)) : Type 0 where
    last_key : K
    after : BlockTableBuilder K
    citer_after : I
    taken : List (K × V)
    left : List (K × V)
    runs :
        fill_output f device options t output_level max_file_size fuel last (b, citer)
        ≡ (ok last_key, (after, citer_after))
    holds : Holding after (done ++ taken)
    ends : EndsIn last_key (done ++ taken)
    yields : Yields t citer_after left
    all : taken ++ left ≡ rest

  -- A round of the inner loop once its pair is added.
  abbrev go_on : ℕ → K → BlockTableBuilder K × I → Bool → Outcome K × (BlockTableBuilder K × I)
  go_on fuel k s full = elim full [
    | true ↦ (ok k, s)
    | false ↦ fill_output f device options t output_level max_file_size fuel k s
  ]

  abbrev added : ℕ → K → Unit {0} → BlockTableBuilder K × I → Outcome K × (BlockTableBuilder K × I)
  added fuel k _ s = go_on fuel k s (ltb max_file_size (size_hint s.0))

  -- A round of the inner loop, from what the merge answers.
  abbrev round :
      ℕ → K → Option (K × V) → BlockTableBuilder K × I → Outcome K × (BlockTableBuilder K × I)
  round fuel last found s = elim found [
    | none ↦ (ok last, s)
    | some (k, v) ↦
        then_with
          (on_builder f device options t output_level max_file_size (add f device k v s.0) s.1)
          (added fuel k)
  ]

  -- `build_output` from its inner loop on, and from `finish` on.
  abbrev close_output : K → BlockTableBuilder K × I → Outcome K × (BlockTableBuilder K × I)
  close_output last s =
      then_with (on_builder f device options t output_level max_file_size (finish f device s.0) s.1)
        λ _ s'. (ok last, s')

  abbrev fill_and_close :
      ℕ → K → Unit {0} → BlockTableBuilder K × I → Outcome K × (BlockTableBuilder K × I)
  fill_and_close fuel k _ s =
      then_with (fill_output f device options t output_level max_file_size fuel k s) close_output

  round_ends :
      (fuel : ℕ) (last : K) (b : BlockTableBuilder K) (citer citer' : I)
      → t.next_pair citer ≡ (ok none, citer')
      → fill_output f device options t output_level max_file_size (suc fuel) last (b, citer)
        ≡ (ok last, (b, citer'))
  unfolding fill_output
  round_ends fuel last b citer citer' e =
      then_with-ok (round fuel last) none (b, citer')
        (ap (λ run. on_merge f device options t output_level max_file_size run b) e)

  round_adds :
      (fuel : ℕ) (last : K) (b b' : BlockTableBuilder K) (citer citer' : I) (k : K) (v : V)
      → t.next_pair citer ≡ (ok (some (k, v)), citer')
      → add f device k v b ≡ (ok tt, b')
      → fill_output f device options t output_level max_file_size (suc fuel) last (b, citer)
        ≡ go_on fuel k (b', citer') (ltb max_file_size (size_hint b'))
  unfolding fill_output
  round_adds fuel last b b' citer citer' k v e adds =
      then_with-ok (round fuel last) (some (k, v)) (b, citer')
        (ap (λ run. on_merge f device options t output_level max_file_size run b) e)
      ∙ then_with-ok (added fuel k) tt (b', citer')
          (ap (λ run. on_builder f device options t output_level max_file_size run citer') adds)

  fill_lem :
      (fuel : ℕ) (last : K) (b : BlockTableBuilder K) (citer : I) (done rest : List (K × V))
      → Fused
      → length rest < fuel
      → Holding b done
      → EndsIn last done
      → Yields t citer rest
      → Filled fuel last b citer done rest
  unfolding Yields
  fill_lem zero last b citer done rest fused enough h ends y = absurd (omega (arith, enough))
  fill_lem (suc fuel) last b citer done [] fused enough h ends (citer', e) = record {
    last_key = last;
    after = b;
    citer_after = citer';
    taken = [];
    left = [];
    runs = round_ends fuel last b citer citer' e;
    holds = subst (Holding b) (sym (append-nil done)) h;
    ends = subst (EndsIn last) (sym (append-nil done)) ends;
    yields = fused citer citer' e;
    all = refl;
  }
  fill_lem (suc fuel) last b citer done ((k, v) ∷ rest) fused enough h ends (citer', e, y) =
      let (b', adds, h') =
        add-Holds f laws options.block_restart_interval options.millibits_per_key device a b done k
          v h in
      let step = round_adds fuel last b b' citer citer' k v e adds in
      elim (Bool-cases (ltb max_file_size (size_hint b'))) [
        | inl full ↦ record {
          last_key = k;
          after = b';
          citer_after = citer';
          taken = (k, v) ∷ [];
          left = rest;
          runs = step ∙ ap (go_on fuel k (b', citer')) full;
          holds = h';
          ends = (done, v, refl);
          yields = y;
          all = refl;
        }
        | inr room ↦
            let r =
              fill_lem fuel k b' citer' (done ++ (k, v) ∷ []) rest fused (omega (arith, enough)) h'
                (done, v, refl) y in
            let same = append_assoc done ((k, v) ∷ []) r.taken in
            record {
              last_key = r.last_key;
              after = r.after;
              citer_after = r.citer_after;
              taken = (k, v) ∷ r.taken;
              left = r.left;
              runs = step ∙ ap (go_on fuel k (b', citer')) room ∙ r.runs;
              holds = subst (Holding r.after) same r.holds;
              ends = subst (EndsIn r.last_key) same r.ends;
              yields = r.yields;
              all = ap (λ xs. (k, v) ∷ xs) r.all;
            }
      ]

  pub record BuiltOutput (fuel : ℕ) (k : K) (v : V) (citer : I) (rest : List (K × V)) : Type 0 where
    pub last_key : K
    pub after : BlockTableBuilder K
    pub citer_after : I
    pub taken : List (K × V)
    pub left : List (K × V)
    pub runs :
        build_output f device options t output_level max_file_size fuel k v citer
        ≡ (ok last_key, (after, citer_after))
    pub table : IsTableOf f laws options.block_restart_interval after.out ((k, v) ∷ taken)
    pub ends : EndsIn last_key ((k, v) ∷ taken)
    pub yields : Yields t citer_after left
    pub all : taken ++ left ≡ rest

  pub build_lem :
      (fuel : ℕ) (k : K) (v : V) (citer : I) (rest : List (K × V))
      → Fused
      → 0 < options.millibits_per_key
      → suc (length rest) * options.millibits_per_key + 511999 < 2 ^ 64
      → length rest < fuel
      → Yields t citer rest
      → BuiltOutput fuel k v citer rest
  unfolding build_output
  build_lem fuel k v citer rest fused some_bits small enough y =
      let (b, adds, h) =
        add-Holds f laws options.block_restart_interval options.millibits_per_key device a
          (create_table_builder options) [] k v
          (new-Holds f laws options.block_restart_interval options.millibits_per_key device a
            options.block_size) in
      let r = fill_lem fuel k b citer ((k, v) ∷ []) rest fused enough h ([], v, refl) y in
      let fewer : length ((k, v) ∷ r.taken) ≤ suc (length rest) =
        omega (arith, ap length r.all, length-append r.taken r.left) in
      let bits = mul-le-mul_right options.millibits_per_key fewer in
      let (after, finishes, table) =
        finish-Holds f laws options.block_restart_interval options.millibits_per_key device a
          r.after ((k, v) ∷ r.taken) some_bits (omega (arith, bits, small)) r.holds in
      record {
        last_key = r.last_key;
        after = after;
        citer_after = r.citer_after;
        taken = r.taken;
        left = r.left;
        runs =
            then_with-ok (fill_and_close fuel k) tt (b, citer)
              (ap (λ run. on_builder f device options t output_level max_file_size run citer) adds)
            ∙ then_with-ok close_output r.last_key (r.after, r.citer_after) r.runs
            ∙ then_with-ok
                (λ _ s'. let x : Outcome K × (BlockTableBuilder K × I) = (ok r.last_key, s') in x)
                tt (after, r.citer_after)
                (ap
                  (λ run.
                    on_builder f device options t output_level max_file_size run r.citer_after)
                  finishes);
        table = table;
        ends = r.ends;
        yields = r.yields;
        all = r.all;
      }

-- The merge that a compaction reads from says so again.
pub iterator-Fused :
    {K V I : Type 0} ⦃o : Ord K⦄ (f : Format K V) (laws : IsFormat f) (device : Device)
    (a : Accepts device) (options : BlockTableOptions) (t : TableIterator K V I)
    (fuel output_level max_file_size : ℕ)
    → Fused f laws device a options (iterator t fuel) output_level max_file_size
iterator-Fused f laws device a options t fuel output_level max_file_size m m' e =
    (m', next-again t fuel m m' e)
