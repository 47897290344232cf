-- ===== src/Tests/Compactions.antt =====
-- A compaction of a list of pairs into several small files.
use hybridmvcc.MergingIter.Rows.{Yields}
use hybridmvcc.Database.Compaction.Complete.{write_outputs-Reads, ReadBack, Written}
use hybridmvcc.Database.Compaction.Outputs.{Fused}
use hybridmvcc.Base.{
  arith, true, sym, ap, ◌^◌, ◌<◌, All, map, ℕ, none, some, List, [], ◌∷◌, ok, ◌≡◌, refl, length,
}
use mathlib.Core.Path.{subst}
use hybridmvcc.Block.Data
use hybridmvcc.Block.Filter
use hybridmvcc.Base.{set_elem}
use hybridmvcc.Block.Filter.{
  add_all_entries, add_hash_prepared, add_key, add_pending, add_probes, add_rest, calculate_space,
  choose_num_probes, create_filter_block_builder, data_size, hash_offset, new_bits_builder,
  prepare_hash, seal_bits, seal_filter, seal_into, set_bit,
}
use hybridmvcc.Block.Data.{
  new_builder, restart_due, entry_bytes, seal, restart_bytes, reset_builder, shared_prefix,
  full_len,
}
use hybridmvcc.Table.BlockTable.Builder.{
  new, add, add_raw, make_room, need_flush, push, index_last, flush, write_block, write_all, finish,
  add_item, footer_bytes, write_filter, write_toc, size_hint,
}
use hybridmvcc.Database.Compaction.{Work, fill_output, build_output, store, write_outputs}
use hybridmvcc.MergingIter.{TableIterator}
use hybridmvcc.Version.{new_edit}
use hybridmvcc.Tests.BlockTables.{
  cache_fresh, cache, last_map-IsLruMap, last_map, format-IsFormat, format, device, options,
}

abbrev list_iterator : TableIterator ℕ ℕ (List (ℕ × ℕ))
list_iterator = record {
  next_pair = λ pairs. elim pairs [ [] ↦ (ok none, []) | pair ∷ rest ↦ (ok (some pair), rest) ];
  reset_iter = λ pairs. pairs;
  seek_iter = λ key pairs. pairs;
}

abbrev pairs : List (ℕ × ℕ)
pairs = (1, 10) ∷ (2, 20) ∷ (300, 40) ∷ (301, 50) ∷ (302, 60) ∷ []

abbrev work : Work ℕ (List (ℕ × ℕ))
work = record { citer = pairs; next_file_num = 7; edit = new_edit; files = [] }

abbrev run : List (ℕ × ℕ)
run =
    map (λ (x : ℕ × List ℕ). (x.0, length x.1))
      (write_outputs format device options list_iterator 1 60 6 work).1.files

-- Five pairs, in files of about 60 bytes before their end.
file_lengths : run ≡ (7, 168) ∷ (8, 168) ∷ (9, 161) ∷ []
unfolding write_outputs build_output fill_output store size_hint new add add_raw make_room
    need_flush new_builder push index_last Data.add restart_due entry_bytes flush write_block
    write_all seal restart_bytes reset_builder finish set_elem shared_prefix Filter.add
    add_all_entries add_hash_prepared add_key add_pending add_probes add_rest calculate_space
    choose_num_probes create_filter_block_builder data_size hash_offset new_bits_builder
    prepare_hash seal_bits seal_filter seal_into set_bit add_item footer_bytes write_filter
    write_toc
file_lengths = refl

short_files :
    (files : List (ℕ × List ℕ))
    → All (λ (x : ℕ × ℕ). x.1 < 2 ^ 32) (map (λ (x : ℕ × List ℕ). (x.0, length x.1)) files)
    → All (λ (x : ℕ × List ℕ). length x.1 < 2 ^ 32) files
short_files [] h = tt
short_files (x ∷ files) (h, rest) = (h, short_files files rest)

list_iterator-Fused :
    Fused format format-IsFormat device (λ file bytes. refl) options list_iterator 1 60
list_iterator-Fused [] it' e = ([], ap (λ run. list_iterator.next_pair run.1) (sym e))
list_iterator-Fused (x ∷ it) it' e = absurd (cc (ap (λ run. run.0) e))

pairs_yielded : Yields list_iterator pairs pairs
unfolding Yields
pairs_yielded = (_, refl, (_, refl, (_, refl, (_, refl, (_, refl, ([], refl))))))

write_outputs-Reads_example :
    (written : Written format format-IsFormat device
      (λ file bytes. refl)
      options
      list_iterator
      1
      60
      6
      work
      pairs)
    × All
        (ReadBack format format-IsFormat device
          (λ file bytes. refl)
          options
          list_iterator
          1
          60
          last_map
          last_map-IsLruMap
          (λ k. k.1)
          true
          cache
          (omega arith, refl)
          cache_fresh)
        written.outputs
write_outputs-Reads_example =
    write_outputs-Reads format format-IsFormat device (λ file bytes. refl) options list_iterator 1
      60 last_map last_map-IsLruMap (λ k. k.1) true cache (omega arith, refl) cache_fresh 6 work
      pairs list_iterator-Fused (omega arith) (omega arith) (omega arith) pairs_yielded refl
      (short_files (write_outputs format device options list_iterator 1 60 6 work).1.files (
        subst (All (λ (x : ℕ × ℕ). x.1 < 2 ^ 32)) (sym file_lengths)
          (omega arith, (omega arith, (omega arith, tt)))))
