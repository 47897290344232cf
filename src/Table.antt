-- ===== src/Table.antt =====
-- src/table.rs: the names and the metadata of table files.
pub mod BlockTable
use hybridmvcc.Base.{ℕ, Bool, false, List}
use hybridmvcc.Timestamp.{Timestamp}

pub record TableFileRef : Type 0 where
  pub path_id : ℕ
  pub seqnum : ℕ

pub record TableFileMeta {ℓ} (K : Type ℓ) : Type ℓ where
  pub file_ref : TableFileRef
  pub size : ℕ
  pub min_xip : Timestamp
  pub infimum : K
  pub supremum : K
  pub being_compacted : Bool

abbrev pub TableFileSet {ℓ} : Type ℓ → Type ℓ
TableFileSet K = List (List (TableFileMeta K))

unfoldable pub new_meta {ℓ} : {K : Type ℓ} → TableFileRef → ℕ → Timestamp → K → K → TableFileMeta K
new_meta file_ref size min_xip infimum supremum = record {
  file_ref = file_ref;
  size = size;
  min_xip = min_xip;
  infimum = infimum;
  supremum = supremum;
  being_compacted = false;
}
