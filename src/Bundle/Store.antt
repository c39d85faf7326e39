-- ===== src/Bundle/Store.antt =====
-- `bundleStore` (bundle_store.go). Every method holds the store's mutex for its whole body, so one
-- call is one step; a method that changes the disk returns the new world, also on an error.
mod Files
pub mod Paths
pub mod Atomic
pub mod Records
unfoldable pub use Files.{bundle_file, pointer_file}
use mihomo_extension_sidecar.Common.{
  ℕ, ◌==◌, Bool, true, false, not, List, [], ◌∷◌, ◌++◌, Option, none, some, Bytes, codes, bytes_eq,
  if◌then◌else◌, bytes_lt, sort,
}
use mihomo_extension_sidecar.Bundle.Types.{
  BundleRecord, BundlePointer, bundle_store_schema, empty_pointer, state_text, Error, not_found,
  corrupt, unsupported_schema, unclassified, Result, ok, err, guard, or_err,
}
use mihomo_extension_sidecar.Bundle.Id.{validate_bundle_id}
use mihomo_extension_sidecar.Bundle.Platform.{
  Folder, root, bundles, FilePath, temp, FileRead, not_exist, failed, found, Removal, removed,
  was_absent, not_removed, DirEntry, Platform,
}
use mihomo_extension_sidecar.Bundle.Types
use mathlib.Core.Option

-- `strings.HasSuffix` with `strings.TrimSuffix`: what stands before a final `.json`.
unfoldable pub strip_suffix : Bytes → Option Bytes
strip_suffix [] = none
strip_suffix (c ∷ cs) =
    let rest = strip_suffix cs in
    if bytes_eq (c ∷ cs) (codes ".json") then some [] else Option.map (◌∷◌ c) rest

-- The loop of `List` over the entries of the folder.
unfoldable pub bundle_names : List DirEntry → List Bytes
unfolding strip_suffix
bundle_names [] = []
bundle_names (e ∷ es) =
    let rest = bundle_names es in
    if e.is_dir then rest else elim (strip_suffix e.name) [ none ↦ rest | some id ↦ id ∷ rest ]

module _ (pf : Platform) where
  open pf use {
    World, read_file, read_dir, open_truncate, write_file, sync_file, close_file, rename, remove,
    sync_folder, remove_bundles, make_bundles, now, sha256_hex, format_int, encode_record,
    decode_record, encode_pointer, decode_pointer,
  }

  -- A step on the disk that may fail.
  abbrev pub M : Type 0 → Type 0
  M A = World → Result A × World

  infixl 5 ◌>>=◌ ◌>>◌
  abbrev pub ◌>>=◌ : {A B : Type 0} → M A → (A → M B) → M B
  ◌>>=◌ m f w = elim (m w).0 [ ok a ↦ f a (m w).1 | err e ↦ (err e, (m w).1) ]

  abbrev pub ◌>>◌ : {B : Type 0} → M (Unit {0}) → M B → M B
  m >> k = m >>= λ _. k

  abbrev pub query : {A : Type 0} → (World → Result A) → M A
  query f w = (f w, w)

  -- `if err := act(); err != nil { cleanup(); return ... }`
  abbrev pub attempt : (World → Bool × World) → (World → World) → M (Unit {0})
  attempt act cleanup w = elim (act w).0 [
    | true ↦ (ok tt, (act w).1)
    | false ↦ (err unclassified, cleanup (act w).1)
  ]

  -- `writeJSON`, on the encoded text.
  unfoldable pub write_json : FilePath → Bytes → M (Unit {0})
  write_json p raw = do
    attempt (open_truncate (temp p)) (λ w. w)
    attempt (write_file (temp p) raw) (λ w. (remove (temp p) (close_file (temp p) w).1).1)
    attempt (sync_file (temp p)) (λ w. (remove (temp p) (close_file (temp p) w).1).1)
    attempt (close_file (temp p)) (λ w. (remove (temp p) w).1)
    attempt (rename (temp p) p) (λ w. (remove (temp p) w).1)
    attempt (sync_folder p.folder) (λ w. w)

  unfoldable pub bundle_path : Bytes → Result FilePath
  bundle_path id = Types.◌>>=◌ (validate_bundle_id id) (λ _. ok (bundle_file id))

  abbrev nul : Bytes
  nul = 0 ∷ []

  unfoldable pub compute_record_digest : BundleRecord → Bytes
  unfolding state_text
  compute_record_digest r = sha256_hex (
      codes "bundle-record/v1"
      ++ nul
      ++ format_int r.schema
      ++ nul
      ++ r.id
      ++ nul
      ++ state_text r.state
      ++ nul
      ++ r.digest
      ++ nul
      ++ format_int r.staged_at
      ++ nul
      ++ format_int r.activated_at
      ++ nul
      ++ r.document)

  unfoldable pub compute_pointer_digest : BundlePointer → Bytes
  compute_pointer_digest p = sha256_hex (
      codes "bundle-pointer/v1"
      ++ nul
      ++ format_int p.schema
      ++ nul
      ++ p.active
      ++ nul
      ++ p.previous
      ++ nul
      ++ format_int p.updated_at)

  -- What `Put` writes for a record.
  unfoldable pub sealed : BundleRecord → BundleRecord
  sealed r =
      let r' = record r { schema = bundle_store_schema } in
      record r' { record_digest = compute_record_digest r' }

  unfoldable pub put : BundleRecord → M (Unit {0})
  put r = do p ← query (λ _. bundle_path r.id); write_json p (encode_record (sealed r))

  -- A file that is read whole, or the error of a missing or unreadable one.
  abbrev pub contents : FileRead → Result Bytes
  contents not_exist = err not_found
  contents failed = err unclassified
  contents (found raw) = ok raw

  -- The checks of `getLocked` on what it decoded.
  unfoldable pub check_record : Bytes → BundleRecord → Result BundleRecord
  check_record id r =
      if not (r.schema == bundle_store_schema)
      then err unsupported_schema
      else if not (bytes_eq r.record_digest (compute_record_digest r))
      then err corrupt
      else if not (bytes_eq r.id id)
      then err corrupt
      else ok r

  -- `Get` and `getLocked`.
  unfoldable pub get : Bytes → World → Result BundleRecord
  get id w = Types.◌>>=◌ (bundle_path id) (λ p.
      Types.◌>>=◌ (contents (read_file p w))
        (λ raw. Types.◌>>=◌ (or_err (decode_record raw) corrupt) (check_record id)))

  abbrev removal_ok : Removal → Bool
  removal_ok removed = true
  removal_ok was_absent = true
  removal_ok not_removed = false

  -- `Delete`: a missing file is no error.
  unfoldable pub delete : Bytes → M (Unit {0})
  delete id = do
    p ← query (λ _. bundle_path id)
    attempt (λ w. (removal_ok (remove p w).0, (remove p w).1)) (λ w. w)
    attempt (sync_folder bundles) (λ w. w)

  unfoldable pub check_pointer : BundlePointer → Result BundlePointer
  check_pointer p =
      if not (p.schema == bundle_store_schema)
      then err unsupported_schema
      else if not (bytes_eq p.digest (compute_pointer_digest p))
      then err corrupt
      else ok p

  -- `Pointer`: a missing file is the empty state.
  unfoldable pub pointer_of : FileRead → Result BundlePointer
  pointer_of not_exist = ok empty_pointer
  pointer_of failed = err unclassified
  pointer_of (found raw) = Types.◌>>=◌ (or_err (decode_pointer raw) corrupt) check_pointer

  unfoldable pub pointer : World → Result BundlePointer
  pointer w = pointer_of (read_file pointer_file w)

  unfoldable pub sealed_pointer : BundlePointer → World → BundlePointer
  sealed_pointer p w =
      let p' = record p { schema = bundle_store_schema; updated_at = now w } in
      record p' { digest = compute_pointer_digest p' }

  unfoldable pub set_pointer : BundlePointer → M (Unit {0})
  set_pointer p w = write_json pointer_file (encode_pointer (sealed_pointer p w)) w

  -- `Purge`
  unfoldable pub purge_store : M (Unit {0})
  purge_store = do
    attempt remove_bundles (λ w. w)
    attempt (λ w. (removal_ok (remove pointer_file w).0, (remove pointer_file w).1)) (λ w. w)
    attempt make_bundles (λ w. w)
    attempt (sync_folder root) (λ w. w)

  -- `List`, on what `os.ReadDir` gave; a missing folder holds no bundle.
  listed : Option (Option (List DirEntry)) → Result (List Bytes)
  unfolding bundle_names
  listed none = err unclassified
  listed (some none) = ok []
  listed (some (some entries)) = ok (sort bytes_lt (bundle_names entries))

  unfoldable pub list : World → Result (List Bytes)
  unfolding listed
  list w = listed (read_dir w)
