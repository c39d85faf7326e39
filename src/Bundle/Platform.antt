-- ===== src/Bundle/Platform.antt =====
-- What the store takes from outside the repository: the files of its directory, the clock, SHA-256
-- and decimal printing, the JSON codec, and the configuration decoder (config.go, left abstract).
-- A path is a folder and a name, so `filepath.Join` of the store's directory is injective here.
use mihomo_extension_sidecar.Common.{
  ℕ, Bool, true, false, List, ◌++◌, ◌≡◌, ◌≢◌, ◌⊎◌, Option, some, Bytes, codes,
}
use mihomo_extension_sidecar.Bundle.Types.{BundleRecord, BundlePointer, ok}
use mihomo_extension_sidecar.Bundle.Id.{validate_bundle_id}

pub data Folder : Type 0 where
  root bundles : Folder

pub record FilePath : Type 0 where
  pub folder : Folder
  pub name : Bytes

-- `tmp := path + bundleTempSuffix`
unfoldable pub temp : FilePath → FilePath
temp p = record p { name = p.name ++ codes ".tmp" }

pub data FileRead : Type 0 where
  not_exist : FileRead
  failed : FileRead
  found : Bytes → FileRead

pub data Removal : Type 0 where
  removed : Removal
  was_absent : Removal
  not_removed : Removal

-- One entry of `os.ReadDir`.
pub record DirEntry : Type 0 where
  pub name : Bytes
  pub is_dir : Bool

pub record Platform : Type 1 where
  pub World : Type 0
  pub Config : Type 0
  pub read_file : FilePath → World → FileRead
  -- Of the bundles folder: `none` is a failure, `some none` a missing folder.
  pub read_dir : World → Option (Option (List DirEntry))
  -- Each operation reports whether it succeeded.
  pub open_truncate : FilePath → World → Bool × World
  pub write_file : FilePath → Bytes → World → Bool × World
  pub sync_file : FilePath → World → Bool × World
  pub close_file : FilePath → World → Bool × World
  pub rename : FilePath → FilePath → World → Bool × World
  pub remove : FilePath → World → Removal × World
  pub sync_folder : Folder → World → Bool × World
  pub remove_bundles : World → Bool × World
  pub make_bundles : World → Bool × World
  pub now : World → ℕ
  pub sha256_hex : Bytes → Bytes
  pub format_int : ℕ → Bytes
  pub encode_record : BundleRecord → Bytes
  pub decode_record : Bytes → Option BundleRecord
  pub encode_pointer : BundlePointer → Bytes
  pub decode_pointer : Bytes → Option BundlePointer
  pub decode_config : Bytes → Option Config
  pub module_count : Config → ℕ

-- Documented behaviour: an operation on one path leaves the contents of the others alone; a file
-- written whole reads back; a rename moves contents or does nothing; JSON round-trips what the
-- store encodes.
module _ (pf : Platform) where
  open pf use {
    World, read_file, open_truncate, write_file, sync_file, close_file, rename, remove, sync_folder,
    remove_bundles, make_bundles, encode_record, decode_record, encode_pointer, decode_pointer,
  }

  pub record Laws : Type 0 where
    pub open_frame :
        (p q : FilePath) (w : World) → q ≢ p → read_file q (open_truncate p w).1 ≡ read_file q w
    pub write_frame :
        (p q : FilePath) (raw : Bytes) (w : World)
        → q ≢ p
        → read_file q (write_file p raw w).1 ≡ read_file q w
    pub write_whole :
        (p : FilePath) (raw : Bytes) (w : World)
        → (open_truncate p w).0 ≡ true
        → (write_file p raw (open_truncate p w).1).0 ≡ true
        → read_file p (write_file p raw (open_truncate p w).1).1 ≡ found raw
    pub sync_keeps : (p q : FilePath) (w : World) → read_file q (sync_file p w).1 ≡ read_file q w
    pub close_keeps : (p q : FilePath) (w : World) → read_file q (close_file p w).1 ≡ read_file q w
    pub rename_frame :
        (s d q : FilePath) (w : World)
        → q ≢ s
        → q ≢ d
        → read_file q (rename s d w).1 ≡ read_file q w
    pub rename_moves :
        (s d : FilePath) (w : World)
        → (rename s d w).0 ≡ true
        → read_file d (rename s d w).1 ≡ read_file s w
    pub rename_fails :
        (s d q : FilePath) (w : World)
        → (rename s d w).0 ≡ false
        → read_file q (rename s d w).1 ≡ read_file q w
    pub remove_frame :
        (p q : FilePath) (w : World) → q ≢ p → read_file q (remove p w).1 ≡ read_file q w
    pub remove_gone :
        (p : FilePath) (w : World)
        → ((remove p w).0 ≡ removed) ⊎ ((remove p w).0 ≡ was_absent)
        → read_file p (remove p w).1 ≡ not_exist
    pub sync_folder_keeps :
        (f : Folder) (q : FilePath) (w : World) → read_file q (sync_folder f w).1 ≡ read_file q w
    pub remove_bundles_gone :
        (n : Bytes) (w : World)
        → (remove_bundles w).0 ≡ true
        → read_file (record { folder = bundles; name = n }) (remove_bundles w).1 ≡ not_exist
    pub remove_bundles_frame :
        (n : Bytes) (w : World)
        → read_file (record { folder = root; name = n }) (remove_bundles w).1
          ≡ read_file (record { folder = root; name = n }) w
    pub make_bundles_keeps :
        (q : FilePath) (w : World) → read_file q (make_bundles w).1 ≡ read_file q w
    pub record_round_trip :
        (r : BundleRecord)
        → validate_bundle_id r.id ≡ ok tt
        → decode_record (encode_record r) ≡ some r
    pub pointer_round_trip : (p : BundlePointer) → decode_pointer (encode_pointer p) ≡ some p
