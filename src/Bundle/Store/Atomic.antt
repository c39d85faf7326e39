-- ===== src/Bundle/Store/Atomic.antt =====
-- `writeJSON` publishes a file whole or not at all, whichever of its steps fails.
use mihomo_extension_sidecar.Common.{◌≡◌, ◌≢◌, ◌⊎◌, arith, Bytes}
use mihomo_extension_sidecar.Bundle.Types.{ok}
use mihomo_extension_sidecar.Bundle.Platform.{FilePath, temp, found, Platform, Laws}
use mihomo_extension_sidecar.Bundle.Store.{write_json}
use mihomo_extension_sidecar.Bundle.Store.Paths.{path-ne-temp}

module _ (pf : Platform) (l : Laws pf) (p : FilePath) (raw : Bytes) where
  open pf use {
    World, read_file, open_truncate, write_file, sync_file, close_file, rename, remove, sync_folder,
  }

  -- A write that succeeds leaves exactly the encoded text.
  pub write_json-found :
      (w : World)
      → (write_json pf p raw w).0 ≡ ok tt
      → read_file p (write_json pf p raw w).1 ≡ found raw
  unfolding write_json
  write_json-found w h =
      let w1 = (open_truncate (temp p) w).1 in
      let w2 = (write_file (temp p) raw w1).1 in
      let w3 = (sync_file (temp p) w2).1 in
      let w4 = (close_file (temp p) w3).1 in
      let w5 = (rename (temp p) p w4).1 in
      ground (
        arith,
        l.write_whole (temp p) raw w,
        l.sync_keeps (temp p) (temp p) w2,
        l.close_keeps (temp p) (temp p) w3,
        l.rename_moves (temp p) p w4,
        l.sync_folder_keeps p.folder p w5,
      )

  -- Whatever step fails, no path but the target and its temporary file changes.
  pub write_json_frame :
      (q : FilePath) (w : World)
      → q ≢ p
      → q ≢ temp p
      → read_file q (write_json pf p raw w).1 ≡ read_file q w
  unfolding write_json
  write_json_frame q w np nt =
      let w1 = (open_truncate (temp p) w).1 in
      let w2 = (write_file (temp p) raw w1).1 in
      let w3 = (sync_file (temp p) w2).1 in
      let w4 = (close_file (temp p) w3).1 in
      let w5 = (rename (temp p) p w4).1 in
      let c2 = (close_file (temp p) w2).1 in
      let c3 = (close_file (temp p) w3).1 in
      ground (
        arith,
        l.open_frame (temp p) q w nt,
        l.write_frame (temp p) q raw w1 nt,
        l.sync_keeps (temp p) q w2,
        l.close_keeps (temp p) q w2,
        l.close_keeps (temp p) q w3,
        l.remove_frame (temp p) q c2 nt,
        l.remove_frame (temp p) q c3 nt,
        l.remove_frame (temp p) q w4 nt,
        l.remove_frame (temp p) q w5 nt,
        l.rename_frame (temp p) p q w4 nt np,
        l.sync_folder_keeps p.folder q w5,
      )

  -- After a write the target holds what it held before or the new contents, whole, whichever step
  -- fails.
  pub write_json_atomic :
      (w : World)
      → (read_file p (write_json pf p raw w).1 ≡ read_file p w)
        ⊎ (read_file p (write_json pf p raw w).1 ≡ found raw)
  unfolding write_json
  write_json_atomic w =
      let nt = path-ne-temp p in
      let w1 = (open_truncate (temp p) w).1 in
      let w2 = (write_file (temp p) raw w1).1 in
      let w3 = (sync_file (temp p) w2).1 in
      let w4 = (close_file (temp p) w3).1 in
      let w5 = (rename (temp p) p w4).1 in
      let c2 = (close_file (temp p) w2).1 in
      let c3 = (close_file (temp p) w3).1 in
      ground (
        arith,
        l.open_frame (temp p) p w nt,
        l.write_frame (temp p) p raw w1 nt,
        l.sync_keeps (temp p) p w2,
        l.close_keeps (temp p) p w2,
        l.close_keeps (temp p) p w3,
        l.remove_frame (temp p) p c2 nt,
        l.remove_frame (temp p) p c3 nt,
        l.remove_frame (temp p) p w4 nt,
        l.remove_frame (temp p) p w5 nt,
        l.write_whole (temp p) raw w,
        l.sync_keeps (temp p) (temp p) w2,
        l.close_keeps (temp p) (temp p) w3,
        l.rename_moves (temp p) p w4,
        l.rename_fails (temp p) p p w4,
        l.sync_folder_keeps p.folder p w5,
      )
