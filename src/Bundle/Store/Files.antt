-- ===== src/Bundle/Store/Files.antt =====
-- The paths of the store's files (bundle_store.go): `bundles/<id>.json` and `pointer.json`.
use mihomo_extension_sidecar.Common.{◌++◌, Bytes, codes}
use mihomo_extension_sidecar.Bundle.Platform.{root, bundles, FilePath}

-- The file of a bundle; `bundle_path` checks the id first.
unfoldable pub bundle_file : Bytes → FilePath
bundle_file id = record { folder = bundles; name = id ++ codes ".json" }

unfoldable pub pointer_file : FilePath
pointer_file = record { folder = root; name = codes "pointer.json" }
