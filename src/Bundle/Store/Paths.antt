-- ===== src/Bundle/Store/Paths.antt =====
-- The files of the store do not collide: the name of a bundle determines its id, a temporary file
-- is never a bundle or the pointer, and bundles and pointer lie in different folders.
use mathlib.Core.List.{append_cancel_right}
use mihomo_extension_sidecar.Common.{
  ℕ, [], ◌∷◌, ◌++◌, ◌≡◌, ◌≢◌, refl, ap, sym, ◌∙◌, arith, Bytes, codes, length, length-append,
}
use mihomo_extension_sidecar.Bundle.Platform.{Folder, root, bundles, FilePath, temp}
use mihomo_extension_sidecar.Bundle.Store.Files.{bundle_file, pointer_file}

last_or : ℕ → Bytes → ℕ
last_or d [] = d
last_or d (c ∷ cs) = last_or c cs

last_or-append : (d y : ℕ) (xs ys : Bytes) → last_or d (xs ++ y ∷ ys) ≡ last_or y ys
unfolding last_or
last_or-append d y [] ys = refl
last_or-append d y (x ∷ xs) ys = last_or-append x y xs ys

pub path-ne-temp : (p : FilePath) → p ≢ temp p
unfolding temp
path-ne-temp p e =
    omega (arith, ap (λ q. length (FilePath.name q)) e, length-append p.name (codes ".tmp"))

pub bundle_file_injective : (a b : Bytes) → bundle_file a ≡ bundle_file b → a ≡ b
unfolding bundle_file
bundle_file_injective a b e = append_cancel_right a b (codes ".json") (ap FilePath.name e)

pub bundle_file-ne-temp : (a b : Bytes) → bundle_file a ≢ temp (bundle_file b)
unfolding bundle_file temp last_or
bundle_file-ne-temp a b e = omega (
  arith,
  sym (last_or-append 0 b'.' a (codes "json"))
      ∙ ap (λ q. last_or 0 (FilePath.name q)) e
      ∙ last_or-append 0 b'.' (b ++ codes ".json") (codes "tmp"),
)

is_root : Folder → ℕ
is_root root = 0
is_root bundles = 1

pub bundle_file-ne-pointer_file : (a : Bytes) → bundle_file a ≢ pointer_file
unfolding bundle_file pointer_file is_root
bundle_file-ne-pointer_file a e = omega (arith, ap (λ q. is_root (FilePath.folder q)) e)

pub bundle_file-ne-temp-pointer_file : (a : Bytes) → bundle_file a ≢ temp pointer_file
unfolding bundle_file pointer_file temp is_root
bundle_file-ne-temp-pointer_file a e = omega (arith, ap (λ q. is_root (FilePath.folder q)) e)

pub pointer_file-ne-temp : (a : Bytes) → pointer_file ≢ temp (bundle_file a)
unfolding bundle_file pointer_file temp is_root
pointer_file-ne-temp a e = omega (arith, ap (λ q. is_root (FilePath.folder q)) e)
