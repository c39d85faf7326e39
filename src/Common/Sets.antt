-- ===== src/Common/Sets.antt =====
-- Sets of byte strings as lists (Go's `map[string]struct{}`), and the order of byte strings.
use mathlib.Core.Path.{◌≡◌, refl}
use mathlib.Core.Bool.{Bool, true, false, ◌&&◌, ◌||◌}
use mathlib.Core.List.{List, [], ◌∷◌}
use native.Mathlib.Omega.{arith}
use mihomo_extension_sidecar.Common.Tests.{◌==◌, ltb, if◌then◌else◌}
use mihomo_extension_sidecar.Common.ByteStrings.{Bytes, bytes_eq, bytes_eq_refl}

unfoldable pub set_mem : Bytes → List Bytes → Bool
set_mem x [] = false
set_mem x (y ∷ ys) = bytes_eq y x || set_mem x ys

unfoldable pub set_add : Bytes → List Bytes → List Bytes
set_add x ys = if set_mem x ys then ys else x ∷ ys

unfoldable pub set_remove : Bytes → List Bytes → List Bytes
set_remove x [] = []
set_remove x (y ∷ ys) = let rest = set_remove x ys in if bytes_eq y x then rest else y ∷ rest

pub set_mem-set_add : (x : Bytes) (ys : List Bytes) → set_mem x (set_add x ys) ≡ true
unfolding set_add set_mem
set_mem-set_add x ys = ground (arith, bytes_eq_refl x)

pub set_mem-set_remove : (x : Bytes) (ys : List Bytes) → set_mem x (set_remove x ys) ≡ false
unfolding set_remove set_mem
set_mem-set_remove x [] = refl
set_mem-set_remove x (y ∷ ys) = ground (arith, set_mem-set_remove x ys)

-- `<` of two Go strings.
unfoldable pub bytes_lt : Bytes → Bytes → Bool
bytes_lt [] [] = false
bytes_lt [] (y ∷ ys) = true
bytes_lt (x ∷ xs) [] = false
bytes_lt (x ∷ xs) (y ∷ ys) = ltb x y || (x == y && bytes_lt xs ys)

pub set_add_idem : (x : Bytes) (ys : List Bytes) → set_add x (set_add x ys) ≡ set_add x ys
unfolding set_add set_mem
set_add_idem x ys = ground (arith, bytes_eq_refl x)
