-- ===== src/Logs/Frame/Xor.antt =====
-- Masking twice gives the payload back.
use Prim.Native.Nat.{bit_xor}
use mihomo_extension_sidecar.Common.{
  ℕ, zero, suc, ◌<◌, ◌==◌, ==_iff, Bool, true, ◌&&◌, ◌≡◌, refl, arith,
}

-- A test on pairs of numbers below two bounds.
row : (ℕ → ℕ → Bool) → ℕ → ℕ → Bool
row test a zero = true
row test a (suc b) = test a b && row test a b

square : (ℕ → ℕ → Bool) → ℕ → ℕ → Bool
square test zero width = true
square test (suc a) width = row test a width && square test a width

row_lem :
    (test : ℕ → ℕ → Bool) (a width b : ℕ) → b < width → row test a width ≡ true → test a b ≡ true
unfolding row
row_lem test a zero b below checked = absurd (omega arith)
row_lem test a (suc width) b below checked = ground (arith, row_lem test a width b)

square_lem :
    (test : ℕ → ℕ → Bool) (height width a b : ℕ)
    → a < height
    → b < width
    → square test height width ≡ true
    → test a b ≡ true
unfolding square
square_lem test zero width a b ha hb checked = absurd (omega arith)
square_lem test (suc height) width a b ha hb checked =
    ground (arith, square_lem test height width a b, row_lem test a width b)

abbrev restores : ℕ → ℕ → Bool
restores a b = bit_xor (bit_xor a b) b == a

byte_table : square restores 256 256 ≡ true
unfolding square row
byte_table = refl

pub xor_twice : (a b : ℕ) → a < 256 → b < 256 → bit_xor (bit_xor a b) b ≡ a
xor_twice a b ha hb =
    (==_iff (bit_xor (bit_xor a b) b) a).0 (square_lem restores 256 256 a b ha hb byte_table)
