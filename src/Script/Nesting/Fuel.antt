-- ===== src/Script/Nesting/Fuel.antt =====
-- The scan ends: every round moves on, so that the length of the source is fuel enough.
use mihomo_extension_sidecar.Common.{
  ℕ, zero, suc, ◌≤◌, ◌==◌, Bool, true, false, [], ◌∷◌, some, Bytes, ◌≡◌, refl, arith, if◌then◌else◌,
  length, drop, length-drop,
}
use mihomo_extension_sidecar.Script.Nesting.{
  skip_quoted, skip_values, skip_regex_literal, skip_line, skip_block, Scan, start, step, scan,
  verdict, check_script_nesting,
}

length-skip_quoted :
    (quote : ℕ) (escaped : Bool) (bs : Bytes) → length (skip_quoted quote escaped bs) ≤ length bs
unfolding skip_quoted
length-skip_quoted quote escaped [] = omega arith
length-skip_quoted quote true (c ∷ cs) = omega (arith, length-skip_quoted quote false cs)
length-skip_quoted quote false (c ∷ cs) =
    ground (arith, length-skip_quoted quote true cs, length-skip_quoted quote false cs)

length-skip_values : (bs : Bytes) → length (skip_values bs) ≤ length bs
unfolding skip_values
length-skip_values [] = omega arith
length-skip_values (c ∷ cs) = ground (arith, length-skip_values cs)

length-skip_regex_literal :
    (class escaped : Bool) (bs : Bytes) → length (skip_regex_literal class escaped bs) ≤ length bs
unfolding skip_regex_literal
length-skip_regex_literal class escaped [] = omega arith
length-skip_regex_literal class true (c ∷ cs) =
    omega (arith, length-skip_regex_literal class false cs)
length-skip_regex_literal class false (c ∷ cs) = ground (
  arith,
  length-skip_regex_literal class true cs,
  length-skip_values cs,
  length-skip_regex_literal (if c == 91 then true else if c == 93 then false else class) false cs,
)

length-skip_line : (bs : Bytes) → length (skip_line bs) ≤ length bs
unfolding skip_line
length-skip_line [] = omega arith
length-skip_line (c ∷ cs) = ground (arith, length-skip_line cs)

length-skip_block : (bs : Bytes) → length (skip_block bs) ≤ length bs
unfolding skip_block
length-skip_block [] = omega arith
length-skip_block (c ∷ []) = omega arith
length-skip_block (c ∷ d ∷ ds) = ground (arith, length-skip_block (d ∷ ds))

pub length-step : (s : Scan) (c : ℕ) (cs : Bytes) → length (step s c cs).1 ≤ length cs
unfolding step
length-step s c cs = ground (
  arith,
  length-drop 1 cs,
  length-skip_line cs,
  length-skip_block (drop 1 cs),
  length-skip_regex_literal false false cs,
  length-skip_quoted c false cs,
)

pub scan_enough :
    (fuel other : ℕ) (s : Scan) (bs : Bytes)
    → length bs ≤ fuel
    → length bs ≤ other
    → (end : Scan) × (scan fuel s bs ≡ some end) × (scan other s bs ≡ some end)
unfolding scan
scan_enough fuel other s [] h k = (s, refl, refl)
scan_enough zero other s (c ∷ cs) h k = absurd (omega arith)
scan_enough (suc fuel) zero s (c ∷ cs) h k = absurd (omega arith)
scan_enough (suc fuel) (suc other) s (c ∷ cs) h k =
    let shorter = length-step s c cs in
    scan_enough fuel other (step s c cs).0 (step s c cs).1 (omega arith) (omega arith)

-- The scan always comes to an end, with a verdict; any fuel from the length of the source on gives the
-- same.
pub check_script_nesting-ends :
    (fuel : ℕ) (source : Bytes)
    → length source ≤ fuel
    → (end : Scan) × (scan fuel start source ≡ some end)
      × (check_script_nesting source ≡ some (verdict end))
unfolding check_script_nesting
check_script_nesting-ends fuel source h =
    let (end, e, f) = scan_enough fuel (length source) start source h (omega arith) in
    (end, e, ground (arith, f))
