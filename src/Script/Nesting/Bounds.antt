-- ===== src/Script/Nesting/Bounds.antt =====
-- What the verdict says of the nesting.
use mathlib.Core.Path.{subst}
use mihomo_extension_sidecar.Common.{
  ℕ, zero, suc, ◌+◌, ◌≤◌, ◌<◌, [], ◌∷◌, ◌++◌, some, Bytes, ◌≡◌, ◌≢◌, refl, arith, length, replicate,
}
use mihomo_extension_sidecar.Script.Nesting.{
  max_script_nesting_depth, Scan, start, step, scan, accepted, check_script_nesting,
}
use mihomo_extension_sidecar.Script.Nesting.Fuel.{
  length-step, scan_enough, check_script_nesting-ends,
}

-- The deepest and the longest that were seen are not below what is counted now.
abbrev Tracks : Scan → Type 0
Tracks s = (s.depth ≤ s.deepest) × (s.unary ≤ s.longest_unary)

step-Tracks :
    (s : Scan) (c : ℕ) (cs : Bytes)
    → Tracks s
    → Tracks (step s c cs).0
      × (s.deepest ≤ (step s c cs).0.deepest)
      × (s.longest_unary ≤ (step s c cs).0.longest_unary)
unfolding step
step-Tracks s c cs (d, u) = ((ground arith, ground arith), ground arith, ground arith)

scan_grows :
    (fuel : ℕ) (s : Scan) (bs : Bytes) {end : Scan}
    → Tracks s
    → scan fuel s bs ≡ some end
    → (s.deepest ≤ end.deepest) × (s.longest_unary ≤ end.longest_unary)
unfolding scan
scan_grows fuel s [] t e = ground arith
scan_grows zero s (c ∷ cs) t e = absurd (ground arith)
scan_grows (suc fuel) s (c ∷ cs) t e =
    let (t', d, u) = step-Tracks s c cs t in
    let (d', u') = scan_grows fuel (step s c cs).0 (step s c cs).1 t' e in
    (omega arith, omega arith)

-- The states that the scan of a source goes through, with the bytes still to come.
pub data Visits (source : Bytes) : Scan → Bytes → Type 0 where
  begin : Visits source start source
  onwards :
      {s : Scan} {c : ℕ} {cs : Bytes}
      → Visits source s (c ∷ cs)
      → Visits source (step s c cs).0 (step s c cs).1

Visits-Tracks : {source : Bytes} {s : Scan} {bs : Bytes} → Visits source s bs → Tracks s
Visits-Tracks begin = (omega arith, omega arith)
Visits-Tracks (onwards {s} {c} {cs} v) = (step-Tracks s c cs (Visits-Tracks v)).0

-- The scan from any state on the way comes to the same end.
Visits-end :
    {source : Bytes} {s : Scan} {bs : Bytes} {end : Scan}
    → Visits source s bs
    → scan (length source) start source ≡ some end
    → scan (length bs) s bs ≡ some end
unfolding scan
Visits-end begin e = e
Visits-end {end} (onwards {s} {c} {cs} v) e =
    let s' = (step s c cs).0 in
    let rest = (step s c cs).1 in
    let (_, f, g) =
      scan_enough (length cs) (length rest) s' rest (length-step s c cs) (omega arith) in
    ground (arith, f, g, Visits-end v e)

-- In a source that is accepted, the scan never stands more than 256 brackets deep, nor in a run of more
-- than 256 prefix operators.
pub accepted_bounded :
    {source : Bytes} {s : Scan} {bs : Bytes}
    → check_script_nesting source ≡ some accepted
    → Visits source s bs
    → (s.depth ≤ max_script_nesting_depth) × (s.unary ≤ max_script_nesting_depth)
accepted_bounded {source} {s} {bs} h v =
    let (end, e, f) = check_script_nesting-ends (length source) source (omega arith) in
    let (d, u) = Visits-Tracks v in
    let (deepest, longest) = scan_grows (length bs) s bs (Visits-Tracks v) (Visits-end v e) in
    (ground arith, ground arith)

climb :
    (n : ℕ) {source : Bytes} (s : Scan) (rest : Bytes)
    → s.templates ≡ []
    → Visits source s (replicate n b'(' ++ rest)
    → (s' : Scan) × Visits source s' rest × (s'.depth ≡ s.depth + n)
unfolding step
climb zero s rest t v = (s, v, omega arith)
climb (suc n) {source} s rest t v =
    let tail = replicate n b'(' ++ rest in
    let next = (step s b'(' tail).0 in
    let moves : (step s b'(' tail).1 ≡ tail = ground arith in
    let deeper : next.depth ≡ s.depth + 1 = ground arith in
    let (s', v', d) =
      climb n next rest (ground arith) (subst (λ bs. Visits source next bs) moves (onwards v)) in
    (s', v', omega (arith, d, deeper))

-- A source that begins with more than 256 opening brackets is refused, whatever comes behind them.
pub check_script_nesting-refuses :
    (n : ℕ) (rest : Bytes)
    → max_script_nesting_depth < n
    → check_script_nesting (replicate n b'(' ++ rest) ≢ some accepted
check_script_nesting-refuses n rest h e =
    let (s', v, d) = climb n start rest refl begin in
    let (shallow, _) = accepted_bounded e v in omega arith
