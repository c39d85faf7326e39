-- ===== src/Tests/ScriptRuns.antt =====
-- Runs of the nesting scan.
use mihomo_extension_sidecar.Common.{◌≤◌, [], some, Bytes, codes, ◌≡◌, refl, arith}
use mihomo_extension_sidecar.Script.Nesting.{
  max_script_nesting_depth, Scan, start, step, scan, is_value_end, accepted, verdict,
  check_script_nesting,
}
use mihomo_extension_sidecar.Script.Nesting.Fuel.{check_script_nesting-ends}
use mihomo_extension_sidecar.Script.Nesting.Bounds.{Visits, begin, onwards, accepted_bounded}

unfoldable opened : Bytes
unfolding check_script_nesting step scan is_value_end
opened = []

-- Brackets in a string and in a regular expression do not count.
quoted_accepted : check_script_nesting (codes "f('((',/[(]/)") ≡ some accepted
unfolding opened
quoted_accepted = refl

check_script_nesting-ends_example :
    (end : Scan) × (scan 9 start (codes "f(a)") ≡ some end)
    × (check_script_nesting (codes "f(a)") ≡ some (verdict end))
check_script_nesting-ends_example = check_script_nesting-ends 9 (codes "f(a)") (omega arith)

abbrev behind_f : Scan
behind_f = (step start b'f' (codes "(a)")).0

abbrev inside : Scan
inside = (step behind_f b'(' (codes "a)")).0

Visits-inside : Visits (codes "f(a)") inside (codes "a)")
unfolding opened
Visits-inside = onwards (onwards begin)

accepted_bounded_example :
    (inside.depth ≤ max_script_nesting_depth) × (inside.unary ≤ max_script_nesting_depth)
unfolding opened
accepted_bounded_example = accepted_bounded refl Visits-inside
