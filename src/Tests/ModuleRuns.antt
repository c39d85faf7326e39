-- ===== src/Tests/ModuleRuns.antt =====
-- Runs of the body budget, of a template and of header edits.
use mihomo_extension_sidecar.Common.{
  ◌≤◌, All, get_elem?, refl, arith, false, ◌-◌, leb, true, List, [], ◌∷◌, Bytes, codes, ◌≡◌, pos,
  suc, length, none, some, if◌then◌else◌,
}
use mihomo_extension_sidecar.Configuration.Types.{ScriptRule, HeaderEdits}
use mihomo_extension_sidecar.Modules.Budget.{
  Callers, clamp, no_callers, new_module_body_budget, remove_at, admits, admit, acquire, retry,
  give_up, release, give_back, lower,
}
use mihomo_extension_sidecar.Modules.Budget.Invariant.{taken}
use mihomo_extension_sidecar.Modules.Budget.Admission.{
  Reach, here, next, acquires, lowers, gives_back, budget_bounded,
}
use mihomo_extension_sidecar.Modules.Bodies.{Reader}
use mihomo_extension_sidecar.Modules.Template.{substitution, expand_settings_template}
use mihomo_extension_sidecar.Modules.Template.Segments.{
  fill, segments, expand_settings_template-segments,
}
use mihomo_extension_sidecar.Modules.Declarative.{apply_header_edits}
use mihomo_extension_sidecar.Modules.Declarative.Headers.{
  is_named, last_value, apply_header_edits-find,
}
use mihomo_extension_sidecar.Modules.Template.{find}

unfoldable running : Bytes
unfolding clamp no_callers new_module_body_budget remove_at admits admit acquire retry give_up
    release give_back lower taken
running = []

-- A budget of 100: 70 are held and lowered to 20, then 200, clamped to 100, waits, and the 20 are
-- given back.
abbrev start : Callers
start = no_callers 100

abbrev lowered : Callers
lowered = lower (acquire start (pos 70)) 0 20

abbrev contended : Callers
contended = give_back (acquire lowered (pos 200)) 0

holds_70 : get_elem? (acquire start (pos 70)).held 0 ≡ some (pos 70)
unfolding running
holds_70 = refl

small : 70 ≤ (acquire start (pos 70)).budget.limit
unfolding running
small = omega arith

contended-Reach : Reach start contended
contended-Reach =
    next
      (next (next (next here (acquires (pos 70))) (lowers 0 70 20 holds_70 small))
        (acquires (pos 200)))
      (gives_back 0)

waits : (contended.budget.used ≡ 0) × ((retry contended 0).held ≡ pos 200 ∷ [])
unfolding running
waits = (refl, refl)

budget_bounded_example :
    (contended.budget.used ≡ taken 100 contended.held)
    × (contended.budget.used ≤ 100)
    × All (λ w. w.want ≤ 100) contended.waiting
budget_bounded_example = budget_bounded 100 contended-Reach

-- A rule that does not read the body and declares a small limit.
abbrev pub rule : ScriptRule
rule = record {
  id = codes "a";
  phase = codes "response";
  matches = record { hosts = []; schemes = []; methods = []; path_regex = []; status_codes = [] };
  enabled_when = none;
  script_url = [];
  script_digest = [];
  script_body = [];
  body_mode = codes "none";
  entry = [];
  jq_program = [];
  reject = true;
  mock = none;
  headers = none;
  rewrite = none;
  replace_body = none;
  timeout_ms = pos 50;
  max_body_bytes = pos 1024;
}

-- A response of three bytes.
abbrev three : Reader
three = record { content = codes "abc"; fails = false }

-- A template with two placeholders; the value of one has a dollar, that of the other is mapped.
abbrev template : Bytes
template = codes "https://{{settings.host}}/$1?q={{settings.q}}"

abbrev values : List (Bytes × Bytes)
values = (codes "host", codes "a$b") ∷ (codes "q", codes "{{settings.q}}") ∷ []

expand_settings_template-segments_example :
    expand_settings_template template [] values
    ≡ some (fill (substitution [] values) (segments (suc (length template)) template))
expand_settings_template-segments_example = expand_settings_template-segments template [] values

-- The canonical form of a key of one letter.
unfoldable capital : Bytes → Bytes
capital [] = []
capital (c ∷ s) = if leb 97 c then (c - 32) ∷ s else c ∷ s

abbrev edits : HeaderEdits
edits = record { set_fields = (codes "b", codes "2") ∷ []; remove = codes "a" ∷ codes "b" ∷ [] }

apply_header_edits-find_example :
    find (codes "B") (apply_header_edits capital edits ((codes "B", codes "1" ∷ []) ∷ []))
    ≡ elim (last_value capital (codes "B") edits.set_fields) [
      | some v ↦ some (v ∷ [])
      | none ↦
          if is_named capital (codes "B") edits.remove
          then none
          else find (codes "B") ((codes "B", codes "1" ∷ []) ∷ [])
    ]
apply_header_edits-find_example =
    apply_header_edits-find capital edits ((codes "B", codes "1" ∷ []) ∷ []) (codes "B")
