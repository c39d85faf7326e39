-- ===== src/Modules/Rules/Lookup.antt =====
-- What the walk over the execution order looks up: a module by its id, and the matcher of its hosts.
use mihomo_extension_sidecar.Common.{
  true, List, [], ◌∷◌, some, none, Bytes, bytes_eq_iff, ◌≡◌, refl, arith, inl, inr, Option-cases,
}
use mihomo_extension_sidecar.Configuration.Types.{Extension}
use mihomo_extension_sidecar.Hosts.Matcher.{CompiledHostMatcher, new_compiled_host_matcher}
use mihomo_extension_sidecar.Hosts.Runtime.{find_matcher, add_module_hosts}
use mihomo_extension_sidecar.Modules.Rules.{module_by_id}

-- The id of a module found is the one looked for.
pub module_by_id-id :
    (id : Bytes) (modules : List Extension) (m : Extension)
    → module_by_id id modules ≡ some m
    → m.id ≡ id
unfolding module_by_id
module_by_id-id id [] m e = cc
module_by_id-id id (x ∷ modules) m e = elim (Option-cases (module_by_id id modules)) [
  | inl none_left ↦ ground (arith, none_left, e, bytes_eq_iff x.id id)
  | inr (y, found) ↦ ground (arith, found, e, module_by_id-id id modules y found)
]

find_matcher-absent :
    (id : Bytes) (modules : List Extension) (entries : List (Bytes × CompiledHostMatcher))
    → module_by_id id modules ≡ none
    → find_matcher id (add_module_hosts entries modules) ≡ find_matcher id entries
unfolding find_matcher add_module_hosts module_by_id
find_matcher-absent id [] entries e = refl
find_matcher-absent id (x ∷ modules) entries e = elim (Option-cases (module_by_id id modules)) [
  | inl none_left ↦ ground (
    arith,
    e,
    none_left,
    find_matcher-absent id modules entries none_left,
    find_matcher-absent id modules ((x.id, new_compiled_host_matcher x.capture_hosts) ∷ entries)
        none_left,
  )
  | inr (y, found) ↦ absurd (ground (arith, e, found))
]

-- The matcher kept under the id of an enabled module is its own.
pub find_matcher-enabled :
    (id : Bytes) (modules : List Extension) (m : Extension)
    (entries : List (Bytes × CompiledHostMatcher))
    → module_by_id id modules ≡ some m
    → m.enabled ≡ true
    → find_matcher id (add_module_hosts entries modules)
      ≡ some (new_compiled_host_matcher m.capture_hosts)
unfolding find_matcher add_module_hosts module_by_id
find_matcher-enabled id [] m entries e on = cc
find_matcher-enabled id (x ∷ modules) m entries e on =
    let more = (x.id, new_compiled_host_matcher x.capture_hosts) ∷ entries in
    elim (Option-cases (module_by_id id modules)) [
      | inl none_left ↦ ground (
        arith,
        e,
        on,
        none_left,
        find_matcher-absent id modules entries none_left,
        find_matcher-absent id modules more none_left,
      )
      | inr (y, found) ↦ ground (
        arith,
        e,
        on,
        found,
        find_matcher-enabled id modules m entries,
        find_matcher-enabled id modules m more,
      )
    ]
