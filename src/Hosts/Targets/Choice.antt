-- ===== src/Hosts/Targets/Choice.antt =====
-- Which mapping a captured host is sent by (mappedInterceptTarget in config.go): a mapping with the
-- longest pattern, and the one with the host's own name if there is one.
use mihomo_extension_sidecar.Common.{
  All-append, List-cases, bytes_eq_comm, ◌≤◌, ◌&&◌, not, true, List, [], ◌∷◌, ◌++◌, Option, Bytes,
  bytes_eq, bytes_eq_iff, if◌then◌else◌, length, ◌≡◌, ◌⊎◌, inl, inr, refl, sym, ◌∙◌, ap, arith, All,
  Option-cases, Bool-cases,
}
use mihomo_extension_sidecar.Hosts.Patterns.Laws.{cut_wildcard_lem}
use mathlib.Core.Path.{subst}
use mihomo_extension_sidecar.Configuration.Types.{Document, Extension, HostMapping}
use mihomo_extension_sidecar.Hosts.Patterns.{
  HostText, cut_wildcard, match_host_pattern, canonical_host,
}
use mihomo_extension_sidecar.Hosts.Patterns.Laws.{match_plain}
use mihomo_extension_sidecar.Hosts.Runtime.{CompiledHosts}
use mihomo_extension_sidecar.Hosts.Targets.{
  Best, take_mapping, resolver_form, best_mapping, owns, mapped_in, mapped_intercept_target,
}

-- Some item has the property.
abbrev pub Any {ℓ} : {A : Type ℓ} → (A → Type 0) → List A → Type 0
Any P [] = ⊥
Any P (x ∷ xs) = P x ⊎ Any P xs

-- The mappings of the enabled modules that own the host, without those of the resolver form and
-- those that do not match it.
module _ (t : HostText) (host : Bytes) where
  unfoldable pub matching : List HostMapping → List HostMapping
  matching [] = []
  matching (m ∷ mappings) =
      let rest = matching mappings in
      if not (resolver_form t m) && match_host_pattern m.pattern host then m ∷ rest else rest

  unfoldable pub candidates : Option CompiledHosts → List Extension → List HostMapping
  unfolding matching
  candidates runtime [] = []
  candidates runtime (m ∷ modules) =
      let rest = candidates runtime modules in
      if m.enabled && owns t runtime m host then matching m.host_mappings ++ rest else rest

-- No matching pattern is longer than the host.
match_host_pattern-length :
    (pattern host : Bytes) → match_host_pattern pattern host ≡ true → length pattern ≤ length host
unfolding match_host_pattern
match_host_pattern-length pattern host m = elim (Option-cases (cut_wildcard pattern)) [
  | inl e ↦ ground (arith, ap length (match_plain pattern host e m))
  | inr (suffix, e) ↦ ground (arith, ap length (cut_wildcard_lem pattern suffix e))
]

empty_matches : (host : Bytes) → match_host_pattern [] host ≡ true → bytes_eq [] host ≡ true
unfolding match_host_pattern cut_wildcard
empty_matches host m = ground (arith, bytes_eq_comm host [])

-- What one round of the loop over the matching mappings does.
unfoldable pub fold_candidates : Bytes → List HostMapping → Best → Best
fold_candidates host [] best = best
fold_candidates host (c ∷ cs) best = fold_candidates host cs (take_mapping host c best)

-- The result came from the mappings or was there before, is the longest, and is exact if any is.
record Kept (host : Bytes) (cs : List HostMapping) (before after : Best) : Type 0 where
  pub from :
      (after ≡ before) ⊎ Any (λ c. (c.pattern ≡ after.pattern) × (c.target ≡ after.target)) cs
  pub grows : length before.pattern ≤ length after.pattern
  pub longest : All (λ c. length c.pattern ≤ length after.pattern) cs
  pub stays : before.pattern ≡ host → after.pattern ≡ host
  pub exact : All (λ c. c.pattern ≡ host → after.pattern ≡ host) cs

module _ (host : Bytes) (c : HostMapping) (b : Best)
    (m : match_host_pattern c.pattern host ≡ true) where
  take_mapping-from :
      (take_mapping host c b ≡ b)
      ⊎ ((c.pattern ≡ (take_mapping host c b).pattern)
          × (c.target ≡ (take_mapping host c b).target))
  unfolding take_mapping
  take_mapping-from = ground (arith, m)

  take_mapping-longest :
      length b.pattern ≤ length host
      → (length b.pattern ≤ length (take_mapping host c b).pattern)
        × (length c.pattern ≤ length (take_mapping host c b).pattern)
        × (length (take_mapping host c b).pattern ≤ length host)
  unfolding take_mapping
  take_mapping-longest h =
      ground (arith, m, bytes_eq_iff c.pattern host, match_host_pattern-length c.pattern host m)

  take_mapping-exact :
      (b.pattern ≡ host → (take_mapping host c b).pattern ≡ host)
      × (c.pattern ≡ host → (take_mapping host c b).pattern ≡ host)
  unfolding take_mapping
  take_mapping-exact =
      ground (arith, m, bytes_eq_iff c.pattern host, match_host_pattern-length c.pattern host m)

-- With nothing before, the first mapping that matches is taken.
take_mapping-first :
    (host : Bytes) (c : HostMapping)
    → match_host_pattern c.pattern host ≡ true
    → take_mapping host c (record { pattern = []; target = host })
      ≡ record { pattern = c.pattern; target = c.target }
unfolding take_mapping
take_mapping-first host c m = elim (List-cases c.pattern) [
  | inl e ↦ ground (arith, m, e, empty_matches host)
  | inr (x, xs, e) ↦ ground (arith, m, ap length e)
]

-- All the mappings match.
abbrev AllMatch : Bytes → List HostMapping → Type 0
AllMatch host = All (λ c. match_host_pattern c.pattern host ≡ true)

fold-Kept :
    (host : Bytes) (cs : List HostMapping) (b : Best)
    → AllMatch host cs
    → length b.pattern ≤ length host
    → Kept host cs b (fold_candidates host cs b)
unfolding fold_candidates
fold-Kept host [] b a h = record {
  from = inl refl;
  grows = omega arith;
  longest = tt;
  stays = λ e. e;
  exact = tt;
}
fold-Kept host (c ∷ cs) b a h =
    let (grows, longer, room) = take_mapping-longest host c b a.0 h in
    let (stays, own) = take_mapping-exact host c b a.0 in
    let k = fold-Kept host cs (take_mapping host c b) a.1 room in
    record {
      from = elim k.from [
        | inl same ↦ elim (take_mapping-from host c b a.0) [
          | inl e ↦ inl (same ∙ e)
          | inr (p, q) ↦
              inr (inl (p ∙ sym (ap (λ r. r.pattern) same), q ∙ sym (ap (λ r. r.target) same)))
        ]
        | inr later ↦ inr (inr later)
      ];
      grows = omega (arith, grows, k.grows);
      longest = (omega (arith, longer, k.grows), k.longest);
      stays = λ e. k.stays (stays e);
      exact = ((λ e. k.stays (own e)), k.exact);
    }

-- What is said of a result `target`, where `host` is the target that no mapping gives.
abbrev pub Choice : Bytes → List HostMapping → Bytes → Type 0
Choice host cs target =
    ((cs ≡ []) × (target ≡ host))
    ⊎ ((pattern : Bytes) × Any (λ c. (c.pattern ≡ pattern) × (c.target ≡ target)) cs
        × All (λ c. length c.pattern ≤ length pattern) cs
        × All (λ c. c.pattern ≡ host → pattern ≡ host) cs)

-- From nothing before, the result came from the mappings, if there are any.
chosen :
    (host : Bytes) (cs : List HostMapping)
    → AllMatch host cs
    → Choice host cs (fold_candidates host cs (record { pattern = []; target = host })).target
unfolding fold_candidates
chosen host [] a = inl (refl, refl)
chosen host (c ∷ cs) a =
    let first : Best = record { pattern = c.pattern; target = c.target } in
    let k = fold-Kept host cs first a.1 (match_host_pattern-length c.pattern host a.0) in
    subst (λ x. Choice host (c ∷ cs) (fold_candidates host cs x).target)
      (sym (take_mapping-first host c a.0))
      (inr (
        (fold_candidates host cs first).pattern,
        elim k.from [
          | inl kept ↦ inl (sym (ap (λ x. x.pattern) kept), sym (ap (λ x. x.target) kept))
          | inr later ↦ inr later
        ],
        (k.grows, k.longest),
        ((λ own. k.stays own), k.exact),
      ))

fold_append :
    (host : Bytes) (xs ys : List HostMapping) (b : Best)
    → fold_candidates host (xs ++ ys) b ≡ fold_candidates host ys (fold_candidates host xs b)
unfolding fold_candidates
fold_append host [] ys b = refl
fold_append host (x ∷ xs) ys b = fold_append host xs ys (take_mapping host x b)

module _ (t : HostText) (host : Bytes) where
  best_mapping-fold :
      (ms : List HostMapping) (b : Best)
      → best_mapping t host ms b ≡ fold_candidates host (matching t host ms) b
  unfolding best_mapping fold_candidates matching take_mapping
  best_mapping-fold [] b = refl
  best_mapping-fold (m ∷ ms) b =
      ground (arith, best_mapping-fold ms b, best_mapping-fold ms (take_mapping host m b))

  mapped_in-fold :
      (runtime : Option CompiledHosts) (modules : List Extension) (b : Best)
      → mapped_in t runtime host modules b
        ≡ fold_candidates host (candidates t host runtime modules) b
  unfolding mapped_in candidates fold_candidates
  mapped_in-fold runtime [] b = refl
  mapped_in-fold runtime (m ∷ modules) b = ground (
    arith,
    best_mapping-fold m.host_mappings b,
    mapped_in-fold runtime modules b,
    mapped_in-fold runtime modules (best_mapping t host m.host_mappings b),
    fold_append host (matching t host m.host_mappings) (candidates t host runtime modules) b,
  )

  matching-AllMatch : (ms : List HostMapping) → AllMatch host (matching t host ms)
  unfolding matching
  matching-AllMatch [] = tt
  matching-AllMatch (m ∷ ms) =
      elim (Bool-cases (not (resolver_form t m) && match_host_pattern m.pattern host)) [
        | inl e ↦ rw e (ground (arith), matching-AllMatch ms)
        | inr e ↦ rw e (matching-AllMatch ms)
      ]

  candidates-AllMatch :
      (runtime : Option CompiledHosts) (modules : List Extension)
      → AllMatch host (candidates t host runtime modules)
  unfolding candidates
  candidates-AllMatch runtime [] = tt
  candidates-AllMatch runtime (m ∷ modules) =
      elim (Bool-cases (m.enabled && owns t runtime m host)) [
        | inl e ↦ rw e (
            All-append _ (matching t host m.host_mappings) _ (matching-AllMatch m.host_mappings)
              (candidates-AllMatch runtime modules))
        | inr e ↦ rw e (candidates-AllMatch runtime modules)
      ]

-- The target of a host is the host itself where no enabled module that owns it maps it to a
-- destination. Otherwise it is the target of a mapping that does, with a longest pattern among those
-- and with the host's own name if one of them has it.
pub mapped_intercept_target-longest :
    (t : HostText) (cfg : Document) (runtime : Option CompiledHosts) (value : Bytes)
    → Choice
        (canonical_host t value)
        (candidates t (canonical_host t value) runtime cfg.modules)
        (mapped_intercept_target t cfg runtime value)
unfolding mapped_intercept_target
mapped_intercept_target-longest t cfg runtime value =
    let host = canonical_host t value in
    subst (λ r. Choice host (candidates t host runtime cfg.modules) r.target)
      (sym (mapped_in-fold t host runtime cfg.modules (record { pattern = []; target = host })))
      (chosen host (candidates t host runtime cfg.modules)
        (candidates-AllMatch t host runtime cfg.modules))
