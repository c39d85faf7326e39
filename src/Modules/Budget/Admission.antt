-- ===== src/Modules/Budget/Admission.antt =====
-- What the budget guarantees under any interleaving of its callers.
use mihomo_extension_sidecar.Common.{
  ℕ, ◌≤◌, [], ◌∷◌, some, get_elem?, All, ◌≡◌, refl, arith, ℤ, pos,
}
use mihomo_extension_sidecar.Modules.Budget.{
  Waiter, Callers, no_callers, new_module_body_budget, admits, acquire, retry, give_up, give_back,
  lower,
}
use mihomo_extension_sidecar.Modules.Budget.Invariant.{
  taken, Inv, clamp-le, clamped-get, clamped-bounded, acquire-Inv, retry-Inv, give_up-Inv,
  give_back-Inv, lower-Inv,
}

-- One critical section of some caller. A figure is lowered only where it is within the limit, as the
-- figures of the handler are, so that it was not clamped.
pub data Step (s : Callers) : Callers → Type 0 where
  acquires : (figure : ℤ) → Step s (acquire s figure)
  retries : (i : ℕ) → Step s (retry s i)
  gives_up : (i : ℕ) → Step s (give_up s i)
  gives_back : (i : ℕ) → Step s (give_back s i)
  lowers :
      (i n cost : ℕ)
      → get_elem? s.held i ≡ some (pos n)
      → n ≤ s.budget.limit
      → Step s (lower s i cost)

pub data Reach (s : Callers) : Callers → Type 0 where
  here : Reach s s
  next : {t u : Callers} → Reach s t → Step t u → Reach s u

Step-Inv : (limit : ℕ) {s s' : Callers} → Step s s' → Inv limit s → Inv limit s'
Step-Inv limit {s} (acquires figure) v = acquire-Inv limit s figure v
Step-Inv limit {s} (retries i) v = retry-Inv limit s i v
Step-Inv limit {s} (gives_up i) v = give_up-Inv limit s i v
Step-Inv limit {s} (gives_back i) v = give_back-Inv limit s i v
Step-Inv limit {s} (lowers i n cost e small) v =
    lower-Inv limit s i n cost e (rw v.same_limit at small) v

Reach-Inv : (limit : ℕ) {s s' : Callers} → Reach s s' → Inv limit s → Inv limit s'
Reach-Inv limit here v = v
Reach-Inv limit (next r st) v = Step-Inv limit st (Reach-Inv limit r v)

no_callers-Inv : (limit : ℕ) → Inv limit (no_callers limit)
unfolding no_callers new_module_body_budget taken
no_callers-Inv limit = record {
  same_limit = refl;
  counted = refl;
  bounded = omega arith;
  clamped = tt;
}

-- Whatever the order in which callers reserve, wait, give up, lower a figure within the limit and give
-- back: what is in use is the sum of the figures still held, each clamped to the limit; it is never more
-- than the limit, and nobody waits for more than the limit.
pub budget_bounded :
    (limit : ℕ) {s : Callers}
    → Reach (no_callers limit) s
    → (s.budget.used ≡ taken limit s.held)
      × (s.budget.used ≤ limit)
      × All (λ w. w.want ≤ limit) s.waiting
budget_bounded limit r =
    let v = Reach-Inv limit r (no_callers-Inv limit) in
    (v.counted, v.bounded, clamped-bounded limit _ v.clamped)

-- Whoever waits is admitted when it tests while nobody holds anything, however much it asked for: no
-- body is too large for the budget.
pub waiter_admitted :
    (limit : ℕ) {s : Callers} (i : ℕ) (w : Waiter)
    → Reach (no_callers limit) s
    → get_elem? s.waiting i ≡ some w
    → s.held ≡ []
    → (retry s i).held ≡ w.figure ∷ []
unfolding retry admits taken
waiter_admitted limit {s} i w r e empty =
    let v = Reach-Inv limit r (no_callers-Inv limit) in
    let want = clamped-get limit i s.waiting w e v.clamped in
    ground (arith, e, empty, want, clamp-le limit w.figure, v.counted, v.same_limit)
