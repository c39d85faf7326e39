-- ===== src/Modules/Budget/Invariant.antt =====
-- What holds of the budget and its callers between two critical sections, and that each keeps it.
use mihomo_extension_sidecar.Common.{
  ℕ, zero, suc, ◌+◌, ◌-◌, ◌≤◌, true, List, [], ◌∷◌, ◌++◌, some, get_elem?, set, All, All-append,
  ◌≡◌, inl, inr, refl, arith, Option-cases, Bool-cases, ℤ, pos, negsuc, dec_lt,
}
use mathlib.Core.Path.{subst}
use mihomo_extension_sidecar.Modules.Budget.{
  Waiter, Callers, clamp, remove_at, admits, admit, acquire, retry, give_up, release, give_back,
  lower,
}

-- What the figures take of a budget with a limit.
unfoldable pub taken : ℕ → List ℤ → ℕ
taken limit [] = 0
taken limit (x ∷ xs) = clamp limit x + taken limit xs

taken-remove_at :
    (limit i : ℕ) (xs : List ℤ) (x : ℤ)
    → get_elem? xs i ≡ some x
    → taken limit (remove_at i xs) + clamp limit x ≡ taken limit xs
unfolding taken remove_at
taken-remove_at limit i [] x e = cc
taken-remove_at limit zero (y ∷ ys) x e = ground (arith, e)
taken-remove_at limit (suc i) (y ∷ ys) x e = ground (arith, taken-remove_at limit i ys x e)

taken-set :
    (limit i : ℕ) (xs : List ℤ) (x y : ℤ)
    → get_elem? xs i ≡ some x
    → taken limit (set xs i y) + clamp limit x ≡ taken limit xs + clamp limit y
unfolding taken
taken-set limit i [] x y e = cc
taken-set limit zero (z ∷ zs) x y e = ground (arith, e)
taken-set limit (suc i) (z ∷ zs) x y e = ground (arith, taken-set limit i zs x y e)

-- The bytes in use are what the holders' figures take, and within the limit; each waiter wants its
-- figure as `acquire` clamped it.
pub record Inv (limit : ℕ) (s : Callers) : Type 0 where
  pub same_limit : s.budget.limit ≡ limit
  pub counted : s.budget.used ≡ taken limit s.held
  pub bounded : s.budget.used ≤ limit
  pub clamped : All (λ w. w.want ≡ clamp limit w.figure) s.waiting

All-remove_at {ℓ κ} :
    {A : Type ℓ} (P : A → Type κ) (i : ℕ) (xs : List A) → All P xs → All P (remove_at i xs)
unfolding remove_at
All-remove_at P i [] a = tt
All-remove_at P zero (x ∷ xs) a = a.1
All-remove_at P (suc i) (x ∷ xs) a = (a.0, All-remove_at P i xs a.1)

pub clamped-get :
    (limit i : ℕ) (ws : List Waiter) (w : Waiter)
    → get_elem? ws i ≡ some w
    → All (λ w. w.want ≡ clamp limit w.figure) ws
    → w.want ≡ clamp limit w.figure
clamped-get limit i [] w e a = cc
clamped-get limit zero (x ∷ xs) w e a = ground (arith, e, a.0)
clamped-get limit (suc i) (x ∷ xs) w e a = clamped-get limit i xs w e a.1

pub clamp-le : (limit : ℕ) (raw : ℤ) → clamp limit raw ≤ limit
unfolding clamp
clamp-le limit (pos n) = ground arith
clamp-le limit (negsuc n) = ground arith

pub clamped-bounded :
    (limit : ℕ) (ws : List Waiter)
    → All (λ w. w.want ≡ clamp limit w.figure) ws
    → All (λ w. w.want ≤ limit) ws
clamped-bounded limit [] a = tt
clamped-bounded limit (w ∷ ws) a =
    (omega (arith, a.0, clamp-le limit w.figure), clamped-bounded limit ws a.1)

admit-Inv :
    (limit : ℕ) (s : Callers) (waiting : List Waiter) (figure : ℤ) (want : ℕ)
    → want ≡ clamp limit figure
    → All (λ w. w.want ≡ clamp limit w.figure) waiting
    → admits s.budget want ≡ true
    → Inv limit s
    → Inv limit
        (record s { budget = admit s.budget want; waiting = waiting; held = figure ∷ s.held })
unfolding admit admits taken
admit-Inv limit s waiting figure want same a fits v = record {
  same_limit = v.same_limit;
  counted = ground (arith, v.counted, same);
  bounded = ground (arith, fits, v.same_limit);
  clamped = a;
}

waiting-Inv :
    (limit : ℕ) (s : Callers) (waiting : List Waiter)
    → All (λ w. w.want ≡ clamp limit w.figure) waiting
    → Inv limit s
    → Inv limit (record s { waiting = waiting })
waiting-Inv limit s waiting a v = record {
  same_limit = v.same_limit;
  counted = v.counted;
  bounded = v.bounded;
  clamped = a;
}

pub acquire-Inv : (limit : ℕ) (s : Callers) (raw : ℤ) → Inv limit s → Inv limit (acquire s raw)
unfolding acquire
acquire-Inv limit s raw v =
    let want = clamp s.budget.limit raw in
    let same : want ≡ clamp limit raw = rw v.same_limit refl in
    elim (Bool-cases (admits s.budget want)) [
      | inl fits ↦
          subst (Inv limit) (ground (arith, fits))
            (admit-Inv limit s s.waiting raw want same v.clamped fits v)
      | inr full ↦ subst (Inv limit) (ground (arith, full)) (
          waiting-Inv limit s (s.waiting ++ record { figure = raw; want = want } ∷ [])
            (All-append _ s.waiting _ v.clamped (same, tt)) v)
    ]

pub retry-Inv : (limit : ℕ) (s : Callers) (i : ℕ) → Inv limit s → Inv limit (retry s i)
unfolding retry
retry-Inv limit s i v = elim (Option-cases (get_elem? s.waiting i)) [
  | inl e ↦ subst (Inv limit) (ground (arith, e)) v
  | inr (w, e) ↦ elim (Bool-cases (admits s.budget w.want)) [
    | inl fits ↦ subst (Inv limit) (ground (arith, e, fits)) (
        admit-Inv limit s (remove_at i s.waiting) w.figure w.want
          (clamped-get limit i s.waiting w e v.clamped) (All-remove_at _ i s.waiting v.clamped) fits
          v)
    | inr full ↦ subst (Inv limit) (ground (arith, e, full)) v
  ]
]

pub give_up-Inv : (limit : ℕ) (s : Callers) (i : ℕ) → Inv limit s → Inv limit (give_up s i)
unfolding give_up
give_up-Inv limit s i v = elim (Option-cases (get_elem? s.waiting i)) [
  | inl e ↦ subst (Inv limit) (ground (arith, e)) v
  | inr (w, e) ↦ elim (Bool-cases (admits s.budget w.want)) [
    | inl fits ↦ subst (Inv limit) (ground (arith, e, fits)) v
    | inr full ↦
        subst (Inv limit) (ground (arith, e, full))
          (waiting-Inv limit s _ (All-remove_at _ i s.waiting v.clamped) v)
  ]
]

-- A release of a figure, where what remains held takes that much less.
release-Inv :
    (limit : ℕ) (s : Callers) (figure : ℤ) (held : List ℤ)
    → taken limit held + clamp limit figure ≡ taken limit s.held
    → Inv limit s
    → Inv limit (record s { budget = release s.budget figure; held = held })
unfolding release
release-Inv limit s figure held e v = record {
  same_limit = v.same_limit;
  counted = rw v.same_limit (omega (arith, e, v.counted));
  bounded = omega (arith, v.bounded);
  clamped = v.clamped;
}

pub give_back-Inv : (limit : ℕ) (s : Callers) (i : ℕ) → Inv limit s → Inv limit (give_back s i)
unfolding give_back
give_back-Inv limit s i v = elim (Option-cases (get_elem? s.held i)) [
  | inl e ↦ subst (Inv limit) (ground (arith, e)) v
  | inr (figure, e) ↦
      subst (Inv limit) (ground (arith, e)) (
        release-Inv limit s figure (remove_at i s.held) (taken-remove_at limit i s.held figure e) v)
]

-- A figure within the limit is lowered by as much as is released.
pub lower-Inv :
    (limit : ℕ) (s : Callers) (i n cost : ℕ)
    → get_elem? s.held i ≡ some (pos n)
    → n ≤ limit
    → Inv limit s
    → Inv limit (lower s i cost)
unfolding lower clamp
lower-Inv limit s i n cost e small v = elim (dec_lt cost n) [
  | no more ↦ subst (Inv limit) (ground (arith, e)) v
  | yes less ↦
      let moved = taken-set limit i s.held (pos n) (pos cost) e in
      let split : taken limit (set s.held i (pos cost)) + clamp limit (pos (n - cost))
          ≡ taken limit s.held =
        ground (arith, moved) in
      subst (Inv limit) (ground (arith, e))
        (release-Inv limit s (pos (n - cost)) (set s.held i (pos cost)) split v)
]
