-- ===== src/Modules/Budget.antt =====
-- The budget of resident body bytes (module_proxy.go): what a request or a response reserves, how
-- reservations are admitted, and how the handler of proxy.go gives them back. One critical section
-- of the budget's mutex is one step: a caller that does not fit waits, and tests again after a broadcast
-- until it fits or gives up, at its deadline or when its context ends.
pub mod Invariant
pub mod Admission
pub mod Reservations
use mihomo_extension_sidecar.Common.{
  ℕ, ◌+◌, ◌-◌, ◌*◌, ◌^◌, zero, suc, ◌==◌, ltb, Bool, true, false, not, ◌||◌, List, [], ◌∷◌, ◌++◌,
  Option, some, none, Bytes, bytes_eq, codes, if◌then◌else◌, get_elem?, set, ℤ, pos, negsuc,
}
use mihomo_extension_sidecar.Configuration.Types.{ScriptRule}

abbrev pub max_module_http_body : ℕ
max_module_http_body = 64 * 2 ^ 20

abbrev pub max_module_body_budget_bytes : ℕ
max_module_body_budget_bytes = 4 * max_module_http_body

-- `want` between 0 and the limit.
unfoldable pub clamp : ℕ → ℤ → ℕ
clamp limit (negsuc n) = 0
clamp limit (pos n) = if ltb limit n then limit else n

pub record Budget : Type 0 where
  pub limit : ℕ
  pub used : ℕ

unfoldable pub new_module_body_budget : ℕ → Budget
new_module_body_budget limit = record { limit = limit; used = 0 }

-- The test of the loop of `acquire`, and `used += want` behind it.
unfoldable pub admits : Budget → ℕ → Bool
admits b want = not (ltb b.limit (b.used + want))

unfoldable pub admit : Budget → ℕ → Budget
admit b want = record b { used = b.used + want }

-- `release`, with the clamp of the caller's figure; subtraction stops at 0, as in the source.
unfoldable pub release : Budget → ℤ → Budget
unfolding clamp
release b figure = record b { used = b.used - clamp b.limit figure }

-- A caller in the loop of `acquire`: the figure it gave, and the local `want`.
pub record Waiter : Type 0 where
  pub figure : ℤ
  pub want : ℕ

-- The budget with its callers: those that wait, and the figures (`bodyReserved` and
-- `responseReserved` of proxy.go) of those that hold a slot, as each gave it to `acquire`.
pub record Callers : Type 0 where
  pub budget : Budget
  pub waiting : List Waiter
  pub held : List ℤ

unfoldable pub no_callers : ℕ → Callers
unfolding new_module_body_budget
no_callers limit = record { budget = new_module_body_budget limit; waiting = []; held = [] }

-- The list without the item at an index.
unfoldable pub remove_at {ℓ} : {A : Type ℓ} → ℕ → List A → List A
remove_at i [] = []
remove_at zero (x ∷ xs) = xs
remove_at (suc i) (x ∷ xs) = x ∷ remove_at i xs

-- `acquire` up to its first test.
unfoldable pub acquire : Callers → ℤ → Callers
unfolding clamp admits admit
acquire s figure =
    let want = clamp s.budget.limit figure in
    if admits s.budget want
    then record s { budget = admit s.budget want; held = figure ∷ s.held }
    else record s { waiting = s.waiting ++ record { figure = figure; want = want } ∷ [] }

-- A waiter that was woken tests again.
unfoldable pub retry : Callers → ℕ → Callers
unfolding admits admit remove_at
retry s i = elim (get_elem? s.waiting i) [
  | none ↦ s
  | some w ↦
      if admits s.budget w.want
      then record s {
        budget = admit s.budget w.want;
        waiting = remove_at i s.waiting;
        held = w.figure ∷ s.held;
      }
      else s
]

-- A waiter that does not fit gives up: `acquire` answers false.
unfoldable pub give_up : Callers → ℕ → Callers
unfolding admits remove_at
give_up s i = elim (get_elem? s.waiting i) [
  | none ↦ s
  | some w ↦ if admits s.budget w.want then s else record s { waiting = remove_at i s.waiting }
]

-- A holder gives its slot back: it releases the figure it has.
unfoldable pub give_back : Callers → ℕ → Callers
unfolding release remove_at
give_back s i = elim (get_elem? s.held i) [
  | none ↦ s
  | some figure ↦ record s { budget = release s.budget figure; held = remove_at i s.held }
]

-- What a figure is above what a buffer costs, if it is.
abbrev pub excess : ℤ → ℕ → Option ℕ
excess (negsuc n) cost = none
excess (pos n) cost = if ltb cost n then some (n - cost) else none

-- A holder whose buffer costs less than its figure releases the difference and holds the cost
-- (`bodyBufferBytes`) from then on.
unfoldable pub lower : Callers → ℕ → ℕ → Callers
unfolding release
lower s i cost = elim (get_elem? s.held i) [
  | none ↦ s
  | some figure ↦ elim (excess figure cost) [
    | none ↦ s
    | some difference ↦ record s {
      budget = release s.budget (pos difference);
      held = set s.held i (pos cost);
    }
  ]
]

-- `MaxBodyBytes` of a rule, if it is more than `widest`.
abbrev pub wider : ℤ → ℕ → ℕ
wider (negsuc n) widest = widest
wider (pos n) widest = if ltb widest n then n else widest

-- The loop of `moduleBodyReadLimit`, which skips the body mode "none".
unfoldable pub read_limit_loop : ℕ → List ScriptRule → ℕ
read_limit_loop limit [] = limit
read_limit_loop limit (r ∷ rules) =
    read_limit_loop
      (if bytes_eq r.body_mode (codes "none") then limit else wider r.max_body_bytes limit) rules

unfoldable pub module_body_read_limit : List ScriptRule → ℕ
unfolding read_limit_loop
module_body_read_limit rules =
    let limit = read_limit_loop 0 rules in
    if limit == 0 || ltb max_module_http_body limit then max_module_http_body else limit

unfoldable pub widest_limit : ℕ → List ScriptRule → ℕ
widest_limit widest [] = widest
widest_limit widest (r ∷ rules) = widest_limit (wider r.max_body_bytes widest) rules

-- `moduleBodyReservation` of a request; no content length is a nil request.
unfoldable pub module_body_reservation : Option ℤ → List ScriptRule → ℕ
unfolding module_body_read_limit widest_limit
module_body_reservation content_length rules =
    let limit = module_body_read_limit rules in
    let found = widest_limit 0 rules in
    let widest = if found == 0 then limit else found in
    elim content_length [
      | none ↦ widest
      | some (negsuc n) ↦ widest
      | some (pos n) ↦
          if n == 0
          then widest
          else (let declared = if ltb limit n then limit else n in
              if ltb widest declared then declared else widest)
    ]

-- `moduleResponseBodyReservation` of a response.
unfoldable pub module_response_body_reservation : Option ℤ → List ScriptRule → ℕ
unfolding module_body_read_limit widest_limit
module_response_body_reservation content_length rules =
    let limit = module_body_read_limit rules in
    let reserve = elim content_length as (λ _. ℕ) [
      | none ↦ limit
      | some (negsuc n) ↦ limit
      | some (pos n) ↦ if n == 0 then limit else if ltb n limit then n else limit
    ] in
    let widest = widest_limit 0 rules in if ltb reserve widest then widest else reserve
