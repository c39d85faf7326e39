-- ===== src/Modules/Timers/Limits.antt =====
-- How many timers a loop holds, and that a closed loop does nothing more.
use mihomo_extension_sidecar.Common.{
  ℕ, ◌≤◌, true, List, [], ◌∷◌, Option, some, none, length, ◌≡◌, inl, inr, refl, ◌∙◌, arith,
  Option-cases, List-cases,
}
use mihomo_extension_sidecar.Modules.Timers.Delivery.{length-delete}
use mihomo_extension_sidecar.Modules.Timers.{
  AsyncLoop, new_async_loop, set_timeout, clear_timeout, fire, post, claim_timer, run_callback,
  close, Step, sets_timeout, clears_timeout, fires, posts, runs_callback, closes, step, run,
  undefined, too_many,
}

-- The number of timers, none where the loop is closed.
unfoldable pub size : Option (List ℕ) → ℕ
size none = 0
size (some timers) = length timers

record Shape (l : AsyncLoop) : Type 0 where
  pub bounded : size l.timers ≤ 64
  pub gone : l.done ≡ true → l.timers ≡ none

step-Shape : (l : AsyncLoop) (s : Step) → Shape l → Shape (step l s)
unfolding step set_timeout clear_timeout fire post run_callback claim_timer close size
step-Shape l sets_timeout v = elim (Option-cases l.timers) [
  | inl e ↦ ground (arith, v, e)
  | inr (timers, e) ↦ ground (arith, v, e)
]
step-Shape l (clears_timeout id) v = elim (Option-cases l.timers) [
  | inl e ↦ ground (arith, v, e)
  | inr (timers, e) ↦ ground (arith, v, e, length-delete id timers)
]
step-Shape l (fires id) v = ground (arith, v)
step-Shape l (posts id) v = ground (arith, v)
step-Shape l runs_callback v = elim (List-cases l.callbacks) [
  | inl empty ↦ ground (arith, v, empty)
  | inr (x, rest, c) ↦ elim (Option-cases l.timers) [
    | inl e ↦ ground (arith, v, e, c)
    | inr (timers, e) ↦ ground (arith, v, e, c, length-delete x timers)
  ]
]
step-Shape l closes v = ground (arith, v)

run-Shape : (steps : List Step) (l : AsyncLoop) → Shape l → Shape (run l steps)
unfolding run
run-Shape [] l v = v
run-Shape (s ∷ steps) l v = run-Shape steps (step l s) (step-Shape l s v)

step_closed :
    (l : AsyncLoop) (s : Step)
    → l.timers ≡ none
    → ((step l s).timers ≡ none) × ((step l s).ran ≡ l.ran)
unfolding step set_timeout clear_timeout fire post run_callback claim_timer close
step_closed l sets_timeout e = ground (arith, e)
step_closed l (clears_timeout id) e = ground (arith, e)
step_closed l (fires id) e = ground (arith, e)
step_closed l (posts id) e = ground (arith, e)
step_closed l runs_callback e = ground (arith, e)
step_closed l closes e = ground (arith, e)

run_closed :
    (steps : List Step) (l : AsyncLoop)
    → l.timers ≡ none
    → ((run l steps).timers ≡ none) × ((run l steps).ran ≡ l.ran)
unfolding run
run_closed [] l e = (e, refl)
run_closed (s ∷ steps) l e =
    let (e', same) = step_closed l s e in
    let (e'', more) = run_closed steps (step l s) e' in (e'', more ∙ same)

module _ (steps : List Step) where
  abbrev reached : AsyncLoop
  reached = run new_async_loop steps

  reached-Shape : Shape reached
  unfolding new_async_loop size
  reached-Shape = run-Shape steps new_async_loop (ground arith)

  -- In every state that a new loop can reach there are at most 64 timers, and `setTimeout` answers
  -- that they are too many exactly if there are 64.
  pub timers_bounded :
      (size reached.timers ≤ 64)
      × ((set_timeout reached).0 ≡ too_many → size reached.timers ≡ 64)
      × (size reached.timers ≡ 64 → (set_timeout reached).0 ≡ too_many)
  unfolding set_timeout size
  timers_bounded = elim (Option-cases reached.timers) [
    | inl e ↦ ground (arith, reached-Shape.bounded, e)
    | inr (timers, e) ↦ ground (arith, reached-Shape.bounded, e)
  ]

  -- Once a loop is closed, no callback runs any more, whatever happens next, and `setTimeout` hands
  -- out nothing.
  pub closed_runs_nothing :
      (later : List Step)
      → let l = close reached in
        ((run l later).ran ≡ l.ran) × ((set_timeout (run l later)).0 ≡ undefined)
  unfolding set_timeout close
  closed_runs_nothing later =
      let shut : (close reached).timers ≡ none = ground (arith, reached-Shape.gone) in
      let (e, same) = run_closed later (close reached) shut in (same, ground (arith, e))
