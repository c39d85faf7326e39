-- ===== src/Modules/Timers/Delivery.antt =====
-- When a timer's callback runs: at most once, never after it was cleared, never after the loop closed.
use mihomo_extension_sidecar.Common.{
  ℕ, ◌≤◌, ◌<◌, Bool, true, false, List, [], ◌∷◌, some, none, length, ◌≡◌, ◌≢◌, inl, inr, refl, ◌∙◌,
  arith, Option-cases, List-cases,
}
use mihomo_extension_sidecar.Modules.Timers.{
  AsyncLoop, new_async_loop, has, delete, set_timeout, clear_timeout, fire, post, claim_timer,
  run_callback, close, Step, sets_timeout, clears_timeout, fires, posts, runs_callback, closes,
  step, run, times,
}

has-delete_self : (id : ℕ) (xs : List ℕ) → has id (delete id xs) ≡ false
unfolding has delete
has-delete_self id [] = refl
has-delete_self id (x ∷ xs) = ground (arith, has-delete_self id xs)

has-delete_ne : (id other : ℕ) (xs : List ℕ) → id ≢ other → has id (delete other xs) ≡ has id xs
unfolding has delete
has-delete_ne id other [] n = refl
has-delete_ne id other (x ∷ xs) n = ground (arith, has-delete_ne id other xs n)

pub length-delete : (id : ℕ) (xs : List ℕ) → length (delete id xs) ≤ length xs
unfolding delete
length-delete id [] = omega arith
length-delete id (x ∷ xs) = ground (arith, length-delete id xs)

-- A timer that can still be claimed.
unfoldable pub pending : AsyncLoop → ℕ → Bool
pending l id = elim l.timers [ none ↦ false | some timers ↦ has id timers ]

-- What holds of a timer: an id that was not handed out is not pending and has not run, and a callback
-- runs once at most, and not at all while its timer is pending.
record At (l : AsyncLoop) (id : ℕ) : Type 0 where
  pub fresh : l.next_id < id → (pending l id ≡ false) × (times id l.ran ≡ 0)
  pub once : times id l.ran ≤ 1
  pub waits : pending l id ≡ true → times id l.ran ≡ 0

clear_timeout-At : (l : AsyncLoop) (other id : ℕ) → At l id → At (clear_timeout l other) id
unfolding clear_timeout pending
clear_timeout-At l other id v = elim (Option-cases l.timers) [
  | inl e ↦ ground (arith, v, e)
  | inr (timers, e) ↦ ground (arith, v, e, has-delete_self id timers, has-delete_ne id other timers)
]

run_callback-At : (l : AsyncLoop) (id : ℕ) → At l id → At (run_callback l) id
unfolding run_callback claim_timer pending times
run_callback-At l id v = elim (List-cases l.callbacks) [
  | inl empty ↦ ground (arith, v, empty)
  | inr (x, rest, c) ↦ elim (Option-cases l.timers) [
    | inl e ↦ ground (arith, v, e, c)
    | inr (timers, e) ↦
        ground (arith, v, e, c, has-delete_self id timers, has-delete_ne id x timers)
  ]
]

step-At : (l : AsyncLoop) (s : Step) (id : ℕ) → At l id → At (step l s) id
unfolding step pending set_timeout fire post close has
step-At l sets_timeout id v = ground (arith, v)
step-At l (clears_timeout other) id v = clear_timeout-At l other id v
step-At l (fires other) id v = ground (arith, v)
step-At l (posts other) id v = ground (arith, v)
step-At l runs_callback id v = run_callback-At l id v
step-At l closes id v = ground (arith, v)

run-At : (steps : List Step) (l : AsyncLoop) (id : ℕ) → At l id → At (run l steps) id
unfolding run
run-At [] l id v = v
run-At (s ∷ steps) l id v = run-At steps (step l s) id (step-At l s id v)

new_async_loop-At : (id : ℕ) → At new_async_loop id
unfolding new_async_loop pending has times
new_async_loop-At id = ground arith

-- A timer that was handed out and cannot be claimed never runs from then on.
step_settled :
    (l : AsyncLoop) (s : Step) (id : ℕ)
    → id ≤ l.next_id
    → pending l id ≡ false
    → (id ≤ (step l s).next_id)
      × (pending (step l s) id ≡ false)
      × (times id (step l s).ran ≡ times id l.ran)
unfolding step pending set_timeout clear_timeout fire post run_callback claim_timer close has times
step_settled l sets_timeout id h p = ground arith
step_settled l (clears_timeout other) id h p = elim (Option-cases l.timers) [
  | inl e ↦ ground (arith, e)
  | inr (timers, e) ↦ ground (arith, e, has-delete_self id timers, has-delete_ne id other timers)
]
step_settled l (fires other) id h p = ground arith
step_settled l (posts other) id h p = ground arith
step_settled l runs_callback id h p = elim (List-cases l.callbacks) [
  | inl empty ↦ ground (arith, empty)
  | inr (x, rest, c) ↦ elim (Option-cases l.timers) [
    | inl e ↦ ground (arith, e, c)
    | inr (timers, e) ↦ ground (arith, e, c, has-delete_self id timers, has-delete_ne id x timers)
  ]
]
step_settled l closes id h p = ground arith

run_settled :
    (steps : List Step) (l : AsyncLoop) (id : ℕ)
    → id ≤ l.next_id
    → pending l id ≡ false
    → times id (run l steps).ran ≡ times id l.ran
unfolding run
run_settled [] l id h p = refl
run_settled (s ∷ steps) l id h p =
    let (h', p', same) = step_settled l s id h p in run_settled steps (step l s) id h' p' ∙ same

module _ (steps : List Step) where
  abbrev reached : AsyncLoop
  reached = run new_async_loop steps

  -- Whatever the interleaving of the script, the goroutines of the timers and the loop: the callback of
  -- a timer runs at most once.
  pub timer_runs_once : (id : ℕ) → times id reached.ran ≤ 1
  timer_runs_once id = (run-At steps new_async_loop id (new_async_loop-At id)).once

  -- From the moment that a timer which was handed out is cleared, its callback does not run, whatever
  -- happens next, also if the timer had fired and its callback was queued.
  pub cleared_never_runs :
      (id : ℕ) (later : List Step)
      → id ≤ reached.next_id
      → times id (run (clear_timeout reached id) later).ran ≡ times id reached.ran
  unfolding clear_timeout pending
  cleared_never_runs id later h = elim (Option-cases reached.timers) [
    | inl e ↦
        run_settled later (clear_timeout reached id) id (ground (arith, e)) (ground (arith, e))
        ∙ ground (arith, e)
    | inr (timers, e) ↦
        run_settled later (clear_timeout reached id) id (ground (arith, e))
          (ground (arith, e, has-delete_self id timers))
        ∙ ground (arith, e)
  ]
