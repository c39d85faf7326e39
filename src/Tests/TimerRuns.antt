-- ===== src/Tests/TimerRuns.antt =====
-- Runs of the timers of a script: two are set, one fires and is cleared before its callback runs.
use mihomo_extension_sidecar.Common.{◌≤◌, List, [], ◌∷◌, ◌++◌, Bytes, ◌≡◌, refl, arith}
use mihomo_extension_sidecar.Modules.Timers.{
  AsyncLoop, new_async_loop, has, delete, set_timeout, clear_timeout, fire, post, claim_timer,
  run_callback, close, times, Step, sets_timeout, fires, posts, runs_callback, step, run,
}
use mihomo_extension_sidecar.Modules.Timers.Delivery.{timer_runs_once, cleared_never_runs}

unfoldable running : Bytes
unfolding new_async_loop has delete set_timeout clear_timeout fire post claim_timer run_callback
    close times step run
running = []

abbrev fired : List Step
fired = sets_timeout ∷ sets_timeout ∷ fires 1 ∷ posts 1 ∷ []

abbrev reached : AsyncLoop
reached = run new_async_loop fired

runs_first : times 1 (run reached (runs_callback ∷ [])).ran ≡ 1
unfolding running
runs_first = refl

timer_runs_once_example : times 1 (run new_async_loop (fired ++ runs_callback ∷ [])).ran ≤ 1
timer_runs_once_example = timer_runs_once (fired ++ runs_callback ∷ []) 1

cleared_never_runs_example :
    times 1 (run (clear_timeout reached 1) (runs_callback ∷ [])).ran ≡ times 1 reached.ran
unfolding running
cleared_never_runs_example = cleared_never_runs fired 1 (runs_callback ∷ []) (omega arith)
