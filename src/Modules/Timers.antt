-- ===== src/Modules/Timers.antt =====
-- The timers of a script (module_async.go): `setTimeout`, `clearTimeout`, the delivery of a timer that
-- fired, and `close`. A critical section of the loop's mutex is one step. A timer that fires leaves
-- `armed` and its goroutine posts the callback, which waits in `posting` while the queue is full; the
-- owner of the VM takes callbacks off the queue, and a callback runs only if it can claim its timer.
-- The delay and the arguments of a callback are left out, and `ran` lists the timers whose callback
-- ran. The counter of ids is an int64, far from its end.
pub mod Delivery
pub mod Limits
use mihomo_extension_sidecar.Common.{
  ℕ, zero, suc, ◌+◌, ◌==◌, ltb, leb, Bool, true, false, not, List, [], ◌∷◌, ◌++◌, Option, some,
  none, if◌then◌else◌, length,
}

abbrev pub max_async_timers : ℕ
max_async_timers = 64

abbrev pub async_callback_queue_cap : ℕ
async_callback_queue_cap = 256

-- `timers` is nil once the loop is closed.
pub record AsyncLoop : Type 0 where
  pub done : Bool
  pub timers : Option (List ℕ)
  pub next_id : ℕ
  pub armed : List ℕ
  pub posting : List ℕ
  pub callbacks : List ℕ
  pub ran : List ℕ

unfoldable pub new_async_loop : AsyncLoop
new_async_loop = record {
  done = false;
  timers = some [];
  next_id = 0;
  armed = [];
  posting = [];
  callbacks = [];
  ran = [];
}

unfoldable pub has : ℕ → List ℕ → Bool
has id [] = false
has id (x ∷ xs) = if x == id then true else has id xs

-- The list without every `id`.
unfoldable pub delete : ℕ → List ℕ → List ℕ
delete id [] = []
delete id (x ∷ xs) = let rest = delete id xs in if x == id then rest else x ∷ rest

-- What `setTimeout` answers a script.
pub data TimerId : Type 0 where
  undefined : TimerId
  too_many : TimerId
  timer_id : ℕ → TimerId

unfoldable pub set_timeout : AsyncLoop → TimerId × AsyncLoop
set_timeout l = elim l.timers [
  | none ↦ (undefined, l)
  | some timers ↦ if leb max_async_timers (length timers) then (too_many, l) else (
    timer_id (l.next_id + 1),
    record l {
      next_id = l.next_id + 1;
      timers = some ((l.next_id + 1) ∷ timers);
      armed = (l.next_id + 1) ∷ l.armed;
    },
  )
]

unfoldable pub clear_timeout : AsyncLoop → ℕ → AsyncLoop
unfolding has delete
clear_timeout l id = elim l.timers [
  | none ↦ l
  | some timers ↦
      if has id timers
      then record l { timers = some (delete id timers); armed = delete id l.armed }
      else l
]

-- The delay of a timer that was not stopped is over: its goroutine starts to post.
unfoldable pub fire : AsyncLoop → ℕ → AsyncLoop
unfolding has delete
fire l id =
    if has id l.armed then record l { armed = delete id l.armed; posting = id ∷ l.posting } else l

-- `post` in the goroutine of a timer: the callback is dropped once the loop is closed, and otherwise
-- waits for room in the queue.
unfoldable pub post : AsyncLoop → ℕ → AsyncLoop
unfolding has delete
post l id =
    let gone = record l { posting = delete id l.posting } in
    if has id l.posting
    then if l.done
      then gone
      else if ltb (length l.callbacks) async_callback_queue_cap
      then record gone { callbacks = l.callbacks ++ id ∷ [] }
      else l
    else l

-- `claimTimer`.
unfoldable pub claim_timer : AsyncLoop → ℕ → Bool × AsyncLoop
unfolding has delete
claim_timer l id = elim l.timers [
  | none ↦ (false, l)
  | some timers ↦
      if has id timers then (true, record l { timers = some (delete id timers) }) else (false, l)
]

-- A round of `wait`: the next callback runs if it claims its timer.
unfoldable pub run_callback : AsyncLoop → AsyncLoop
unfolding claim_timer
run_callback l = elim l.callbacks [
  | [] ↦ l
  | id ∷ rest ↦
      let (claimed, q) = claim_timer (record l { callbacks = rest }) id in
      if claimed then record q { ran = id ∷ q.ran } else q
]

-- `close`.
unfoldable pub close : AsyncLoop → AsyncLoop
close l = if l.done then l else record l { done = true; timers = none; armed = [] }

pub data Step : Type 0 where
  sets_timeout : Step
  clears_timeout : ℕ → Step
  fires : ℕ → Step
  posts : ℕ → Step
  runs_callback : Step
  closes : Step

unfoldable pub step : AsyncLoop → Step → AsyncLoop
unfolding set_timeout clear_timeout fire post run_callback close
step l sets_timeout = (set_timeout l).1
step l (clears_timeout id) = clear_timeout l id
step l (fires id) = fire l id
step l (posts id) = post l id
step l runs_callback = run_callback l
step l closes = close l

unfoldable pub run : AsyncLoop → List Step → AsyncLoop
unfolding step
run l [] = l
run l (s ∷ steps) = run (step l s) steps

unfoldable pub times : ℕ → List ℕ → ℕ
times id [] = 0
times id (x ∷ xs) = let rest = times id xs in if x == id then suc rest else rest
