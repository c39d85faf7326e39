-- ===== src/Logs/Hub.antt =====
-- `engineLogHub` and `engineLogSubscription` (engine_logs.go). Subscriptions are shared objects, so
-- they live on a store `subs` under numbers, and `readers` holds the numbers of `h.readers`. `none`
-- is a panic: a send on a closed channel, or a second close. `wake` is the channel of one slot.
pub mod Ring
pub mod Readers
use mihomo_extension_sidecar.Common.{
  ℕ, ◌+◌, ◌-◌, ◌%◌, ◌^◌, ◌==◌, ltb, leb, Bool, true, false, not, ◌&&◌, ◌||◌, List, [], ◌∷◌, Option,
  some, none, Bytes, if◌then◌else◌, length, replicate, set, get_elem?,
}

pub record Subscription : Type 0 where
  pub cursor : ℕ
  pub wake : Bool
  pub wake_closed : Bool
  pub closed : Bool

pub record Hub : Type 0 where
  pub ring : List Bytes
  pub next : ℕ
  pub closed : Bool
  pub readers : List ℕ
  pub subs : ℕ → Subscription
  pub allocated : ℕ
  pub subscribers : ℕ
  pub dropped : ℕ

abbrev pub ring_capacity : ℕ
ring_capacity = 1000

abbrev pub max_json_bytes : ℕ
max_json_bytes = 8192

abbrev pub no_subscription : Subscription
no_subscription = record { cursor = 0; wake = false; wake_closed = false; closed = false }

-- `newEngineLogHub`; a negative capacity counts as 0.
unfoldable pub new_hub : ℕ → Hub
new_hub capacity =
    let size = if capacity == 0 || ltb ring_capacity capacity then ring_capacity else capacity in
    record {
      ring = replicate size [];
      next = 0;
      closed = false;
      readers = [];
      subs = λ i. no_subscription;
      allocated = 0;
      subscribers = 0;
      dropped = 0;
    }

abbrev pub member : ℕ → List ℕ → Bool
member i [] = false
member i (j ∷ js) = j == i || member i js

abbrev pub remove : ℕ → List ℕ → List ℕ
remove i [] = []
remove i (j ∷ js) = let rest = remove i js in if j == i then rest else j ∷ rest

abbrev pub update : (ℕ → Subscription) → ℕ → Subscription → ℕ → Subscription
update subs i s j = if i == j then s else subs j

-- A uint64 that is incremented.
abbrev pub inc64 : ℕ → ℕ
inc64 n = (n + 1) % 2 ^ 64

-- `case reader.wake <- struct{}{}: default:` for every reader.
unfoldable pub wake_all : List ℕ → (ℕ → Subscription) → Option (ℕ → Subscription)
wake_all [] subs = some subs
wake_all (i ∷ is) subs =
    if (subs i).wake_closed
    then none
    else wake_all is (update subs i (record (subs i) { wake = true }))

store_woken : Hub → Option (ℕ → Subscription) → Option Hub
store_woken h none = none
store_woken h (some subs) = some (record h { subs = subs })

-- The second critical section of `Publish`.
unfoldable pub publish_store : Hub → Bytes → Option Hub
unfolding store_woken
publish_store h payload =
    let stored = record h {
      ring = set h.ring (h.next % length h.ring) payload;
      next = inc64 h.next;
    } in
    if h.closed then some h else store_woken stored (wake_all h.readers h.subs)

publish_encoded : Hub → Option Bytes → Option Hub
publish_encoded h none = some (record h { dropped = inc64 h.dropped })
publish_encoded h (some payload) =
    if ltb max_json_bytes (length payload)
    then some (record h { dropped = inc64 h.dropped })
    else publish_store h payload

-- `Publish` with nothing in between; the event is given as `normalizeEngineLog` and `json.Marshal`
-- leave it, or none where one of them fails.
unfoldable pub publish : Hub → Option Bytes → Option Hub
unfolding publish_encoded
publish h event =
    if h.subscribers == 0
    then some h
    else if h.closed || h.subscribers == 0
    then some h
    else publish_encoded h event

-- `Subscribe`: the number of the new subscription, or none if the hub is closed.
unfoldable pub subscribe : Hub → Option ℕ × Hub
subscribe h =
    let i = h.allocated in
    let opened : Subscription = record no_subscription { cursor = h.next } in
    if h.closed then (none, h) else (
      some i,
      record h {
        readers = i ∷ h.readers;
        subs = update h.subs i opened;
        allocated = i + 1;
        subscribers = h.subscribers + 1;
      },
    )

pub data Delivery : Type 0 where
  eof : Delivery
  payload : Bytes → Delivery
  wait : Delivery

-- The oldest sequence number that the ring still holds.
abbrev pub oldest : Hub → ℕ
oldest h = if ltb (length h.ring) h.next then h.next - length h.ring else 0

slot : Option Bytes → Delivery
slot none = payload []
slot (some b) = payload b

-- One round of the loop of `Next`, up to the wait.
unfoldable pub next_round : Hub → ℕ → Delivery × Hub
unfolding slot
next_round h i =
    let s = h.subs i in
    let cursor = if ltb s.cursor (oldest h) then oldest h else s.cursor in
    if s.closed || h.closed
    then (eof, h)
    else if ltb cursor h.next
    then (
      slot (get_elem? h.ring (cursor % length h.ring)),
      record h { subs = update h.subs i (record s { cursor = inc64 cursor }) },
    )
    else (wait, record h { subs = update h.subs i (record s { cursor = cursor }) })

-- `close(s.wake)`
abbrev pub close_wake : Subscription → Option Subscription
close_wake s = if s.wake_closed then none else some (record s { wake_closed = true })

close_closed : Hub → ℕ → Option Subscription → Option Hub
close_closed h i none = none
close_closed h i (some s) = some (record h {
  readers = remove i h.readers;
  subs = update h.subs i s;
  subscribers = h.subscribers - 1;
})

-- `Close` of a subscription.
unfoldable pub close_subscription : Hub → ℕ → Option Hub
unfolding close_closed
close_subscription h i =
    if (h.subs i).closed
    then some h
    else close_closed h i (close_wake (record (h.subs i) { closed = true }))

-- The loop of the hub's `Close`.
unfoldable pub close_all : List ℕ → (ℕ → Subscription) → Option (ℕ → Subscription)
close_all [] subs = some subs
close_all (i ∷ is) subs = elim (close_wake (record (subs i) { closed = true })) [
  | none ↦ none
  | some s ↦ close_all is (update subs i s)
]

hub_closed : Hub → Option (ℕ → Subscription) → Option Hub
hub_closed h none = none
hub_closed h (some subs) =
    some (record h { closed = true; readers = []; subs = subs; subscribers = 0 })

-- `Close` of the hub.
unfoldable pub close_hub : Hub → Option Hub
unfolding hub_closed
close_hub h = if h.closed then some h else hub_closed h (close_all h.readers h.subs)
