-- ===== src/Logs/Hub/Readers.antt =====
-- Publishers, readers and closers in any order: no operation sends on a closed channel or closes one
-- twice, and the counter of subscribers is the number of registered readers.
use mihomo_extension_sidecar.Common.{
  ℕ, ◌+◌, ◌-◌, ◌<◌, ◌==◌, true, false, ◌||◌, List, [], ◌∷◌, Option, some, none, Bytes, ◌≡◌, ◌≢◌,
  refl, sym, ◌∙◌, arith, length, Bool-cases, inl, inr, set, not, ◌&&◌, ◌%◌,
}
use mihomo_extension_sidecar.Logs.Hub.{
  Hub, Subscription, new_hub, member, remove, update, wake_all, publish_store, subscribe,
  next_round, close_subscription, close_all, close_hub, inc64,
}

abbrev Distinct : List ℕ → Type 0
Distinct [] = Unit
Distinct (i ∷ is) = (member i is ≡ false) × Distinct is

-- What holds between two operations.
pub record IsSound (h : Hub) : Type 0 where
  pub counted : h.subscribers ≡ length h.readers
  pub distinct : Distinct h.readers
  pub allocated_readers : (i : ℕ) → member i h.readers ≡ true → i < h.allocated
  pub open_readers : (i : ℕ) → member i h.readers ≡ true → (h.subs i).closed ≡ false
  pub registered : (i : ℕ) → i < h.allocated → (h.subs i).closed ≡ false → member i h.readers ≡ true
  pub channel : (i : ℕ) → (h.subs i).wake_closed ≡ (h.subs i).closed
  pub empty : h.closed ≡ true → h.readers ≡ []

-- The same subscriptions, but for their wake-up tokens and cursors.
abbrev SameClosed : (ℕ → Subscription) → (ℕ → Subscription) → Type 0
SameClosed subs subs' =
    (j : ℕ) → ((subs' j).closed ≡ (subs j).closed) × ((subs' j).wake_closed ≡ (subs j).wake_closed)

update-SameClosed :
    (subs : ℕ → Subscription) (i : ℕ) (s : Subscription)
    → s.closed ≡ (subs i).closed
    → s.wake_closed ≡ (subs i).wake_closed
    → SameClosed subs (update subs i s)
update-SameClosed subs i s e f j = (ground arith, ground arith)

wake_all_lem :
    (is : List ℕ) (subs : ℕ → Subscription)
    → ((i : ℕ) → member i is ≡ true → (subs i).wake_closed ≡ false)
    → (subs' : ℕ → Subscription) × (wake_all is subs ≡ some subs')
      × SameClosed subs subs'
      × ((j : ℕ) → (member j is || (subs j).wake) ≡ (subs' j).wake)
unfolding wake_all
wake_all_lem [] subs h = (subs, refl, λ j. (refl, refl), λ j. refl)
wake_all_lem (i ∷ is) subs h =
    let woken = update subs i (record (subs i) { wake = true }) in
    let (subs', e, same, tokens) = wake_all_lem is woken (λ j m. ground (arith, h j)) in
    (
      subs',
      ground (arith, h i, e),
      (λ j. (ground (arith, (same j).0), ground (arith, (same j).1))),
      λ j. ground (arith, tokens j),
    )

IsSound-same :
    (h h' : Hub)
    → IsSound h
    → SameClosed h.subs h'.subs
    → h'.readers ≡ h.readers
    → h'.allocated ≡ h.allocated
    → h'.subscribers ≡ h.subscribers
    → h'.closed ≡ h.closed
    → IsSound h'
IsSound-same h h' v same r a s c = record {
  counted = rw (s, r) v.counted;
  distinct = rw r v.distinct;
  allocated_readers = λ i m. rw a (v.allocated_readers i (rw r at m));
  open_readers = λ i m. (same i).0 ∙ v.open_readers i (rw r at m);
  registered = λ i lt o. rw r (v.registered i (rw a at lt) (sym (same i).0 ∙ o));
  channel = λ i. (same i).1 ∙ v.channel i ∙ sym (same i).0;
  empty = λ e. r ∙ v.empty (sym c ∙ e);
}

-- A publication never sends on a closed channel; it keeps the invariant, and leaves a wake-up with
-- every registered reader of an open hub.
pub publish_store-IsSound :
    (h : Hub) (p : Bytes)
    → IsSound h
    → (h' : Hub) × (publish_store h p ≡ some h')
      × IsSound h'
      × ((i : ℕ) → member i h.readers ≡ true → (h'.subs i).wake ≡ true)
unfolding publish_store
publish_store-IsSound h p v = elim (Bool-cases h.closed) [
  | inl shut ↦ (h, rw shut, v, λ i m. absurd (ground (arith, v.empty shut)))
  | inr is_open ↦
      let (subs', e, same, tokens) =
        wake_all_lem h.readers h.subs (λ i m. v.channel i ∙ v.open_readers i m) in
      let h' : Hub = record h {
        ring = set h.ring (h.next % length h.ring) p;
        next = inc64 h.next;
        subs = subs';
      } in
      (
        h',
        ground (arith, e),
        IsSound-same h h' v same refl refl refl refl,
        λ i m. ground (arith, tokens i),
      )
]

not_member : (i : ℕ) (is : List ℕ) → ¬ (member i is ≡ true) → member i is ≡ false
not_member i is n = elim (Bool-cases (member i is)) [ inl m ↦ absurd (n m) | inr k ↦ k ]

member-remove : (i j : ℕ) (is : List ℕ) → member j (remove i is) ≡ (not (i == j) && member j is)
member-remove i j [] = ground arith
member-remove i j (k ∷ is) = ground (arith, member-remove i j is)

Distinct-remove : (i : ℕ) (is : List ℕ) → Distinct is → Distinct (remove i is)
Distinct-remove i [] d = tt
Distinct-remove i (k ∷ is) d = elim (Bool-cases (k == i)) [
  | inl e ↦ rw e (Distinct-remove i is d.1)
  | inr n ↦ rw n (ground (arith, member-remove i k is, d.0), Distinct-remove i is d.1)
]

remove_absent : (i : ℕ) (is : List ℕ) → member i is ≡ false → remove i is ≡ is
remove_absent i [] m = refl
remove_absent i (k ∷ is) m = ground (arith, remove_absent i is)

length-remove :
    (i : ℕ) (is : List ℕ) → Distinct is → member i is ≡ true → length (remove i is) + 1 ≡ length is
length-remove i [] d m = cc
length-remove i (k ∷ is) d m = elim (Bool-cases (k == i)) [
  | inl e ↦ ground (arith, remove_absent i is, d.0)
  | inr n ↦ ground (arith, length-remove i is d.1)
]

close_all_lem :
    (is : List ℕ) (subs : ℕ → Subscription)
    → Distinct is
    → ((i : ℕ) → member i is ≡ true → (subs i).wake_closed ≡ false)
    → (subs' : ℕ → Subscription) × (close_all is subs ≡ some subs')
      × ((j : ℕ)
          → ((subs' j).closed ≡ (member j is || (subs j).closed))
            × ((subs' j).wake_closed ≡ (member j is || (subs j).wake_closed)))
unfolding close_all
close_all_lem [] subs d h = (subs, refl, λ j. (refl, refl))
close_all_lem (i ∷ is) subs d h =
    let shut = update subs i (record (subs i) { closed = true; wake_closed = true }) in
    let (subs', e, closes) = close_all_lem is shut d.1 (λ j m. ground (arith, h j, d.0)) in
    (
      subs',
      ground (arith, h i, e),
      λ j. (ground (arith, (closes j).0), ground (arith, (closes j).1)),
    )

subscribe-IsSound : (h : Hub) → IsSound h → IsSound (subscribe h).1
unfolding subscribe
subscribe-IsSound h v = elim (Bool-cases h.closed) [
  | inl shut ↦ simp shut v
  | inr is_open ↦
      let fresh : member h.allocated h.readers ≡ false =
        not_member h.allocated h.readers
          (λ m. absurd (omega (arith, v.allocated_readers h.allocated m))) in
      simp is_open (record {
        counted = omega (arith, v.counted);
        distinct = (fresh, v.distinct);
        allocated_readers = λ i m. ground (arith, v.allocated_readers i);
        open_readers = λ i m. ground (arith, v.open_readers i);
        registered = λ i lt o. ground (arith, v.registered i);
        channel = λ i. ground (arith, v.channel i);
        empty = λ e. cc;
      })
]

next_round-IsSound : (h : Hub) (i : ℕ) → IsSound h → IsSound (next_round h i).1
unfolding next_round
next_round-IsSound h i v =
    IsSound-same h (next_round h i).1 v (λ j. (ground arith, ground arith)) (ground arith)
      (ground arith) (ground arith) (ground arith)

close_subscription-IsSound :
    (h : Hub) (i : ℕ)
    → IsSound h
    → i < h.allocated
    → (h' : Hub) × (close_subscription h i ≡ some h') × IsSound h'
unfolding close_subscription
close_subscription-IsSound h i v a = elim (Bool-cases (h.subs i).closed) [
  | inl shut ↦ (h, rw shut, v)
  | inr is_open ↦
      let m = v.registered i a is_open in
      let s : Subscription = record (h.subs i) { closed = true; wake_closed = true } in
      let h' : Hub = record h {
        readers = remove i h.readers;
        subs = update h.subs i s;
        subscribers = h.subscribers - 1;
      } in
      (
        h',
        ground (arith, v.channel i),
        record {
          counted = omega (arith, v.counted, length-remove i h.readers v.distinct m);
          distinct = Distinct-remove i h.readers v.distinct;
          allocated_readers =
              λ j k. v.allocated_readers j (ground (arith, member-remove i j h.readers));
          open_readers = λ j k. ground (arith, member-remove i j h.readers, v.open_readers j);
          registered = λ j lt o. ground (arith, member-remove i j h.readers, v.registered j);
          channel = λ j. ground (arith, v.channel j);
          empty = λ e. ground (arith, v.empty e);
        },
      )
]

close_hub-IsSound : (h : Hub) → IsSound h → (h' : Hub) × (close_hub h ≡ some h') × IsSound h'
unfolding close_hub
close_hub-IsSound h v = elim (Bool-cases h.closed) [
  | inl shut ↦ (h, rw shut, v)
  | inr is_open ↦
      let (subs', e, closes) =
        close_all_lem h.readers h.subs v.distinct (λ i m. v.channel i ∙ v.open_readers i m) in
      let h' : Hub = record h { closed = true; readers = []; subs = subs'; subscribers = 0 } in
      (
        h',
        ground (arith, e),
        record {
          counted = refl;
          distinct = tt;
          allocated_readers = λ j m. absurd (ground arith);
          open_readers = λ j m. absurd (ground arith);
          registered = λ j lt o. absurd (ground (arith, closes j, v.registered j lt));
          channel = λ j. ground (arith, closes j, v.channel j);
          empty = λ e'. refl;
        },
      )
]

-- One operation of some goroutine: the critical sections of `Publish` and `Subscribe`, a round of
-- `Next`, the receipt of a wake-up, a dropped event, and the two closes.
pub data Step (h : Hub) : Hub → Type 0 where
  store : {h' : Hub} (p : Bytes) → publish_store h p ≡ some h' → Step h h'
  join : Step h (subscribe h).1
  round : (i : ℕ) → Step h (next_round h i).1
  receive :
      (i : ℕ) → Step h (record h { subs = update h.subs i (record (h.subs i) { wake = false }) })
  refuse : Step h (record h { dropped = inc64 h.dropped })
  leave : {h' : Hub} (i : ℕ) → i < h.allocated → close_subscription h i ≡ some h' → Step h h'
  shut : {h' : Hub} → close_hub h ≡ some h' → Step h h'

pub data Reach (h : Hub) : Hub → Type 0 where
  here : Reach h h
  next : {g k : Hub} → Reach h g → Step g k → Reach h k

of_some : {x : Option Hub} {h' k : Hub} → x ≡ some h' → x ≡ some k → IsSound k → IsSound h'
of_some {x} {h'} {k} e f v = let same : h' ≡ k = cc in rw same v

Step-IsSound : {h h' : Hub} → Step h h' → IsSound h → IsSound h'
Step-IsSound {h} (store p e) v = let (k, f, s, _) = publish_store-IsSound h p v in of_some e f s
Step-IsSound {h} join v = subscribe-IsSound h v
Step-IsSound {h} (round i) v = next_round-IsSound h i v
Step-IsSound {h} (receive i) v =
    IsSound-same h _ v (update-SameClosed h.subs i _ refl refl) refl refl refl refl
Step-IsSound {h} refuse v = IsSound-same h _ v (λ j. (refl, refl)) refl refl refl refl
Step-IsSound {h} (leave i a e) v =
    let (k, f, s) = close_subscription-IsSound h i v a in of_some e f s
Step-IsSound {h} (shut e) v = let (k, f, s) = close_hub-IsSound h v in of_some e f s

new_hub-IsSound : (capacity : ℕ) → IsSound (new_hub capacity)
unfolding new_hub
new_hub-IsSound capacity = record {
  counted = refl;
  distinct = tt;
  allocated_readers = λ i m. cc;
  open_readers = λ i m. cc;
  registered = λ i lt o. absurd (omega arith);
  channel = λ i. refl;
  empty = λ e. refl;
}

pub Reach-IsSound : {g h : Hub} → Reach g h → IsSound g → IsSound h
Reach-IsSound here v = v
Reach-IsSound (next r s) v = Step-IsSound s (Reach-IsSound r v)

-- A channel is closed exactly if its subscription is, so no close of a subscription panics.
close_subscription_sound : (h : Hub) (i : ℕ) → IsSound h → close_subscription h i ≢ none
unfolding close_subscription
close_subscription_sound h i v n = ground (arith, v.channel i)

-- Whatever the interleaving, in every state that a new hub can reach: storing an event, closing the
-- hub and closing any subscription do not panic, and the counter that gates `Publish` is the number
-- of registered readers.
pub hub_never_panics :
    (capacity : ℕ) {h : Hub} (p : Bytes) (i : ℕ)
    → Reach (new_hub capacity) h
    → (publish_store h p ≢ none)
      × (close_subscription h i ≢ none)
      × (close_hub h ≢ none)
      × (h.subscribers ≡ length h.readers)
hub_never_panics capacity {h} p i r =
    let v = Reach-IsSound r (new_hub-IsSound capacity) in
    let (_, e, _, _) = publish_store-IsSound h p v in
    let (_, g, _) = close_hub-IsSound h v in
    (λ n. cc, close_subscription_sound h i v, λ n. cc, v.counted)

-- No wake-up is lost: a stored event leaves a wake-up with every registered reader of an open hub.
pub publish_store-wakes :
    (capacity : ℕ) {h h' : Hub} (p : Bytes) (i : ℕ)
    → Reach (new_hub capacity) h
    → member i h.readers ≡ true
    → publish_store h p ≡ some h'
    → (h'.subs i).wake ≡ true
publish_store-wakes capacity {h} {h'} p i r m e =
    let (k, f, _, woken) = publish_store-IsSound h p (Reach-IsSound r (new_hub-IsSound capacity)) in
    let same : h' ≡ k = cc in rw same (woken i m)
