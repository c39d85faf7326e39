-- ===== src/Logs/Hub/Ring.antt =====
-- The ring against the history of everything published: it holds the last entries, and a reader is
-- given the entries of the history in order, each at most once, from its cursor or the oldest kept.
use native.Mathlib.Nat.{mod-lt}
use mihomo_extension_sidecar.Common.{
  ℕ, max, ◌+◌, ◌-◌, ◌%◌, ◌^◌, ◌≤◌, ◌<◌, ltb, false, List, [], ◌∷◌, ◌++◌, some, Bytes, ◌≡◌, refl,
  sym, ◌∙◌, arith, if◌then◌else◌, length, set, get_elem?, length-append, length-set,
  get_elem?-set_self, get_elem?-set_ne, get_elem?-append_lt, get_elem?-append_at, get_elem?-some,
  mod_ne, Option-cases, inl, inr, dec_lt, length-replicate,
}
use mihomo_extension_sidecar.Logs.Hub.{
  inc64, Hub, new_hub, wake_all, publish_store, payload, wait, oldest, next_round,
}

-- The hub after `history` was published: the ring holds its last entries, each at its slot.
pub record IsLog (h : Hub) (history : List Bytes) : Type 0 where
  pub cap_pos : 0 < length h.ring
  pub counted : h.next ≡ length history
  pub held :
      (seq : ℕ)
      → seq < h.next
      → h.next ≤ seq + length h.ring
      → get_elem? h.ring (seq % length h.ring) ≡ get_elem? history seq

IsLog-same :
    (h h' : Hub) (history : List Bytes)
    → h'.ring ≡ h.ring
    → h'.next ≡ h.next
    → IsLog h history
    → IsLog h' history
IsLog-same h h' history r n v = record {
  cap_pos = rw r v.cap_pos;
  counted = n ∙ v.counted;
  held = λ seq lt k. rw r (v.held seq (rw n at lt) (rw (n, r) at k));
}

-- A new hub has an empty history.
pub new_hub-IsLog : (capacity : ℕ) → IsLog (new_hub capacity) []
unfolding new_hub
new_hub-IsLog capacity = record {
  cap_pos =
      ground
        (arith, length-replicate {A = Bytes} 1000 [], length-replicate {A = Bytes} capacity []);
  counted = refl;
  held = λ seq lt k. absurd (omega arith);
}

module _ (h : Hub) (history : List Bytes) (v : IsLog h history) (p : Bytes) where
  abbrev stored : List Bytes
  stored = set h.ring (h.next % length h.ring) p

  stored_held :
      (seq : ℕ)
      → seq < h.next + 1
      → h.next + 1 ≤ seq + length h.ring
      → get_elem? stored (seq % length h.ring) ≡ get_elem? (history ++ p ∷ []) seq
  stored_held seq lt k = elim (dec_lt seq h.next) [
    | yes before ↦
        get_elem?-set_ne h.ring (h.next % length h.ring) (seq % length h.ring) p
          (λ e. mod_ne seq h.next (length h.ring) before (omega arith) (sym e))
        ∙ v.held seq before (omega arith)
        ∙ sym (get_elem?-append_lt history (p ∷ []) seq (omega (arith, v.counted)))
    | no not_before ↦
        let same : seq ≡ h.next = omega arith in
        rw same (
          get_elem?-set_self h.ring (h.next % length h.ring) p (mod-lt h.next v.cap_pos)
          ∙ rw v.counted (sym (get_elem?-append_at history p)))
  ]

  -- In an open hub that is the log of a history shorter by more than one than 2 ^ 64, an event that is
  -- stored makes the hub the log of that history with the event behind it.
  pub publish_store-IsLog :
      {h' : Hub}
      → h.closed ≡ false
      → length history + 1 < 2 ^ 64
      → publish_store h p ≡ some h'
      → IsLog h' (history ++ p ∷ [])
  unfolding publish_store
  publish_store-IsLog {h'} is_open small e = elim (Option-cases (wake_all h.readers h.subs)) [
    | inl n ↦ absurd (ground arith)
    | inr (subs, w) ↦
        let after : Hub = record h { ring = stored; next = inc64 h.next; subs = subs } in
        let same : h' ≡ after = ground arith in
        let size = length-set h.ring (h.next % length h.ring) p in
        let up : inc64 h.next ≡ h.next + 1 = omega (arith, v.counted) in
        rw same (record {
          cap_pos = rw size v.cap_pos;
          counted = omega (arith, v.counted, length-append history (p ∷ []));
          held = λ seq lt k. rw size (stored_held seq (omega arith) (omega arith));
        })
  ]

module _ (h : Hub) (history : List Bytes) (v : IsLog h history) (i : ℕ) where
  -- A reader that is not closed, of an open hub with fewer than 2 ^ 64 entries in its history, is
  -- never told to wait while the history goes on past its cursor. It is
  -- given the entry of the history at its cursor, or at the oldest entry kept if that is later, and
  -- its cursor moves just behind that entry.
  pub next_round-history :
      h.closed ≡ false
      → (h.subs i).closed ≡ false
      → length history < 2 ^ 64
      → (h.subs i).cursor < length history
      → let at = max (h.subs i).cursor (length history - length h.ring) in
        (b : Bytes) × (get_elem? history at ≡ some b)
        × ((next_round h i).0 ≡ payload b)
        × (((next_round h i).1.subs i).cursor ≡ at + 1)
        × (IsLog (next_round h i).1 history)
  unfolding next_round
  next_round-history is_open live small behind =
      let at = max (h.subs i).cursor (length history - length h.ring) in
      let (b, found) = get_elem?-some history at (omega (arith, v.cap_pos)) in
      let slot = v.held at (omega (arith, v.counted, v.cap_pos)) (omega (arith, v.counted)) in
      let c : (if ltb (h.subs i).cursor (oldest h) then oldest h else (h.subs i).cursor) ≡ at =
        ground (arith, v.counted) in
      (
        b,
        found,
        ground (arith, c, slot, found, v.counted),
        ground (arith, c, v.counted),
        IsLog-same h (next_round h i).1 history (ground arith) (ground arith) v,
      )

  -- A reader that is not closed, of an open hub, and that has read the whole history, waits, and its
  -- cursor stays.
  pub next_round-wait :
      h.closed ≡ false
      → (h.subs i).closed ≡ false
      → (h.subs i).cursor ≡ length history
      → ((next_round h i).0 ≡ wait) × (((next_round h i).1.subs i).cursor ≡ length history)
  unfolding next_round
  next_round-wait is_open live done = ground (arith, v.counted, v.cap_pos)
