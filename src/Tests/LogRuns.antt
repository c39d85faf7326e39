-- ===== src/Tests/LogRuns.antt =====
-- Runs of the log hub and of the frames.
use mihomo_extension_sidecar.Common.{
  ℕ, ◌≤◌, Bool, true, [], ◌∷◌, ◌++◌, Option, some, none, Bytes, codes, ◌≡◌, ◌≢◌, refl, arith,
  length, get_elem?,
}
use mihomo_extension_sidecar.Logs.Hub.{
  Hub, new_hub, publish_store, subscribe, next_round, close_subscription, close_hub, payload,
  wake_all,
}
use mihomo_extension_sidecar.Logs.Hub.Ring.{IsLog, publish_store-IsLog, next_round-history}
use mihomo_extension_sidecar.Logs.Hub.Readers.{
  Reach, here, next, store, join, hub_never_panics, publish_store-wakes,
}
use mihomo_extension_sidecar.Logs.Frame.{
  got, known_opcode, read_client_frame, read_byte, read_bytes, read_length, check_close, apply_mask,
  write_frame, server_length, max_client_frame,
}
use mihomo_extension_sidecar.Logs.Frame.Client.{CloseOk, read_client_frame-limits}
use mihomo_extension_sidecar.Logs.Frame.Server.{decode_frame, write_frame-decode_frame}

unfoldable opened : Bytes
unfolding new_hub publish_store subscribe next_round close_subscription close_hub wake_all
    read_client_frame read_byte read_bytes read_length check_close apply_mask write_frame
    server_length decode_frame
opened = []

-- A ring of two entries, and a reader from the start.
abbrev hub0 : Hub
hub0 = (subscribe (new_hub 2)).1

abbrev or_else : Hub → Option Hub → Hub
or_else h none = h
or_else h (some k) = k

abbrev hub1 : Hub
hub1 = or_else hub0 (publish_store hub0 (codes "a"))

abbrev hub2 : Hub
hub2 = or_else hub1 (publish_store hub1 (codes "b"))

abbrev hub3 : Hub
hub3 = or_else hub2 (publish_store hub2 (codes "c"))

stored1 : publish_store hub0 (codes "a") ≡ some hub1
unfolding opened
stored1 = refl

stored2 : publish_store hub1 (codes "b") ≡ some hub2
unfolding opened
stored2 = refl

stored3 : publish_store hub2 (codes "c") ≡ some hub3
unfolding opened
stored3 = refl

log0 : IsLog hub0 []
unfolding opened
log0 = record { cap_pos = omega arith; counted = refl; held = λ seq lt k. absurd (omega arith) }

log1 : IsLog hub1 (codes "a" ∷ [])
unfolding opened
log1 = publish_store-IsLog hub0 [] log0 (codes "a") refl (omega arith) stored1

log2 : IsLog hub2 (codes "a" ∷ codes "b" ∷ [])
unfolding opened
log2 = publish_store-IsLog hub1 (codes "a" ∷ []) log1 (codes "b") refl (omega arith) stored2

-- The third entry takes the slot of the first.
publish_store-IsLog_example : IsLog hub3 (codes "a" ∷ codes "b" ∷ codes "c" ∷ [])
unfolding opened
publish_store-IsLog_example =
    publish_store-IsLog hub2 (codes "a" ∷ codes "b" ∷ []) log2 (codes "c") refl (omega arith)
      stored3

log3 : IsLog hub3 (codes "a" ∷ codes "b" ∷ codes "c" ∷ [])
unfolding opened
log3 =
    publish_store-IsLog hub2 (codes "a" ∷ codes "b" ∷ []) log2 (codes "c") refl (omega arith)
      stored3

-- The reader has lost the first entry and is given the second.
next_round-history_example :
    (b : Bytes) × (get_elem? (codes "a" ∷ codes "b" ∷ codes "c" ∷ []) 1 ≡ some b)
    × ((next_round hub3 0).0 ≡ payload b)
    × (((next_round hub3 0).1.subs 0).cursor ≡ 2)
    × (IsLog (next_round hub3 0).1 (codes "a" ∷ codes "b" ∷ codes "c" ∷ []))
unfolding opened
next_round-history_example =
    next_round-history hub3 (codes "a" ∷ codes "b" ∷ codes "c" ∷ []) log3 0 refl refl (omega arith)
      (omega arith)

reach1 : Reach (new_hub 2) hub1
unfolding opened
reach1 = next (next here join) (store (codes "a") stored1)

hub_never_panics_example :
    (publish_store hub1 (codes "b") ≢ none)
    × (close_subscription hub1 0 ≢ none)
    × (close_hub hub1 ≢ none)
    × (hub1.subscribers ≡ length hub1.readers)
unfolding opened
hub_never_panics_example = hub_never_panics 2 (codes "b") 0 reach1

publish_store-wakes_example : (hub2.subs 0).wake ≡ true
unfolding opened
publish_store-wakes_example = publish_store-wakes 2 (codes "b") 0 reach1 refl stored2

abbrev any_text : Bytes → Bool
any_text b = true

-- A text frame of two bytes, masked with 1 2 3 4.
hello_reads :
    read_client_frame any_text (129 ∷ 130 ∷ 1 ∷ 2 ∷ 3 ∷ 4 ∷ 105 ∷ 107 ∷ 9 ∷ [])
    ≡ got (1, codes "hi") (9 ∷ [])
unfolding opened
hello_reads = refl

read_client_frame-limits_example :
    let opcode : ℕ = 1 in
    (known_opcode opcode ≡ true)
    × (length (codes "hi") ≤ max_client_frame)
    × (8 ≤ opcode → length (codes "hi") ≤ 125)
    × (opcode ≡ 8 → CloseOk any_text (codes "hi"))
unfolding opened
read_client_frame-limits_example =
    read_client_frame-limits any_text (129 ∷ 130 ∷ 1 ∷ 2 ∷ 3 ∷ 4 ∷ 105 ∷ 107 ∷ 9 ∷ []) hello_reads

write_frame-decode_frame_example :
    (frame : Bytes) × (write_frame 1 (codes "hi") ≡ got tt frame)
    × (decode_frame (frame ++ (9 ∷ [])) ≡ got (1, codes "hi") (9 ∷ []))
write_frame-decode_frame_example =
    write_frame-decode_frame 1 (codes "hi") (9 ∷ []) (omega arith) (omega arith) (λ h. omega arith)

abbrev same_text : Bytes → Bytes
same_text b = b
