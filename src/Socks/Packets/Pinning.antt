-- ===== src/Socks/Packets/Pinning.antt =====
-- The server's side keeps to one relay and to the targets that are allowed.
use mihomo_extension_sidecar.Common.{
  ℕ, ◌≤◌, ltb, Bool, true, not, ◌||◌, List, [], ◌∷◌, ◌++◌, Option, some, Bytes, ◌≡◌, inl, inr, refl,
  ap, arith, ◌∙◌, none, false, if◌then◌else◌, length, take, All, Bool-cases,
}
use mihomo_extension_sidecar.Socks.Conn.{ok, Reply-cases}
use mihomo_extension_sidecar.Socks.Address.{SocksTarget, IpText}
use mihomo_extension_sidecar.Socks.Datagram.{resize_read_buffer, parse_datagram}
use mihomo_extension_sidecar.Socks.Packets.{
  Endpoint, Arrival, same_endpoint, pinned, server_read_from,
}
use mihomo_extension_sidecar.Socks.Packets.Delivery.{Sendable, whole}

module _ (t : IpText) (ip_equal : Bytes → Bytes → Bool) (allowed_ip : Bytes)
    (allowed : SocksTarget → Bool) (held room : ℕ) where
  abbrev pub read_from :
      Option Endpoint
      → List Arrival
      → Option (Bytes × Endpoint × SocksTarget) × Option Endpoint × List Arrival
  read_from = server_read_from t ip_equal allowed_ip allowed held room

  -- A relay that is known stays the relay.
  pub server_read_from-keeps :
      (relay : Endpoint) (arrivals : List Arrival)
      → (read_from (some relay) arrivals).1 ≡ some relay
  unfolding server_read_from
  server_read_from-keeps relay [] = refl
  server_read_from-keeps relay (d ∷ ds) =
      let size = (resize_read_buffer held room).1 in
      let later = server_read_from-keeps relay ds in ground (arith, later)

  -- The first source that has the client's IP.
  unfoldable pub first_allowed : List Arrival → Option Endpoint
  first_allowed [] = none
  first_allowed (d ∷ ds) =
      let rest = first_allowed ds in if ip_equal d.source.ip allowed_ip then some d.source else rest

  -- The relay that is known stays; where none is, the first source with the client's IP becomes it.
  unfoldable pub relay_of : Option Endpoint → List Arrival → Option Endpoint
  relay_of (some relay) arrivals = some relay
  relay_of none arrivals = first_allowed arrivals

  -- The datagram that is delivered, with the relay afterwards.
  pub record ServerFrom (known : Option Endpoint) (arrivals : List Arrival) (payload : Bytes)
      (from : Endpoint) (target : SocksTarget) (after : Option Endpoint) (left : List Arrival)
      : Type 0 where
    pub before : List Arrival
    pub content : Bytes
    pub relay : Endpoint
    pub split : arrivals ≡ before ++ (record { source = from; content = content } ∷ left)
    pub from_allowed : ip_equal from.ip allowed_ip ≡ true
    pub relay_is : relay_of known arrivals ≡ some relay
    pub relay_kept : after ≡ some relay
    pub from_relay : same_endpoint ip_equal from relay ≡ true
    pub is_whole : parse_datagram t content ≡ ok (payload, target)
    pub target_allowed : allowed target ≡ true
    pub fits : length payload ≤ room

  -- Behind a datagram that leaves the relay as it is expected.
  server_later :
      (known now : Option Endpoint) (ds : List Arrival) (payload : Bytes) (from : Endpoint)
      (target : SocksTarget) (after : Option Endpoint) (left : List Arrival) (d : Arrival)
      → relay_of known (d ∷ ds) ≡ relay_of now ds
      → ServerFrom now ds payload from target after left
      → ServerFrom known (d ∷ ds) payload from target after left
  server_later known now ds payload from target after left d e f = record {
    before = d ∷ f.before;
    content = f.content;
    relay = f.relay;
    split = ap (◌∷◌ d) f.split;
    from_allowed = f.from_allowed;
    relay_is = e ∙ f.relay_is;
    relay_kept = f.relay_kept;
    from_relay = f.from_relay;
    is_whole = f.is_whole;
    target_allowed = f.target_allowed;
    fits = f.fits;
  }

  -- The source of another IP does not count, and one of the client's is the relay or pins it.
  relay_of-other :
      (known : Option Endpoint) (d : Arrival) (ds : List Arrival)
      → ip_equal d.source.ip allowed_ip ≡ false
      → relay_of known (d ∷ ds) ≡ relay_of known ds
  unfolding relay_of first_allowed
  relay_of-other none d ds e = ground (arith, e)
  relay_of-other (some relay) d ds e = refl

  relay_of-client :
      (known : Option Endpoint) (d : Arrival) (ds : List Arrival)
      → ip_equal d.source.ip allowed_ip ≡ true
      → relay_of known (d ∷ ds) ≡ some (pinned known d.source)
  unfolding relay_of first_allowed
  relay_of-client none d ds e = ground (arith, e)
  relay_of-client (some relay) d ds e = refl

  -- What the server's side delivers is the payload of a whole datagram that arrived from the client's
  -- IP and from the relay, for an allowed target, and what came behind that datagram is left. The
  -- relay is the one known before the call or else the first source with the client's IP, and it
  -- is known afterwards; of datagrams within the limit, one that the read buffer cuts off is never
  -- delivered.
  pub server_read_from-whole :
      (known : Option Endpoint) (arrivals : List Arrival) (payload : Bytes) (from : Endpoint)
      (target : SocksTarget) (after : Option Endpoint) (left : List Arrival)
      → All (Sendable t) arrivals
      → read_from known arrivals ≡ (some (payload, from, target), after, left)
      → ServerFrom known arrivals payload from target after left
  unfolding server_read_from relay_of
  server_read_from-whole known [] payload from target after left a e = absurd (ground arith)
  server_read_from-whole known (d ∷ ds) payload from target after left (s, a) e =
      let size = (resize_read_buffer held room).1 in
      let packet = parse_datagram t (take size d.content) in
      let now = pinned known d.source in
      elim (Bool-cases (ip_equal d.source.ip allowed_ip)) [
        | inr other ↦
            server_later known known ds payload from target after left d
              (relay_of-other known d ds other)
              (server_read_from-whole known ds payload from target after left a (ground arith))
        | inl client ↦
            let pins = relay_of-client known d ds client in
            let later : read_from (some now) ds ≡ (some (payload, from, target), after, left)
                → ServerFrom known (d ∷ ds) payload from target after left =
              λ h.
                server_later known (some now) ds payload from target after left d pins
                  (server_read_from-whole (some now) ds payload from target after left a h) in
            elim (Bool-cases (same_endpoint ip_equal d.source now)) [
              | inr stranger ↦ later (ground arith)
              | inl peer ↦ elim (Reply-cases packet) [
                | inr (_, q) ↦ later (ground (arith, q))
                | inl ((body, wanted), q) ↦
                    elim (Bool-cases (not (allowed wanted) || ltb room (length body))) [
                      | inl refused ↦ later (ground (arith, q))
                      | inr taken ↦
                          let kept : from ≡ d.source = ground (arith, q) in
                          let fits : length payload ≤ room = ground (arith, q) in
                          record {
                            before = [];
                            content = d.content;
                            relay = now;
                            split = ground (arith, q);
                            from_allowed = ground (arith, kept);
                            relay_is = pins;
                            relay_kept = ground (arith, q);
                            from_relay = ground (arith, kept);
                            is_whole = whole t d held room s fits (ground (arith, q));
                            target_allowed = ground (arith, q);
                            fits = fits;
                          }
                    ]
              ]
            ]
      ]
