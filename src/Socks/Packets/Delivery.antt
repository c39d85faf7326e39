-- ===== src/Socks/Packets/Delivery.antt =====
-- What a packet connection delivers is a whole datagram of the right peer.
use mihomo_extension_sidecar.Common.{
  ℕ, ◌+◌, ◌-◌, ◌≤◌, ◌==◌, ltb, Bool, true, not, ◌||◌, List, [], ◌∷◌, some, Bytes, ◌≡◌, inl, inr, ap,
  sym, arith, length, take, length-drop, length-take, take_all, All, All-take, dec_lt, ◌++◌, Octets,
  Bool-cases,
}
use mihomo_extension_sidecar.Socks.Conn.{Conn, ok, read_full, Reply-cases}
use mihomo_extension_sidecar.Socks.Address.{SocksTarget, IpText, read_target, read_socks_address}
use mihomo_extension_sidecar.Socks.Datagram.{
  max_envelope, max_datagram, resize_read_buffer, parse_datagram,
}
use mihomo_extension_sidecar.Socks.Packets.{Endpoint, Arrival, same_endpoint, fixed_read_from}

module _ (t : IpText) where
  read_socks_address-length :
      (bytes sent : Bytes) (writes : ℕ) {target : SocksTarget} {c' : Conn}
      → Octets bytes
      → read_socks_address t (record { inbox = bytes; sent = sent; writes = writes })
        ≡ (ok target, c')
      → length bytes ≤ length c'.inbox + 259
  unfolding read_socks_address read_target read_full
  read_socks_address-length [] sent writes o e = absurd (ground arith)
  read_socks_address-length (k ∷ []) sent writes o e = omega arith
  read_socks_address-length (k ∷ n ∷ rest) sent writes o e =
      ground (arith, length-drop 4 (n ∷ rest), length-drop 16 (n ∷ rest), length-drop n rest)

  parse_datagram-length :
      (packet : Bytes) {payload : Bytes} {target : SocksTarget}
      → Octets packet
      → parse_datagram t packet ≡ ok (payload, target)
      → length packet ≤ length payload + max_envelope
  unfolding parse_datagram
  parse_datagram-length (a ∷ b ∷ f ∷ d ∷ rest) o e =
      let c : Conn = record { inbox = d ∷ rest; sent = []; writes = 0 } in
      elim (Reply-cases (read_socks_address t c).0) [
        | inr (_, q) ↦ absurd (ground arith)
        | inl (tg, q) ↦
            let c' : Conn = (read_socks_address t c).1 in
            let read : read_socks_address t c ≡ (ok tg, c') = ground (arith, q) in
            let used = read_socks_address-length (d ∷ rest) [] 0 o.1.1.1 read in
            let offset = 3 + (length (d ∷ rest) - length c'.inbox) in
            ground (arith, used, q, length-drop offset (a ∷ b ∷ f ∷ d ∷ rest))
      ]
  parse_datagram-length [] o e = absurd (ground arith)
  parse_datagram-length (a ∷ []) o e = absurd (ground arith)
  parse_datagram-length (a ∷ b ∷ []) o e = absurd (ground arith)
  parse_datagram-length (a ∷ b ∷ f ∷ []) o e = absurd (ground arith)

  -- A datagram as it can arrive: bytes, at most as many as the limit.
  abbrev pub Sendable : Arrival → Type 0
  Sendable d = Octets d.content × (length d.content ≤ max_datagram)

  -- What is read behind a truncation does not fit the caller's buffer.
  pub whole :
      (d : Arrival) (held room : ℕ) {payload : Bytes} {source : SocksTarget}
      → Sendable d
      → length payload ≤ room
      → parse_datagram t (take (resize_read_buffer held room).1 d.content) ≡ ok (payload, source)
      → parse_datagram t d.content ≡ ok (payload, source)
  unfolding resize_read_buffer
  whole d held room {payload} {source} (o, short) fits e =
      let size = (resize_read_buffer held room).1 in
      elim (dec_lt size (length d.content)) [
        | no all ↦ rw (sym (take_all size d.content (omega arith))) e
        | yes cut ↦
            let long = length-take size d.content (omega arith) in
            let bound =
              parse_datagram-length (take size d.content) (All-take _ size d.content o) e in
            absurd (ground arith)
      ]

module _ (t : IpText) (ip_equal : Bytes → Bytes → Bool) where
  -- The datagram that is delivered: what arrived before it, and what is left behind it.
  pub record FixedFrom (relay : Endpoint) (target : SocksTarget) (room : ℕ)
      (arrivals : List Arrival) (payload : Bytes) (left : List Arrival) : Type 0 where
    pub before : List Arrival
    pub datagram : Arrival
    pub source : SocksTarget
    pub split : arrivals ≡ before ++ (datagram ∷ left)
    pub from_relay : same_endpoint ip_equal datagram.source relay ≡ true
    pub is_whole : parse_datagram t datagram.content ≡ ok (payload, source)
    pub same_port : source.port ≡ target.port
    pub fits : length payload ≤ room

  fixed_later :
      (relay : Endpoint) (target : SocksTarget) (room : ℕ) (ds : List Arrival) (payload : Bytes)
      (left : List Arrival) (d : Arrival)
      → FixedFrom relay target room ds payload left
      → FixedFrom relay target room (d ∷ ds) payload left
  fixed_later relay target room ds payload left d f = record {
    before = d ∷ f.before;
    datagram = f.datagram;
    source = f.source;
    split = ap (◌∷◌ d) f.split;
    from_relay = f.from_relay;
    is_whole = f.is_whole;
    same_port = f.same_port;
    fits = f.fits;
  }

  -- What the client's side delivers is the payload of a whole datagram that arrived from the relay with
  -- the port of the target, and what came behind that datagram is left; of datagrams within the limit,
  -- one that the read buffer cuts off is never delivered.
  pub fixed_read_from-whole :
      (relay : Endpoint) (target : SocksTarget) (held room : ℕ) (arrivals : List Arrival)
      (payload : Bytes) (left : List Arrival)
      → All (Sendable t) arrivals
      → fixed_read_from t ip_equal relay target held room arrivals ≡ (some payload, left)
      → FixedFrom relay target room arrivals payload left
  unfolding fixed_read_from
  fixed_read_from-whole relay target held room [] payload left a e = absurd (ground arith)
  fixed_read_from-whole relay target held room (d ∷ ds) payload left (s, a) e =
      let size = (resize_read_buffer held room).1 in
      let packet = parse_datagram t (take size d.content) in
      let later : fixed_read_from t ip_equal relay target held room ds ≡ (some payload, left)
          → FixedFrom relay target room (d ∷ ds) payload left =
        λ h.
          fixed_later relay target room ds payload left d
            (fixed_read_from-whole relay target held room ds payload left a h) in
      elim (Bool-cases (same_endpoint ip_equal d.source relay)) [
        | inr stranger ↦ later (ground arith)
        | inl peer ↦ elim (Reply-cases packet) [
          | inr (_, q) ↦ later (ground (arith, q))
          | inl ((body, source), q) ↦
              elim (Bool-cases (not (source.port == target.port) || ltb room (length body))) [
                | inl refused ↦ later (ground (arith, q))
                | inr taken ↦ record {
                  before = [];
                  datagram = d;
                  source = source;
                  split = ground (arith, q);
                  from_relay = peer;
                  is_whole = whole t d held room s (ground (arith, q)) (ground (arith, q));
                  same_port = ground arith;
                  fits = ground (arith, q);
                }
              ]
        ]
      ]
