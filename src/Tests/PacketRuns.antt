-- ===== src/Tests/PacketRuns.antt =====
-- Runs of the packet connections: of three datagrams, the first is a stranger's.
use mihomo_extension_sidecar.Common.{
  Bool, true, List, [], ◌∷◌, some, none, Bytes, codes, bytes_eq, ◌≡◌, ◌↔◌, refl, arith,
}
use mihomo_extension_sidecar.Socks.Address.{SocksTarget, host_ip, read_socks_address, read_target}
use mihomo_extension_sidecar.Socks.Conn.{read_full}
use mihomo_extension_sidecar.Socks.Datagram.{resize_read_buffer, parse_datagram}
use mihomo_extension_sidecar.Socks.Packets.{
  Endpoint, Arrival, fixed_read_from, server_read_from, allows, same_socks_target, same_host,
  same_name, normal_host, trim_dot,
}
use mihomo_extension_sidecar.Socks.Packets.Targets.{SameHost, same_socks_target_iff}
use mihomo_extension_sidecar.Socks.Packets.Delivery.{FixedFrom, Sendable, fixed_read_from-whole}
use mihomo_extension_sidecar.Socks.Packets.Pinning.{ServerFrom, server_read_from-whole}
use mihomo_extension_sidecar.Tests.SocksRuns.{opened, texts, query, query_packet, website}

unfoldable running : Bytes
unfolding opened fixed_read_from server_read_from resize_read_buffer parse_datagram
    read_socks_address read_target read_full allows same_socks_target same_host same_name trim_dot
running = []

abbrev relay : Endpoint
relay = record { ip = 10 ∷ 0 ∷ 0 ∷ 1 ∷ []; port = 1080 }

abbrev stranger : Endpoint
stranger = record { ip = 10 ∷ 0 ∷ 0 ∷ 9 ∷ []; port = 1080 }

abbrev from : Endpoint → Arrival
from e = record { source = e; content = query_packet }

abbrev arrivals : List Arrival
arrivals = from stranger ∷ from relay ∷ from relay ∷ []

small : (e : Endpoint) → Sendable texts (from e)
small e = (
  (
    omega arith,
    (
      omega arith,
      (
        omega arith,
        (
          omega arith,
          (
            omega arith,
            (
              omega arith,
              (
                omega arith,
                (
                  omega arith,
                  (
                    omega arith,
                    (
                      omega arith,
                      (
                        omega arith,
                        (
                          omega arith,
                          (omega arith, (omega arith, (omega arith, (omega arith, tt)))),
                        ),
                      ),
                    ),
                  ),
                ),
              ),
            ),
          ),
        ),
      ),
    ),
  ),
  omega arith,
)

fixed_read :
    fixed_read_from texts bytes_eq relay website 0 16 arrivals ≡ (some query, from relay ∷ [])
unfolding running
fixed_read = refl

fixed_read_from-whole_example :
    FixedFrom texts bytes_eq relay website 16 arrivals query (from relay ∷ [])
fixed_read_from-whole_example =
    fixed_read_from-whole texts bytes_eq relay website 0 16 arrivals query (from relay ∷ [])
      (small stranger, (small relay, (small relay, tt))) fixed_read

abbrev secure : SocksTarget → Bool
secure = allows texts true (λ host. true)

server_read :
    server_read_from texts bytes_eq relay.ip secure 0 16 none arrivals
    ≡ (some (query, relay, website), some relay, from relay ∷ [])
unfolding running
server_read = refl

server_read_from-whole_example :
    ServerFrom texts bytes_eq relay.ip secure 0 16 none arrivals query relay website
      (some relay)
      (from relay ∷ [])
server_read_from-whole_example =
    server_read_from-whole texts bytes_eq relay.ip secure 0 16 none arrivals query relay website
      (some relay) (from relay ∷ []) (small stranger, (small relay, (small relay, tt))) server_read

abbrev dotted : SocksTarget
dotted = record { host = codes "a.io."; port = 443 }

dotted_same : same_socks_target texts (λ h. h) website dotted ≡ true
unfolding running
dotted_same = refl

undotted_same : same_socks_target texts (λ h. h) dotted website ≡ true
unfolding running
undotted_same = refl

same_socks_target_iff_example : (same_socks_target texts (λ h. h) website dotted ≡ true) ↔ (
    (website.port ≡ dotted.port)
    × SameHost
        (host_ip texts)
        (normal_host texts (λ h. h) website)
        (normal_host texts (λ h. h) dotted))
same_socks_target_iff_example = same_socks_target_iff texts (λ h. h) website dotted
