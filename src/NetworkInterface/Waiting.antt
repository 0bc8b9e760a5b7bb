-- ===== src/NetworkInterface/Waiting.antt =====
-- Datagrams that wait in an interface of libsponge/network_interface.cc for an address.
use cs144_sponge.Prelude.{
  ℕ, ◌+◌, ◌*◌, ◌^◌, ◌<◌, ◌≤◌, ◌≡◌, ◌∙◌, refl, ap, none, true, false, ◌==◌, leb, arith, u64, ok,
  Bool-cases, Option-cases, inl, inr,
}
use cs144_sponge.EthernetCache.{get_cache}
use cs144_sponge.Ipv4.{InternetDatagram}
use cs144_sponge.Ethernet.{type_ipv4}
use cs144_sponge.NetworkInterface.{
  NetworkInterface, still_waits, find_waiting, send_to, send_datagram, tick, push_frame, frame,
}
use cs144_sponge.NetworkInterface.Sending.{IsDatagram, datagram_bytes, send_known}
use cs144_sponge.NetworkInterface.Exchange.{IsInterface, asked, send_request}

send_nothing :
    (n : NetworkInterface) (d : InternetDatagram) (hop : ℕ)
    → get_cache n.ip_mac_map hop ≡ none
    → still_waits (find_waiting n.arp_ip_queue n.ip_address) n.ms_since_last_tick ≡ true
    → send_datagram n d hop ≡ ok tt n
unfolding send_datagram send_to
send_nothing n d hop e w = ap (send_to n d hop) e ∙ rw w refl

waits_after :
    (a : NetworkInterface) (d : InternetDatagram) (hop t : ℕ)
    → t ≤ 5 * 1000
    → a.ms_since_last_tick + 5 * 1000 < 2 ^ 64
    → let n = tick (asked a d hop) t in
      still_waits (find_waiting n.arp_ip_queue n.ip_address) n.ms_since_last_tick ≡ true
unfolding find_waiting tick
waits_after a d hop t h small =
    let same : (a.ip_address == a.ip_address) ≡ true = ground arith in
    let e : leb (u64 (a.ms_since_last_tick + t)) (u64 (a.ms_since_last_tick + 5 * 1000)) ≡ true =
      ground arith in
    rw same e

-- Within five seconds after a request, a datagram to any next hop whose address is not known is
-- lost: no request leaves for it, and it does not wait. The test for a request under way looks at
-- the interface's own address, not at that of the next hop.
pub send_datagram-lost :
    (a : NetworkInterface) (d later : InternetDatagram) (hop other t : ℕ)
    → IsInterface a
    → hop < 2 ^ 32
    → get_cache a.ip_mac_map hop ≡ none
    → still_waits (find_waiting a.arp_ip_queue a.ip_address) a.ms_since_last_tick ≡ false
    → t ≤ 5 * 1000
    → a.ms_since_last_tick + 5 * 1000 < 2 ^ 64
    → get_cache (tick (asked a d hop) t).ip_mac_map other ≡ none
    → (send_datagram a d hop ≡ ok tt (asked a d hop))
      × (send_datagram (tick (asked a d hop) t) later other ≡ ok tt (tick (asked a d hop) t))
send_datagram-lost a d later hop other t v h e w k small unknown = (
  send_request a d hop v h e w,
  send_nothing (tick (asked a d hop) t) later other unknown (waits_after a d hop t k small),
)

-- A call of `send_datagram` that returns.
pub record Sent (n : NetworkInterface) (d : InternetDatagram) (hop : ℕ) : Type 0 where
  pub after : NetworkInterface
  pub returns : send_datagram n d hop ≡ ok tt after
  pub valid : IsInterface after

-- A valid interface takes every valid datagram without an exception, and stays valid.
pub send_datagram-Sent :
    (n : NetworkInterface) (d : InternetDatagram) (hop : ℕ)
    → IsInterface n
    → IsDatagram d
    → hop < 2 ^ 32
    → Sent n d hop
send_datagram-Sent n d hop v vd h = elim (Option-cases (get_cache n.ip_mac_map hop)) [
  | inr (mac, e) ↦ record {
    after = push_frame n (frame mac n.ethernet_address type_ipv4 (datagram_bytes d));
    returns = send_known n d hop mac e vd;
    valid = record { unicast = v.unicast; ip_small = v.ip_small };
  }
  | inl e ↦
      elim (Bool-cases
        (still_waits (find_waiting n.arp_ip_queue n.ip_address) n.ms_since_last_tick)) [
          | inl w ↦ record { after = n; returns = send_nothing n d hop e w; valid = v }
          | inr w ↦ record {
            after = asked n d hop;
            returns = send_request n d hop v h e w;
            valid = record { unicast = v.unicast; ip_small = v.ip_small };
          }
        ]
]
