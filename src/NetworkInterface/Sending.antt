-- ===== src/NetworkInterface/Sending.antt =====
-- A datagram that an interface of libsponge/network_interface.cc sends to a known address, on the
-- wire and received.
use cs144_sponge.Prelude.{
  ℕ, ◌+◌, ◌*◌, ◌≡◌, ◌∙◌, refl, sym, ap, List, [], ◌∷◌, ◌++◌, some, true, ◌==◌, length, append-nil,
  arith, ok,
}
use cs144_sponge.NetParser.{ParseResult}
use cs144_sponge.PacketBuffer.Views.{bytes_of}
use cs144_sponge.EthernetCache.{get_cache}
use cs144_sponge.Ethernet
use cs144_sponge.Ethernet.{EthernetAddress, EthernetFrame, same_address, type_ipv4, type_arp}
use cs144_sponge.Ethernet.RoundTrip as FrameRoundTrip
use cs144_sponge.Ethernet.RoundTrip.{same_address_refl}
use cs144_sponge.Ipv4
use cs144_sponge.Ipv4.{InternetDatagram}
use cs144_sponge.Ipv4.Header as IpHeader
use cs144_sponge.Ipv4.RoundTrip as IpRoundTrip
use cs144_sponge.NetworkInterface.{
  NetworkInterface, frame, push_frame, push_datagram, send_to, send_datagram, recv_ipv4, recv_frame,
}

-- A datagram that its `serialize` takes.
pub record IsDatagram (d : InternetDatagram) : Type 0 where
  pub header_valid : IpHeader.IsHeader d.header
  pub long : d.header.len ≡ 4 * d.header.hlen + length (bytes_of d.payload)

-- The bytes that carry it, and the datagram that they give.
abbrev pub datagram_bytes : InternetDatagram → List ℕ
datagram_bytes d = IpHeader.wire (IpRoundTrip.with_sum d.header) ++ bytes_of d.payload

abbrev pub arrived : InternetDatagram → InternetDatagram
arrived d = record { header = IpRoundTrip.with_sum d.header; payload = bytes_of d.payload ∷ [] }

pub push_datagram_lem :
    (n : NetworkInterface) (dst src : EthernetAddress) (d : InternetDatagram)
    → IsDatagram d
    → push_datagram n dst src (Ipv4.serialize d)
      ≡ ok tt (push_frame n (frame dst src type_ipv4 (datagram_bytes d)))
unfolding push_datagram
push_datagram_lem n dst src d v =
    ap (push_datagram n dst src) (IpRoundTrip.parse-serialize_datagram d d v.header_valid v.long).0

pub send_known :
    (n : NetworkInterface) (d : InternetDatagram) (next_hop : ℕ) (mac : EthernetAddress)
    → get_cache n.ip_mac_map next_hop ≡ some mac
    → IsDatagram d
    → send_datagram n d next_hop
      ≡ ok tt (push_frame n (frame mac n.ethernet_address type_ipv4 (datagram_bytes d)))
unfolding send_datagram send_to
send_known n d next_hop mac e v =
    ap (send_to n d next_hop) e ∙ push_datagram_lem n mac n.ethernet_address d v

recv_ipv4_lem :
    (n : NetworkInterface) (f : EthernetFrame) (d : InternetDatagram)
    → f.header.type ≡ type_ipv4
    → same_address f.header.dst n.ethernet_address ≡ true
    → ((old : InternetDatagram) → Ipv4.parse old (bytes_of f.payload) ≡ (d, ParseResult.no_error))
    → recv_frame n f ≡ ok (some d) n
unfolding recv_frame recv_ipv4
recv_ipv4_lem n f d t s p =
    let e : (f.header.type == type_ipv4) ≡ true = ground (arith, t) in rw (e, s, p _) refl

-- A frame with one buffer as its payload is the same when it has been written and read.
frame_lem :
    (f old : EthernetFrame) (bytes : List ℕ)
    → FrameRoundTrip.IsHeader f.header
    → f.payload ≡ bytes ∷ []
    → Ethernet.parse old (bytes_of (Ethernet.serialize f)) ≡ (f, ParseResult.no_error)
frame_lem f old bytes v e =
    FrameRoundTrip.parse-serialize_frame f old v
    ∙ ap (λ l. (record f { payload = l }, ParseResult.no_error))
        (ap (λ l. bytes_of l ∷ []) e ∙ ap (λ l. l ∷ []) (append-nil bytes) ∙ sym e)

-- A frame with a datagram is received by the interface that it is for, from whatever source.
pub recv_datagram :
    (n : NetworkInterface) (src : EthernetAddress) (d : InternetDatagram)
    → IsDatagram d
    → recv_frame n (frame n.ethernet_address src type_ipv4 (datagram_bytes d))
      ≡ ok (some (arrived d)) n
recv_datagram n src d v =
    recv_ipv4_lem n (frame n.ethernet_address src type_ipv4 (datagram_bytes d)) (arrived d) refl
      (same_address_refl n.ethernet_address)
      (λ o.
        ap (Ipv4.parse o) (append-nil (datagram_bytes d))
        ∙ (IpRoundTrip.parse-serialize_datagram d o v.header_valid v.long).2)

-- A datagram to a next hop whose Ethernet address is known leaves in a frame, and the interface that
-- has this address gets from the frame, written to the wire and read back, the datagram with its
-- checksum and its payload in one piece.
pub recv_frame-send_datagram :
    (a b : NetworkInterface) (d : InternetDatagram) (next_hop : ℕ) (old : EthernetFrame)
    → FrameRoundTrip.IsAddress a.ethernet_address
    → FrameRoundTrip.IsAddress b.ethernet_address
    → get_cache a.ip_mac_map next_hop ≡ some b.ethernet_address
    → IsDatagram d
    → let f = frame b.ethernet_address a.ethernet_address type_ipv4 (datagram_bytes d) in
      (send_datagram a d next_hop ≡ ok tt (push_frame a f))
      × (Ethernet.parse old (bytes_of (Ethernet.serialize f)) ≡ (f, ParseResult.no_error))
      × (recv_frame b f ≡ ok (some (arrived d)) b)
recv_frame-send_datagram a b d next_hop old va vb e v =
    let f = frame b.ethernet_address a.ethernet_address type_ipv4 (datagram_bytes d) in
    (
      send_known a d next_hop b.ethernet_address e v,
      frame_lem f old (datagram_bytes d)
          (record { dst_valid = vb; src_valid = va; type_small = omega arith }) refl,
      recv_datagram b a.ethernet_address d v,
    )
