-- ===== src/Adapter/RoundTrip.antt =====
-- A segment that an adapter of libsponge/tcp_helpers/tcp_over_ip.cc wraps is unwrapped by the
-- adapter of the peer.
use cs144_sponge.Prelude.{
  ℕ, ◌≡◌, ◌∙◌, refl, sym, ap, List, [], ◌∷◌, ◌++◌, some, true, false, ◌==◌, arith, ok,
}
use cs144_sponge.NetParser.{ParseResult}
use cs144_sponge.PacketBuffer.Views.{bytes_of}
use cs144_sponge.Segment.{TcpSegment, default_segment}
use cs144_sponge.Segment.Format
use cs144_sponge.Ipv4
use cs144_sponge.Ipv4.{Ipv4Header, InternetDatagram, proto_tcp, pseudo_cksum, payload_length}
use cs144_sponge.Ipv4.Header as IpHeader
use cs144_sponge.Adapter.{
  FdAdapterBase, check_peer, take_peer, check_segment, unwrap_buffer, one_buffer, unwrap_tcp_in_ip,
  set_listening, set_ports, wrap_tcp_in_ip,
}
use cs144_sponge.Adapter.Wire.{Sends, sent, received, received_segment, Sends-Travels}

unwrap_buffer_lem :
    (b : FdAdapterBase) (h : Ipv4Header) (buffer : List ℕ) (seg : TcpSegment)
    → Format.parse default_segment buffer (pseudo_cksum h) ≡ (seg, ParseResult.no_error)
    → unwrap_buffer b h (some buffer) ≡ check_segment b h seg
unfolding unwrap_buffer
unwrap_buffer_lem b h buffer seg r = rw r refl

unwrap_connected :
    (b : FdAdapterBase) (h : Ipv4Header) (buffer : List ℕ)
    → b.listening ≡ false
    → (h.dst == b.config.source.ipv4_numeric) ≡ true
    → (h.src == b.config.destination.ipv4_numeric) ≡ true
    → (h.proto == proto_tcp) ≡ true
    → unwrap_tcp_in_ip b (record { header = h; payload = buffer ∷ [] })
      ≡ unwrap_buffer b h (some buffer)
unfolding unwrap_tcp_in_ip one_buffer
unwrap_connected b h buffer l d s p = rw (l, d, s, p) refl

unwrap_listening :
    (b : FdAdapterBase) (h : Ipv4Header) (buffer : List ℕ)
    → b.listening ≡ true
    → (h.proto == proto_tcp) ≡ true
    → unwrap_tcp_in_ip b (record { header = h; payload = buffer ∷ [] })
      ≡ unwrap_buffer b h (some buffer)
unfolding unwrap_tcp_in_ip one_buffer
unwrap_listening b h buffer l p = rw (l, p) refl

check_segment_connected :
    (b : FdAdapterBase) (h : Ipv4Header) (seg : TcpSegment)
    → b.listening ≡ false
    → (seg.header.dport == b.config.source.port) ≡ true
    → (seg.header.sport == b.config.destination.port) ≡ true
    → check_segment b h seg ≡ ok (some seg) b
unfolding check_segment check_peer
check_segment_connected b h seg l d s = rw (l, d, s) refl

check_segment_listening :
    (b : FdAdapterBase) (h : Ipv4Header) (seg : TcpSegment)
    → b.listening ≡ true
    → (seg.header.dport == b.config.source.port) ≡ true
    → seg.header.syn ≡ true
    → seg.header.rst ≡ false
    → check_segment b h seg ≡ ok (some seg) (take_peer b h seg)
unfolding check_segment check_peer take_peer set_listening
check_segment_listening b h seg l d s r =
    let same : (seg.header.sport == seg.header.sport) ≡ true = ground arith in
    rw (l, d, s, r, same) refl

==_of : (x y : ℕ) → x ≡ y → (x == y) ≡ true
==_of x y e = ground arith

-- A segment that an adapter wraps into a datagram, which is written to the wire, read back and
-- unwrapped by the connected adapter of the peer, arrives: it has the ports of the connection and its
-- checksum, and is otherwise the segment that was sent.
pub unwrap_tcp_in_ip-wrap_tcp_in_ip :
    (a b : FdAdapterBase) (seg : TcpSegment) (old : InternetDatagram)
    → Sends a seg
    → b.listening ≡ false
    → b.config.source ≡ a.config.destination
    → b.config.destination ≡ a.config.source
    → (wrap_tcp_in_ip a seg ≡ some (sent a seg, set_ports a seg))
      × (Ipv4.serialize (sent a seg)
          ≡ some (IpHeader.wire (received a seg).header ∷ (sent a seg).payload))
      × (Ipv4.parse old (IpHeader.wire (received a seg).header ++ bytes_of (sent a seg).payload)
          ≡ (received a seg, ParseResult.no_error))
      × (unwrap_tcp_in_ip b (received a seg) ≡ ok (some (received_segment a seg)) b)
unwrap_tcp_in_ip-wrap_tcp_in_ip a b seg old v l es ed =
    let t = Sends-Travels a seg old v in
    let h = (received a seg).header in
    let buffer = bytes_of (sent a seg).payload in
    let got = received_segment a seg in
    (
      t.wraps,
      t.writes,
      t.reads,
      unwrap_connected b h buffer l
            (==_of h.dst b.config.source.ipv4_numeric (ap (λ x. x.ipv4_numeric) (sym es)))
            (==_of h.src b.config.destination.ipv4_numeric (ap (λ x. x.ipv4_numeric) (sym ed))) refl
          ∙ unwrap_buffer_lem b h buffer got t.carries
          ∙ check_segment_connected b h got l
              (==_of got.header.dport b.config.source.port (ap (λ x. x.port) (sym es)))
              (==_of got.header.sport b.config.destination.port (ap (λ x. x.port) (sym ed))),
    )

-- A listening adapter on the right port takes a first segment, and takes over the addresses: it
-- answers to the sender, from the address that the sender used.
pub unwrap_tcp_in_ip-take_peer :
    (a b : FdAdapterBase) (seg : TcpSegment)
    → Sends a seg
    → b.listening ≡ true
    → b.config.source.port ≡ a.config.destination.port
    → seg.header.syn ≡ true
    → seg.header.rst ≡ false
    → unwrap_tcp_in_ip b (received a seg)
      ≡ ok (some (received_segment a seg)) (record b {
        listening = false;
        config = record b.config { source = a.config.destination; destination = a.config.source };
      })
unfolding take_peer set_listening
unwrap_tcp_in_ip-take_peer a b seg v l e s r =
    let t = Sends-Travels a seg (received a seg) v in
    let h = (received a seg).header in
    let buffer = bytes_of (sent a seg).payload in
    let got = received_segment a seg in
    unwrap_listening b h buffer l refl
    ∙ unwrap_buffer_lem b h buffer got t.carries
    ∙ check_segment_listening b h got l (==_of got.header.dport b.config.source.port (sym e)) s r
    ∙ ap
        (λ p. ok (some got) (record b {
          listening = false;
          config = record b.config {
            source = record { ipv4_numeric = a.config.destination.ipv4_numeric; port = p };
            destination = a.config.source;
          };
        }))
        e
