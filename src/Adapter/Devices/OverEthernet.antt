-- ===== src/Adapter/Devices/OverEthernet.antt =====
-- Two `TCPOverIPv4OverEthernetAdapter`s of libsponge/tcp_helpers/tuntap_adapter.cc on one wire.
use cs144_sponge.Prelude.{
  ℕ, ◌≡◌, ◌∙◌, refl, sym, ap, List, [], ◌∷◌, ◌++◌, append-nil, some, false, ok,
}
use cs144_sponge.NetParser.{ParseResult}
use cs144_sponge.PacketBuffer.Views.{bytes_of}
use cs144_sponge.EthernetCache.{get_cache}
use cs144_sponge.Segment.{TcpSegment}
use cs144_sponge.Ethernet
use cs144_sponge.Ethernet.{EthernetFrame, type_ipv4, default_frame}
use cs144_sponge.Ethernet.RoundTrip.{IsAddress}
use cs144_sponge.Ipv4.{InternetDatagram}
use cs144_sponge.NetworkInterface.{frame, push_frame, send_datagram, recv_frame}
use cs144_sponge.NetworkInterface.Sending.{IsDatagram, datagram_bytes, recv_frame-send_datagram}
use cs144_sponge.Adapter.{FdAdapterBase, set_ports, wrap_tcp_in_ip, unwrap_tcp_in_ip}
use cs144_sponge.Adapter.Wire.{
  Sends, sent, received, received_segment, wrap_header-IsHeader, sent_length,
}
use cs144_sponge.Adapter.RoundTrip.{unwrap_tcp_in_ip-wrap_tcp_in_ip}
use cs144_sponge.Adapter.Devices.{
  TapAdapter, pending, send_pending, with_base, unwrap_received, after_recv, read_tap, after_send,
  send_wrapped, write_tap, blank_datagram,
}

-- The frame that carries a segment from one adapter to another, and its bytes on the wire.
abbrev pub segment_frame : TapAdapter → TapAdapter → TcpSegment → EthernetFrame
segment_frame a b seg =
    frame b.interface.ethernet_address a.interface.ethernet_address type_ipv4
      (datagram_bytes (sent a.base seg))

abbrev pub on_wire : TapAdapter → TapAdapter → TcpSegment → List ℕ
on_wire a b seg = bytes_of (Ethernet.serialize (segment_frame a b seg))

sent-IsDatagram : (a : FdAdapterBase) (seg : TcpSegment) → Sends a seg → IsDatagram (sent a seg)
sent-IsDatagram a seg v = record {
  header_valid = wrap_header-IsHeader a seg v;
  long = sent_length a seg v;
}

send_pending_idle : (t : TapAdapter) → t.interface.frames_out ≡ [] → send_pending t ≡ t
unfolding send_pending pending
send_pending_idle t e =
    ap
      (λ fs. record t {
        tap = t.tap ++ pending fs;
        interface = record t.interface { frames_out = [] };
      })
      e
    ∙ ap (λ l. record t { tap = l; interface = record t.interface { frames_out = [] } })
        (append-nil t.tap)
    ∙ ap (λ fs. record t { interface = record t.interface { frames_out = fs } }) (sym e)

send_pending_one :
    (t : TapAdapter) (f : EthernetFrame)
    → t.interface.frames_out ≡ []
    → send_pending (record t { interface = push_frame t.interface f })
      ≡ record t { tap = t.tap ++ (bytes_of (Ethernet.serialize f) ∷ []) }
unfolding send_pending pending
send_pending_one t f e =
    ap
      (λ fs. record t {
        tap = t.tap ++ pending (fs ++ (f ∷ []));
        interface = record t.interface { frames_out = [] };
      })
      e
    ∙ ap
        (λ fs. record t {
          tap = t.tap ++ (bytes_of (Ethernet.serialize f) ∷ []);
          interface = record t.interface { frames_out = fs };
        })
        (sym e)

write_tap_lem :
    (t : TapAdapter) (seg out : TcpSegment) (d : InternetDatagram) (f : EthernetFrame)
    → wrap_tcp_in_ip t.base seg ≡ some (d, out)
    → send_datagram t.interface d t.next_hop ≡ ok tt (push_frame t.interface f)
    → write_tap t seg ≡ ok out (send_pending (record t { interface = push_frame t.interface f }))
unfolding write_tap send_wrapped after_send
write_tap_lem t seg out d f w s = rw (w, s) refl

read_tap_lem :
    (t : TapAdapter) (bytes : List ℕ) (f : EthernetFrame) (d : InternetDatagram) (seg : TcpSegment)
    → Ethernet.parse default_frame bytes ≡ (f, ParseResult.no_error)
    → recv_frame t.interface f ≡ ok (some d) t.interface
    → t.interface.frames_out ≡ []
    → unwrap_tcp_in_ip t.base d ≡ ok (some seg) t.base
    → read_tap t bytes ≡ ok (some seg) t
unfolding read_tap after_recv unwrap_received with_base
read_tap_lem t bytes f d seg p r e u = rw (p, r, send_pending_idle t e, u) refl

-- A segment that one adapter writes, over an interface that knows the Ethernet address of the other,
-- is put on the wire in one frame; the connected adapter that has this address reads the segment
-- from the frame's bytes, with its ports and its checksum, and is left as it was.
pub read_tap-write_tap :
    (a b : TapAdapter) (seg : TcpSegment)
    → Sends a.base seg
    → b.base.listening ≡ false
    → b.base.config.source ≡ a.base.config.destination
    → b.base.config.destination ≡ a.base.config.source
    → IsAddress a.interface.ethernet_address
    → IsAddress b.interface.ethernet_address
    → get_cache a.interface.ip_mac_map a.next_hop ≡ some b.interface.ethernet_address
    → a.interface.frames_out ≡ []
    → b.interface.frames_out ≡ []
    → (write_tap a seg
        ≡ ok (set_ports a.base seg) (record a { tap = a.tap ++ (on_wire a b seg ∷ []) }))
      × (read_tap b (on_wire a b seg) ≡ ok (some (received_segment a.base seg)) b)
read_tap-write_tap a b seg v l es ed va vb known ea eb =
    let f = segment_frame a b seg in
    let u = unwrap_tcp_in_ip-wrap_tcp_in_ip a.base b.base seg blank_datagram v l es ed in
    let s =
      recv_frame-send_datagram a.interface b.interface (sent a.base seg) a.next_hop default_frame va
        vb known (sent-IsDatagram a.base seg v) in
    (
      write_tap_lem a seg (set_ports a.base seg) (sent a.base seg) f u.0 s.0
          ∙ ap (ok (set_ports a.base seg)) (send_pending_one a f ea),
      read_tap_lem b (on_wire a b seg) f (received a.base seg) (received_segment a.base seg) s.1 s.2
          eb u.3,
    )
