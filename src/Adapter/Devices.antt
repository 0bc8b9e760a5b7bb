-- ===== src/Adapter/Devices.antt =====
-- The adapters that read and write devices: `TCPOverUDPSocketAdapter` of
-- libsponge/tcp_helpers/fd_adapter.cc, those over TUN and TAP devices of tuntap_adapter.{hh,cc}, and
-- `LossyFdAdapter` of lossy_fd_adapter.hh. What a device gives to read is an argument, and what is
-- written to it is a result; a random number is an argument.
pub mod OverEthernet
use cs144_sponge.Prelude.{
  ℕ, List, [], ◌∷◌, ◌++◌, Option, none, some, Bool, true, false, not, ◌&&◌, ◌==◌, ltb, u16, ◌>>=◌,
  if◌then◌else◌, Outcome, ok, throws, runtime_error,
}
use cs144_sponge.NetParser.{ParseResult, has_error}
use cs144_sponge.PacketBuffer.{BufferViewList}
use cs144_sponge.PacketBuffer.Views.{bytes_of}
use cs144_sponge.Segment.{TcpSegment, default_segment}
use cs144_sponge.Segment.Format
use cs144_sponge.Ipv4
use cs144_sponge.Ipv4.{InternetDatagram, default_header}
use cs144_sponge.Ethernet
use cs144_sponge.Ethernet.{EthernetAddress, EthernetFrame, default_frame}
use cs144_sponge.NetworkInterface
use cs144_sponge.NetworkInterface.{NetworkInterface, send_datagram, recv_frame}
use cs144_sponge.Adapter.{
  Address, FdAdapterConfig, FdAdapterBase, set_listening, set_ports, unwrap_tcp_in_ip,
  wrap_tcp_in_ip,
}

-- Two addresses are the same when number and port are.
same_endpoint : Address → Address → Bool
same_endpoint x y = (x.ipv4_numeric == y.ipv4_numeric) && (x.port == y.port)

-- `TCPOverUDPSocketAdapter::read`, on a datagram from `source_address`.
pub read_udp : FdAdapterBase → Address → List ℕ → Option TcpSegment × FdAdapterBase
read_udp a source_address payload =
    let r = Format.parse default_segment payload 0 in
    let taken = record a {
      config = record a.config { destination = source_address };
      listening = false;
    } in
    if not a.listening && not (same_endpoint source_address a.config.destination)
    then (none, a)
    else if has_error r.1
    then (none, a)
    else if not a.listening
    then (some r.0, a)
    else if r.0.header.syn && not r.0.header.rst
    then (some r.0, taken)
    else (none, a)

-- `write`: where the datagram goes, its payload, and the segment, which the call changes. The call
-- throws where the result is `none`.
pub write_udp : FdAdapterBase → TcpSegment → Option (Address × BufferViewList × TcpSegment)
write_udp a seg = do
  let out = set_ports a seg
  payload ← Format.serialize out 0
  some (a.config.destination, payload, out)

abbrev pub blank_datagram : InternetDatagram
blank_datagram = record { header = default_header; payload = [] }

-- `TCPOverIPv4OverTunFdAdapter::read`, on what the TUN device gives.
pub read_tun : FdAdapterBase → List ℕ → Outcome FdAdapterBase (Option TcpSegment)
read_tun a bytes =
    let r = Ipv4.parse blank_datagram bytes in
    if has_error r.1 then ok none a else unwrap_tcp_in_ip a r.0

-- `write`: what is written to the TUN device. A call throws where the result is `none`.
pub write_tun : FdAdapterBase → TcpSegment → Option BufferViewList
write_tun a seg = do wrapped ← wrap_tcp_in_ip a seg; Ipv4.serialize wrapped.0

-- `tap` is all that has been written to the device.
pub record TapAdapter : Type 0 where
  pub base : FdAdapterBase
  pub interface : NetworkInterface
  pub next_hop : ℕ
  pub tap : List (List ℕ)

-- The frames of the loop of `send_pending`, as they are written.
pub pending : List EthernetFrame → List (List ℕ)
pending [] = []
pending (f ∷ fs) = bytes_of (Ethernet.serialize f) ∷ pending fs

pub send_pending : TapAdapter → TapAdapter
send_pending t = record t {
  tap = t.tap ++ pending t.interface.frames_out;
  interface = record t.interface { frames_out = [] };
}

-- The constructor, which writes a first frame.
pub tap_adapter : FdAdapterBase → EthernetAddress → ℕ → ℕ → TapAdapter
tap_adapter base eth_address ip_address next_hop = record {
  base = base;
  interface = NetworkInterface.interface eth_address ip_address;
  next_hop = next_hop;
  tap = bytes_of (Ethernet.serialize default_frame) ∷ [];
}

with_base :
    TapAdapter → Outcome FdAdapterBase (Option TcpSegment) → Outcome TapAdapter (Option TcpSegment)
with_base t (ok r b) = ok r (record t { base = b })
with_base t (throws e b) = throws e (record t { base = b })

unwrap_received : TapAdapter → Option InternetDatagram → Outcome TapAdapter (Option TcpSegment)
unwrap_received t none = ok none t
unwrap_received t (some ip_dgram) = with_base t (unwrap_tcp_in_ip t.base ip_dgram)

after_recv :
    TapAdapter
    → Outcome NetworkInterface (Option InternetDatagram)
    → Outcome TapAdapter (Option TcpSegment)
after_recv t (throws e n) = throws e (record t { interface = n })
after_recv t (ok ip_dgram n) = unwrap_received (send_pending (record t { interface = n })) ip_dgram

-- `TCPOverIPv4OverEthernetAdapter::read`, on what the TAP device gives.
pub read_tap : TapAdapter → List ℕ → Outcome TapAdapter (Option TcpSegment)
read_tap t bytes =
    let r = Ethernet.parse default_frame bytes in
    if has_error r.1 then ok none t else after_recv t (recv_frame t.interface r.0)

after_send :
    TapAdapter → TcpSegment → Outcome NetworkInterface (Unit {0}) → Outcome TapAdapter TcpSegment
after_send t seg (throws e n) = throws e (record t { interface = n })
after_send t seg (ok _ n) = ok seg (send_pending (record t { interface = n }))

send_wrapped : TapAdapter → Option (InternetDatagram × TcpSegment) → Outcome TapAdapter TcpSegment
send_wrapped t none = throws runtime_error t
send_wrapped t (some (ip_dgram, seg)) =
    after_send t seg (send_datagram t.interface ip_dgram t.next_hop)

-- `write`, with the segment, which the call changes.
pub write_tap : TapAdapter → TcpSegment → Outcome TapAdapter TcpSegment
write_tap t seg = send_wrapped t (wrap_tcp_in_ip t.base seg)

pub tick_tap : TapAdapter → ℕ → TapAdapter
tick_tap t ms_since_last_tick =
    send_pending (record t { interface = NetworkInterface.tick t.interface ms_since_last_tick })

-- `LossyFdAdapter::_should_drop`, on the number that `_rand()` gives.
pub should_drop : FdAdapterConfig → Bool → ℕ → Bool
should_drop cfg uplink rand =
    let loss = if uplink then cfg.loss_rate_up else cfg.loss_rate_dn in
    not (loss == 0) && ltb (u16 rand) loss

-- `read` and `write` of an adapter that drops: a dropped segment has been read and changes the
-- adapter below, but a dropped one is not written.
pub lossy_read {ℓ} :
    {T : Type ℓ}
    → FdAdapterConfig
    → ℕ
    → Outcome T (Option TcpSegment)
    → Outcome T (Option TcpSegment)
lossy_read cfg rand (ok r t) = ok (if should_drop cfg false rand then none else r) t
lossy_read cfg rand (throws e t) = throws e t

pub lossy_write {ℓ} :
    {T : Type ℓ}
    → FdAdapterConfig
    → ℕ
    → T
    → TcpSegment
    → Outcome T TcpSegment
    → Outcome T TcpSegment
lossy_write cfg rand t seg written = if should_drop cfg true rand then ok seg t else written
