-- ===== src/Adapter.antt =====
-- `TCPOverIPv4Adapter` of libsponge/tcp_helpers/tcp_over_ip.cc, with `FdAdapterBase` of fd_adapter.hh
-- and `FdAdapterConfig` of tcp_config.hh. An `Address` is its IPv4 number and its port. A buffer is
-- the list of its bytes, and a `BufferList` is the list of its buffers.
pub mod Wire
pub mod Devices
pub mod RoundTrip
use cs144_sponge.Prelude.{
  ℕ, ◌+◌, ◌*◌, ◌>>=◌, List, [], ◌∷◌, Option, none, some, Bool, true, false, not, ◌&&◌, ◌==◌, u16,
  length, if◌then◌else◌, Outcome, ok, throws, runtime_error,
}
use cs144_sponge.NetParser.{has_error}
use cs144_sponge.PacketBuffer.{BufferViewList}
use cs144_sponge.Segment.{TcpHeader, TcpSegment, default_segment}
use cs144_sponge.Segment.Format
use cs144_sponge.Ipv4.{Ipv4Header, InternetDatagram, default_header, proto_tcp, pseudo_cksum}

pub record Address : Type 0 where
  pub ipv4_numeric : ℕ
  pub port : ℕ

pub record FdAdapterConfig : Type 0 where
  pub source : Address
  pub destination : Address
  pub loss_rate_dn : ℕ
  pub loss_rate_up : ℕ

pub record FdAdapterBase : Type 0 where
  pub config : FdAdapterConfig
  pub listening : Bool

pub set_listening : FdAdapterBase → Bool → FdAdapterBase
set_listening a l = record a { listening = l }

-- The conversion of a `BufferList` to one `Buffer`, which throws where the result is `none`.
pub one_buffer : BufferViewList → Option (List ℕ)
one_buffer [] = some []
one_buffer (x ∷ []) = some x
one_buffer (x ∷ (y ∷ xs)) = none

-- The last test: is the segment from the peer?
check_peer : FdAdapterBase → TcpSegment → Outcome FdAdapterBase (Option TcpSegment)
check_peer a seg =
    if not (seg.header.sport == a.config.destination.port) then ok none a else ok (some seg) a

-- The addresses that a listening adapter takes over from a datagram.
pub take_peer : FdAdapterBase → Ipv4Header → TcpSegment → FdAdapterBase
unfolding set_listening
take_peer a h seg =
    set_listening
      (record a {
        config = record a.config {
          source = record { ipv4_numeric = h.dst; port = a.config.source.port };
          destination = record { ipv4_numeric = h.src; port = seg.header.sport };
        };
      })
      false

-- The tests of a segment that has been parsed.
check_segment : FdAdapterBase → Ipv4Header → TcpSegment → Outcome FdAdapterBase (Option TcpSegment)
unfolding check_peer take_peer
check_segment a h seg =
    if not (seg.header.dport == a.config.source.port)
    then ok none a
    else if not a.listening
    then check_peer a seg
    else if seg.header.syn && not seg.header.rst
    then check_peer (take_peer a h seg) seg
    else ok none a

unwrap_buffer :
    FdAdapterBase → Ipv4Header → Option (List ℕ) → Outcome FdAdapterBase (Option TcpSegment)
unfolding check_segment
unwrap_buffer a h none = throws runtime_error a
unwrap_buffer a h (some buffer) =
    let r = Format.parse default_segment buffer (pseudo_cksum h) in
    if has_error r.1 then ok none a else check_segment a h r.0

pub unwrap_tcp_in_ip : FdAdapterBase → InternetDatagram → Outcome FdAdapterBase (Option TcpSegment)
unfolding unwrap_buffer one_buffer
unwrap_tcp_in_ip a ip_dgram =
    let h = ip_dgram.header in
    if not a.listening && not (h.dst == a.config.source.ipv4_numeric)
    then ok none a
    else if not a.listening && not (h.src == a.config.destination.ipv4_numeric)
    then ok none a
    else if not (h.proto == proto_tcp)
    then ok none a
    else unwrap_buffer a h (one_buffer ip_dgram.payload)

abbrev pub set_ports : FdAdapterBase → TcpSegment → TcpSegment
set_ports a seg = record seg {
  header = record seg.header { sport = a.config.source.port; dport = a.config.destination.port };
}

-- The header of the datagram for a segment.
abbrev pub wrap_header : FdAdapterBase → TcpSegment → Ipv4Header
wrap_header a seg = record default_header {
  src = a.config.source.ipv4_numeric;
  dst = a.config.destination.ipv4_numeric;
  len = u16 (default_header.hlen * 4 + seg.header.doff * 4 + length seg.payload);
}

-- The datagram, and the segment, which the call changes. `serialize` throws where the result is
-- `none`.
pub wrap_tcp_in_ip : FdAdapterBase → TcpSegment → Option (InternetDatagram × TcpSegment)
wrap_tcp_in_ip a seg = do
  let out = set_ports a seg
  let h = wrap_header a out
  payload ← Format.serialize out (pseudo_cksum h)
  some (record { header = h; payload = payload }, out)
