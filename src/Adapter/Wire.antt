-- ===== src/Adapter/Wire.antt =====
-- A segment that an adapter of libsponge/tcp_helpers/tcp_over_ip.cc wraps, on its way to the peer:
-- through tcp_segment.cc and ipv4_datagram.cc to the wire and back.
use cs144_sponge.Prelude.{
  ℕ, ◌+◌, ◌*◌, ◌^◌, ◌<◌, ◌≡◌, ◌∙◌, refl, ap, List, [], ◌∷◌, ◌++◌, some, arith, length,
  length-append, append-nil,
}
use cs144_sponge.NetParser.{ParseResult}
use cs144_sponge.Checksum.Sum.{AllBytes}
use cs144_sponge.PacketBuffer.Views.{bytes_of}
use cs144_sponge.Segment.{TcpHeader, TcpSegment, default_segment}
use cs144_sponge.Segment.Format
use cs144_sponge.Segment.Format.Header as SegmentHeader
use cs144_sponge.Segment.Format.RoundTrip as SegmentRoundTrip
use cs144_sponge.Ipv4
use cs144_sponge.Ipv4.{Ipv4Header, InternetDatagram, proto_tcp, pseudo_cksum, payload_length}
use cs144_sponge.Ipv4.Header as IpHeader
use cs144_sponge.Ipv4.RoundTrip as IpRoundTrip
use cs144_sponge.Adapter.{Address, FdAdapterBase, set_ports, wrap_header, wrap_tcp_in_ip}

pub record IsAddress (a : Address) : Type 0 where
  pub ip_small : a.ipv4_numeric < 2 ^ 32
  pub port_small : a.port < 2 ^ 16

-- An adapter with addresses that fit, and a segment that it can send in one datagram.
pub record Sends (a : FdAdapterBase) (seg : TcpSegment) : Type 0 where
  pub source_valid : IsAddress a.config.source
  pub destination_valid : IsAddress a.config.destination
  pub header_valid : SegmentHeader.IsHeader seg.header
  pub bytes : AllBytes seg.payload
  pub fits : 20 + 4 * seg.header.doff + length seg.payload < 2 ^ 16

pseudo_cksum-lt : (h : Ipv4Header) → IpHeader.IsHeader h → pseudo_cksum h < 2 ^ 16 * 6
unfolding pseudo_cksum payload_length
pseudo_cksum-lt h v = omega (arith, v.src_small, v.dst_small, v.proto_small)

ports-IsHeader :
    (h : TcpHeader) (p q : ℕ)
    → p < 2 ^ 16
    → q < 2 ^ 16
    → SegmentHeader.IsHeader h
    → SegmentHeader.IsHeader (record h { sport = p; dport = q })
ports-IsHeader h p q kp kq v = record {
  sport_small = kp;
  dport_small = kq;
  seqno_small = v.seqno_small;
  ackno_small = v.ackno_small;
  doff_least = v.doff_least;
  doff_small = v.doff_small;
  win_small = v.win_small;
  cksum_small = v.cksum_small;
  uptr_small = v.uptr_small;
}

pub wrap_header-IsHeader :
    (a : FdAdapterBase) (seg : TcpSegment) → Sends a seg → IpHeader.IsHeader (wrap_header a seg)
wrap_header-IsHeader a seg v = record {
  ver_four = refl;
  hlen_least = omega arith;
  hlen_small = omega arith;
  tos_small = omega arith;
  len_small = omega arith;
  id_small = omega arith;
  offset_small = omega arith;
  ttl_small = omega arith;
  proto_small = omega arith;
  cksum_small = omega arith;
  src_small = v.source_valid.ip_small;
  dst_small = v.destination_valid.ip_small;
}

-- What travels: the segment with its ports, its datagram, and both as they are read back.
abbrev pub sum_for : FdAdapterBase → TcpSegment → ℕ
sum_for a seg = pseudo_cksum (wrap_header a seg)

abbrev pub segment_bytes : FdAdapterBase → TcpSegment → List ℕ
segment_bytes a seg = SegmentRoundTrip.wire_header (set_ports a seg) (sum_for a seg)

abbrev pub sent : FdAdapterBase → TcpSegment → InternetDatagram
sent a seg = record { header = wrap_header a seg; payload = segment_bytes a seg ∷ seg.payload ∷ [] }

abbrev pub received : FdAdapterBase → TcpSegment → InternetDatagram
received a seg = record {
  header = IpRoundTrip.with_sum (wrap_header a seg);
  payload = bytes_of (sent a seg).payload ∷ [];
}

abbrev pub received_segment : FdAdapterBase → TcpSegment → TcpSegment
received_segment a seg = record {
  header = SegmentRoundTrip.with_sum (set_ports a seg) (sum_for a seg);
  payload = seg.payload;
}

wrap_lem :
    (a : FdAdapterBase) (seg : TcpSegment) (out : List ℕ)
    → Format.serialize (set_ports a seg) (sum_for a seg) ≡ some (out ∷ seg.payload ∷ [])
    → wrap_tcp_in_ip a seg
      ≡ some
          (record { header = wrap_header a seg; payload = out ∷ seg.payload ∷ [] }, set_ports a seg)
unfolding wrap_tcp_in_ip
wrap_lem a seg out e = rw e refl

-- The way of a segment to the network layer of the peer.
pub record Travels (a : FdAdapterBase) (seg : TcpSegment) (old : InternetDatagram) : Type 0 where
  pub wraps : wrap_tcp_in_ip a seg ≡ some (sent a seg, set_ports a seg)
  pub writes :
      Ipv4.serialize (sent a seg)
      ≡ some (IpHeader.wire (received a seg).header ∷ (sent a seg).payload)
  pub reads :
      Ipv4.parse old (IpHeader.wire (received a seg).header ++ bytes_of (sent a seg).payload)
      ≡ (received a seg, ParseResult.no_error)
  pub carries :
      Format.parse default_segment
        (bytes_of (sent a seg).payload)
        (pseudo_cksum (received a seg).header)
      ≡ (received_segment a seg, ParseResult.no_error)

pseudo_cksum-cksum :
    (h : Ipv4Header) (w : ℕ) → pseudo_cksum (record h { cksum = w }) ≡ pseudo_cksum h
unfolding pseudo_cksum payload_length
pseudo_cksum-cksum h w = refl

flat_bytes :
    (a : FdAdapterBase) (seg : TcpSegment)
    → bytes_of (sent a seg).payload ≡ segment_bytes a seg ++ seg.payload
flat_bytes a seg = ap (λ l. segment_bytes a seg ++ l) (append-nil seg.payload)

-- The header of the datagram tells the length of its payload.
pub sent_length :
    (a : FdAdapterBase) (seg : TcpSegment)
    → Sends a seg
    → (sent a seg).header.len
      ≡ 4 * (sent a seg).header.hlen + length (bytes_of (sent a seg).payload)
sent_length a seg v =
    let long = ap length (flat_bytes a seg) ∙ length-append (segment_bytes a seg) seg.payload in
    let header =
      SegmentRoundTrip.length-wire_header (set_ports a seg) (sum_for a seg)
        v.header_valid.doff_least in
    omega (arith, long, header, v.fits)

pub Sends-Travels :
    (a : FdAdapterBase) (seg : TcpSegment) (old : InternetDatagram)
    → Sends a seg
    → Travels a seg old
Sends-Travels a seg old v =
    let out = set_ports a seg in
    let c = sum_for a seg in
    let header =
      ports-IsHeader seg.header a.config.source.port a.config.destination.port
        v.source_valid.port_small v.destination_valid.port_small v.header_valid in
    let ip = wrap_header-IsHeader a seg v in
    let s =
      SegmentRoundTrip.parse-serialize out default_segment c header v.bytes
        (omega (arith, pseudo_cksum-lt (wrap_header a seg) ip, v.fits)) in
    let i = IpRoundTrip.parse-serialize_datagram (sent a seg) old ip (sent_length a seg v) in
    record {
      wraps = wrap_lem a seg (segment_bytes a seg) s.0;
      writes = i.0;
      reads = i.2;
      carries =
          ap (λ b. Format.parse default_segment b (pseudo_cksum (received a seg).header))
            (flat_bytes a seg)
          ∙ ap (Format.parse default_segment (segment_bytes a seg ++ seg.payload))
              (pseudo_cksum-cksum (wrap_header a seg) (IpRoundTrip.sum_of (wrap_header a seg)))
          ∙ s.1;
    }
