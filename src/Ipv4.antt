-- ===== src/Ipv4.antt =====
-- libsponge/tcp_helpers/ipv4_header.{hh,cc} and ipv4_datagram.{hh,cc}. A buffer is the list of its
-- bytes, and a `BufferList` is the list of its buffers.
pub mod Header
pub mod RoundTrip
use cs144_sponge.Prelude.{
  ℕ, ◌+◌, ◌-◌, ◌*◌, ◌/◌, ◌%◌, ◌^◌, ◌>>=◌, require, List, [], ◌∷◌, Option, none, some, Bool, true,
  false, not, ltb, ◌==◌, u8, u16, u32, take, length, if◌then◌else◌,
}
use cs144_sponge.NetParser
use cs144_sponge.NetParser.{Parser, ParseResult, has_error, parser, unparse_int, resize}
use cs144_sponge.PacketBuffer.{BufferViewList, view_size}
use cs144_sponge.Checksum
use cs144_sponge.Checksum.{checksum}
use cs144_sponge.Segment.Format.{bit, flag}

pub record Ipv4Header : Type 0 where
  pub ver : ℕ
  pub hlen : ℕ
  pub tos : ℕ
  pub len : ℕ
  pub id : ℕ
  pub df : Bool
  pub mf : Bool
  pub offset : ℕ
  pub ttl : ℕ
  pub proto : ℕ
  pub cksum : ℕ
  pub src : ℕ
  pub dst : ℕ

abbrev pub proto_tcp : ℕ
proto_tcp = 6

abbrev pub default_header : Ipv4Header
default_header = record {
  ver = 4;
  hlen = 5;
  tos = 0;
  len = 0;
  id = 0;
  df = true;
  mf = false;
  offset = 0;
  ttl = 128;
  proto = proto_tcp;
  cksum = 0;
  src = 0;
  dst = 0;
}

-- The reading of the fields.
pub parse_fields : Parser → Ipv4Header × Parser
parse_fields p =
    let first_byte = NetParser.u8 p in
    let tos = NetParser.u8 first_byte.1 in
    let len = NetParser.u16 tos.1 in
    let id = NetParser.u16 len.1 in
    let fo_val = NetParser.u16 id.1 in
    let ttl = NetParser.u8 fo_val.1 in
    let proto = NetParser.u8 ttl.1 in
    let cksum = NetParser.u16 proto.1 in
    let src = NetParser.u32 cksum.1 in
    let dst = NetParser.u32 src.1 in
    let header : Ipv4Header = record {
      ver = first_byte.0 / 2 ^ 4;
      hlen = first_byte.0 % 2 ^ 4;
      tos = tos.0;
      len = len.0;
      id = id.0;
      df = bit fo_val.0 (2 ^ 14);
      mf = bit fo_val.0 (2 ^ 13);
      offset = fo_val.0 % 2 ^ 13;
      ttl = ttl.0;
      proto = proto.0;
      cksum = cksum.0;
      src = src.0;
      dst = dst.0;
    } in
    (header, dst.1)

-- The tests of `IPv4Header::parse` on the fields that it has read, `original` being all the bytes.
check_header : Ipv4Header → List ℕ → Parser → ParseResult × Parser
check_header h original p =
    let skipped = NetParser.remove_prefix p (h.hlen * 4 - 20) in
    let check = Checksum.add (checksum 0) (take (4 * h.hlen) original) in
    if ltb (length original) (4 * h.hlen)
    then (ParseResult.packet_too_short, p)
    else if not (h.ver == 4)
    then (ParseResult.wrong_ip_version, p)
    else if ltb h.hlen 5
    then (ParseResult.header_too_short, p)
    else if not (length original == h.len)
    then (ParseResult.truncated_packet, p)
    else if has_error skipped.result
    then (skipped.result, skipped)
    else if not (Checksum.value check == 0)
    then (ParseResult.bad_checksum, skipped)
    else (ParseResult.no_error, skipped)

pub parse_header : Ipv4Header → Parser → Ipv4Header × ParseResult × Parser
parse_header old p =
    let fields = parse_fields p in
    let checked = check_header fields.0 p.buffer fields.1 in
    if ltb (length p.buffer) 20
    then (old, ParseResult.packet_too_short, p)
    else (fields.0, checked.0, checked.1)

-- The bytes that are written before the header is resized.
header_bytes : Ipv4Header → List ℕ
unfolding unparse_int
header_bytes h =
    let s = unparse_int [] 1 (u8 (h.ver * 2 ^ 4 + h.hlen % 2 ^ 4)) in
    let s = unparse_int s 1 h.tos in
    let s = unparse_int s 2 h.len in
    let s = unparse_int s 2 h.id in
    let s = unparse_int s 2 (flag h.df (2 ^ 14) + flag h.mf (2 ^ 13) + h.offset % 2 ^ 13) in
    let s = unparse_int s 1 h.ttl in
    let s = unparse_int s 1 h.proto in
    let s = unparse_int s 2 h.cksum in let s = unparse_int s 4 h.src in unparse_int s 4 h.dst

-- `IPv4Header::serialize` throws where the result is `none`.
pub serialize_header : Ipv4Header → Option (List ℕ)
unfolding header_bytes resize
serialize_header h =
    if not (h.ver == 4)
    then none
    else if ltb (4 * h.hlen) 20
    then none
    else some (resize (4 * h.hlen) (header_bytes h))

unfoldable pub payload_length : Ipv4Header → ℕ
payload_length h = u16 (h.len + 2 ^ 16 - 4 * h.hlen)

unfoldable pub pseudo_cksum : Ipv4Header → ℕ
unfolding payload_length
pseudo_cksum h =
    let pcksum = u32 (h.src / 2 ^ 16 + h.src % 2 ^ 16) in
    let pcksum = u32 (pcksum + (h.dst / 2 ^ 16 + h.dst % 2 ^ 16)) in
    let pcksum = u32 (pcksum + h.proto) in u32 (pcksum + payload_length h)

pub record InternetDatagram : Type 0 where
  pub header : Ipv4Header
  pub payload : BufferViewList

pub parse : InternetDatagram → List ℕ → InternetDatagram × ParseResult
unfolding parse_header payload_length parser
parse old buffer =
    let r = parse_header old.header (parser buffer) in
    let payload = r.2.buffer ∷ [] in
    (
      record { header = r.0; payload = payload },
      if not (view_size payload == payload_length r.0)
          then ParseResult.packet_too_short
          else r.2.result,
    )

pub serialize : InternetDatagram → Option BufferViewList
unfolding serialize_header payload_length
serialize d = do
  let cleared = record d.header { cksum = 0 }
  _ ← require (view_size d.payload == payload_length d.header)
  bytes ← serialize_header cleared
  out ←
      serialize_header (record cleared { cksum = Checksum.value (Checksum.add (checksum 0) bytes) })
  some (out ∷ d.payload)
