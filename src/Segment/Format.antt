-- ===== src/Segment/Format.antt =====
-- libsponge/tcp_helpers/tcp_header.cc and tcp_segment.cc: a segment as bytes. A buffer is the list
-- of its bytes, and a `BufferList` is the list of its buffers.
pub mod Header
pub mod RoundTrip
use cs144_sponge.Prelude.{
  ℕ, ◌+◌, ◌-◌, ◌*◌, ◌/◌, ◌%◌, ◌^◌, ◌>>=◌, List, [], ◌∷◌, Option, none, some, Bool, not, ltb, ◌==◌,
  u8, u16, if◌then◌else◌,
}
use cs144_sponge.NetParser
use cs144_sponge.NetParser.{Parser, ParseResult, parser, unparse_int, resize}
use cs144_sponge.PacketBuffer.{BufferViewList}
use cs144_sponge.Checksum
use cs144_sponge.Checksum.{checksum}
use cs144_sponge.Segment.{TcpHeader, TcpSegment, default_header}

-- `static_cast<bool>(b & mask)`, for a mask of one bit.
abbrev pub bit : ℕ → ℕ → Bool
bit b mask = not (b / mask % 2 == 0)

pub parse_header : Parser → TcpHeader × ParseResult × Parser
parse_header p =
    let sport = NetParser.u16 p in
    let dport = NetParser.u16 sport.1 in
    let seqno = NetParser.u32 dport.1 in
    let ackno = NetParser.u32 seqno.1 in
    let offset = NetParser.u8 ackno.1 in
    let flags = NetParser.u8 offset.1 in
    let win = NetParser.u16 flags.1 in
    let cksum = NetParser.u16 win.1 in
    let uptr = NetParser.u16 cksum.1 in
    let doff = offset.0 / 2 ^ 4 in
    let header : TcpHeader = record {
      sport = sport.0;
      dport = dport.0;
      seqno = seqno.0;
      ackno = ackno.0;
      doff = doff;
      urg = bit flags.0 32;
      ack = bit flags.0 16;
      psh = bit flags.0 8;
      rst = bit flags.0 4;
      syn = bit flags.0 2;
      fin = bit flags.0 1;
      win = win.0;
      cksum = cksum.0;
      uptr = uptr.0;
    } in
    let skipped = NetParser.remove_prefix uptr.1 (doff * 4 - 20) in
    if ltb doff 5
    then (header, ParseResult.header_too_short, uptr.1)
    else (header, skipped.result, skipped)

abbrev pub flag : Bool → ℕ → ℕ
flag b mask = if b then mask else 0

-- The flags stand in different bits, so their bitwise sum is their sum.
abbrev pub flags_byte : TcpHeader → ℕ
flags_byte h =
    flag h.urg 32 + flag h.ack 16 + flag h.psh 8 + flag h.rst 4 + flag h.syn 2 + flag h.fin 1

-- The bytes that are written before the header is resized.
header_bytes : TcpHeader → List ℕ
unfolding unparse_int
header_bytes h =
    let s = unparse_int [] 2 h.sport in
    let s = unparse_int s 2 h.dport in
    let s = unparse_int s 4 h.seqno in
    let s = unparse_int s 4 h.ackno in
    let s = unparse_int s 1 (u8 (h.doff * 2 ^ 4)) in
    let s = unparse_int s 1 (flags_byte h) in
    let s = unparse_int s 2 h.win in let s = unparse_int s 2 h.cksum in unparse_int s 2 h.uptr

-- `TCPHeader::serialize` throws where the result is `none`.
pub serialize_header : TcpHeader → Option (List ℕ)
unfolding header_bytes resize
serialize_header h = if ltb h.doff 5 then none else some (resize (4 * h.doff) (header_bytes h))

pub parse : TcpSegment → List ℕ → ℕ → TcpSegment × ParseResult
unfolding parse_header parser
parse seg buffer datagram_layer_checksum =
    let check = Checksum.add (checksum datagram_layer_checksum) buffer in
    let r = parse_header (parser buffer) in
    if not (Checksum.value check == 0)
    then (seg, ParseResult.bad_checksum)
    else (record { header = r.0; payload = r.2.buffer }, r.2.result)

pub serialize : TcpSegment → ℕ → Option BufferViewList
unfolding serialize_header
serialize seg datagram_layer_checksum = do
  let cleared = record seg.header { cksum = 0 }
  bytes ← serialize_header cleared
  let check = Checksum.add (Checksum.add (checksum datagram_layer_checksum) bytes) seg.payload
  out ← serialize_header (record cleared { cksum = Checksum.value check })
  some (out ∷ seg.payload ∷ [])
