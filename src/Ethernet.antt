-- ===== src/Ethernet.antt =====
-- libsponge/tcp_helpers/ethernet_header.{hh,cc} and ethernet_frame.{hh,cc}. A buffer is the list of
-- its bytes, a `BufferList` is the list of its buffers, and an address is the list of its six bytes.
pub mod RoundTrip
use cs144_sponge.Prelude.{
  ℕ, zero, suc, List, [], ◌∷◌, ◌++◌, Bool, true, false, ◌&&◌, ltb, ◌==◌, length, replicate,
  if◌then◌else◌,
}
use cs144_sponge.NetParser
use cs144_sponge.NetParser.{Parser, ParseResult, parser, parse_bytes, unparse_bytes, unparse_int}
use cs144_sponge.PacketBuffer.{BufferViewList}

abbrev pub EthernetAddress : Type 0
EthernetAddress = List ℕ

abbrev pub ethernet_broadcast : EthernetAddress
ethernet_broadcast = replicate 6 255

-- `EthernetAddress{}`.
abbrev pub zero_address : EthernetAddress
zero_address = replicate 6 0

-- Two addresses are the same when they are printed the same: each byte as two digits.
unfoldable pub same_address : EthernetAddress → EthernetAddress → Bool
same_address [] [] = true
same_address [] (y ∷ ys) = false
same_address (x ∷ xs) [] = false
same_address (x ∷ xs) (y ∷ ys) = (x == y) && same_address xs ys

pub record EthernetHeader : Type 0 where
  pub dst : EthernetAddress
  pub src : EthernetAddress
  pub type : ℕ

abbrev pub type_ipv4 : ℕ
type_ipv4 = 2048

abbrev pub type_arp : ℕ
type_arp = 2054

abbrev pub default_header : EthernetHeader
default_header = record { dst = zero_address; src = zero_address; type = 0 }

pub parse_header : EthernetHeader → Parser → EthernetHeader × ParseResult × Parser
parse_header old p =
    let dst = parse_bytes 6 p in
    let src = parse_bytes 6 dst.1 in
    let type = NetParser.u16 src.1 in
    let header : EthernetHeader = record { dst = dst.0; src = src.0; type = type.0 } in
    if ltb (length p.buffer) 14
    then (old, ParseResult.packet_too_short, p)
    else (header, type.1.result, type.1)

pub serialize_header : EthernetHeader → List ℕ
serialize_header h =
    let s = unparse_bytes [] h.dst in let s = unparse_bytes s h.src in unparse_int s 2 h.type

pub record EthernetFrame : Type 0 where
  pub header : EthernetHeader
  pub payload : BufferViewList

abbrev pub default_frame : EthernetFrame
default_frame = record { header = default_header; payload = [] }

pub parse : EthernetFrame → List ℕ → EthernetFrame × ParseResult
parse old buffer =
    let r = parse_header old.header (parser buffer) in
    (record { header = r.0; payload = r.2.buffer ∷ [] }, r.2.result)

pub serialize : EthernetFrame → BufferViewList
serialize f = serialize_header f.header ∷ f.payload
