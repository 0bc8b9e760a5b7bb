-- ===== src/Arp.antt =====
-- libsponge/tcp_helpers/arp_message.hh and arp_message.cc. A buffer is the list of its bytes.
pub mod RoundTrip
use cs144_sponge.Prelude.{
  ℕ, ◌+◌, List, [], ◌∷◌, ◌++◌, Option, none, some, Bool, true, false, not, ◌&&◌, ◌||◌, ltb, ◌==◌,
  length, if◌then◌else◌,
}
use cs144_sponge.NetParser
use cs144_sponge.NetParser.{Parser, ParseResult, parser, parse_bytes, unparse_bytes, unparse_int}
use cs144_sponge.Ethernet.{EthernetAddress, zero_address, type_ipv4}

pub record ArpMessage : Type 0 where
  pub hardware_type : ℕ
  pub protocol_type : ℕ
  pub hardware_address_size : ℕ
  pub protocol_address_size : ℕ
  pub opcode : ℕ
  pub sender_ethernet_address : EthernetAddress
  pub sender_ip_address : ℕ
  pub target_ethernet_address : EthernetAddress
  pub target_ip_address : ℕ

abbrev pub type_ethernet : ℕ
type_ethernet = 1

abbrev pub opcode_request : ℕ
opcode_request = 1

abbrev pub opcode_reply : ℕ
opcode_reply = 2

abbrev pub default_message : ArpMessage
default_message = record {
  hardware_type = type_ethernet;
  protocol_type = type_ipv4;
  hardware_address_size = 6;
  protocol_address_size = 4;
  opcode = 0;
  sender_ethernet_address = zero_address;
  sender_ip_address = 0;
  target_ethernet_address = zero_address;
  target_ip_address = 0;
}

unfoldable pub supported : ArpMessage → Bool
supported m =
    (m.hardware_type == type_ethernet)
    && ((m.protocol_type == type_ipv4)
        && ((m.hardware_address_size == 6)
            && ((m.protocol_address_size == 4)
                && ((m.opcode == opcode_request) || (m.opcode == opcode_reply)))))

-- The five fields in front of the addresses.
parse_front : ArpMessage → Parser → ArpMessage × Parser
parse_front old p =
    let hardware_type = NetParser.u16 p in
    let protocol_type = NetParser.u16 hardware_type.1 in
    let hardware_address_size = NetParser.u8 protocol_type.1 in
    let protocol_address_size = NetParser.u8 hardware_address_size.1 in
    let opcode = NetParser.u16 protocol_address_size.1 in
    (
      record old {
        hardware_type = hardware_type.0;
        protocol_type = protocol_type.0;
        hardware_address_size = hardware_address_size.0;
        protocol_address_size = protocol_address_size.0;
        opcode = opcode.0;
      },
      opcode.1,
    )

parse_addresses : ArpMessage → Parser → ArpMessage × Parser
parse_addresses m p =
    let sender_ethernet_address = parse_bytes 6 p in
    let sender_ip_address = NetParser.u32 sender_ethernet_address.1 in
    let target_ethernet_address = parse_bytes 6 sender_ip_address.1 in
    let target_ip_address = NetParser.u32 target_ethernet_address.1 in
    (
      record m {
        sender_ethernet_address = sender_ethernet_address.0;
        sender_ip_address = sender_ip_address.0;
        target_ethernet_address = target_ethernet_address.0;
        target_ip_address = target_ip_address.0;
      },
      target_ip_address.1,
    )

pub parse : ArpMessage → List ℕ → ArpMessage × ParseResult
parse old buffer =
    let p = parser buffer in
    let front = parse_front old p in
    let whole = parse_addresses front.0 front.1 in
    if ltb (length p.buffer) 28
    then (old, ParseResult.packet_too_short)
    else if not (supported front.0)
    then (front.0, ParseResult.unsupported)
    else (whole.0, whole.1.result)

-- `ARPMessage::serialize` throws where the result is `none`.
pub serialize : ArpMessage → Option (List ℕ)
serialize m =
    let s = unparse_int [] 2 m.hardware_type in
    let s = unparse_int s 2 m.protocol_type in
    let s = unparse_int s 1 m.hardware_address_size in
    let s = unparse_int s 1 m.protocol_address_size in
    let s = unparse_int s 2 m.opcode in
    let s = unparse_bytes s m.sender_ethernet_address in
    let s = unparse_int s 4 m.sender_ip_address in
    let s = unparse_bytes s m.target_ethernet_address in
    let s = unparse_int s 4 m.target_ip_address in if not (supported m) then none else some s
