-- ===== src/Arp/RoundTrip.antt =====
-- A message of libsponge/tcp_helpers/arp_message.cc, written and read back.
use cs144_sponge.Prelude.{
  ℕ, ◌^◌, ◌<◌, ◌≤◌, ◌≡◌, ◌∙◌, refl, ap, List, [], ◌++◌, true, false, some, ltb, arith, ge→ltb,
  length, length-append, append_assoc,
}
use cs144_sponge.NetParser.{ParseResult, Parser, parser, unparse_loop, unparse_int}
use cs144_sponge.NetParser.RoundTrip.{
  one, two, four, parse_int-unparse_loop, unparse_bytes_lem, parser-buffer, parser-result,
}
use cs144_sponge.Ethernet.RoundTrip.{IsAddress, parse_bytes-address}
use cs144_sponge.Arp.{ArpMessage, supported, parse_front, parse_addresses, parse, serialize}

-- A message that `serialize` takes, with fields of their sizes.
pub record IsMessage (m : ArpMessage) : Type 0 where
  pub known : supported m ≡ true
  pub sender_valid : IsAddress m.sender_ethernet_address
  pub sender_ip_small : m.sender_ip_address < 2 ^ 32
  pub target_valid : IsAddress m.target_ethernet_address
  pub target_ip_small : m.target_ip_address < 2 ^ 32

abbrev front : ArpMessage → List ℕ → List ℕ
front m rest =
    unparse_loop 2 m.hardware_type
    ++ (unparse_loop 2 m.protocol_type
        ++ (unparse_loop 1 m.hardware_address_size
            ++ (unparse_loop 1 m.protocol_address_size ++ (unparse_loop 2 m.opcode ++ rest))))

abbrev addresses : ArpMessage → List ℕ → List ℕ
addresses m rest =
    m.sender_ethernet_address
    ++ (unparse_loop 4 m.sender_ip_address
        ++ (m.target_ethernet_address ++ (unparse_loop 4 m.target_ip_address ++ rest)))

abbrev pub wire : ArpMessage → List ℕ → List ℕ
wire m rest = front m (addresses m rest)

-- What `supported` says.
record Supported (m : ArpMessage) : Type 0 where
  hardware_type_lem : m.hardware_type ≡ 1
  protocol_type_lem : m.protocol_type ≡ 2048
  hardware_size_lem : m.hardware_address_size ≡ 6
  protocol_size_lem : m.protocol_address_size ≡ 4
  opcode_le : m.opcode ≤ 2

supported-Supported : (m : ArpMessage) → supported m ≡ true → Supported m
unfolding supported
supported-Supported m h = record {
  hardware_type_lem = ground (arith, h);
  protocol_type_lem = ground (arith, h);
  hardware_size_lem = ground (arith, h);
  protocol_size_lem = ground (arith, h);
  opcode_le = ground (arith, h);
}

serialize_lem : (m : ArpMessage) → IsMessage m → serialize m ≡ some (wire m [])
unfolding serialize unparse_int unparse_loop
serialize_lem m v =
    let a = unparse_bytes_lem (front m []) m.sender_ethernet_address v.sender_valid.bytes in
    let i = unparse_loop 4 m.sender_ip_address in
    let j = unparse_loop 4 m.target_ip_address in
    let s = m.sender_ethernet_address in
    let t = m.target_ethernet_address in
    let b = unparse_bytes_lem (front m [] ++ s ++ i) t v.target_valid.bytes in
    rw (a, b, v.known)
      (ap (λ l. some (front m l)) (append_assoc (s ++ i) t j ∙ append_assoc s i (t ++ j)))

parse_front-front :
    (m old : ArpMessage) (rest : List ℕ)
    → Supported m
    → parse_front old (parser (front m rest)) ≡ (
      record old {
        hardware_type = m.hardware_type;
        protocol_type = m.protocol_type;
        hardware_address_size = m.hardware_address_size;
        protocol_address_size = m.protocol_address_size;
        opcode = m.opcode;
      },
      parser rest,
    )
unfolding parse_front
parse_front-front m old rest v =
    rw
      (
        parse_int-unparse_loop 2 m.hardware_type _ two (omega (arith, v.hardware_type_lem)),
        parse_int-unparse_loop 2 m.protocol_type _ two (omega (arith, v.protocol_type_lem)),
        parse_int-unparse_loop 1 m.hardware_address_size _ one (omega (arith, v.hardware_size_lem)),
        parse_int-unparse_loop 1 m.protocol_address_size _ one (omega (arith, v.protocol_size_lem)),
        parse_int-unparse_loop 2 m.opcode _ two (omega (arith, v.opcode_le)),
      )
      refl

parse_addresses-addresses :
    (m old : ArpMessage) (rest : List ℕ)
    → IsMessage m
    → parse_addresses old (parser (addresses m rest)) ≡ (
      record old {
        sender_ethernet_address = m.sender_ethernet_address;
        sender_ip_address = m.sender_ip_address;
        target_ethernet_address = m.target_ethernet_address;
        target_ip_address = m.target_ip_address;
      },
      parser rest,
    )
unfolding parse_addresses
parse_addresses-addresses m old rest v =
    rw
      (
        parse_bytes-address m.sender_ethernet_address _ v.sender_valid,
        parse_int-unparse_loop 4 m.sender_ip_address _ four v.sender_ip_small,
        parse_bytes-address m.target_ethernet_address _ v.target_valid,
        parse_int-unparse_loop 4 m.target_ip_address _ four v.target_ip_small,
      )
      refl

wire-append : (m : ArpMessage) (rest : List ℕ) → wire m [] ++ rest ≡ wire m rest
unfolding unparse_loop
wire-append m rest =
    let i = unparse_loop 4 m.sender_ip_address in
    let j = unparse_loop 4 m.target_ip_address in
    let s = m.sender_ethernet_address in
    let t = m.target_ethernet_address in
    ap (front m)
      (append_assoc s (i ++ (t ++ j)) rest ∙ ap (λ l. s ++ (i ++ l)) (append_assoc t j rest))

length-wire : (m : ArpMessage) (rest : List ℕ) → IsMessage m → 28 ≤ length (wire m rest)
unfolding unparse_loop
length-wire m rest v =
    let i = unparse_loop 4 m.sender_ip_address in
    let j = unparse_loop 4 m.target_ip_address in
    omega (
      arith,
      v.sender_valid.six,
      v.target_valid.six,
      length-append m.sender_ethernet_address (i ++ (m.target_ethernet_address ++ (j ++ rest))),
      length-append m.target_ethernet_address (j ++ rest),
    )

parse_lem :
    (m between old : ArpMessage) (buffer : List ℕ) (middle rest : Parser)
    → 28 ≤ length buffer
    → parse_front old (parser buffer) ≡ (between, middle)
    → supported between ≡ true
    → parse_addresses between middle ≡ (m, rest)
    → parse old buffer ≡ (m, rest.result)
unfolding parse
parse_lem m between old buffer middle rest long f k a =
    let t : ltb (length (parser buffer).buffer) 28 ≡ false =
      rw (parser-buffer buffer) (ge→ltb (length buffer) 28 long) in
    rw (t, f, k, a) refl

-- A message that `serialize` takes is written, and what is written, in front of any padding, is
-- read back.
pub parse-serialize_message :
    (m old : ArpMessage) (padding : List ℕ)
    → IsMessage m
    → (serialize m ≡ some (wire m []))
      × (parse old (wire m [] ++ padding) ≡ (m, ParseResult.no_error))
unfolding supported
parse-serialize_message m old padding v =
    let between : ArpMessage = record old {
      hardware_type = m.hardware_type;
      protocol_type = m.protocol_type;
      hardware_address_size = m.hardware_address_size;
      protocol_address_size = m.protocol_address_size;
      opcode = m.opcode;
    } in
    (
      serialize_lem m v,
      ap (parse old) (wire-append m padding)
          ∙ parse_lem m between old (wire m padding) (parser (addresses m padding)) (parser padding)
              (length-wire m padding v)
              (parse_front-front m old (addresses m padding) (supported-Supported m v.known))
              v.known (parse_addresses-addresses m between padding v)
          ∙ ap (λ r. (m, r)) (parser-result padding),
    )
