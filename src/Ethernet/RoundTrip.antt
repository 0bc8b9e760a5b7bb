-- ===== src/Ethernet/RoundTrip.antt =====
-- A frame of libsponge/tcp_helpers/ethernet_frame.cc, written and read back.
use cs144_sponge.Prelude.{
  ℕ, ◌^◌, ◌<◌, ◌≡◌, ◌∙◌, refl, sym, ap, List, [], ◌∷◌, ◌++◌, true, false, ◌==◌, ltb, arith, lt→ltb,
  ge→ltb, length, length-append, append_assoc,
}
use cs144_sponge.NetParser.{ParseResult, parser, parse_bytes, unparse_loop, unparse_int}
use cs144_sponge.NetParser.RoundTrip.{
  two, parse_int-unparse_loop, parse_bytes_lem, unparse_bytes_lem, length-unparse_loop,
  parser-buffer, parser-result,
}
use cs144_sponge.Checksum.Sum.{AllBytes}
use cs144_sponge.PacketBuffer.Views.{bytes_of}
use cs144_sponge.Ethernet.{
  EthernetAddress, EthernetHeader, EthernetFrame, same_address, zero_address, ethernet_broadcast,
  parse_header, serialize_header, parse, serialize,
}

pub record IsAddress (a : EthernetAddress) : Type 0 where
  pub six : length a ≡ 6
  pub bytes : AllBytes a

pub same_address_refl : (a : EthernetAddress) → same_address a a ≡ true
unfolding same_address
same_address_refl [] = refl
same_address_refl (x ∷ xs) =
    let e : (x == x) ≡ true = ground arith in rw (e, same_address_refl xs) refl

pub zero-broadcast : same_address zero_address ethernet_broadcast ≡ false
unfolding same_address
zero-broadcast = refl

pub record IsHeader (h : EthernetHeader) : Type 0 where
  pub dst_valid : IsAddress h.dst
  pub src_valid : IsAddress h.src
  pub type_small : h.type < 2 ^ 16

pub parse_bytes-address :
    (a rest : List ℕ) → IsAddress a → parse_bytes 6 (parser (a ++ rest)) ≡ (a, parser rest)
parse_bytes-address a rest v =
    ap (λ n. parse_bytes n (parser (a ++ rest))) (sym v.six) ∙ parse_bytes_lem a rest v.bytes

abbrev pub wire : EthernetHeader → List ℕ
wire h = h.dst ++ (h.src ++ unparse_loop 2 h.type)

pub serialize_header_lem : (h : EthernetHeader) → IsHeader h → serialize_header h ≡ wire h
unfolding serialize_header unparse_int
serialize_header_lem h v =
    rw
      (
        unparse_bytes_lem [] h.dst v.dst_valid.bytes,
        unparse_bytes_lem h.dst h.src v.src_valid.bytes,
      )
      (append_assoc h.dst h.src (unparse_loop 2 h.type))

parse_header_short :
    (old : EthernetHeader) (buffer : List ℕ)
    → length buffer < 14
    → parse_header old (parser buffer) ≡ (old, ParseResult.packet_too_short, parser buffer)
unfolding parse_header
parse_header_short old buffer h =
    let t : ltb (length (parser buffer).buffer) 14 ≡ true =
      rw (parser-buffer buffer) (lt→ltb (length buffer) 14 h) in
    rw t refl

-- A header in front of any other bytes is read back.
pub parse_header-wire :
    (h old : EthernetHeader) (rest : List ℕ)
    → IsHeader h
    → parse_header old (parser (wire h ++ rest)) ≡ (h, ParseResult.no_error, parser rest)
unfolding parse_header
parse_header-wire h old rest v =
    let tail = unparse_loop 2 h.type ++ rest in
    let e : wire h ++ rest ≡ h.dst ++ (h.src ++ tail) =
      append_assoc h.dst (h.src ++ unparse_loop 2 h.type) rest
      ∙ ap (λ l. h.dst ++ l) (append_assoc h.src (unparse_loop 2 h.type) rest) in
    let t : ltb (length (parser (h.dst ++ (h.src ++ tail))).buffer) 14 ≡ false =
      rw (parser-buffer (h.dst ++ (h.src ++ tail))) (
        ge→ltb (length (h.dst ++ (h.src ++ tail))) 14 (
          omega (
            arith,
            v.dst_valid.six,
            v.src_valid.six,
            length-append h.dst (h.src ++ tail),
            length-append h.src tail,
            length-append (unparse_loop 2 h.type) rest,
            length-unparse_loop 2 h.type,
          ))) in
    rw e (
      rw
        (
          parse_bytes-address h.dst (h.src ++ tail) v.dst_valid,
          parse_bytes-address h.src tail v.src_valid,
          parse_int-unparse_loop 2 h.type rest two v.type_small,
          t,
          parser-result rest,
        )
        refl)

-- One call of `parse`, from the one that it makes for the header, whose result it drops.
parse_lem :
    (old : EthernetFrame) (buffer rest : List ℕ) (h : EthernetHeader) (result : ParseResult)
    → parse_header old.header (parser buffer) ≡ (h, result, parser rest)
    → parse old buffer ≡ (record { header = h; payload = rest ∷ [] }, ParseResult.no_error)
unfolding parse parser
parse_lem old buffer rest h result r = rw r refl

-- A frame whose addresses have six bytes and whose type fits is written, and what is written is
-- read back, the payload in one piece.
pub parse-serialize_frame :
    (f old : EthernetFrame)
    → IsHeader f.header
    → parse old (bytes_of (serialize f))
      ≡ (record { header = f.header; payload = bytes_of f.payload ∷ [] }, ParseResult.no_error)
unfolding serialize
parse-serialize_frame f old v =
    ap (λ b. parse old (b ++ bytes_of f.payload)) (serialize_header_lem f.header v)
    ∙ parse_lem old (wire f.header ++ bytes_of f.payload) (bytes_of f.payload) f.header
        ParseResult.no_error (parse_header-wire f.header old.header (bytes_of f.payload) v)

-- Bytes too few for a header are no error: the frame keeps its old header, and the bytes are its
-- payload.
pub parse-short :
    (old : EthernetFrame) (buffer : List ℕ)
    → length buffer < 14
    → (parse_header old.header (parser buffer)
        ≡ (old.header, ParseResult.packet_too_short, parser buffer))
      × (parse old buffer ≡ (record old { payload = buffer ∷ [] }, ParseResult.no_error))
parse-short old buffer h =
    let r = parse_header_short old.header buffer h in
    (r, parse_lem old buffer buffer old.header ParseResult.packet_too_short r)
