-- ===== src/Segment/Format/Header.antt =====
-- The header of libsponge/tcp_helpers/tcp_header.cc, written and read back.
use cs144_sponge.Prelude.{
  ℕ, ◌+◌, ◌-◌, ◌*◌, ◌/◌, ◌^◌, ◌≤◌, ◌<◌, ◌≡◌, refl, List, ◌++◌, some, Bool, false, ltb, u8, arith,
  replicate, length-replicate,
}
use cs144_sponge.NetParser.{ParseResult, parser, unparse_int, unparse_loop}
use cs144_sponge.NetParser.RoundTrip.{
  one, two, four, parse_int-unparse_loop, resize_lem, remove_prefix-append, parser-result,
}
use cs144_sponge.Segment.{TcpHeader}
use cs144_sponge.Segment.Format.{
  bit, flag, flags_byte, header_bytes, parse_header, serialize_header,
}

-- Every field fits its place in the header, which has no options but padding.
pub record IsHeader (h : TcpHeader) : Type 0 where
  pub sport_small : h.sport < 2 ^ 16
  pub dport_small : h.dport < 2 ^ 16
  pub seqno_small : h.seqno < 2 ^ 32
  pub ackno_small : h.ackno < 2 ^ 32
  pub doff_least : 5 ≤ h.doff
  pub doff_small : h.doff < 16
  pub win_small : h.win < 2 ^ 16
  pub cksum_small : h.cksum < 2 ^ 16
  pub uptr_small : h.uptr < 2 ^ 16

-- The bytes before the checksum, and those after it.
abbrev pub front_bytes : TcpHeader → List ℕ
front_bytes h =
    unparse_loop 2 h.sport
    ++ (unparse_loop 2 h.dport
        ++ (unparse_loop 4 h.seqno
            ++ (unparse_loop 4 h.ackno
                ++ (unparse_loop 1 (u8 (h.doff * 2 ^ 4))
                    ++ (unparse_loop 1 (flags_byte h) ++ unparse_loop 2 h.win)))))

abbrev pub back_bytes : TcpHeader → List ℕ
back_bytes h = unparse_loop 2 h.uptr ++ replicate (4 * h.doff - 20) 0

header_bytes_lem :
    (h : TcpHeader)
    → header_bytes h ≡ front_bytes h ++ (unparse_loop 2 h.cksum ++ unparse_loop 2 h.uptr)
unfolding header_bytes unparse_int unparse_loop
header_bytes_lem h = refl

pub serialize_header_lem :
    (h : TcpHeader)
    → 5 ≤ h.doff
    → serialize_header h ≡ some (front_bytes h ++ (unparse_loop 2 h.cksum ++ back_bytes h))
unfolding serialize_header header_bytes unparse_int unparse_loop
serialize_header_lem h d =
    let e = resize_lem (4 * h.doff) (header_bytes h) (omega arith) in ground arith

flags-bits :
    (urg ack psh rst syn fin : Bool)
    → let b = flag urg 32 + flag ack 16 + flag psh 8 + flag rst 4 + flag syn 2 + flag fin 1 in
      (bit b 32 ≡ urg)
      × (bit b 16 ≡ ack)
      × (bit b 8 ≡ psh)
      × (bit b 4 ≡ rst)
      × (bit b 2 ≡ syn)
      × (bit b 1 ≡ fin)
flags-bits urg ack psh rst syn fin = ground arith

flags_byte-lt : (h : TcpHeader) → flags_byte h < 2 ^ 8
flags_byte-lt h = ground arith

-- The bytes of a header and of what follows it, in the order in which they are read.
abbrev pub message : TcpHeader → List ℕ → List ℕ
message h rest =
    unparse_loop 2 h.sport
    ++ (unparse_loop 2 h.dport
        ++ (unparse_loop 4 h.seqno
            ++ (unparse_loop 4 h.ackno
                ++ (unparse_loop 1 (u8 (h.doff * 2 ^ 4))
                    ++ (unparse_loop 1 (flags_byte h)
                        ++ (unparse_loop 2 h.win
                            ++ (unparse_loop 2 h.cksum
                                ++ (unparse_loop 2 h.uptr
                                    ++ (replicate (4 * h.doff - 20) 0 ++ rest)))))))))

pub parse_header-message :
    (h : TcpHeader) (rest : List ℕ)
    → IsHeader h
    → parse_header (parser (message h rest)) ≡ (h, ParseResult.no_error, parser rest)
unfolding parse_header
parse_header-message h rest v =
    let d : u8 (h.doff * 2 ^ 4) / 2 ^ 4 ≡ h.doff = omega (arith, v.doff_small) in
    let f = flags-bits h.urg h.ack h.psh h.rst h.syn h.fin in
    let test : ltb h.doff 5 ≡ false = ground (arith, v.doff_least) in
    rw
      (
        parse_int-unparse_loop 2 h.sport _ two v.sport_small,
        parse_int-unparse_loop 2 h.dport _ two v.dport_small,
        parse_int-unparse_loop 4 h.seqno _ four v.seqno_small,
        parse_int-unparse_loop 4 h.ackno _ four v.ackno_small,
        parse_int-unparse_loop 1 (u8 (h.doff * 2 ^ 4)) _ one (omega arith),
        parse_int-unparse_loop 1 (flags_byte h) _ one (flags_byte-lt h),
        parse_int-unparse_loop 2 h.win _ two v.win_small,
        parse_int-unparse_loop 2 h.cksum _ two v.cksum_small,
        parse_int-unparse_loop 2 h.uptr _ two v.uptr_small,
        d,
        test,
        remove_prefix-append (replicate (4 * h.doff - 20) 0) rest (h.doff * 4 - 20)
            (omega (arith, length-replicate {A = ℕ} (4 * h.doff - 20) 0)),
        f.0,
        f.1,
        f.2,
        f.3,
        f.4,
        f.5,
        parser-result rest,
      )
      refl
