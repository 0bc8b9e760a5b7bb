-- ===== src/Ipv4/Header.antt =====
-- The header of libsponge/tcp_helpers/ipv4_header.cc, written and read back.
use cs144_sponge.Prelude.{
  ℕ, ◌+◌, ◌-◌, ◌*◌, ◌/◌, ◌%◌, ◌^◌, ◌≤◌, ◌<◌, ◌≡◌, ◌∙◌, refl, sym, ap, List, ◌++◌, some, Bool, true,
  false, not, ltb, ◌==◌, u8, arith, if◌then◌else◌, replicate, length, take, length-append,
  length-replicate, take-length_append,
}
use cs144_sponge.NetParser.{Parser, ParseResult, parser, unparse_int, unparse_loop, remove_prefix}
use cs144_sponge.NetParser.RoundTrip.{
  one, two, four, parse_int-unparse_loop, resize_lem, remove_prefix-append,
}
use cs144_sponge.Checksum
use cs144_sponge.Checksum.{checksum}
use cs144_sponge.Segment.Format.{bit, flag}
use cs144_sponge.Ipv4.{
  Ipv4Header, header_bytes, serialize_header, parse_fields, check_header, parse_header,
}

-- Every field fits its place in a header of version 4, which has no options but padding.
pub record IsHeader (h : Ipv4Header) : Type 0 where
  pub ver_four : h.ver ≡ 4
  pub hlen_least : 5 ≤ h.hlen
  pub hlen_small : h.hlen < 16
  pub tos_small : h.tos < 2 ^ 8
  pub len_small : h.len < 2 ^ 16
  pub id_small : h.id < 2 ^ 16
  pub offset_small : h.offset < 2 ^ 13
  pub ttl_small : h.ttl < 2 ^ 8
  pub proto_small : h.proto < 2 ^ 8
  pub cksum_small : h.cksum < 2 ^ 16
  pub src_small : h.src < 2 ^ 32
  pub dst_small : h.dst < 2 ^ 32

pub with_cksum-IsHeader :
    (h : Ipv4Header) (w : ℕ) → w < 2 ^ 16 → IsHeader h → IsHeader (record h { cksum = w })
with_cksum-IsHeader h w k v = record {
  ver_four = v.ver_four;
  hlen_least = v.hlen_least;
  hlen_small = v.hlen_small;
  tos_small = v.tos_small;
  len_small = v.len_small;
  id_small = v.id_small;
  offset_small = v.offset_small;
  ttl_small = v.ttl_small;
  proto_small = v.proto_small;
  cksum_small = k;
  src_small = v.src_small;
  dst_small = v.dst_small;
}

abbrev first_byte : Ipv4Header → ℕ
first_byte h = u8 (h.ver * 2 ^ 4 + h.hlen % 2 ^ 4)

abbrev fo_val : Ipv4Header → ℕ
fo_val h = flag h.df (2 ^ 14) + flag h.mf (2 ^ 13) + h.offset % 2 ^ 13

-- The bytes before the checksum, and those after it.
abbrev pub front_bytes : Ipv4Header → List ℕ
front_bytes h =
    unparse_loop 1 (first_byte h)
    ++ (unparse_loop 1 h.tos
        ++ (unparse_loop 2 h.len
            ++ (unparse_loop 2 h.id
                ++ (unparse_loop 2 (fo_val h)
                    ++ (unparse_loop 1 h.ttl ++ unparse_loop 1 h.proto)))))

abbrev pub back_bytes : Ipv4Header → List ℕ
back_bytes h = unparse_loop 4 h.src ++ (unparse_loop 4 h.dst ++ replicate (4 * h.hlen - 20) 0)

-- The header as it is sent.
abbrev pub wire : Ipv4Header → List ℕ
wire h = front_bytes h ++ (unparse_loop 2 h.cksum ++ back_bytes h)

pub serialize_header_lem :
    (h : Ipv4Header) → h.ver ≡ 4 → 5 ≤ h.hlen → serialize_header h ≡ some (wire h)
unfolding serialize_header header_bytes unparse_int unparse_loop
serialize_header_lem h e d =
    let r = resize_lem (4 * h.hlen) (header_bytes h) (omega arith) in
    let four : (h.ver == 4) ≡ true = ground arith in
    let long : ltb (4 * h.hlen) 20 ≡ false = ground arith in rw (four, long, r) refl

pub length-wire : (h : Ipv4Header) → 5 ≤ h.hlen → length (wire h) ≡ 4 * h.hlen
unfolding unparse_loop
length-wire h d = omega (arith, length-replicate {A = ℕ} (4 * h.hlen - 20) 0)

-- The bytes of a header and of what follows it, in the order in which they are read.
abbrev message : Ipv4Header → List ℕ → List ℕ
message h rest =
    unparse_loop 1 (first_byte h)
    ++ (unparse_loop 1 h.tos
        ++ (unparse_loop 2 h.len
            ++ (unparse_loop 2 h.id
                ++ (unparse_loop 2 (fo_val h)
                    ++ (unparse_loop 1 h.ttl
                        ++ (unparse_loop 1 h.proto
                            ++ (unparse_loop 2 h.cksum
                                ++ (unparse_loop 4 h.src
                                    ++ (unparse_loop 4 h.dst
                                        ++ (replicate (4 * h.hlen - 20) 0 ++ rest))))))))))

message_lem : (h : Ipv4Header) (rest : List ℕ) → wire h ++ rest ≡ message h rest
unfolding unparse_loop
message_lem h rest = refl

-- The fragment flags and offset share a word.
fo-bits :
    (df mf : Bool) (offset : ℕ)
    → offset < 2 ^ 13
    → let w = flag df (2 ^ 14) + flag mf (2 ^ 13) + offset % 2 ^ 13 in
      (bit w (2 ^ 14) ≡ df) × (bit w (2 ^ 13) ≡ mf) × (w % 2 ^ 13 ≡ offset) × (w < 2 ^ 16)
fo-bits df mf offset h = ground arith

parse_fields-message :
    (h : Ipv4Header) (rest : List ℕ)
    → IsHeader h
    → parse_fields (parser (message h rest)) ≡ (h, parser (replicate (4 * h.hlen - 20) 0 ++ rest))
unfolding parse_fields
parse_fields-message h rest v =
    let b : first_byte h ≡ 4 * 2 ^ 4 + h.hlen = omega (arith, v.ver_four, v.hlen_small) in
    let ver : first_byte h / 2 ^ 4 ≡ h.ver = omega (arith, b, v.ver_four, v.hlen_small) in
    let hlen : first_byte h % 2 ^ 4 ≡ h.hlen = omega (arith, b, v.hlen_small) in
    let f = fo-bits h.df h.mf h.offset v.offset_small in
    rw
      (
        parse_int-unparse_loop 1 (first_byte h) _ one (omega arith),
        parse_int-unparse_loop 1 h.tos _ one v.tos_small,
        parse_int-unparse_loop 2 h.len _ two v.len_small,
        parse_int-unparse_loop 2 h.id _ two v.id_small,
        parse_int-unparse_loop 2 (fo_val h) _ two f.3,
        parse_int-unparse_loop 1 h.ttl _ one v.ttl_small,
        parse_int-unparse_loop 1 h.proto _ one v.proto_small,
        parse_int-unparse_loop 2 h.cksum _ two v.cksum_small,
        parse_int-unparse_loop 4 h.src _ four v.src_small,
        parse_int-unparse_loop 4 h.dst _ four v.dst_small,
        ver,
        hlen,
        f.0,
        f.1,
        f.2,
      )
      refl

-- What is left of the tests of a header with the right version and lengths.
abbrev pub cksum_result : List ℕ → ParseResult
cksum_result header =
    if Checksum.value (Checksum.add (checksum 0) header) == 0
    then ParseResult.no_error
    else ParseResult.bad_checksum

last_test :
    (sound : Bool) (p : Parser)
    → ◌≡◌ {A = ParseResult × Parser}
        (if not sound then (ParseResult.bad_checksum, p) else (ParseResult.no_error, p))
        (if sound then ParseResult.no_error else ParseResult.bad_checksum, p)
last_test true p = refl
last_test false p = refl

check_header_lem :
    (h : Ipv4Header) (original rest : List ℕ) (p : Parser)
    → IsHeader h
    → 4 * h.hlen ≤ length original
    → length original ≡ h.len
    → remove_prefix p (h.hlen * 4 - 20) ≡ parser rest
    → check_header h original p ≡ (cksum_result (take (4 * h.hlen) original), parser rest)
unfolding check_header parser
check_header_lem h original rest p v long whole skipped =
    let a : ltb (length original) (4 * h.hlen) ≡ false = ground arith in
    let b : (h.ver == 4) ≡ true = ground (arith, v.ver_four) in
    let c : ltb h.hlen 5 ≡ false = ground (arith, v.hlen_least) in
    let d : (length original == h.len) ≡ true = ground arith in
    rw (a, b, c, d, skipped)
      (last_test (Checksum.value (Checksum.add (checksum 0) (take (4 * h.hlen) original)) == 0)
        (parser rest))

parse_header_lem :
    (h old : Ipv4Header) (p rest : Parser) (result : ParseResult)
    → 20 ≤ length p.buffer
    → parse_fields p ≡ (h, rest)
    → (q : Parser) → check_header h p.buffer rest ≡ (result, q)
    → parse_header old p ≡ (h, result, q)
unfolding parse_header
parse_header_lem h old p rest result long f q c =
    let a : ltb (length p.buffer) 20 ≡ false = ground arith in rw (a, f, c) refl

-- A header in front of the bytes that it announces is read back; only the checksum is tested.
pub parse_header-wire :
    (h old : Ipv4Header) (rest : List ℕ)
    → IsHeader h
    → h.len ≡ 4 * h.hlen + length rest
    → parse_header old (parser (wire h ++ rest)) ≡ (h, cksum_result (wire h), parser rest)
unfolding parser
parse_header-wire h old rest v e =
    let l = length-append (wire h) rest ∙ ap (λ n. n + length rest) (length-wire h v.hlen_least) in
    let t : take (4 * h.hlen) (wire h ++ rest) ≡ wire h =
      ap (λ n. take n (wire h ++ rest)) (sym (length-wire h v.hlen_least))
      ∙ take-length_append (wire h) rest in
    let zeros = replicate {A = ℕ} (4 * h.hlen - 20) 0 in
    let r =
      remove_prefix-append zeros rest (h.hlen * 4 - 20)
        (omega (arith, length-replicate {A = ℕ} (4 * h.hlen - 20) 0)) in
    parse_header_lem h old (parser (wire h ++ rest)) (parser (zeros ++ rest))
      (cksum_result (wire h)) (omega (arith, l, v.hlen_least))
      (ap (λ b. parse_fields (parser b)) (message_lem h rest) ∙ parse_fields-message h rest v)
      (parser rest)
      (check_header_lem h (wire h ++ rest) rest (parser (zeros ++ rest)) v (omega (arith, l))
          (omega (arith, l)) r
        ∙ ap (λ b. (cksum_result b, parser rest)) t)
