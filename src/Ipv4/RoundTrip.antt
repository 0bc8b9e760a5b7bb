-- ===== src/Ipv4/RoundTrip.antt =====
-- A datagram of libsponge/tcp_helpers/ipv4_datagram.cc, written and read back.
use cs144_sponge.Prelude.{
  ℕ, ◌+◌, ◌-◌, ◌*◌, ◌^◌, ◌≤◌, ◌<◌, ◌≡◌, ◌∙◌, refl, sym, ap, List, [], ◌∷◌, ◌++◌, some, true, false,
  ◌==◌, arith, if◌then◌else◌, replicate, length, length-replicate, append-nil,
}
use cs144_sponge.NetParser.{ParseResult, parser, unparse_loop}
use cs144_sponge.NetParser.RoundTrip.{word_bytes, AllBytes-unparse_loop}
use cs144_sponge.PacketBuffer.{view_size}
use cs144_sponge.PacketBuffer.Views.{bytes_of, view_size_lem}
use cs144_sponge.Checksum
use cs144_sponge.Checksum.{checksum}
use cs144_sponge.Checksum.Fold.{value-lt}
use cs144_sponge.Checksum.Sum.{
  AllBytes, AllBytes-append, AllBytes-zeros, words_sum, words_sum-le, parity_after,
}
use cs144_sponge.Checksum.Verify.{with_word, value-with_checksum}
use cs144_sponge.Ipv4.{
  Ipv4Header, InternetDatagram, parse_header, serialize_header, payload_length, parse, serialize,
}
use cs144_sponge.Ipv4.Header.{
  IsHeader, with_cksum-IsHeader, front_bytes, back_bytes, wire, cksum_result, serialize_header_lem,
  parse_header-wire,
}

payload_length_lem :
    (h : Ipv4Header) (n : ℕ) → IsHeader h → h.len ≡ 4 * h.hlen + n → payload_length h ≡ n
unfolding payload_length
payload_length_lem h n v e = omega (arith, v.len_small)

-- One call of `parse` on bytes that have the announced length.
parse_lem :
    (old : InternetDatagram) (h : Ipv4Header) (buffer rest : List ℕ) (result : ParseResult)
    → parse_header old.header (parser buffer) ≡ (h, result, parser rest)
    → view_size (rest ∷ []) ≡ payload_length h
    → parse old buffer ≡ (record { header = h; payload = rest ∷ [] }, ParseResult.no_error)
unfolding parse parser
parse_lem old h buffer rest result r l =
    let t : (view_size (rest ∷ []) == payload_length h) ≡ true = ground arith in rw (r, t) refl

-- Nothing that the header's checksum may be is refused: the result of the header's own `parse`,
-- which tells a bad checksum, is not looked at.
pub parse-any_checksum :
    (h : Ipv4Header) (rest : List ℕ) (old : InternetDatagram)
    → IsHeader h
    → h.len ≡ 4 * h.hlen + length rest
    → (parse_header old.header (parser (wire h ++ rest)) ≡ (h, cksum_result (wire h), parser rest))
      × (parse old (wire h ++ rest)
          ≡ (record { header = h; payload = rest ∷ [] }, ParseResult.no_error))
parse-any_checksum h rest old v e =
    let l = ap length (append-nil rest) in
    let size = view_size_lem (rest ∷ []) (omega (arith, l, v.len_small)) in
    let r = parse_header-wire h old.header rest v e in
    (
      r,
      parse_lem old h (wire h ++ rest) rest (cksum_result (wire h)) r
          (size ∙ l ∙ sym (payload_length_lem h (length rest) v e)),
    )

-- The checksum that `serialize` puts into the header.
abbrev pub sum_of : Ipv4Header → ℕ
sum_of h = Checksum.value (Checksum.add (checksum 0) (with_word (front_bytes h) 0 (back_bytes h)))

abbrev pub with_sum : Ipv4Header → Ipv4Header
with_sum h = record h { cksum = sum_of h }

wire-with_word :
    (h : Ipv4Header) (w : ℕ)
    → w < 2 ^ 16
    → wire (record h { cksum = w }) ≡ with_word (front_bytes h) w (back_bytes h)
wire-with_word h w k = rw (word_bytes w k) refl

AllBytes-front : (h : Ipv4Header) → AllBytes (front_bytes h)
unfolding unparse_loop
AllBytes-front h = ground arith

words_sum-front : (h : Ipv4Header) → words_sum false (front_bytes h) ≤ 2 ^ 16 * 10
unfolding unparse_loop
words_sum-front h = words_sum-le false (front_bytes h) (AllBytes-front h)

words_sum-back :
    (h : Ipv4Header) → 5 ≤ h.hlen → words_sum false (back_bytes h) ≤ 2 ^ 16 * (4 * h.hlen - 12)
unfolding unparse_loop
words_sum-back h d =
    let n = 4 * h.hlen - 20 in
    let addresses = unparse_loop 4 h.src ++ unparse_loop 4 h.dst in
    let bytes =
      AllBytes-append addresses (replicate n 0)
        (AllBytes-append (unparse_loop 4 h.src) (unparse_loop 4 h.dst)
          (AllBytes-unparse_loop 4 h.src) (AllBytes-unparse_loop 4 h.dst))
        (AllBytes-zeros n) in
    omega (arith, words_sum-le false (back_bytes h) bytes, length-replicate {A = ℕ} n 0)

even-front : (h : Ipv4Header) → parity_after false (front_bytes h) ≡ false
unfolding unparse_loop
even-front h = refl

cksum_result-sum :
    (h : Ipv4Header) → IsHeader h → cksum_result (wire (with_sum h)) ≡ ParseResult.no_error
cksum_result-sum h v =
    let w = sum_of h in
    let k = value-lt (Checksum.add (checksum 0) (with_word (front_bytes h) 0 (back_bytes h))) in
    let e =
      ap (λ b. Checksum.value (Checksum.add (checksum 0) b)) (wire-with_word h w k)
      ∙ value-with_checksum 0 (front_bytes h) (back_bytes h) (even-front h) (
          omega (
            arith,
            v.hlen_least,
            v.hlen_small,
            words_sum-front h,
            words_sum-back h v.hlen_least,
          )) in
    ap (λ n. if n == 0 then ParseResult.no_error else ParseResult.bad_checksum) e

-- One call of `serialize`, from the two calls that it makes for the header.
serialize_lem :
    (d : InternetDatagram) (b0 b1 : List ℕ)
    → view_size d.payload ≡ payload_length d.header
    → serialize_header (record d.header { cksum = 0 }) ≡ some b0
    → serialize_header (record d.header { cksum = Checksum.value (Checksum.add (checksum 0) b0) })
      ≡ some b1
    → serialize d ≡ some (b1 ∷ d.payload)
unfolding serialize
serialize_lem d b0 b1 l e0 e1 =
    let t : (view_size d.payload == payload_length d.header) ≡ true = ground arith in
    rw (t, e0, e1) refl

-- A datagram whose header tells the length of its payload is written with its checksum, and what is
-- written is read back, the payload in one piece.
pub parse-serialize_datagram :
    (d old : InternetDatagram)
    → IsHeader d.header
    → d.header.len ≡ 4 * d.header.hlen + length (bytes_of d.payload)
    → let h = with_sum d.header in
      let bytes = wire h ++ bytes_of d.payload in
      (serialize d ≡ some (wire h ∷ d.payload))
      × (parse_header old.header (parser bytes)
          ≡ (h, ParseResult.no_error, parser (bytes_of d.payload)))
      × (parse old bytes
          ≡ (record { header = h; payload = bytes_of d.payload ∷ [] }, ParseResult.no_error))
parse-serialize_datagram d old v e =
    let h = d.header in
    let w = sum_of h in
    let k = value-lt (Checksum.add (checksum 0) (with_word (front_bytes h) 0 (back_bytes h))) in
    let size = view_size_lem d.payload (omega (arith, v.len_small)) in
    let r =
      parse-any_checksum (with_sum h) (bytes_of d.payload) old (with_cksum-IsHeader h w k v) e in
    let b0 = wire (record h { cksum = 0 }) in
    let sums : Checksum.value (Checksum.add (checksum 0) b0) ≡ w =
      ap (λ b. Checksum.value (Checksum.add (checksum 0) b)) (wire-with_word h 0 (omega arith)) in
    (
      serialize_lem d b0 (wire (with_sum h))
          (size ∙ sym (payload_length_lem h (length (bytes_of d.payload)) v e))
          (serialize_header_lem (record h { cksum = 0 }) v.ver_four v.hlen_least)
          (ap (λ n. serialize_header (record h { cksum = n })) sums
            ∙ serialize_header_lem (with_sum h) v.ver_four v.hlen_least),
      r.0 ∙ ap (λ q. (with_sum h, q, parser (bytes_of d.payload))) (cksum_result-sum h v),
      r.1,
    )
