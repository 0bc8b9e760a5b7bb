-- ===== src/Segment/Format/RoundTrip.antt =====
-- A segment of libsponge/tcp_helpers/tcp_segment.cc, written and read back.
use cs144_sponge.Prelude.{
  ℕ, ◌+◌, ◌-◌, ◌*◌, ◌^◌, ◌≤◌, ◌<◌, ◌≡◌, ◌∙◌, refl, sym, ap, List, [], ◌∷◌, ◌++◌, some, false, arith,
  replicate, length, length-append, length-replicate, append_assoc,
}
use cs144_sponge.NetParser.{ParseResult, parser, unparse_loop}
use cs144_sponge.NetParser.RoundTrip.{word_bytes, AllBytes-unparse_loop}
use cs144_sponge.Checksum
use cs144_sponge.Checksum.{checksum}
use cs144_sponge.Checksum.Fold.{value-lt}
use cs144_sponge.Checksum.Sum.{
  AllBytes, AllBytes-append, AllBytes-zeros, words_sum, words_sum-le, parity_after, add-append,
}
use cs144_sponge.Checksum.Verify.{with_word, value-with_checksum}
use cs144_sponge.Segment.{TcpHeader, TcpSegment}
use cs144_sponge.Segment.Format.{parse_header, serialize_header, parse, serialize}
use cs144_sponge.Segment.Format.Header.{
  IsHeader, front_bytes, back_bytes, message, serialize_header_lem, parse_header-message,
}

with_cksum-IsHeader :
    (h : TcpHeader) (w : ℕ) → w < 2 ^ 16 → IsHeader h → IsHeader (record h { cksum = w })
with_cksum-IsHeader h w k v = record {
  sport_small = v.sport_small;
  dport_small = v.dport_small;
  seqno_small = v.seqno_small;
  ackno_small = v.ackno_small;
  doff_least = v.doff_least;
  doff_small = v.doff_small;
  win_small = v.win_small;
  cksum_small = k;
  uptr_small = v.uptr_small;
}

-- One call of `serialize`, from the two calls that it makes for the header.
serialize_lem :
    (seg : TcpSegment) (c : ℕ) (b0 b1 : List ℕ)
    → serialize_header (record seg.header { cksum = 0 }) ≡ some b0
    → serialize_header (record seg.header {
      cksum = Checksum.value (Checksum.add (Checksum.add (checksum c) b0) seg.payload);
    })
      ≡ some b1
    → serialize seg c ≡ some (b1 ∷ seg.payload ∷ [])
unfolding serialize
serialize_lem seg c b0 b1 e0 e1 = rw (e0, e1) refl

-- One call of `parse` on bytes whose checksum is right.
parse_lem :
    (old : TcpSegment) (buffer rest : List ℕ) (c : ℕ) (h : TcpHeader)
    → Checksum.value (Checksum.add (checksum c) buffer) ≡ 0
    → parse_header (parser buffer) ≡ (h, ParseResult.no_error, parser rest)
    → parse old buffer c ≡ (record { header = h; payload = rest }, ParseResult.no_error)
unfolding parse parser
parse_lem old buffer rest c h e r = rw (e, r) refl

AllBytes-front : (h : TcpHeader) → AllBytes (front_bytes h)
unfolding unparse_loop
AllBytes-front h = ground arith

words_sum-front : (h : TcpHeader) → words_sum false (front_bytes h) ≤ 2 ^ 16 * 16
unfolding unparse_loop
words_sum-front h = words_sum-le false (front_bytes h) (AllBytes-front h)

words_sum-back :
    (h : TcpHeader) (payload : List ℕ)
    → 5 ≤ h.doff
    → AllBytes payload
    → words_sum false (back_bytes h ++ payload) ≤ 2 ^ 16 * (4 * h.doff - 18 + length payload)
unfolding unparse_loop
words_sum-back h payload d v =
    let n = 4 * h.doff - 20 in
    let bytes =
      AllBytes-append (back_bytes h) payload
        (AllBytes-append (unparse_loop 2 h.uptr) (replicate n 0) (AllBytes-unparse_loop 2 h.uptr)
          (AllBytes-zeros n))
        v in
    omega (
      arith,
      words_sum-le false (back_bytes h ++ payload) bytes,
      length-append (replicate n 0) payload,
      length-replicate {A = ℕ} n 0,
    )

-- The checksum that `serialize` puts into the header.
abbrev pub sum_of : TcpSegment → ℕ → ℕ
sum_of seg c = Checksum.value (
    Checksum.add (checksum c)
      (with_word (front_bytes seg.header) 0 (back_bytes seg.header ++ seg.payload)))

abbrev pub with_sum : TcpSegment → ℕ → TcpHeader
with_sum seg c = record seg.header { cksum = sum_of seg c }

-- The bytes of the header that it writes.
abbrev pub wire_header : TcpSegment → ℕ → List ℕ
wire_header seg c =
    front_bytes seg.header ++ (unparse_loop 2 (sum_of seg c) ++ back_bytes seg.header)

even-front : (h : TcpHeader) → parity_after false (front_bytes h) ≡ false
unfolding unparse_loop
even-front h = refl

bytes_with_word :
    (seg : TcpSegment) (w : ℕ)
    → w < 2 ^ 16
    → (front_bytes seg.header ++ (unparse_loop 2 w ++ back_bytes seg.header)) ++ seg.payload
      ≡ with_word (front_bytes seg.header) w (back_bytes seg.header ++ seg.payload)
bytes_with_word seg w h =
    rw
      (
        append_assoc (front_bytes seg.header) _ seg.payload,
        append_assoc (unparse_loop 2 w) (back_bytes seg.header) seg.payload,
        word_bytes w h,
      )
      refl

message_lem :
    (seg : TcpSegment) (c : ℕ)
    → wire_header seg c ++ seg.payload ≡ message (with_sum seg c) seg.payload
unfolding unparse_loop
message_lem seg c = refl

serialize-wire :
    (seg : TcpSegment) (c : ℕ)
    → 5 ≤ seg.header.doff
    → serialize seg c ≡ some (wire_header seg c ∷ seg.payload ∷ [])
serialize-wire seg c d =
    let h = seg.header in
    let b0 = front_bytes h ++ (unparse_loop 2 0 ++ back_bytes h) in
    let e : Checksum.value (Checksum.add (Checksum.add (checksum c) b0) seg.payload)
        ≡ sum_of seg c =
      ap Checksum.value (
        sym (add-append (checksum c) b0 seg.payload)
        ∙ ap (Checksum.add (checksum c)) (bytes_with_word seg 0 (omega arith))) in
    serialize_lem seg c b0 (wire_header seg c) (serialize_header_lem (record h { cksum = 0 }) d) (
      ap (λ w. serialize_header (record h { cksum = w })) e
      ∙ serialize_header_lem (with_sum seg c) d)

pub length-wire_header :
    (seg : TcpSegment) (c : ℕ)
    → 5 ≤ seg.header.doff
    → length (wire_header seg c) ≡ 4 * seg.header.doff
unfolding unparse_loop
length-wire_header seg c d = omega (arith, length-replicate {A = ℕ} (4 * seg.header.doff - 20) 0)

-- A segment whose fields fit the header, with a payload of bytes that the checksum of 32 bits can
-- sum, is written, and what is written is read back as the segment with its checksum in place.
pub parse-serialize :
    (seg old : TcpSegment) (c : ℕ)
    → IsHeader seg.header
    → AllBytes seg.payload
    → c + 2 ^ 16 * (4 * seg.header.doff + length seg.payload) < 2 ^ 32
    → (serialize seg c ≡ some (wire_header seg c ∷ seg.payload ∷ []))
      × (parse old (wire_header seg c ++ seg.payload) c
          ≡ (record { header = with_sum seg c; payload = seg.payload }, ParseResult.no_error))
parse-serialize seg old c v bytes small =
    let h = seg.header in
    let w = sum_of seg c in
    let k =
      value-lt
        (Checksum.add (checksum c) (with_word (front_bytes h) 0 (back_bytes h ++ seg.payload))) in
    let sums =
      ap (λ b. Checksum.value (Checksum.add (checksum c) b)) (bytes_with_word seg w k)
      ∙ value-with_checksum c (front_bytes h) (back_bytes h ++ seg.payload) (even-front h) (
          omega (
            arith,
            v.doff_least,
            words_sum-front h,
            words_sum-back h seg.payload v.doff_least bytes,
          )) in
    (
      serialize-wire seg c v.doff_least,
      parse_lem old (wire_header seg c ++ seg.payload) seg.payload c (with_sum seg c) sums (
          ap (λ b. parse_header (parser b)) (message_lem seg c)
          ∙ parse_header-message (with_sum seg c) seg.payload (with_cksum-IsHeader h w k v)),
    )
