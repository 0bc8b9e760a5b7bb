-- ===== src/NetParser/RoundTrip.antt =====
-- What `NetUnparser` of libsponge/util/parser.cc writes, `NetParser` reads.
use cs144_sponge.Checksum.Verify.{high, low}
use cs144_sponge.Prelude.{
  zero, suc, ℕ, ◌-◌, ◌*◌, ◌/◌, ◌%◌, ◌^◌, ◌≤◌, ◌≡◌, ◌<◌, ◌∙◌, sym, ap, ap₂, refl, [], ◌∷◌, List,
  ◌++◌, arith, length, drop, length-append, take_of_le, drop-length_append, append_assoc,
  append-nil, replicate,
}
use cs144_sponge.Checksum.Sum.{AllBytes}
use cs144_sponge.NetParser.{
  ParseResult, parser, parse_int, unparse_int, unparse_loop, unparse_bytes, parse_bytes, resize,
  remove_prefix,
}

-- The widths of `uint8_t`, `uint16_t` and `uint32_t`.
pub data Width : ℕ → Type 0 where
  one : Width 1
  two : Width 2
  four : Width 4

-- An integer that is written in front of other bytes is read back, and the other bytes are left.
pub parse_int-unparse_int :
    (len : ℕ) (val : ℕ) (rest : List ℕ)
    → Width len
    → val < 2 ^ (8 * len)
    → parse_int (parser (unparse_int [] len val ++ rest)) len ≡ (val, parser rest)
unfolding parser parse_int unparse_int
parse_int-unparse_int _ val rest one h = ground arith
parse_int-unparse_int _ val rest two h = ground arith
parse_int-unparse_int _ val rest four h = ground arith

-- The same for the bytes by themselves.
pub parse_int-unparse_loop :
    (len : ℕ) (val : ℕ) (rest : List ℕ)
    → Width len
    → val < 2 ^ (8 * len)
    → parse_int (parser (unparse_loop len val ++ rest)) len ≡ (val, parser rest)
unfolding unparse_int
parse_int-unparse_loop len val rest w h = parse_int-unparse_int len val rest w h

pub unparse_bytes_lem : (s bs : List ℕ) → AllBytes bs → unparse_bytes s bs ≡ s ++ bs
unfolding unparse_bytes unparse_int unparse_loop
unparse_bytes_lem s [] v = sym (append-nil s)
unparse_bytes_lem s (b ∷ bs) v =
    let e : b / 2 ^ 0 % 2 ^ 8 ≡ b = omega arith in
    unparse_bytes_lem (s ++ (b / 2 ^ 0 % 2 ^ 8 ∷ [])) bs v.1
    ∙ append_assoc s (b / 2 ^ 0 % 2 ^ 8 ∷ []) bs
    ∙ ap (λ c. s ++ (c ∷ bs)) e

parse_byte :
    (b : ℕ) (rest : List ℕ) → b < 2 ^ 8 → parse_int (parser (b ∷ rest)) 1 ≡ (b, parser rest)
unfolding parser parse_int
parse_byte b rest h = ground arith

pub parse_bytes_lem :
    (bs rest : List ℕ)
    → AllBytes bs
    → parse_bytes (length bs) (parser (bs ++ rest)) ≡ (bs, parser rest)
unfolding parse_bytes
parse_bytes_lem [] rest v = refl
parse_bytes_lem (b ∷ bs) rest v =
    rw (parse_byte b (bs ++ rest) v.0, parse_bytes_lem bs rest v.1) refl

pub resize_lem : (n : ℕ) (s : List ℕ) → length s ≤ n → resize n s ≡ s ++ replicate (n - length s) 0
unfolding resize
resize_lem n s h = ap (λ l. l ++ replicate (n - length s) 0) (take_of_le n s h)

-- Skipping what is there.
pub remove_prefix-append :
    (xs rest : List ℕ) (n : ℕ) → n ≡ length xs → remove_prefix (parser (xs ++ rest)) n ≡ parser rest
unfolding remove_prefix parser
remove_prefix-append xs rest n h =
    ground
      (arith, length-append xs rest, drop-length_append xs rest, ap (λ m. drop m (xs ++ rest)) h)

pub parser-buffer : (buffer : List ℕ) → (parser buffer).buffer ≡ buffer
unfolding parser
parser-buffer buffer = refl

pub parser-result : (buffer : List ℕ) → (parser buffer).result ≡ ParseResult.no_error
unfolding parser
parser-result buffer = refl

pub AllBytes-unparse_loop : (len val : ℕ) → AllBytes (unparse_loop len val)
unfolding unparse_loop
AllBytes-unparse_loop zero val = tt
AllBytes-unparse_loop (suc n) val = (omega arith, AllBytes-unparse_loop n val)

pub length-unparse_loop : (len val : ℕ) → length (unparse_loop len val) ≡ len
unfolding unparse_loop
length-unparse_loop zero val = refl
length-unparse_loop (suc n) val = ap suc (length-unparse_loop n val)

-- A word in network byte order is its two bytes.
pub word_bytes : (w : ℕ) → w < 2 ^ 16 → unparse_loop 2 w ≡ high w ∷ low w ∷ []
unfolding unparse_loop
word_bytes w h =
    let e : w / 2 ^ 8 % 2 ^ 8 ≡ high w = omega arith in
    let f : w / 2 ^ 0 % 2 ^ 8 ≡ low w = omega arith in ap₂ (λ a b. a ∷ b ∷ []) e f
