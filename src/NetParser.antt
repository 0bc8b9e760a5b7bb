-- ===== src/NetParser.antt =====
-- libsponge/util/parser.hh and parser.cc: integers in network byte order. A buffer is the list of
-- the bytes that `str()` shows. A width is the number of bytes, 1, 2 or 4.
pub mod RoundTrip
use cs144_sponge.Prelude.{
  ℕ, zero, suc, ◌+◌, ◌*◌, ◌/◌, ◌%◌, ◌^◌, List, [], ◌∷◌, ◌++◌, Bool, true, false, ltb, if◌then◌else◌,
  length, drop, take, replicate, ◌-◌,
}

pub data ParseResult : Type 0 where
  no_error bad_checksum packet_too_short wrong_ip_version header_too_short : ParseResult
  truncated_packet unsupported : ParseResult

pub record Parser : Type 0 where
  pub buffer : List ℕ
  pub result : ParseResult

-- `NetParser(buffer)`.
unfoldable pub parser : List ℕ → Parser
parser buffer = record { buffer = buffer; result = ParseResult.no_error }

abbrev pub has_error : ParseResult → Bool
has_error ParseResult.no_error = false
has_error _ = true

check_size : Parser → ℕ → Parser
check_size p size =
    if ltb (length p.buffer) size then record p { result = ParseResult.packet_too_short } else p

-- The loop of `_parse_int` over its first bytes, in an integer of the width `len`.
pub parse_loop : ℕ → List ℕ → ℕ → ℕ → ℕ
parse_loop zero bytes len ret = ret
parse_loop (suc n) [] len ret = ret
parse_loop (suc n) (b ∷ bs) len ret =
    parse_loop n bs len ((ret * 2 ^ 8 % 2 ^ (8 * len) + b) % 2 ^ (8 * len))

pub parse_int : Parser → ℕ → ℕ × Parser
unfolding check_size parse_loop
parse_int p len =
    let p' = check_size p len in
    if has_error p'.result
    then (0, p')
    else (parse_loop len p'.buffer len 0, record p' { buffer = drop len p'.buffer })

-- `u8`, `u16` and `u32`, and `get_error`.
abbrev pub u8 : Parser → ℕ × Parser
u8 p = parse_int p 1

abbrev pub u16 : Parser → ℕ × Parser
u16 p = parse_int p 2

abbrev pub u32 : Parser → ℕ × Parser
u32 p = parse_int p 4

pub remove_prefix : Parser → ℕ → Parser
unfolding check_size
remove_prefix p n =
    let p' = check_size p n in
    if has_error p'.result then p' else record p' { buffer = drop n p'.buffer }

-- The loop of `_unparse_int`, with the bytes that are left.
unfoldable pub unparse_loop : ℕ → ℕ → List ℕ
unparse_loop zero val = []
unparse_loop (suc n) val = val / 2 ^ (8 * n) % 2 ^ 8 ∷ unparse_loop n val

unfoldable pub unparse_int : List ℕ → ℕ → ℕ → List ℕ
unfolding unparse_loop
unparse_int s len val = s ++ unparse_loop len val

-- The reading of an array of bytes, as the headers do it: `for (auto &byte : address)`.
pub parse_bytes : ℕ → Parser → List ℕ × Parser
parse_bytes zero p = ([], p)
parse_bytes (suc n) p = let r = u8 p in let rest = parse_bytes n r.1 in (r.0 ∷ rest.0, rest.1)

pub unparse_bytes : List ℕ → List ℕ → List ℕ
unfolding unparse_int
unparse_bytes s [] = s
unparse_bytes s (b ∷ bs) = unparse_bytes (unparse_int s 1 b) bs

-- `std::string::resize`, which cuts or fills with zeros.
unfoldable pub resize : ℕ → List ℕ → List ℕ
resize n s = take n s ++ replicate (n - length s) 0
