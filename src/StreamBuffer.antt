-- ===== src/StreamBuffer.antt =====
-- libsponge/buffer.hh and buffer.cc, namespace `sponge`: the storage behind a byte stream.
-- A string is the list of its bytes. A shared string is never written to, so sharing is copying.
pub mod Bytes
use cs144_sponge.Prelude.{
  ℕ, zero, ◌+◌, ◌-◌, ◌≤◌, ◌<◌, List, [], ◌∷◌, ◌++◌, Option, none, some, u64, sub64, ltb, leb, ◌==◌,
  if◌then◌else◌, length, take, drop, Outcome, ok, throws, out_of_range, null_pointer,
}

-- `storage` is the shared pointer, `none` when it is null.
pub record Buffer : Type 0 where
  pub storage : Option (List ℕ)
  pub prefix_pointer : ℕ

unfoldable pub of_string : List ℕ → Buffer
of_string s = record { storage = some s; prefix_pointer = 0 }

-- The last byte is the furthest that the pointer goes; on an empty string it wraps.
advance : List ℕ → ℕ → ℕ → ℕ
advance s p size = if leb (length s) (u64 (p + size)) then sub64 (length s) 1 else u64 (p + size)

remove_prefix_of : Option (List ℕ) → ℕ → ℕ → Outcome Buffer (Unit {0})
unfolding advance
remove_prefix_of none p size = throws null_pointer (record { storage = none; prefix_pointer = p })
remove_prefix_of (some s) p size =
    ok tt (record { storage = some s; prefix_pointer = advance s p size })

unfoldable pub remove_prefix : Buffer → ℕ → Outcome Buffer (Unit {0})
unfolding remove_prefix_of
remove_prefix b size = remove_prefix_of b.storage b.prefix_pointer size

abbrev string_from : Option (List ℕ) → ℕ → List ℕ
string_from none p = []
string_from (some s) p = drop p s

-- The view is defined up to a pointer at the end of the string.
unfoldable pub get_string : Buffer → List ℕ
get_string b = string_from b.storage b.prefix_pointer

abbrev size_from : Option (List ℕ) → ℕ → ℕ
size_from none p = 0
size_from (some s) p = sub64 (length s) p

unfoldable pub size : Buffer → ℕ
size b = size_from b.storage b.prefix_pointer

-- `BufferList` is a deque of buffers, its front first.
abbrev pub BufferList : Type 0
BufferList = List Buffer

-- The loop of `BufferList::size`, with the sum so far.
pub size_loop : ℕ → BufferList → ℕ
size_loop result [] = result
size_loop result (b ∷ bs) = size_loop (u64 (result + size b)) bs

unfoldable pub size_all : BufferList → ℕ
unfolding size_loop
size_all bs = size_loop 0 bs

-- The loop of `BufferList::peek_output`.
peek_loop : List ℕ → ℕ → BufferList → List ℕ
peek_loop str remain_size [] = str
peek_loop str remain_size (b ∷ bs) =
    let more = peek_loop (str ++ get_string b) (sub64 remain_size (size b)) bs in
    if ltb (size b) remain_size then more else str ++ take remain_size (get_string b)

unfoldable pub peek_output : ℕ → BufferList → List ℕ
unfolding peek_loop
peek_output size bs = peek_loop [] size bs

-- What becomes of the deque when its front drops a part.
abbrev put_front : BufferList → Outcome Buffer (Unit {0}) → Outcome BufferList ℕ
put_front bs (ok _ b) = ok 0 (b ∷ bs)
put_front bs (throws e b) = throws e (b ∷ bs)

-- The result is the size left to remove, which the source hands back by reference.
unfoldable pub remove_front : ℕ → BufferList → Outcome BufferList ℕ
remove_front n [] = if n == 0 then ok 0 [] else throws out_of_range []
remove_front n (b ∷ bs) =
    let rest = remove_front (n - size b) bs in
    if n == 0
    then ok 0 (b ∷ bs)
    else if leb (size b) n
    then rest
    else put_front bs (remove_prefix b n)
