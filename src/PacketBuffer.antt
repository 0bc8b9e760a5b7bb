-- ===== src/PacketBuffer.antt =====
-- libsponge/util/buffer.hh and buffer.cc: the strings that packets are made of. A shared string is
-- never written to, so sharing it is copying it. `as_iovecs`, which hands the strings to system
-- calls, is left out.
pub mod Strings
pub mod Views
use cs144_sponge.Prelude.{
  ℕ, zero, ◌+◌, ◌-◌, List, [], ◌∷◌, ◌++◌, Option, none, some, u64, sub64, ltb, ◌==◌, if◌then◌else◌,
  length, drop, get_elem?, Outcome, ok, throws, lift, out_of_range, runtime_error,
}

-- `storage` is the shared pointer, `none` when it is null.
pub record Buffer : Type 0 where
  pub storage : Option (List ℕ)
  pub starting_offset : ℕ

abbrev pub empty_buffer : Buffer
empty_buffer = record { storage = none; starting_offset = 0 }

pub of_string : List ℕ → Buffer
of_string s = record { storage = some s; starting_offset = 0 }

str_from : Option (List ℕ) → ℕ → List ℕ
str_from none offset = []
str_from (some s) offset = drop offset s

unfoldable pub str : Buffer → List ℕ
unfolding str_from
str b = str_from b.storage b.starting_offset

pub size : Buffer → ℕ
unfolding str
size b = length (str b)

-- `at` throws out of range where the result is `none`.
pub at : Buffer → ℕ → Option ℕ
unfolding str
at b n = get_elem? (str b) n

-- The string is given up once nothing is left of it; the offset stays.
release : Option (List ℕ) → ℕ → Buffer
release none offset = record { storage = none; starting_offset = offset }
release (some s) offset = record {
  storage = if offset == length s then none else some s;
  starting_offset = offset;
}

pub remove_prefix : Buffer → ℕ → Outcome Buffer (Unit {0})
unfolding str release
remove_prefix b n =
    if ltb (length (str b)) n
    then throws out_of_range b
    else ok tt (release b.storage (u64 (b.starting_offset + n)))

abbrev pub BufferList : Type 0
BufferList = List Buffer

pub append : BufferList → BufferList → BufferList
append bs other = bs ++ other

-- The conversion to one buffer throws where there are several.
pub to_buffer : BufferList → Outcome BufferList Buffer
to_buffer [] = ok empty_buffer []
to_buffer (b ∷ []) = ok b (b ∷ [])
to_buffer (b ∷ (c ∷ bs)) = throws runtime_error (b ∷ (c ∷ bs))

abbrev pub concatenate : BufferList → List ℕ
concatenate [] = []
concatenate (b ∷ bs) = str b ++ concatenate bs

-- The loop of `BufferList::size`, and of `BufferViewList::size`, over the strings' sizes.
size_loop : ℕ → BufferList → ℕ
size_loop ret [] = ret
size_loop ret (b ∷ bs) = size_loop (u64 (ret + size b)) bs

pub list_size : BufferList → ℕ
unfolding size_loop
list_size bs = size_loop 0 bs

-- The loop of `BufferList::remove_prefix`.
pub remove_list_prefix : BufferList → ℕ → Outcome BufferList (Unit {0})
unfolding str
remove_list_prefix [] n = if n == 0 then ok tt [] else throws out_of_range []
remove_list_prefix (b ∷ bs) n =
    let rest = remove_list_prefix bs (n - length (str b)) in
    if n == 0
    then ok tt (b ∷ bs)
    else if ltb n (length (str b))
    then lift (λ c. c ∷ bs) (remove_prefix b n)
    else rest

-- A `BufferViewList` is the list of the strings that it views.
abbrev pub BufferViewList : Type 0
BufferViewList = List (List ℕ)

pub view : BufferList → BufferViewList
view [] = []
view (b ∷ bs) = str b ∷ view bs

pub remove_view_prefix : BufferViewList → ℕ → Outcome BufferViewList (Unit {0})
remove_view_prefix [] n = if n == 0 then ok tt [] else throws out_of_range []
remove_view_prefix (x ∷ xs) n =
    let rest = remove_view_prefix xs (n - length x) in
    if n == 0 then ok tt (x ∷ xs) else if ltb n (length x) then ok tt (drop n x ∷ xs) else rest

view_size_loop : ℕ → BufferViewList → ℕ
view_size_loop ret [] = ret
view_size_loop ret (x ∷ xs) = view_size_loop (u64 (ret + length x)) xs

pub view_size : BufferViewList → ℕ
unfolding view_size_loop
view_size xs = view_size_loop 0 xs
