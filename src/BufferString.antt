-- ===== src/BufferString.antt =====
-- libsponge/buffer_string.hh and buffer_string.cc: the pieces of a stream that wait for a gap to
-- close. A `BufferString` with a null string, which only `{}` makes, is the `none` of
-- `get_buffer_string`; every other one has a string.
pub mod Pieces
pub mod Cut
pub mod Merge
pub mod Insert
pub mod Branches
pub mod Place
pub mod Pop
pub mod Contained
use cs144_sponge.Prelude.{
  ℕ, suc, ◌+◌, ◌-◌, List, [], ◌∷◌, ◌++◌, Option, none, some, Bool, true, false, ◌&&◌, ◌||◌, u64,
  sub64, min, max, ltb, leb, ◌==◌, if◌then◌else◌, length, take, drop, set, get_elem?, Outcome, ok,
  throws, out_of_range, runtime_error, past_end,
}

pub record BufferString : Type 0 where
  pub first : ℕ
  pub second : ℕ
  pub is_eof : Bool
  pub target : List ℕ

unfoldable pub make : ℕ → List ℕ → Bool → BufferString
make index target eof = record {
  first = index;
  second = u64 (index + length target);
  is_eof = eof;
  target = target;
}

abbrev pub BufferStringList : Type 0
BufferStringList = List BufferString

-- `std::lower_bound` with `key > buff.get_index().second`: the first position where that fails.
-- The library searches by halving, which finds the same position where the list is ordered.
unfoldable pub lower_bound : BufferStringList → ℕ → ℕ
lower_bound [] key = 0
lower_bound (x ∷ xs) key = if ltb x.second key then suc (lower_bound xs key) else 0

-- `std::upper_bound` with `key < buff.get_index().first`: the first position where that holds.
unfoldable pub upper_bound : BufferStringList → ℕ → ℕ
upper_bound [] key = 0
upper_bound (x ∷ xs) key = if ltb key x.first then 0 else suc (upper_bound xs key)

-- `std::string_view::substr`, `none` where it throws `out_of_range`.
abbrev pub substr : List ℕ → ℕ → ℕ → Option (List ℕ)
substr str pos n = if ltb (length str) pos then none else some (take n (drop pos str))

unfoldable pub insert_at : ℕ → BufferString → BufferStringList → BufferStringList
insert_at i x xs = take i xs ++ (x ∷ drop i xs)

-- `erase` of the positions from `i` up to `j`.
pub erase_range : ℕ → ℕ → BufferStringList → BufferStringList
erase_range i j xs = take i xs ++ drop j xs

abbrev join : List ℕ → Option (List ℕ) → Option (List ℕ)
join str none = none
join str (some more) = some (str ++ more)

-- The loop over the nodes between the two bounds.
pub gather : ℕ → BufferStringList → Option (List ℕ) → Option (List ℕ)
gather right_index [] str = str
gather right_index (x ∷ xs) none = none
gather right_index (x ∷ xs) (some str) = gather right_index xs (
    if ltb right_index x.second
    then join str (substr x.target (sub64 right_index x.first) (sub64 x.second right_index))
    else some str)

-- What stands in the new string before the loop.
pub head_string : BufferString → BufferString → List ℕ
head_string low b =
    let left_index = min low.first b.first in
    (if ltb left_index b.first then take (sub64 b.first left_index) low.target else []) ++ b.target

pub contained : BufferString → BufferString → Bool
contained low b = leb low.first b.first && leb b.second low.second

abbrev pub replace :
    BufferStringList
    → Option (List ℕ)
    → (List ℕ → BufferStringList)
    → Outcome BufferStringList (Unit {0})
replace list none build = throws out_of_range list
replace list (some str) build = ok tt (build str)

-- What the last node adds to the new string when the range reaches the end of the list.
pub tail_string : BufferString → BufferString → ℕ → Option (List ℕ) → Option (List ℕ)
tail_string up b right_index none = none
tail_string up b right_index (some str) =
    if ltb b.second right_index
    then join str (substr up.target (sub64 b.second up.first) (sub64 right_index b.second))
    else some str

-- The range of nodes to merge reaches the end of the list; `hi` is the last position.
pub merge_end :
    BufferStringList
    → BufferString
    → ℕ
    → ℕ
    → BufferString
    → BufferString
    → Outcome BufferStringList (Unit {0})
unfolding head_string tail_string contained
merge_end list b li hi low up =
    let left_index = min low.first b.first in
    let right_index = max up.second b.second in
    if contained low b
    then ok tt list
    else replace list
        (tail_string up b right_index
          (gather right_index (take (hi - li) (drop li list)) (some (head_string low b))))
        (λ str. erase_range li hi (set list hi (make left_index str (b.is_eof || up.is_eof))))

-- The range ends before position `ui`, inside the list.
pub merge_inner :
    BufferStringList → BufferString → ℕ → ℕ → BufferString → Outcome BufferStringList (Unit {0})
unfolding head_string contained
merge_inner list b li ui low =
    let left_index = min low.first b.first in
    if contained low b
    then ok tt list
    else replace list (gather b.second (take (ui - li) (drop li list)) (some (head_string low b)))
        (λ str. erase_range (li + 1) ui (set list li (make left_index str b.is_eof)))

with_low :
    BufferStringList
    → (BufferString → Outcome BufferStringList (Unit {0}))
    → Option BufferString
    → Outcome BufferStringList (Unit {0})
with_low list k none = throws past_end list
with_low list k (some low) = k low

-- The nodes of the bounds are read through iterators: past the end there is none.
merge : BufferStringList → BufferString → ℕ → ℕ → Bool → Outcome BufferStringList (Unit {0})
unfolding merge_end merge_inner with_low
merge list b li ui true =
    if ltb (ui - 1) li
    then throws runtime_error list
    else with_low list
        (λ low. with_low list (λ up. merge_end list b li (ui - 1) low up) (get_elem? list (ui - 1)))
        (get_elem? list li)
merge list b li ui false =
    if ltb ui li
    then throws runtime_error list
    else with_low list (λ low. merge_inner list b li ui low) (get_elem? list li)

-- The body of `push_back`, from the search for the bounds on.
unfoldable pub place : BufferStringList → BufferString → Outcome BufferStringList (Unit {0})
unfolding merge insert_at erase_range
place list b =
    let li = lower_bound list b.first in
    let ui = upper_bound list b.second in
    if li == ui then ok tt (insert_at li b list) else merge list b li ui (ui == length list)

unfoldable pub push_back :
    BufferStringList → List ℕ → ℕ → Bool → Outcome BufferStringList (Unit {0})
unfolding place make
push_back list target index eof = place list (make index target eof)

size_loop : ℕ → BufferStringList → ℕ
size_loop n [] = n
size_loop n (x ∷ xs) = size_loop (u64 (n + sub64 x.second x.first)) xs

pub size : BufferStringList → ℕ
unfolding size_loop
size list = size_loop 0 list

pub empty : BufferStringList → Bool
empty [] = true
empty (x ∷ xs) = false

unfoldable pub top_index : BufferStringList → ℕ
top_index [] = 0
top_index (x ∷ xs) = x.first

-- What is left of a node goes to the back of the deque.
rest_of : BufferString → ℕ → Bool → BufferString
unfolding make
rest_of x n eof = make (u64 (x.first + n)) (drop n x.target) eof

pub get_buffer_string : ℕ → Bool → BufferStringList → Option BufferString × BufferStringList
unfolding rest_of make
get_buffer_string n should_pop [] = (none, [])
get_buffer_string n should_pop (x ∷ xs) =
    if leb (length x.target) n then (some x, if should_pop then xs else x ∷ xs) else (
      some (make x.first (take n x.target) false),
      if should_pop then xs ++ (rest_of x n x.is_eof ∷ []) else x ∷ xs,
    )

unfoldable pub pop_up_buffer_string : ℕ → BufferStringList → Option BufferString × BufferStringList
unfolding get_buffer_string
pop_up_buffer_string n list = get_buffer_string n true list

pub peek_buffer_string : ℕ → BufferStringList → Option BufferString × BufferStringList
unfolding get_buffer_string
peek_buffer_string n list = get_buffer_string n false list

-- The same for the bare bytes; the end mark of a node that is cut is not kept.
pub get_buffer : ℕ → Bool → BufferStringList → List ℕ × BufferStringList
unfolding rest_of make
get_buffer n should_pop [] = ([], [])
get_buffer n should_pop (x ∷ xs) =
    if leb (length x.target) n
    then (x.target, if should_pop then xs else x ∷ xs)
    else (take n x.target, if should_pop then xs ++ (rest_of x n false ∷ []) else x ∷ xs)

pub pop_up_buffer : ℕ → BufferStringList → List ℕ × BufferStringList
unfolding get_buffer
pop_up_buffer n list = get_buffer n true list

pub peek_buffer : ℕ → BufferStringList → List ℕ × BufferStringList
unfolding get_buffer
peek_buffer n list = get_buffer n false list
