-- ===== src/BufferString/Contained.antt =====
-- `push_back` of libsponge/buffer_string.cc with a string that the first node holds.
use cs144_sponge.Prelude.{
  ℕ, zero, suc, ◌+◌, ◌^◌, ◌≤◌, ◌<◌, ◌≡◌, refl, [], ◌∷◌, List, Bool, arith, length, ok, some,
  get_elem?,
}
use cs144_sponge.BufferString.{
  BufferString, BufferStringList, push_back, place, contained, upper_bound, lower_bound, make,
}

upper_bound-le : (xs : BufferStringList) (c : ℕ) → upper_bound xs c ≤ length xs
unfolding upper_bound
upper_bound-le [] c = omega arith
upper_bound-le (x ∷ xs) c = ground (arith, upper_bound-le xs c)

get_elem?-some :
    (xs : BufferStringList) (i : ℕ) → i < length xs → (y : BufferString) × (get_elem? xs i ≡ some y)
get_elem?-some [] i h = absurd (omega arith)
get_elem?-some (x ∷ xs) zero h = (x, refl)
get_elem?-some (x ∷ xs) (suc i) h = get_elem?-some xs i (omega arith)

place_contained :
    (x : BufferString) (xs : BufferStringList) (b : BufferString)
    → x.first ≤ b.first
    → b.first ≤ b.second
    → b.second ≤ x.second
    → place (x ∷ xs) b ≡ ok tt (x ∷ xs)
unfolding place contained upper_bound lower_bound
place_contained x xs b h k l =
    let u = upper_bound xs b.second in
    let (y, e) = get_elem?-some (x ∷ xs) u (omega (arith, upper_bound-le xs b.second)) in
    ground (arith, e, upper_bound-le xs b.second)

-- The list stays as it is, and the end mark with it.
pub push_back_contained :
    (x : BufferString) (xs : BufferStringList) (str : List ℕ) (index : ℕ) (eof : Bool)
    → x.first ≤ index
    → index + length str ≤ x.second
    → x.second < 2 ^ 64
    → push_back (x ∷ xs) str index eof ≡ ok tt (x ∷ xs)
unfolding push_back make
push_back_contained x xs str index eof h k s =
    place_contained x xs (make index str eof) h (omega arith) (omega arith)
