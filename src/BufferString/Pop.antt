-- ===== src/BufferString/Pop.antt =====
-- Taking the first node off the list of libsponge/buffer_string.cc.
use cs144_sponge.Prelude.{
  ℕ, ◌+◌, ◌-◌, ◌^◌, ◌≤◌, ◌<◌, ◌≡◌, refl, ap, ◌∙◌, [], ◌∷◌, some, false, arith, u64, length, take,
  ok, drop,
}
use cs144_sponge.BufferString.{
  BufferString, BufferStringList, pop_up_buffer_string, top_index, push_back, place, make,
  lower_bound, upper_bound,
}
use cs144_sponge.BufferString.Pieces.{
  IsPiece, slice, between, piece, make-between, length-slice, take-slice, drop-slice,
}

pub pop_whole :
    (n : ℕ) (x : BufferString) (xs : BufferStringList)
    → length x.target ≤ n
    → pop_up_buffer_string n (x ∷ xs) ≡ (some x, xs)
unfolding pop_up_buffer_string
pop_whole n x xs h = ground arith

pub top_index-cons : (x : BufferString) (xs : BufferStringList) → top_index (x ∷ xs) ≡ x.first
unfolding top_index
top_index-cons x xs = refl

-- A node without a byte, at the start of the stream.
abbrev pub nothing : BufferString
nothing = record { first = 0; second = 0; is_eof = false; target = [] }

pub push_back-nothing : push_back [] [] 0 false ≡ ok tt (nothing ∷ [])
unfolding push_back place lower_bound upper_bound make
push_back-nothing = refl

module _ (f : ℕ → ℕ) where
  pub length-target : (x : BufferString) → IsPiece f x → length x.target ≡ x.second - x.first
  length-target x p = ap length p.holds ∙ length-slice f x.first (x.second - x.first)

  -- A node that is longer than what is wanted is cut in two pieces.
  pub pop_part :
      (n : ℕ) (x : BufferString)
      → IsPiece f x
      → x.second < 2 ^ 64
      → x.first + n < x.second
      → pop_up_buffer_string n (x ∷ [])
        ≡ (some (piece f x.first (x.first + n) false), piece f (x.first + n) x.second x.is_eof ∷ [])
  unfolding pop_up_buffer_string
  pop_part n x p s h =
      let a : x.first + n - x.first ≡ n = omega arith in
      let w : u64 (x.first + n) ≡ x.first + n = omega arith in
      let t : take n x.target ≡ between f x.first (x.first + n) =
        ap (take n) p.holds
        ∙ take-slice f x.first n (x.second - x.first) (omega arith)
        ∙ ap (slice f x.first) (omega arith) in
      let k : x.second - x.first - n ≡ x.second - (x.first + n) = omega arith in
      let d : drop n x.target ≡ between f (x.first + n) x.second =
        ap (drop n) p.holds
        ∙ drop-slice f x.first n (x.second - x.first) (omega arith)
        ∙ ap (slice f (x.first + n)) k in
      ground (
        arith,
        length-target x p,
        t,
        w,
        d,
        make-between f x.first (x.first + n) false (omega arith) (omega arith),
        make-between f (x.first + n) x.second x.is_eof (omega arith) s,
      )
