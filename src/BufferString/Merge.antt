-- ===== src/BufferString/Merge.antt =====
-- The string that `push_back` of libsponge/buffer_string.cc makes of the nodes that it merges.
use cs144_sponge.Prelude.{
  ℕ, suc, ◌-◌, ◌^◌, ◌≤◌, ◌<◌, ◌≡◌, refl, sym, ◌∙◌, List, [], ◌∷◌, ◌++◌, Option, none, some, arith,
  min, max, ltb, sub64, dec_lt, lt→ltb, false,
}
use cs144_sponge.BufferString.{BufferString, BufferStringList, gather, head_string, tail_string}
use cs144_sponge.BufferString.Pieces.{
  Pieces, IsPiece, Pieces-le, between, between-append, substr-between, take-slice,
}

gather-none : (right : ℕ) (xs : BufferStringList) → gather right xs none ≡ none
unfolding gather
gather-none right [] = refl
gather-none right (x ∷ xs) = refl

gather-append :
    (right : ℕ) (xs ys : BufferStringList) (s : Option (List ℕ))
    → gather right (xs ++ ys) s ≡ gather right ys (gather right xs s)
unfolding gather
gather-append right [] ys s = refl
gather-append right (x ∷ xs) ys none = sym (gather-none right ys)
gather-append right (x ∷ xs) ys (some str) = gather-append right xs ys _

module _ (f : ℕ → ℕ) where
  -- Nodes that end in time add nothing.
  pub gather_skip :
      (right lo hi : ℕ) (xs : BufferStringList) (str : List ℕ)
      → Pieces f lo xs hi
      → hi ≤ suc right
      → gather right xs (some str) ≡ some str
  unfolding gather
  gather_skip right lo hi [] str p h = refl
  gather_skip right lo hi (x ∷ xs) str p h =
      ground (
        arith,
        Pieces-le f (suc x.second) hi xs p.2,
        gather_skip right (suc x.second) hi xs str p.2,
      )

  -- The last node adds what stands behind the positions `[a, c)`.
  pub gather_last :
      (a c lo u : ℕ) (xs : BufferStringList) (up : BufferString)
      → Pieces f lo xs u
      → u ≤ up.first
      → IsPiece f up
      → a ≤ c
      → up.first ≤ c
      → up.second < 2 ^ 64
      → gather c (xs ++ (up ∷ [])) (some (between f a c)) ≡ some (between f a (max up.second c))
  unfolding gather
  gather_last a c lo u xs up p h k l m n =
      gather-append c xs (up ∷ []) (some (between f a c))
      ∙ rw (gather_skip c lo u xs (between f a c) p (omega arith)) (elim (dec_lt c up.second) [
        | yes more ↦
            let e : max up.second c ≡ up.second = omega arith in
            rw
              (
                lt→ltb c up.second more,
                substr-between f up c up.second k m (omega arith) (omega arith) n,
                between-append f a c up.second l (omega arith),
                e,
              )
              refl
        | no done ↦ let e : max up.second c ≡ c = omega arith in ground (arith, e)
      ])

  -- The string before the loop: the bytes from the left end to the end of the new piece.
  pub head_string_lem :
      (low b : BufferString)
      → IsPiece f low
      → IsPiece f b
      → b.first ≤ low.second
      → b.second < 2 ^ 64
      → head_string low b ≡ between f (min low.first b.first) b.second
  unfolding head_string
  head_string_lem low b p k h n = elim (dec_lt low.first b.first) [
    | yes left ↦
        let e : min low.first b.first ≡ low.first = omega arith in
        let d : sub64 b.first low.first ≡ b.first - low.first = omega (arith, k.ordered) in
        rw (e, lt→ltb low.first b.first left, d, p.holds, k.holds)
          (rw (take-slice f low.first (b.first - low.first) (low.second - low.first) (omega arith))
            (between-append f low.first b.first b.second (omega arith) k.ordered))
    | no right ↦
        let e : min low.first b.first ≡ b.first = omega arith in
        let d : ltb b.first b.first ≡ false = ground arith in rw (e, d, k.holds) refl
  ]

  -- At the end of the list the last node adds the same by the code behind the loop.
  pub tail_string_lem :
      (a : ℕ) (up b : BufferString)
      → IsPiece f up
      → up.first ≤ b.second
      → a ≤ b.second
      → up.second < 2 ^ 64
      → tail_string up b (max up.second b.second) (some (between f a b.second))
        ≡ some (between f a (max up.second b.second))
  unfolding tail_string
  tail_string_lem a up b k h l n = elim (dec_lt b.second up.second) [
    | yes more ↦
        let e : max up.second b.second ≡ up.second = omega arith in
        rw
          (
            e,
            lt→ltb b.second up.second more,
            substr-between f up b.second up.second k h (omega arith) (omega arith) n,
            between-append f a b.second up.second l (omega arith),
          )
          refl
    | no done ↦
        let e : max up.second b.second ≡ b.second = omega arith in
        let d : ltb b.second b.second ≡ false = ground arith in rw (e, d) refl
  ]
