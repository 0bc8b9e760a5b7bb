-- ===== src/BufferString/Branches.antt =====
-- The three branches of `push_back` of libsponge/buffer_string.cc, at a list that is cut.
use cs144_sponge.Prelude.{
  ℕ, ◌+◌, ◌-◌, ◌^◌, ◌≤◌, ◌<◌, ◌≡◌, refl, sym, ap, subst, ◌∙◌, [], ◌∷◌, ◌++◌, some, false, ◌||◌,
  arith, min, max, length, drop, set, length-append, ok, append_assoc, get_elem?,
  take-length_append, drop-length_append, get_elem?-length_append, set-length_append,
}
use cs144_sponge.BufferString.{
  BufferString, BufferStringList, lower_bound, upper_bound, place, merge_end, merge_inner,
  contained, gather, erase_range, make,
}
use cs144_sponge.BufferString.Pieces.{IsPiece, LastPiece, between, piece, make-between}
use cs144_sponge.BufferString.Merge.{gather_skip, gather_last, head_string_lem, tail_string_lem}

pub place_insert :
    (b : BufferString) (before after : BufferStringList)
    → lower_bound (before ++ after) b.first ≡ length before
    → upper_bound (before ++ after) b.second ≡ length before
    → place (before ++ after) b ≡ ok tt (before ++ (b ∷ after))
unfolding place
place_insert b before after e d =
    ground (arith, e, d, take-length_append before after, drop-length_append before after)

-- The bounds differ and the upper one stands at the end.
pub place_end :
    (b : BufferString) (before front : BufferStringList) (m up : BufferString)
    (ms : BufferStringList)
    → m ∷ ms ≡ front ++ (up ∷ [])
    → lower_bound (before ++ (m ∷ ms)) b.first ≡ length before
    → upper_bound (before ++ (m ∷ ms)) b.second ≡ length before + length (m ∷ ms)
    → place (before ++ (m ∷ ms)) b
      ≡ merge_end (before ++ (m ∷ ms)) b (length before) (length (before ++ front)) m up
unfolding place
place_end b before front m up ms s e d =
    let n : length (m ∷ ms) ≡ length front + 1 =
      ap length s ∙ omega (arith, length-append front (up ∷ [])) in
    let h : length before + length (m ∷ ms) - 1 ≡ length (before ++ front) =
      omega (arith, length-append before front) in
    let u : get_elem? (before ++ (m ∷ ms)) (length (before ++ front)) ≡ some up =
      subst (λ l. get_elem? (before ++ l) (length (before ++ front)) ≡ some up) (sym s)
        (rw (← append_assoc before front (up ∷ []))
          (get_elem?-length_append (before ++ front) up [])) in
    ground (
      arith,
      e,
      d,
      h,
      n,
      u,
      length-append before (m ∷ ms),
      length-append before front,
      get_elem?-length_append before m ms,
    )

-- The bounds differ and a node stands behind the upper one.
pub place_inner :
    (b : BufferString) (before : BufferStringList) (m : BufferString) (ms : BufferStringList)
    (o : BufferString) (os : BufferStringList)
    → lower_bound (before ++ (m ∷ (ms ++ (o ∷ os)))) b.first ≡ length before
    → upper_bound (before ++ (m ∷ (ms ++ (o ∷ os)))) b.second ≡ length before + length (m ∷ ms)
    → place (before ++ (m ∷ (ms ++ (o ∷ os)))) b
      ≡ merge_inner
          (before ++ (m ∷ (ms ++ (o ∷ os))))
          b
          (length before)
          (length before + length (m ∷ ms))
          m
unfolding place
place_inner b before m ms o os e d = ground (
  arith,
  e,
  d,
  length-append before (m ∷ (ms ++ (o ∷ os))),
  length-append ms (o ∷ os),
  get_elem?-length_append before m (ms ++ (o ∷ os)),
)

erase_lem :
    (xs ys zs : BufferStringList)
    → erase_range (length xs) (length (xs ++ ys)) ((xs ++ ys) ++ zs) ≡ xs ++ zs
unfolding erase_range
erase_lem xs ys zs =
    rw (drop-length_append (xs ++ ys) zs, append_assoc xs ys zs, take-length_append xs (ys ++ zs))
      refl

-- Writing one node at a position and erasing those behind it.
erase-set :
    (before ms os : BufferStringList) (m n : BufferString)
    → erase_range
        (length before + 1)
        (length before + length (m ∷ ms))
        (set (before ++ (m ∷ (ms ++ os))) (length before) n)
      ≡ before ++ (n ∷ os)
erase-set before ms os m n =
    let a : length (before ++ (n ∷ [])) ≡ length before + 1 = length-append before (n ∷ []) in
    let c : length ((before ++ (n ∷ [])) ++ ms) ≡ length before + length (m ∷ ms) =
      omega (arith, length-append (before ++ (n ∷ [])) ms, a) in
    let l : before ++ (n ∷ (ms ++ os)) ≡ ((before ++ (n ∷ [])) ++ ms) ++ os =
      sym (append_assoc (before ++ (n ∷ [])) ms os ∙ append_assoc before (n ∷ []) (ms ++ os)) in
    rw (set-length_append before m n (ms ++ os), ← a, ← c, l)
      (erase_lem (before ++ (n ∷ [])) ms os ∙ append_assoc before (n ∷ []) os)

module _ (f : ℕ → ℕ) (b : BufferString) (b_piece : IsPiece f b) (small : b.second < 2 ^ 64)
    (before front : BufferStringList) (m up : BufferString) (ms : BufferStringList)
    (snoc : m ∷ ms ≡ front ++ (up ∷ [])) (lo q : ℕ) (m_piece : IsPiece f m)
    (last : LastPiece f lo front up q) (meets : b.first ≤ m.second) (up-le : up.first ≤ b.second)
    (up_small : up.second < 2 ^ 64) (apart : contained m b ≡ false) where
  abbrev left : ℕ
  left = min m.first b.first

  abbrev right : ℕ
  right = max up.second b.second

  pub merge_end_lem :
      merge_end (before ++ (m ∷ ms)) b (length before) (length (before ++ front)) m up
      ≡ ok tt (before ++ (piece f left right (b.is_eof || up.is_eof) ∷ []))
  unfolding merge_end
  merge_end_lem =
      let w : before ++ (m ∷ ms) ≡ (before ++ front) ++ (up ∷ []) =
        ap (◌++◌ before) snoc ∙ sym (append_assoc before front (up ∷ [])) in
      let d : drop (length before) (before ++ (m ∷ ms)) ≡ front ++ (up ∷ []) =
        drop-length_append before (m ∷ ms) ∙ snoc in
      let h : length (before ++ front) - length before ≡ length front =
        omega (arith, length-append before front) in
      let g : gather right front (some (between f left b.second)) ≡ some (between f left b.second) =
        gather_skip f right lo last.u front _ last.in_front (omega (arith, last.behind)) in
      let t =
        tail_string_lem f left up b last.is_piece up-le (omega (arith, b_piece.ordered)) up_small in
      let n =
        make-between f left right (b.is_eof || up.is_eof) (omega (arith, b_piece.ordered))
          (omega arith) in
      let e : set (before ++ (m ∷ ms)) (length (before ++ front))
            (make left (between f left right) (b.is_eof || up.is_eof))
          ≡ (before ++ front) ++ (piece f left right (b.is_eof || up.is_eof) ∷ []) =
        rw (w, n) (set-length_append (before ++ front) up _ []) in
      rw
        (
          apart,
          d,
          h,
          take-length_append front (up ∷ []),
          head_string_lem f m b m_piece b_piece meets small,
          g,
          t,
          e,
        )
        (ap (ok tt) (erase_lem before front _))

  pub merge_inner_lem :
      (o : BufferString) (os : BufferStringList)
      → merge_inner
          (before ++ (m ∷ (ms ++ (o ∷ os))))
          b
          (length before)
          (length before + length (m ∷ ms))
          m
        ≡ ok tt (before ++ (piece f left right b.is_eof ∷ (o ∷ os)))
  unfolding merge_inner
  merge_inner_lem o os =
      let d : drop (length before) (before ++ (m ∷ (ms ++ (o ∷ os)))) ≡ (m ∷ ms) ++ (o ∷ os) =
        drop-length_append before _ in
      let h : length before + length (m ∷ ms) - length before ≡ length (m ∷ ms) = omega arith in
      let g : gather b.second (m ∷ ms) (some (between f left b.second))
          ≡ some (between f left right) =
        subst
          (λ l. gather b.second l (some (between f left b.second)) ≡ some (between f left right))
          (sym snoc)
          (gather_last f left b.second lo last.u front up last.in_front last.behind last.is_piece
            (omega (arith, b_piece.ordered)) up-le up_small) in
      rw
        (
          apart,
          d,
          h,
          take-length_append (m ∷ ms) (o ∷ os),
          head_string_lem f m b m_piece b_piece meets small,
          g,
          make-between f left right b.is_eof (omega (arith, b_piece.ordered)) (omega arith),
        )
        (ap (ok tt) (erase-set before ms (o ∷ os) m _))
