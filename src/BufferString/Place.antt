-- ===== src/BufferString/Place.antt =====
-- `push_back` of libsponge/buffer_string.cc keeps an ordered list of pieces and adds the new one.
use cs144_sponge.Prelude.{
  ℕ, ◌+◌, ◌-◌, ◌^◌, ◌≤◌, ◌<◌, ◌≡◌, refl, sym, ap, subst, ◌∙◌, inl, inr, List, [], ◌∷◌, ◌++◌, Bool,
  true, ◌||◌, arith, min, max, length, ok, append-nil, Bool-cases, cons-Snoc,
}
use cs144_sponge.BufferString.{
  BufferString, BufferStringList, lower_bound, upper_bound, place, push_back, make, merge_end,
  merge_inner, contained,
}
use cs144_sponge.BufferString.Pieces.{
  Covers-append, Pieces, IsPiece, Pieces-le, piece, piece-IsPiece, slice, between, make-between,
}
use cs144_sponge.BufferString.Cut.{Touches, cut}
use cs144_sponge.BufferString.Insert.{
  Pushed, append-filled, replace_mid-Pushed, last_piece, up-le, mid_into, mid_out,
}
use cs144_sponge.BufferString.Branches.{
  place_insert, place_end, place_inner, merge_end_lem, merge_inner_lem,
}

module _ (f : ℕ → ℕ) (b : BufferString) (b_piece : IsPiece f b) (small : b.second < 2 ^ 64) where
  -- That a call returns, and what it leaves.
  pub record Places (lo : ℕ) (l : BufferStringList) (hi : ℕ) : Type 0 where
    pub result : BufferStringList
    pub returns : place l b ≡ ok tt result
    pub pushed : Pushed f lo l hi b.first b.second result

  -- A piece that one node holds already changes nothing.
  contained-Pushed :
      (lo hi : ℕ) (before ms : BufferStringList) (m : BufferString)
      → Pieces f lo (before ++ (m ∷ ms)) hi
      → contained m b ≡ true
      → Pushed f lo (before ++ (m ∷ ms)) hi b.first b.second (before ++ (m ∷ ms))
  unfolding contained
  contained-Pushed lo hi before ms m all c = record {
    pieces = all;
    sound = λ i h. inl h;
    complete =
        λ i. elim [ inl h ↦ h | inr w ↦ (Covers-append i before _).1 (inr (inl (ground arith))) ];
    starts = λ w h k. h;
    filled = append-filled before m ms;
  }

  module _ (lo hi p q r : ℕ) (before : BufferStringList) (m : BufferString)
      (ms after : BufferStringList) (in_before : Pieces f lo before p)
      (in_mid : Pieces f p (m ∷ ms) q) (in_after : Pieces f r after hi) (start : p ≤ b.first)
      (apart : q ≤ r) (beyond : b.second < r) (touches : Touches b.first b.second (m ∷ ms))
      (fits : hi ≤ 2 ^ 64) where
    -- One new node in the place of those that the piece touches.
    merged-Pushed :
        (e : Bool) (front : BufferStringList) (up : BufferString)
        → m ∷ ms ≡ front ++ (up ∷ [])
        → Pushed f lo
            (before ++ ((m ∷ ms) ++ after))
            hi
            b.first
            b.second
            (before ++ (piece f (min m.first b.first) (max up.second b.second) e ∷ after))
    unfolding piece
    merged-Pushed e front up s =
        let l = last_piece f p q b.first b.second m ms front up s in_mid touches in
        replace_mid-Pushed f lo p r hi b.first b.second before (m ∷ ms) after
          (piece f (min m.first b.first) (max up.second b.second) e) in_before (omega arith)
          (piece-IsPiece f _ _ e (omega (arith, b_piece.ordered))) (omega (arith, l.ends)) in_after
          (omega arith) (omega arith)
          (mid_into f p q b.first b.second m ms front up s in_mid touches)
          (mid_out f p q b.first b.second m ms front up s in_mid touches)

  module _ (lo hi p q r : ℕ) (before : BufferStringList) (m : BufferString) (ms : BufferStringList)
      (in_before : Pieces f lo before p) (in_mid : Pieces f p (m ∷ ms) q) (start : p ≤ b.first)
      (touches : Touches b.first b.second (m ∷ ms)) (fits : hi ≤ 2 ^ 64) (apart : q ≤ r)
      (beyond : b.second < r) where
    place-at_end :
        Pieces f r [] hi
        → Pieces f lo (before ++ (m ∷ ms)) hi
        → lower_bound (before ++ (m ∷ ms)) b.first ≡ length before
        → upper_bound (before ++ (m ∷ ms)) b.second ≡ length before + length (m ∷ ms)
        → Places lo (before ++ (m ∷ ms)) hi
    unfolding merge_end
    place-at_end in_after all lower upper =
        let s = cons-Snoc m ms in
        let l = last_piece f p q b.first b.second m ms s.front s.last s.whole in_mid touches in
        let n =
          piece f (min m.first b.first) (max s.last.second b.second) (b.is_eof || s.last.is_eof) in
        let e = place_end b before s.front m s.last ms s.whole lower upper in
        elim (Bool-cases (contained m b)) [
          | inl c ↦ record {
            result = before ++ (m ∷ ms);
            returns = e ∙ rw c refl;
            pushed = contained-Pushed lo hi before ms m all c;
          }
          | inr c ↦ record {
            result = before ++ (n ∷ []);
            returns =
                e
                ∙ merge_end_lem f b b_piece small before s.front m s.last ms s.whole m.first q
                    in_mid.1 l touches.0
                    (up-le f p q b.first b.second m ms s.front s.last s.whole in_mid touches)
                    (omega (arith, l.ends)) c;
            pushed =
                subst (λ t. Pushed f lo (before ++ t) hi b.first b.second (before ++ (n ∷ [])))
                  (append-nil (m ∷ ms))
                  (merged-Pushed lo hi p q r before m ms [] in_before in_mid in_after start apart
                    beyond touches fits (b.is_eof || s.last.is_eof) s.front s.last s.whole);
          }
        ]

    place-at_inner :
        (o : BufferString) (os : BufferStringList)
        → Pieces f r (o ∷ os) hi
        → Pieces f lo (before ++ (m ∷ (ms ++ (o ∷ os)))) hi
        → lower_bound (before ++ (m ∷ (ms ++ (o ∷ os)))) b.first ≡ length before
        → upper_bound (before ++ (m ∷ (ms ++ (o ∷ os)))) b.second ≡ length before + length (m ∷ ms)
        → Places lo (before ++ (m ∷ (ms ++ (o ∷ os)))) hi
    unfolding merge_inner
    place-at_inner o os in_after all lower upper =
        let s = cons-Snoc m ms in
        let l = last_piece f p q b.first b.second m ms s.front s.last s.whole in_mid touches in
        let e = place_inner b before m ms o os lower upper in
        elim (Bool-cases (contained m b)) [
          | inl c ↦ record {
            result = before ++ (m ∷ (ms ++ (o ∷ os)));
            returns = e ∙ rw c refl;
            pushed = contained-Pushed lo hi before _ m all c;
          }
          | inr c ↦ record {
            result =
                before
                ++ (piece f (min m.first b.first) (max s.last.second b.second) b.is_eof ∷ (o ∷ os));
            returns =
                e
                ∙ merge_inner_lem f b b_piece small before s.front m s.last ms s.whole m.first q
                    in_mid.1 l touches.0
                    (up-le f p q b.first b.second m ms s.front s.last s.whole in_mid touches)
                    (omega (arith, l.ends, Pieces-le f r hi (o ∷ os) in_after)) c o os;
            pushed =
                merged-Pushed lo hi p q r before m ms (o ∷ os) in_before in_mid in_after start apart
                  beyond touches fits _ s.front s.last s.whole;
          }
        ]

  place_cut :
      (lo hi p q r : ℕ) (before mid after : BufferStringList)
      → Pieces f lo (before ++ (mid ++ after)) hi
      → lower_bound (before ++ (mid ++ after)) b.first ≡ length before
      → upper_bound (before ++ (mid ++ after)) b.second ≡ length before + length mid
      → Pieces f lo before p
      → Pieces f p mid q
      → Pieces f r after hi
      → p ≤ b.first
      → q ≤ r
      → b.second < r
      → Touches b.first b.second mid
      → hi ≤ 2 ^ 64
      → Places lo (before ++ (mid ++ after)) hi
  place_cut lo hi p q r before [] after all lower upper sb sm sa pa qr cr t fits = record {
    result = before ++ (b ∷ after);
    returns = place_insert b before after lower (upper ∙ omega arith);
    pushed =
        replace_mid-Pushed f lo p r hi b.first b.second before [] after b sb pa b_piece cr sa
          (omega arith) (omega arith) (λ i h. absurd h) (λ i h. inr h);
  }
  place_cut lo hi p q r before (m ∷ ms) [] all lower upper sb sm sa pa qr cr t fits =
      let e = append-nil (m ∷ ms) in
      subst (λ l. Places lo (before ++ l) hi) (sym e)
        (place-at_end lo hi p q r before m ms sb sm pa t fits qr cr sa
          (subst (λ l. Pieces f lo (before ++ l) hi) e all)
          (subst (λ l. lower_bound (before ++ l) b.first ≡ length before) e lower)
          (subst (λ l. upper_bound (before ++ l) b.second ≡ length before + length (m ∷ ms)) e
            upper))
  place_cut lo hi p q r before (m ∷ ms) (o ∷ os) all lower upper sb sm sa pa qr cr t fits =
      place-at_inner lo hi p q r before m ms sb sm pa t fits qr cr o os sa all lower upper

  pub place-Places :
      (lo : ℕ) (l : BufferStringList) (hi : ℕ)
      → Pieces f lo l hi
      → lo ≤ b.first
      → b.second < hi
      → hi ≤ 2 ^ 64
      → Places lo l hi
  place-Places lo l hi all h k fits =
      let c = cut f lo l hi b.first b.second all h b_piece.ordered k in
      subst (λ t. Places lo t hi) (sym c.whole)
        (place_cut lo hi c.p c.q c.r c.before c.mid c.after
          (subst (λ t. Pieces f lo t hi) c.whole all)
          (subst (λ t. lower_bound t b.first ≡ length c.before) c.whole c.lower)
          (subst (λ t. upper_bound t b.second ≡ length c.before + length c.mid) c.whole c.upper)
          c.in_before c.in_mid c.in_after c.start c.apart c.beyond c.touches fits)

-- What `push_back` leaves: it returns a list that holds the positions of the old list and of the
-- new string, and no other.
pub record PushesBack (f : ℕ → ℕ) (lo hi : ℕ) (l : BufferStringList) (target : List ℕ) (index : ℕ)
    (eof : Bool) : Type 0 where
  pub result : BufferStringList
  pub returns : push_back l target index eof ≡ ok tt result
  pub pushed : Pushed f lo l hi index (index + length target) result

-- On ordered pieces of a stream, pushing a string of that stream neither throws nor reads out of
-- range, and the result is the ordered union of the old positions and the new ones.
pub push_back-PushesBack :
    (f : ℕ → ℕ) (lo hi : ℕ) (l : BufferStringList) (target : List ℕ) (index : ℕ) (eof : Bool)
    → Pieces f lo l hi
    → lo ≤ index
    → index + length target < hi
    → hi ≤ 2 ^ 64
    → target ≡ slice f index (length target)
    → PushesBack f lo hi l target index eof
unfolding push_back piece
push_back-PushesBack f lo hi l target index eof all h k fits e =
    let n : index + length target - index ≡ length target = omega arith in
    let t : target ≡ between f index (index + length target) = e ∙ ap (slice f index) (sym n) in
    let b = piece f index (index + length target) eof in
    let r =
      place-Places f b (piece-IsPiece f index (index + length target) eof (omega arith))
        (omega arith) lo l hi all h k fits in
    record {
      result = r.result;
      returns =
          ap (λ s. place l (make index s eof)) t
          ∙ ap (place l)
              (make-between f index (index + length target) eof (omega arith) (omega arith))
          ∙ r.returns;
      pushed = r.pushed;
    }
