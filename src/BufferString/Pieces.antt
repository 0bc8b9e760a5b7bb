-- ===== src/BufferString/Pieces.antt =====
-- The nodes of libsponge/buffer_string.cc as pieces of one stream of bytes, in order and apart.
use cs144_sponge.Prelude.{
  ℕ, zero, suc, ◌+◌, ◌-◌, ◌^◌, ◌≤◌, ◌<◌, ◌≡◌, refl, ap, ◌⊎◌, inl, inr, List, [], ◌∷◌, ◌++◌, some,
  Bool, arith, u64, sub64, length, take, drop,
}
use cs144_sponge.BufferString.{BufferString, BufferStringList, make, substr}

-- The positions that a list of nodes holds.
abbrev pub Covers : ℕ → BufferStringList → Type 0
Covers i [] = ⊥
Covers i (x ∷ xs) = ((x.first ≤ i) × (i < x.second)) ⊎ Covers i xs

pub Covers-append :
    (i : ℕ) (xs ys : BufferStringList)
    → (Covers i (xs ++ ys) → Covers i xs ⊎ Covers i ys)
      × (Covers i xs ⊎ Covers i ys → Covers i (xs ++ ys))
Covers-append i [] ys = (λ h. inr h, elim [ inl h ↦ absurd h | inr h ↦ h ])
Covers-append i (x ∷ xs) ys =
    let ih = Covers-append i xs ys in
    (
      elim [ inl h ↦ inl (inl h) | inr h ↦ elim (ih.0 h) [ inl k ↦ inl (inr k) | inr k ↦ inr k ] ],
      elim [
        | inl h ↦ elim h [ inl k ↦ inl k | inr k ↦ inr (ih.1 (inl k)) ]
        | inr h ↦ inr (ih.1 (inr h))
      ],
    )

-- Every node begins before `w`.
abbrev pub Starts : ℕ → BufferStringList → Type 0
Starts w [] = Unit {0}
Starts w (x ∷ xs) = (x.first < w) × Starts w xs

pub Starts-append :
    (w : ℕ) (xs ys : BufferStringList)
    → (Starts w (xs ++ ys) → Starts w xs × Starts w ys)
      × (Starts w xs × Starts w ys → Starts w (xs ++ ys))
Starts-append w [] ys = (λ h. (tt, h), λ h. h.1)
Starts-append w (x ∷ xs) ys =
    let ih = Starts-append w xs ys in
    (λ h. ((h.0, (ih.0 h.1).0), (ih.0 h.1).1), λ h. (h.0.0, ih.1 (h.0.1, h.1)))

module _ (f : ℕ → ℕ) where
  -- The bytes of the stream from position `a` on.
  abbrev pub slice : ℕ → ℕ → List ℕ
  slice a zero = []
  slice a (suc n) = f a ∷ slice (suc a) n

  pub length-slice : (a n : ℕ) → length (slice a n) ≡ n
  length-slice a zero = refl
  length-slice a (suc n) = ap suc (length-slice (suc a) n)

  pub slice-append : (a m n : ℕ) → slice a m ++ slice (a + m) n ≡ slice a (m + n)
  slice-append a zero n =
      let e : a + 0 ≡ a = omega arith in let k : 0 + n ≡ n = omega arith in rw (e, k) refl
  slice-append a (suc m) n =
      let e : a + suc m ≡ suc a + m = omega arith in
      let k : suc m + n ≡ suc (m + n) = omega arith in
      rw (e, k) (ap (◌∷◌ (f a)) (slice-append (suc a) m n))

  pub take-slice : (a k n : ℕ) → k ≤ n → take k (slice a n) ≡ slice a k
  take-slice a zero n h = refl
  take-slice a (suc k) zero h = absurd (omega arith)
  take-slice a (suc k) (suc n) h = ap (◌∷◌ (f a)) (take-slice (suc a) k n (omega arith))

  pub drop-slice : (a k n : ℕ) → k ≤ n → drop k (slice a n) ≡ slice (a + k) (n - k)
  drop-slice a zero n h =
      let e : a + 0 ≡ a = omega arith in let k : n - 0 ≡ n = omega arith in rw (e, k) refl
  drop-slice a (suc k) zero h = absurd (omega arith)
  drop-slice a (suc k) (suc n) h =
      let e : a + suc k ≡ suc a + k = omega arith in
      let d : suc n - suc k ≡ n - k = omega arith in
      rw (e, d) (drop-slice (suc a) k n (omega arith))

  -- The bytes from `a` up to `b`.
  abbrev pub between : ℕ → ℕ → List ℕ
  between a b = slice a (b - a)

  pub between-append : (a b c : ℕ) → a ≤ b → b ≤ c → between a b ++ between b c ≡ between a c
  between-append a b c h k =
      let e : a + (b - a) ≡ b = omega arith in
      let d : (b - a) + (c - b) ≡ c - a = omega arith in
      rw (← d, ← slice-append a (b - a) (c - b), e) refl

  -- A node whose bytes are those of the stream.
  pub record IsPiece (x : BufferString) : Type 0 where
    pub ordered : x.first ≤ x.second
    pub holds : x.target ≡ between x.first x.second

  -- Nodes in order inside `[lo, hi)`, with a gap behind each.
  abbrev pub Pieces : ℕ → BufferStringList → ℕ → Type 0
  Pieces lo [] hi = lo ≤ hi
  Pieces lo (x ∷ xs) hi = (lo ≤ x.first) × IsPiece x × Pieces (suc x.second) xs hi

  pub Pieces-le : (lo hi : ℕ) (xs : BufferStringList) → Pieces lo xs hi → lo ≤ hi
  Pieces-le lo hi [] h = h
  Pieces-le lo hi (x ∷ xs) h = omega (arith, Pieces-le (suc x.second) hi xs h.2, h.1.ordered)

  pub Pieces-append :
      (lo mid hi : ℕ) (xs ys : BufferStringList)
      → Pieces lo xs mid
      → Pieces mid ys hi
      → Pieces lo (xs ++ ys) hi
  Pieces-append lo mid hi [] [] h k = omega arith
  Pieces-append lo mid hi [] (y ∷ ys) h k = (omega arith, k.1, k.2)
  Pieces-append lo mid hi (x ∷ xs) ys h k =
      (h.0, h.1, Pieces-append (suc x.second) mid hi xs ys h.2 k)

  pub Pieces-mono :
      (lo lo' hi : ℕ) (xs : BufferStringList) → lo' ≤ lo → Pieces lo xs hi → Pieces lo' xs hi
  Pieces-mono lo lo' hi [] h p = omega arith
  Pieces-mono lo lo' hi (x ∷ xs) h p = (omega arith, p.1, p.2)

  -- A list of pieces that does not end before its last one.
  pub record LastPiece (lo : ℕ) (xs : BufferStringList) (up : BufferString) (hi : ℕ) : Type 0 where
    pub u : ℕ
    pub in_front : Pieces lo xs u
    pub behind : u ≤ up.first
    pub is_piece : IsPiece up
    pub ends : suc up.second ≤ hi

  pub Pieces-LastPiece :
      (lo : ℕ) (xs : BufferStringList) (up : BufferString) (hi : ℕ)
      → Pieces lo (xs ++ (up ∷ [])) hi
      → LastPiece lo xs up hi
  Pieces-LastPiece lo [] up hi p = record {
    u = lo;
    in_front = omega arith;
    behind = p.0;
    is_piece = p.1;
    ends = p.2;
  }
  Pieces-LastPiece lo (x ∷ xs) up hi p =
      let t = Pieces-LastPiece (suc x.second) xs up hi p.2 in
      record {
        u = t.u;
        in_front = (p.0, p.1, t.in_front);
        behind = t.behind;
        is_piece = t.is_piece;
        ends = t.ends;
      }

  pub Covers-bounds :
      (i lo hi : ℕ) (xs : BufferStringList)
      → Pieces lo xs hi
      → Covers i xs
      → (lo ≤ i) × (suc i < hi)
  Covers-bounds i lo hi [] h k = absurd k
  Covers-bounds i lo hi (x ∷ xs) h (inl k) = omega (arith, Pieces-le (suc x.second) hi xs h.2)
  Covers-bounds i lo hi (x ∷ xs) h (inr k) =
      omega (arith, Covers-bounds i (suc x.second) hi xs h.2 k, h.1.ordered)

  -- The part of a piece between two positions inside it.
  pub substr-between :
      (x : BufferString) (a b : ℕ)
      → IsPiece x
      → x.first ≤ a
      → a ≤ b
      → b ≤ x.second
      → x.second < 2 ^ 64
      → substr x.target (sub64 a x.first) (sub64 b a) ≡ some (between a b)
  substr-between x a b p h k l s =
      let e : sub64 a x.first ≡ a - x.first = omega arith in
      let d : sub64 b a ≡ b - a = omega arith in
      let n : x.first + (a - x.first) ≡ a = omega arith in
      let m : (x.second - x.first) - (a - x.first) ≡ x.second - a = omega arith in
      rw (e, d, p.holds)
        (ground (
          arith,
          length-slice x.first (x.second - x.first),
          drop-slice x.first (a - x.first) (x.second - x.first) (omega arith),
          take-slice a (b - a) (x.second - a) (omega arith),
        ))

  -- A node made of the bytes up to `b` ends at `b`.
  unfoldable pub piece : ℕ → ℕ → Bool → BufferString
  piece a b e = record { first = a; second = b; is_eof = e; target = between a b }

  pub make-between :
      (a b : ℕ) (e : Bool) → a ≤ b → b < 2 ^ 64 → make a (between a b) e ≡ piece a b e
  unfolding make piece
  make-between a b e h s =
      let k : u64 (a + length (between a b)) ≡ b = omega (arith, length-slice a (b - a)) in
      rw k refl

  pub piece-IsPiece : (a b : ℕ) (e : Bool) → a ≤ b → IsPiece (piece a b e)
  unfolding piece
  piece-IsPiece a b e h = record { ordered = h; holds = refl }
