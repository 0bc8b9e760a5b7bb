-- ===== src/BufferString/Insert.antt =====
-- `push_back` of libsponge/buffer_string.cc is the union of the new piece with the old ones.
use cs144_sponge.Prelude.{
  ℕ, suc, ◌≤◌, ◌<◌, ◌≡◌, refl, sym, subst, ◌⊎◌, inl, inr, [], ◌∷◌, ◌++◌, arith, min, max, dec_lt,
}
use cs144_sponge.BufferString.{BufferString, BufferStringList}
use cs144_sponge.BufferString.Pieces.{
  Covers, Covers-append, Starts, Starts-append, Pieces, IsPiece, Pieces-mono, Pieces-append,
  LastPiece, Pieces-LastPiece, Covers-bounds,
}
use cs144_sponge.BufferString.Cut.{Touches}

Touches-last :
    (a c : ℕ) (xs : BufferStringList) (up : BufferString)
    → Touches a c (xs ++ (up ∷ []))
    → up.first ≤ c
Touches-last a c [] up t = t.1
Touches-last a c (x ∷ xs) up t = Touches-last a c xs up t.2

Covers-last :
    (i : ℕ) (xs : BufferStringList) (up : BufferString)
    → up.first ≤ i
    → i < up.second
    → Covers i (xs ++ (up ∷ []))
Covers-last i [] up h k = inl (h, k)
Covers-last i (x ∷ xs) up h k = inr (Covers-last i xs up h k)

pub append-filled :
    (before : BufferStringList) (n : BufferString) (after : BufferStringList)
    → (x : BufferString) × (xs : BufferStringList) × (before ++ (n ∷ after) ≡ x ∷ xs)
append-filled [] n after = (n, after, refl)
append-filled (x ∷ xs) n after = (x, xs ++ (n ∷ after), refl)

-- The positions from `a` up to `c`.
abbrev pub Within : ℕ → ℕ → ℕ → Type 0
Within a c i = (a ≤ i) × (i < c)

module _ (f : ℕ → ℕ) where
  -- The list `l'` holds what `l` held and the positions from `a` up to `c`, in order, with the
  -- bytes of the stream.
  pub record Pushed (lo : ℕ) (l : BufferStringList) (hi a c : ℕ) (l' : BufferStringList)
      : Type 0 where
    pub pieces : Pieces f lo l' hi
    pub sound : (i : ℕ) → Covers i l' → Covers i l ⊎ Within a c i
    pub complete : (i : ℕ) → Covers i l ⊎ Within a c i → Covers i l'
    pub starts : (w : ℕ) → Starts w l → a < w → Starts w l'
    pub filled : (x : BufferString) × (xs : BufferStringList) × (l' ≡ x ∷ xs)

  -- One node in the place of the nodes in the middle.
  pub replace_mid-Pushed :
      (lo p r hi a c : ℕ) (before mid after : BufferStringList) (n : BufferString)
      → Pieces f lo before p
      → p ≤ n.first
      → IsPiece f n
      → n.second < r
      → Pieces f r after hi
      → n.first ≤ a
      → c ≤ n.second
      → ((i : ℕ) → Covers i mid → Within n.first n.second i)
      → ((i : ℕ) → Within n.first n.second i → Covers i mid ⊎ Within a c i)
      → Pushed lo (before ++ (mid ++ after)) hi a c (before ++ (n ∷ after))
  replace_mid-Pushed lo p r hi a c before mid after n sb pl np rr sa la cr into out = record {
    pieces =
        Pieces-append f lo p hi before _ sb (pl, np, Pieces-mono f r (suc n.second) hi after rr sa);
    sound = λ i h. elim ((Covers-append i before _).0 h) [
      | inl b ↦ inl ((Covers-append i before _).1 (inl b))
      | inr t ↦ elim t [
        | inl o ↦ elim (out i o) [
          | inl m ↦ inl ((Covers-append i before _).1 (inr ((Covers-append i mid after).1 (inl m))))
          | inr m ↦ inr m
        ]
        | inr o ↦ inl ((Covers-append i before _).1 (inr ((Covers-append i mid after).1 (inr o))))
      ]
    ];
    complete = λ i. elim [
      | inl h ↦ elim ((Covers-append i before _).0 h) [
        | inl b ↦ (Covers-append i before _).1 (inl b)
        | inr t ↦ elim ((Covers-append i mid after).0 t) [
          | inl m ↦ (Covers-append i before _).1 (inr (inl (into i m)))
          | inr o ↦ (Covers-append i before _).1 (inr (inr o))
        ]
      ]
      | inr w ↦ (Covers-append i before _).1 (inr (inl (omega arith)))
    ];
    starts = λ w h aw.
        let s = (Starts-append w before (mid ++ after)).0 h in
        (Starts-append w before _).1 (s.0, (omega arith, ((Starts-append w mid after).0 s.1).1));
    filled = append-filled before n after;
  }

  -- What the nodes in the middle cover, when there is one.
  module _ (p q a c : ℕ) (m : BufferString) (ms front : BufferStringList) (up : BufferString)
      (snoc : m ∷ ms ≡ front ++ (up ∷ [])) (in_mid : Pieces f p (m ∷ ms) q)
      (touches : Touches a c (m ∷ ms)) where
    pub last_piece : LastPiece f m.first front up q
    last_piece =
        Pieces-LastPiece f m.first front up q
          (subst (λ l. Pieces f m.first l q) snoc (omega arith, in_mid.1, in_mid.2))

    pub up-le : up.first ≤ c
    up-le = Touches-last a c front up (subst (Touches a c) snoc touches)

    to_end : Pieces f m.first (m ∷ ms) (suc up.second)
    to_end =
        subst (λ l. Pieces f m.first l (suc up.second)) (sym snoc)
          (Pieces-append f m.first last_piece.u (suc up.second) front _ last_piece.in_front
            (last_piece.behind, last_piece.is_piece, omega arith))

    pub mid_into : (i : ℕ) → Covers i (m ∷ ms) → Within (min m.first a) (max up.second c) i
    mid_into i h = omega (arith, Covers-bounds f i m.first (suc up.second) (m ∷ ms) to_end h)

    pub mid_out :
        (i : ℕ) → Within (min m.first a) (max up.second c) i → Covers i (m ∷ ms) ⊎ Within a c i
    mid_out i h = elim (dec_lt i a) [
      | yes left ↦ inl (inl (omega arith))
      | no right ↦ elim (dec_lt i c) [
        | yes inside ↦ inr (omega arith)
        | no beyond ↦ inl (
            subst (Covers i) (sym snoc)
              (Covers-last i front up (omega (arith, up-le)) (omega (arith, up-le))))
      ]
    ]
