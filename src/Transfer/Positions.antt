-- ===== src/Transfer/Positions.antt =====
-- A finite stream as a function of the position, and the pieces of it.
use cs144_sponge.Prelude.{
  ℕ, zero, suc, ◌+◌, ◌-◌, ◌≤◌, ◌≡◌, refl, sym, ap, ap₂, ◌∙◌, List, [], ◌∷◌, ◌++◌, arith, length,
  take, length-append, length-take, append_assoc, append-nil, take-append-drop, drop, dec_lt,
}
use cs144_sponge.BufferString.Pieces.{slice, between, slice-append}

-- What stands at a position, and `d` past the end.
abbrev pub at : ℕ → List ℕ → ℕ → ℕ
at d [] i = d
at d (x ∷ xs) zero = x
at d (x ∷ xs) (suc i) = at d xs i

at-append : (d c : ℕ) (xs ys : List ℕ) → at d (xs ++ (c ∷ ys)) (length xs) ≡ c
at-append d c [] ys = refl
at-append d c (x ∷ xs) ys = at-append d c xs ys

pub slice-at :
    (d : ℕ) (xs ys zs : List ℕ) → slice (at d (xs ++ (ys ++ zs))) (length xs) (length ys) ≡ ys
slice-at d xs [] zs = refl
slice-at d xs (y ∷ ys) zs =
    let e : (xs ++ (y ∷ [])) ++ (ys ++ zs) ≡ xs ++ ((y ∷ ys) ++ zs) =
      append_assoc xs (y ∷ []) (ys ++ zs) in
    let l : length (xs ++ (y ∷ [])) ≡ suc (length xs) = omega (arith, length-append xs (y ∷ [])) in
    ap₂ ◌∷◌ (at-append d y xs (ys ++ zs))
      (sym (ap₂ (λ t n. slice (at d t) n (length ys)) e l) ∙ slice-at d (xs ++ (y ∷ [])) ys zs)

-- The stream `bs` from position 1 on, as the SYN takes position 0.
abbrev pub stream_at : ℕ → List ℕ → ℕ → ℕ
stream_at d bs = at d (0 ∷ bs)

pub slice-stream_at :
    (d : ℕ) (bs before str after : List ℕ) (index : ℕ)
    → bs ≡ before ++ (str ++ after)
    → index ≡ length before + 1
    → slice (stream_at d bs) index (length str) ≡ str
slice-stream_at d bs before str after index e i =
    ap₂ (λ t n. slice (stream_at d t) n (length str)) e (omega (arith, i))
    ∙ slice-at d (0 ∷ before) str after

at_past : (d : ℕ) (xs : List ℕ) → at d xs (length xs) ≡ d
at_past d [] = refl
at_past d (x ∷ xs) = at_past d xs

cancel_front : (xs ys zs : List ℕ) → xs ++ ys ≡ xs ++ zs → ys ≡ zs
cancel_front [] ys zs h = h
cancel_front (x ∷ xs) ys zs h = cancel_front xs ys zs (cc)

head_eq : {x y : ℕ} {xs ys : List ℕ} → x ∷ xs ≡ y ∷ ys → x ≡ y
head_eq h = cc

slice_beyond :
    (d : ℕ) (bs : List ℕ) (m : ℕ)
    → slice (stream_at d bs) 1 (length bs + suc m)
      ≡ bs ++ (d ∷ slice (stream_at d bs) (2 + length bs) m)
slice_beyond d bs m =
    sym (slice-append (stream_at d bs) 1 (length bs) (suc m))
    ∙ ap₂ ◌++◌
        (ap (λ t. slice (stream_at d t) 1 (length bs)) (sym (append-nil bs))
          ∙ slice-at d (0 ∷ []) bs [])
        (ap₂ (λ n k. n ∷ slice (stream_at d bs) k m) (ap (stream_at d bs) one ∙ at_past d (0 ∷ bs))
          (omega arith))
  where
    one : 1 + length bs ≡ length {A = ℕ} (0 ∷ bs)
    one = omega arith

-- Two streams that differ only past the end of `bs` tell how far a common piece of them reaches.
pub between_bound :
    (bs outs : List ℕ) (top : ℕ)
    → outs ≡ between (stream_at 0 bs) 1 top
    → outs ≡ between (stream_at 1 bs) 1 top
    → top ≤ length bs + 1
between_bound bs outs top e f = elim (dec_lt (length bs + 1) top) [
  | no h ↦ omega arith
  | yes h ↦
      let m = top - length bs - 2 in
      let k : top - 1 ≡ length bs + suc m = omega arith in
      let split = λ (d : ℕ). ap (slice (stream_at d bs) 1) k ∙ slice_beyond d bs m in
      let z = cancel_front bs _ _ (sym (split 0) ∙ sym e ∙ f ∙ split 1) in
      absurd (omega (arith, head_eq z))
]

pub between-take :
    (d : ℕ) (bs : List ℕ) (top : ℕ)
    → top ≤ length bs + 1
    → between (stream_at d bs) 1 top ≡ take (top - 1) bs
between-take d bs top h =
    let l : length (take (top - 1) bs) ≡ top - 1 = omega (arith, length-take (top - 1) bs) in
    ap₂ (λ t n. slice (stream_at d t) 1 n) (sym (take-append-drop (top - 1) bs)) (sym l)
    ∙ slice-at d (0 ∷ []) (take (top - 1) bs) (drop (top - 1) bs)
