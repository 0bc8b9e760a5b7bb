-- ===== src/Checksum/Sum.antt =====
-- `InternetChecksum::add` of libsponge/util/util.cc as a sum of words.
use cs144_sponge.Prelude.{
  ℕ, suc, ◌+◌, ◌*◌, ◌^◌, ◌≤◌, ◌<◌, ◌≡◌, ◌∙◌, refl, ap, List, [], ◌∷◌, ◌++◌, Bool, true, false, not,
  arith, u32, length, replicate, zero,
}
use cs144_sponge.Checksum.{InternetChecksum, add, byte_value}

abbrev pub AllBytes : List ℕ → Type 0
AllBytes [] = Unit {0}
AllBytes (b ∷ bs) = (b < 2 ^ 8) × AllBytes bs

pub AllBytes-append : (xs ys : List ℕ) → AllBytes xs → AllBytes ys → AllBytes (xs ++ ys)
AllBytes-append [] ys v w = w
AllBytes-append (x ∷ xs) ys v w = (v.0, AllBytes-append xs ys v.1 w)

pub AllBytes-zeros : (n : ℕ) → AllBytes (replicate n 0)
AllBytes-zeros zero = tt
AllBytes-zeros (suc n) = (omega arith, AllBytes-zeros n)

-- The sum of the words of a string, with no bound on it.
abbrev pub words_sum : Bool → List ℕ → ℕ
words_sum parity [] = 0
words_sum parity (b ∷ bs) = byte_value parity b + words_sum (not parity) bs

abbrev pub parity_after : Bool → List ℕ → Bool
parity_after parity [] = parity
parity_after parity (b ∷ bs) = parity_after (not parity) bs

-- Adding strings one by one is adding them in one piece.
pub add-append : (c : InternetChecksum) (xs ys : List ℕ) → add c (xs ++ ys) ≡ add (add c xs) ys
unfolding add
add-append c [] ys = refl
add-append c (x ∷ xs) ys =
    add-append (record { sum = u32 (c.sum + byte_value c.parity x); parity = not c.parity }) xs ys

pub words_sum-append :
    (parity : Bool) (xs ys : List ℕ)
    → words_sum parity (xs ++ ys) ≡ words_sum parity xs + words_sum (parity_after parity xs) ys
words_sum-append parity [] ys = omega arith
words_sum-append parity (x ∷ xs) ys = omega (arith, words_sum-append (not parity) xs ys)

pub words_sum-le :
    (parity : Bool) (xs : List ℕ) → AllBytes xs → words_sum parity xs ≤ 2 ^ 16 * length xs
words_sum-le parity [] v = omega arith
words_sum-le true (x ∷ xs) v = omega (arith, words_sum-le false xs v.1)
words_sum-le false (x ∷ xs) v = omega (arith, words_sum-le true xs v.1)

pub add_lem :
    (s : ℕ) (parity : Bool) (xs : List ℕ)
    → s + words_sum parity xs < 2 ^ 32
    → add (record { sum = s; parity = parity }) xs
      ≡ record { sum = s + words_sum parity xs; parity = parity_after parity xs }
unfolding add
add_lem s parity [] h = ground arith
add_lem s parity (x ∷ xs) h =
    let e : u32 (s + byte_value parity x) ≡ s + byte_value parity x = omega arith in
    ap (λ t. add (record { sum = t; parity = not parity }) xs) e
    ∙ add_lem (s + byte_value parity x) (not parity) xs (omega arith)
    ∙ ap (λ t. record { sum = t; parity = parity_after (not parity) xs }) (omega arith)
