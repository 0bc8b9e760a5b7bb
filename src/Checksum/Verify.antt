-- ===== src/Checksum/Verify.antt =====
-- A message that carries its own checksum, as TCP segments and IPv4 headers do.
use cs144_sponge.Prelude.{ℕ, ◌+◌, ◌/◌, ◌%◌, ◌^◌, ◌<◌, ◌≡◌, ◌∙◌, ap, List, ◌∷◌, ◌++◌, false, arith}
use cs144_sponge.Checksum.{checksum, add, value}
use cs144_sponge.Checksum.Fold.{value_lem, value-add_value}
use cs144_sponge.Checksum.Sum.{words_sum, words_sum-append, parity_after, add_lem}

-- The two bytes of a word, the high one first.
abbrev pub high : ℕ → ℕ
high w = w / 2 ^ 8

abbrev pub low : ℕ → ℕ
low w = w % 2 ^ 8

abbrev pub with_word : List ℕ → ℕ → List ℕ → List ℕ
with_word front w back = front ++ (high w ∷ low w ∷ back)

words_sum-with_word :
    (front back : List ℕ) (w : ℕ)
    → parity_after false front ≡ false
    → w < 2 ^ 16
    → words_sum false (with_word front w back) ≡ words_sum false front + words_sum false back + w
words_sum-with_word front back w even h =
    words_sum-append false front (high w ∷ low w ∷ back)
    ∙ ap (λ p. words_sum false front + words_sum p (high w ∷ low w ∷ back)) even
    ∙ omega arith

module _ (initial : ℕ) (front back : List ℕ) (even : parity_after false front ≡ false)
    (small : initial + words_sum false front + words_sum false back + 2 ^ 16 < 2 ^ 32) where
  abbrev total : ℕ
  total = initial + words_sum false front + words_sum false back

  -- The checksum of a message with the word `w` in the place of its checksum.
  value-with_word :
      (w : ℕ)
      → w < 2 ^ 16
      → value (add (checksum initial) (with_word front w back))
        ≡ value (record { sum = total + w; parity = parity_after false (with_word front w back) })
  unfolding checksum
  value-with_word w h =
      let e = words_sum-with_word front back w even h in
      ap value (add_lem initial false (with_word front w back) (omega (arith, e)))
      ∙ ap (λ n. value (record { sum = n; parity = parity_after false (with_word front w back) }))
          (omega (arith, e))

  -- The checksum of a message whose checksum field is 0, put into that field, makes the checksum
  -- of the message 0: the receiver's test passes.
  pub value-with_checksum :
      value (
        add
          (checksum initial)
          (with_word front (value (add (checksum initial) (with_word front 0 back))) back))
      ≡ 0
  value-with_checksum =
      let q = parity_after false (with_word front 0 back) in
      let c = value (add (checksum initial) (with_word front 0 back)) in
      let z : c ≡ value (record { sum = total; parity = q }) =
        value-with_word 0 (omega arith)
        ∙ ap (λ n. value (record { sum = n; parity = q })) (omega arith) in
      value-with_word c (omega (arith, z, value_lem total q))
      ∙ ap
          (λ n.
            value
              (record { sum = total + n; parity = parity_after false (with_word front c back) }))
          z
      ∙ value-add_value total q (parity_after false (with_word front c back))
