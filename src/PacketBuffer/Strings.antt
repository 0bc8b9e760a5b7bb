-- ===== src/PacketBuffer/Strings.antt =====
-- The buffers of libsponge/util/buffer.cc seen as the bytes that they hold.
use cs144_sponge.Prelude.{
  ℕ, ◌+◌, ◌-◌, ◌^◌, ◌≤◌, ◌<◌, ◌≡◌, ◌≢◌, ◌⊎◌, inl, inr, subst, refl, sym, ap, ◌∙◌, List, [], ◌∷◌,
  ◌++◌, Option, none, some, arith, u64, length, drop, length-drop, length-append, drop-drop,
  drop-append, drop-nil, drop_of_le, ok, throws, out_of_range, dec_lt, ℕ_discrete,
}
use cs144_sponge.PacketBuffer.{
  Buffer, BufferList, str, str_from, remove_prefix, release, concatenate, remove_list_prefix,
}

-- The offset stands inside the string, of a size that a `size_t` counts.
abbrev pub Fits : Option (List ℕ) → ℕ → Type 0
Fits none offset = Unit {0}
Fits (some s) offset = (offset ≤ length s) × (length s < 2 ^ 64)

pub record IsBuffer (b : Buffer) : Type 0 where
  pub fits : Fits b.storage b.starting_offset

abbrev pub AllBuffers : BufferList → Type 0
AllBuffers [] = Unit {0}
AllBuffers (b ∷ bs) = IsBuffer b × AllBuffers bs

-- What removing bytes leaves of a buffer that holds them.
pub record Removes (b : Buffer) (n : ℕ) : Type 0 where
  pub rest : Buffer
  pub returns : remove_prefix b n ≡ ok tt rest
  pub left : str rest ≡ drop n (str b)
  pub valid : IsBuffer rest

release_whole :
    (s : List ℕ) (p : ℕ)
    → p ≡ length s
    → release (some s) p ≡ record { storage = none; starting_offset = p }
unfolding release
release_whole s p h = ground arith

release-some :
    (s : List ℕ) (p : ℕ)
    → p < length s
    → release (some s) p ≡ record { storage = some s; starting_offset = p }
unfolding release
release-some s p h = ground arith

abbrev Leaves : List ℕ → Buffer → Type 0
Leaves bytes b = (str b ≡ bytes) × IsBuffer b

release-Leaves :
    (o : Option (List ℕ)) (p n : ℕ)
    → Fits o p
    → n ≤ length (str_from o p)
    → Leaves (drop n (str_from o p)) (release o (u64 (p + n)))
unfolding release str
release-Leaves none p n v h = (sym (drop-nil ℕ n), record { fits = tt })
release-Leaves (some s) p n v h =
    let l = length-drop p s in
    let e : u64 (p + n) ≡ p + n = omega (arith, l) in
    let d = drop-drop n p s in
    elim (ℕ_discrete (p + n) (length s)) [
      | yes k ↦
          subst (Leaves (drop n (drop p s))) (sym (release_whole s (u64 (p + n)) (e ∙ k)))
            (sym (d ∙ drop_of_le (p + n) s (omega arith)), record { fits = tt })
      | no k ↦
          subst (Leaves (drop n (drop p s))) (sym (release-some s (u64 (p + n)) (omega (arith, l))))
            (ap (λ m. drop m s) e ∙ sym d, record { fits = (omega (arith, l), v.1) })
    ]

-- Removing what a buffer holds leaves the rest of its bytes.
pub remove_prefix-Removes : (b : Buffer) (n : ℕ) → IsBuffer b → n ≤ length (str b) → Removes b n
unfolding remove_prefix str
remove_prefix-Removes b n v h =
    let r = release-Leaves b.storage b.starting_offset n v.fits h in
    record {
      rest = release b.storage (u64 (b.starting_offset + n));
      returns = ground arith;
      left = r.0;
      valid = r.1;
    }

-- What removing bytes leaves of a list of buffers: the rest of the bytes, or nothing and an
-- exception where there are too few.
abbrev pub Cuts : BufferList → ℕ → Type 0
Cuts bs n =
    ((n ≤ length (concatenate bs))
      × (rest : BufferList) × (remove_list_prefix bs n ≡ ok tt rest)
      × (concatenate rest ≡ drop n (concatenate bs))
      × AllBuffers rest)
    ⊎ ((length (concatenate bs) < n) × (remove_list_prefix bs n ≡ throws out_of_range []))

list_nil : (n : ℕ) → n ≡ 0 → remove_list_prefix [] n ≡ ok tt []
unfolding remove_list_prefix
list_nil n h = ground arith

list_empty : (n : ℕ) → n ≢ 0 → (0 < n) × (remove_list_prefix [] n ≡ throws out_of_range [])
unfolding remove_list_prefix
list_empty n h = (omega arith, ground arith)

list_zero : (b : Buffer) (bs : BufferList) → remove_list_prefix (b ∷ bs) 0 ≡ ok tt (b ∷ bs)
unfolding remove_list_prefix
list_zero b bs = refl

list_inside :
    (b : Buffer) (bs : BufferList) (n : ℕ) (c : Buffer)
    → n ≢ 0
    → n < length (str b)
    → remove_prefix b n ≡ ok tt c
    → remove_list_prefix (b ∷ bs) n ≡ ok tt (c ∷ bs)
unfolding remove_list_prefix
list_inside b bs n c z h e = ground arith

list_past :
    (b : Buffer) (bs : BufferList) (n : ℕ)
    → n ≢ 0
    → length (str b) ≤ n
    → remove_list_prefix (b ∷ bs) n ≡ remove_list_prefix bs (n - length (str b))
unfolding remove_list_prefix
list_past b bs n z h = ground arith

drop_past : (n : ℕ) (xs ys : List ℕ) → length xs ≤ n → drop n (xs ++ ys) ≡ drop (n - length xs) ys
drop_past n xs ys h =
    drop-append n xs ys ∙ ap (λ l. l ++ drop (n - length xs) ys) (drop_of_le n xs h)

drop_inside : (n : ℕ) (xs ys : List ℕ) → n ≤ length xs → drop n (xs ++ ys) ≡ drop n xs ++ ys
drop_inside n xs ys h =
    let e : n - length xs ≡ 0 = omega arith in
    drop-append n xs ys ∙ ap (λ m. drop n xs ++ drop m ys) e

Cuts-past :
    (b : Buffer) (bs : BufferList) (n : ℕ)
    → n ≢ 0
    → length (str b) ≤ n
    → Cuts bs (n - length (str b))
    → Cuts (b ∷ bs) n
Cuts-past b bs n z h (inl (le, rest, e, d, v)) = inl (
  omega (arith, length-append (str b) (concatenate bs)),
  rest,
  list_past b bs n z h ∙ e,
  d ∙ sym (drop_past n (str b) (concatenate bs) h),
  v,
)
Cuts-past b bs n z h (inr (lt, e)) =
    inr (omega (arith, length-append (str b) (concatenate bs)), list_past b bs n z h ∙ e)

-- Removing bytes from a list of buffers is removing them from its bytes.
pub remove_list_prefix-Cuts : (bs : BufferList) (n : ℕ) → AllBuffers bs → Cuts bs n
remove_list_prefix-Cuts [] n v = elim (ℕ_discrete n 0) [
  | yes z ↦ inl (omega arith, [], list_nil n z, sym (drop-nil ℕ n), tt)
  | no z ↦ inr (list_empty n z)
]
remove_list_prefix-Cuts (b ∷ bs) n v = elim (ℕ_discrete n 0) [
  | yes z ↦ rw z (inl (omega arith, b ∷ bs, list_zero b bs, refl, v))
  | no z ↦ elim (dec_lt n (length (str b))) [
    | yes h ↦
        let r = remove_prefix-Removes b n v.0 (omega arith) in
        inl (
          omega (arith, length-append (str b) (concatenate bs)),
          r.rest ∷ bs,
          list_inside b bs n r.rest z h r.returns,
          ap (λ l. l ++ concatenate bs) r.left
              ∙ sym (drop_inside n (str b) (concatenate bs) (omega arith)),
          (r.valid, v.1),
        )
    | no h ↦ Cuts-past b bs n z (omega arith) (remove_list_prefix-Cuts bs (n - length (str b)) v.1)
  ]
]
