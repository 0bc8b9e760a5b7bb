-- ===== src/StreamBuffer/Bytes.antt =====
-- The buffers of libsponge/buffer.cc seen as the bytes that they hold.
use cs144_sponge.Prelude.{
  ℕ, ◌+◌, ◌-◌, ◌^◌, ◌≤◌, ◌<◌, ◌≡◌, refl, sym, ◌∙◌, ap, inl, inr, List, [], ◌∷◌, ◌++◌, Option, none,
  some, arith, dec_lt, ℕ_discrete, ◌≢◌, u64, sub64, tests, ltb, Bool-cases, length, take, drop,
  length-append, length-drop, append_assoc, append-nil, ok, throws, out_of_range, take-append,
  drop-append, take-nil, drop-drop, take_of_le, drop_of_le,
}
use cs144_sponge.StreamBuffer.{
  Buffer, BufferList, get_string, size, size_loop, size_all, peek_loop, peek_output, string_from,
  remove_prefix, remove_front, of_string,
}

-- The pointer stands inside a string that exists.
abbrev Fits : Option (List ℕ) → ℕ → Type 0
Fits none p = ⊥
Fits (some s) p = (p ≤ length s) × (length s < 2 ^ 64)

abbrev pub IsValid : Buffer → Type 0
IsValid b = Fits b.storage b.prefix_pointer

abbrev pub AllValid : BufferList → Type 0
AllValid [] = Unit {0}
AllValid (b ∷ bs) = IsValid b × AllValid bs

-- The bytes of a list of buffers, the oldest first.
abbrev pub bytes : BufferList → List ℕ
bytes [] = []
bytes (b ∷ bs) = get_string b ++ bytes bs

size-length_at :
    (o : Option (List ℕ)) (p : ℕ)
    → Fits o p
    → size (record { storage = o; prefix_pointer = p })
      ≡ length (get_string (record { storage = o; prefix_pointer = p }))
unfolding size get_string
size-length_at none p h = elim h [ ]
size-length_at (some s) p h = omega (arith, length-drop p s)

pub size-length : (b : Buffer) → IsValid b → size b ≡ length (get_string b)
size-length b v = size-length_at b.storage b.prefix_pointer v

size_loop-length :
    (r : ℕ) (bs : BufferList)
    → AllValid bs
    → r + length (bytes bs) < 2 ^ 64
    → size_loop r bs ≡ r + length (bytes bs)
unfolding size_loop
size_loop-length r [] v h = omega arith
size_loop-length r (b ∷ bs) v h =
    let e : u64 (r + size b) ≡ r + length (get_string b) =
      omega (arith, size-length b v.0, length-append (get_string b) (bytes bs)) in
    rw e (
      omega (
        arith,
        length-append (get_string b) (bytes bs),
        size_loop-length (r + length (get_string b)) bs v.1,
      ))

-- The size is the number of bytes.
pub size_all-length :
    (bs : BufferList) → AllValid bs → length (bytes bs) < 2 ^ 64 → size_all bs ≡ length (bytes bs)
unfolding size_all
size_all-length bs v h = omega (arith, size_loop-length 0 bs v)

peek_loop_lem :
    (str : List ℕ) (n : ℕ) (bs : BufferList)
    → AllValid bs
    → n < 2 ^ 64
    → peek_loop str n bs ≡ str ++ take n (bytes bs)
unfolding peek_loop
peek_loop_lem str n [] v h = rw (take-nil ℕ n) (sym (append-nil str))
peek_loop_lem str n (b ∷ bs) v h = elim (Bool-cases (ltb (size b) n)) [
  | inl small ↦
      let k : sub64 n (size b) ≡ n - length (get_string b) = omega (tests, size-length b v.0) in
      rw (small, k, take-append n (get_string b) (bytes bs))
        (peek_loop_lem (str ++ get_string b) (n - length (get_string b)) bs v.1 (omega arith)
          ∙ rw (take_of_le n (get_string b) (omega (tests, size-length b v.0)))
              (append_assoc str (get_string b) _))
  | inr large ↦
      let k : n - length (get_string b) ≡ 0 = ground (arith, size-length b v.0) in
      rw (large, take-append n (get_string b) (bytes bs), k) (ap (◌++◌ str) (sym (append-nil _)))
]

-- What is peeked at is the front of the bytes.
pub peek_output_lem :
    (n : ℕ) (bs : BufferList) → AllValid bs → n < 2 ^ 64 → peek_output n bs ≡ take n (bytes bs)
unfolding peek_output
peek_output_lem n bs v h = peek_loop_lem [] n bs v h

remove_prefix_lem_at :
    (o : Option (List ℕ)) (p n : ℕ)
    → Fits o p
    → n < length (string_from o p)
    → (b : Buffer) × (remove_prefix (record { storage = o; prefix_pointer = p }) n ≡ ok tt b)
      × (get_string b ≡ drop n (string_from o p))
      × IsValid b
unfolding remove_prefix get_string
remove_prefix_lem_at none p n f h = elim f [ ]
remove_prefix_lem_at (some s) p n f h = (
  record { storage = some s; prefix_pointer = p + n },
  ground (arith, length-drop p s),
  sym (drop-drop n p s),
  omega (arith, length-drop p s),
)

-- Dropping less than a buffer holds leaves the rest of its bytes.
pub remove_prefix_lem :
    (b : Buffer) (n : ℕ)
    → IsValid b
    → n < length (get_string b)
    → (b' : Buffer) × (remove_prefix b n ≡ ok tt b')
      × (get_string b' ≡ drop n (get_string b))
      × IsValid b'
unfolding get_string
remove_prefix_lem b n v h = remove_prefix_lem_at b.storage b.prefix_pointer n v h

-- What `remove_front` leaves when the deque holds enough.
abbrev pub Removes : ℕ → BufferList → Type 0
Removes n bs =
    (bs' : BufferList) × (remove_front n bs ≡ ok 0 bs')
    × (bytes bs' ≡ drop n (bytes bs))
    × AllValid bs'

remove_front_past :
    (n : ℕ) (b : Buffer) (bs : BufferList)
    → IsValid b
    → n ≢ 0
    → length (get_string b) ≤ n
    → remove_front n (b ∷ bs) ≡ remove_front (n - length (get_string b)) bs
unfolding remove_front
remove_front_past n b bs v h k = ground (arith, size-length b v)

pub remove_front-zero : (bs : BufferList) → remove_front 0 bs ≡ ok 0 bs
unfolding remove_front
remove_front-zero [] = refl
remove_front-zero (b ∷ bs) = refl

remove_front_inside :
    (n : ℕ) (b : Buffer) (bs : BufferList)
    → IsValid b
    → AllValid bs
    → n ≢ 0
    → n < length (get_string b)
    → Removes n (b ∷ bs)
unfolding remove_front
remove_front_inside n b bs v vs h k =
    let (b', e, d, v') = remove_prefix_lem b n v k in
    let z : n - length (get_string b) ≡ 0 = omega arith in
    (
      b' ∷ bs,
      ground (arith, size-length b v),
      rw (d, drop-append n (get_string b) (bytes bs), z) refl,
      (v', vs),
    )

-- Removing what the deque holds leaves the rest of its bytes.
pub remove_front_lem :
    (n : ℕ) (bs : BufferList) → AllValid bs → n ≤ length (bytes bs) → Removes n bs
remove_front_lem n [] v h = let z : n ≡ 0 = omega arith in rw z ([], remove_front-zero [], refl, tt)
remove_front_lem n (b ∷ bs) v h = elim (ℕ_discrete n 0) [
  | yes z ↦ rw z (b ∷ bs, remove_front-zero (b ∷ bs), refl, v)
  | no nz ↦ elim (dec_lt n (length (get_string b))) [
    | yes k ↦ remove_front_inside n b bs v.0 v.1 nz k
    | no k ↦
        let (bs', e, d, v') =
          remove_front_lem (n - length (get_string b)) bs v.1
            (omega (arith, length-append (get_string b) (bytes bs))) in
        (
          bs',
          remove_front_past n b bs v.0 nz (omega arith) ∙ e,
          d
              ∙ sym (
                  rw
                    (
                      drop-append n (get_string b) (bytes bs),
                      drop_of_le n (get_string b) (omega arith),
                    )
                    refl),
          v',
        )
  ]
]

-- Removing more than the deque holds empties it and throws.
pub remove_front_throws :
    (n : ℕ) (bs : BufferList)
    → AllValid bs
    → length (bytes bs) < n
    → remove_front n bs ≡ throws out_of_range []
unfolding remove_front
remove_front_throws n [] v h = ground arith
remove_front_throws n (b ∷ bs) v h = ground (
  arith,
  size-length b v.0,
  length-append (get_string b) (bytes bs),
  remove_front_throws (n - size b) bs v.1,
)

pub AllValid-append :
    (bs : BufferList) (cs : BufferList) → AllValid bs → AllValid cs → AllValid (bs ++ cs)
AllValid-append [] cs v w = w
AllValid-append (b ∷ bs) cs v w = (v.0, AllValid-append bs cs v.1 w)

pub bytes-append : (bs cs : BufferList) → bytes (bs ++ cs) ≡ bytes bs ++ bytes cs
bytes-append [] cs = refl
bytes-append (b ∷ bs) cs =
    ap (◌++◌ (get_string b)) (bytes-append bs cs) ∙ sym (append_assoc (get_string b) _ _)

-- A new buffer is valid and holds the string that it is made of.
pub of_string_lem :
    (s : List ℕ) → length s < 2 ^ 64 → AllValid (of_string s ∷ []) × (bytes (of_string s ∷ []) ≡ s)
unfolding of_string get_string
of_string_lem s h = ((omega arith, tt), append-nil s)

-- What follows in the deque is left alone when the front part holds enough.
pub remove_front-append :
    (n : ℕ) (bs cs bs' : BufferList)
    → remove_front n bs ≡ ok 0 bs'
    → remove_front n (bs ++ cs) ≡ ok 0 (bs' ++ cs)
unfolding remove_front
remove_front-append n [] cs bs' e = elim (ℕ_discrete n 0) [
  | yes z ↦ rw z (unfold remove_front in ground (arith, remove_front-zero cs))
  | no nz ↦ ground arith
]
remove_front-append n (b ∷ bs) cs bs' e = ground (arith, remove_front-append (n - size b) bs cs bs')
