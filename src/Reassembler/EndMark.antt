-- ===== src/Reassembler/EndMark.antt =====
-- The end mark of a string that libsponge/stream_reassembler.cc holds already is forgotten.
use cs144_sponge.Prelude.{
  ℕ, ◌+◌, ◌^◌, ◌≤◌, ◌<◌, ◌≡◌, ◌∙◌, refl, sym, ap, inl, inr, List, ◌∷◌, Bool, false, arith, length,
  take, length-take, ltb, u64, sub64, ok, Bool-cases,
}
use cs144_sponge.BufferString.{BufferString, BufferStringList, push_back, top_index}
use cs144_sponge.BufferString.Contained.{push_back_contained}
use cs144_sponge.Reassembler.{
  StreamReassembler, push_substring, accept, stored, flush, current_capacity,
}

-- Behind a gap the list is kept as it is.
stored_gap :
    (r : StreamReassembler) (x : BufferString) (xs : BufferStringList)
    → r.buffer_list ≡ x ∷ xs
    → r.top_pointer < x.first
    → stored r (ok tt (x ∷ xs)) ≡ ok tt r
unfolding stored flush top_index
stored_gap r x xs e gap =
    let kept : record r { buffer_list = x ∷ xs } ≡ r =
      ap (λ l. record r { buffer_list = l }) (sym e) in
    ground (arith, kept)

stored_contained :
    (r : StreamReassembler) (str : List ℕ) (index : ℕ) (eof : Bool) (x : BufferString)
    (xs : BufferStringList)
    → r.buffer_list ≡ x ∷ xs
    → r.top_pointer < x.first
    → x.first ≤ index
    → index + length str ≤ x.second
    → x.second < 2 ^ 64
    → stored r (push_back r.buffer_list str index eof) ≡ ok tt r
stored_contained r str index eof x xs e gap a c s =
    ap (λ l. stored r (push_back l str index eof)) e
    ∙ ap (stored r) (push_back_contained x xs str index eof a c s)
    ∙ stored_gap r x xs e gap

accept_contained :
    (r : StreamReassembler) (str : List ℕ) (index : ℕ) (eof : Bool) (x : BufferString)
    (xs : BufferStringList)
    → r.buffer_list ≡ x ∷ xs
    → r.top_pointer < x.first
    → x.first ≤ index
    → index + length str ≤ x.second
    → x.second < 2 ^ 64
    → accept r str index eof ≡ ok tt r
unfolding accept
accept_contained r str index eof x xs e gap a c s =
    let short : length (take (current_capacity r) str) ≤ length str =
      omega (arith, length-take (current_capacity r) str) in
    let cut : index + length (take (current_capacity r) str) ≤ x.second = omega (arith, short) in
    elim (Bool-cases (ltb (current_capacity r) (u64 (sub64 index r.top_pointer + 1)))) [
      | inl k ↦ rw k refl
      | inr k ↦ elim (Bool-cases (ltb (current_capacity r) (length str))) [
        | inl l ↦
            rw (k, l)
              (stored_contained r (take (current_capacity r) str) index false x xs e gap a cut s)
        | inr l ↦ rw (k, l) (stored_contained r str index eof x xs e gap a c s)
      ]
    ]

-- While a gap stands before the first node, a string that the node holds leaves the reassembler as it
-- is, whether the end mark comes with the string or not.
pub push_substring_end_lost :
    (r : StreamReassembler) (str : List ℕ) (index : ℕ) (eof : Bool) (x : BufferString)
    (xs : BufferStringList)
    → r.buffer_list ≡ x ∷ xs
    → r.top_pointer < x.first
    → x.first ≤ index
    → index + length str ≤ x.second
    → x.second < 2 ^ 64
    → push_substring r str index eof ≡ ok tt r
unfolding push_substring
push_substring_end_lost r str index eof x xs e gap a c s =
    let inside : ltb index r.top_pointer ≡ false = ground arith in
    rw inside (accept_contained r str index eof x xs e gap a c s)
