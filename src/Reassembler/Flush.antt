-- ===== src/Reassembler/Flush.antt =====
-- The end of `push_substring` of libsponge/stream_reassembler.cc: the front node, if it begins at
-- the top, goes to the output as far as it fits.
use cs144_sponge.Prelude.{
  ℕ, suc, ◌+◌, ◌-◌, ◌^◌, ◌≤◌, ◌<◌, ◌≡◌, ◌≢◌, refl, sym, ap, subst, ◌∙◌, inl, inr, [], ◌∷◌, false,
  arith, length, dec_lt, ℕ_discrete, append-nil,
}
use cs144_sponge.ByteStream
use cs144_sponge.ByteStream.Queue.{contents, remaining_capacity_lem}
use cs144_sponge.BufferString.{BufferString, BufferStringList}
use cs144_sponge.BufferString.Pieces.{
  Covers, Starts, Pieces, Pieces-le, Pieces-mono, Covers-bounds, piece, piece-IsPiece,
}
use cs144_sponge.BufferString.Pop.{pop_whole, pop_part, length-target, top_index-cons}
use cs144_sponge.Reassembler.{StreamReassembler, flush}
use cs144_sponge.Reassembler.Stream.{window_end, IsAssembly, Flushes, deliver-Delivers}

module _ (f : ℕ → ℕ) (r : StreamReassembler) (v : IsAssembly f r) (x : BufferString)
    (xs : BufferStringList) (e : r.buffer_list ≡ x ∷ xs) where
  pieces : Pieces f r.top_pointer (x ∷ xs) (2 ^ 64)
  pieces = subst (λ l. Pieces f r.top_pointer l (2 ^ 64)) e v.pieces

  x_small : x.second < 2 ^ 64
  x_small = omega (arith, Pieces-le f (suc x.second) (2 ^ 64) xs pieces.2)

  starts : Starts (suc (window_end r)) (x ∷ xs)
  starts = subst (Starts (suc (window_end r))) e v.starts

  Flushes-wait : x.first ≢ r.top_pointer → Flushes f r
  unfolding flush
  Flushes-wait h = record {
    result = r;
    returns = ground (arith, e, top_index-cons x xs);
    assembly = v;
    forward = omega arith;
    delivered =
        let z : r.top_pointer - r.top_pointer ≡ 0 = omega arith in rw z (sym (append-nil _));
    sound = λ i c. c;
    complete = λ i c. inr c;
    from_list = λ i w. absurd (omega arith);
    settled = inr (λ c.
        let k =
          Covers-bounds f r.top_pointer (suc r.top_pointer) (2 ^ 64) (x ∷ xs)
            (omega (arith, pieces.0), pieces.1, pieces.2) (subst (Covers r.top_pointer) e c) in
        absurd (omega arith));
    capacity_kept = refl;
    read_kept = refl;
  }

  Flushes-whole : x.first ≡ r.top_pointer → x.second ≤ window_end r → Flushes f r
  unfolding flush
  Flushes-whole h k =
      let d = deliver-Delivers f r x xs v pieces.1 h k x_small in
      let p = pop_whole (ByteStream.remaining_capacity r.output) x xs (
        omega (
          arith,
          length-target f x pieces.1,
          remaining_capacity_lem v.output_valid,
          v.same_capacity,
        )) in
      record {
        result = d.result;
        returns = ground (arith, e, p, top_index-cons x xs, d.returns);
        assembly = record {
          output_valid = d.output_valid;
          same_capacity = d.same_capacity;
          pieces =
              rw (d.kept, d.top)
                (Pieces-mono f (suc x.second) x.second (2 ^ 64) xs (omega arith) pieces.2);
          starts = rw (d.kept, d.window_kept) starts.1;
        };
        forward = omega (arith, d.top, pieces.1.ordered);
        delivered = d.delivered;
        sound = λ i c. subst (Covers i) (sym e) (inr (subst (Covers i) d.kept c));
        complete = λ i c. elim (subst (Covers i) e c) [
          | inl t ↦ inl (omega (arith, d.top))
          | inr t ↦ inr (subst (Covers i) (sym d.kept) t)
        ];
        from_list = λ i w. subst (Covers i) (sym e) (inl (omega (arith, d.top)));
        settled = inr (λ c.
            let b =
              Covers-bounds f d.result.top_pointer (suc x.second) (2 ^ 64) xs pieces.2
                (subst (Covers d.result.top_pointer) d.kept c) in
            absurd (omega (arith, d.top)));
        capacity_kept = d.capacity_kept;
        read_kept = d.read_kept;
      }

-- A node that does not fit is the only one: what fits of it is put out, and the rest stays.
Flushes-part :
    (f : ℕ → ℕ) (r : StreamReassembler)
    → IsAssembly f r
    → (x : BufferString) → r.buffer_list ≡ x ∷ []
    → x.first ≡ r.top_pointer
    → window_end r < x.second
    → Flushes f r
unfolding flush piece
Flushes-part f r v x e h k =
    let p = pieces f r v x [] e in
    let s = x_small f r v x [] e in
    let n = ByteStream.remaining_capacity r.output in
    let m : n ≡ r.capacity - length (contents r.output) =
      remaining_capacity_lem v.output_valid
      ∙ ap (λ c. c - length (contents r.output)) (sym v.same_capacity) in
    let rest = piece f (x.first + n) x.second x.is_eof in
    let d =
      deliver-Delivers f r (piece f x.first (x.first + n) false) (rest ∷ []) v
        (piece-IsPiece f x.first (x.first + n) false (omega arith)) h (omega arith) (omega arith) in
    record {
      result = d.result;
      returns =
          ground (arith, e, pop_part f n x p.1 s (omega arith), top_index-cons x [], d.returns);
      assembly = record {
        output_valid = d.output_valid;
        same_capacity = d.same_capacity;
        pieces = rw (d.kept, d.top) (omega arith, piece-IsPiece f _ _ _ (omega arith), p.2);
        starts = rw (d.kept, d.window_kept) (omega arith, tt);
      };
      forward = omega (arith, d.top);
      delivered = d.delivered;
      sound = λ i c.
          subst (Covers i) (sym e)
            (elim (subst (Covers i) d.kept c) [ inl t ↦ inl (omega arith) | inr t ↦ absurd t ]);
      complete = λ i c. elim (subst (Covers i) e c) [
        | inl t ↦ elim (dec_lt i (x.first + n)) [
          | yes a ↦ inl (omega (arith, d.top))
          | no a ↦ inr (subst (Covers i) (sym d.kept) (inl (omega arith)))
        ]
        | inr t ↦ absurd t
      ];
      from_list = λ i w. subst (Covers i) (sym e) (inl (omega (arith, d.top)));
      settled = inl (d.window_kept ∙ omega (arith, d.top));
      capacity_kept = d.capacity_kept;
      read_kept = d.read_kept;
    }

-- On an assembly that holds a node, the end of `push_substring` returns, puts out the bytes that
-- follow in order as far as they fit, and loses none.
pub flush-Flushes :
    (f : ℕ → ℕ) (r : StreamReassembler)
    → IsAssembly f r
    → (x : BufferString) (xs : BufferStringList) → r.buffer_list ≡ x ∷ xs
    → Flushes f r
flush-Flushes f r v x xs e = elim (ℕ_discrete x.first r.top_pointer) [
  | no h ↦ Flushes-wait f r v x xs e h
  | yes h ↦ elim (dec_lt (window_end r) x.second) [
    | no k ↦ Flushes-whole f r v x xs e h (omega arith)
    | yes k ↦ only xs e h k
  ]
]
  where
    only :
        (ys : BufferStringList)
        → r.buffer_list ≡ x ∷ ys
        → x.first ≡ r.top_pointer
        → window_end r < x.second
        → Flushes f r
    only [] e h k = Flushes-part f r v x e h k
    only (y ∷ ys) e h k =
        absurd (omega (arith, (pieces f r v x (y ∷ ys) e).2.0, (starts f r v x (y ∷ ys) e).1.0))
