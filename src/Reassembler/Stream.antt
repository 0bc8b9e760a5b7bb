-- ===== src/Reassembler/Stream.antt =====
-- What libsponge/stream_reassembler.cc holds of a stream, and what it has put out.
use cs144_sponge.Prelude.{
  ℕ, suc, ◌+◌, ◌-◌, ◌^◌, ◌≤◌, ◌<◌, ◌≡◌, refl, sym, ap, ◌∙◌, ◌⊎◌, inl, inr, ◌++◌, arith, u64, length,
  length-append, ok, Bool-cases, some, take_of_le,
}
use cs144_sponge.ByteStream
use cs144_sponge.ByteStream.{ByteStream}
use cs144_sponge.ByteStream.Queue
use cs144_sponge.ByteStream.Queue.{
  contents, write-Written, Written, remaining_capacity_lem, buffer_size-length, accepted-min,
  end_input_lem,
}
use cs144_sponge.BufferString.{BufferString, BufferStringList}
use cs144_sponge.BufferString.Pieces.{Covers, Starts, Pieces, IsPiece, between}
use cs144_sponge.BufferString.Pop.{length-target}
use cs144_sponge.BufferString.Insert.{Within}
use cs144_sponge.Reassembler.{StreamReassembler, current_capacity, flush, deliver, take_piece}

-- The first position that does not fit the window.
abbrev pub window_end : StreamReassembler → ℕ
window_end r = r.top_pointer + (r.capacity - length (contents r.output))

module _ (f : ℕ → ℕ) where
  -- The nodes hold bytes of the stream `f` from the top on, begin inside the window, and the
  -- output is a valid stream.
  pub record IsAssembly (r : StreamReassembler) : Type 0 where
    pub output_valid : Queue.IsValid r.output
    pub same_capacity : r.capacity ≡ r.output.capacity
    pub pieces : Pieces f r.top_pointer r.buffer_list (2 ^ 64)
    pub starts : Starts (suc (window_end r)) r.buffer_list

  pub current_capacity_lem :
      {r : StreamReassembler}
      → IsAssembly r
      → current_capacity r ≡ r.capacity - length (contents r.output)
  unfolding current_capacity
  current_capacity_lem {r} v =
      omega (arith, buffer_size-length v.output_valid, v.output_valid.within, v.output_valid.small)

  -- The output after a piece that fits.
  record Taken (s : ByteStream) (x : BufferString) : Type 0 where
    valid : Queue.IsValid (take_piece s x)
    queued : contents (take_piece s x) ≡ contents s ++ x.target
    capacity_kept : (take_piece s x).capacity ≡ s.capacity
    read_kept : (take_piece s x).bytes_read ≡ s.bytes_read

  take_piece-Taken :
      (s : ByteStream) (x : BufferString)
      → Queue.IsValid s
      → length x.target ≤ s.capacity - length (contents s)
      → Taken s x
  unfolding take_piece
  take_piece-Taken s x v h =
      let w = (write-Written x.target v).1 in
      let q : contents (ByteStream.write s x.target).1 ≡ contents s ++ x.target =
        w.queued
        ∙ ap (◌++◌ (contents s)) (
            take_of_le (ByteStream.accepted s x.target) x.target
              (omega (arith, accepted-min x.target v))) in
      let e = end_input_lem w.valid in
      elim (Bool-cases x.is_eof) [
        | inl t ↦ record {
          valid = rw (take_piece, t) e.0;
          queued = rw (take_piece, t) (e.1 ∙ q);
          capacity_kept = rw (take_piece, t) (e.2 ∙ w.capacity_kept);
          read_kept = rw (take_piece, t) (e.3 ∙ w.read_kept);
        }
        | inr t ↦ record {
          valid = rw (take_piece, t) w.valid;
          queued = rw (take_piece, t) q;
          capacity_kept = rw (take_piece, t) w.capacity_kept;
          read_kept = rw (take_piece, t) w.read_kept;
        }
      ]

  -- What `flush` leaves of an assembly: the bytes from the old top to the new one are put out,
  -- and nothing is lost.
  pub record Flushes (r : StreamReassembler) : Type 0 where
    pub result : StreamReassembler
    pub returns : flush r ≡ ok tt result
    pub assembly : IsAssembly result
    pub forward : r.top_pointer ≤ result.top_pointer
    pub delivered :
        contents result.output ≡ contents r.output ++ between f r.top_pointer result.top_pointer
    pub sound : (i : ℕ) → Covers i result.buffer_list → Covers i r.buffer_list
    pub complete :
        (i : ℕ) → Covers i r.buffer_list → (i < result.top_pointer) ⊎ Covers i result.buffer_list
    pub from_list : (i : ℕ) → Within r.top_pointer result.top_pointer i → Covers i r.buffer_list
    pub settled :
        (window_end result ≡ result.top_pointer)
        ⊎ (Covers result.top_pointer result.buffer_list → ⊥)
    pub capacity_kept : result.capacity ≡ r.capacity
    pub read_kept : result.output.bytes_read ≡ r.output.bytes_read

  -- Putting out one piece that begins at the top and fits.
  pub record Delivers (r : StreamReassembler) (x : BufferString) (list : BufferStringList)
      : Type 0 where
    pub result : StreamReassembler
    pub returns : deliver r (some x, list) ≡ ok tt result
    pub top : result.top_pointer ≡ x.second
    pub output_valid : Queue.IsValid result.output
    pub same_capacity : result.capacity ≡ result.output.capacity
    pub capacity_kept : result.capacity ≡ r.capacity
    pub read_kept : result.output.bytes_read ≡ r.output.bytes_read
    pub delivered :
        contents result.output ≡ contents r.output ++ between f r.top_pointer result.top_pointer
    pub kept : result.buffer_list ≡ list
    pub window_kept : window_end result ≡ window_end r

  pub deliver-Delivers :
      (r : StreamReassembler) (x : BufferString) (list : BufferStringList)
      → IsAssembly r
      → IsPiece f x
      → x.first ≡ r.top_pointer
      → x.second ≤ window_end r
      → x.second < 2 ^ 64
      → Delivers r x list
  unfolding deliver
  deliver-Delivers r x list v p e h s =
      let n = length-target f x p in
      let t = take_piece-Taken r.output x v.output_valid (omega (arith, v.same_capacity)) in
      let d = t.queued ∙ ap (◌++◌ (contents r.output)) p.holds in
      let l : length (contents (take_piece r.output x))
          ≡ length (contents r.output) + (x.second - x.first) =
        omega (arith, ap length t.queued, length-append (contents r.output) x.target) in
      let w : u64 (r.top_pointer + length x.target) ≡ x.second = omega (arith, p.ordered) in
      record {
        result = record r {
          top_pointer = u64 (r.top_pointer + length x.target);
          output = take_piece r.output x;
          buffer_list = list;
        };
        returns = refl;
        top = omega (arith, p.ordered);
        output_valid = t.valid;
        same_capacity = v.same_capacity ∙ sym t.capacity_kept;
        capacity_kept = refl;
        read_kept = t.read_kept;
        delivered = d ∙ rw w (ap (λ t. contents r.output ++ between f t x.second) e);
        kept = refl;
        window_kept = omega (arith, p.ordered);
      }
