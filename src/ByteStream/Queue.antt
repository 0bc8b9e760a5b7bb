-- ===== src/ByteStream/Queue.antt =====
-- The stream of libsponge/byte_stream.cc as a bounded queue of bytes.
use cs144_sponge.Prelude.{
  ℕ, ◌+◌, ◌-◌, ◌^◌, ◌≤◌, ◌<◌, ◌≡◌, refl, sym, ap, ◌∙◌, List, [], ◌∷◌, ◌++◌, arith, min, u64, true,
  length, take, drop, length-append, length-take, length-drop, append-nil, take_of_le, take-nil, ok,
  throws, out_of_range, state_of,
}
use cs144_sponge.StreamBuffer.{of_string}
use cs144_sponge.StreamBuffer.Bytes.{
  bytes, AllValid, size_all-length, peek_output_lem, remove_front_lem, remove_front_throws,
  bytes-append, AllValid-append, of_string_lem,
}
use cs144_sponge.ByteStream.{
  ByteStream, buffer_size, remaining_capacity, accepted, store, write, read, pop_output, init,
  end_input, set_error, peek,
}

-- The bytes that wait to be read.
abbrev pub contents : ByteStream → List ℕ
contents s = bytes s.buffers

pub record IsValid (s : ByteStream) : Type 0 where
  pub buffers_valid : AllValid s.buffers
  pub within : length (contents s) ≤ s.capacity
  pub small : s.capacity < 2 ^ 64
  pub counted : s.bytes_written ≡ u64 (s.bytes_read + length (contents s))
  pub read_small : s.bytes_read < 2 ^ 64

-- A new stream is valid and empty.
pub init-IsValid : (capacity : ℕ) → capacity < 2 ^ 64 → IsValid (init capacity)
unfolding init
init-IsValid capacity h = omega arith

-- A new stream holds nothing and keeps its capacity.
pub init_lem :
    (capacity : ℕ)
    → (contents (init capacity) ≡ [])
      × ((init capacity).capacity ≡ capacity)
      × ((init capacity).bytes_read ≡ 0)
unfolding init
init_lem capacity = (refl, refl, refl)

pub buffer_size-length : {s : ByteStream} → IsValid s → buffer_size s ≡ length (contents s)
unfolding buffer_size
buffer_size-length {s} v = size_all-length s.buffers v.buffers_valid (omega arith)

pub remaining_capacity_lem :
    {s : ByteStream} → IsValid s → remaining_capacity s ≡ s.capacity - length (contents s)
unfolding remaining_capacity
remaining_capacity_lem {s} v =
    omega (arith, size_all-length s.buffers v.buffers_valid (omega arith))

-- What is taken is what fits.
pub accepted-min :
    {s : ByteStream} (str : List ℕ)
    → IsValid s
    → accepted s str ≡ min (length str) (s.capacity - length (contents s))
unfolding accepted
accepted-min {s} str v = ground (arith, remaining_capacity_lem v)

-- What `write` leaves: the bytes that fit, behind those that wait.
pub record Written (s : ByteStream) (str : List ℕ) (s' : ByteStream) : Type 0 where
  pub queued : contents s' ≡ contents s ++ take (accepted s str) str
  pub valid : IsValid s'
  pub capacity_kept : s'.capacity ≡ s.capacity
  pub read_kept : s'.bytes_read ≡ s.bytes_read
  pub end_kept : s'.is_input_end ≡ s.is_input_end

store-Written : {s : ByteStream} (str : List ℕ) → IsValid s → Written s str (store s str)
unfolding store
store-Written {s} str v =
    let n = accepted s str in
    let e : length (take n str) ≡ n = omega (arith, length-take n str, accepted-min str v) in
    let new = of_string_lem (take n str) (omega (arith, accepted-min str v)) in
    let q : bytes (s.buffers ++ (of_string (take n str) ∷ [])) ≡ contents s ++ take n str =
      bytes-append s.buffers _ ∙ ap (◌++◌ (contents s)) new.1 in
    let l : length (bytes (s.buffers ++ (of_string (take n str) ∷ []))) ≡ length (contents s) + n =
      omega (arith, ap length q, length-append (contents s) (take n str)) in
    record {
      queued = q;
      valid = record {
        buffers_valid = AllValid-append s.buffers _ v.buffers_valid new.0;
        within = omega (arith, accepted-min str v);
        small = v.small;
        counted = omega arith;
        read_small = v.read_small;
      };
      capacity_kept = refl;
      read_kept = refl;
      end_kept = refl;
    }

-- `write` returns how many bytes fit and appends exactly those, on a valid stream.
pub write-Written :
    {s : ByteStream} (str : List ℕ)
    → IsValid s
    → ((write s str).0 ≡ min (length str) (s.capacity - length (contents s)))
      × Written s str (write s str).1
unfolding write
write-Written {s} [] v = (
  omega arith,
  record {
    queued = sym (rw (take-nil ℕ (accepted s [])) (append-nil _));
    valid = v;
    capacity_kept = refl;
    read_kept = refl;
    end_kept = refl;
  },
)
write-Written (c ∷ str) v = (accepted-min (c ∷ str) v, store-Written (c ∷ str) v)

-- Reading no more than waits gives the oldest bytes, removes them and counts them.
pub record Reads (s : ByteStream) (n : ℕ) : Type 0 where
  pub rest : ByteStream
  pub returns : read s n ≡ ok (take n (contents s)) rest
  pub left : contents rest ≡ drop n (contents s)
  pub counted : rest.bytes_read ≡ u64 (s.bytes_read + n)
  pub valid : IsValid rest
  pub written_kept : rest.bytes_written ≡ s.bytes_written
  pub capacity_kept : rest.capacity ≡ s.capacity
  pub end_kept : rest.is_input_end ≡ s.is_input_end

-- Reading no more than what waits gives the front of the stream, in order, and leaves the rest.
pub read-Reads : {s : ByteStream} (n : ℕ) → IsValid s → n ≤ length (contents s) → Reads s n
unfolding read
read-Reads {s} n v h =
    let (bs, e, d, w) = remove_front_lem n s.buffers v.buffers_valid h in
    let p = peek_output_lem n s.buffers v.buffers_valid (omega arith) in
    let t : length (take n (contents s)) ≡ n = omega (arith, length-take n (contents s)) in
    let l : length (bytes bs) ≡ length (contents s) - n =
      omega (arith, ap length d, length-drop n (contents s)) in
    record {
      rest = record s { buffers = bs; bytes_read = u64 (s.bytes_read + n) };
      returns = ground (arith, p, e, t);
      left = d;
      counted = refl;
      valid = record {
        buffers_valid = w;
        within = omega arith;
        small = v.small;
        counted = omega arith;
        read_small = omega arith;
      };
      written_kept = refl;
      capacity_kept = refl;
      end_kept = refl;
    }

-- Reading more than waits throws, after the bytes have been counted and thrown away.
pub read_throws :
    {s : ByteStream} (n : ℕ)
    → IsValid s
    → n < 2 ^ 64
    → length (contents s) < n
    → read s n
      ≡ throws out_of_range
          (record s { buffers = []; bytes_read = u64 (s.bytes_read + length (contents s)) })
unfolding read
read_throws {s} n v small h = ground (
  arith,
  peek_output_lem n s.buffers v.buffers_valid small,
  remove_front_throws n s.buffers v.buffers_valid h,
  take_of_le n (contents s) (omega arith),
)

-- `pop_output` leaves the stream that `read` leaves, and gives nothing back.
pub pop_output-read :
    {s : ByteStream} (n : ℕ)
    → IsValid s
    → n ≤ length (contents s)
    → pop_output s n ≡ ok tt (state_of (read s n))
unfolding pop_output read
pop_output-read {s} n v h =
    let (bs, e, d, w) = remove_front_lem n s.buffers v.buffers_valid h in
    let p = peek_output_lem n s.buffers v.buffers_valid (omega arith) in
    let t : length (take n (contents s)) ≡ n = omega (arith, length-take n (contents s)) in
    ground (arith, p, e, t)

-- Ending the input touches nothing but the mark.
pub end_input_lem :
    {s : ByteStream}
    → IsValid s
    → IsValid (end_input s)
      × (contents (end_input s) ≡ contents s)
      × ((end_input s).capacity ≡ s.capacity)
      × ((end_input s).bytes_read ≡ s.bytes_read)
unfolding end_input
end_input_lem v = (
  record {
    buffers_valid = v.buffers_valid;
    within = v.within;
    small = v.small;
    counted = v.counted;
    read_small = v.read_small;
  },
  refl,
  refl,
  refl,
)

pub end_input_ends : (s : ByteStream) → (end_input s).is_input_end ≡ true
unfolding end_input
end_input_ends s = refl

pub write-nil : (s : ByteStream) → write s [] ≡ (0, s)
unfolding write
write-nil s = refl

pub set_error_lem :
    {s : ByteStream}
    → IsValid s
    → IsValid (set_error s)
      × (contents (set_error s) ≡ contents s)
      × ((set_error s).is_input_end ≡ s.is_input_end)
unfolding set_error
set_error_lem v = (
  record {
    buffers_valid = v.buffers_valid;
    within = v.within;
    small = v.small;
    counted = v.counted;
    read_small = v.read_small;
  },
  refl,
  refl,
)

-- What `write` returns is what it takes.
pub take-accepted :
    (s : ByteStream) (str : List ℕ) → take (accepted s str) str ≡ take (write s str).0 str
unfolding write
take-accepted s [] = take-nil ℕ (accepted s [])
take-accepted s (c ∷ str) = refl

pub peek_lem : {s : ByteStream} (n : ℕ) → IsValid s → n < 2 ^ 64 → peek s n ≡ take n (contents s)
unfolding peek
peek_lem {s} n v h = peek_output_lem n s.buffers v.buffers_valid h
