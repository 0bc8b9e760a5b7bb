-- ===== src/ByteStream/Full.antt =====
-- A write to a full stream of libsponge/byte_stream.cc leaves a buffer with no byte.
use cs144_sponge.Prelude.{
  ℕ, ◌≤◌, ◌≡◌, refl, ap, List, [], ◌∷◌, ◌++◌, false, arith, length, take, length-append,
  length-take, state_of,
}
use cs144_sponge.StreamBuffer.{BufferList, of_string}
use cs144_sponge.StreamBuffer.Bytes.{remove_front_lem, remove_front-append}
use cs144_sponge.ByteStream.{
  ByteStream, write, read, eof, end_input, remaining_capacity, accepted, store, no_buffers,
  buffer_size,
}
use cs144_sponge.ByteStream.Queue.{
  contents, IsValid, write-Written, accepted-min, remaining_capacity_lem, buffer_size-length,
}

no_buffers-append :
    (bs : BufferList) (cs : BufferList) → no_buffers cs ≡ false → no_buffers (bs ++ cs) ≡ false
no_buffers-append [] cs h = h
no_buffers-append (b ∷ bs) cs h = refl

-- A full stream that is offered another byte and then ended never reaches its end: however much of
-- what it holds is read, `eof` stays false.
pub eof-write_full :
    {s : ByteStream} (c : ℕ) (str : List ℕ) (n : ℕ)
    → IsValid s
    → remaining_capacity s ≡ 0
    → n ≤ buffer_size (write s (c ∷ str)).1
    → eof (state_of (read (end_input (write s (c ∷ str)).1) n)) ≡ false
unfolding eof read write store end_input
eof-write_full {s} c str n v full h =
    let w = (write-Written (c ∷ str) v).1 in
    let k : length (contents (write s (c ∷ str)).1) ≡ length (contents s) = omega (
      arith,
      ap length w.queued,
      length-append (contents s) (take (accepted s (c ∷ str)) (c ∷ str)),
      length-take (accepted s (c ∷ str)) (c ∷ str),
      accepted-min (c ∷ str) v,
      remaining_capacity_lem v,
    ) in
    let (bs, e, d, z) =
      remove_front_lem n s.buffers v.buffers_valid (omega (arith, buffer_size-length w.valid)) in
    let cs = of_string (take (accepted s (c ∷ str)) (c ∷ str)) ∷ [] in
    ground (arith, remove_front-append n s.buffers cs bs e, no_buffers-append bs cs refl)
