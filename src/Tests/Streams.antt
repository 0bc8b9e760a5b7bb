-- ===== src/Tests/Streams.antt =====
-- Sequence numbers and byte streams at concrete values.
use cs144_sponge.Prelude.{
  ◌-◌, ◌≡◌, ◌≤◌, refl, ap, [], ◌∷◌, ◌++◌, some, false, arith, min, length, take, ok, state_of,
  length-append,
}
use cs144_sponge.Wrapping.{wrap, unwrap, dist}
use cs144_sponge.Wrapping.Nearest.{wrap-unwrap, unwrap_nearest, unwrap-wrap, dist_le}
use cs144_sponge.StreamBuffer.{get_string}
use cs144_sponge.ByteStream.{
  ByteStream, accepted, write, read, pop_output, end_input, eof, init, buffer_size,
}
use cs144_sponge.ByteStream.Queue.{
  IsValid, contents, Written, write-Written, pop_output-read, init-IsValid, remaining_capacity_lem,
  buffer_size-length,
}
use cs144_sponge.ByteStream.History
use cs144_sponge.ByteStream.History.{Kept, Runs-Kept}
use cs144_sponge.ByteStream.Full.{eof-write_full}

-- Round the end of the 32-bit range.
wrap_over : wrap 3000000000 2000000000 ≡ 705032704
unfolding wrap
wrap_over = refl

unwrap_over : unwrap 705032704 2000000000 2999999999 ≡ 3000000000
unfolding unwrap
unwrap_over = refl

unwrap_up : unwrap 5 0 4294967290 ≡ 4294967301
unfolding unwrap
unwrap_up = refl

wrap-unwrap_example : wrap (unwrap 5 7 4294967290) 7 ≡ 5
wrap-unwrap_example = wrap-unwrap 5 7 4294967290 (omega arith) (omega arith) (omega arith)

unwrap_nearest_example : dist (unwrap 5 7 4294967290) 4294967290 ≤ dist 8589934590 4294967290
unfolding wrap
unwrap_nearest_example =
    unwrap_nearest 5 7 4294967290 8589934590 (omega arith) (omega arith) (omega arith) (omega arith)
      refl

unwrap-wrap_example : unwrap (wrap 4294967290 7) 7 4294967301 ≡ 4294967290
unwrap-wrap_example =
    unwrap-wrap 4294967290 7 4294967301 (omega arith) (omega arith) (omega arith)
      (omega (arith, dist_le 4294967290 4294967301 (omega arith)))

-- A stream of capacity 8 that holds three bytes.
abbrev pub three : ByteStream
three = record {
  buffers = record { storage = some (9 ∷ 1 ∷ 2 ∷ 3 ∷ []); prefix_pointer = 1 } ∷ [];
  capacity = 8;
  bytes_read = 0;
  bytes_written = 3;
  is_input_end = false;
  has_error = false;
}

pub contents-three : contents three ≡ 1 ∷ 2 ∷ 3 ∷ []
unfolding get_string
contents-three = refl

pub three-IsValid : IsValid three
unfolding get_string
three-IsValid = record {
  buffers_valid = ((omega arith, omega arith), tt);
  within = omega arith;
  small = omega arith;
  counted = refl;
  read_small = omega arith;
}

abbrev full : ByteStream
full = record three { capacity = 3 }

full-IsValid : IsValid full
unfolding get_string
full-IsValid = record {
  buffers_valid = ((omega arith, omega arith), tt);
  within = omega arith;
  small = omega arith;
  counted = refl;
  read_small = omega arith;
}

write-Written_example :
    ((write three (4 ∷ 5 ∷ [])).0 ≡ min 2 (8 - length (contents three)))
    × Written three (4 ∷ 5 ∷ []) (write three (4 ∷ 5 ∷ [])).1
write-Written_example = write-Written (4 ∷ 5 ∷ []) three-IsValid

pop_output-read_example : pop_output three 2 ≡ ok tt (state_of (read three 2))
unfolding get_string
pop_output-read_example = pop_output-read 2 three-IsValid (omega arith)

Runs-Kept_example :
    Kept
      (init 8)
      ([] ++ take (accepted (init 8) (1 ∷ 2 ∷ [])) (1 ∷ 2 ∷ []))
      []
      (write (init 8) (1 ∷ 2 ∷ [])).1
Runs-Kept_example =
    Runs-Kept (init-IsValid 8 (omega arith))
      (History.Runs.writes (1 ∷ 2 ∷ []) (History.Runs.start (init 8)))

offered_size : 3 ≤ buffer_size (write full (4 ∷ [])).1
unfolding get_string
offered_size =
    let w = (write-Written (4 ∷ []) full-IsValid).1 in
    omega (
      arith,
      buffer_size-length w.valid,
      ap length w.queued,
      length-append (contents full) (take (accepted full (4 ∷ [])) (4 ∷ [])),
    )

eof-write_full_example : eof (state_of (read (end_input (write full (4 ∷ [])).1) 3)) ≡ false
unfolding get_string
eof-write_full_example =
    eof-write_full 4 [] 3 full-IsValid (remaining_capacity_lem full-IsValid) offered_size
