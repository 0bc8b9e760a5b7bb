-- ===== src/ByteStream.antt =====
-- libsponge/byte_stream.hh and byte_stream.cc: the flow-controlled stream in memory.
pub mod Queue
pub mod History
pub mod Full
use cs144_sponge.Prelude.{
  ℕ, ◌+◌, List, [], ◌∷◌, ◌++◌, Bool, true, false, ◌&&◌, u64, sub64, ltb, if◌then◌else◌, length,
  take, Outcome, ok, throws,
}
use cs144_sponge.StreamBuffer.{BufferList, of_string, size_all, peek_output, remove_front}
use cs144_sponge.StreamBuffer

pub record ByteStream : Type 0 where
  pub buffers : BufferList
  pub capacity : ℕ
  pub bytes_read : ℕ
  pub bytes_written : ℕ
  pub is_input_end : Bool
  pub has_error : Bool

unfoldable pub init : ℕ → ByteStream
init capacity = record {
  buffers = [];
  capacity = capacity;
  bytes_read = 0;
  bytes_written = 0;
  is_input_end = false;
  has_error = false;
}

unfoldable pub buffer_size : ByteStream → ℕ
buffer_size s = size_all s.buffers

abbrev pub no_buffers : BufferList → Bool
no_buffers [] = true
no_buffers (b ∷ bs) = false

-- It asks for a buffer, not for a byte.
pub buffer_empty : ByteStream → Bool
buffer_empty s = no_buffers s.buffers

unfoldable pub input_ended : ByteStream → Bool
input_ended s = s.is_input_end

unfoldable pub error : ByteStream → Bool
error s = s.has_error

unfoldable pub eof : ByteStream → Bool
eof s = s.is_input_end && no_buffers s.buffers

unfoldable pub remaining_capacity : ByteStream → ℕ
unfolding buffer_size
remaining_capacity s = sub64 s.capacity (buffer_size s)

-- How much of the string `write` takes.
unfoldable pub accepted : ByteStream → List ℕ → ℕ
accepted s str =
    if ltb (remaining_capacity s) (length str) then remaining_capacity s else length str

store : ByteStream → List ℕ → ByteStream
unfolding accepted
store s str = record s {
  buffers = s.buffers ++ (of_string (take (accepted s str) str) ∷ []);
  bytes_written = u64 (s.bytes_written + accepted s str);
}

unfoldable pub write : ByteStream → List ℕ → ℕ × ByteStream
unfolding store
write s [] = (0, s)
write s (c ∷ str) = (accepted s (c ∷ str), store s (c ∷ str))

pub peek : ByteStream → ℕ → List ℕ
peek s len = peek_output len s.buffers

-- After an exception the buffers stay as the failed call left them.
after_removal :
    ByteStream
    → (ℕ → ByteStream → ByteStream)
    → Outcome BufferList ℕ
    → Outcome ByteStream (Unit {0})
after_removal s count (ok left bs) = ok tt (count left (record s { buffers = bs }))
after_removal s count (throws e bs) = throws e (record s { buffers = bs })

pub pop_output : ByteStream → ℕ → Outcome ByteStream (Unit {0})
unfolding after_removal
pop_output s len =
    after_removal s (λ left s'. record s' { bytes_read = u64 (s'.bytes_read + sub64 len left) })
      (remove_front len s.buffers)

read_rest : ByteStream → List ℕ → Outcome BufferList ℕ → Outcome ByteStream (List ℕ)
read_rest s result (ok left bs) = ok result (record s { buffers = bs })
read_rest s result (throws e bs) = throws e (record s { buffers = bs })

-- The bytes are counted before they are removed.
unfoldable pub read : ByteStream → ℕ → Outcome ByteStream (List ℕ)
unfolding read_rest
read s len =
    let result = peek_output len s.buffers in
    read_rest (record s { bytes_read = u64 (s.bytes_read + length result) }) result
      (remove_front len s.buffers)

pub end_input : ByteStream → ByteStream
end_input s = record s { is_input_end = true }

unfoldable pub set_error : ByteStream → ByteStream
set_error s = record s { has_error = true }
