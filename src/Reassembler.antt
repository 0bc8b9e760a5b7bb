-- ===== src/Reassembler.antt =====
-- libsponge/stream_reassembler.hh and stream_reassembler.cc: the stream put together from
-- substrings that may overlap and come in any order.
pub mod Stream
pub mod Flush
pub mod Push
pub mod History
pub mod EndMark
pub mod Opening
use cs144_sponge.Prelude.{
  ℕ, ◌+◌, ◌-◌, List, [], ◌∷◌, Option, none, some, Bool, true, false, not, u64, sub64, ltb, leb,
  ◌==◌, if◌then◌else◌, length, take, Outcome, ok, throws, out_of_range, null_pointer,
}
use cs144_sponge.ByteStream.{ByteStream}
use cs144_sponge.ByteStream
use cs144_sponge.BufferString.{
  BufferString, BufferStringList, push_back, top_index, pop_up_buffer_string, substr,
}
use cs144_sponge.BufferString

pub record StreamReassembler : Type 0 where
  pub top_pointer : ℕ
  pub output : ByteStream
  pub capacity : ℕ
  pub buffer_list : BufferStringList

unfoldable pub init : ℕ → StreamReassembler
init capacity = record {
  top_pointer = 0;
  output = ByteStream.init capacity;
  capacity = capacity;
  buffer_list = [];
}

pub unassembled_bytes : StreamReassembler → ℕ
unassembled_bytes r = BufferString.size r.buffer_list

pub empty : StreamReassembler → Bool
empty r = BufferString.empty r.buffer_list

-- `current_capactiy` in the source.
unfoldable pub current_capacity : StreamReassembler → ℕ
current_capacity r = sub64 r.capacity (ByteStream.buffer_size r.output)

-- A stream that takes a piece, and its end mark.
take_piece : ByteStream → BufferString → ByteStream
take_piece s x =
    let s' = (ByteStream.write s x.target).1 in if x.is_eof then ByteStream.end_input s' else s'

unfoldable pub deliver :
    StreamReassembler
    → Option BufferString × BufferStringList
    → Outcome StreamReassembler (Unit {0})
unfolding take_piece
deliver r (none, list) = throws null_pointer (record r { buffer_list = list })
deliver r (some x, list) = ok tt (record r {
  top_pointer = u64 (r.top_pointer + length x.target);
  output = take_piece r.output x;
  buffer_list = list;
})

-- From the test of the top of the list on.
unfoldable pub flush : StreamReassembler → Outcome StreamReassembler (Unit {0})
unfolding deliver
flush r =
    if r.top_pointer == top_index r.buffer_list
    then deliver r (pop_up_buffer_string (ByteStream.remaining_capacity r.output) r.buffer_list)
    else ok tt r

stored :
    StreamReassembler → Outcome BufferStringList (Unit {0}) → Outcome StreamReassembler (Unit {0})
unfolding flush
stored r (ok _ list) = flush (record r { buffer_list = list })
stored r (throws e list) = throws e (record r { buffer_list = list })

-- From the test against the window on.
unfoldable pub accept : StreamReassembler → List ℕ → ℕ → Bool → Outcome StreamReassembler (Unit {0})
unfolding stored
accept r str index eof =
    if ltb (current_capacity r) (u64 (sub64 index r.top_pointer + 1))
    then ok tt r
    else if ltb (current_capacity r) (length str)
    then stored r (push_back r.buffer_list (take (current_capacity r) str) index false)
    else stored r (push_back r.buffer_list str index eof)

accept_rest : StreamReassembler → Bool → Option (List ℕ) → Outcome StreamReassembler (Unit {0})
accept_rest r eof none = throws out_of_range r
accept_rest r eof (some str) = accept r str r.top_pointer eof

unfoldable pub push_substring :
    StreamReassembler → List ℕ → ℕ → Bool → Outcome StreamReassembler (Unit {0})
unfolding accept_rest
push_substring r str index eof =
    if ltb index r.top_pointer
    then (if ltb (u64 (index + length str)) r.top_pointer
        then ok tt r
        else accept_rest r eof (
            substr str (sub64 r.top_pointer index)
              (sub64 (length str) (sub64 r.top_pointer index))))
    else accept r str index eof
