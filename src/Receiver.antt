-- ===== src/Receiver.antt =====
-- libsponge/tcp_receiver.hh and tcp_receiver.cc.
pub mod Data
pub mod Acknowledge
pub mod SynAgain
pub mod Opening
use cs144_sponge.Prelude.{
  ℕ, ◌+◌, List, [], ◌∷◌, Option, none, some, Bool, true, false, not, ◌&&◌, ◌||◌, u32, u64, ◌==◌,
  if◌then◌else◌, length, Outcome, ok, throws, lift, and_then,
}
use cs144_sponge.Wrapping.{wrap, unwrap}
use cs144_sponge.ByteStream
use cs144_sponge.ByteStream.{ByteStream}
use cs144_sponge.Reassembler.{StreamReassembler, push_substring, current_capacity}
use cs144_sponge.Reassembler
use cs144_sponge.Segment.{TcpSegment}

pub record TcpReceiver : Type 0 where
  pub reassembler : StreamReassembler
  pub capacity : ℕ
  pub isn : Option ℕ
  pub fsn : Option ℕ

unfoldable pub init : ℕ → TcpReceiver
init capacity = record {
  reassembler = Reassembler.init capacity;
  capacity = capacity;
  isn = none;
  fsn = none;
}

abbrev pub is_some : Option ℕ → Bool
is_some none = false
is_some (some x) = true

abbrev is_empty : List ℕ → Bool
is_empty [] = true
is_empty (x ∷ xs) = false

-- `reassembler.top_pointer() = index + 1` behind a call that returned.
abbrev set_top : ℕ → Outcome StreamReassembler (Unit {0}) → Outcome StreamReassembler (Unit {0})
set_top index (ok _ r) = ok tt (record r { top_pointer = u64 (index + 1) })
set_top index (throws e r) = throws e r

pub push_back_wrap_string :
    TcpSegment → ℕ → List ℕ → StreamReassembler → Bool → Outcome StreamReassembler (Unit {0})
push_back_wrap_string seg isn str r eof =
    let index = unwrap seg.header.seqno isn r.top_pointer in
    if seg.header.syn && is_empty str
    then set_top index (push_substring r str index eof)
    else push_substring r str index eof

abbrev set_once : Bool → ℕ → Option ℕ → Option ℕ
set_once flag seqno none = if flag then some seqno else none
set_once flag seqno (some x) = some x

-- The receiver behind the two steps that note the first and the final sequence number.
pub noted : TcpReceiver → TcpSegment → TcpReceiver
noted r seg = record r {
  isn = set_once seg.header.syn seg.header.seqno r.isn;
  fsn = set_once seg.header.fin seg.header.seqno r.fsn;
}

reassemble : TcpReceiver → TcpSegment → Option ℕ → Option ℕ → Outcome TcpReceiver (Unit {0})
unfolding push_back_wrap_string
reassemble r seg none fsn = ok tt r
reassemble r seg (some isn) none =
    lift (λ a. record r { reassembler = a })
      (push_back_wrap_string seg isn seg.payload r.reassembler false)
reassemble r seg (some isn) (some fsn) =
    lift (λ a. record r { reassembler = a })
      (push_back_wrap_string seg isn seg.payload r.reassembler seg.header.fin)

unfoldable pub segment_received : TcpReceiver → TcpSegment → Outcome TcpReceiver (Unit {0})
unfolding reassemble noted
segment_received r seg =
    if not (is_some r.isn) && not seg.header.syn
    then ok tt r
    else reassemble (noted r seg) seg (noted r seg).isn (noted r seg).fsn

-- `WrappingInt32` and an offset, `operator+`.
abbrev plus32 : ℕ → ℕ → ℕ
plus32 a b = u32 (a + b)

ackno_from : Option ℕ → ByteStream → Option ℕ
ackno_from none s = none
ackno_from (some isn) s =
    let base = plus32 (wrap s.bytes_written isn) 1 in
    some (if s.is_input_end then plus32 base 1 else base)

unfoldable pub ackno : TcpReceiver → Option ℕ
unfolding ackno_from
ackno r = ackno_from r.isn r.reassembler.output

unfoldable pub window_size : TcpReceiver → ℕ
window_size r = current_capacity r.reassembler

pub unassembled_bytes : TcpReceiver → ℕ
unassembled_bytes r = Reassembler.unassembled_bytes r.reassembler

unfoldable pub stream_out : TcpReceiver → ByteStream
stream_out r = r.reassembler.output
