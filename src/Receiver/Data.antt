-- ===== src/Receiver/Data.antt =====
-- A segment that arrives at the receiver of libsponge/tcp_receiver.cc after the SYN.
use cs144_sponge.Prelude.{
  ℕ, suc, ◌+◌, ◌-◌, ◌^◌, ◌<◌, ◌≡◌, refl, ap, ◌∙◌, some, false, arith, length, length-append, ok,
  lift, inl, inr, Bool-cases, Option-cases,
}
use cs144_sponge.Wrapping.{wrap, unwrap, dist}
use cs144_sponge.Wrapping.Nearest.{unwrap-wrap}
use cs144_sponge.ByteStream.Queue.{contents}
use cs144_sponge.BufferString.Pieces.{slice, length-slice}
use cs144_sponge.Reassembler.{push_substring}
use cs144_sponge.Reassembler.Stream.{IsAssembly}
use cs144_sponge.Reassembler.Push.{Accepts, push_substring-Accepts}
use cs144_sponge.Segment.{TcpSegment}
use cs144_sponge.Receiver.{TcpReceiver, segment_received, noted, stream_out}

-- The SYN is in, and position `i` of the stream `f` is the byte with absolute sequence number `i`.
pub record IsReceiving (f : ℕ → ℕ) (isn : ℕ) (r : TcpReceiver) : Type 0 where
  pub known : r.isn ≡ some isn
  pub small : isn < 2 ^ 32
  pub assembly : IsAssembly f r.reassembler
  pub counted :
      (stream_out r).bytes_read + length (contents (stream_out r)) + 1 ≡ r.reassembler.top_pointer

-- What a receiver leaves when a segment with the positions from `a` up to `c` has come in.
pub record Receives (f : ℕ → ℕ) (isn : ℕ) (r : TcpReceiver) (seg : TcpSegment) (a c : ℕ)
    : Type 0 where
  pub result : TcpReceiver
  pub returns : segment_received r seg ≡ ok tt result
  pub receiving : IsReceiving f isn result
  pub accepts :
      Accepts f r.reassembler a c (push_substring r.reassembler seg.payload a seg.header.fin)
  pub stores : result.reassembler ≡ accepts.result

segment_received-push :
    (f : ℕ → ℕ) (isn : ℕ) (r : TcpReceiver) (seg : TcpSegment) (index : ℕ)
    → IsReceiving f isn r
    → seg.header.syn ≡ false
    → unwrap seg.header.seqno isn r.reassembler.top_pointer ≡ index
    → segment_received r seg
      ≡ lift
          (λ a. record (noted r seg) { reassembler = a })
          (push_substring r.reassembler seg.payload index seg.header.fin)
unfolding segment_received
segment_received-push f isn r seg index v s e = elim (Option-cases r.fsn) [
  | inl n ↦ elim (Bool-cases seg.header.fin) [
    | inl t ↦ ground (arith, v.known)
    | inr t ↦ ground (arith, v.known)
  ]
  | inr (x, n) ↦ ground (arith, v.known)
]

-- The sequence number is turned back into the position of the first byte, and the reassembler is
-- handed the payload there: the receiver returns, stays valid, and accepts what the window allows.
pub segment_received-Receives :
    (f : ℕ → ℕ) (isn : ℕ) (r : TcpReceiver) (seg : TcpSegment) (index : ℕ)
    → IsReceiving f isn r
    → seg.header.syn ≡ false
    → seg.header.seqno ≡ wrap index isn
    → dist index r.reassembler.top_pointer < 2 ^ 31
    → r.reassembler.top_pointer < 2 ^ 64
    → suc (index + length seg.payload) < 2 ^ 64
    → seg.payload ≡ slice f index (length seg.payload)
    → Receives f isn r seg index (index + length seg.payload)
unfolding noted stream_out
segment_received-Receives f isn r seg index v s w near top small e =
    let u : unwrap seg.header.seqno isn r.reassembler.top_pointer ≡ index =
      ap (λ n. unwrap n isn r.reassembler.top_pointer) w
      ∙ unwrap-wrap index isn r.reassembler.top_pointer v.small top (omega arith) near in
    let a =
      push_substring-Accepts f r.reassembler seg.payload index seg.header.fin v.assembly small e in
    let l : length (contents a.result.output)
        ≡ length (contents r.reassembler.output)
          + (a.result.top_pointer - r.reassembler.top_pointer) =
      ap length a.delivered
      ∙ length-append (contents r.reassembler.output) _
      ∙ ap (λ n. length (contents r.reassembler.output) + n)
          (length-slice f r.reassembler.top_pointer _) in
    record {
      result = record (noted r seg) { reassembler = a.result };
      returns = segment_received-push f isn r seg index v s u ∙ ap (lift _) a.returns;
      receiving = record {
        known = ground (arith, v.known);
        small = v.small;
        assembly = a.assembly;
        counted = omega (arith, l, v.counted, a.read_kept, a.forward);
      };
      accepts = a;
      stores = refl;
    }
