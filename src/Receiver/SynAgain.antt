-- ===== src/Receiver/SynAgain.antt =====
-- A SYN that comes again to the receiver of libsponge/tcp_receiver.cc.
use cs144_sponge.Prelude.{
  ℕ, ◌+◌, ◌^◌, ◌<◌, ◌≡◌, sym, ap, ◌∙◌, [], some, true, false, arith, ok, inl, inr, Bool-cases,
  Option-cases,
}
use cs144_sponge.Wrapping.{unwrap}
use cs144_sponge.Wrapping.Nearest.{unwrap-wrap, wrap-zero, dist-zero}
use cs144_sponge.Segment.{TcpSegment}
use cs144_sponge.Reassembler.Push.{push_substring_past}
use cs144_sponge.Receiver.{TcpReceiver, segment_received, noted}

-- A SYN that comes again with the first sequence number and no data, when the top of the reassembler
-- lies between 0 and 2 ^ 31, both excluded, sets the top back to 1. Nothing else of the reassembler
-- changes: the bytes that it has put out stay in the output.
pub segment_received_syn_again :
    (r : TcpReceiver) (seg : TcpSegment) (isn : ℕ)
    → r.isn ≡ some isn
    → isn < 2 ^ 32
    → seg.header.syn ≡ true
    → seg.header.seqno ≡ isn
    → seg.payload ≡ []
    → 0 < r.reassembler.top_pointer
    → r.reassembler.top_pointer < 2 ^ 31
    → segment_received r seg
      ≡ ok tt (record (noted r seg) { reassembler = record r.reassembler { top_pointer = 1 } })
unfolding segment_received noted
segment_received_syn_again r seg isn known small s q p low high =
    let u : unwrap seg.header.seqno isn r.reassembler.top_pointer ≡ 0 =
      ap (λ n. unwrap n isn r.reassembler.top_pointer) (q ∙ sym (wrap-zero isn small))
      ∙ unwrap-wrap 0 isn r.reassembler.top_pointer small (omega arith) (omega arith)
          (omega (arith, dist-zero r.reassembler.top_pointer)) in
    let low' : 0 + 0 < r.reassembler.top_pointer = omega arith in
    elim (Option-cases r.fsn) [
      | inl n ↦ elim (Bool-cases seg.header.fin) [
        | inl t ↦ ground (arith, u, push_substring_past r.reassembler [] 0 true low' (omega arith))
        | inr t ↦ ground (arith, u, push_substring_past r.reassembler [] 0 false low' (omega arith))
      ]
      | inr (x, n) ↦
          ground
            (arith, u, push_substring_past r.reassembler [] 0 seg.header.fin low' (omega arith))
    ]
