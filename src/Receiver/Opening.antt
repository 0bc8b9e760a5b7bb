-- ===== src/Receiver/Opening.antt =====
-- The first segment that libsponge/tcp_receiver.cc takes: the SYN, without data.
use cs144_sponge.Prelude.{
  ℕ, ◌^◌, ◌<◌, ◌≡◌, refl, sym, ap, subst, ◌∙◌, [], some, true, false, arith, ok, length,
}
use cs144_sponge.Wrapping.{unwrap}
use cs144_sponge.Wrapping.Nearest.{unwrap-wrap, wrap-zero, dist-zero}
use cs144_sponge.ByteStream.Queue.{IsValid, contents, init-IsValid, init_lem}
use cs144_sponge.Segment.{TcpSegment}
use cs144_sponge.BufferString.Pieces.{Pieces, Starts}
use cs144_sponge.Reassembler
use cs144_sponge.Reassembler.{StreamReassembler}
use cs144_sponge.Reassembler.Opening
use cs144_sponge.Reassembler.Opening.{push_substring-nothing}
use cs144_sponge.Receiver.{TcpReceiver, init, segment_received, noted, stream_out}
use cs144_sponge.Receiver.Data.{IsReceiving}

-- What the SYN leaves.
abbrev pub opened : ℕ → ℕ → TcpReceiver
opened capacity isn = record (init capacity) {
  isn = some isn;
  reassembler = record (Reassembler.init capacity) { top_pointer = 1 };
}

-- It is returned, and position 1 is the next.
pub segment_received_syn :
    (capacity : ℕ) (seg : TcpSegment)
    → seg.header.syn ≡ true
    → seg.header.fin ≡ false
    → seg.header.seqno < 2 ^ 32
    → seg.payload ≡ []
    → segment_received (init capacity) seg ≡ ok tt (opened capacity seg.header.seqno)
unfolding segment_received noted init
segment_received_syn capacity seg s f small p =
    let isn = seg.header.seqno in
    let top = (Reassembler.init capacity).top_pointer in
    let u : unwrap isn isn top ≡ 0 =
      ap (unwrap isn isn) (Opening.init_lem capacity).0
      ∙ ap (λ n. unwrap n isn 0) (sym (wrap-zero isn small))
      ∙ unwrap-wrap 0 isn 0 small (omega arith) (omega arith) (omega (arith, dist-zero 0)) in
    ground (arith, u, push_substring-nothing capacity)

pub opened-IsReceiving :
    (f : ℕ → ℕ) (capacity isn : ℕ)
    → capacity < 2 ^ 64
    → isn < 2 ^ 32
    → IsReceiving f isn (opened capacity isn)
unfolding init stream_out
opened-IsReceiving f capacity isn c i =
    let (t, o, k, b) = Opening.init_lem capacity in
    let (n, m, z) = init_lem capacity in
    record {
      known = refl;
      small = i;
      assembly = record {
        output_valid = subst IsValid (sym o) (init-IsValid capacity c);
        same_capacity = k ∙ sym m ∙ ap (λ s. s.capacity) (sym o);
        pieces = subst (λ l. Pieces f 1 l (2 ^ 64)) (sym b) (omega arith);
        starts = subst (Starts _) (sym b) tt;
      };
      counted = rw o (omega (arith, z, ap length n));
    }

pub opened_contents : (capacity isn : ℕ) → contents (stream_out (opened capacity isn)) ≡ []
unfolding init stream_out
opened_contents capacity isn = ap contents (Opening.init_lem capacity).1 ∙ (init_lem capacity).0
