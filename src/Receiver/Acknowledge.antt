-- ===== src/Receiver/Acknowledge.antt =====
-- The acknowledgment number of libsponge/tcp_receiver.cc.
use cs144_sponge.Prelude.{
  ℕ, ◌+◌, ◌-◌, ◌^◌, ◌<◌, ◌≡◌, refl, ◌⊎◌, inl, inr, Bool-cases, Option-cases, Option, none, some,
  true, false, arith, Outcome, ok, lift, throws, state_of,
}
use cs144_sponge.Wrapping.{wrap}
use cs144_sponge.Segment.{TcpSegment, flag_size}
use cs144_sponge.Reassembler.{StreamReassembler}
use cs144_sponge.Receiver.{TcpReceiver, segment_received, noted, ackno, stream_out, reassemble}
use cs144_sponge.Receiver.Data.{IsReceiving}

-- What is acknowledged is the next byte that is missing, with one number more once the input has
-- ended: the wrapped form of the top of the reassembler.
pub ackno_lem :
    (f : ℕ → ℕ) (isn : ℕ) (r : TcpReceiver)
    → IsReceiving f isn r
    → r.reassembler.top_pointer < 2 ^ 64 - 1
    → ackno r ≡ some (wrap (r.reassembler.top_pointer + flag_size (stream_out r).is_input_end) isn)
unfolding ackno wrap stream_out
ackno_lem f isn r v h = ground (arith, v.known, v.assembly.output_valid.counted, v.counted)

noted_isn :
    (r : TcpReceiver) (seg : TcpSegment) (isn : ℕ) → r.isn ≡ some isn → (noted r seg).isn ≡ some isn
unfolding noted
noted_isn r seg isn e = ground arith

isn-lift :
    (r : TcpReceiver) (o : Outcome StreamReassembler (Unit {0}))
    → (state_of (lift (λ a. record r { reassembler = a }) o)).isn ≡ r.isn
isn-lift r (ok _ a) = refl
isn-lift r (throws e a) = refl

isn-reassemble :
    (r : TcpReceiver) (seg : TcpSegment) (isn fsn : Option ℕ)
    → (state_of (reassemble r seg isn fsn)).isn ≡ r.isn
unfolding reassemble
isn-reassemble r seg none fsn = refl
isn-reassemble r seg (some isn) none = isn-lift r _
isn-reassemble r seg (some isn) (some fsn) = isn-lift r _

isn_kept :
    (r : TcpReceiver) (seg : TcpSegment) (isn : ℕ)
    → r.isn ≡ some isn
    → (state_of (segment_received r seg)).isn ≡ some isn
unfolding segment_received
isn_kept r seg isn e = ground (
  arith,
  isn-reassemble (noted r seg) seg (noted r seg).isn (noted r seg).fsn,
  noted_isn r seg isn e,
)

none_yet :
    (r : TcpReceiver) (seg : TcpSegment)
    → r.isn ≡ none
    → seg.header.syn ≡ false
    → segment_received r seg ≡ ok tt r
unfolding segment_received
none_yet r seg n s = ground arith

-- Before the first SYN nothing is acknowledged, and a segment with no SYN changes nothing; from
-- then on, whatever comes in, the first sequence number stays what it was.
pub isn-segment_received :
    (r : TcpReceiver) (seg : TcpSegment)
    → ((r.isn ≡ none)
        × (ackno r ≡ none)
        × ((seg.header.syn ≡ true) ⊎ (segment_received r seg ≡ ok tt r)))
      ⊎ ((isn : ℕ) × (r.isn ≡ some isn) × ((state_of (segment_received r seg)).isn ≡ some isn))
unfolding ackno
isn-segment_received r seg = elim (Option-cases r.isn) [
  | inr (isn, e) ↦ inr (isn, e, isn_kept r seg isn e)
  | inl n ↦ inl (
    n,
    ground arith,
    elim (Bool-cases seg.header.syn) [ inl t ↦ inl t | inr f ↦ inr (none_yet r seg n f) ],
  )
]
