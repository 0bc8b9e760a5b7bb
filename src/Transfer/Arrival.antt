-- ===== src/Transfer/Arrival.antt =====
-- What arrives at a receiver of libsponge/tcp_receiver.cc from a sender of libsponge/tcp_sender.cc.
use cs144_sponge.Prelude.{
  ℕ, ◌+◌, ◌-◌, ◌^◌, ◌≤◌, ◌<◌, ◌≡◌, sym, ap, subst, ◌∙◌, ◌⊎◌, inl, inr, List, [], ◌∷◌, ◌++◌, arith,
  length, take, length-append, append_assoc, take-append-drop, length-drop, ok,
}
use cs144_sponge.Wrapping.Nearest.{dist_small}
use cs144_sponge.ByteStream
use cs144_sponge.ByteStream.{ByteStream}
use cs144_sponge.ByteStream.Queue.{contents, read-Reads, buffer_size-length}
use cs144_sponge.BufferString.Pieces.{slice, between, between-append}
use cs144_sponge.Segment.{TcpSegment}
use cs144_sponge.Reassembler.History.{Reads-IsAssembly}
use cs144_sponge.Receiver.{TcpReceiver, segment_received, stream_out}
use cs144_sponge.Receiver.Data.{IsReceiving, segment_received-Receives}
use cs144_sponge.Sender.Parts.{IsPart, IsSyn, AllSent}
use cs144_sponge.Transfer.{Among, set_output}
use cs144_sponge.Transfer.Positions.{stream_at, slice-stream_at, between_bound}

pub AllSent-Among :
    {isn : ℕ} {bs : List ℕ} {g : TcpSegment} (gs : List TcpSegment)
    → AllSent isn bs gs
    → Among g gs
    → IsSyn isn g ⊎ IsPart isn bs g
AllSent-Among [] v m = absurd m
AllSent-Among {isn} {bs} (h ∷ hs) v (inl e) = subst (λ g. IsSyn isn g ⊎ IsPart isn bs g) (sym e) v.0
AllSent-Among (h ∷ hs) v (inr m) = AllSent-Among hs v.1 m

-- The payload of a part is a slice of the stream, whatever stands past the end.
IsPart-slice :
    (d isn : ℕ) (bs : List ℕ) (g : TcpSegment) (p : IsPart isn bs g)
    → g.payload ≡ slice (stream_at d bs) p.index (length g.payload)
IsPart-slice d isn bs g p = elim p.bytes [
  | inl z ↦ z ∙ sym (ap (λ l. slice (stream_at d bs) p.index (length l)) z)
  | inr (before, after, e, i) ↦ sym (slice-stream_at d bs before g.payload after p.index e i)
]

IsPart-bound :
    (isn : ℕ) (bs : List ℕ) (g : TcpSegment) (p : IsPart isn bs g)
    → p.index + length g.payload ≤ length bs + 2
IsPart-bound isn bs g p = elim p.bytes [
  | inl z ↦ omega (arith, ap length z, p.high)
  | inr (before, after, e, i) ↦ omega (
    arith,
    ap length e,
    length-append before (g.payload ++ after),
    length-append g.payload after,
    i,
  )
]

-- What the reader has and what waits make up the stream up to the top, with `d` past the end.
pub record InStep (d isn : ℕ) (bs outs : List ℕ) (t : TcpReceiver) : Type 0 where
  pub receiving : IsReceiving (stream_at d bs) isn t
  pub low : 1 ≤ t.reassembler.top_pointer
  pub in_order :
      outs ++ contents (stream_out t) ≡ between (stream_at d bs) 1 t.reassembler.top_pointer

pub arrives-InStep :
    {d isn : ℕ} {bs outs : List ℕ} {t : TcpReceiver} (g : TcpSegment)
    → InStep d isn bs outs t
    → IsPart isn bs g
    → t.reassembler.top_pointer ≤ length bs + 1
    → length bs + 2 < 2 ^ 31
    → (u : TcpReceiver) × (segment_received t g ≡ ok tt u) × InStep d isn bs outs u
unfolding stream_out
arrives-InStep {d} {isn} {bs} {outs} {t} g k p top small =
    let b = IsPart-bound isn bs g p in
    let r =
      segment_received-Receives (stream_at d bs) isn t g p.index k.receiving p.syn p.seqno
        (dist_small p.index t.reassembler.top_pointer (2 ^ 31) (omega arith) (omega arith))
        (omega arith) (omega arith) (IsPart-slice d isn bs g p) in
    let a = r.accepts in
    let s : r.result.reassembler ≡ a.result = r.stores in
    (
      r.result,
      r.returns,
      record {
        receiving = r.receiving;
        low = omega (arith, ap (λ x. x.top_pointer) s, a.forward, k.low);
        in_order =
            ap (λ x. outs ++ contents x.output) s
            ∙ ap (◌++◌ outs) a.delivered
            ∙ sym (append_assoc outs (contents t.reassembler.output) _)
            ∙ ap (λ l. l ++ between (stream_at d bs) t.reassembler.top_pointer a.result.top_pointer)
                k.in_order
            ∙ between-append (stream_at d bs) 1 t.reassembler.top_pointer a.result.top_pointer k.low
                a.forward
            ∙ ap (λ x. between (stream_at d bs) 1 x.top_pointer) (sym s);
      },
    )

pub reads-InStep :
    {d isn : ℕ} {bs outs : List ℕ} {t : TcpReceiver} (n : ℕ) (r : List ℕ) (s : ByteStream)
    → InStep d isn bs outs t
    → t.reassembler.top_pointer < 2 ^ 31
    → n ≤ ByteStream.buffer_size (stream_out t)
    → ByteStream.read (stream_out t) n ≡ ok r s
    → InStep d isn bs (outs ++ r) (set_output t s)
unfolding stream_out set_output
reads-InStep {d} {isn} {bs} {outs} {t} n r s k small le e =
    let v = k.receiving.assembly.output_valid in
    let x = read-Reads n v (omega (arith, buffer_size-length v)) in
    let er : take n (contents t.reassembler.output) ≡ r = ground (arith, x.returns) in
    let es : x.rest ≡ s = cc (x.returns) in
    let w : n ≤ length (contents t.reassembler.output) = omega (arith, buffer_size-length v) in
    let l : length (contents x.rest) ≡ length (contents t.reassembler.output) - n =
      ap length x.left ∙ length-drop n (contents t.reassembler.output) in
    subst (λ o. InStep d isn bs (outs ++ r) (set_output t o)) es
      (record {
        receiving = record {
          known = k.receiving.known;
          small = k.receiving.small;
          assembly = Reads-IsAssembly (stream_at d bs) n k.receiving.assembly w x;
          counted = omega (arith, x.counted, l, k.receiving.counted, buffer_size-length v);
        };
        low = k.low;
        in_order =
            append_assoc outs r _
            ∙ ap (◌++◌ outs)
                (rw (← er, x.left) (take-append-drop n (contents t.reassembler.output)))
            ∙ k.in_order;
      })

pub InStep-bound :
    {isn : ℕ} {bs outs : List ℕ} {t : TcpReceiver}
    → InStep 0 isn bs outs t
    → InStep 1 isn bs outs t
    → t.reassembler.top_pointer ≤ length bs + 1
InStep-bound {bs} {t} k l = between_bound bs _ t.reassembler.top_pointer k.in_order l.in_order
