-- ===== src/Sender/History.antt =====
-- Whole histories of a sender of libsponge/tcp_sender.cc, from its construction on.
pub mod Log
use cs144_sponge.Prelude.{
  ℕ, ◌+◌, ◌^◌, ◌<◌, ◌≡◌, refl, sym, subst, ◌∙◌, List, [], ◌++◌, false, length, take, ok, Option,
}
use cs144_sponge.ByteStream
use cs144_sponge.ByteStream.{ByteStream}
use cs144_sponge.Segment.{TcpSegment}
use cs144_sponge.Sender.{
  TcpSender, init, or_else, fill_window, ack_received, tick, send_empty_segment,
}
use cs144_sponge.Sender.Holds.{Holds}
use cs144_sponge.Sender.Parts.{AllSent, AllSent-append, AllSent-split, AllSent-more}
use cs144_sponge.Sender.Emits.{Emits, tick-AllSent, send_empty_segment-AllSent, fill_window-Emits}
use cs144_sponge.Sender.Keeps.{
  Same, Same-Holds, tick-Same, send_empty_segment-Same, segments_out-Same, ack_received_out,
}
use cs144_sponge.Sender.Calls.{ack_received-Holds, write-Holds, end_input-Holds, init-Holds}

-- The histories of a sender, with the bytes that its stream has taken and the segments that have been
-- taken off its queue of output. The stream takes no bytes behind its end; an acknowledgement, of any
-- number and with any 16-bit window, comes only once something has been sent; and what is written
-- stays short of the end of the 64-bit numbers.
pub data Runs (s : TcpSender) : List ℕ → List TcpSegment → TcpSender → Type 0 where
  start : Runs s [] [] s
  writes :
      {t : TcpSender} {bs : List ℕ} {sent : List TcpSegment} (str : List ℕ)
      → Runs s bs sent t
      → t.stream.is_input_end ≡ false
      → length bs + length str + 2 ^ 17 < 2 ^ 64
      → Runs s
          (bs ++ take (ByteStream.accepted t.stream str) str)
          sent
          (record t { stream = (ByteStream.write t.stream str).1 })
  ends :
      {t : TcpSender} {bs : List ℕ} {sent : List TcpSegment}
      → Runs s bs sent t
      → Runs s bs sent (record t { stream = ByteStream.end_input t.stream })
  fills :
      {t u : TcpSender} {bs : List ℕ} {sent : List TcpSegment}
      → Runs s bs sent t
      → fill_window t ≡ ok tt u
      → Runs s bs sent u
  acks :
      {t : TcpSender} {bs : List ℕ} {sent : List TcpSegment} (ackno window : ℕ)
      → Runs s bs sent t
      → 0 < t.next_seqno
      → window < 2 ^ 16
      → Runs s bs sent (ack_received t ackno window)
  ticks :
      {t : TcpSender} {bs : List ℕ} {sent : List TcpSegment} (ms : ℕ)
      → Runs s bs sent t
      → Runs s bs sent (tick t ms)
  empties :
      {t : TcpSender} {bs : List ℕ} {sent : List TcpSegment}
      → Runs s bs sent t
      → Runs s bs sent (send_empty_segment t)
  takes :
      {t : TcpSender} {bs : List ℕ} {sent : List TcpSegment} (out rest : List TcpSegment)
      → Runs s bs sent t
      → t.segments_out ≡ out ++ rest
      → Runs s bs (sent ++ out) (record t { segments_out = rest })

-- What holds at the end of a history.
pub record Transmits (s : TcpSender) (bs : List ℕ) (sent : List TcpSegment) (t : TcpSender)
    : Type 0 where
  pub holds : Holds t bs
  pub out : AllSent s.isn bs t.segments_out
  pub handed : AllSent s.isn bs sent
  pub isn_kept : t.isn ≡ s.isn

module _ {s t : TcpSender} {bs : List ℕ} {sent : List TcpSegment} (k : Transmits s bs sent t) where
  pub Transmits-Emits : Emits t bs
  Transmits-Emits = record {
    holds = k.holds;
    out = subst (λ i. AllSent i bs t.segments_out) (sym k.isn_kept) k.out;
  }

  -- Other segments may have been taken, and others may wait.
  pub Transmits-handed : (sent' : List TcpSegment) → AllSent s.isn bs sent' → Transmits s bs sent' t
  Transmits-handed sent' v = record {
    holds = k.holds;
    out = k.out;
    handed = v;
    isn_kept = k.isn_kept;
  }

  pub Same-Transmits :
      {u : TcpSender} → Same t u → AllSent t.isn bs u.segments_out → Transmits s bs sent u
  Same-Transmits {u} m o = record {
    holds = Same-Holds m k.holds;
    out = subst (λ i. AllSent i bs u.segments_out) k.isn_kept o;
    handed = k.handed;
    isn_kept = m.isn ∙ k.isn_kept;
  }

  pub ack_received-Transmits :
      (ackno window : ℕ)
      → 0 < t.next_seqno
      → window < 2 ^ 16
      → Transmits s bs sent (ack_received t ackno window)
  ack_received-Transmits ackno window pos small =
      let (i, o) = ack_received_out t ackno window small in
      record {
        holds = ack_received-Holds ackno window k.holds pos small;
        out = subst (AllSent s.isn bs) (sym o) k.out;
        handed = k.handed;
        isn_kept = i ∙ k.isn_kept;
      }

  pub fill_window-Transmits : {u : TcpSender} → fill_window t ≡ ok tt u → Transmits s bs sent u
  fill_window-Transmits {u} e =
      let (v, r, m, i) = fill_window-Emits Transmits-Emits in
      let q : v ≡ u = cc (r, e) in
      subst (Transmits s bs sent) q (record {
        holds = m.holds;
        out = subst (λ i. AllSent i bs v.segments_out) (i ∙ k.isn_kept) m.out;
        handed = k.handed;
        isn_kept = i ∙ k.isn_kept;
      })

pub init_isn :
    (capacity timeout : ℕ) (fixed : Option ℕ) (random : ℕ)
    → (init capacity timeout fixed random).isn ≡ or_else fixed random
unfolding init
init_isn capacity timeout fixed random = refl

pub init-Transmits :
    (capacity timeout : ℕ) (fixed : Option ℕ) (random : ℕ)
    → capacity < 2 ^ 64
    → or_else fixed random < 2 ^ 32
    → let s = init capacity timeout fixed random in Transmits s [] [] s
unfolding init
init-Transmits capacity timeout fixed random h r = record {
  holds = init-Holds capacity timeout fixed random h r;
  out = tt;
  handed = tt;
  isn_kept = refl;
}
