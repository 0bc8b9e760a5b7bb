-- ===== src/Sender/History/Log.antt =====
-- What the calls of `fill_window` of libsponge/tcp_sender.cc put out over a whole history, and how much
-- of it the acknowledgements take off.
use cs144_sponge.Prelude.{
  ℕ, ◌^◌, ◌≤◌, ◌<◌, ◌≡◌, refl, sym, ap, ap₂, subst, ◌∙◌, ◌⊎◌, inl, inr, List, [], ◌∷◌, ◌++◌, arith,
  length, take, drop, ok, Option,
}
use cs144_sponge.Wrapping.{unwrap}
use cs144_sponge.ByteStream
use cs144_sponge.Segment.{TcpSegment}
use cs144_sponge.Sender.{TcpSender, init, or_else, fill_window, ack_received}
use cs144_sponge.Sender.Segments.{total_length}
use cs144_sponge.Sender.Holds.{Holds}
use cs144_sponge.Sender.Parts.{AllSent, AllSent-append, AllSent-split, AllSent-more}
use cs144_sponge.Sender.Progress.{fill_window-Filled}
use cs144_sponge.Sender.Emits.{fill_window-Emits, tick-AllSent, send_empty_segment-AllSent}
use cs144_sponge.Sender.Keeps.{
  Same, Same-Holds, Same-Holds_row, tick-Same, send_empty_segment-Same, segments_out-Same,
  ack_received_out,
}
use cs144_sponge.Sender.Calls.{
  write-Holds, write-Holds_row, end_input_row, init-Holds_row, ack_received-KeepsRow,
}
use cs144_sponge.Sender.History.{
  Runs, start, writes, ends, fills, acks, ticks, empties, takes, Transmits, Transmits-Emits,
  init-Transmits,
}

-- The segments that the calls of `fill_window` put out, in order: each puts them behind those that
-- wait.
abbrev pub put_out :
    {s t : TcpSender} {bs : List ℕ} {sent : List TcpSegment} → Runs s bs sent t → List TcpSegment
put_out start = []
put_out (writes str h e far) = put_out h
put_out (ends h) = put_out h
put_out (fills {t} {u} h e) = put_out h ++ drop (length t.segments_out) u.segments_out
put_out (acks ackno window h pos small) = put_out h
put_out (ticks ms h) = put_out h
put_out (empties h) = put_out h
put_out (takes out rest h e) = put_out h

-- No acknowledgement is of a number above `n`, but of one that has not been sent.
abbrev pub AckedUpTo :
    {s t : TcpSender} {bs : List ℕ} {sent : List TcpSegment} → ℕ → Runs s bs sent t → Type 0
AckedUpTo n start = Unit {0}
AckedUpTo n (writes str h e far) = AckedUpTo n h
AckedUpTo n (ends h) = AckedUpTo n h
AckedUpTo n (fills h e) = AckedUpTo n h
AckedUpTo n (acks {t} ackno window h pos small) =
    ((unwrap ackno t.isn t.next_seqno ≤ n) ⊎ (t.next_seqno < unwrap ackno t.isn t.next_seqno))
    × AckedUpTo n h
AckedUpTo n (ticks ms h) = AckedUpTo n h
AckedUpTo n (empties h) = AckedUpTo n h
AckedUpTo n (takes out rest h e) = AckedUpTo n h

drop-append : (xs ys : List TcpSegment) → drop (length xs) (xs ++ ys) ≡ ys
drop-append [] ys = refl
drop-append (x ∷ xs) ys = drop-append xs ys

-- The row that holds of the sender is the log, and its acknowledged front ends at `n` at most.
pub record Logs (n : ℕ) (log : List TcpSegment) {t : TcpSender} {bs : List ℕ} (k : Holds t bs)
    : Type 0 where
  pub row : k.row ≡ log
  pub below : total_length k.acked ≤ n

Logs-kept :
    {n : ℕ} {log : List TcpSegment} {t u : TcpSender} {bs cs : List ℕ} {k : Holds t bs}
    {h : Holds u cs}
    → Logs n log k
    → (h.row ≡ k.row) × (h.acked ≡ k.acked)
    → Logs n log h
Logs-kept l (row, acked) = record {
  row = row ∙ l.row;
  below = omega (arith, l.below, ap total_length acked);
}

record Tracks (s : TcpSender) (n : ℕ) (bs : List ℕ) (sent log : List TcpSegment) (t : TcpSender)
    : Type 0 where
  transmits : Transmits s bs sent t
  logs : Logs n log transmits.holds

module _ {s t : TcpSender} {n : ℕ} {bs : List ℕ} {sent log : List TcpSegment}
    (l : Tracks s n bs sent log t) where
  abbrev held : Holds t bs
  held = l.transmits.holds

  -- Another state of which all holds with the same row.
  Tracks-kept :
      {u : TcpSender} {cs : List ℕ} {sent' : List TcpSegment} (h : Holds u cs)
      → (h.row ≡ held.row) × (h.acked ≡ held.acked)
      → AllSent s.isn cs u.segments_out
      → AllSent s.isn cs sent'
      → u.isn ≡ t.isn
      → Tracks s n cs sent' log u
  Tracks-kept h same out handed isn = record {
    transmits = record {
      holds = h;
      out = out;
      handed = handed;
      isn_kept = isn ∙ l.transmits.isn_kept;
    };
    logs = Logs-kept l.logs same;
  }

  Same-Tracks :
      {u : TcpSender} → Same t u → AllSent t.isn bs u.segments_out → Tracks s n bs sent log u
  Same-Tracks {u} m o =
      Tracks-kept (Same-Holds m held) (Same-Holds_row m held)
        (subst (λ i. AllSent i bs u.segments_out) l.transmits.isn_kept o) l.transmits.handed m.isn

  fill_window-Tracks :
      {u : TcpSender}
      → fill_window t ≡ ok tt u
      → Tracks s n bs sent (log ++ drop (length t.segments_out) u.segments_out) u
  fill_window-Tracks {u} e =
      let f = fill_window-Filled held in
      let (v, r, m, i) = fill_window-Emits (Transmits-Emits l.transmits) in
      let q : v ≡ f.result = cc (r, f.returns) in
      let new : drop (length t.segments_out) f.result.segments_out ≡ f.new =
        ap (drop (length t.segments_out)) f.out_grows ∙ drop-append t.segments_out f.new in
      let same : f.result ≡ u = cc (f.returns, e) in
      subst (λ w. Tracks s n bs sent (log ++ drop (length t.segments_out) w.segments_out) w) same
        (record {
          transmits = record {
            holds = f.holds;
            out =
                subst (λ w. AllSent s.isn bs w.segments_out) q
                  (subst (λ j. AllSent j bs v.segments_out) (i ∙ l.transmits.isn_kept) m.out);
            handed = l.transmits.handed;
            isn_kept = f.isn_kept ∙ l.transmits.isn_kept;
          };
          logs = record {
            row = f.row_grows ∙ ap₂ ◌++◌ l.logs.row (sym new);
            below = omega (arith, l.logs.below, ap total_length f.acked_kept);
          };
        })

  ack_received-Tracks :
      (ackno window : ℕ)
      → 0 < t.next_seqno
      → window < 2 ^ 16
      → (unwrap ackno t.isn t.next_seqno ≤ n) ⊎ (t.next_seqno < unwrap ackno t.isn t.next_seqno)
      → Tracks s n bs sent log (ack_received t ackno window)
  ack_received-Tracks ackno window pos small known =
      let m = ack_received-KeepsRow ackno window held pos small in
      let (i, o) = ack_received_out t ackno window small in
      record {
        transmits = record {
          holds = m.holds;
          out = subst (AllSent s.isn bs) (sym o) l.transmits.out;
          handed = l.transmits.handed;
          isn_kept = i ∙ l.transmits.isn_kept;
        };
        logs = record {
          row = m.row ∙ l.logs.row;
          below = elim m.acked [
            | inl z ↦ omega (arith, l.logs.below, ap total_length z)
            | inr (b, c) ↦ elim known [
              | inl h ↦ omega (arith, c, h)
              | inr h ↦ absurd (omega (arith, b, h))
            ]
          ];
        };
      }

Runs-Tracks :
    {s t : TcpSender} {bs : List ℕ} {sent : List TcpSegment} (n : ℕ)
    → Tracks s n [] [] [] s
    → (runs : Runs s bs sent t) → AckedUpTo n runs
    → Tracks s n bs sent (put_out runs) t
Runs-Tracks n i start b = i
Runs-Tracks {s} n i (writes {t} {bs} {sent} str h e far) b =
    let l = Runs-Tracks n i h b in
    let k = l.transmits in
    let new = take (ByteStream.accepted t.stream str) str in
    Tracks-kept l (write-Holds str k.holds e far) (write-Holds_row str k.holds e far)
      (AllSent-more s.isn bs new t.segments_out k.out) (AllSent-more s.isn bs new sent k.handed)
      refl
Runs-Tracks n i (ends h) b =
    let l = Runs-Tracks n i h b in
    let (v, row, acked) = end_input_row l.transmits.holds in
    Tracks-kept l v (row, acked) l.transmits.out l.transmits.handed refl
Runs-Tracks n i (fills h e) b = fill_window-Tracks (Runs-Tracks n i h b) e
Runs-Tracks n i (acks ackno window h pos small) b =
    ack_received-Tracks (Runs-Tracks n i h b.1) ackno window pos small b.0
Runs-Tracks n i (ticks {t} ms h) b =
    let l = Runs-Tracks n i h b in
    Same-Tracks l (tick-Same t ms) (tick-AllSent ms (Transmits-Emits l.transmits))
Runs-Tracks n i (empties {t} h) b =
    let l = Runs-Tracks n i h b in
    Same-Tracks l (send_empty_segment-Same t)
      (send_empty_segment-AllSent (Transmits-Emits l.transmits))
Runs-Tracks {s} n i (takes {t} {bs} {sent} out rest h e) b =
    let l = Runs-Tracks n i h b in
    let k = l.transmits in
    let m = segments_out-Same t rest in
    let (v, w) = AllSent-split s.isn bs out rest (subst (AllSent s.isn bs) e k.out) in
    Tracks-kept l (Same-Holds m k.holds) (Same-Holds_row m k.holds) w
      (AllSent-append s.isn bs sent out k.handed v) refl

init-Tracks :
    (capacity timeout : ℕ) (fixed : Option ℕ) (random n : ℕ)
    → capacity < 2 ^ 64
    → or_else fixed random < 2 ^ 32
    → let s = init capacity timeout fixed random in Tracks s n [] [] [] s
unfolding init-Transmits
init-Tracks capacity timeout fixed random n h r =
    let (row, acked) = init-Holds_row capacity timeout fixed random h r in
    record {
      transmits = init-Transmits capacity timeout fixed random h r;
      logs = record { row = row; below = omega (arith, ap total_length acked) };
    }

-- Over any history of a sender from its construction on, the segments that the calls of `fill_window`
-- put out, in order, are one row, numbered from 0 without a gap. The queue is the rest of the row
-- behind a front that ends at `n` at most, where `n` is a bound of the numbers acknowledged, those
-- aside that had not been sent; the SYN and the FIN are noted as received once they are in this
-- front. The row begins with the SYN; its length is that of its payloads, with one number for a SYN and
-- one for a FIN, so neither comes twice; a FIN is its last segment, and comes only when the stream
-- has ended and all of it is sent. The payloads, with what waits in the stream, are the bytes that were
-- written; at most 2 ^ 16 numbers are in flight. Each segment that was put out, the repeated ones too,
-- is the SYN, or carries the bytes of the stream at the position of its number or none, and the next
-- call of `fill_window` returns. The stream takes nothing behind its end and stays short of
-- 2 ^ 64 - 2 ^ 17 bytes, windows have 16 bits, an acknowledgement comes only once something has been
-- sent, the capacity fits 64 bits and the first sequence number 32.
pub Runs-init-Transmits :
    (capacity timeout : ℕ) (fixed : Option ℕ) (random n : ℕ) {t : TcpSender} {bs : List ℕ}
    {sent : List TcpSegment}
    → capacity < 2 ^ 64
    → or_else fixed random < 2 ^ 32
    → (runs : Runs (init capacity timeout fixed random) bs sent t) → AckedUpTo n runs
    → (k : Transmits (init capacity timeout fixed random) bs sent t) × Logs n (put_out runs) k.holds
      × ((u : TcpSender) × (fill_window t ≡ ok tt u))
Runs-init-Transmits capacity timeout fixed random n h r runs b =
    let l = Runs-Tracks n (init-Tracks capacity timeout fixed random n h r) runs b in
    let (u, e, v, j) = fill_window-Emits (Transmits-Emits l.transmits) in
    (l.transmits, l.logs, (u, e))
