-- ===== src/Sender/Emits.antt =====
-- What the calls of libsponge/tcp_sender.cc put out.
use cs144_sponge.Prelude.{
  ℕ, ◌+◌, ◌≡◌, refl, sym, subst, inl, inr, List, [], ◌∷◌, ◌++◌, Bool, true, false, ok, leb,
  if◌then◌else◌, u64,
}
use cs144_sponge.Sender.{
  TcpSender, SenderSegment, fill_window, tick, tick_front, send_empty_segment, next_seqno_wrapped,
}
use cs144_sponge.Sender.Flight.{segs}
use cs144_sponge.Sender.Holds.{Holds, Holds-next_seqno}
use cs144_sponge.Sender.Progress.{fill_window-Filled}
use cs144_sponge.Sender.Parts.{AllSent, AllSent-append, AllSent-split}
use cs144_sponge.Sender.PartsOfRow.{Holds-AllSent}

-- A sender of which all holds, and whose segments that wait to be taken are parts of the stream.
pub record Emits (s : TcpSender) (bs : List ℕ) : Type 0 where
  pub holds : Holds s bs
  pub out : AllSent s.isn bs s.segments_out

queue-AllSent : {s : TcpSender} {bs : List ℕ} → Holds s bs → AllSent s.isn bs (segs s.seg_queue)
queue-AllSent {s} {bs} k =
    subst (AllSent s.isn bs) (sym k.in_flight.queue)
      (AllSent-split s.isn bs k.acked k.left (subst (AllSent s.isn bs) k.split (Holds-AllSent k))).1

if-AllSent :
    (isn : ℕ) (bs : List ℕ) (b : Bool) (t u : TcpSender)
    → AllSent isn bs t.segments_out
    → AllSent isn bs u.segments_out
    → AllSent isn bs (if b then t else u).segments_out
if-AllSent isn bs true t u v w = v
if-AllSent isn bs false t u v w = w

tick_front-AllSent :
    (isn : ℕ) (bs : List ℕ) (s : TcpSender) (q : List SenderSegment)
    → AllSent isn bs (segs q)
    → AllSent isn bs s.segments_out
    → AllSent isn bs (tick_front s q).segments_out
unfolding tick_front
tick_front-AllSent isn bs s [] v w = w
tick_front-AllSent isn bs s (x ∷ xs) v w =
    if-AllSent isn bs (leb (u64 (x.time + x.rto)) s.last_tick_time) _ _
      (AllSent-append isn bs s.segments_out (x.seg ∷ []) w (v.0, tt)) w

-- A tick puts out what is in flight.
pub tick-AllSent :
    {s : TcpSender} {bs : List ℕ} (ms : ℕ) → Emits s bs → AllSent s.isn bs (tick s ms).segments_out
unfolding tick
tick-AllSent {s} {bs} ms k =
    tick_front-AllSent s.isn bs (record s { last_tick_time = u64 (s.last_tick_time + ms) })
      s.seg_queue (queue-AllSent k.holds) k.out

-- An empty segment is a part of the stream wherever it stands.
pub send_empty_segment-AllSent :
    {s : TcpSender} {bs : List ℕ}
    → Emits s bs
    → AllSent s.isn bs (send_empty_segment s).segments_out
unfolding send_empty_segment next_seqno_wrapped
send_empty_segment-AllSent {s} {bs} k = AllSent-append s.isn bs s.segments_out _ k.out (
  inr (record {
    index = s.next_seqno;
    seqno = refl;
    syn = refl;
    high = Holds-next_seqno k.holds;
    bytes = inl refl;
  }),
  tt,
)

-- `fill_window` puts out what is new of the row.
pub fill_window-Emits :
    {s : TcpSender} {bs : List ℕ}
    → Emits s bs
    → (t : TcpSender) × (fill_window s ≡ ok tt t) × Emits t bs × (t.isn ≡ s.isn)
fill_window-Emits {s} {bs} k =
    let f = fill_window-Filled k.holds in
    let v : AllSent f.result.isn bs (k.holds.row ++ f.new) =
      subst (AllSent f.result.isn bs) f.row_grows (Holds-AllSent f.holds) in
    (
      f.result,
      f.returns,
      record {
        holds = f.holds;
        out = subst (AllSent f.result.isn bs) (sym f.out_grows) (
            AllSent-append f.result.isn bs s.segments_out f.new
              (subst (λ i. AllSent i bs s.segments_out) (sym f.isn_kept) k.out)
              (AllSent-split f.result.isn bs k.holds.row f.new v).1);
      },
      f.isn_kept,
    )
