-- ===== src/Sender/Keeps.antt =====
-- What the calls of libsponge/tcp_sender.cc that send nothing new leave as it is.
use cs144_sponge.Prelude.{
  ℕ, ◌+◌, ◌^◌, ◌≤◌, ◌<◌, ◌≡◌, refl, sym, ap, subst, ◌∙◌, inl, inr, List, [], ◌∷◌, Bool, true, false,
  arith, dec_lt, Bool-cases, leb, if◌then◌else◌, u64,
}
use cs144_sponge.Wrapping.{unwrap}
use cs144_sponge.Segment.{TcpSegment}
use cs144_sponge.Sender.{
  TcpSender, SenderSegment, ack_received, ack_loop, is_acked, take_front, restart, set_window, tick,
  tick_front, send_empty_segment,
}
use cs144_sponge.Sender.Flight.{segs, ack_loop_on, ack_loop_off, ack_loop_nil}
use cs144_sponge.Sender.Ack.{ack_received_beyond, ack_received_within, restart_on, restart_off}
use cs144_sponge.Sender.Holds.{Holds}

-- Everything that the history of the bytes is about.
pub record Same (s t : TcpSender) : Type 0 where
  pub isn : t.isn ≡ s.isn
  pub next : t.next_seqno ≡ s.next_seqno
  pub stream : t.stream ≡ s.stream
  pub window : t.window_size ≡ s.window_size
  pub queue : segs t.seg_queue ≡ segs s.seg_queue
  pub flight : t.bytes_in_flight ≡ s.bytes_in_flight
  pub syn : t.is_syn_received ≡ s.is_syn_received
  pub fin : t.is_fin_received ≡ s.is_fin_received

pub Same-Holds : {s t : TcpSender} {bs : List ℕ} → Same s t → Holds s bs → Holds t bs
Same-Holds {s} {t} {bs} m k = record {
  row = k.row;
  acked = k.acked;
  left = k.left;
  split = k.split;
  in_flight = record {
    queue = m.queue ∙ k.in_flight.queue;
    numbered = rw (m.isn) k.in_flight.numbered;
    upto = k.in_flight.upto ∙ sym m.next;
    counted = m.flight ∙ k.in_flight.counted;
    short = k.in_flight.short;
    far = omega (arith, m.next, k.in_flight.far);
    isn_small = omega (arith, m.isn, k.in_flight.isn_small);
  };
  numbered = rw (m.isn) k.numbered;
  bytes = rw (m.stream) k.bytes;
  numbers = m.next ∙ k.numbers;
  opened = rw (m.window) k.opened;
  syn_known = m.syn ∙ k.syn_known;
  fin_known = m.fin ∙ k.fin_known;
  closed = rw (m.stream) k.closed;
  stream_valid = rw (m.stream) k.stream_valid;
  window_small = rw (m.window) k.window_small;
  flight_small = rw (m.flight) k.flight_small;
  far = k.far;
}

pub Same-Holds_row :
    {s t : TcpSender} {bs : List ℕ} (m : Same s t) (k : Holds s bs)
    → ((Same-Holds m k).row ≡ k.row) × ((Same-Holds m k).acked ≡ k.acked)
unfolding Same-Holds
Same-Holds_row m k = (refl, refl)

Same-refl : (s : TcpSender) → Same s s
Same-refl s = record {
  isn = refl;
  next = refl;
  stream = refl;
  window = refl;
  queue = refl;
  flight = refl;
  syn = refl;
  fin = refl;
}

Same-trans : {s t u : TcpSender} → Same s t → Same t u → Same s u
Same-trans a b = record {
  isn = b.isn ∙ a.isn;
  next = b.next ∙ a.next;
  stream = b.stream ∙ a.stream;
  window = b.window ∙ a.window;
  queue = b.queue ∙ a.queue;
  flight = b.flight ∙ a.flight;
  syn = b.syn ∙ a.syn;
  fin = b.fin ∙ a.fin;
}

Same-if : (b : Bool) {s t u : TcpSender} → Same s t → Same s u → Same s (if b then t else u)
Same-if true h k = h
Same-if false h k = k

-- Only the clock, the counter, the timer of the front and what is sent out may change.
Same-timers :
    (s : TcpSender) (out : List TcpSegment) (clock count : ℕ) (q : List SenderSegment)
    → segs q ≡ segs s.seg_queue
    → Same s (record s {
      segments_out = out;
      last_tick_time = clock;
      consecutive_retrans = count;
      seg_queue = q;
    })
Same-timers s out clock count q e = record {
  isn = refl;
  next = refl;
  stream = refl;
  window = refl;
  queue = e;
  flight = refl;
  syn = refl;
  fin = refl;
}

tick_front-Same :
    (s : TcpSender) (q : List SenderSegment) → s.seg_queue ≡ q → Same s (tick_front s q)
unfolding tick_front
tick_front-Same s [] e = Same-refl s
tick_front-Same s (x ∷ xs) e =
    Same-if (leb (u64 (x.time + x.rto)) s.last_tick_time) (Same-timers s _ _ _ _ (sym (ap segs e)))
      (Same-refl s)

pub tick-Same : (s : TcpSender) (ms : ℕ) → Same s (tick s ms)
unfolding tick
tick-Same s ms =
    Same-trans (Same-timers s _ (u64 (s.last_tick_time + ms)) _ _ refl) (tick_front-Same _ _ refl)

pub send_empty_segment-Same : (s : TcpSender) → Same s (send_empty_segment s)
unfolding send_empty_segment
send_empty_segment-Same s = Same-timers s _ _ _ _ refl

pub segments_out-Same :
    (s : TcpSender) (out : List TcpSegment) → Same s (record s { segments_out = out })
segments_out-Same s out = Same-timers s out _ _ _ refl

-- What an acknowledgement leaves as it is.
record Keeps (s t : TcpSender) : Type 0 where
  isn : t.isn ≡ s.isn
  next : t.next_seqno ≡ s.next_seqno
  stream : t.stream ≡ s.stream
  window : t.window_size ≡ s.window_size
  out : t.segments_out ≡ s.segments_out

take_front-Keeps :
    (s t : TcpSender) (x : SenderSegment) (xs : List SenderSegment)
    → Keeps (take_front s x xs) t
    → Keeps s t
unfolding take_front
take_front-Keeps s t x xs k = record {
  isn = k.isn;
  next = k.next;
  stream = k.stream;
  window = k.window;
  out = k.out;
}

ack_loop-Keeps :
    (q : List SenderSegment) (s : TcpSender) (a : ℕ) (mark : Bool) → Keeps s (ack_loop q s a mark).0
ack_loop-Keeps [] s a mark =
    subst (λ p. Keeps s p.0) (sym (ack_loop_nil s a mark))
      (record { isn = refl; next = refl; stream = refl; window = refl; out = refl })
ack_loop-Keeps (x ∷ xs) s a mark = elim (Bool-cases (is_acked s x a)) [
  | inl e ↦
      subst (λ p. Keeps s p.0) (sym (ack_loop_on x xs s a mark e))
        (take_front-Keeps s _ x xs (ack_loop-Keeps xs (take_front s x xs) a true))
  | inr e ↦
      subst (λ p. Keeps s p.0) (sym (ack_loop_off x xs s a mark e))
        (record { isn = refl; next = refl; stream = refl; window = refl; out = refl })
]

Keeps-restart : (s t : TcpSender) (mark : Bool) → Keeps s t → Keeps s (restart (t, mark))
Keeps-restart s t false k = subst (Keeps s) (sym (restart_off t)) k
Keeps-restart s t true k =
    subst (Keeps s) (sym (restart_on t))
      (record { isn = k.isn; next = k.next; stream = k.stream; window = k.window; out = k.out })

set_window_lem :
    (s t : TcpSender) (window : ℕ)
    → window < 2 ^ 16
    → Keeps (set_window s window) t
    → (t.isn ≡ s.isn)
      × (t.next_seqno ≡ s.next_seqno)
      × (t.stream ≡ s.stream)
      × (t.window_size < 2 ^ 16)
      × (t.segments_out ≡ s.segments_out)
unfolding set_window
set_window_lem s t window h k = (k.isn, k.next, k.stream, ground (arith, k.window), k.out)

pub ack_received_keeps :
    (s : TcpSender) (ackno window : ℕ)
    → unwrap ackno s.isn s.next_seqno ≤ s.next_seqno
    → window < 2 ^ 16
    → let t = ack_received s ackno window in
      (t.isn ≡ s.isn)
      × (t.next_seqno ≡ s.next_seqno)
      × (t.stream ≡ s.stream)
      × (t.window_size < 2 ^ 16)
      × (t.segments_out ≡ s.segments_out)
ack_received_keeps s ackno window le h = set_window_lem s _ window h (
    subst (Keeps (set_window s window)) (sym (ack_received_within s ackno window le))
      (Keeps-restart (set_window s window) _ _ (ack_loop-Keeps s.seg_queue _ _ false)))

pub ack_received_out :
    (s : TcpSender) (ackno window : ℕ)
    → window < 2 ^ 16
    → let t = ack_received s ackno window in (t.isn ≡ s.isn) × (t.segments_out ≡ s.segments_out)
ack_received_out s ackno window h = elim (dec_lt s.next_seqno (unwrap ackno s.isn s.next_seqno)) [
  | yes b ↦
      let e = ack_received_beyond s ackno window b in
      (ap (λ t. t.isn) e, ap (λ t. t.segments_out) e)
  | no b ↦ let k = ack_received_keeps s ackno window (omega arith) h in (k.0, k.4)
]
