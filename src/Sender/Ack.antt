-- ===== src/Sender/Ack.antt =====
-- `ack_received` of libsponge/tcp_sender.cc: what an acknowledgement takes off the queue.
use cs144_sponge.Prelude.{
  ℕ, ◌^◌, ◌≡◌, ◌≤◌, ◌<◌, ◌⊎◌, inl, inr, dec_lt, refl, sym, ap, subst, ◌∙◌, List, [], ◌∷◌, Bool,
  true, false, arith,
}
use cs144_sponge.Wrapping.{wrap, unwrap, dist}
use cs144_sponge.Wrapping.Nearest.{unwrap-wrap}
use cs144_sponge.Segment.{TcpSegment}
use cs144_sponge.Sender.{
  TcpSender, SenderSegment, ack_loop, ack_received, restart, restart_front, set_window,
}
use cs144_sponge.Sender.Flight.{segs, InFlight, Acks, ack_loop-Acks}

pub ack_received_beyond :
    (s : TcpSender) (ackno window : ℕ)
    → s.next_seqno < unwrap ackno s.isn s.next_seqno
    → ack_received s ackno window ≡ s
unfolding ack_received
ack_received_beyond s ackno window h = ground arith

pub ack_received_within :
    (s : TcpSender) (ackno window : ℕ)
    → unwrap ackno s.isn s.next_seqno ≤ s.next_seqno
    → ack_received s ackno window
      ≡ restart (ack_loop s.seg_queue (set_window s window) (unwrap ackno s.isn s.next_seqno) false)
unfolding ack_received
ack_received_within s ackno window h = ground arith

pub segs-restart_front :
    (s : TcpSender) (q : List SenderSegment) → segs (restart_front s q) ≡ segs q
unfolding restart_front
segs-restart_front s [] = refl
segs-restart_front s (x ∷ xs) = refl

pub restart_on :
    (s : TcpSender) → restart (s, true) ≡ record s { seg_queue = restart_front s s.seg_queue }
unfolding restart
restart_on s = refl

pub restart_off : (s : TcpSender) → restart (s, false) ≡ s
unfolding restart
restart_off s = refl

-- The timer of the front changes nothing that an acknowledgement is about.
Acks-restart :
    (s : TcpSender) (una a : ℕ) (gs : List TcpSegment) (s' : TcpSender) (mark : Bool)
    → Acks s una a gs s'
    → Acks s una a gs (restart (s', mark))
Acks-restart s una a gs s' false d = subst (Acks s una a gs) (sym (restart_off s')) d
Acks-restart s una a gs s' true d = subst (Acks s una a gs) (sym (restart_on s')) (record {
  acked = d.acked;
  left = d.left;
  cut = d.cut;
  below = d.below;
  in_flight = record {
    queue = segs-restart_front s' s'.seg_queue ∙ d.in_flight.queue;
    numbered = d.in_flight.numbered;
    upto = d.in_flight.upto;
    counted = d.in_flight.counted;
    short = d.in_flight.short;
    far = d.in_flight.far;
    isn_small = d.in_flight.isn_small;
  };
  stops = d.stops;
  syn = d.syn;
  fin = d.fin;
})

-- So does the window.
set_window-InFlight :
    (s : TcpSender) (window una : ℕ) (gs : List TcpSegment)
    → InFlight s una gs
    → InFlight (set_window s window) una (segs s.seg_queue)
unfolding set_window
set_window-InFlight s window una gs v =
    let k = subst (InFlight s una) (sym v.queue) v in
    record {
      queue = refl;
      numbered = k.numbered;
      upto = k.upto;
      counted = k.counted;
      short = k.short;
      far = k.far;
      isn_small = k.isn_small;
    }

Acks-set_window :
    (s : TcpSender) (window una a : ℕ) (gs : List TcpSegment) (s' : TcpSender)
    → Acks (set_window s window) una a gs s'
    → Acks s una a gs s'
unfolding set_window
Acks-set_window s window una a gs s' d = record {
  acked = d.acked;
  left = d.left;
  cut = d.cut;
  below = d.below;
  in_flight = d.in_flight;
  stops = d.stops;
  syn = d.syn;
  fin = d.fin;
}

pub ack_received_lem :
    (s : TcpSender) (una ackno a window : ℕ) (gs : List TcpSegment)
    → InFlight s una gs
    → unwrap ackno s.isn s.next_seqno ≡ a
    → a ≤ s.next_seqno
    → Acks s una a gs (ack_received s ackno window)
ack_received_lem s una ackno a window gs v e le =
    let t = set_window s window in
    let l = ack_loop s.seg_queue t a false in
    subst (λ hs. Acks s una a hs (ack_received s ackno window)) v.queue
      (subst (Acks s una a (segs s.seg_queue))
        (sym (
          ack_received_within s ackno window (omega arith)
          ∙ ap (λ n. restart (ack_loop s.seg_queue t n false)) e))
        (Acks-restart s una a (segs s.seg_queue) l.0 l.1 (
          Acks-set_window s window una a (segs s.seg_queue) l.0
            (ack_loop-Acks s.seg_queue t una a false (set_window-InFlight s window una gs v)))))

-- An acknowledgement of a number that has been sent takes off exactly the segments that lie wholly
-- below it, and the count of bytes in flight goes down with them; an acknowledgement of a later
-- number changes nothing. The number may be anywhere within 2 ^ 31 of the next one.
pub ack_received-Acks :
    (s : TcpSender) (una a window : ℕ) (gs : List TcpSegment)
    → InFlight s una gs
    → a < 2 ^ 64
    → dist a s.next_seqno < 2 ^ 31
    → ((a ≤ s.next_seqno) × Acks s una a gs (ack_received s (wrap a s.isn) window))
      ⊎ ((s.next_seqno < a) × (ack_received s (wrap a s.isn) window ≡ s))
ack_received-Acks s una a window gs v h near =
    let e : unwrap (wrap a s.isn) s.isn s.next_seqno ≡ a =
      unwrap-wrap a s.isn s.next_seqno v.isn_small v.far h near in
    elim (dec_lt s.next_seqno a) [
      | no k ↦
          inl (omega arith, ack_received_lem s una (wrap a s.isn) a window gs v e (omega arith))
      | yes k ↦ inr (k, ack_received_beyond s (wrap a s.isn) window (omega arith))
    ]
