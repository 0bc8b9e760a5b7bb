-- ===== src/Sender/Flight.antt =====
-- The queue of segments in flight of libsponge/tcp_sender.cc, and the loop of `ack_received`.
use cs144_sponge.Prelude.{
  ℕ, ◌+◌, ◌^◌, ◌≡◌, ◌≤◌, ◌<◌, refl, sym, ap, subst, ◌∙◌, inl, inr, List, [], ◌∷◌, ◌++◌, Bool, true,
  false, ◌||◌, leb, arith, Bool-cases, u64, ◌⊎◌, leb→le,
}
use cs144_sponge.Wrapping.{wrap, unwrap}
use cs144_sponge.Wrapping.Nearest.{unwrap-wrap, dist_le}
use cs144_sponge.Segment.{TcpSegment, length_in_sequence_space}
use cs144_sponge.Sender.{TcpSender, SenderSegment, ack_loop, is_acked, take_front}
use cs144_sponge.Sender.Segments.{total_length, Numbered, any_syn, any_fin}

-- The segments of a queue, without their timers.
abbrev pub segs : List SenderSegment → List TcpSegment
segs [] = []
segs (x ∷ xs) = x.seg ∷ segs xs

-- The queue holds what has been sent from `una` on, the oldest number that is not acknowledged.
pub record InFlight (s : TcpSender) (una : ℕ) (gs : List TcpSegment) : Type 0 where
  pub queue : segs s.seg_queue ≡ gs
  pub numbered : Numbered s.isn una gs
  pub upto : una + total_length gs ≡ s.next_seqno
  pub counted : s.bytes_in_flight ≡ total_length gs
  pub short : total_length gs < 2 ^ 31
  pub far : s.next_seqno < 2 ^ 64
  pub isn_small : s.isn < 2 ^ 32

-- Where a number falls into the first segment that is left.
abbrev pub Stops : ℕ → ℕ → List TcpSegment → Type 0
Stops una a [] = Unit {0}
Stops una a (g ∷ gs) = a < una + length_in_sequence_space g

-- What the number `a` leaves of a sender: the segments that lie wholly below it are gone.
pub record Acks (s : TcpSender) (una a : ℕ) (gs : List TcpSegment) (s' : TcpSender) : Type 0 where
  pub acked : List TcpSegment
  pub left : List TcpSegment
  pub cut : gs ≡ acked ++ left
  pub below : (acked ≡ []) ⊎ (una + total_length acked ≤ a)
  pub in_flight : InFlight s' (una + total_length acked) left
  pub stops : Stops (una + total_length acked) a left
  pub syn : s'.is_syn_received ≡ (s.is_syn_received || any_syn acked)
  pub fin : s'.is_fin_received ≡ (s.is_fin_received || any_fin acked)

is_acked_lem :
    (s : TcpSender) (x : SenderSegment) (una a : ℕ)
    → x.seg.header.seqno ≡ wrap una s.isn
    → s.isn < 2 ^ 32
    → una + length_in_sequence_space x.seg ≤ s.next_seqno
    → s.next_seqno < 2 ^ 64
    → s.next_seqno < una + 2 ^ 31
    → is_acked s x a ≡ leb (una + length_in_sequence_space x.seg) a
unfolding is_acked
is_acked_lem s x una a q i u f n =
    let e : unwrap x.seg.header.seqno s.isn s.next_seqno ≡ una =
      ap (λ m. unwrap m s.isn s.next_seqno) q
      ∙ unwrap-wrap una s.isn s.next_seqno i f (omega arith)
          (omega (arith, dist_le una s.next_seqno (omega arith))) in
    ap (λ m. leb (u64 (m + length_in_sequence_space x.seg)) a) e ∙ ap (λ m. leb m a) (omega arith)

pub ack_loop_on :
    (x : SenderSegment) (xs : List SenderSegment) (s : TcpSender) (a : ℕ) (mark : Bool)
    → is_acked s x a ≡ true
    → ack_loop (x ∷ xs) s a mark ≡ ack_loop xs (take_front s x xs) a true
unfolding ack_loop
ack_loop_on x xs s a mark e = ground (arith, e)

pub ack_loop_off :
    (x : SenderSegment) (xs : List SenderSegment) (s : TcpSender) (a : ℕ) (mark : Bool)
    → is_acked s x a ≡ false
    → ack_loop (x ∷ xs) s a mark ≡ (s, mark)
unfolding ack_loop
ack_loop_off x xs s a mark e = ground (arith, e)

take_front-InFlight :
    (s : TcpSender) (x : SenderSegment) (xs : List SenderSegment) (una : ℕ)
    → InFlight s una (x.seg ∷ segs xs)
    → InFlight (take_front s x xs) (una + length_in_sequence_space x.seg) (segs xs)
unfolding take_front
take_front-InFlight s x xs una v = record {
  queue = refl;
  numbered = v.numbered.1;
  upto = omega (arith, v.upto);
  counted = omega (arith, v.counted, v.short);
  short = omega (arith, v.short);
  far = v.far;
  isn_small = v.isn_small;
}

or_assoc : (a b c : Bool) → ((a || b) || c) ≡ (a || (b || c))
or_assoc a b c = ground arith

Acks-take_front :
    (s : TcpSender) (x : SenderSegment) (xs : List SenderSegment) (una a : ℕ) (s' : TcpSender)
    → una + length_in_sequence_space x.seg ≤ a
    → Acks (take_front s x xs) (una + length_in_sequence_space x.seg) a (segs xs) s'
    → Acks s una a (x.seg ∷ segs xs) s'
unfolding take_front
Acks-take_front s x xs una a s' h d =
    let e : una + length_in_sequence_space x.seg + total_length d.acked
        ≡ una + (length_in_sequence_space x.seg + total_length d.acked) =
      omega arith in
    record {
      acked = x.seg ∷ d.acked;
      left = d.left;
      cut = ap (◌∷◌ x.seg) d.cut;
      below =
          inr (elim d.below [
            | inl z ↦ omega (arith, h, ap total_length z)
            | inr l ↦ omega (arith, l)
          ]);
      in_flight = subst (λ n. InFlight s' n d.left) e d.in_flight;
      stops = subst (λ n. Stops n a d.left) e d.stops;
      syn = d.syn ∙ or_assoc s.is_syn_received x.seg.header.syn (any_syn d.acked);
      fin = d.fin ∙ or_assoc s.is_fin_received x.seg.header.fin (any_fin d.acked);
    }

or_false : (b : Bool) → b ≡ (b || false)
or_false b = ground arith

Acks-nothing :
    (s : TcpSender) (una a : ℕ) (gs : List TcpSegment)
    → InFlight s una gs
    → Stops una a gs
    → Acks s una a gs s
Acks-nothing s una a gs v h =
    let e : una ≡ una + 0 = omega arith in
    record {
      acked = [];
      left = gs;
      cut = refl;
      below = inl refl;
      in_flight = subst (λ n. InFlight s n gs) e v;
      stops = subst (λ n. Stops n a gs) e h;
      syn = or_false s.is_syn_received;
      fin = or_false s.is_fin_received;
    }

pub ack_loop_nil : (s : TcpSender) (a : ℕ) (mark : Bool) → ack_loop [] s a mark ≡ (s, mark)
unfolding ack_loop
ack_loop_nil s a mark = refl

pub ack_loop-Acks :
    (q : List SenderSegment) (s : TcpSender) (una a : ℕ) (mark : Bool)
    → InFlight s una (segs q)
    → Acks s una a (segs q) (ack_loop q s a mark).0
ack_loop-Acks [] s una a mark v =
    subst (λ p. Acks s una a [] p.0) (sym (ack_loop_nil s a mark)) (Acks-nothing s una a [] v tt)
ack_loop-Acks (x ∷ xs) s una a mark v =
    let t =
      is_acked_lem s x una a v.numbered.0 v.isn_small (omega (arith, v.upto)) v.far
        (omega (arith, v.upto, v.short)) in
    elim (Bool-cases (leb (una + length_in_sequence_space x.seg) a)) [
      | inl e ↦
          subst (λ p. Acks s una a (x.seg ∷ segs xs) p.0) (sym (ack_loop_on x xs s a mark (t ∙ e)))
            (Acks-take_front s x xs una a _ (leb→le _ _ e) (
              ack_loop-Acks xs (take_front s x xs) (una + length_in_sequence_space x.seg) a true
                (take_front-InFlight s x xs una v)))
      | inr e ↦
          subst (λ p. Acks s una a (x.seg ∷ segs xs) p.0) (sym (ack_loop_off x xs s a mark (t ∙ e)))
            (Acks-nothing s una a (x.seg ∷ segs xs) v (ground (arith, e)))
    ]
