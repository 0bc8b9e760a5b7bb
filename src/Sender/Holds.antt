-- ===== src/Sender/Holds.antt =====
-- What holds of a sender of libsponge/tcp_sender.cc at every moment, and `fill_window` keeps it.
use cs144_sponge.Prelude.{
  ℕ, ◌+◌, ◌^◌, ◌≤◌, ◌<◌, ◌≡◌, refl, sym, ap, ◌∙◌, ◌⊎◌, inl, inr, List, [], ◌∷◌, ◌++◌, Bool, true,
  false, ◌||◌, some, arith, length, length-append, Bool-cases,
}
use cs144_sponge.ByteStream.Queue
use cs144_sponge.ByteStream.Queue.{contents}
use cs144_sponge.Segment.{TcpSegment, flag_size}
use cs144_sponge.Sender.{TcpSender, front_syn, back_fin}
use cs144_sponge.Sender.Segments.{
  payloads, total_length, Numbered, any_syn, any_fin, first_syn, last_fin,
}
use cs144_sponge.Sender.Fill.{IsReady}
use cs144_sponge.Sender.Flight.{segs, InFlight}
use cs144_sponge.Sender.Row.{total_length-append, any_fin-append, front_syn-segs, back_fin-segs}

-- All that was ever sent is a row of segments, numbered from 0 without a gap, of which the front has
-- been acknowledged and the rest is in flight. Its payloads and what still waits in the stream are
-- what was written. It begins with the SYN, a FIN is its last segment, and neither comes twice.
pub record Holds (s : TcpSender) (bs : List ℕ) : Type 0 where
  pub row : List TcpSegment
  pub acked : List TcpSegment
  pub left : List TcpSegment
  pub split : row ≡ acked ++ left
  pub in_flight : InFlight s (total_length acked) left
  pub numbered : Numbered s.isn 0 row
  pub bytes : payloads row ++ contents s.stream ≡ bs
  pub numbers :
      s.next_seqno ≡ flag_size (any_syn row) + length (payloads row) + flag_size (any_fin row)
  pub opened : ((row ≡ []) × (s.window_size ≡ 1)) ⊎ (first_syn row ≡ some true)
  pub syn_known : s.is_syn_received ≡ any_syn acked
  pub fin_known : s.is_fin_received ≡ any_fin acked
  pub closed :
      (any_fin row ≡ false)
      ⊎ ((last_fin row ≡ true) × (contents s.stream ≡ []) × (s.stream.is_input_end ≡ true))
  pub stream_valid : Queue.IsValid s.stream
  pub window_small : s.window_size < 2 ^ 16
  pub flight_small : s.bytes_in_flight ≤ 2 ^ 16
  pub far : length bs + 2 ^ 17 < 2 ^ 64

pub flag_size_le : (b : Bool) → flag_size b ≤ 1
flag_size_le true = omega arith
flag_size_le false = omega arith

pub nil-left : (gs hs : List TcpSegment) → [] ≡ gs ++ hs → gs ≡ []
nil-left [] hs h = refl
nil-left (g ∷ gs) hs h = absurd (cc)

nothing_acked :
    (row acked left : List TcpSegment)
    → row ≡ acked ++ left
    → (row ≡ []) ⊎ (first_syn row ≡ some true)
    → any_syn acked ≡ false
    → acked ≡ []
nothing_acked row [] left e o h = refl
nothing_acked row (g ∷ gs) left e (inl z) h = nil-left (g ∷ gs) left (sym z ∙ e)
nothing_acked row (g ∷ gs) left e (inr f) h =
    let t : some g.header.syn ≡ some true = sym (ap first_syn e) ∙ f in
    absurd (ground (arith, t, h))

pub last_fin_none : (gs : List TcpSegment) → any_fin gs ≡ false → last_fin gs ≡ false
last_fin_none [] h = refl
last_fin_none (g ∷ []) h = ground (arith, h)
last_fin_none (g ∷ (y ∷ ys)) h = last_fin_none (y ∷ ys) (ground (arith, h))

pub or-left : (a b : Bool) → (a || b) ≡ false → a ≡ false
or-left a b h = ground arith

pub or-right : (a b : Bool) → (a || b) ≡ false → b ≡ false
or-right a b h = ground arith

module _ {s : TcpSender} {bs : List ℕ} (k : Holds s bs) where
  pub long : length bs ≡ length (payloads k.row) + length (contents s.stream)
  long = ap length (sym k.bytes) ∙ length-append (payloads k.row) (contents s.stream)

  pub Holds-upto : total_length k.row ≡ s.next_seqno
  Holds-upto = ap total_length k.split ∙ total_length-append k.acked k.left ∙ k.in_flight.upto

  pub opened_lem : (k.row ≡ []) ⊎ (first_syn k.row ≡ some true)
  opened_lem = elim k.opened [ inl z ↦ inl z.0 | inr f ↦ inr f ]

  -- Until the SYN is acknowledged, the queue is all that was sent.
  pub waiting_row : s.is_syn_received ≡ false → segs s.seg_queue ≡ k.row
  waiting_row e =
      let a = nothing_acked k.row k.acked k.left k.split opened_lem (sym k.syn_known ∙ e) in
      k.in_flight.queue ∙ sym (k.split ∙ ap (λ l. l ++ k.left) a)

  front_syn_lem : s.is_syn_received ≡ false → front_syn s.seg_queue ≡ first_syn k.row
  front_syn_lem e = front_syn-segs s.seg_queue ∙ ap first_syn (waiting_row e)

  pub back_fin_lem : back_fin s.seg_queue ≡ last_fin k.left
  back_fin_lem = back_fin-segs s.seg_queue ∙ ap last_fin k.in_flight.queue

  pub any_fin-split : any_fin k.row ≡ (any_fin k.acked || any_fin k.left)
  any_fin-split = ap any_fin k.split ∙ any_fin-append k.acked k.left

  quiet_lem : back_fin s.seg_queue ≡ true → contents s.stream ≡ []
  quiet_lem h = elim k.closed [
    | inr c ↦ c.1
    | inl f ↦
        let l =
          last_fin_none k.left
            (or-right (any_fin k.acked) (any_fin k.left) (sym any_fin-split ∙ f)) in
        absurd (ground (arith, sym h ∙ back_fin_lem ∙ l))
  ]

  pub Holds-next_seqno : s.next_seqno ≤ length bs + 2
  Holds-next_seqno =
      omega (arith, k.numbers, flag_size_le (any_syn k.row), flag_size_le (any_fin k.row), long)

  -- Between any two steps `fill_window` may be called.
  pub Holds-IsReady : IsReady s
  Holds-IsReady = record {
    stream_valid = k.stream_valid;
    syn_first = λ e h. elim opened_lem [
      | inl z ↦ absurd (ground (arith, sym h ∙ front_syn_lem e ∙ ap first_syn z))
      | inr f ↦ absurd (ground (arith, sym h ∙ front_syn_lem e ∙ f))
    ];
    quiet = quiet_lem;
    first_window = elim (Bool-cases s.is_syn_received) [
      | inl e ↦ inl e
      | inr e ↦
          inr
            (elim k.opened [ inl z ↦ inr (omega (arith, z.1)) | inr f ↦ inl (front_syn_lem e ∙ f) ])
    ];
    far = omega (arith, Holds-next_seqno, k.window_small, k.far);
    few = omega (arith, k.flight_small);
  }
