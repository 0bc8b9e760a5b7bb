-- ===== src/Sender/Row.antt =====
-- Rows of segments behind one another, and the queue of libsponge/tcp_sender.cc that holds one.
use cs144_sponge.Prelude.{
  ℕ, ◌+◌, ◌^◌, ◌<◌, ◌≡◌, refl, sym, ap, subst, ◌∙◌, List, [], ◌∷◌, ◌++◌, Bool, ◌||◌, some, arith,
  append-nil, append_assoc,
}
use cs144_sponge.Segment.{TcpSegment, length_in_sequence_space}
use cs144_sponge.Sender.{TcpSender, SenderSegment, enqueue, front_syn, back_fin}
use cs144_sponge.Sender.Segments.{
  enqueue_all, payloads, total_length, Numbered, any_syn, any_fin, first_syn, last_fin,
}
use cs144_sponge.Sender.Flight.{segs}

pub total_length-append :
    (gs hs : List TcpSegment) → total_length (gs ++ hs) ≡ total_length gs + total_length hs
total_length-append [] hs = omega arith
total_length-append (g ∷ gs) hs = omega (arith, total_length-append gs hs)

pub payloads-append : (gs hs : List TcpSegment) → payloads (gs ++ hs) ≡ payloads gs ++ payloads hs
payloads-append [] hs = refl
payloads-append (g ∷ gs) hs =
    ap (◌++◌ g.payload) (payloads-append gs hs)
    ∙ sym (append_assoc g.payload (payloads gs) (payloads hs))

or_assoc : (a b c : Bool) → (a || (b || c)) ≡ ((a || b) || c)
or_assoc a b c = ground arith

pub any_syn-append : (gs hs : List TcpSegment) → any_syn (gs ++ hs) ≡ (any_syn gs || any_syn hs)
any_syn-append [] hs = refl
any_syn-append (g ∷ gs) hs =
    ap (λ b. g.header.syn || b) (any_syn-append gs hs)
    ∙ or_assoc g.header.syn (any_syn gs) (any_syn hs)

pub any_fin-append : (gs hs : List TcpSegment) → any_fin (gs ++ hs) ≡ (any_fin gs || any_fin hs)
any_fin-append [] hs = refl
any_fin-append (g ∷ gs) hs =
    ap (λ b. g.header.fin || b) (any_fin-append gs hs)
    ∙ or_assoc g.header.fin (any_fin gs) (any_fin hs)

pub first_syn-append :
    (gs hs : List TcpSegment) (b : Bool) → first_syn gs ≡ some b → first_syn (gs ++ hs) ≡ some b
first_syn-append [] hs b h = absurd (ground (arith, h))
first_syn-append (g ∷ gs) hs b h = h

pub last_fin-append :
    (gs hs : List TcpSegment) (b : Bool) → first_syn hs ≡ some b → last_fin (gs ++ hs) ≡ last_fin hs
last_fin-append [] hs b h = refl
last_fin-append (g ∷ []) [] b h = absurd (ground (arith, h))
last_fin-append (g ∷ []) (h ∷ hs) b e = refl
last_fin-append (g ∷ (g' ∷ gs)) hs b h = last_fin-append (g' ∷ gs) hs b h

pub Numbered-append :
    (isn n : ℕ) (gs hs : List TcpSegment)
    → Numbered isn n gs
    → Numbered isn (n + total_length gs) hs
    → Numbered isn n (gs ++ hs)
Numbered-append isn n [] hs v w = subst (λ m. Numbered isn m hs) (omega arith) w
Numbered-append isn n (g ∷ gs) hs v w = (
  v.0,
  Numbered-append isn (n + length_in_sequence_space g) gs hs v.1
      (subst (λ m. Numbered isn m hs) (omega arith) w),
)

pub Numbered-behind :
    (isn n : ℕ) (gs hs : List TcpSegment)
    → Numbered isn n (gs ++ hs)
    → Numbered isn (n + total_length gs) hs
Numbered-behind isn n [] hs v = subst (λ m. Numbered isn m hs) (omega arith) v
Numbered-behind isn n (g ∷ gs) hs v =
    subst (λ m. Numbered isn m hs) (omega arith)
      (Numbered-behind isn (n + length_in_sequence_space g) gs hs v.1)

pub front_syn-segs : (q : List SenderSegment) → front_syn q ≡ first_syn (segs q)
front_syn-segs [] = refl
front_syn-segs (x ∷ xs) = refl

pub back_fin-segs : (q : List SenderSegment) → back_fin q ≡ last_fin (segs q)
back_fin-segs [] = refl
back_fin-segs (x ∷ []) = refl
back_fin-segs (x ∷ (y ∷ ys)) = back_fin-segs (y ∷ ys)

segs-append : (p q : List SenderSegment) → segs (p ++ q) ≡ segs p ++ segs q
segs-append [] q = refl
segs-append (x ∷ xs) q = ap (◌∷◌ x.seg) (segs-append xs q)

-- What a row leaves of a sender: it stands at the back of the queue and is counted.
pub record Queued (s : TcpSender) (gs : List TcpSegment) (t : TcpSender) : Type 0 where
  pub queue : segs t.seg_queue ≡ segs s.seg_queue ++ gs
  pub next : t.next_seqno ≡ s.next_seqno + total_length gs
  pub flight : t.bytes_in_flight ≡ s.bytes_in_flight + total_length gs
  pub out : t.segments_out ≡ s.segments_out ++ gs
  pub isn_kept : t.isn ≡ s.isn
  pub syn_kept : t.is_syn_received ≡ s.is_syn_received
  pub fin_kept : t.is_fin_received ≡ s.is_fin_received
  pub window_kept : t.window_size ≡ s.window_size
  pub stream_kept : t.stream ≡ s.stream

enqueue-Queued :
    (s : TcpSender) (g : TcpSegment) (gs : List TcpSegment) (t : TcpSender)
    → s.next_seqno + length_in_sequence_space g < 2 ^ 64
    → s.bytes_in_flight + length_in_sequence_space g < 2 ^ 64
    → Queued (enqueue s g) gs t
    → Queued s (g ∷ gs) t
unfolding enqueue
enqueue-Queued s g gs t h k q = record {
  queue =
      q.queue
      ∙ ap (λ l. l ++ gs) (segs-append s.seg_queue _)
      ∙ append_assoc (segs s.seg_queue) (g ∷ []) gs;
  next = omega (arith, q.next);
  flight = omega (arith, q.flight);
  out = q.out ∙ append_assoc s.segments_out (g ∷ []) gs;
  isn_kept = q.isn_kept;
  syn_kept = q.syn_kept;
  fin_kept = q.fin_kept;
  window_kept = q.window_kept;
  stream_kept = q.stream_kept;
}

enqueue_numbers :
    (s : TcpSender) (g : TcpSegment)
    → s.next_seqno + length_in_sequence_space g < 2 ^ 64
    → s.bytes_in_flight + length_in_sequence_space g < 2 ^ 64
    → ((enqueue s g).next_seqno ≡ s.next_seqno + length_in_sequence_space g)
      × ((enqueue s g).bytes_in_flight ≡ s.bytes_in_flight + length_in_sequence_space g)
unfolding enqueue
enqueue_numbers s g h k = (omega arith, omega arith)

pub enqueue_all-Queued :
    (gs : List TcpSegment) (s : TcpSender)
    → s.next_seqno + total_length gs < 2 ^ 64
    → s.bytes_in_flight + total_length gs < 2 ^ 64
    → Queued s gs (enqueue_all s gs)
enqueue_all-Queued [] s h k = record {
  queue = sym (append-nil _);
  next = omega arith;
  flight = omega arith;
  out = sym (append-nil _);
  isn_kept = refl;
  syn_kept = refl;
  fin_kept = refl;
  window_kept = refl;
  stream_kept = refl;
}
enqueue_all-Queued (g ∷ gs) s h k =
    let (n, f) = enqueue_numbers s g (omega arith) (omega arith) in
    enqueue-Queued s g gs _ (omega arith) (omega arith)
      (enqueue_all-Queued gs (enqueue s g) (omega (arith, n)) (omega (arith, f)))
