-- ===== src/Sender/Calls.antt =====
-- What holds of a sender of libsponge/tcp_sender.cc is kept by its calls, one by one.
use cs144_sponge.Prelude.{
  ℕ, ◌+◌, ◌^◌, ◌≤◌, ◌<◌, ◌≡◌, refl, sym, ap, subst, ◌∙◌, ◌⊎◌, Bool-cases, inl, inr, List, [], ◌++◌,
  true, false, ◌||◌, arith, append_assoc, append-nil, dec_lt, length, take, Option, length-append,
  length-take,
}
use cs144_sponge.Wrapping.{unwrap}
use cs144_sponge.ByteStream
use cs144_sponge.ByteStream.{ByteStream}
use cs144_sponge.ByteStream.Queue
use cs144_sponge.ByteStream.Queue.{
  contents, Written, write-Written, init-IsValid, init_lem, end_input_lem, set_error_lem,
  end_input_ends,
}
use cs144_sponge.Segment.{flag_size}
use cs144_sponge.Sender.{TcpSender, init, or_else, ack_received}
use cs144_sponge.Sender.Segments.{payloads, total_length, any_syn, any_fin}
use cs144_sponge.Sender.Flight.{InFlight, Acks}
use cs144_sponge.Sender.Ack.{ack_received_lem, ack_received_beyond}
use cs144_sponge.Sender.Row.{total_length-append, any_syn-append, any_fin-append}
use cs144_sponge.Sender.Holds.{Holds}
use cs144_sponge.Sender.Keeps.{ack_received_keeps}

-- Another stream in the place of the sender's, with more written to it.
stream-Holds :
    {s : TcpSender} {bs : List ℕ} (new : List ℕ) (stream' : ByteStream)
    → Holds s bs
    → contents stream' ≡ contents s.stream ++ new
    → Queue.IsValid stream'
    → ((new ≡ []) × (stream'.is_input_end ≡ true)) ⊎ (s.stream.is_input_end ≡ false)
    → length (bs ++ new) + 2 ^ 17 < 2 ^ 64
    → Holds (record s { stream = stream' }) (bs ++ new)
stream-Holds {s} {bs} new stream' k c v e far = record {
  row = k.row;
  acked = k.acked;
  left = k.left;
  split = k.split;
  in_flight = record {
    queue = k.in_flight.queue;
    numbered = k.in_flight.numbered;
    upto = k.in_flight.upto;
    counted = k.in_flight.counted;
    short = k.in_flight.short;
    far = k.in_flight.far;
    isn_small = k.in_flight.isn_small;
  };
  numbered = k.numbered;
  bytes =
      ap (◌++◌ (payloads k.row)) c
      ∙ sym (append_assoc (payloads k.row) (contents s.stream) new)
      ∙ ap (λ l. l ++ new) k.bytes;
  numbers = k.numbers;
  opened = k.opened;
  syn_known = k.syn_known;
  fin_known = k.fin_known;
  closed = elim k.closed [
    | inl f ↦ inl f
    | inr f ↦ elim e [
      | inr g ↦ absurd (ground (arith, sym f.2 ∙ g))
      | inl g ↦ inr (f.0, c ∙ ap (◌++◌ (contents s.stream)) g.0 ∙ append-nil _ ∙ f.1, g.1)
    ]
  ];
  stream_valid = v;
  window_small = k.window_small;
  flight_small = k.flight_small;
  far = far;
}

Acks-Holds :
    {s : TcpSender} {bs : List ℕ} {a : ℕ} (t : TcpSender) (k : Holds s bs)
    → Acks s (total_length k.acked) a k.left t
    → (t.isn ≡ s.isn)
      × (t.next_seqno ≡ s.next_seqno)
      × (t.stream ≡ s.stream)
      × (t.window_size < 2 ^ 16)
      × (t.segments_out ≡ s.segments_out)
    → 0 < s.next_seqno
    → Holds t bs
Acks-Holds {s} {bs} t k d (isn, next, stream, small, out) pos = record {
  row = k.row;
  acked = k.acked ++ d.acked;
  left = d.left;
  split = k.split ∙ ap (◌++◌ k.acked) d.cut ∙ sym (append_assoc k.acked d.acked d.left);
  in_flight =
      subst (λ n. InFlight t n d.left) (sym (total_length-append k.acked d.acked)) d.in_flight;
  numbered = rw isn k.numbered;
  bytes = rw stream k.bytes;
  numbers = next ∙ k.numbers;
  opened = elim k.opened [
    | inr f ↦ inr f
    | inl z ↦ absurd (
        omega (
          arith,
          pos,
          k.numbers,
          ap (λ gs. flag_size (any_syn gs)) z.0,
          ap (λ gs. flag_size (any_fin gs)) z.0,
          ap (λ gs. length (payloads gs)) z.0,
        ))
  ];
  syn_known =
      d.syn ∙ ap (λ b. b || any_syn d.acked) k.syn_known ∙ sym (any_syn-append k.acked d.acked);
  fin_known =
      d.fin ∙ ap (λ b. b || any_fin d.acked) k.fin_known ∙ sym (any_fin-append k.acked d.acked);
  closed = rw stream k.closed;
  stream_valid = rw stream k.stream_valid;
  window_small = small;
  flight_small = omega (
    arith,
    d.in_flight.counted,
    k.in_flight.counted,
    k.flight_small,
    ap total_length d.cut ∙ total_length-append d.acked d.left,
  );
  far = k.far;
}

-- An acknowledgement leaves the row, and takes off what it is about.
pub record KeepsRow {s : TcpSender} {bs : List ℕ} (k : Holds s bs) (a : ℕ) (t : TcpSender)
    : Type 0 where
  pub holds : Holds t bs
  pub row : holds.row ≡ k.row
  pub acked : (holds.acked ≡ k.acked) ⊎ ((a ≤ s.next_seqno) × (total_length holds.acked ≤ a))

Acks-KeepsRow :
    {s : TcpSender} {bs : List ℕ} {a : ℕ} (t : TcpSender) (k : Holds s bs)
    → Acks s (total_length k.acked) a k.left t
    → (t.isn ≡ s.isn)
      × (t.next_seqno ≡ s.next_seqno)
      × (t.stream ≡ s.stream)
      × (t.window_size < 2 ^ 16)
      × (t.segments_out ≡ s.segments_out)
    → 0 < s.next_seqno
    → a ≤ s.next_seqno
    → KeepsRow k a t
unfolding Acks-Holds
Acks-KeepsRow t k d m pos le = record {
  holds = Acks-Holds t k d m pos;
  row = refl;
  acked = elim d.below [
    | inl z ↦ inl (ap (◌++◌ k.acked) z ∙ append-nil k.acked)
    | inr b ↦ inr (le, omega (arith, b, total_length-append k.acked d.acked))
  ];
}

pub ack_received-KeepsRow :
    {s : TcpSender} {bs : List ℕ} (ackno window : ℕ) (k : Holds s bs)
    → 0 < s.next_seqno
    → window < 2 ^ 16
    → KeepsRow k (unwrap ackno s.isn s.next_seqno) (ack_received s ackno window)
ack_received-KeepsRow {s} {bs} ackno window k pos h =
    let a = unwrap ackno s.isn s.next_seqno in
    elim (dec_lt s.next_seqno a) [
      | yes b ↦
          subst (KeepsRow k a) (sym (ack_received_beyond s ackno window b))
            (record { holds = k; row = refl; acked = inl refl })
      | no b ↦
          Acks-KeepsRow (ack_received s ackno window) k
            (ack_received_lem s _ ackno a window k.left k.in_flight refl (omega arith))
            (ack_received_keeps s ackno window (omega arith) h) pos (omega arith)
    ]

pub ack_received-Holds :
    {s : TcpSender} {bs : List ℕ} (ackno window : ℕ)
    → Holds s bs
    → 0 < s.next_seqno
    → window < 2 ^ 16
    → Holds (ack_received s ackno window) bs
ack_received-Holds ackno window k pos h = (ack_received-KeepsRow ackno window k pos h).holds

pub write-Holds :
    {s : TcpSender} {bs : List ℕ} (str : List ℕ)
    → Holds s bs
    → s.stream.is_input_end ≡ false
    → length bs + length str + 2 ^ 17 < 2 ^ 64
    → Holds
        (record s { stream = (ByteStream.write s.stream str).1 })
        (bs ++ take (ByteStream.accepted s.stream str) str)
write-Holds {s} {bs} str k e far =
    let w = (write-Written str k.stream_valid).1 in
    let n = ByteStream.accepted s.stream str in
    stream-Holds (take n str) (ByteStream.write s.stream str).1 k w.queued w.valid (inr e)
      (omega (arith, length-append bs (take n str), length-take n str, far))

pub write-Holds_row :
    {s : TcpSender} {bs : List ℕ} (str : List ℕ) (k : Holds s bs)
    (e : s.stream.is_input_end ≡ false) (far : length bs + length str + 2 ^ 17 < 2 ^ 64)
    → ((write-Holds str k e far).row ≡ k.row) × ((write-Holds str k e far).acked ≡ k.acked)
unfolding write-Holds stream-Holds
write-Holds_row str k e far = (refl, refl)

-- The same bytes, written in another way.
subst-Holds :
    {s : TcpSender} {bs cs : List ℕ} (e : bs ≡ cs) (k : Holds s bs)
    → (h : Holds s cs) × (h.row ≡ k.row) × (h.acked ≡ k.acked)
subst-Holds {s} e k =
    subst (λ ds. (h : Holds s ds) × (h.row ≡ k.row) × (h.acked ≡ k.acked)) e (k, refl, refl)

pub end_input_row :
    {s : TcpSender} {bs : List ℕ} (k : Holds s bs)
    → (h : Holds (record s { stream = ByteStream.end_input s.stream }) bs) × (h.row ≡ k.row)
      × (h.acked ≡ k.acked)
unfolding stream-Holds
end_input_row {s} {bs} k =
    let (v, c, p, r) = end_input_lem k.stream_valid in
    subst-Holds (append-nil bs) (
      stream-Holds [] (ByteStream.end_input s.stream) k (c ∙ sym (append-nil _)) v
        (inl (refl, end_input_ends s.stream)) (omega (arith, k.far, ap length (append-nil bs))))

pub end_input-Holds :
    {s : TcpSender} {bs : List ℕ}
    → Holds s bs
    → Holds (record s { stream = ByteStream.end_input s.stream }) bs
end_input-Holds k = (end_input_row k).0

pub init-Holds :
    (capacity timeout : ℕ) (fixed : Option ℕ) (random : ℕ)
    → capacity < 2 ^ 64
    → or_else fixed random < 2 ^ 32
    → Holds (init capacity timeout fixed random) []
unfolding init
init-Holds capacity timeout fixed random h r = record {
  row = [];
  acked = [];
  left = [];
  split = refl;
  in_flight = record {
    queue = refl;
    numbered = tt;
    upto = refl;
    counted = refl;
    short = omega arith;
    far = omega arith;
    isn_small = r;
  };
  numbered = tt;
  bytes = (init_lem capacity).0;
  numbers = refl;
  opened = inl (refl, refl);
  syn_known = refl;
  fin_known = refl;
  closed = inl refl;
  stream_valid = init-IsValid capacity h;
  window_small = omega arith;
  flight_small = omega arith;
  far = omega arith;
}

pub init-Holds_row :
    (capacity timeout : ℕ) (fixed : Option ℕ) (random : ℕ) (h : capacity < 2 ^ 64)
    (r : or_else fixed random < 2 ^ 32)
    → let k = init-Holds capacity timeout fixed random h r in (k.row ≡ []) × (k.acked ≡ [])
unfolding init-Holds
init-Holds_row capacity timeout fixed random h r = (refl, refl)

pub set_error-Holds :
    {s : TcpSender} {bs : List ℕ}
    → Holds s bs
    → Holds (record s { stream = ByteStream.set_error s.stream }) bs
set_error-Holds {s} {bs} k =
    let (v, c, e) = set_error_lem k.stream_valid in
    subst (Holds (record s { stream = ByteStream.set_error s.stream })) (append-nil bs) (
      stream-Holds [] (ByteStream.set_error s.stream) k (c ∙ sym (append-nil _)) v
        (elim (Bool-cases s.stream.is_input_end) [ inl t ↦ inl (refl, e ∙ t) | inr f ↦ inr f ])
        (omega (arith, k.far, ap length (append-nil bs))))
