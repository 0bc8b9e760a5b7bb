-- ===== src/Sender/Progress.antt =====
-- `fill_window` of libsponge/tcp_sender.cc keeps what holds of a sender.
use cs144_sponge.Prelude.{
  ℕ, ◌+◌, ◌-◌, ◌^◌, ◌≤◌, ◌≡◌, refl, sym, ap, subst, ◌∙◌, ◌⊎◌, inl, inr, List, [], ◌∷◌, ◌++◌, Bool,
  true, false, ◌||◌, not, some, none, arith, append-nil, length, length-append, ok, Bool-cases,
}
use cs144_sponge.ByteStream.{ByteStream}
use cs144_sponge.ByteStream.Queue
use cs144_sponge.ByteStream.Queue.{contents}
use cs144_sponge.Segment.{TcpSegment, flag_size}
use cs144_sponge.Sender.{TcpSender, fill_window, front_syn, back_fin}
use cs144_sponge.Sender.Segments.{
  enqueue_all, payloads, total_length, Numbered, any_syn, any_fin, first_syn, last_fin,
}
use cs144_sponge.Sender.Cut.{Flags}
use cs144_sponge.Sender.Fill.{fill_window-Fills}
use cs144_sponge.Sender.Row.{
  total_length-append, any_syn-append, any_fin-append, first_syn-append, last_fin-append,
  front_syn-segs,
}
use cs144_sponge.Sender.Holds.{
  Holds, Holds-IsReady, waiting_row, back_fin_lem, opened_lem, flag_size_le, nil-left,
  last_fin_none,
}
use cs144_sponge.Sender.Continues.{Continues, Continues-Holds, Continues-row, Continues-out}

or_none : {a b : Bool} → a ≡ false → (a || b) ≡ b
or_none h = ground arith

-- A FIN that is behind all is not there, if it is neither acknowledged nor at the back of the rest.
last_fin-split :
    (gs hs : List TcpSegment)
    → any_fin gs ≡ false
    → last_fin hs ≡ false
    → last_fin (gs ++ hs) ≡ false
last_fin-split gs [] f l = ap last_fin (append-nil gs) ∙ last_fin_none gs f
last_fin-split gs (h ∷ hs) f l = last_fin-append gs (h ∷ hs) h.header.syn refl ∙ l

Continues-nothing :
    {s : TcpSender} {bs : List ℕ} (k : Holds s bs) (stream' : ByteStream)
    → contents stream' ≡ contents s.stream
    → Queue.IsValid stream'
    → stream'.is_input_end ≡ s.stream.is_input_end
    → Continues k stream' []
Continues-nothing {s} k stream' e v i =
    let r = append-nil k.row in
    record {
      sent = e;
      valid = v;
      numbered = tt;
      numbers = omega arith;
      one_syn = omega (arith, ap (λ gs. flag_size (any_syn gs)) r);
      one_fin = omega (arith, ap (λ gs. flag_size (any_fin gs)) r);
      opened = elim k.opened [ inl z ↦ inl (r ∙ z.0, z.1) | inr f ↦ inr (ap first_syn r ∙ f) ];
      closed = elim k.closed [
        | inl f ↦ inl (ap any_fin r ∙ f)
        | inr f ↦ inr (ap last_fin r ∙ f.0, e ∙ f.1, i ∙ f.2)
      ];
      fits = omega (arith, k.flight_small);
    }

flag_size-or_right : (a b : Bool) → b ≡ false → flag_size (a || b) ≡ flag_size a + flag_size b
flag_size-or_right true b h = omega (arith, ap flag_size h)
flag_size-or_right false b h = omega arith

flag_size-or_left : (a b : Bool) → a ≡ false → flag_size (a || b) ≡ flag_size a + flag_size b
flag_size-or_left a b h =
    omega (arith, ap flag_size h, ap flag_size (or_none {b = b} h), ap flag_size h)

none_open : (row : List TcpSegment) → first_syn row ≡ none → row ≡ []
none_open [] h = refl
none_open (g ∷ gs) h = absurd (ground (arith, h))

module _ {s : TcpSender} {bs : List ℕ} (k : Holds s bs) where
  -- A SYN goes out only when nothing has been sent.
  syn-row :
      (not s.is_syn_received ≡ false) ⊎ (front_syn s.seg_queue ≡ none)
      → (not s.is_syn_received ≡ false) ⊎ (k.row ≡ [])
  syn-row o = elim o [
    | inl e ↦ inl e
    | inr z ↦ elim (Bool-cases s.is_syn_received) [
      | inl t ↦ inl (ap not t)
      | inr e ↦ inr (sym (waiting_row k e) ∙ none_open _ (sym (front_syn-segs s.seg_queue) ∙ z))
    ]
  ]

  last_fin_off : s.is_fin_received ≡ false → back_fin s.seg_queue ≡ false → last_fin k.row ≡ false
  last_fin_off f b =
      ap last_fin k.split
      ∙ last_fin-split k.acked k.left (sym k.fin_known ∙ f) (sym (back_fin_lem k) ∙ b)

  module _ {stream' : ByteStream} {gs : List TcpSegment}
      (c : Flags s (not s.is_syn_received) stream' gs)
      (sent : payloads gs ++ contents stream' ≡ contents s.stream) where
    -- Behind a FIN nothing goes out.
    no_fin : any_fin k.row ≡ false
    no_fin = elim k.closed [
      | inl f ↦ f
      | inr f ↦ elim c.closes [
        | inr d ↦ absurd (ground (arith, sym f.0 ∙ last_fin_off d.0 d.1))
        | inl d ↦
            let z : length (payloads gs) ≡ 0 =
              omega
                (arith, ap length (sent ∙ f.1), length-append (payloads gs) (contents stream')) in
            elim (syn-row c.opens) [
              | inr e ↦ absurd (ground (arith, sym f.0 ∙ ap last_fin e))
              | inl e ↦
                  absurd (omega (arith, c.total, c.some_length, ap flag_size d, ap flag_size e))
            ]
      ]
    ]

    one_syn_lem :
        flag_size (any_syn (k.row ++ gs)) ≡ flag_size (any_syn k.row) + flag_size (any_syn gs)
    one_syn_lem = ap flag_size (any_syn-append k.row gs) ∙ elim (syn-row c.opens) [
      | inl e ↦ flag_size-or_right (any_syn k.row) (any_syn gs) (c.syns ∙ e)
      | inr e ↦ flag_size-or_left (any_syn k.row) (any_syn gs) (ap any_syn e)
    ]

    opened_now : first_syn (k.row ++ gs) ≡ some true
    opened_now = elim (opened_lem k) [
      | inr f ↦ first_syn-append k.row gs true f
      | inl e ↦
          let w = ap (λ l. first_syn (l ++ gs)) e ∙ c.first in
          w ∙ ap (λ b. some (not b)) (k.syn_known ∙ acked_none e)
    ]
      where
        acked_none : k.row ≡ [] → any_syn k.acked ≡ false
        acked_none e = ap any_syn (nil-left k.acked k.left (sym e ∙ k.split))

    fits_lem :
        total_length gs ≤ s.window_size - s.bytes_in_flight + flag_size (not s.is_syn_received)
        → s.bytes_in_flight + total_length gs ≤ 2 ^ 16
    fits_lem b = elim (syn-row c.opens) [
      | inl e ↦ omega (arith, b, ap flag_size e, k.window_small, k.flight_small)
      | inr e ↦
          let z : total_length k.left ≡ 0 =
            omega (
              arith,
              sym (total_length-append k.acked k.left) ∙ ap total_length (sym k.split ∙ e),
            ) in
          omega
            (arith, b, z, k.in_flight.counted, k.window_small, flag_size_le (not s.is_syn_received))
    ]

    Flags-Continues :
        Queue.IsValid stream'
        → Numbered s.isn s.next_seqno gs
        → total_length gs ≤ s.window_size - s.bytes_in_flight + flag_size (not s.is_syn_received)
        → Continues k stream' gs
    Flags-Continues v n b = record {
      sent = sent;
      valid = v;
      numbered = n;
      numbers = omega (arith, c.total, ap flag_size c.syns);
      one_syn = one_syn_lem;
      one_fin =
          ap flag_size (any_fin-append k.row gs)
          ∙ flag_size-or_left (any_fin k.row) (any_fin gs) no_fin;
      opened = inr opened_now;
      closed = elim (Bool-cases (any_fin gs)) [
        | inr e ↦ inl (any_fin-append k.row gs ∙ or_none no_fin ∙ e)
        | inl e ↦ elim c.closes [
          | inl d ↦ absurd (ground (arith, sym e ∙ d))
          | inr d ↦ inr (last_fin-append k.row gs _ c.first ∙ c.last ∙ e, d.2, d.3)
        ]
      ];
      fits = fits_lem b;
    }

-- What a call of `fill_window` leaves: all still holds, and what is new of the row is put out.
pub record Filled {s : TcpSender} {bs : List ℕ} (k : Holds s bs) : Type 0 where
  pub result : TcpSender
  pub returns : fill_window s ≡ ok tt result
  pub holds : Holds result bs
  pub new : List TcpSegment
  pub row_grows : holds.row ≡ k.row ++ new
  pub acked_kept : holds.acked ≡ k.acked
  pub out_grows : result.segments_out ≡ s.segments_out ++ new
  pub isn_kept : result.isn ≡ s.isn

pub fill_window-Filled : {s : TcpSender} {bs : List ℕ} (k : Holds s bs) → Filled k
fill_window-Filled {s} {bs} k =
    let f = (fill_window-Fills s (Holds-IsReady k)).0 in
    let c : Continues k f.stream' f.segments = elim f.flags [
      | inl e ↦ subst (Continues k f.stream') (sym e) (
          Continues-nothing k f.stream'
            (ap (λ gs. payloads gs ++ contents f.stream') (sym e) ∙ f.sent) f.valid f.end_kept)
      | inr d ↦ Flags-Continues k d f.sent f.valid f.numbered f.bounded
    ] in
    let (o, i) = Continues-out k f.stream' f.segments c in
    record {
      result = enqueue_all (record s { stream = f.stream' }) f.segments;
      returns = f.returns;
      holds = Continues-Holds k f.stream' f.segments c;
      new = f.segments;
      row_grows = (Continues-row k f.stream' f.segments c).0;
      acked_kept = (Continues-row k f.stream' f.segments c).1;
      out_grows = o;
      isn_kept = i;
    }
