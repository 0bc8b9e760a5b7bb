-- ===== src/Sender/Continues.antt =====
-- A row of segments that a call of libsponge/tcp_sender.cc sends: what must hold of it.
use cs144_sponge.Prelude.{
  ℕ, ◌+◌, ◌^◌, ◌≤◌, ◌≡◌, refl, sym, ap, ap₂, subst, ◌∙◌, ◌⊎◌, inl, inr, List, [], ◌++◌, true, false,
  some, arith, append_assoc, length, length-append,
}
use cs144_sponge.ByteStream.{ByteStream}
use cs144_sponge.ByteStream.Queue
use cs144_sponge.ByteStream.Queue.{contents}
use cs144_sponge.Segment.{TcpSegment, flag_size}
use cs144_sponge.Sender.{TcpSender}
use cs144_sponge.Sender.Segments.{
  enqueue_all, payloads, total_length, Numbered, any_syn, any_fin, first_syn, last_fin,
}
use cs144_sponge.Sender.Row.{
  total_length-append, payloads-append, Numbered-append, enqueue_all-Queued,
}
use cs144_sponge.Sender.Holds.{Holds, Holds-upto, Holds-next_seqno}

-- What a row that is sent must be, for all to hold of the sender behind it.
pub record Continues {s : TcpSender} {bs : List ℕ} (k : Holds s bs) (stream' : ByteStream)
    (gs : List TcpSegment) : Type 0 where
  pub sent : payloads gs ++ contents stream' ≡ contents s.stream
  pub valid : Queue.IsValid stream'
  pub numbered : Numbered s.isn s.next_seqno gs
  pub numbers :
      total_length gs ≡ flag_size (any_syn gs) + length (payloads gs) + flag_size (any_fin gs)
  pub one_syn :
      flag_size (any_syn (k.row ++ gs)) ≡ flag_size (any_syn k.row) + flag_size (any_syn gs)
  pub one_fin :
      flag_size (any_fin (k.row ++ gs)) ≡ flag_size (any_fin k.row) + flag_size (any_fin gs)
  pub opened : ((k.row ++ gs ≡ []) × (s.window_size ≡ 1)) ⊎ (first_syn (k.row ++ gs) ≡ some true)
  pub closed :
      (any_fin (k.row ++ gs) ≡ false)
      ⊎ ((last_fin (k.row ++ gs) ≡ true) × (contents stream' ≡ []) × (stream'.is_input_end ≡ true))
  pub fits : s.bytes_in_flight + total_length gs ≤ 2 ^ 16

pub Continues-Holds :
    {s : TcpSender} {bs : List ℕ} (k : Holds s bs) (stream' : ByteStream) (gs : List TcpSegment)
    → Continues k stream' gs
    → Holds (enqueue_all (record s { stream = stream' }) gs) bs
Continues-Holds {s} {bs} k stream' gs c =
    let q =
      enqueue_all-Queued gs (record s { stream = stream' })
        (omega (arith, c.fits, Holds-next_seqno k, k.far)) (omega (arith, c.fits)) in
    let l : length (payloads (k.row ++ gs)) ≡ length (payloads k.row) + length (payloads gs) =
      ap length (payloads-append k.row gs) ∙ length-append (payloads k.row) (payloads gs) in
    let t = total_length-append k.left gs in
    record {
      row = k.row ++ gs;
      acked = k.acked;
      left = k.left ++ gs;
      split = ap (λ l. l ++ gs) k.split ∙ append_assoc k.acked k.left gs;
      in_flight = record {
        queue = q.queue ∙ ap (λ l. l ++ gs) k.in_flight.queue;
        numbered =
            subst (λ i. Numbered i (total_length k.acked) (k.left ++ gs)) (sym q.isn_kept)
              (Numbered-append s.isn (total_length k.acked) k.left gs k.in_flight.numbered
                (subst (λ n. Numbered s.isn n gs) (sym k.in_flight.upto) c.numbered));
        upto = omega (arith, t, q.next, k.in_flight.upto);
        counted = omega (arith, t, q.flight, k.in_flight.counted);
        short = omega (arith, t, c.fits, k.in_flight.counted);
        far = omega (arith, q.next, c.fits, Holds-next_seqno k, k.far);
        isn_small = omega (arith, q.isn_kept, k.in_flight.isn_small);
      };
      numbered =
          subst (λ i. Numbered i 0 (k.row ++ gs)) (sym q.isn_kept)
            (Numbered-append s.isn 0 k.row gs k.numbered
              (subst (λ n. Numbered s.isn n gs) (omega (arith, Holds-upto k)) c.numbered));
      bytes =
          ap₂ ◌++◌ (payloads-append k.row gs) (ap contents q.stream_kept)
          ∙ append_assoc (payloads k.row) (payloads gs) (contents stream')
          ∙ ap (◌++◌ (payloads k.row)) c.sent
          ∙ k.bytes;
      numbers = omega (arith, q.next, k.numbers, c.numbers, c.one_syn, c.one_fin, l);
      opened = elim c.opened [ inl z ↦ inl (z.0, q.window_kept ∙ z.1) | inr f ↦ inr f ];
      syn_known = q.syn_kept ∙ k.syn_known;
      fin_known = q.fin_kept ∙ k.fin_known;
      closed = elim c.closed [
        | inl f ↦ inl f
        | inr f ↦
            inr (f.0, ap contents q.stream_kept ∙ f.1, ap (λ t. t.is_input_end) q.stream_kept ∙ f.2)
      ];
      stream_valid = subst Queue.IsValid (sym q.stream_kept) c.valid;
      window_small = omega (arith, q.window_kept, k.window_small);
      flight_small = omega (arith, q.flight, c.fits);
      far = k.far;
    }

pub Continues-row :
    {s : TcpSender} {bs : List ℕ} (k : Holds s bs) (stream' : ByteStream) (gs : List TcpSegment)
    (c : Continues k stream' gs)
    → ((Continues-Holds k stream' gs c).row ≡ k.row ++ gs)
      × ((Continues-Holds k stream' gs c).acked ≡ k.acked)
unfolding Continues-Holds
Continues-row k stream' gs c = (refl, refl)

pub Continues-out :
    {s : TcpSender} {bs : List ℕ} (k : Holds s bs) (stream' : ByteStream) (gs : List TcpSegment)
    → Continues k stream' gs
    → let t = enqueue_all (record s { stream = stream' }) gs in
      (t.segments_out ≡ s.segments_out ++ gs) × (t.isn ≡ s.isn)
Continues-out {s} k stream' gs c =
    let q =
      enqueue_all-Queued gs (record s { stream = stream' })
        (omega (arith, c.fits, Holds-next_seqno k, k.far)) (omega (arith, c.fits)) in
    (q.out, q.isn_kept)
