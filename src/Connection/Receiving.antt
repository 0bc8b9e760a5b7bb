-- ===== src/Connection/Receiving.antt =====
-- `segment_received` and the other calls of libsponge/tcp_connection.cc, for the sender inside.
use cs144_sponge.Prelude.{
  ℕ, ◌^◌, ◌<◌, ◌≡◌, refl, ap, subst, ◌⊎◌, inl, inr, List, Bool, true, false, ◌||◌, Outcome, ok,
  throws, lift, and_then, if◌then◌else◌, Bool-cases, arith, leb,
}
use cs144_sponge.Segment.{TcpSegment}
use cs144_sponge.Receiver.{TcpReceiver}
use cs144_sponge.Sender.{TcpSender, fill_window, send_empty_segment, consecutive_retransmissions}
use cs144_sponge.Sender.Keeps.{tick-Same, send_empty_segment-Same}
use cs144_sponge.Sender.Emits.{tick-AllSent, send_empty_segment-AllSent}
use cs144_sponge.Sender.History.{Transmits-Emits, Same-Transmits, ack_received-Transmits}
use cs144_sponge.Connection.{
  TcpConnection, active, segment_received, handle, reply, answer, keep_alive, take_ack, note_fin,
  note_passive, is_late, set_sender, set_receiver, set_rst, send_ack_if_need, tick,
  max_retx_attempts,
}
use cs144_sponge.Connection.Carries.{
  Carries, send_ack_if_need-Carries, fill_window-Carries, set_rst-Carries, send_rst_to_peer-Carries,
}

-- An acknowledgement comes only once something has been sent.
abbrev pub AckInTime : TcpConnection → TcpSegment → Type 0
AckInTime c seg = (seg.header.ack ≡ false) ⊎ (0 < c.sender.next_seqno)

module _ (s : TcpSender) (bs : List ℕ) (gone : List TcpSegment) where
  Carries-if :
      (b : Bool) (c d : TcpConnection)
      → Carries s bs gone c
      → Carries s bs gone d
      → Carries s bs gone (if b then c else d)
  Carries-if true c d v w = v
  Carries-if false c d v w = w

  empty-Carries :
      (c : TcpConnection)
      → Carries s bs gone c
      → Carries s bs gone (set_sender c (send_empty_segment c.sender))
  empty-Carries c k =
      Same-Transmits k (send_empty_segment-Same c.sender)
        (send_empty_segment-AllSent (Transmits-Emits k))

  answer-Carries :
      (c : TcpConnection) (seg : TcpSegment)
      → Carries s bs gone c
      → Carries s bs gone (answer c seg)
  unfolding answer
  answer-Carries c seg k =
      send_ack_if_need-Carries s bs gone _ (Carries-if _ _ _ (empty-Carries c k) k)

  reply_fills :
      (c : TcpConnection) (seg : TcpSegment) (b : Bool)
      → Carries s bs gone c
      → (d : TcpConnection) × (◌≡◌ {A = Outcome TcpConnection (Unit {0})}
          (and_then
            (if b then lift (set_sender c) (fill_window c.sender) else ok tt c)
            (λ _ c'. ok tt (answer c' seg)))
          (ok tt d))
        × Carries s bs gone d
  reply_fills c seg true k =
      let (t, e, m) = fill_window-Carries s bs gone c k in
      (
        answer (set_sender c t) seg,
        ap (λ o. and_then (lift (set_sender c) o) (λ _ c'. ok tt (answer c' seg))) e,
        answer-Carries (set_sender c t) seg m,
      )
  reply_fills c seg false k = (answer c seg, refl, answer-Carries c seg k)

  reply-Carries :
      (c : TcpConnection) (seg : TcpSegment)
      → Carries s bs gone c
      → (d : TcpConnection) × (reply c seg ≡ ok tt d) × Carries s bs gone d
  unfolding reply
  reply-Carries c seg k = elim (Bool-cases (keep_alive c seg)) [
    | inl e ↦ (
      send_ack_if_need (set_sender c (send_empty_segment c.sender)),
      rw e refl,
      send_ack_if_need-Carries s bs gone _ (empty-Carries c k),
    )
    | inr e ↦
        let (d, q, m) = reply_fills c seg (c.sender.is_syn_received || seg.header.syn) k in
        (d, rw e q, m)
  ]

  take_ack-Carries :
      (c : TcpConnection) (seg : TcpSegment)
      → Carries s bs gone c
      → AckInTime c seg
      → seg.header.win < 2 ^ 16
      → Carries s bs gone (take_ack c seg)
  unfolding take_ack
  take_ack-Carries c seg k a w = elim (Bool-cases seg.header.ack) [
    | inr e ↦ rw e k
    | inl e ↦ rw e (
        ack_received-Transmits k seg.header.ackno seg.header.win
          (elim a [ inl f ↦ absurd (ground (arith, f, e)) | inr p ↦ p ]) w)
  ]

  note_fin-Carries : (c : TcpConnection) → Carries s bs gone c → Carries s bs gone (note_fin c)
  unfolding note_fin
  note_fin-Carries c k = Carries-if _ _ _ k k

  note_passive-Carries :
      (c : TcpConnection) → Carries s bs gone c → Carries s bs gone (note_passive c)
  unfolding note_passive
  note_passive-Carries c k = Carries-if _ _ _ k k

  -- What is behind the receiver's part.
  handle_rest :
      (c : TcpConnection) (seg : TcpSegment) (o : Outcome TcpReceiver (Unit {0}))
      (d : TcpConnection)
      → Carries s bs gone c
      → and_then (lift (set_receiver c) o) (λ _ c2. reply (note_passive (note_fin c2)) seg)
        ≡ ok tt d
      → Carries s bs gone d
  handle_rest c seg (throws x r) d k e = absurd (ground (arith, e))
  handle_rest c seg (ok _ r) d k e =
      let (d', q, m) =
        reply-Carries (note_passive (note_fin (set_receiver c r))) seg
          (note_passive-Carries _ (note_fin-Carries (set_receiver c r) k)) in
      let x : d' ≡ d = ground (arith, q, e) in subst (Carries s bs gone) x m

  handle-Carries :
      (c : TcpConnection) (seg : TcpSegment) (d : TcpConnection)
      → Carries s bs gone c
      → AckInTime c seg
      → seg.header.win < 2 ^ 16
      → handle c seg ≡ ok tt d
      → Carries s bs gone d
  unfolding handle
  handle-Carries c seg d k a w e =
      handle_rest (take_ack c seg) seg _ d (take_ack-Carries c seg k a w) e

  -- Whatever segment comes in.
  pub segment_received-Carries :
      (c : TcpConnection) (seg : TcpSegment) (d : TcpConnection)
      → Carries s bs gone c
      → AckInTime c seg
      → seg.header.win < 2 ^ 16
      → segment_received c seg ≡ ok tt d
      → Carries s bs gone d
  unfolding segment_received
  segment_received-Carries c seg d k a w e =
      let c0 = record c { last_received_time = 0 } in
      elim (Bool-cases seg.header.rst) [
        | inl x ↦
            let q : set_rst c0 ≡ d = ground (arith, x, e) in
            subst (Carries s bs gone) q (set_rst-Carries s bs gone c0 k)
        | inr x ↦ elim (Bool-cases (active c0)) [
          | inr y ↦ let q : c0 ≡ d = ground (arith, x, y, e) in subst (Carries s bs gone) q k
          | inl y ↦ elim (Bool-cases (is_late c0 seg)) [
            | inl z ↦ let q : c0 ≡ d = ground (arith, x, y, z, e) in subst (Carries s bs gone) q k
            | inr z ↦
                let q : handle c0 seg ≡ ok tt d = ground (arith, x, y, z, e) in
                handle-Carries c0 seg d k a w q
          ]
        ]
      ]

  pub tick-Carries :
      (c : TcpConnection) (ms : ℕ) → Carries s bs gone c → Carries s bs gone (tick c ms)
  unfolding tick
  tick-Carries c ms k =
      Carries-if (leb max_retx_attempts (consecutive_retransmissions c.sender)) _ _
        (send_rst_to_peer-Carries s bs gone c k)
        (send_ack_if_need-Carries s bs gone _
          (Same-Transmits k (tick-Same c.sender ms) (tick-AllSent ms (Transmits-Emits k))))
