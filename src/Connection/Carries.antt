-- ===== src/Connection/Carries.antt =====
-- The sender inside a connection of libsponge/tcp_connection.cc, and what the connection puts out.
use cs144_sponge.Prelude.{
  ℕ, ◌≡◌, refl, sym, ap, subst, ◌∙◌, ◌⊎◌, inl, inr, List, [], ◌∷◌, ◌++◌, map, Option-cases, arith,
  append_assoc, ok, lift, and_then,
}
use cs144_sponge.Segment.{TcpSegment}
use cs144_sponge.Wrapping.{wrap}
use cs144_sponge.Receiver.{TcpReceiver, ackno}
use cs144_sponge.Sender.{TcpSender, fill_window, next_seqno_wrapped}
use cs144_sponge.Sender.Holds.{Holds-next_seqno}
use cs144_sponge.Sender.Keeps.{segments_out-Same}
use cs144_sponge.Sender.Calls.{set_error-Holds}
use cs144_sponge.Sender.Parts.{IsPart, IsSyn, AllSent, AllSent-append}
use cs144_sponge.Sender.Emits.{fill_window-Emits}
use cs144_sponge.Sender.History.{
  Transmits, Transmits-Emits, Transmits-handed, Same-Transmits, fill_window-Transmits,
}
use cs144_sponge.Connection.{
  TcpConnection, stamp, send_ack_if_need, set_sender, set_rst, rst_segment, send_rst_to_peer,
  fill_and_send,
}
use cs144_sponge.Connection.Drain.{send_ack_if_need_lem}

-- The acknowledgement and the window are all that a stamp changes.
stamp_lem :
    (r : TcpReceiver) (g : TcpSegment)
    → ((stamp r g).header.seqno ≡ g.header.seqno)
      × ((stamp r g).header.syn ≡ g.header.syn)
      × ((stamp r g).payload ≡ g.payload)
unfolding stamp
stamp_lem r g = elim (Option-cases (ackno r)) [
  | inl n ↦ ground (arith, n)
  | inr (a, e) ↦ ground (arith, e)
]

module _ (isn : ℕ) (bs : List ℕ) (r : TcpReceiver) where
  stamp-IsPart :
      (g : TcpSegment)
      → IsSyn isn g ⊎ IsPart isn bs g
      → IsSyn isn (stamp r g) ⊎ IsPart isn bs (stamp r g)
  stamp-IsPart g (inl s) = let (q, y, p) = stamp_lem r g in inl (y ∙ s.0, q ∙ s.1)
  stamp-IsPart g (inr v) =
      let (q, y, p) = stamp_lem r g in
      inr (record {
        index = v.index;
        seqno = q ∙ v.seqno;
        syn = y ∙ v.syn;
        high = v.high;
        bytes = elim v.bytes [
          | inl z ↦ inl (p ∙ z)
          | inr (before, after, e, n) ↦
              inr (before, after, e ∙ ap (λ l. before ++ (l ++ after)) (sym p), n)
        ];
      })

  stamp-AllSent : (gs : List TcpSegment) → AllSent isn bs gs → AllSent isn bs (map (stamp r) gs)
  stamp-AllSent [] v = tt
  stamp-AllSent (g ∷ gs) v = (stamp-IsPart g v.0, stamp-AllSent gs v.1)

module _ (s : TcpSender) (bs : List ℕ) (gone : List TcpSegment) where
  -- The sender does what it does from `s` on, and all that the connection has put out, of which `gone`
  -- has been taken, is the SYN and parts of the stream.
  abbrev pub Carries : TcpConnection → Type 0
  Carries c = Transmits s bs (gone ++ c.segments_out) c.sender

  pub send_ack_if_need-Carries : (c : TcpConnection) → Carries c → Carries (send_ack_if_need c)
  send_ack_if_need-Carries c k =
      let out = c.segments_out ++ map (stamp c.receiver) c.sender.segments_out in
      let v : AllSent s.isn bs (gone ++ out) =
        subst (AllSent s.isn bs) (append_assoc gone c.segments_out _) (
          AllSent-append s.isn bs _ _ k.handed
            (stamp-AllSent s.isn bs c.receiver c.sender.segments_out k.out)) in
      subst Carries (sym (send_ack_if_need_lem c))
        (Transmits-handed (Same-Transmits k (segments_out-Same c.sender []) tt) (gone ++ out) v)

  fill_and_send_lem :
      (c : TcpConnection) (t : TcpSender)
      → fill_window c.sender ≡ ok tt t
      → fill_and_send c ≡ ok tt (send_ack_if_need (set_sender c t))
  unfolding fill_and_send
  fill_and_send_lem c t e =
      ap (λ o. and_then (lift (set_sender c) o) (λ _ c'. ok tt (send_ack_if_need c'))) e

  pub fill_window-Carries :
      (c : TcpConnection)
      → Carries c
      → (t : TcpSender) × (fill_window c.sender ≡ ok tt t) × Carries (set_sender c t)
  fill_window-Carries c k =
      let (t, e, m, i) = fill_window-Emits (Transmits-Emits k) in (t, e, fill_window-Transmits k e)

  -- `fill_window` does not throw, and what it sends goes out.
  pub fill_and_send-Carries :
      (c : TcpConnection)
      → Carries c
      → (d : TcpConnection) × (fill_and_send c ≡ ok tt d) × Carries d
  fill_and_send-Carries c k =
      let (t, e, m) = fill_window-Carries c k in
      (
        send_ack_if_need (set_sender c t),
        fill_and_send_lem c t e,
        send_ack_if_need-Carries (set_sender c t) m,
      )

  pub set_rst-Carries : (c : TcpConnection) → Carries c → Carries (set_rst c)
  unfolding set_rst
  set_rst-Carries c k = record {
    holds = set_error-Holds k.holds;
    out = k.out;
    handed = k.handed;
    isn_kept = k.isn_kept;
  }

  rst-AllSent : (c : TcpConnection) → Carries c → AllSent s.isn bs (rst_segment c ∷ [])
  unfolding rst_segment next_seqno_wrapped
  rst-AllSent c k = (
    inr (record {
      index = c.sender.next_seqno;
      seqno = ap (wrap c.sender.next_seqno) k.isn_kept;
      syn = refl;
      high = Holds-next_seqno k.holds;
      bytes = inl refl;
    }),
    tt,
  )

  pub send_rst_to_peer-Carries : (c : TcpConnection) → Carries c → Carries (send_rst_to_peer c)
  unfolding send_rst_to_peer
  send_rst_to_peer-Carries c k =
      let c' = record c { sender = record c.sender { segments_out = [] } } in
      let k' : Carries c' = Same-Transmits k (segments_out-Same c.sender []) tt in
      set_rst-Carries (record c' { segments_out = c'.segments_out ++ (rst_segment c' ∷ []) })
        (Transmits-handed k' _ (
          subst (AllSent s.isn bs) (append_assoc gone c.segments_out _)
            (AllSent-append s.isn bs _ _ k.handed (rst-AllSent c' k'))))
