-- ===== src/Connection/Drain.antt =====
-- `_send_ack_if_need` of libsponge/tcp_connection.cc: what its loop amounts to.
use cs144_sponge.Prelude.{
  ◌≡◌, refl, sym, ◌∙◌, List, [], ◌∷◌, ◌++◌, ap, map, append_assoc, append-nil,
}
use cs144_sponge.Segment.{TcpSegment}
use cs144_sponge.Connection.{TcpConnection, stamp, drain_loop, send_ack_if_need}

-- A connection with these segments left for the sender, and these sent.
abbrev drained : TcpConnection → List TcpSegment → List TcpSegment → TcpConnection
drained c rest out = record c {
  sender = record c.sender { segments_out = rest };
  segments_out = out;
}

drain_loop_lem :
    (c : TcpConnection) (gs : List TcpSegment)
    → c.sender.segments_out ≡ gs
    → drain_loop gs c ≡ drained c [] (c.segments_out ++ map (stamp c.receiver) gs)
unfolding drain_loop
drain_loop_lem c [] e =
    ap (λ l. drained c l c.segments_out) e ∙ ap (drained c []) (sym (append-nil c.segments_out))
drain_loop_lem c (g ∷ gs) e =
    drain_loop_lem (drained c gs (c.segments_out ++ (stamp c.receiver g ∷ []))) gs refl
    ∙ ap (drained c [])
        (append_assoc c.segments_out (stamp c.receiver g ∷ []) (map (stamp c.receiver) gs))

-- All segments of the sender leave, in order and behind those that were waiting, each with the
-- receiver's acknowledgement and window; nothing else of the connection changes.
pub send_ack_if_need_lem :
    (c : TcpConnection)
    → send_ack_if_need c ≡ record c {
      sender = record c.sender { segments_out = [] };
      segments_out = c.segments_out ++ map (stamp c.receiver) c.sender.segments_out;
    }
unfolding send_ack_if_need
send_ack_if_need_lem c = drain_loop_lem c c.sender.segments_out refl
