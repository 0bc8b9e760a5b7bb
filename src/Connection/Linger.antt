-- ===== src/Connection/Linger.antt =====
-- The wait after an active close, in `tick` and `active` of libsponge/tcp_connection.cc.
use cs144_sponge.Prelude.{
  ℕ, ◌+◌, ◌*◌, ◌^◌, ◌≡◌, ◌<◌, refl, sym, ap, ap₂, subst, ◌∙◌, List, [], ◌∷◌, Bool, true, false, not,
  if◌then◌else◌, ◌&&◌, u64, ltb, leb, arith,
}
use cs144_sponge.Sender
use cs144_sponge.Sender.{TcpSender, SenderSegment, tick_front, consecutive_retransmissions}
use cs144_sponge.Connection.{
  TcpConnection, active, tick, inbound_eof, linger_over, send_ack_if_need,
}
use cs144_sponge.Connection.Drain.{send_ack_if_need_lem}

-- Both streams are finished, the local one first: what is left is to wait. `elapsed` is the time
-- since the last segment, and the mark is off once it has reached ten timeouts.
pub record Waits (c : TcpConnection) (elapsed : ℕ) : Type 0 where
  pub sent : c.sender.is_fin_received ≡ true
  pub opened : c.sender.is_syn_received ≡ true
  pub received : inbound_eof c ≡ true
  pub kept : c.is_rst ≡ false
  pub acked : c.sender.seg_queue ≡ []
  pub calm : c.sender.consecutive_retrans ≡ 0
  pub clock : c.last_received_time ≡ elapsed
  pub mark : c.linger_after_streams_finish ≡ not (leb (10 * c.cfg.rt_timeout) elapsed)

-- Ticks with no segment between them.
abbrev pub ticks : TcpConnection → List ℕ → TcpConnection
ticks c [] = c
ticks c (ms ∷ mss) = ticks (tick c ms) mss

abbrev pub sum : List ℕ → ℕ
sum [] = 0
sum (ms ∷ mss) = ms + sum mss

-- The connection behind such a tick, before the segments of the sender leave.
abbrev passed : TcpConnection → ℕ → TcpConnection
passed c ms = record c {
  linger_after_streams_finish = not (leb (10 * c.cfg.rt_timeout) (c.last_received_time + ms));
  sender = record c.sender { last_tick_time = u64 (c.sender.last_tick_time + ms) };
  last_received_time = c.last_received_time + ms;
}

-- The mark never comes back, since the time only grows.
mark_next :
    (limit elapsed ms : ℕ) (mark : Bool)
    → mark ≡ not (leb limit elapsed)
    → (if mark && leb limit (elapsed + ms) then false else mark) ≡ not (leb limit (elapsed + ms))
mark_next limit elapsed ms mark h = ground arith

tick_idle :
    (s : TcpSender) (ms : ℕ)
    → s.seg_queue ≡ []
    → Sender.tick s ms ≡ record s { last_tick_time = u64 (s.last_tick_time + ms) }
unfolding Sender.tick tick_front
tick_idle s ms e = ap (tick_front (record s { last_tick_time = u64 (s.last_tick_time + ms) })) e

tick_early :
    (c : TcpConnection) (ms : ℕ)
    → c.sender.consecutive_retrans ≡ 0
    → tick c ms
      ≡ send_ack_if_need (record c {
        linger_after_streams_finish =
            if linger_over c ms then false else c.linger_after_streams_finish;
        sender = Sender.tick c.sender ms;
        last_received_time = u64 (c.last_received_time + ms);
      })
unfolding tick consecutive_retransmissions
tick_early c ms e = rw e refl

linger_over_lem :
    (c : TcpConnection) (elapsed ms : ℕ)
    → Waits c elapsed
    → elapsed + ms < 2 ^ 64
    → linger_over c ms
      ≡ (c.linger_after_streams_finish && leb (10 * c.cfg.rt_timeout) (c.last_received_time + ms))
unfolding linger_over inbound_eof
linger_over_lem c elapsed ms w h =
    let e : u64 (c.last_received_time + ms) ≡ c.last_received_time + ms = omega (arith, w.clock) in
    rw (w.opened, w.received, e) refl

tick-passed :
    (c : TcpConnection) (elapsed ms : ℕ)
    → Waits c elapsed
    → elapsed + ms < 2 ^ 64
    → tick c ms ≡ send_ack_if_need (passed c ms)
tick-passed c elapsed ms w h =
    let e : u64 (c.last_received_time + ms) ≡ c.last_received_time + ms = omega (arith, w.clock) in
    let mark : (if linger_over c ms then false else c.linger_after_streams_finish)
        ≡ not (leb (10 * c.cfg.rt_timeout) (c.last_received_time + ms)) =
      ap (λ b. if b then false else c.linger_after_streams_finish)
        (linger_over_lem c elapsed ms w h)
      ∙ mark_next (10 * c.cfg.rt_timeout) c.last_received_time ms c.linger_after_streams_finish
          (w.mark ∙ ap (λ t. not (leb (10 * c.cfg.rt_timeout) t)) (sym w.clock)) in
    tick_early c ms w.calm
    ∙ ap
        (λ s. send_ack_if_need (record c {
          linger_after_streams_finish =
              if linger_over c ms then false else c.linger_after_streams_finish;
          sender = s;
          last_received_time = u64 (c.last_received_time + ms);
        }))
        (tick_idle c.sender ms w.acked)
    ∙ ap₂
        (λ b t. send_ack_if_need (record c {
          linger_after_streams_finish = b;
          sender = record c.sender { last_tick_time = u64 (c.sender.last_tick_time + ms) };
          last_received_time = t;
        }))
        mark e

tick-Waits :
    (c : TcpConnection) (elapsed ms : ℕ)
    → Waits c elapsed
    → elapsed + ms < 2 ^ 64
    → (Waits (tick c ms) (elapsed + ms)) × ((tick c ms).cfg.rt_timeout ≡ c.cfg.rt_timeout)
unfolding inbound_eof
tick-Waits c elapsed ms w h =
    subst (λ d. Waits d (elapsed + ms) × (d.cfg.rt_timeout ≡ c.cfg.rt_timeout))
      (sym (tick-passed c elapsed ms w h ∙ send_ack_if_need_lem (passed c ms)))
      (
        record {
          sent = w.sent;
          opened = w.opened;
          received = w.received;
          kept = w.kept;
          acked = w.acked;
          calm = w.calm;
          clock = ap (λ t. t + ms) w.clock;
          mark = ap (λ t. not (leb (10 * c.cfg.rt_timeout) (t + ms))) w.clock;
        },
        refl,
      )

active_of :
    (rst sent received mark late : Bool)
    → rst ≡ false
    → sent ≡ true
    → received ≡ true
    → mark ≡ late
    → (if rst then false else not (sent && received && not mark)) ≡ late
active_of rst sent received mark late a b c d = ground arith

not-leb : (a b : ℕ) → not (leb a b) ≡ ltb b a
not-leb a b = ground arith

active-Waits :
    (c : TcpConnection) (elapsed : ℕ)
    → Waits c elapsed
    → active c ≡ not (leb (10 * c.cfg.rt_timeout) elapsed)
unfolding active
active-Waits c elapsed w =
    active_of c.is_rst c.sender.is_fin_received (inbound_eof c) c.linger_after_streams_finish _
      w.kept w.sent w.received w.mark

ticks-Waits :
    (c : TcpConnection) (elapsed : ℕ) (mss : List ℕ)
    → Waits c elapsed
    → elapsed + sum mss < 2 ^ 64
    → (Waits (ticks c mss) (elapsed + sum mss)) × ((ticks c mss).cfg.rt_timeout ≡ c.cfg.rt_timeout)
ticks-Waits c elapsed [] w h =
    let e : elapsed ≡ elapsed + 0 = omega arith in (subst (Waits c) e w, refl)
ticks-Waits c elapsed (ms ∷ mss) w h =
    let one = tick-Waits c elapsed ms w (omega arith) in
    let rest = ticks-Waits (tick c ms) (elapsed + ms) mss one.0 (omega arith) in
    let e : elapsed + ms + sum mss ≡ elapsed + (ms + sum mss) = omega arith in
    (subst (Waits (ticks (tick c ms) mss)) e rest.0, rest.1 ∙ one.1)

-- A connection that waits is active behind any ticks in a row exactly while less than ten timeouts
-- have gone by since the last segment.
pub active-ticks :
    (c : TcpConnection) (elapsed : ℕ) (mss : List ℕ)
    → Waits c elapsed
    → elapsed + sum mss < 2 ^ 64
    → active (ticks c mss) ≡ ltb (elapsed + sum mss) (10 * c.cfg.rt_timeout)
active-ticks c elapsed mss w h =
    let t = ticks-Waits c elapsed mss w h in
    active-Waits (ticks c mss) (elapsed + sum mss) t.0
    ∙ ap (λ n. not (leb (10 * n) (elapsed + sum mss))) t.1
    ∙ not-leb (10 * c.cfg.rt_timeout) (elapsed + sum mss)
