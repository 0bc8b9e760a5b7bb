-- ===== src/Connection/History.antt =====
-- Whole histories of a connection of libsponge/tcp_connection.cc, from its construction on.
use cs144_sponge.Prelude.{
  refl, ℕ, ◌+◌, ◌^◌, ◌<◌, ◌≡◌, sym, ap, subst, ◌∙◌, List, [], ◌++◌, false, length, take,
  append_assoc, Outcome, ok, and_then, state_of,
}
use cs144_sponge.ByteStream
use cs144_sponge.ByteStream.{ByteStream}
use cs144_sponge.ByteStream.Queue.{take-accepted}
use cs144_sponge.Segment.{TcpSegment}
use cs144_sponge.Receiver.{TcpReceiver}
use cs144_sponge.Sender.{TcpSender, or_else}
use cs144_sponge.Sender.Calls.{write-Holds, end_input-Holds}
use cs144_sponge.Sender.Parts.{AllSent, AllSent-more}
use cs144_sponge.Sender.History.{Transmits, Transmits-handed, init-Transmits}
use cs144_sponge.Sender.History
use cs144_sponge.Connection.{
  TcpConfig, TcpConnection, init, connect, write, end_input_stream, tick, segment_received,
  set_sender, set_receiver, remaining_outbound_capacity,
}
use cs144_sponge.Connection.Carries.{Carries, fill_and_send-Carries}
use cs144_sponge.Connection.Receiving.{AckInTime, segment_received-Carries, tick-Carries}

-- The histories of a connection, with the bytes that its calls of `write` said they took and the
-- segments that have been taken off its queue. Any segment may come in, with a 16-bit window, an
-- acknowledgement only once something has been sent; the application writes nothing behind the end,
-- and may do to the receiver what it likes.
pub data Runs (c : TcpConnection) : List ℕ → List TcpSegment → TcpConnection → Type 0 where
  start : Runs c [] [] c
  connects :
      {d e : TcpConnection} {bs : List ℕ} {gone : List TcpSegment}
      → Runs c bs gone d
      → connect d ≡ ok tt e
      → Runs c bs gone e
  writes :
      {d e : TcpConnection} {bs : List ℕ} {gone : List TcpSegment} (str : List ℕ) (n : ℕ)
      → Runs c bs gone d
      → d.sender.stream.is_input_end ≡ false
      → length bs + length str + 2 ^ 17 < 2 ^ 64
      → write d str ≡ ok n e
      → Runs c (bs ++ take n str) gone e
  ends :
      {d e : TcpConnection} {bs : List ℕ} {gone : List TcpSegment}
      → Runs c bs gone d
      → end_input_stream d ≡ ok tt e
      → Runs c bs gone e
  ticks :
      {d : TcpConnection} {bs : List ℕ} {gone : List TcpSegment} (ms : ℕ)
      → Runs c bs gone d
      → Runs c bs gone (tick d ms)
  receives :
      {d e : TcpConnection} {bs : List ℕ} {gone : List TcpSegment} (seg : TcpSegment)
      → Runs c bs gone d
      → AckInTime d seg
      → seg.header.win < 2 ^ 16
      → segment_received d seg ≡ ok tt e
      → Runs c bs gone e
  reads :
      {d : TcpConnection} {bs : List ℕ} {gone : List TcpSegment} (r : TcpReceiver)
      → Runs c bs gone d
      → Runs c bs gone (set_receiver d r)
  takes :
      {d : TcpConnection} {bs : List ℕ} {gone : List TcpSegment} (out rest : List TcpSegment)
      → Runs c bs gone d
      → d.segments_out ≡ out ++ rest
      → Runs c bs (gone ++ out) (record d { segments_out = rest })

module _ (s : TcpSender) (bs : List ℕ) (gone : List TcpSegment) where
  connect-Carries :
      (c : TcpConnection)
      → Carries s bs gone c
      → (d : TcpConnection) × (connect c ≡ ok tt d) × Carries s bs gone d
  unfolding connect
  connect-Carries c k = fill_and_send-Carries s bs gone c k

  pub end_input_stream-Carries :
      (c : TcpConnection)
      → Carries s bs gone c
      → (d : TcpConnection) × (end_input_stream c ≡ ok tt d) × Carries s bs gone d
  unfolding end_input_stream
  end_input_stream-Carries c k = fill_and_send-Carries s bs gone _ (record {
    holds = end_input-Holds k.holds;
    out = k.out;
    handed = k.handed;
    isn_kept = k.isn_kept;
  })

write_then :
    (n : ℕ) (o : Outcome TcpConnection (Unit {0})) (d : TcpConnection)
    → o ≡ ok tt d
    → and_then o (λ _ c'. ok n c') ≡ ok n d
write_then n o d e = ap (λ o. and_then o (λ _ c'. ok n c')) e

-- `write` takes a front of the string and returns its length.
pub write-Carries :
    (s : TcpSender) (bs : List ℕ) (gone : List TcpSegment) (c : TcpConnection) (str : List ℕ)
    → Carries s bs gone c
    → c.sender.stream.is_input_end ≡ false
    → length bs + length str + 2 ^ 17 < 2 ^ 64
    → let n = (ByteStream.write c.sender.stream str).0 in
      (d : TcpConnection) × (write c str ≡ ok n d) × Carries s (bs ++ take n str) gone d
unfolding write
write-Carries s bs gone c str k e far =
    let w = ByteStream.write c.sender.stream str in
    let q : take (ByteStream.accepted c.sender.stream str) str ≡ take w.0 str =
      take-accepted c.sender.stream str in
    let m =
      fill_and_send-Carries s (bs ++ take w.0 str) gone
        (set_sender c (record c.sender { stream = w.1 }))
        (subst (λ new. Carries s (bs ++ new) gone (set_sender c (record c.sender { stream = w.1 })))
          q
          (record {
            holds = write-Holds str k.holds e far;
            out = AllSent-more s.isn bs _ c.sender.segments_out k.out;
            handed = AllSent-more s.isn bs _ (gone ++ c.segments_out) k.handed;
            isn_kept = k.isn_kept;
          })) in
    (m.0, write_then w.0 _ m.0 m.1, m.2)

same_state {ℓ} :
    {A : Type ℓ} {o : Outcome TcpConnection A} {a b : A} {d e : TcpConnection}
    → o ≡ ok a d
    → o ≡ ok b e
    → d ≡ e
same_state q r = sym (ap state_of q) ∙ ap state_of r

same_value :
    {o : Outcome TcpConnection ℕ} {m n : ℕ} {d e : TcpConnection} → o ≡ ok m d → o ≡ ok n e → m ≡ n
same_value q r = cc

pub Runs-Carries :
    {c d : TcpConnection} {bs : List ℕ} {gone : List TcpSegment}
    → Carries c.sender [] [] c
    → Runs c bs gone d
    → Carries c.sender bs gone d
Runs-Carries i start = i
Runs-Carries {c} i (connects {bs} {gone} h e) =
    let (d, q, m) = connect-Carries c.sender bs gone _ (Runs-Carries i h) in
    subst (Carries c.sender bs gone) (same_state q e) m
Runs-Carries {c} i (writes {d} {e} {bs} {gone} str n h x far r) =
    let (d', q, m) = write-Carries c.sender bs gone d str (Runs-Carries i h) x far in
    let w = (ByteStream.write d.sender.stream str).0 in
    let k = subst (Carries c.sender (bs ++ take w str) gone) (same_state q r) m in
    subst (λ n. Carries c.sender (bs ++ take n str) gone e) (same_value q r) k
Runs-Carries {c} i (ends {bs} {gone} h e) =
    let (d, q, m) = end_input_stream-Carries c.sender bs gone _ (Runs-Carries i h) in
    subst (Carries c.sender bs gone) (same_state q e) m
Runs-Carries {c} i (ticks {d} {bs} {gone} ms h) =
    tick-Carries c.sender bs gone d ms (Runs-Carries i h)
Runs-Carries {c} i (receives {d} {e} {bs} {gone} seg h a w x) =
    segment_received-Carries c.sender bs gone d seg e (Runs-Carries i h) a w x
Runs-Carries i (reads r h) = Runs-Carries i h
Runs-Carries {c} i (takes {d} {bs} {gone} out rest h e) =
    let k = Runs-Carries i h in
    let v = subst (λ l. AllSent c.sender.isn bs (gone ++ l)) e k.handed in
    Transmits-handed k _ (subst (AllSent c.sender.isn bs) (sym (append_assoc gone out rest)) v)

init-Carries :
    (cfg : TcpConfig) (random : ℕ)
    → cfg.send_capacity < 2 ^ 64
    → or_else cfg.fixed_isn random < 2 ^ 32
    → let c = init cfg random in Carries c.sender [] [] c
unfolding init
init-Carries cfg random h i =
    init-Transmits cfg.send_capacity cfg.rt_timeout cfg.fixed_isn random h i

-- Whatever the application calls (nothing is written behind the end), whatever segments come in (with
-- 16-bit windows, an acknowledgement only once something has been sent) and whenever the time goes on:
-- all that a connection has sent, from its construction on, is the SYN, parts of the stream that the
-- calls of `write` took, each at the position of its number, and segments without data; its sender has
-- sent the front of that stream in one row and holds the rest, with at most 2 ^ 16 numbers in flight. The
-- next `connect` or `end_input_stream` does not throw. What is written stays short of 2 ^ 64 - 2 ^ 17
-- bytes, the capacity of the sender fits 64 bits and its first sequence number 32.
pub Runs-init-Carries :
    (cfg : TcpConfig) (random : ℕ) {c : TcpConnection} {bs : List ℕ} {gone : List TcpSegment}
    → cfg.send_capacity < 2 ^ 64
    → or_else cfg.fixed_isn random < 2 ^ 32
    → Runs (init cfg random) bs gone c
    → Transmits (init cfg random).sender bs (gone ++ c.segments_out) c.sender
      × ((d : TcpConnection) × (connect c ≡ ok tt d))
      × ((d : TcpConnection) × (end_input_stream c ≡ ok tt d))
Runs-init-Carries cfg random {c} {bs} {gone} h i runs =
    let k = Runs-Carries (init-Carries cfg random h i) runs in
    let (d, q, m) = connect-Carries (init cfg random).sender bs gone c k in
    let (e, r, n) = end_input_stream-Carries (init cfg random).sender bs gone c k in
    (k, (d, q), (e, r))

pub init_isn :
    (cfg : TcpConfig) (random : ℕ) → (init cfg random).sender.isn ≡ or_else cfg.fixed_isn random
unfolding init
init_isn cfg random = History.init_isn cfg.send_capacity cfg.rt_timeout cfg.fixed_isn random

pub remaining_outbound_capacity_lem :
    (c : TcpConnection)
    → remaining_outbound_capacity c ≡ ByteStream.remaining_capacity c.sender.stream
unfolding remaining_outbound_capacity
remaining_outbound_capacity_lem c = refl
