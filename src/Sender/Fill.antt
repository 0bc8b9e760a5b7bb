-- ===== src/Sender/Fill.antt =====
-- `fill_window` of libsponge/tcp_sender.cc, from the window to the segments.
use cs144_sponge.Prelude.{
  ℕ, ◌+◌, ◌-◌, ◌^◌, ◌≤◌, ◌<◌, ◌≡◌, ◌≢◌, refl, sym, ap, subst, ◌∙◌, ◌⊎◌, inl, inr, List, [], ◌++◌,
  Bool, true, false, not, arith, min, length, take, length-take, take-append-drop, take-min, some,
  none, Option, ok, Bool-cases, ℕ_discrete,
}
use cs144_sponge.ByteStream
use cs144_sponge.ByteStream.{ByteStream}
use cs144_sponge.ByteStream.Queue
use cs144_sponge.ByteStream.Queue.{contents, Reads, read-Reads, buffer_size-length}
use cs144_sponge.Sender.{
  TcpSender, fill_window, fill_with, fill_syn, remaining_window, front_syn, back_fin,
  max_payload_size,
}
use cs144_sponge.Segment.{flag_size}
use cs144_sponge.Sender.Segments.{enqueue_all}
use cs144_sponge.Sender.Row.{Queued, enqueue_all-Queued}
use cs144_sponge.Sender.Cut.{Fills, Fills-nothing, fill_read-Fills}

-- When a call may be made: the stream is valid, the queue begins with the SYN until that is
-- acknowledged, the first window is that of one segment, behind a FIN that is under way nothing is left to send, and the numbers do not
-- reach the end of the 64-bit range.
pub record IsReady (s : TcpSender) : Type 0 where
  pub stream_valid : Queue.IsValid s.stream
  pub syn_first : s.is_syn_received ≡ false → front_syn s.seg_queue ≢ some false
  pub quiet : back_fin s.seg_queue ≡ true → contents s.stream ≡ []
  pub first_window :
      (s.is_syn_received ≡ true)
      ⊎ (front_syn s.seg_queue ≡ some true)
      ⊎ (s.window_size ≤ max_payload_size)
  pub far : s.next_seqno + s.window_size + 2 < 2 ^ 64
  pub few : s.bytes_in_flight + 2 < 2 ^ 64

fill_with-Fills :
    (s : TcpSender) (syn : Bool) (remaining : ℕ)
    → IsReady s
    → remaining ≤ s.window_size
    → (syn ≡ false) ⊎ (s.window_size ≤ max_payload_size)
    → (syn ≡ false) ⊎ (front_syn s.seg_queue ≡ none)
    → Fills s syn remaining (take remaining (contents s.stream)) (fill_with s syn remaining)
unfolding fill_with
fill_with-Fills s syn remaining v h one opens =
    let n = min remaining (ByteStream.buffer_size s.stream) in
    let d = read-Reads n v.stream_valid (omega (arith, buffer_size-length v.stream_valid)) in
    let l : length (take n (contents s.stream)) ≡ n =
      omega (arith, length-take n (contents s.stream), buffer_size-length v.stream_valid) in
    let c : take n (contents s.stream) ++ contents d.rest ≡ contents s.stream =
      ap (◌++◌ (take n (contents s.stream))) d.left ∙ take-append-drop n (contents s.stream) in
    subst (λ l. Fills s syn remaining l (fill_with s syn remaining))
      (take-min remaining (ByteStream.buffer_size s.stream) (contents s.stream)
        (buffer_size-length v.stream_valid))
      (rw d.returns (
        fill_read-Fills s d.rest syn remaining n (take n (contents s.stream)) (omega arith) l c
          d.valid d.end_kept opens (elim one [ inl e ↦ inl e | inr e ↦ inr (omega arith) ])
          (omega (arith, v.far)) v.quiet))

remaining_window_lem : (s : TcpSender) → remaining_window s ≡ s.window_size - s.bytes_in_flight
unfolding remaining_window
remaining_window_lem s = ground arith

-- What the sender may take off the stream: nothing while the SYN is under way.
abbrev pub sendable : Bool → Option Bool → ℕ → List ℕ → List ℕ
sendable true front room bs = take room bs
sendable false none room bs = take room bs
sendable false (some syn) room bs = []

fill_syn-Fills :
    (s : TcpSender) (remaining : ℕ) (front : Option Bool)
    → IsReady s
    → front ≡ front_syn s.seg_queue
    → front ≢ some false
    → remaining ≤ s.window_size
    → (front ≡ some true) ⊎ (s.window_size ≤ max_payload_size)
    → Fills s true remaining
        (sendable false front remaining (contents s.stream))
        (fill_syn s remaining front)
unfolding fill_syn
fill_syn-Fills s remaining none v q n h w =
    fill_with-Fills s true remaining v h
      (inr (elim w [ inl e ↦ absurd (ground (arith, e)) | inr l ↦ l ])) (inr (sym q))
fill_syn-Fills s remaining (some true) v q n h w =
    Fills-nothing s true s.stream _ _ _ v.stream_valid refl refl refl refl
fill_syn-Fills s remaining (some false) v q n h w = absurd (n refl)

fill_window-closed : (s : TcpSender) → remaining_window s ≡ 0 → fill_window s ≡ ok tt s
unfolding fill_window
fill_window-closed s z = ground arith

fill_window-open :
    (s : TcpSender)
    → remaining_window s ≢ 0
    → s.is_syn_received ≡ true
    → fill_window s ≡ fill_with s false (remaining_window s)
unfolding fill_window
fill_window-open s z e = ground arith

fill_window-first :
    (s : TcpSender)
    → remaining_window s ≢ 0
    → s.is_syn_received ≡ false
    → fill_window s ≡ fill_syn s (remaining_window s) (front_syn s.seg_queue)
unfolding fill_window
fill_window-first s z e = ground arith

no_room : (syn : Bool) (front : Option Bool) (bs : List ℕ) → [] ≡ sendable syn front 0 bs
no_room true front bs = refl
no_room false none bs = refl
no_room false (some f) bs = refl

fill_window-remaining :
    (s : TcpSender)
    → IsReady s
    → Fills s
        (not s.is_syn_received)
        (remaining_window s)
        (sendable s.is_syn_received
          (front_syn s.seg_queue)
          (remaining_window s)
          (contents s.stream))
        (fill_window s)
fill_window-remaining s v =
    let n = remaining_window s in
    let le : n ≤ s.window_size = omega (arith, remaining_window_lem s) in
    let Goal : Bool → Type 0 = λ b.
      Fills s (not b) n (sendable b (front_syn s.seg_queue) n (contents s.stream))
        (fill_window s) in
    elim (ℕ_discrete n 0) [
      | yes z ↦
          Fills-nothing s (not s.is_syn_received) s.stream _ _ _ v.stream_valid refl refl
            (fill_window-closed s z)
            (no_room s.is_syn_received (front_syn s.seg_queue) (contents s.stream)
              ∙ ap (λ m. sendable s.is_syn_received (front_syn s.seg_queue) m (contents s.stream))
                  (sym z))
      | no z ↦ elim (Bool-cases s.is_syn_received) [
        | inl e ↦ subst Goal (sym e) (
            subst (Fills s false n (take n (contents s.stream))) (sym (fill_window-open s z e))
              (fill_with-Fills s false n v le (inl refl) (inl refl)))
        | inr e ↦ subst Goal (sym e) (
            subst (Fills s true n (sendable false (front_syn s.seg_queue) n (contents s.stream)))
              (sym (fill_window-first s z e))
              (fill_syn-Fills s n (front_syn s.seg_queue) v refl (v.syn_first e) le
                (elim v.first_window [ inl t ↦ absurd (ground (arith, t, e)) | inr w ↦ w ])))
      ]
    ]

fill_window_cut :
    (s : TcpSender)
    → IsReady s
    → Fills s
        (not s.is_syn_received)
        (s.window_size - s.bytes_in_flight)
        (sendable s.is_syn_received
          (front_syn s.seg_queue)
          (s.window_size - s.bytes_in_flight)
          (contents s.stream))
        (fill_window s)
fill_window_cut s v =
    subst
      (λ n.
        Fills s (not s.is_syn_received) n
          (sendable s.is_syn_received (front_syn s.seg_queue) n (contents s.stream))
          (fill_window s))
      (remaining_window_lem s) (fill_window-remaining s v)

flag_size_small : (b : Bool) → flag_size b ≤ 1
flag_size_small true = omega arith
flag_size_small false = omega arith

-- A call on a ready sender returns. The bytes that it takes off the front of the stream are those
-- that fit what is left of the window, and none while the SYN is under way. They are, in order, the
-- payloads of the new segments; each payload is at most the maximum, the segments are numbered
-- without a gap, and with a FIN they fit the window, the SYN not counted. The first segment alone
-- carries the SYN, and no SYN goes out while the queue holds a segment; the last alone can carry the
-- FIN, and does only once the stream has ended and all of it is sent, none being under way or
-- acknowledged. The new segments, and nothing else, are put behind what waits to be sent and behind
-- the queue of those in flight; the next sequence number and the count of bytes in flight grow by
-- their length.
pub fill_window-Fills :
    (s : TcpSender)
    → IsReady s
    → (f : Fills s
        (not s.is_syn_received)
        (s.window_size - s.bytes_in_flight)
        (sendable s.is_syn_received
          (front_syn s.seg_queue)
          (s.window_size - s.bytes_in_flight)
          (contents s.stream))
        (fill_window s))
      × (t : TcpSender) × (fill_window s ≡ ok tt t)
      × Queued (record s { stream = f.stream' }) f.segments t
fill_window-Fills s v =
    let f = fill_window_cut s v in
    let b = flag_size_small (not s.is_syn_received) in
    let s' = record s { stream = f.stream' } in
    (
      f,
      enqueue_all s' f.segments,
      f.returns,
      enqueue_all-Queued f.segments s' (omega (arith, f.bounded, b, v.far))
          (omega (arith, f.bounded, b, v.far, v.few)),
    )
