-- ===== src/Sender/Timer.antt =====
-- `tick` of libsponge/tcp_sender.cc: the retransmission timer between acknowledgements.
use cs144_sponge.Prelude.{
  ℕ, zero, suc, ◌+◌, ◌*◌, ◌^◌, ◌≡◌, ◌≤◌, ◌<◌, refl, sym, ap, subst, ◌∙◌, inl, inr, List, [], ◌∷◌,
  ◌++◌, true, false, leb, arith, length, replicate, append-nil, append_assoc, Bool-cases, u64,
  leb→le,
}
use cs144_sponge.Sender.{TcpSender, SenderSegment, tick, tick_front}

-- Ticks with no acknowledgement between them, and the time that they take.
abbrev pub ticks : TcpSender → List ℕ → TcpSender
ticks s [] = s
ticks s (ms ∷ mss) = ticks (tick s ms) mss

abbrev pub elapsed : List ℕ → ℕ
elapsed [] = 0
elapsed (ms ∷ mss) = ms + elapsed mss

-- A timeout doubled a number of times.
abbrev pub doubled : ℕ → ℕ → ℕ
doubled zero rto = rto
doubled (suc n) rto = doubled n (rto * 2)

le-doubled : (n rto : ℕ) → rto ≤ doubled n rto
le-doubled zero rto = omega arith
le-doubled (suc n) rto = omega (arith, le-doubled n (rto * 2))

-- From the time `now` on, with a timeout `rto` that began at `started`, the timeout is over as often
-- as `times` says at the ends of these ticks. It is over once `rto` has passed since it began; it then
-- begins anew, twice as long. The last that began did so at `last`.
pub data Expires : ℕ → ℕ → ℕ → List ℕ → ℕ → ℕ → Type 0 where
  none_left : {now started rto : ℕ} → Expires now started rto [] 0 started
  in_time :
      {now started rto times last : ℕ} (ms : ℕ) (mss : List ℕ)
      → now + ms < started + rto
      → Expires (now + ms) started rto mss times last
      → Expires now started rto (ms ∷ mss) times last
  over :
      {now started rto times last : ℕ} (ms : ℕ) (mss : List ℕ)
      → started + rto ≤ now + ms
      → Expires (now + ms) (now + ms) (rto * 2) mss times last
      → Expires now started rto (ms ∷ mss) (suc times) last

-- What ticks leave of a sender whose oldest segment is `x`.
pub record BacksOff (s : TcpSender) (x : SenderSegment) (xs : List SenderSegment) (mss : List ℕ)
    (s' : TcpSender) : Type 0 where
  pub times : ℕ
  pub started : ℕ
  pub expires : Expires s.last_tick_time x.time x.rto mss times started
  pub queue : s'.seg_queue ≡ record x { rto = doubled times x.rto; time = started } ∷ xs
  pub sent : s'.segments_out ≡ s.segments_out ++ replicate times x.seg
  pub counted : s'.consecutive_retrans ≡ s.consecutive_retrans + times
  pub clock : s'.last_tick_time ≡ s.last_tick_time + elapsed mss
  pub early : s'.last_tick_time < started + doubled times x.rto

abbrev expired : TcpSender → SenderSegment → List SenderSegment → TcpSender
expired s x xs = record s {
  seg_queue = record x { rto = x.rto * 2; time = s.last_tick_time } ∷ xs;
  consecutive_retrans = s.consecutive_retrans + 1;
  segments_out = s.segments_out ++ (x.seg ∷ []);
}

tick_front_early :
    (s : TcpSender) (x : SenderSegment) (xs : List SenderSegment)
    → x.time + x.rto < 2 ^ 64
    → leb (x.time + x.rto) s.last_tick_time ≡ false
    → tick_front s (x ∷ xs) ≡ s
unfolding tick_front
tick_front_early s x xs h e = ground arith

tick_front_late :
    (s : TcpSender) (x : SenderSegment) (xs : List SenderSegment)
    → x.time + x.rto < 2 ^ 64
    → leb (x.time + x.rto) s.last_tick_time ≡ true
    → s.is_window_zero ≡ false
    → x.rto * 2 < 2 ^ 64
    → s.consecutive_retrans + 1 < 2 ^ 64
    → tick_front s (x ∷ xs) ≡ expired s x xs
unfolding tick_front
tick_front_late s x xs h e w r c =
    let t : u64 (x.time + x.rto) ≡ x.time + x.rto = omega arith in
    let d : u64 (x.rto * 2) ≡ x.rto * 2 = omega arith in
    let n : u64 (s.consecutive_retrans + 1) ≡ s.consecutive_retrans + 1 = omega arith in
    rw (t, e, w, d, n) refl

le_double : (n rto : ℕ) → doubled n rto ≤ doubled n (rto * 2)
le_double zero rto = omega arith
le_double (suc n) rto = le_double n (rto * 2)

tick_lem :
    (s : TcpSender) (ms : ℕ) (x : SenderSegment) (xs : List SenderSegment)
    → s.seg_queue ≡ x ∷ xs
    → s.last_tick_time + ms < 2 ^ 64
    → tick s ms ≡ tick_front (record s { last_tick_time = s.last_tick_time + ms }) (x ∷ xs)
unfolding tick
tick_lem s ms x xs q h =
    let e : u64 (s.last_tick_time + ms) ≡ s.last_tick_time + ms = omega arith in
    ap (λ t. tick_front (record s { last_tick_time = t }) s.seg_queue) e
    ∙ ap (tick_front (record s { last_tick_time = s.last_tick_time + ms })) q

-- One tick more in front.
BacksOff-late :
    (s : TcpSender) (x : SenderSegment) (xs : List SenderSegment) (ms : ℕ) (mss : List ℕ)
    (s' : TcpSender)
    → x.time + x.rto ≤ s.last_tick_time + ms
    → let now = record s { last_tick_time = s.last_tick_time + ms } in
      BacksOff
        (expired now x xs)
        (record x { rto = x.rto * 2; time = now.last_tick_time })
        xs
        mss
        s'
      → BacksOff s x xs (ms ∷ mss) s'
BacksOff-late s x xs ms mss s' h d = record {
  times = suc d.times;
  started = d.started;
  expires = over ms mss h d.expires;
  queue = d.queue;
  sent = d.sent ∙ append_assoc s.segments_out (x.seg ∷ []) (replicate d.times x.seg);
  counted = omega (arith, d.counted);
  clock = omega (arith, d.clock);
  early = d.early;
}

BacksOff-early :
    (s : TcpSender) (x : SenderSegment) (xs : List SenderSegment) (ms : ℕ) (mss : List ℕ)
    (s' : TcpSender)
    → s.last_tick_time + ms < x.time + x.rto
    → BacksOff (record s { last_tick_time = s.last_tick_time + ms }) x xs mss s'
    → BacksOff s x xs (ms ∷ mss) s'
BacksOff-early s x xs ms mss s' h d = record {
  times = d.times;
  started = d.started;
  expires = in_time ms mss h d.expires;
  queue = d.queue;
  sent = d.sent;
  counted = d.counted;
  clock = omega (arith, d.clock);
  early = d.early;
}

-- While the window is open, ticks send nothing but the oldest segment, once for each time that its
-- timeout is over, as `Expires` counts these; each time doubles the timeout and counts as a
-- retransmission. The timeout is over at none of the ticks before the first, and no number overflows.
pub ticks-BacksOff :
    (mss : List ℕ) (s : TcpSender) (x : SenderSegment) (xs : List SenderSegment)
    → s.seg_queue ≡ x ∷ xs
    → s.is_window_zero ≡ false
    → 0 < x.rto
    → x.time ≤ s.last_tick_time
    → s.last_tick_time < x.time + x.rto
    → s.last_tick_time + elapsed mss + doubled (length mss) x.rto < 2 ^ 64
    → s.consecutive_retrans + length mss < 2 ^ 64
    → BacksOff s x xs mss (ticks s mss)
ticks-BacksOff [] s x xs q w pos past early far few = record {
  times = 0;
  started = x.time;
  expires = none_left;
  queue = q;
  sent = sym (append-nil s.segments_out);
  counted = omega arith;
  clock = omega arith;
  early = early;
}
ticks-BacksOff (ms ∷ mss) s x xs q w pos past early far few =
    let now = record s { last_tick_time = s.last_tick_time + ms } in
    let small = le-doubled (length mss) (x.rto * 2) in
    elim (Bool-cases (leb (x.time + x.rto) now.last_tick_time)) [
      | inl e ↦
          let one : tick s ms ≡ expired now x xs =
            tick_lem s ms x xs q (omega arith)
            ∙ tick_front_late now x xs (omega arith) e w (omega arith) (omega arith) in
          BacksOff-late s x xs ms mss (ticks (tick s ms) mss) (leb→le _ _ e) (
            subst
              (λ t.
                BacksOff (expired now x xs)
                  (record x { rto = x.rto * 2; time = now.last_tick_time }) xs mss (ticks t mss))
              (sym one)
              (ticks-BacksOff mss (expired now x xs) _ xs refl w (omega arith) (omega arith)
                (omega arith) (omega arith) (omega arith)))
      | inr e ↦
          let one : tick s ms ≡ now =
            tick_lem s ms x xs q (omega arith) ∙ tick_front_early now x xs (omega arith) e in
          BacksOff-early s x xs ms mss (ticks (tick s ms) mss) (ground (arith, e)) (
            subst (λ t. BacksOff now x xs mss (ticks t mss)) (sym one)
              (ticks-BacksOff mss now x xs q w pos (omega arith) (ground (arith, e))
                (omega (arith, le_double (length mss) x.rto)) (omega arith)))
    ]
