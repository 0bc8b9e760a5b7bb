-- ===== src/Sender/Segments.antt =====
-- The do-while loop of `fill_window` of libsponge/tcp_sender.cc cuts a string into segments.
use cs144_sponge.Prelude.{
  ℕ, zero, suc, ◌+◌, ◌-◌, ◌*◌, ◌^◌, ◌≤◌, ◌<◌, ◌≡◌, refl, sym, ap, ap₂, subst, ◌∙◌, ◌⊎◌, inl, inr,
  List, [], ◌∷◌, ◌++◌, Bool, true, false, arith, min, ltb, leb, length, take, drop, length-drop,
  length-take, take-append-drop, drop-drop, take_of_le, append-nil, dec_lt, Outcome, ok, Bool-cases,
  ◌||◌, Option, none, some, lt→ltb,
}
use cs144_sponge.Wrapping.{wrap}
use cs144_sponge.Segment.{TcpSegment, length_in_sequence_space, flag_size}
use cs144_sponge.Sender.{
  TcpSender, round_fin, round_segment, enqueue, send_round, send_loop, max_payload_size,
}

-- The sender behind a row of segments.
abbrev pub enqueue_all : TcpSender → List TcpSegment → TcpSender
enqueue_all s [] = s
enqueue_all s (g ∷ gs) = enqueue_all (enqueue s g) gs

-- The bytes that a row of segments carries, and how many sequence numbers it takes.
abbrev pub payloads : List TcpSegment → List ℕ
payloads [] = []
payloads (g ∷ gs) = g.payload ++ payloads gs

abbrev pub total_length : List TcpSegment → ℕ
total_length [] = 0
total_length (g ∷ gs) = length_in_sequence_space g + total_length gs

-- The flags of a row: whether some segment carries one, the SYN of the first and the FIN of the last.
abbrev pub any_syn : List TcpSegment → Bool
any_syn [] = false
any_syn (g ∷ gs) = g.header.syn || any_syn gs

abbrev pub any_fin : List TcpSegment → Bool
any_fin [] = false
any_fin (g ∷ gs) = g.header.fin || any_fin gs

abbrev pub first_syn : List TcpSegment → Option Bool
first_syn [] = none
first_syn (g ∷ gs) = some g.header.syn

abbrev pub last_fin : List TcpSegment → Bool
last_fin [] = false
last_fin (g ∷ []) = g.header.fin
last_fin (g ∷ (h ∷ hs)) = last_fin (h ∷ hs)

-- Each segment carries a payload of at most the maximum.
abbrev pub AllSmall : List TcpSegment → Type 0
AllSmall [] = Unit {0}
AllSmall (g ∷ gs) = (length g.payload ≤ max_payload_size) × AllSmall gs

-- Each segment carries the wrapped number of its first position, without a gap.
abbrev pub Numbered : ℕ → ℕ → List TcpSegment → Type 0
Numbered isn n [] = Unit {0}
Numbered isn n (g ∷ gs) =
    (g.header.seqno ≡ wrap n isn) × Numbered isn (n + length_in_sequence_space g) gs

-- What the loop leaves: the sender behind a row of segments that carry what was left of the string.
pub record Sends (s : TcpSender) (syn fin : Bool) (rest : List ℕ)
    (call : Outcome TcpSender (Unit {0})) : Type 0 where
  pub segments : List TcpSegment
  pub returns : call ≡ ok tt (enqueue_all s segments)
  pub carried : payloads segments ≡ rest
  pub small : AllSmall segments
  pub numbered : Numbered s.isn s.next_seqno segments
  pub total : total_length segments ≡ length rest + flag_size syn + flag_size fin
  pub first : first_syn segments ≡ some syn
  pub syns : any_syn segments ≡ syn
  pub fins : any_fin segments ≡ fin
  pub last : last_fin segments ≡ fin

last_fin-some :
    (g : TcpSegment) (gs : List TcpSegment) (b : Bool)
    → first_syn gs ≡ some b
    → last_fin (g ∷ gs) ≡ last_fin gs
last_fin-some g [] b h = absurd (ground (arith, h))
last_fin-some g (y ∷ ys) b h = refl

or_false : {a b : Bool} → a ≡ b → (a || false) ≡ b
or_false h = ground arith

or_behind : {a b c : Bool} → a ≡ false → b ≡ c → (a || b) ≡ c
or_behind h e = ground arith

send_round_lem :
    (s : TcpSender) (seg : TcpSegment) (is_fin : Bool) (str : List ℕ) (readable index : ℕ)
    → index * max_payload_size ≤ length str
    → let g =
        round_segment s seg is_fin
          (take (min max_payload_size readable) (drop (index * max_payload_size) str))
          readable in
      send_round s seg is_fin str readable index ≡ ok g (enqueue s g)
unfolding send_round
send_round_lem s seg is_fin str readable index h = ground arith

not_last : (readable : ℕ) → max_payload_size < readable → leb readable max_payload_size ≡ false
not_last readable h = ground arith

module _ (s : TcpSender) (seg : TcpSegment) (is_fin : Bool) (rest : List ℕ)
    (flags : is_fin ≡ false → seg.header.fin ≡ false) where
  -- The last round.
  round_last :
      (readable : ℕ)
      → readable ≡ length rest
      → readable ≤ max_payload_size
      → let g = round_segment s seg is_fin (take (min max_payload_size readable) rest) readable in
        (g.payload ≡ rest)
        × (g.header.seqno ≡ wrap s.next_seqno s.isn)
        × (length_in_sequence_space g ≡ length rest + flag_size seg.header.syn + flag_size is_fin)
        × (g.header.fin ≡ is_fin)
        × (g.header.syn ≡ seg.header.syn)
  unfolding round_segment length_in_sequence_space
  round_last readable e h =
      let t : take (min max_payload_size readable) rest ≡ rest =
        take_of_le (min max_payload_size readable) rest (omega arith) in
      (t, refl, ground (arith, t), ground (arith, flags), refl)

  -- A round with more to follow.
  round_more :
      (readable : ℕ)
      → readable ≡ length rest
      → max_payload_size < readable
      → let g = round_segment s seg is_fin (take (min max_payload_size readable) rest) readable in
        (g.payload ≡ take max_payload_size rest)
        × (g.header.seqno ≡ wrap s.next_seqno s.isn)
        × (length_in_sequence_space g ≡ max_payload_size + flag_size seg.header.syn)
        × (g.header.fin ≡ false)
        × (g.header.syn ≡ seg.header.syn)
  unfolding round_segment length_in_sequence_space
  round_more readable e h =
      let m : min max_payload_size readable ≡ max_payload_size = omega arith in
      let l : length (take max_payload_size rest) ≡ max_payload_size =
        omega (arith, length-take max_payload_size rest) in
      let k : leb readable max_payload_size ≡ false = not_last readable h in
      let f : round_fin is_fin readable seg.header.fin ≡ false = elim (Bool-cases is_fin) [
        | inl t ↦ rw (t, k) refl
        | inr t ↦ rw t (flags t)
      ] in
      (ap (λ n. take n rest) m, refl, rw (m, l, f) (omega arith), f, refl)

pub enqueue_lem :
    (s : TcpSender) (g : TcpSegment)
    → s.next_seqno + length_in_sequence_space g < 2 ^ 64
    → ((enqueue s g).next_seqno ≡ s.next_seqno + length_in_sequence_space g)
      × ((enqueue s g).isn ≡ s.isn)
unfolding enqueue
enqueue_lem s g h = (omega arith, refl)

pub send_loop-Sends :
    (fuel : ℕ) (s : TcpSender) (seg : TcpSegment) (is_fin : Bool) (str : List ℕ)
    (readable index : ℕ)
    → (is_fin ≡ false → seg.header.fin ≡ false)
    → index * max_payload_size + readable ≡ length str
    → readable ≤ fuel * max_payload_size + max_payload_size
    → (seg.header.syn ≡ false) ⊎ (readable ≤ max_payload_size)
    → s.next_seqno + readable + 2 < 2 ^ 64
    → Sends s seg.header.syn is_fin
        (drop (index * max_payload_size) str)
        (send_loop fuel s seg is_fin str readable index)
unfolding send_loop
send_loop-Sends zero s seg is_fin str readable index flags e f one bound =
    let rest = drop (index * max_payload_size) str in
    let l : readable ≡ length rest = omega (arith, length-drop (index * max_payload_size) str) in
    let g = round_segment s seg is_fin (take (min max_payload_size readable) rest) readable in
    let (p, q, t, lf, ls) = round_last s seg is_fin rest flags readable l (omega arith) in
    record {
      segments = g ∷ [];
      returns = rw (send_round_lem s seg is_fin str readable index (omega arith)) refl;
      carried = append-nil _ ∙ p;
      small = (omega (arith, ap length p), tt);
      numbered = (q, tt);
      total = omega (arith, t);
      first = ap some ls;
      syns = or_false ls;
      fins = or_false lf;
      last = lf;
    }
send_loop-Sends (suc n) s seg is_fin str readable index flags e f one bound =
    let rest = drop (index * max_payload_size) str in
    let l : readable ≡ length rest = omega (arith, length-drop (index * max_payload_size) str) in
    let g = round_segment s seg is_fin (take (min max_payload_size readable) rest) readable in
    elim (dec_lt max_payload_size readable) [
      | no last ↦
          let (p, q, t, lf, ls) = round_last s seg is_fin rest flags readable l (omega arith) in
          let k : ltb max_payload_size readable ≡ false = ground arith in
          record {
            segments = g ∷ [];
            returns = rw (send_round_lem s seg is_fin str readable index (omega arith), k) refl;
            carried = append-nil _ ∙ p;
            small = (omega (arith, ap length p), tt);
            numbered = (q, tt);
            total = omega (arith, t);
            first = ap some ls;
            syns = or_false ls;
            fins = or_false lf;
            last = lf;
          }
      | yes more ↦
          let (p, q, t, nf, ns) = round_more s seg is_fin rest flags readable l more in
          let k : ltb max_payload_size readable ≡ true = lt→ltb _ _ more in
          let sf : seg.header.syn ≡ false = elim one [ inl a ↦ a | inr b ↦ absurd (omega arith) ] in
          let z : flag_size seg.header.syn ≡ 0 = ap flag_size sf in
          let w = enqueue_lem s g (omega (arith, t, z)) in
          let d : drop max_payload_size rest ≡ drop ((index + 1) * max_payload_size) str =
            drop-drop max_payload_size (index * max_payload_size) str
            ∙ ap (λ k. drop k str) (omega arith) in
          let r =
            send_loop-Sends n (enqueue s g) g is_fin str (readable - max_payload_size) (index + 1)
              (λ _. nf) (omega arith) (omega arith) (inl sf) (omega (arith, w.0, t, z)) in
          record {
            segments = g ∷ r.segments;
            returns =
                rw (send_round_lem s seg is_fin str readable index (omega arith), k) r.returns;
            carried = ap₂ ◌++◌ p (r.carried ∙ sym d) ∙ take-append-drop max_payload_size rest;
            small = (omega (arith, ap length p, length-take max_payload_size rest), r.small);
            numbered = (q, subst (λ m. Numbered s.isn m r.segments) w.0 r.numbered);
            total = omega (arith, t, z, r.total, ap length d, length-drop max_payload_size rest);
            first = ap some ns;
            syns = or_behind (ns ∙ sf) r.syns ∙ ns;
            fins = or_behind nf r.fins;
            last = last_fin-some g r.segments g.header.syn r.first ∙ r.last;
          }
    ]
