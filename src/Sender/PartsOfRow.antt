-- ===== src/Sender/PartsOfRow.antt =====
-- The row of all that libsponge/tcp_sender.cc has sent is the SYN and parts of the stream.
use cs144_sponge.Prelude.{
  ℕ, ◌+◌, ◌≤◌, ◌≡◌, refl, sym, ap, ◌∙◌, ◌⊎◌, inl, inr, List, [], ◌∷◌, ◌++◌, Bool, true, false, ◌||◌,
  some, arith, append_assoc, length, length-append, Bool-cases,
}
use cs144_sponge.Wrapping.{wrap}
use cs144_sponge.ByteStream.Queue.{contents}
use cs144_sponge.Segment.{TcpSegment, length_in_sequence_space, flag_size}
use cs144_sponge.Sender.{TcpSender}
use cs144_sponge.Sender.Segments.{
  payloads, total_length, Numbered, any_syn, any_fin, first_syn, last_fin,
}
use cs144_sponge.Sender.Holds.{
  Holds, Holds-upto, opened_lem, last_fin_none, or-left, or-right, flag_size_le,
}
use cs144_sponge.Sender.Parts.{IsPart, AllSent}

segment_length :
    (g : TcpSegment)
    → length_in_sequence_space g
      ≡ length g.payload + flag_size g.header.syn + flag_size g.header.fin
unfolding length_in_sequence_space
segment_length g = omega arith

flag_size_or : (a b : Bool) → flag_size (a || b) ≤ flag_size a + flag_size b
flag_size_or true b = omega arith
flag_size_or false b = omega arith

-- Every flag of a row takes a number.
total_length_le :
    (gs : List TcpSegment)
    → length (payloads gs) + flag_size (any_syn gs) + flag_size (any_fin gs) ≤ total_length gs
total_length_le [] = omega arith
total_length_le (g ∷ gs) = omega (
  arith,
  total_length_le gs,
  segment_length g,
  length-append g.payload (payloads gs),
  flag_size_or g.header.syn (any_syn gs),
  flag_size_or g.header.fin (any_fin gs),
)

any_fin_last : (gs : List TcpSegment) → last_fin gs ≡ true → any_fin gs ≡ true
any_fin_last gs h = elim (Bool-cases (any_fin gs)) [
  | inl e ↦ e
  | inr e ↦ let n = last_fin_none gs e in absurd (ground (arith, sym h ∙ n))
]

flag_zero : (b : Bool) → flag_size b ≡ 0 → b ≡ false
flag_zero true h = absurd (omega arith)
flag_zero false h = refl

-- A row without a SYN whose only FIN is its last segment.
record IsTail (gs : List TcpSegment) : Type 0 where
  no_syn : any_syn gs ≡ false
  exact : total_length gs ≤ length (payloads gs) + flag_size (any_fin gs)
  closed : (any_fin gs ≡ false) ⊎ (last_fin gs ≡ true)

IsTail-next :
    (g h : TcpSegment) (hs : List TcpSegment)
    → IsTail (g ∷ (h ∷ hs))
    → (g.header.fin ≡ false) × IsTail (h ∷ hs)
IsTail-next g h hs v =
    let t = total_length_le (h ∷ hs) in
    let l = length-append g.payload (payloads (h ∷ hs)) in
    let f : g.header.fin ≡ false = elim v.closed [
      | inl e ↦ or-left g.header.fin _ e
      | inr e ↦
          let a = ap flag_size (any_fin_last (h ∷ hs) e) in
          flag_zero g.header.fin (
            omega
              (arith, v.exact, t, l, a, segment_length g, flag_size_le (any_fin (g ∷ (h ∷ hs)))))
    ] in
    (
      f,
      record {
        no_syn = or-right g.header.syn _ v.no_syn;
        exact =
            omega
              (arith, v.exact, l, segment_length g, ap (λ b. flag_size (b || any_fin (h ∷ hs))) f);
        closed = elim v.closed [ inl e ↦ inl (or-right g.header.fin _ e) | inr e ↦ inr e ];
      },
    )

head-IsPart :
    (isn n : ℕ) (bs before after : List ℕ) (g : TcpSegment) (gs : List TcpSegment)
    → g.header.seqno ≡ wrap n isn
    → IsTail (g ∷ gs)
    → n ≡ length before + 1
    → bs ≡ before ++ (payloads (g ∷ gs) ++ after)
    → IsPart isn bs g
head-IsPart isn n bs before after g gs v t e b =
    let b' : bs ≡ before ++ (g.payload ++ (payloads gs ++ after)) =
      b ∙ ap (◌++◌ before) (append_assoc g.payload (payloads gs) after) in
    record {
      index = n;
      seqno = v;
      syn = or-left g.header.syn _ t.no_syn;
      high =
          omega
            (arith, e, ap length b', length-append before (g.payload ++ (payloads gs ++ after)));
      bytes = inr (before, payloads gs ++ after, b', e);
    }

tail-AllSent :
    (isn n : ℕ) (bs before after : List ℕ) (gs : List TcpSegment)
    → Numbered isn n gs
    → IsTail gs
    → n ≡ length before + 1
    → bs ≡ before ++ (payloads gs ++ after)
    → AllSent isn bs gs
tail-AllSent isn n bs before after [] v t e b = tt
tail-AllSent isn n bs before after (g ∷ []) v t e b =
    (inr (head-IsPart isn n bs before after g [] v.0 t e b), tt)
tail-AllSent isn n bs before after (g ∷ (h ∷ hs)) v t e b =
    let (f, t') = IsTail-next g h hs t in
    let s = or-left g.header.syn _ t.no_syn in
    (
      inr (head-IsPart isn n bs before after g (h ∷ hs) v.0 t e b),
      tail-AllSent isn (n + length_in_sequence_space g) bs (before ++ g.payload) after (h ∷ hs) v.1
          t'
          (omega (
            arith,
            segment_length g,
            ap flag_size f,
            ap flag_size s,
            e,
            length-append before g.payload,
          ))
          (b
            ∙ ap (◌++◌ before) (append_assoc g.payload (payloads (h ∷ hs)) after)
            ∙ sym (append_assoc before g.payload (payloads (h ∷ hs) ++ after))),
    )

syn_lem : (g : TcpSegment) (gs : List TcpSegment) → g.header.syn ≡ true → any_syn (g ∷ gs) ≡ true
syn_lem g gs s = ground (arith, s)

-- The flags behind a SYN are few.
flags_le :
    (g : TcpSegment) (gs : List TcpSegment)
    → g.header.syn ≡ true
    → total_length (g ∷ gs)
      ≡ flag_size (any_syn (g ∷ gs)) + length (payloads (g ∷ gs)) + flag_size (any_fin (g ∷ gs))
    → (flag_size (any_syn gs) + flag_size (any_fin gs) + flag_size g.header.fin
        ≤ flag_size (any_fin (g ∷ gs)))
      × (total_length gs + flag_size g.header.fin
          ≡ length (payloads gs) + flag_size (any_fin (g ∷ gs)))
flags_le g gs s e =
    let a = ap flag_size s in
    let b = ap flag_size (syn_lem g gs s) in
    let l = length-append g.payload (payloads gs) in
    let n = segment_length g in
    (omega (arith, e, a, b, l, n, total_length_le gs), omega (arith, e, a, b, l, n))

row-IsTail :
    (g : TcpSegment) (gs : List TcpSegment)
    → g.header.syn ≡ true
    → total_length (g ∷ gs)
      ≡ flag_size (any_syn (g ∷ gs)) + length (payloads (g ∷ gs)) + flag_size (any_fin (g ∷ gs))
    → (any_fin gs ≡ false) ⊎ (last_fin gs ≡ true)
    → IsTail gs
row-IsTail g gs s e c =
    let (f, t) = flags_le g gs s e in
    let o = flag_size_or g.header.fin (any_fin gs) in
    record {
      no_syn = flag_zero (any_syn gs) (omega (arith, f, o));
      exact = omega (arith, t, o);
      closed = c;
    }

row-AllSent :
    (isn : ℕ) (bs after : List ℕ) (row : List TcpSegment)
    → (row ≡ []) ⊎ (first_syn row ≡ some true)
    → Numbered isn 0 row
    → total_length row ≡ flag_size (any_syn row) + length (payloads row) + flag_size (any_fin row)
    → (any_fin row ≡ false) ⊎ (last_fin row ≡ true)
    → bs ≡ payloads row ++ after
    → AllSent isn bs row
row-AllSent isn bs after [] o v e c b = tt
row-AllSent isn bs after (g ∷ gs) (inl z) v e c b = absurd (cc)
row-AllSent isn bs after (g ∷ []) (inr s) v e c b = (inl (ground (arith, s), v.0), tt)
row-AllSent isn bs after (g ∷ (h ∷ hs)) (inr q) v e c b =
    let s : g.header.syn ≡ true = ground (arith, q) in
    let (f, t) = flags_le g (h ∷ hs) s e in
    let c' : (any_fin (h ∷ hs) ≡ false) ⊎ (last_fin (h ∷ hs) ≡ true) = elim c [
      | inl n ↦ inl (or-right g.header.fin _ n)
      | inr l ↦ inr l
    ] in
    let z : g.header.fin ≡ false = elim c [
      | inl n ↦ or-left g.header.fin _ n
      | inr l ↦ flag_zero g.header.fin (
          omega (
            arith,
            f,
            ap flag_size (any_fin_last (h ∷ hs) l),
            flag_size_le (any_fin (g ∷ (h ∷ hs))),
          ))
    ] in
    (
      inl (s, v.0),
      tail-AllSent isn (0 + length_in_sequence_space g) bs g.payload after (h ∷ hs) v.1
          (row-IsTail g (h ∷ hs) s e c')
          (omega (arith, segment_length g, ap flag_size s, ap flag_size z))
          (b ∙ append_assoc g.payload (payloads (h ∷ hs)) after),
    )

-- All that was ever sent is the SYN and parts of the stream.
pub Holds-AllSent : {s : TcpSender} {bs : List ℕ} (k : Holds s bs) → AllSent s.isn bs k.row
Holds-AllSent {s} {bs} k =
    row-AllSent s.isn bs (contents s.stream) k.row (opened_lem k) k.numbered
      (Holds-upto k ∙ k.numbers) (elim k.closed [ inl f ↦ inl f | inr f ↦ inr f.0 ]) (sym k.bytes)
