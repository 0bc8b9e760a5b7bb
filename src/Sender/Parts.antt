-- ===== src/Sender/Parts.antt =====
-- The segments that libsponge/tcp_sender.cc has sent, as parts of the stream.
use cs144_sponge.Prelude.{
  ℕ, ◌+◌, ◌≤◌, ◌≡◌, ap, ◌∙◌, ◌⊎◌, inl, inr, List, [], ◌∷◌, ◌++◌, true, false, arith, append_assoc,
  length, length-append,
}
use cs144_sponge.Wrapping.{wrap}
use cs144_sponge.Segment.{TcpSegment}

-- A segment behind the SYN: its number is that of a position, and the payload is what the stream has
-- there, the SYN taking position 0.
pub record IsPart (isn : ℕ) (bs : List ℕ) (g : TcpSegment) : Type 0 where
  pub index : ℕ
  pub seqno : g.header.seqno ≡ wrap index isn
  pub syn : g.header.syn ≡ false
  pub high : index ≤ length bs + 2
  pub bytes :
      (g.payload ≡ [])
      ⊎ ((before : List ℕ) × (after : List ℕ) × (bs ≡ before ++ (g.payload ++ after))
          × (index ≡ length before + 1))

-- The SYN, at position 0.
abbrev pub IsSyn : ℕ → TcpSegment → Type 0
IsSyn isn g = (g.header.syn ≡ true) × (g.header.seqno ≡ wrap 0 isn)

-- Each segment of a list is the SYN, or such a part.
abbrev pub AllSent : ℕ → List ℕ → List TcpSegment → Type 0
AllSent isn bs [] = Unit {0}
AllSent isn bs (g ∷ gs) = (IsSyn isn g ⊎ IsPart isn bs g) × AllSent isn bs gs

pub AllSent-append :
    (isn : ℕ) (bs : List ℕ) (gs hs : List TcpSegment)
    → AllSent isn bs gs
    → AllSent isn bs hs
    → AllSent isn bs (gs ++ hs)
AllSent-append isn bs [] hs v w = w
AllSent-append isn bs (g ∷ gs) hs v w = (v.0, AllSent-append isn bs gs hs v.1 w)

pub AllSent-split :
    (isn : ℕ) (bs : List ℕ) (gs hs : List TcpSegment)
    → AllSent isn bs (gs ++ hs)
    → AllSent isn bs gs × AllSent isn bs hs
AllSent-split isn bs [] hs v = (tt, v)
AllSent-split isn bs (g ∷ gs) hs v = let r = AllSent-split isn bs gs hs v.1 in ((v.0, r.0), r.1)

IsPart-more :
    (isn : ℕ) (bs new : List ℕ) (g : TcpSegment) → IsPart isn bs g → IsPart isn (bs ++ new) g
IsPart-more isn bs new g p = record {
  index = p.index;
  seqno = p.seqno;
  syn = p.syn;
  high = omega (arith, p.high, length-append bs new);
  bytes = elim p.bytes [
    | inl z ↦ inl z
    | inr (before, after, e, n) ↦ inr (
      before,
      after ++ new,
      ap (λ l. l ++ new) e
          ∙ append_assoc before (g.payload ++ after) new
          ∙ ap (◌++◌ before) (append_assoc g.payload after new),
      n,
    )
  ];
}

-- What has been sent stays a part when more is written.
pub AllSent-more :
    (isn : ℕ) (bs new : List ℕ) (gs : List TcpSegment)
    → AllSent isn bs gs
    → AllSent isn (bs ++ new) gs
AllSent-more isn bs new [] v = tt
AllSent-more isn bs new (g ∷ gs) v = (
  elim v.0 [ inl e ↦ inl e | inr p ↦ inr (IsPart-more isn bs new g p) ],
  AllSent-more isn bs new gs v.1,
)
