-- ===== src/Sender/Cut.antt =====
-- `fill_window` of libsponge/tcp_sender.cc, from the read on.
use cs144_sponge.Prelude.{
  ℕ, ◌+◌, ◌^◌, ◌≤◌, ◌<◌, ◌≡◌, refl, sym, ap, ◌∙◌, ◌⊎◌, inl, inr, List, [], ◌∷◌, ◌++◌, Bool, true,
  false, not, ◌&&◌, ◌||◌, arith, leb, leb→le, ◌==◌, length, Outcome, ok, Bool-cases, some, none,
}
use cs144_sponge.ByteStream
use cs144_sponge.ByteStream.{ByteStream}
use cs144_sponge.ByteStream.Queue
use cs144_sponge.ByteStream.Queue.{contents, Reads, read-Reads, buffer_size-length}
use cs144_sponge.StreamBuffer.{BufferList}
use cs144_sponge.StreamBuffer.Bytes.{bytes}
use cs144_sponge.Segment.{TcpSegment, default_segment, flag_size}
use cs144_sponge.Sender.{TcpSender, fill_read, send_loop, back_fin, front_syn, max_payload_size}
use cs144_sponge.Sender.Segments.{
  enqueue_all, payloads, total_length, AllSmall, Numbered, send_loop-Sends, any_syn, any_fin,
  first_syn, last_fin,
}

-- The flags of the segments that a call sends: the SYN on the first alone, into an empty queue, and
-- the FIN on the last alone, behind the whole stream, when none is under way or acknowledged. A call
-- that sends takes a sequence number at least.
pub record Flags (s : TcpSender) (syn : Bool) (stream' : ByteStream) (segments : List TcpSegment)
    : Type 0 where
  pub first : first_syn segments ≡ some syn
  pub syns : any_syn segments ≡ syn
  pub last : last_fin segments ≡ any_fin segments
  pub total :
      total_length segments
      ≡ length (payloads segments) + flag_size syn + flag_size (any_fin segments)
  pub some_length : 0 < total_length segments
  pub opens : (syn ≡ false) ⊎ (front_syn s.seg_queue ≡ none)
  pub closes :
      (any_fin segments ≡ false)
      ⊎ ((s.is_fin_received ≡ false)
          × (back_fin s.seg_queue ≡ false)
          × (contents stream' ≡ [])
          × (stream'.is_input_end ≡ true))

-- What a call leaves of a sender: the front of the stream has become segments that fit the window.
pub record Fills (s : TcpSender) (syn : Bool) (room : ℕ) (ahead : List ℕ)
    (call : Outcome TcpSender (Unit {0})) : Type 0 where
  pub stream' : ByteStream
  pub segments : List TcpSegment
  pub returns : call ≡ ok tt (enqueue_all (record s { stream = stream' }) segments)
  pub sent : payloads segments ++ contents stream' ≡ contents s.stream
  pub valid : Queue.IsValid stream'
  pub small : AllSmall segments
  pub numbered : Numbered s.isn s.next_seqno segments
  pub bounded : total_length segments ≤ room + flag_size syn
  pub carried : payloads segments ≡ ahead
  pub end_kept : stream'.is_input_end ≡ s.stream.is_input_end
  pub flags : (segments ≡ []) ⊎ Flags s syn stream' segments

pub Fills-nothing :
    (s : TcpSender) (syn : Bool) (stream' : ByteStream) (room : ℕ) (ahead : List ℕ)
    (call : Outcome TcpSender (Unit {0}))
    → Queue.IsValid stream'
    → stream'.is_input_end ≡ s.stream.is_input_end
    → contents stream' ≡ contents s.stream
    → call ≡ ok tt (record s { stream = stream' })
    → [] ≡ ahead
    → Fills s syn room ahead call
Fills-nothing s syn stream' room ahead call v k c e a = record {
  stream' = stream';
  segments = [];
  returns = e;
  sent = c;
  valid = v;
  small = tt;
  numbered = tt;
  bounded = omega arith;
  carried = a;
  end_kept = k;
  flags = inl refl;
}

and-right : (a b : Bool) → (a && b) ≡ true → b ≡ true
and-right a b h = ground arith

and-left : (a b : Bool) → (a && b) ≡ true → a ≡ true
and-left a b h = ground arith

and-false : {a b : Bool} → a ≡ true → (a && b) ≡ false → b ≡ false
and-false h e = ground arith

false_of_not : {a : Bool} → not a ≡ true → a ≡ false
false_of_not h = ground arith

contents_nil : (s : ByteStream) → ByteStream.no_buffers s.buffers ≡ true → contents s ≡ []
contents_nil s h = go s.buffers h
  where
    go : (bs : BufferList) → ByteStream.no_buffers bs ≡ true → bytes bs ≡ []
    go [] h = refl
    go (b ∷ bs) h = absurd (ground (arith, h))

eof_lem : (s : ByteStream) → ByteStream.eof s ≡ true → (s.is_input_end ≡ true) × (contents s ≡ [])
unfolding ByteStream.eof
eof_lem s h = (
  and-left s.is_input_end (ByteStream.no_buffers s.buffers) h,
  contents_nil s (and-right s.is_input_end (ByteStream.no_buffers s.buffers) h),
)

zero_of_test : (n : ℕ) (b : Bool) → ((n == 0) && b) ≡ true → n ≡ 0
zero_of_test n b h = ground arith

positive :
    (n : ℕ) (syn fin : Bool)
    → (n == 0 && not (syn || fin)) ≡ false
    → 0 < n + flag_size syn + flag_size fin
positive n true fin h = omega arith
positive n false true h = omega arith
positive n false false h = ground arith

nil_of_length : (xs : List ℕ) → length xs ≡ 0 → xs ≡ []
nil_of_length [] h = refl
nil_of_length (x ∷ xs) h = absurd (omega arith)

nil_in_front : (xs ys : List ℕ) → xs ++ ys ≡ [] → xs ≡ []
nil_in_front [] ys h = refl
nil_in_front (x ∷ xs) ys h = cc

nil_of_append : (xs ys : List ℕ) → xs ++ ys ≡ [] → ys ≡ []
nil_of_append [] ys h = h
nil_of_append (x ∷ xs) ys h = cc

module _ (s : TcpSender) (stream' : ByteStream) (syn : Bool) (remaining readable : ℕ) (str : List ℕ)
    (fits : readable ≤ remaining) (long : length str ≡ readable)
    (cut : str ++ contents stream' ≡ contents s.stream) (v : Queue.IsValid stream')
    (kept : stream'.is_input_end ≡ s.stream.is_input_end)
    (opens : (syn ≡ false) ⊎ (front_syn s.seg_queue ≡ none))
    (one : (syn ≡ false) ⊎ (readable ≤ max_payload_size))
    (bound : s.next_seqno + readable + 2 < 2 ^ 64)
    (quiet : back_fin s.seg_queue ≡ true → contents s.stream ≡ []) where
  abbrev read_state : TcpSender
  read_state = record s { stream = stream' }

  -- The segments go out, with the FIN if there is room for it.
  Fills-loop :
      (fin : Bool)
      → (readable == 0 && not (syn || fin)) ≡ false
      → (fin ≡ true → readable + 1 ≤ remaining)
      → (fin ≡ false)
        ⊎ ((s.is_fin_received ≡ false)
            × (back_fin s.seg_queue ≡ false)
            × (contents stream' ≡ [])
            × (stream'.is_input_end ≡ true))
      → Fills s syn remaining str (
          send_loop readable read_state
            (record default_segment {
              header = record default_segment.header { syn = syn; fin = fin };
            })
            fin
            str
            readable
            0)
  Fills-loop fin some_length h closes =
      let g = record default_segment {
        header = record default_segment.header { syn = syn; fin = fin };
      } in
      let l =
        send_loop-Sends readable read_state g fin str readable 0 (λ e. e) (omega arith)
          (omega arith) one bound in
      record {
        stream' = stream';
        segments = l.segments;
        returns = l.returns;
        sent = ap (λ t. t ++ contents stream') l.carried ∙ cut;
        valid = v;
        small = l.small;
        numbered = l.numbered;
        bounded = elim (Bool-cases fin) [
          | inl t ↦ omega (arith, l.total, ap flag_size t, h t)
          | inr t ↦ omega (arith, l.total, ap flag_size t)
        ];
        carried = l.carried;
        end_kept = kept;
        flags = inr (record {
          first = l.first;
          syns = l.syns;
          last = l.last ∙ sym l.fins;
          total = omega (arith, l.total, ap length l.carried, ap flag_size l.fins);
          some_length = omega (arith, l.total, positive readable syn fin some_length);
          opens = opens;
          closes = elim closes [ inl e ↦ inl (l.fins ∙ e) | inr c ↦ inr c ];
        });
      }

  abbrev at_end : Bool
  at_end = ByteStream.eof stream' && not s.is_fin_received

  abbrev fin_now : Bool
  fin_now = at_end && leb (readable + 1) remaining

  -- The FIN goes out at the end of the stream, when none is under way and none is acknowledged.
  closes_now :
      (at_end && back_fin s.seg_queue) ≡ false
      → (fin_now ≡ false)
        ⊎ ((s.is_fin_received ≡ false)
            × (back_fin s.seg_queue ≡ false)
            × (contents stream' ≡ [])
            × (stream'.is_input_end ≡ true))
  closes_now e = elim (Bool-cases at_end) [
    | inr f ↦ inl (ground (arith, f))
    | inl t ↦
        let (i, n) = eof_lem stream' (and-left _ _ t) in
        inr (false_of_not (and-right _ _ t), and-false t e, n, i)
  ]

  pub fill_read-Fills : Fills s syn remaining str (fill_read read_state syn remaining readable str)
  unfolding fill_read
  fill_read-Fills = elim (Bool-cases (at_end && back_fin s.seg_queue)) [
    | inl e ↦
        let q = quiet (and-right at_end (back_fin s.seg_queue) e) in
        Fills-nothing s syn stream' _ _ _ v kept
          (nil_of_append str (contents stream') (cut ∙ q) ∙ sym q) (rw e refl)
          (sym (nil_in_front str (contents stream') (cut ∙ q)))
    | inr e ↦ elim (Bool-cases (readable == 0 && not (syn || fin_now))) [
      | inl d ↦
          let z : str ≡ [] = nil_of_length str (long ∙ zero_of_test readable _ d) in
          Fills-nothing s syn stream' _ _ _ v kept (ap (λ t. t ++ contents stream') (sym z) ∙ cut)
            (rw (e, d) refl) (sym z)
      | inr d ↦
          rw (e, d)
            (Fills-loop fin_now d
              (λ h.
                leb→le (readable + 1) remaining (and-right at_end (leb (readable + 1) remaining) h))
              (closes_now e))
    ]
  ]
