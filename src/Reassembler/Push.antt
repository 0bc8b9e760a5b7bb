-- ===== src/Reassembler/Push.antt =====
-- `push_substring` of libsponge/stream_reassembler.cc, from the check for duplicates to the output.
use cs144_sponge.Prelude.{
  ℕ, suc, ◌+◌, ◌-◌, ◌^◌, ◌≤◌, ◌<◌, ◌≡◌, refl, sym, ap, subst, ◌∙◌, ◌⊎◌, inl, inr, List, ◌++◌, Bool,
  false, arith, length, take, drop, ok, dec_lt, append-nil, length-take, sub64, u64, length-drop,
  take_of_le, Outcome,
}
use cs144_sponge.ByteStream.Queue.{contents}
use cs144_sponge.BufferString.{push_back}
use cs144_sponge.BufferString.Pieces.{Covers, Pieces-le, between, slice, take-slice, drop-slice}
use cs144_sponge.BufferString.Insert.{Within}
use cs144_sponge.BufferString.Place.{push_back-PushesBack}
use cs144_sponge.Reassembler.{
  StreamReassembler, stored, accept, accept_rest, push_substring, current_capacity,
}
use cs144_sponge.Reassembler.Stream.{window_end, IsAssembly, current_capacity_lem}
use cs144_sponge.Reassembler.Flush.{flush-Flushes}

-- The position `i` is put out already or held in the list.
abbrev pub Has : StreamReassembler → ℕ → Type 0
Has r i = (i < r.top_pointer) ⊎ Covers i r.buffer_list

-- What a call leaves of an assembly that is handed the positions from `a` up to `c`.
pub record Accepts (f : ℕ → ℕ) (r : StreamReassembler) (a c : ℕ)
    (call : Outcome StreamReassembler (Unit {0})) : Type 0 where
  pub result : StreamReassembler
  pub returns : call ≡ ok tt result
  pub assembly : IsAssembly f result
  pub forward : r.top_pointer ≤ result.top_pointer
  pub delivered :
      contents result.output ≡ contents r.output ++ between f r.top_pointer result.top_pointer
  pub sound : (i : ℕ) → Has result i → Has r i ⊎ Within a c i
  pub kept : (i : ℕ) → Has r i → Has result i
  pub complete : (i : ℕ) → Within a c i → i < window_end r → Has result i
  pub settled :
      r.top_pointer < window_end r
      → a < window_end r
      → r.top_pointer ≤ c
      → (window_end result ≡ result.top_pointer)
        ⊎ (Covers result.top_pointer result.buffer_list → ⊥)
  pub capacity_kept : result.capacity ≡ r.capacity
  pub read_kept : result.output.bytes_read ≡ r.output.bytes_read

module _ (f : ℕ → ℕ) where
  nothing_between :
      (r : StreamReassembler)
      → contents r.output ≡ contents r.output ++ between f r.top_pointer r.top_pointer
  nothing_between r =
      let z : r.top_pointer - r.top_pointer ≡ 0 = omega arith in rw z (sym (append-nil _))

  -- A call that changes nothing is right where all that fits the window is held.
  Accepts-same :
      (r : StreamReassembler) (a c : ℕ) (call : Outcome StreamReassembler (Unit {0}))
      → IsAssembly f r
      → call ≡ ok tt r
      → ((i : ℕ) → Within a c i → i < window_end r → Has r i)
      → (a < window_end r → c < r.top_pointer)
      → Accepts f r a c call
  Accepts-same r a c call v e h m = record {
    result = r;
    returns = e;
    assembly = v;
    forward = omega arith;
    delivered = nothing_between r;
    sound = λ i k. inl k;
    kept = λ i k. k;
    complete = h;
    settled = λ o k t. absurd (omega (arith, m k));
    capacity_kept = refl;
    read_kept = refl;
  }

  -- Storing a string that begins inside the window, and putting out what follows.
  stored-Accepts :
      (r : StreamReassembler) (str : List ℕ) (index : ℕ) (eof : Bool)
      → IsAssembly f r
      → r.top_pointer ≤ index
      → index < window_end r
      → index + length str < 2 ^ 64
      → str ≡ slice f index (length str)
      → Accepts f r index (index + length str) (stored r (push_back r.buffer_list str index eof))
  unfolding stored
  stored-Accepts r str index eof v h k s e =
      let b =
        push_back-PushesBack f r.top_pointer (2 ^ 64) r.buffer_list str index eof v.pieces h s
          (omega arith) e in
      let m = record r { buffer_list = b.result } in
      let (x, xs, w) = b.pushed.filled in
      let g =
        flush-Flushes f m
          (record {
            output_valid = v.output_valid;
            same_capacity = v.same_capacity;
            pieces = b.pushed.pieces;
            starts = b.pushed.starts (suc (window_end r)) v.starts (omega arith);
          })
          x xs w in
      record {
        result = g.result;
        returns = rw (b.returns, stored) g.returns;
        assembly = g.assembly;
        forward = g.forward;
        delivered = g.delivered;
        sound = λ i. elim [
          | inl t ↦ elim (dec_lt i r.top_pointer) [
            | yes p ↦ inl (inl p)
            | no p ↦ elim (b.pushed.sound i (g.from_list i (omega arith))) [
              | inl q ↦ inl (inr q)
              | inr q ↦ inr q
            ]
          ]
          | inr t ↦ elim (b.pushed.sound i (g.sound i t)) [ inl q ↦ inl (inr q) | inr q ↦ inr q ]
        ];
        kept = λ i. elim [
          | inl t ↦ inl (omega (arith, g.forward))
          | inr t ↦ g.complete i (b.pushed.complete i (inl t))
        ];
        complete = λ i w _. g.complete i (b.pushed.complete i (inr w));
        settled = λ _ _ _. g.settled;
        capacity_kept = g.capacity_kept;
        read_kept = g.read_kept;
      }

  -- A call that was handed more, all of which is held already or lies behind the window.
  Accepts-widen :
      (r : StreamReassembler) (a a' c c' : ℕ) (call : Outcome StreamReassembler (Unit {0}))
      → Accepts f r a c call
      → a' ≤ a
      → c ≤ c'
      → (a' < a → a ≤ r.top_pointer)
      → (c < c' → window_end r ≤ c)
      → (r.top_pointer < window_end r → a' < window_end r → a < window_end r)
      → (r.top_pointer ≤ c' → r.top_pointer ≤ c)
      → Accepts f r a' c' call
  Accepts-widen r a a' c c' call k la lc ha hc sa sc = record {
    result = k.result;
    returns = k.returns;
    assembly = k.assembly;
    forward = k.forward;
    delivered = k.delivered;
    sound = λ i h. elim (k.sound i h) [ inl p ↦ inl p | inr p ↦ inr (omega arith) ];
    kept = k.kept;
    complete = λ i w l. elim (dec_lt i a) [
      | yes p ↦ k.kept i (inl (omega arith))
      | no p ↦ elim (dec_lt i c) [
        | yes q ↦ k.complete i (omega arith) l
        | no q ↦ absurd (omega (arith, hc (omega arith)))
      ]
    ];
    settled = λ o l t. k.settled o (sa o l) (sc t);
    capacity_kept = k.capacity_kept;
    read_kept = k.read_kept;
  }

  top_small : {r : StreamReassembler} → IsAssembly f r → r.top_pointer ≤ 2 ^ 64
  top_small {r} v = Pieces-le f r.top_pointer (2 ^ 64) r.buffer_list v.pieces

  accept-Accepts :
      (r : StreamReassembler) (str : List ℕ) (index : ℕ) (eof : Bool)
      → IsAssembly f r
      → r.top_pointer ≤ index
      → suc (index + length str) < 2 ^ 64
      → str ≡ slice f index (length str)
      → Accepts f r index (index + length str) (accept r str index eof)
  unfolding accept
  accept-Accepts r str index eof v h s e =
      let n = current_capacity r in
      let m : n ≡ r.capacity - length (contents r.output) = current_capacity_lem f v in
      let d : u64 (sub64 index r.top_pointer + 1) ≡ index - r.top_pointer + 1 = omega arith in
      elim (dec_lt n (index - r.top_pointer + 1)) [
        | yes far ↦
            Accepts-same r index _ _ v (ground (arith, d)) (λ i w l. absurd (omega arith))
              (λ l. absurd (omega arith))
        | no near ↦ elim (dec_lt n (length str)) [
          | yes long ↦
              let t : length (take n str) ≡ n = omega (arith, length-take n str) in
              let k =
                stored-Accepts r (take n str) index false v h (omega arith) (omega arith)
                  (rw t (ap (take n) e ∙ take-slice f index n (length str) (omega arith))) in
              let call : accept r str index eof
                  ≡ stored r (push_back r.buffer_list (take n str) index false) =
                ground (arith, d) in
              subst (Accepts f r index (index + length str)) (sym call) (
                Accepts-widen r index index (index + length (take n str)) (index + length str) _ k
                  (omega arith) (omega arith) (omega arith) (omega arith) (λ _ l. l) (omega arith))
          | no short ↦
              let call : accept r str index eof ≡ stored r (push_back r.buffer_list str index eof) =
                ground (arith, d) in
              subst (Accepts f r index (index + length str)) (sym call)
                (stored-Accepts r str index eof v h (omega arith) (omega arith) e)
        ]
      ]

  -- On any assembly, handing over any string of the stream returns without a fault and leaves an
  -- assembly. What comes out is the stream from the old top to the new one, nothing that was held
  -- is lost, nothing is made up, every byte inside the window is kept, and where the string meets
  -- the window, the next byte is put out unless it is missing or the output is full.
  pub push_substring-Accepts :
      (r : StreamReassembler) (str : List ℕ) (index : ℕ) (eof : Bool)
      → IsAssembly f r
      → suc (index + length str) < 2 ^ 64
      → str ≡ slice f index (length str)
      → Accepts f r index (index + length str) (push_substring r str index eof)
  unfolding push_substring accept_rest
  push_substring-Accepts r str index eof v s e = elim (dec_lt index r.top_pointer) [
    | no fresh ↦
        let call : push_substring r str index eof ≡ accept r str index eof = ground arith in
        subst (Accepts f r index (index + length str)) (sym call)
          (accept-Accepts r str index eof v (omega arith) s e)
    | yes old ↦ elim (dec_lt (index + length str) r.top_pointer) [
      | yes done ↦
          Accepts-same r index (index + length str) _ v (ground arith) (λ i w l. inl (omega arith))
            (λ l. done)
      | no more ↦
          let n = r.top_pointer - index in
          let t : take (length str - n) (drop n str) ≡ drop n str =
            take_of_le (length str - n) (drop n str) (omega (arith, length-drop n str)) in
          let a : index + n ≡ r.top_pointer = omega arith in
          let k : length (drop n str) ≡ length str - n = length-drop n str in
          let g : drop n str ≡ slice f r.top_pointer (length (drop n str)) =
            ap (drop n) e ∙ drop-slice f index n (length str) (omega arith) ∙ rw (a, k) refl in
          let d : sub64 r.top_pointer index ≡ n = omega (arith, top_small v) in
          let w : sub64 (length str) n ≡ length str - n = omega arith in
          let call : push_substring r str index eof ≡ accept r (drop n str) r.top_pointer eof =
            ground (arith, d, w, t) in
          let c : r.top_pointer + length (drop n str) ≡ index + length str = omega arith in
          subst (Accepts f r index (index + length str)) (sym call) (
            Accepts-widen r r.top_pointer index (r.top_pointer + length (drop n str))
              (index + length str) _
              (accept-Accepts r (drop n str) r.top_pointer eof v (omega arith) (omega arith) g)
              (omega arith) (omega arith) (λ _. omega arith) (omega arith) (λ o _. o) (omega arith))
    ]
  ]

-- A string that ends before the top is dropped.
pub push_substring_past :
    (r : StreamReassembler) (str : List ℕ) (index : ℕ) (eof : Bool)
    → index + length str < r.top_pointer
    → index + length str < 2 ^ 64
    → push_substring r str index eof ≡ ok tt r
unfolding push_substring
push_substring_past r str index eof h k = ground arith
