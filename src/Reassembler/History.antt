-- ===== src/Reassembler/History.antt =====
-- Whole histories of libsponge/stream_reassembler.cc: strings come in, and a reader takes bytes.
use cs144_sponge.Prelude.{
  ℕ, suc, ◌+◌, ◌-◌, ◌^◌, ◌≤◌, ◌<◌, ◌≡◌, sym, ap, subst, ◌∙◌, List, [], ◌∷◌, ◌++◌, Bool, arith,
  length, take, ok, append_assoc, take-append-drop, length-drop,
}
use cs144_sponge.ByteStream
use cs144_sponge.ByteStream.{ByteStream}
use cs144_sponge.ByteStream.Queue.{
  contents, Reads, read-Reads, buffer_size-length, init-IsValid, init_lem,
}
use cs144_sponge.BufferString.{BufferStringList}
use cs144_sponge.BufferString.Pieces.{Starts, slice, between, between-append}
use cs144_sponge.Reassembler.{StreamReassembler, push_substring, init}
use cs144_sponge.Reassembler.Stream.{IsAssembly}
use cs144_sponge.Reassembler.Push.{push_substring-Accepts}

-- The histories in which each string is a part of the stream `f` and the reader asks for no more
-- than what waits, with the bytes that the reader has taken.
pub data Runs (f : ℕ → ℕ) : StreamReassembler → List ℕ → StreamReassembler → Type 0 where
  start : (r : StreamReassembler) → Runs f r [] r
  pushes :
      {r t u : StreamReassembler} {outs : List ℕ} (str : List ℕ) (index : ℕ) (eof : Bool)
      → Runs f r outs t
      → suc (index + length str) < 2 ^ 64
      → str ≡ slice f index (length str)
      → push_substring t str index eof ≡ ok tt u
      → Runs f r outs u
  reads :
      {r t : StreamReassembler} {outs : List ℕ} (n : ℕ) (bs : List ℕ) (s : ByteStream)
      → Runs f r outs t
      → n ≤ ByteStream.buffer_size t.output
      → ByteStream.read t.output n ≡ ok bs s
      → Runs f r (outs ++ bs) (record t { output = s })

module _ (f : ℕ → ℕ) where
  Starts-mono : (w w' : ℕ) (xs : BufferStringList) → w ≤ w' → Starts w xs → Starts w' xs
  Starts-mono w w' [] h s = tt
  Starts-mono w w' (x ∷ xs) h s = (omega arith, Starts-mono w w' xs h s.1)

  -- What has been taken and what waits make up the stream from position 0 to the top.
  pub record InOrder (outs : List ℕ) (t : StreamReassembler) : Type 0 where
    pub assembly : IsAssembly f t
    pub in_order : outs ++ contents t.output ≡ between f 0 t.top_pointer

  pushes-InOrder :
      {t u : StreamReassembler} {outs : List ℕ} (str : List ℕ) (index : ℕ) (eof : Bool)
      → InOrder outs t
      → suc (index + length str) < 2 ^ 64
      → str ≡ slice f index (length str)
      → push_substring t str index eof ≡ ok tt u
      → InOrder outs u
  pushes-InOrder {t} {u} {outs} str index eof k s e d =
      let a = push_substring-Accepts f t str index eof k.assembly s e in
      let w : a.result ≡ u = cc (a.returns) in
      subst (InOrder outs) w (record {
        assembly = a.assembly;
        in_order =
            ap (◌++◌ outs) a.delivered
            ∙ sym (append_assoc outs (contents t.output) _)
            ∙ ap (λ l. l ++ between f t.top_pointer a.result.top_pointer) k.in_order
            ∙ between-append f 0 t.top_pointer a.result.top_pointer (omega arith) a.forward;
      })

  -- Reading leaves an assembly.
  pub Reads-IsAssembly :
      {t : StreamReassembler} (n : ℕ)
      → IsAssembly f t
      → n ≤ length (contents t.output)
      → (d : Reads t.output n) → IsAssembly f (record t { output = d.rest })
  Reads-IsAssembly {t} n v h d =
      let l : length (contents d.rest) ≡ length (contents t.output) - n =
        ap length d.left ∙ length-drop n (contents t.output) in
      record {
        output_valid = d.valid;
        same_capacity = v.same_capacity ∙ sym d.capacity_kept;
        pieces = v.pieces;
        starts = Starts-mono _ _ t.buffer_list (omega arith) v.starts;
      }

  reads-InOrder :
      {t : StreamReassembler} {outs : List ℕ} (n : ℕ) (bs : List ℕ) (s : ByteStream)
      → InOrder outs t
      → n ≤ ByteStream.buffer_size t.output
      → ByteStream.read t.output n ≡ ok bs s
      → InOrder (outs ++ bs) (record t { output = s })
  reads-InOrder {t} {outs} n bs s k h e =
      let v = k.assembly.output_valid in
      let d = read-Reads n v (omega (arith, buffer_size-length v)) in
      let eb : take n (contents t.output) ≡ bs = ground (arith, d.returns) in
      let es : d.rest ≡ s = cc (d.returns) in
      subst (λ o. InOrder (outs ++ bs) (record t { output = o })) es
        (record {
          assembly = Reads-IsAssembly n k.assembly (omega (arith, buffer_size-length v)) d;
          in_order =
              append_assoc outs bs _
              ∙ ap (◌++◌ outs) (rw (← eb, d.left) (take-append-drop n (contents t.output)))
              ∙ k.in_order;
        })

  Runs-InOrder :
      {r t : StreamReassembler} {outs : List ℕ} → InOrder [] r → Runs f r outs t → InOrder outs t
  Runs-InOrder k (start r) = k
  Runs-InOrder k (pushes str index eof h s e d) =
      pushes-InOrder str index eof (Runs-InOrder k h) s e d
  Runs-InOrder k (reads n bs s h l e) = reads-InOrder n bs s (Runs-InOrder k h) l e

  -- A new reassembler is an assembly of any stream.
  pub init-IsAssembly : (capacity : ℕ) → capacity < 2 ^ 64 → IsAssembly f (init capacity)
  unfolding init
  init-IsAssembly capacity h = record {
    output_valid = init-IsValid capacity h;
    same_capacity = sym (init_lem capacity).1;
    pieces = omega arith;
    starts = tt;
  }

  -- From a new reassembler on, whatever strings of the stream come in, in whatever order, overlap
  -- and number, the bytes that the reader takes and those that wait are the stream from its first
  -- byte to the top, in order, with no gap.
  pub Runs-init-InOrder :
      (capacity : ℕ) {t : StreamReassembler} {outs : List ℕ}
      → capacity < 2 ^ 64
      → Runs f (init capacity) outs t
      → InOrder outs t
  unfolding init
  Runs-init-InOrder capacity h =
      Runs-InOrder
        (record { assembly = init-IsAssembly capacity h; in_order = (init_lem capacity).0 })
