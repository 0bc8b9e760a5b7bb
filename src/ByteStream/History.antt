-- ===== src/ByteStream/History.antt =====
-- Whole histories of calls on a stream of libsponge/byte_stream.cc.
use cs144_sponge.Prelude.{
  ℕ, ◌≤◌, ◌≡◌, refl, ◌∙◌, List, [], ◌++◌, arith, take, append-nil, append_assoc, take-append-drop,
  ok,
}
use cs144_sponge.ByteStream.{ByteStream, write, accepted, read, buffer_size}
use cs144_sponge.ByteStream.Queue.{
  contents, IsValid, buffer_size-length, write-Written, Reads, read-Reads,
}

-- From one stream to another by a history, with the bytes taken in and the bytes given out.
pub data Runs : ByteStream → List ℕ → List ℕ → ByteStream → Type 0 where
  start : (s : ByteStream) → Runs s [] [] s
  writes :
      {s t : ByteStream} {ins outs : List ℕ} (str : List ℕ)
      → Runs s ins outs t
      → Runs s (ins ++ take (accepted t str) str) outs (write t str).1
  reads :
      {s t u : ByteStream} {ins outs : List ℕ} (n : ℕ) (r : List ℕ)
      → Runs s ins outs t
      → n ≤ buffer_size t
      → read t n ≡ ok r u
      → Runs s ins (outs ++ r) u

-- No byte is lost, doubled or moved, and the stream stays valid.
pub record Kept (s : ByteStream) (ins outs : List ℕ) (t : ByteStream) : Type 0 where
  pub in_order : contents s ++ ins ≡ outs ++ contents t
  pub valid : IsValid t

Reads-Kept :
    {s t : ByteStream} {ins outs : List ℕ} (n : ℕ) (r : List ℕ) (u : ByteStream)
    → Kept s ins outs t
    → Reads t n
    → read t n ≡ ok r u
    → Kept s ins (outs ++ r) u
Reads-Kept {t} {outs} n r u k d e =
    let er : take n (contents t) ≡ r = ground (arith, d.returns) in
    let eu : d.rest ≡ u = cc (d.returns) in
    record {
      in_order =
          k.in_order
          ∙ rw (← eu, ← er, d.left, append_assoc outs _ _, take-append-drop n (contents t)) refl;
      valid = rw (← eu) d.valid;
    }

-- Over any history of writes, and of reads within what waits, the stream is a first-in first-out
-- queue: what it held with what it took in is what it gave out with what it holds.
pub Runs-Kept :
    {s t : ByteStream} {ins outs : List ℕ} → IsValid s → Runs s ins outs t → Kept s ins outs t
Runs-Kept v (start s) = record { in_order = append-nil _; valid = v }
Runs-Kept v (writes {t} {ins} {outs} str h) =
    let k = Runs-Kept v h in
    let w = (write-Written str k.valid).1 in
    record {
      in_order = rw (w.queued, ← append_assoc _ ins _, k.in_order) (append_assoc outs _ _);
      valid = w.valid;
    }
Runs-Kept v (reads {t} {u} n r h le e) =
    let k = Runs-Kept v h in
    Reads-Kept n r u k (read-Reads n k.valid (omega (arith, buffer_size-length k.valid))) e
