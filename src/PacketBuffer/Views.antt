-- ===== src/PacketBuffer/Views.antt =====
-- Lists of strings, as libsponge/util/buffer.hh counts their bytes.
use cs144_sponge.Prelude.{
  ℕ, ◌+◌, ◌^◌, ◌<◌, ◌≡◌, ◌∙◌, ap, List, [], ◌∷◌, ◌++◌, u64, arith, length, length-append,
}
use cs144_sponge.PacketBuffer.{BufferViewList, view_size, view_size_loop}

-- The bytes of all the strings.
abbrev pub bytes_of : BufferViewList → List ℕ
bytes_of [] = []
bytes_of (x ∷ xs) = x ++ bytes_of xs

view_size_loop_lem :
    (ret : ℕ) (xs : BufferViewList)
    → ret + length (bytes_of xs) < 2 ^ 64
    → view_size_loop ret xs ≡ ret + length (bytes_of xs)
unfolding view_size_loop
view_size_loop_lem ret [] h = omega arith
view_size_loop_lem ret (x ∷ xs) h =
    let l = length-append x (bytes_of xs) in
    let e : u64 (ret + length x) ≡ ret + length x = omega (arith, l) in
    ap (λ n. view_size_loop n xs) e
    ∙ view_size_loop_lem (ret + length x) xs (omega (arith, l))
    ∙ omega (arith, l)

-- What a `size_t` can count is counted.
pub view_size_lem :
    (xs : BufferViewList) → length (bytes_of xs) < 2 ^ 64 → view_size xs ≡ length (bytes_of xs)
unfolding view_size
view_size_lem xs h = view_size_loop_lem 0 xs (omega arith) ∙ omega arith
