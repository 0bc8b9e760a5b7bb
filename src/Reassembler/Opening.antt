-- ===== src/Reassembler/Opening.antt =====
-- The empty string that the first SYN hands to libsponge/stream_reassembler.cc.
use cs144_sponge.Prelude.{ℕ, ◌≡◌, refl, ap, ◌∙◌, [], ◌∷◌, false, arith, ok, take-nil}
use cs144_sponge.ByteStream
use cs144_sponge.ByteStream.{ByteStream}
use cs144_sponge.BufferString.{push_back}
use cs144_sponge.BufferString.Pop.{pop_whole, top_index-cons, nothing, push_back-nothing}
use cs144_sponge.ByteStream.Queue.{write-nil}
use cs144_sponge.Reassembler.{
  init, push_substring, accept, stored, flush, deliver, take_piece, current_capacity,
}

take_piece-nothing : (s : ByteStream) → take_piece s nothing ≡ s
unfolding take_piece
take_piece-nothing s = ap (λ w. w.1) (write-nil s)

flush-nothing :
    (capacity : ℕ)
    → flush (record (init capacity) { buffer_list = nothing ∷ [] }) ≡ ok tt (init capacity)
unfolding flush deliver init
flush-nothing capacity = ground (
  arith,
  top_index-cons nothing [],
  pop_whole (ByteStream.remaining_capacity (ByteStream.init capacity)) nothing [] (omega arith),
  take_piece-nothing (ByteStream.init capacity),
)

stored-nothing :
    (capacity : ℕ) → stored (init capacity) (push_back [] [] 0 false) ≡ ok tt (init capacity)
unfolding stored
stored-nothing capacity = ap (stored (init capacity)) push_back-nothing ∙ flush-nothing capacity

accept-nothing : (capacity : ℕ) → accept (init capacity) [] 0 false ≡ ok tt (init capacity)
unfolding accept init
accept-nothing capacity =
    ground (arith, stored-nothing capacity, take-nil ℕ (current_capacity (init capacity)))

-- It leaves a new reassembler as it is.
pub push_substring-nothing :
    (capacity : ℕ) → push_substring (init capacity) [] 0 false ≡ ok tt (init capacity)
unfolding push_substring init
push_substring-nothing capacity = ground (arith, accept-nothing capacity)

-- The fields of a new reassembler.
pub init_lem :
    (capacity : ℕ)
    → ((init capacity).top_pointer ≡ 0)
      × ((init capacity).output ≡ ByteStream.init capacity)
      × ((init capacity).capacity ≡ capacity)
      × ((init capacity).buffer_list ≡ [])
unfolding init
init_lem capacity = (refl, refl, refl, refl)
