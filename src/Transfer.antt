-- ===== src/Transfer.antt =====
-- A connection of libsponge/tcp_connection.cc and a receiver of libsponge/tcp_receiver.cc with a network
-- between them that may lose, repeat and reorder segments.
pub mod Positions
pub mod Arrival
pub mod EndToEnd
use cs144_sponge.Prelude.{ℕ, ◌≤◌, ◌≡◌, ◌⊎◌, List, [], ◌∷◌, ◌++◌, false, Outcome, ok}
use cs144_sponge.ByteStream
use cs144_sponge.ByteStream.{ByteStream}
use cs144_sponge.Segment.{TcpSegment}
use cs144_sponge.Receiver.{TcpReceiver, segment_received, stream_out}

abbrev pub Among : TcpSegment → List TcpSegment → Type 0
Among g [] = ⊥
Among g (h ∷ hs) = (g ≡ h) ⊎ Among g hs

-- The receiver behind a reader that left its stream like this.
pub set_output : TcpReceiver → ByteStream → TcpReceiver
set_output r s = record r { reassembler = record r.reassembler { output = s } }

-- The histories of a receiver to which segments of a list arrive, in any order and any number of
-- times, the SYN but once; the reader asks for no more than what waits.
pub data Delivers (sent : List TcpSegment) (r : TcpReceiver) : List ℕ → TcpReceiver → Type 0 where
  start : Delivers sent r [] r
  arrives :
      {t u : TcpReceiver} {outs : List ℕ} (g : TcpSegment)
      → Delivers sent r outs t
      → Among g sent
      → g.header.syn ≡ false
      → segment_received t g ≡ ok tt u
      → Delivers sent r outs u
  reads :
      {t : TcpReceiver} {outs : List ℕ} (n : ℕ) (bs : List ℕ) (s : ByteStream)
      → Delivers sent r outs t
      → n ≤ ByteStream.buffer_size (stream_out t)
      → ByteStream.read (stream_out t) n ≡ ok bs s
      → Delivers sent r (outs ++ bs) (set_output t s)
