-- ===== src/Transfer/EndToEnd.antt =====
-- From the bytes written to a connection of libsponge/tcp_connection.cc to the bytes read from a receiver of
-- libsponge/tcp_receiver.cc.
use cs144_sponge.Prelude.{
  ℕ, ◌+◌, ◌-◌, ◌^◌, ◌≤◌, ◌<◌, ◌≡◌, sym, ap, subst, ◌∙◌, ◌⊎◌, inl, inr, List, [], ◌++◌, true, false,
  arith, length, take, ok,
}
use cs144_sponge.Wrapping.{wrap}
use cs144_sponge.Wrapping.Nearest.{wrap-zero}
use cs144_sponge.ByteStream.Queue.{contents}
use cs144_sponge.Segment.{TcpSegment}
use cs144_sponge.Receiver
use cs144_sponge.Receiver.{TcpReceiver, segment_received, stream_out}
use cs144_sponge.Receiver.Opening.{
  opened, opened-IsReceiving, segment_received_syn, opened_contents,
}
use cs144_sponge.Sender.{or_else}
use cs144_sponge.Sender.Parts.{IsPart, IsSyn, AllSent, AllSent-split}
use cs144_sponge.Connection
use cs144_sponge.Connection.{TcpConfig, TcpConnection}
use cs144_sponge.Connection.History.{Runs, Runs-init-Carries, init_isn}
use cs144_sponge.Transfer.{Among, Delivers, start, arrives, reads}
use cs144_sponge.Transfer.Positions.{between-take}
use cs144_sponge.Transfer.Arrival.{
  AllSent-Among, InStep, InStep-bound, arrives-InStep, reads-InStep,
}

-- Whatever stands past the end of the stream.
record Both (isn : ℕ) (bs outs : List ℕ) (t : TcpReceiver) : Type 0 where
  zeros : InStep 0 isn bs outs t
  ones : InStep 1 isn bs outs t

Both-bound :
    {isn : ℕ} {bs outs : List ℕ} {t : TcpReceiver}
    → Both isn bs outs t
    → t.reassembler.top_pointer ≤ length bs + 1
Both-bound k = InStep-bound k.zeros k.ones

not_syn :
    {isn : ℕ} {bs : List ℕ} {g : TcpSegment}
    → IsSyn isn g ⊎ IsPart isn bs g
    → g.header.syn ≡ false
    → IsPart isn bs g
not_syn (inl a) e = absurd (ground (arith, a.0, e))
not_syn (inr p) e = p

syn_number :
    {isn : ℕ} {bs : List ℕ} {g : TcpSegment}
    → IsSyn isn g ⊎ IsPart isn bs g
    → g.header.syn ≡ true
    → g.header.seqno ≡ wrap 0 isn
syn_number (inl a) e = a.1
syn_number (inr p) e = absurd (ground (arith, p.syn, e))

module _ {isn : ℕ} {bs : List ℕ} (sent : List TcpSegment) (all : AllSent isn bs sent)
    (small : length bs + 2 < 2 ^ 31) where
  arrives-Both :
      {outs : List ℕ} {t : TcpReceiver} (g : TcpSegment)
      → Both isn bs outs t
      → Among g sent
      → g.header.syn ≡ false
      → (u : TcpReceiver) × (segment_received t g ≡ ok tt u) × Both isn bs outs u
  arrives-Both {outs} {t} g k m s =
      let p = not_syn (AllSent-Among sent all m) s in
      let (u, e, v) = arrives-InStep g k.zeros p (Both-bound k) small in
      let (u', e', v') = arrives-InStep g k.ones p (Both-bound k) small in
      let q : u' ≡ u = cc (e, e') in
      (u, e, record { zeros = v; ones = subst (InStep 1 isn bs outs) q v' })

  Delivers-Both :
      {r t : TcpReceiver} {outs : List ℕ}
      → Both isn bs [] r
      → Delivers sent r outs t
      → Both isn bs outs t
  Delivers-Both b start = b
  Delivers-Both {outs = outs} b (arrives g h m s e) =
      let (u, r, v) = arrives-Both g (Delivers-Both b h) m s in
      subst (Both isn bs outs) (cc (r, e)) v
  Delivers-Both b (reads n r s h le e) =
      let k = Delivers-Both b h in
      let c : _ < 2 ^ 31 = omega (arith, Both-bound k, small) in
      record { zeros = reads-InStep n r s k.zeros c le e; ones = reads-InStep n r s k.ones c le e }

opened-InStep :
    (d capacity isn : ℕ) (bs : List ℕ)
    → capacity < 2 ^ 64
    → isn < 2 ^ 32
    → InStep d isn bs [] (opened capacity isn)
opened-InStep d capacity isn bs c i = record {
  receiving = opened-IsReceiving _ capacity isn c i;
  low = omega arith;
  in_order = opened_contents capacity isn;
}

-- What has come through: the front of the stream.
pub record Through (bs outs : List ℕ) (u : TcpReceiver) : Type 0 where
  pub front : outs ++ contents (stream_out u) ≡ take (u.reassembler.top_pointer - 1) bs
  pub bound : u.reassembler.top_pointer ≤ length bs + 1

-- The same for any list of segments that are the SYN and parts of the stream.
pub AllSent-Through :
    (isn capacity : ℕ) (bs : List ℕ) (sent : List TcpSegment) {r u : TcpReceiver} {outs : List ℕ}
    (first next : TcpSegment)
    → isn < 2 ^ 32
    → capacity < 2 ^ 64
    → AllSent isn bs sent
    → length bs + 2 < 2 ^ 31
    → Among first sent
    → first.header.syn ≡ true
    → first.header.fin ≡ false
    → first.payload ≡ []
    → segment_received (Receiver.init capacity) first ≡ ok tt r
    → Delivers sent r outs u
    → Among next sent
    → next.header.syn ≡ false
    → Through bs outs u × ((v : TcpReceiver) × (segment_received u next ≡ ok tt v))
AllSent-Through isn capacity bs sent {r} {u} {outs} first next li c all small m sy f p e d m' s' =
    let q : first.header.seqno ≡ isn =
      syn_number (AllSent-Among sent all m) sy ∙ wrap-zero isn li in
    let z : segment_received (Receiver.init capacity) first ≡ ok tt (opened capacity isn) =
      segment_received_syn capacity first sy f (omega (arith, q, li)) p
      ∙ ap (λ n. ok tt (opened capacity n)) q in
    let o : opened capacity isn ≡ r = cc (z, e) in
    let b : Both isn bs [] r = subst (Both isn bs []) o (record {
      zeros = opened-InStep 0 capacity isn bs c li;
      ones = opened-InStep 1 capacity isn bs c li;
    }) in
    let k = Delivers-Both sent all small b d in
    let (v, x, y) = arrives-Both sent all small next k m' s' in
    (
      record {
        front = k.zeros.in_order ∙ between-take 0 bs u.reassembler.top_pointer (Both-bound k);
        bound = Both-bound k;
      },
      (v, x),
    )

-- A connection is used in any way from its construction on, whatever segments come in to it (with 16-bit
-- windows, an acknowledgement only once something has been sent; nothing is written behind the end);
-- its SYN, without data and without FIN, reaches a new receiver, and then any other segments that it
-- sent, in any order, any number of times or never. The bytes that the reader has taken and those that
-- wait are, in order, the front of what the calls of `write` took, up to the top of the receiver; and
-- whichever of the segments arrives next is taken. The stream is shorter than 2 ^ 31 - 2 bytes, the
-- capacities fit 64 bits and the first sequence number 32.
pub Delivers-Through :
    (cfg : TcpConfig) (random capacity : ℕ) {c : TcpConnection} {bs : List ℕ}
    {gone : List TcpSegment} {r u : TcpReceiver} {outs : List ℕ} (first next : TcpSegment)
    → cfg.send_capacity < 2 ^ 64
    → or_else cfg.fixed_isn random < 2 ^ 32
    → capacity < 2 ^ 64
    → Runs (Connection.init cfg random) bs gone c
    → length bs + 2 < 2 ^ 31
    → Among first gone
    → first.header.syn ≡ true
    → first.header.fin ≡ false
    → first.payload ≡ []
    → segment_received (Receiver.init capacity) first ≡ ok tt r
    → Delivers gone r outs u
    → Among next gone
    → next.header.syn ≡ false
    → Through bs outs u × ((v : TcpReceiver) × (segment_received u next ≡ ok tt v))
Delivers-Through cfg random capacity {c} {bs} {gone} first next h i k runs small m sy f p e d m'
      s' =
    let isn = (Connection.init cfg random).sender.isn in
    let li : isn < 2 ^ 32 = subst (λ n. n < 2 ^ 32) (sym (init_isn cfg random)) i in
    let t = (Runs-init-Carries cfg random h i runs).0 in
    AllSent-Through isn capacity bs gone first next li k
      (AllSent-split isn bs gone c.segments_out t.handed).0 small m sy f p e d m' s'
