-- ===== src/Segment.antt =====
-- libsponge/tcp_helpers/tcp_header.hh and tcp_segment.hh: a segment as the two halves of a
-- connection see it. The payload is the string that `payload().str()` shows.
pub mod Format
use cs144_sponge.Prelude.{ℕ, ◌+◌, List, [], Bool, false, if◌then◌else◌, length}

pub record TcpHeader : Type 0 where
  pub sport : ℕ
  pub dport : ℕ
  pub seqno : ℕ
  pub ackno : ℕ
  pub doff : ℕ
  pub urg : Bool
  pub ack : Bool
  pub psh : Bool
  pub rst : Bool
  pub syn : Bool
  pub fin : Bool
  pub win : ℕ
  pub cksum : ℕ
  pub uptr : ℕ

abbrev pub default_header : TcpHeader
default_header = record {
  sport = 0;
  dport = 0;
  seqno = 0;
  ackno = 0;
  doff = 5;
  urg = false;
  ack = false;
  psh = false;
  rst = false;
  syn = false;
  fin = false;
  win = 0;
  cksum = 0;
  uptr = 0;
}

pub record TcpSegment : Type 0 where
  pub header : TcpHeader
  pub payload : List ℕ

abbrev pub default_segment : TcpSegment
default_segment = record { header = default_header; payload = [] }

abbrev pub flag_size : Bool → ℕ
flag_size b = if b then 1 else 0

unfoldable pub length_in_sequence_space : TcpSegment → ℕ
length_in_sequence_space seg =
    length seg.payload + flag_size seg.header.syn + flag_size seg.header.fin
