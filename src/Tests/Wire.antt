-- ===== src/Tests/Wire.antt =====
-- Segments, datagrams and messages at concrete values.
use cs144_sponge.Prelude.{ℕ, ◌++◌, ◌≡◌, refl, List, [], ◌∷◌, some, true, false, arith, ok}
use cs144_sponge.NetParser.{ParseResult, parser}
use cs144_sponge.Checksum.{fold}
use cs144_sponge.Checksum.Fold.{Folds, fold-Folds}
use cs144_sponge.Checksum.Sum.{AllBytes}
use cs144_sponge.PacketBuffer.{BufferList}
use cs144_sponge.PacketBuffer.Strings.{Cuts, remove_list_prefix-Cuts}
use cs144_sponge.PacketBuffer.Views.{bytes_of}
use cs144_sponge.Segment.{TcpSegment, default_header, default_segment}
use cs144_sponge.Segment.Format
use cs144_sponge.Segment.Format.Header as SegmentHeader
use cs144_sponge.Segment.Format.RoundTrip.{parse-serialize, wire_header, with_sum}
use cs144_sponge.Ipv4
use cs144_sponge.Ipv4.{Ipv4Header, InternetDatagram}
use cs144_sponge.Ipv4.Header as IpHeader
use cs144_sponge.Ipv4.RoundTrip as IpRoundTrip
use cs144_sponge.Ipv4.RoundTrip.{parse-serialize_datagram, parse-any_checksum}
use cs144_sponge.Arp
use cs144_sponge.Arp.{ArpMessage, default_message, supported}
use cs144_sponge.Arp.RoundTrip.{IsMessage, parse-serialize_message}
use cs144_sponge.Arp.RoundTrip as ArpRoundTrip
use cs144_sponge.Adapter.{Address, FdAdapterBase, set_ports, wrap_tcp_in_ip, unwrap_tcp_in_ip}
use cs144_sponge.Adapter.Wire.{Sends, sent, received, received_segment}
use cs144_sponge.Adapter.RoundTrip.{unwrap_tcp_in_ip-wrap_tcp_in_ip}

fold-Folds_example : Folds 200000 (fold 200000)
fold-Folds_example = fold-Folds 200000

abbrev buffers : BufferList
buffers =
    record { storage = some (1 ∷ 2 ∷ []); starting_offset = 1 }
    ∷ record { storage = some (3 ∷ 4 ∷ []); starting_offset = 0 }
    ∷ []

remove_list_prefix-Cuts_example : Cuts buffers 2
remove_list_prefix-Cuts_example = remove_list_prefix-Cuts buffers 2 (
  record { fits = (omega arith, omega arith) },
  (record { fits = (omega arith, omega arith) }, tt),
)

abbrev hello : TcpSegment
hello = record {
  header = record default_header { seqno = 7; syn = true; win = 1000; doff = 6 };
  payload = 104 ∷ 105 ∷ 33 ∷ [];
}

hello-IsHeader : SegmentHeader.IsHeader hello.header
hello-IsHeader = record {
  sport_small = omega arith;
  dport_small = omega arith;
  seqno_small = omega arith;
  ackno_small = omega arith;
  doff_least = omega arith;
  doff_small = omega arith;
  win_small = omega arith;
  cksum_small = omega arith;
  uptr_small = omega arith;
}

hello-AllBytes : AllBytes hello.payload
hello-AllBytes = (omega arith, (omega arith, (omega arith, tt)))

parse-serialize_example :
    (Format.serialize hello 77 ≡ some (wire_header hello 77 ∷ hello.payload ∷ []))
    × (Format.parse default_segment (wire_header hello 77 ++ hello.payload) 77
        ≡ (record { header = with_sum hello 77; payload = hello.payload }, ParseResult.no_error))
parse-serialize_example =
    parse-serialize hello default_segment 77 hello-IsHeader hello-AllBytes (omega arith)

abbrev letter : InternetDatagram
letter = record {
  header = record Ipv4.default_header { len = 23; src = 167772161; dst = 167772162; cksum = 5 };
  payload = (1 ∷ 2 ∷ []) ∷ (3 ∷ []) ∷ [];
}

abbrev blank : InternetDatagram
blank = record { header = Ipv4.default_header; payload = [] }

letter-IsHeader : IpHeader.IsHeader letter.header
letter-IsHeader = record {
  ver_four = refl;
  hlen_least = omega arith;
  hlen_small = omega arith;
  tos_small = omega arith;
  len_small = omega arith;
  id_small = omega arith;
  offset_small = omega arith;
  ttl_small = omega arith;
  proto_small = omega arith;
  cksum_small = omega arith;
  src_small = omega arith;
  dst_small = omega arith;
}

abbrev letter_bytes : List ℕ
letter_bytes = IpHeader.wire (IpRoundTrip.with_sum letter.header) ++ bytes_of letter.payload

parse-serialize_datagram_example :
    (Ipv4.serialize letter
      ≡ some (IpHeader.wire (IpRoundTrip.with_sum letter.header) ∷ letter.payload))
    × (Ipv4.parse_header blank.header (parser letter_bytes)
        ≡ (IpRoundTrip.with_sum letter.header, ParseResult.no_error, parser (1 ∷ 2 ∷ 3 ∷ [])))
    × (Ipv4.parse blank letter_bytes ≡ (
      record { header = IpRoundTrip.with_sum letter.header; payload = (1 ∷ 2 ∷ 3 ∷ []) ∷ [] },
      ParseResult.no_error,
    ))
parse-serialize_datagram_example = parse-serialize_datagram letter blank letter-IsHeader refl

parse-any_checksum_example :
    (Ipv4.parse_header blank.header (parser (IpHeader.wire letter.header ++ (1 ∷ 2 ∷ 3 ∷ []))) ≡ (
      letter.header,
      IpHeader.cksum_result (IpHeader.wire letter.header),
      parser (1 ∷ 2 ∷ 3 ∷ []),
    ))
    × (Ipv4.parse blank (IpHeader.wire letter.header ++ (1 ∷ 2 ∷ 3 ∷ [])) ≡ (
      record { header = letter.header; payload = (1 ∷ 2 ∷ 3 ∷ []) ∷ [] },
      ParseResult.no_error,
    ))
parse-any_checksum_example =
    parse-any_checksum letter.header (1 ∷ 2 ∷ 3 ∷ []) blank letter-IsHeader refl

abbrev question : ArpMessage
question = record default_message {
  opcode = 1;
  sender_ethernet_address = 2 ∷ 0 ∷ 0 ∷ 0 ∷ 0 ∷ 7 ∷ [];
  sender_ip_address = 167772161;
  target_ip_address = 167772162;
}

question-IsMessage : IsMessage question
unfolding supported
question-IsMessage = record {
  known = refl;
  sender_valid = record { six = refl; bytes = ground arith };
  sender_ip_small = omega arith;
  target_valid = record { six = refl; bytes = ground arith };
  target_ip_small = omega arith;
}

parse-serialize_message_example :
    (Arp.serialize question ≡ some (ArpRoundTrip.wire question []))
    × (Arp.parse default_message (ArpRoundTrip.wire question [] ++ (0 ∷ 0 ∷ []))
        ≡ (question, ParseResult.no_error))
parse-serialize_message_example =
    parse-serialize_message question default_message (0 ∷ 0 ∷ []) question-IsMessage

abbrev near : Address
near = record { ipv4_numeric = 167772161; port = 4000 }

abbrev far : Address
far = record { ipv4_numeric = 167772162; port = 80 }

abbrev adapter : Address → Address → FdAdapterBase
adapter source destination = record {
  config = record {
    source = source;
    destination = destination;
    loss_rate_dn = 0;
    loss_rate_up = 0;
  };
  listening = false;
}

hello-Sends : Sends (adapter near far) hello
hello-Sends = record {
  source_valid = record { ip_small = omega arith; port_small = omega arith };
  destination_valid = record { ip_small = omega arith; port_small = omega arith };
  header_valid = hello-IsHeader;
  bytes = hello-AllBytes;
  fits = omega arith;
}

unwrap_tcp_in_ip-wrap_tcp_in_ip_example :
    (wrap_tcp_in_ip (adapter near far) hello
      ≡ some (sent (adapter near far) hello, set_ports (adapter near far) hello))
    × (Ipv4.serialize (sent (adapter near far) hello)
        ≡ some (
            IpHeader.wire (received (adapter near far) hello).header
            ∷ (sent (adapter near far) hello).payload))
    × (Ipv4.parse blank (
          IpHeader.wire (received (adapter near far) hello).header
          ++ bytes_of (sent (adapter near far) hello).payload)
        ≡ (received (adapter near far) hello, ParseResult.no_error))
    × (unwrap_tcp_in_ip (adapter far near) (received (adapter near far) hello)
        ≡ ok (some (received_segment (adapter near far) hello)) (adapter far near))
unwrap_tcp_in_ip-wrap_tcp_in_ip_example =
    unwrap_tcp_in_ip-wrap_tcp_in_ip (adapter near far) (adapter far near) hello blank hello-Sends
      refl refl refl
