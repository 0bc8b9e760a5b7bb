-- ===== src/Lib.antt =====
-- CS144-Sponge: the TCP stack of libsponge, from byte streams to connections and from segments to
-- frames and routers.
--
-- A connection joins a receiver, which puts the peer's stream together, and a sender, which cuts
-- the local stream into segments and sends them again until they are acknowledged. Both stand on
-- one kind of byte stream and on sequence numbers modulo 2 ^ 32. An adapter wraps a segment into an
-- IPv4 datagram; a network interface sends the datagram in an Ethernet frame and asks for the
-- address of the next hop by ARP; a router has several interfaces and sends each datagram on over
-- the one that its table tells.
--
-- - Prelude: Boolean tests, lists, machine words (`u64 n` is `n % 2 ^ 64`), and `Outcome`, a call
--   that changes an object and may throw: `ok` and `throws` both carry the state that is left.
--   Prelude.Order has the recursion on a number that falls.
-- - Wrapping: libsponge/wrapping_integers.{hh,cc}, `wrap` and `unwrap`. Nearest has the theorems.
-- - StreamBuffer: libsponge/buffer.{hh,cc}, `sponge::Buffer` and `sponge::BufferList`
--   (`remove_front` is `BufferList::remove_prefix`). Bytes reads a deque as the bytes in it.
-- - ByteStream: libsponge/byte_stream.{hh,cc}. Queue has one call, History a run of calls, and
--   Full the stream that is written to when it is full.
-- - BufferString: libsponge/buffer_string.{hh,cc}, the pieces that wait for a gap to close.
--   `place` is `push_back` behind the construction of its node, `merge_end` and `merge_inner` the
--   two ways in which it merges. Pieces says what an ordered list is, Cut finds the bounds, Merge,
--   Insert, Branches and Place follow `push_back`, Pop and Contained take single cases.
-- - Reassembler: libsponge/stream_reassembler.{hh,cc}. `push_substring` is `accept` behind the
--   check for duplicates, and `flush` is its end. Stream says what an assembly is; Flush, Push,
--   History and EndMark follow.
-- - Segment: libsponge/tcp_helpers/tcp_header.hh and tcp_segment.{hh,cc}, the fields of a segment.
--   Format is tcp_header.cc and the rest of tcp_segment.cc: `parse_header` and `serialize_header`
--   are `TCPHeader::parse` and `serialize`, `parse` and `serialize` those of `TCPSegment`.
-- - Receiver: libsponge/tcp_receiver.{hh,cc}, with Opening, Data, Acknowledge and SynAgain.
-- - Sender: libsponge/tcp_sender.{hh,cc}. Segments, Cut and Fill follow `fill_window`, Flight
--   and Ack `ack_received`, and Timer `tick`. Row has rows of segments, Holds what holds between two
--   calls, Continues, Progress, Keeps and Calls that each call keeps it, Parts, PartsOfRow and Emits
--   what the segments carry, and History the histories of calls, with Log for what `fill_window` puts
--   out over a history.
-- - Connection: libsponge/tcp_connection.{hh,cc}, with Drain, Reset and Linger. Carries and Receiving
--   follow the sender inside through each call, History a whole history, and Opening `connect`.
-- - SpongeSocket: libsponge/tcp_helpers/tcp_sponge_socket.{hh,cc}. The four callbacks of
--   `_initialize_TCP` are `read_segment`, `read_owner`, `write_owner` and `send_segments`, and
--   `rules_for` is its list of rules; Loop has `_tcp_loop` and the calls that run it, with
--   Connecting; Outbound and Inbound follow the bytes.
-- - Transfer: a connection, a network that may lose, repeat and reorder, and a receiver. Positions,
--   Arrival and EndToEnd follow the bytes from one end to the other.
-- - TcpState: libsponge/tcp_helpers/tcp_state.{hh,cc}, the states of RFC 793.
-- - Checksum: `InternetChecksum` of libsponge/util/util.{hh,cc}. Fold has the loop of `value`, Sum
--   the sum of the words, and Verify a message that carries its own checksum.
-- - PacketBuffer: libsponge/util/buffer.{hh,cc}. Strings and Views read buffers as bytes.
-- - Ipv4: libsponge/tcp_helpers/ipv4_header.{hh,cc} and ipv4_datagram.{hh,cc}. `check_header` is the
--   part of `IPv4Header::parse` behind the reading of the fields.
-- - Ethernet: libsponge/tcp_helpers/ethernet_header.{hh,cc} and ethernet_frame.{hh,cc}.
-- - Arp: libsponge/tcp_helpers/arp_message.{hh,cc}.
-- - Adapter: libsponge/tcp_helpers/tcp_over_ip.cc with fd_adapter.hh. Wire follows a segment to the
--   wire and back, RoundTrip to the adapter of the peer. Devices has the adapters over UDP, TUN and
--   TAP (fd_adapter.cc, tuntap_adapter.{hh,cc}) and the one that drops (lossy_fd_adapter.hh), and
--   OverEthernet two adapters over TAP on one wire.
-- - NetworkInterface: libsponge/network_interface.{hh,cc}, with Sending, Exchange, Resolution and
--   Waiting. `handle_arp` is the branch of `recv_frame` for a message that has been parsed.
-- - Router: libsponge/router.{hh,cc}, the table of routes and the look-up, with Choice. Routing has
--   the interfaces, `route_one_datagram` and `route`; Interfaces, Datagram, Emptying and Forwarding
--   follow them.
-- - EthernetCache: `IP2EthernetCache` of libsponge/network_interface.{hh,cc}. Expiry says what the
--   cache knows and for how long, Order that its queue stays in order.
-- - NetParser: libsponge/util/parser.{hh,cc}, with RoundTrip.
-- - EventLoop: libsponge/util/eventloop.{hh,cc}, with Progress. `set_up` and `serve` are the two loops
--   of `wait_next_event`; `poll_rules` is what stands between them.
-- - Tests: concrete runs, and each theorem at a concrete input.
--
-- State is passed explicitly: an operation takes the object and gives the object back. A string is
-- the list of its bytes, and a shared string is never written to, so sharing it is copying it. A
-- `size_t` is 64 bits wide. `send_loop`, the do-while loop of `fill_window`, runs on fuel: the
-- number of bytes to send is enough, since each round but the last sends some, and the theorem on
-- `fill_window` shows that it returns. `fold`, the loop of `InternetChecksum::value`, recurses on the
-- sum, which falls. All other loops recurse on the list that they go through.
--
-- `std::lower_bound` and `std::upper_bound` are the first position where the test fails, which is
-- what they promise on the ordered lists that the theorems are about. The random first sequence
-- number is an argument. In the formats a `Buffer` is the list of its bytes, a `BufferList` the list
-- of its buffers, and flags that are joined by `|` are added, since they stand in different bits. An
-- `Address` is its IPv4 number, with its port in the adapter: the calls that make one of a printed
-- number and read it back are the system's. Not modelled: the texts for people (`to_string`,
-- `summary`, `as_string` and the debug output), the classes of libsponge/util for
-- sockets and files, the start and the end of the thread of a socket, and the programs of apps/, which
-- call the operating system; what a device, a pair of sockets or `poll` gives is an argument.
pub mod Adapter
pub mod Arp
pub mod BufferString
pub mod ByteStream
pub mod Checksum
pub mod Connection
pub mod Ethernet
pub mod EthernetCache
pub mod EventLoop
pub mod Ipv4
pub mod NetParser
pub mod NetworkInterface
pub mod PacketBuffer
pub mod Prelude
pub mod Reassembler
pub mod Receiver
pub mod Router
pub mod Segment
pub mod Sender
pub mod SpongeSocket
pub mod StreamBuffer
pub mod TcpState
pub mod Tests
pub mod Transfer
pub mod Wrapping
