-- ===== src/NetworkInterface.antt =====
-- `NetworkInterface` of libsponge/network_interface.hh and network_interface.cc. An `Address` is its
-- IPv4 number; a `BufferList` is the list of its buffers. The debug output is left out.
pub mod Sending
pub mod Exchange
pub mod Resolution
pub mod Waiting
use cs144_sponge.Prelude.{
  ℕ, ◌+◌, ◌*◌, List, [], ◌∷◌, ◌++◌, Option, none, some, Bool, true, false, not, ◌&&◌, leb, ◌==◌,
  u64, if◌then◌else◌, Outcome, ok, throws, runtime_error, and_then,
}
use cs144_sponge.NetParser.{ParseResult, has_error}
use cs144_sponge.PacketBuffer.{BufferViewList}
use cs144_sponge.PacketBuffer.Views.{bytes_of}
use cs144_sponge.EthernetCache
use cs144_sponge.EthernetCache.{IpEthernetCache, get_cache, set_cache, try_clean_expire_cache}
use cs144_sponge.Ethernet.{
  EthernetAddress, EthernetFrame, same_address, ethernet_broadcast, zero_address, type_ipv4,
  type_arp,
}
use cs144_sponge.Arp
use cs144_sponge.Arp.{ArpMessage, default_message, opcode_request, opcode_reply}
use cs144_sponge.Ipv4
use cs144_sponge.Ipv4.{InternetDatagram}

-- The time up to which a request holds, and the datagram that waits for the answer.
abbrev pub IpWithTime : Type 0
IpWithTime = ℕ × InternetDatagram

-- An `unordered_map`: each key stands in one entry at most.
abbrev pub WaitingMap : Type 0
WaitingMap = List (ℕ × IpWithTime)

unfoldable pub find_waiting : WaitingMap → ℕ → Option IpWithTime
find_waiting [] ip_address = none
find_waiting (x ∷ xs) ip_address =
    let rest = find_waiting xs ip_address in if x.0 == ip_address then some x.1 else rest

pub erase_waiting : WaitingMap → ℕ → WaitingMap
erase_waiting [] ip_address = []
erase_waiting (x ∷ xs) ip_address =
    let rest = erase_waiting xs ip_address in if x.0 == ip_address then rest else x ∷ rest

pub record NetworkInterface : Type 0 where
  pub ethernet_address : EthernetAddress
  pub ip_address : ℕ
  pub frames_out : List EthernetFrame
  pub arp_ip_queue : WaitingMap
  pub ip_mac_map : IpEthernetCache
  pub ms_since_last_tick : ℕ
  pub expire_time : ℕ

-- The constructor.
pub interface : EthernetAddress → ℕ → NetworkInterface
interface ethernet_address ip_address = record {
  ethernet_address = ethernet_address;
  ip_address = ip_address;
  frames_out = [];
  arp_ip_queue = [];
  ip_mac_map = EthernetCache.init;
  ms_since_last_tick = 0;
  expire_time = 30 * 1000;
}

pub try_set_cache_if_need : NetworkInterface → ℕ → EthernetAddress → NetworkInterface
try_set_cache_if_need n ip_address ether_address =
    if not (same_address ether_address ethernet_broadcast)
      && not (same_address ether_address zero_address)
    then record n {
      ip_mac_map =
          set_cache n.ip_mac_map ip_address ether_address n.ms_since_last_tick n.expire_time;
    }
    else n

-- A frame with one buffer as its payload, put at the end of `_frames_out`.
abbrev pub frame : EthernetAddress → EthernetAddress → ℕ → List ℕ → EthernetFrame
frame dst src type payload = record {
  header = record { dst = dst; src = src; type = type };
  payload = payload ∷ [];
}

abbrev pub push_frame : NetworkInterface → EthernetFrame → NetworkInterface
push_frame n f = record n { frames_out = n.frames_out ++ (f ∷ []) }

-- A frame for a datagram that has been serialized, or not: then `serialize` has thrown.
pub push_datagram :
    NetworkInterface
    → EthernetAddress
    → EthernetAddress
    → Option BufferViewList
    → Outcome NetworkInterface (Unit {0})
push_datagram n dst src none = throws runtime_error n
push_datagram n dst src (some views) =
    ok tt (push_frame n (frame dst src type_ipv4 (bytes_of views)))

pub push_arp :
    NetworkInterface → EthernetAddress → Option (List ℕ) → Outcome NetworkInterface (Unit {0})
push_arp n dst none = throws runtime_error n
push_arp n dst (some bytes) = ok tt (push_frame n (frame dst n.ethernet_address type_arp bytes))

-- The request for the address of the next hop.
abbrev pub request : NetworkInterface → ℕ → ArpMessage
request n next_hop = record default_message {
  sender_ip_address = n.ip_address;
  sender_ethernet_address = n.ethernet_address;
  target_ip_address = next_hop;
  opcode = opcode_request;
}

-- `_arp_ip_queue[_ip_address] = …`: the datagram waits under the interface's own address.
abbrev pub keep_waiting : NetworkInterface → InternetDatagram → NetworkInterface
keep_waiting n dgram = record n {
  arp_ip_queue =
      (n.ip_address, (u64 (n.ms_since_last_tick + 5 * 1000), dgram))
      ∷ erase_waiting n.arp_ip_queue n.ip_address;
}

abbrev pub still_waits : Option IpWithTime → ℕ → Bool
still_waits none now = false
still_waits (some w) now = leb now w.0

send_to :
    NetworkInterface
    → InternetDatagram
    → ℕ
    → Option EthernetAddress
    → Outcome NetworkInterface (Unit {0})
send_to n dgram next_hop (some mac) = push_datagram n mac n.ethernet_address (Ipv4.serialize dgram)
send_to n dgram next_hop none =
    if still_waits (find_waiting n.arp_ip_queue n.ip_address) n.ms_since_last_tick
    then ok tt n
    else and_then (push_arp n ethernet_broadcast (Arp.serialize (request n next_hop)))
        (λ _ m. ok tt (keep_waiting m dgram))

pub send_datagram : NetworkInterface → InternetDatagram → ℕ → Outcome NetworkInterface (Unit {0})
send_datagram n dgram next_hop = send_to n dgram next_hop (get_cache n.ip_mac_map next_hop)

recv_ipv4 : NetworkInterface → EthernetFrame → Outcome NetworkInterface (Option InternetDatagram)
recv_ipv4 n f =
    let r =
      Ipv4.parse (record { header = Ipv4.default_header; payload = [] }) (bytes_of f.payload) in
    if not (same_address f.header.dst n.ethernet_address)
    then ok none n
    else if has_error r.1
    then throws runtime_error n
    else ok (some r.0) n

-- Learning both addresses of a message.
pub learn : NetworkInterface → ArpMessage → NetworkInterface
learn n m =
    let n' = try_set_cache_if_need n m.sender_ip_address m.sender_ethernet_address in
    try_set_cache_if_need n' m.target_ip_address m.target_ethernet_address

-- The address that answers a request: one that is known, or the interface's own.
own_address : NetworkInterface → ℕ → Option EthernetAddress → Option EthernetAddress
own_address n target_ip_address (some mac) = some mac
own_address n target_ip_address none =
    if target_ip_address == n.ip_address then some n.ethernet_address else none

pub answer_address : NetworkInterface → ArpMessage → Option EthernetAddress
answer_address n m = own_address n m.target_ip_address (get_cache n.ip_mac_map m.target_ip_address)

-- The reply: the original sender is the target now.
abbrev pub reply : ArpMessage → EthernetAddress → ArpMessage
reply m mac = record default_message {
  target_ip_address = m.sender_ip_address;
  target_ethernet_address = m.sender_ethernet_address;
  sender_ethernet_address = mac;
  sender_ip_address = m.target_ip_address;
  opcode = opcode_reply;
}

send_reply :
    NetworkInterface → ArpMessage → Option EthernetAddress → Outcome NetworkInterface (Unit {0})
send_reply n m none = ok tt n
send_reply n m (some mac) = push_arp n m.sender_ethernet_address (Arp.serialize (reply m mac))

-- The datagram that has waited for a reply is sent.
send_waiting :
    NetworkInterface → ArpMessage → Option IpWithTime → Outcome NetworkInterface (Unit {0})
send_waiting n m none = ok tt n
send_waiting n m (some w) =
    and_then
      (push_datagram n m.sender_ethernet_address m.target_ethernet_address (Ipv4.serialize w.1))
      (λ _ k. ok tt (record k { arp_ip_queue = erase_waiting k.arp_ip_queue m.target_ip_address }))

-- What a message that has been parsed does.
pub handle_arp : NetworkInterface → ArpMessage → Outcome NetworkInterface (Option InternetDatagram)
handle_arp n m =
    let replied = and_then (send_reply n m (answer_address n m)) (λ _ k. ok none (learn k m)) in
    let sent =
      and_then (send_waiting n m (find_waiting n.arp_ip_queue m.target_ip_address))
        (λ _ k. ok none (learn k m)) in
    if m.opcode == opcode_request
    then replied
    else if m.opcode == opcode_reply
    then sent
    else ok none n

recv_arp : NetworkInterface → EthernetFrame → Outcome NetworkInterface (Option InternetDatagram)
recv_arp n f =
    let r = Arp.parse default_message (bytes_of f.payload) in
    if has_error r.1 then throws runtime_error n else handle_arp n r.0

pub recv_frame :
    NetworkInterface → EthernetFrame → Outcome NetworkInterface (Option InternetDatagram)
recv_frame n f =
    if f.header.type == type_ipv4
    then recv_ipv4 n f
    else if f.header.type == type_arp
    then recv_arp n f
    else ok none n

unfoldable pub tick : NetworkInterface → ℕ → NetworkInterface
tick n ms_since_last_tick =
    let now = u64 (n.ms_since_last_tick + ms_since_last_tick) in
    record n { ms_since_last_tick = now; ip_mac_map = try_clean_expire_cache n.ip_mac_map now }
