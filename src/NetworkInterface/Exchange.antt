-- ===== src/NetworkInterface/Exchange.antt =====
-- The requests and replies of libsponge/network_interface.cc, and the states that they lead to.
use cs144_sponge.Prelude.{
  ℕ, ◌^◌, ◌<◌, ◌≡◌, ◌∙◌, refl, ap, [], ◌∷◌, none, true, false, ◌==◌, arith, ok,
}
use cs144_sponge.PacketBuffer.Views.{bytes_of}
use cs144_sponge.EthernetCache.{get_cache, set_cache}
use cs144_sponge.Ethernet.{
  EthernetAddress, EthernetFrame, same_address, ethernet_broadcast, zero_address, type_ipv4,
  type_arp,
}
use cs144_sponge.Ethernet.RoundTrip.{IsAddress, same_address_refl, zero-broadcast}
use cs144_sponge.Arp
use cs144_sponge.Arp.{ArpMessage, default_message, opcode_request, opcode_reply, supported}
use cs144_sponge.Arp.RoundTrip as ArpRoundTrip
use cs144_sponge.Ipv4.{InternetDatagram}
use cs144_sponge.NetworkInterface.{
  NetworkInterface, frame, push_frame, push_arp, request, keep_waiting, still_waits, find_waiting,
  erase_waiting, send_to, send_datagram, recv_frame, recv_arp, handle_arp, reply,
  try_set_cache_if_need,
}
use cs144_sponge.NetworkInterface.Sending.{datagram_bytes}

-- An address of one interface: not the broadcast address and not zero.
pub record IsUnicast (a : EthernetAddress) : Type 0 where
  pub valid : IsAddress a
  pub no_broadcast : same_address a ethernet_broadcast ≡ false
  pub no_zero : same_address a zero_address ≡ false

pub set_unicast :
    (n : NetworkInterface) (ip : ℕ) (mac : EthernetAddress)
    → IsUnicast mac
    → try_set_cache_if_need n ip mac
      ≡ record n { ip_mac_map = set_cache n.ip_mac_map ip mac n.ms_since_last_tick n.expire_time }
unfolding try_set_cache_if_need
set_unicast n ip mac v = rw (v.no_broadcast, v.no_zero) refl

pub set_zero : (n : NetworkInterface) (ip : ℕ) → try_set_cache_if_need n ip zero_address ≡ n
unfolding try_set_cache_if_need
set_zero n ip = rw (same_address_refl zero_address, zero-broadcast) refl

-- A frame for a message is received as the message.
pub recv_arp_lem :
    (n : NetworkInterface) (f : EthernetFrame) (m : ArpMessage)
    → ArpRoundTrip.IsMessage m
    → f.header.type ≡ type_arp
    → f.payload ≡ ArpRoundTrip.wire m [] ∷ []
    → recv_frame n f ≡ handle_arp n m
unfolding recv_frame recv_arp
recv_arp_lem n f m v t p =
    let e : (f.header.type == type_ipv4) ≡ false = ground (arith, t) in
    let k : (f.header.type == type_arp) ≡ true = ground (arith, t) in
    rw
      (
        e,
        k,
        ap (λ l. Arp.parse default_message (bytes_of l)) p
            ∙ (ArpRoundTrip.parse-serialize_message m default_message [] v).1,
      )
      refl

pub push_arp_lem :
    (n : NetworkInterface) (dst : EthernetAddress) (m : ArpMessage)
    → ArpRoundTrip.IsMessage m
    → push_arp n dst (Arp.serialize m)
      ≡ ok tt (push_frame n (frame dst n.ethernet_address type_arp (ArpRoundTrip.wire m [])))
unfolding push_arp
push_arp_lem n dst m v = ap (push_arp n dst) (ArpRoundTrip.parse-serialize_message m m [] v).0

-- The frames that are exchanged, between `a`, which asks, and `b`, which answers.
abbrev pub request_frame : NetworkInterface → ℕ → EthernetFrame
request_frame a hop =
    frame ethernet_broadcast a.ethernet_address type_arp (ArpRoundTrip.wire (request a hop) [])

abbrev pub reply_message : NetworkInterface → NetworkInterface → ArpMessage
reply_message a b = reply (request a b.ip_address) b.ethernet_address

abbrev pub reply_frame : NetworkInterface → NetworkInterface → EthernetFrame
reply_frame a b =
    frame a.ethernet_address b.ethernet_address type_arp (ArpRoundTrip.wire (reply_message a b) [])

abbrev pub datagram_frame : NetworkInterface → NetworkInterface → InternetDatagram → EthernetFrame
datagram_frame a b d = frame b.ethernet_address a.ethernet_address type_ipv4 (datagram_bytes d)

-- The interfaces after each step.
abbrev pub asked : NetworkInterface → InternetDatagram → ℕ → NetworkInterface
asked a d hop = keep_waiting (push_frame a (request_frame a hop)) d

abbrev pub knows : NetworkInterface → ℕ → EthernetAddress → NetworkInterface
knows n ip mac = record n {
  ip_mac_map = set_cache n.ip_mac_map ip mac n.ms_since_last_tick n.expire_time;
}

abbrev pub answered : NetworkInterface → NetworkInterface → NetworkInterface
answered a b = knows (push_frame b (reply_frame a b)) a.ip_address a.ethernet_address

abbrev pub resolved : NetworkInterface → NetworkInterface → InternetDatagram → NetworkInterface
resolved a b d =
    let n = push_frame (asked a d b.ip_address) (datagram_frame a b d) in
    knows
      (knows (record n { arp_ip_queue = erase_waiting n.arp_ip_queue a.ip_address }) b.ip_address
        b.ethernet_address)
      a.ip_address a.ethernet_address

-- An interface whose addresses are those of one machine.
pub record IsInterface (n : NetworkInterface) : Type 0 where
  pub unicast : IsUnicast n.ethernet_address
  pub ip_small : n.ip_address < 2 ^ 32

zero-IsAddress : IsAddress zero_address
zero-IsAddress = record { six = refl; bytes = ground arith }

pub request-IsMessage :
    (a : NetworkInterface) (hop : ℕ)
    → IsInterface a
    → hop < 2 ^ 32
    → ArpRoundTrip.IsMessage (request a hop)
unfolding supported
request-IsMessage a hop v h = record {
  known = refl;
  sender_valid = v.unicast.valid;
  sender_ip_small = v.ip_small;
  target_valid = zero-IsAddress;
  target_ip_small = h;
}

pub reply-IsMessage :
    (a b : NetworkInterface)
    → IsInterface a
    → IsInterface b
    → ArpRoundTrip.IsMessage (reply_message a b)
unfolding supported
reply-IsMessage a b va vb = record {
  known = refl;
  sender_valid = vb.unicast.valid;
  sender_ip_small = vb.ip_small;
  target_valid = va.unicast.valid;
  target_ip_small = va.ip_small;
}

pub send_request :
    (a : NetworkInterface) (d : InternetDatagram) (hop : ℕ)
    → IsInterface a
    → hop < 2 ^ 32
    → get_cache a.ip_mac_map hop ≡ none
    → still_waits (find_waiting a.arp_ip_queue a.ip_address) a.ms_since_last_tick ≡ false
    → send_datagram a d hop ≡ ok tt (asked a d hop)
unfolding send_datagram send_to
send_request a d hop v h e w =
    ap (send_to a d hop) e
    ∙ rw (w, push_arp_lem a ethernet_broadcast (request a hop) (request-IsMessage a hop v h)) refl
