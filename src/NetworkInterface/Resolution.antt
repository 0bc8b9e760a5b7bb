-- ===== src/NetworkInterface/Resolution.antt =====
-- How two interfaces of libsponge/network_interface.cc learn each other's address: the request, the
-- reply, and the datagram that has waited.
use cs144_sponge.Prelude.{ℕ, ◌≡◌, ◌≢◌, ◌∙◌, refl, none, some, true, false, ◌==◌, arith, ok}
use cs144_sponge.EthernetCache.{get_cache}
use cs144_sponge.EthernetCache.Expiry.{get_cache-set_cache}
use cs144_sponge.Ethernet.{EthernetAddress}
use cs144_sponge.Ipv4.{InternetDatagram}
use cs144_sponge.NetworkInterface.{
  NetworkInterface, push_frame, request, still_waits, find_waiting, erase_waiting, send_datagram,
  recv_frame, handle_arp, answer_address, own_address, send_reply, send_waiting, learn,
}
use cs144_sponge.NetworkInterface.Sending.{recv_datagram, arrived, IsDatagram, push_datagram_lem}
use cs144_sponge.NetworkInterface.Exchange.{
  set_unicast, set_zero, recv_arp_lem, push_arp_lem, request_frame, reply_message, reply_frame,
  datagram_frame, asked, knows, answered, resolved, IsInterface, request-IsMessage, reply-IsMessage,
  send_request,
}

answer_own :
    (a b : NetworkInterface)
    → get_cache b.ip_mac_map b.ip_address ≡ none
    → answer_address b (request a b.ip_address) ≡ some b.ethernet_address
unfolding answer_address own_address
answer_own a b e =
    let same : (b.ip_address == b.ip_address) ≡ true = ground arith in rw (e, same) refl

learn-request :
    (n a : NetworkInterface) (hop : ℕ)
    → IsInterface a
    → learn n (request a hop) ≡ knows n a.ip_address a.ethernet_address
unfolding learn
learn-request n a hop v =
    rw (set_unicast n a.ip_address a.ethernet_address v.unicast)
      (set_zero (knows n a.ip_address a.ethernet_address) hop)

-- The interface that is asked learns who asks, and replies.
answer_request :
    (a b : NetworkInterface)
    → IsInterface a
    → IsInterface b
    → get_cache b.ip_mac_map b.ip_address ≡ none
    → handle_arp b (request a b.ip_address) ≡ ok none (answered a b)
unfolding handle_arp send_reply
answer_request a b va vb e =
    rw
      (
        answer_own a b e,
        push_arp_lem b a.ethernet_address (reply_message a b) (reply-IsMessage a b va vb),
        learn-request (push_frame b (reply_frame a b)) a b.ip_address va,
      )
      refl

learn-reply :
    (n a b : NetworkInterface)
    → IsInterface a
    → IsInterface b
    → learn n (reply_message a b)
      ≡ knows (knows n b.ip_address b.ethernet_address) a.ip_address a.ethernet_address
unfolding learn
learn-reply n a b va vb = rw (set_unicast n b.ip_address b.ethernet_address vb.unicast) (
    set_unicast (knows n b.ip_address b.ethernet_address) a.ip_address a.ethernet_address
      va.unicast)

-- The interface that asked sends what has waited, and learns both addresses.
take_reply :
    (a b : NetworkInterface) (d : InternetDatagram)
    → IsInterface a
    → IsInterface b
    → IsDatagram d
    → handle_arp (asked a d b.ip_address) (reply_message a b) ≡ ok none (resolved a b d)
unfolding handle_arp send_waiting find_waiting
take_reply a b d va vb v =
    let n = asked a d b.ip_address in
    let m = push_frame n (datagram_frame a b d) in
    let same : (a.ip_address == a.ip_address) ≡ true = ground arith in
    rw
      (
        same,
        push_datagram_lem n b.ethernet_address a.ethernet_address d v,
        learn-reply (record m { arp_ip_queue = erase_waiting m.arp_ip_queue a.ip_address }) a b va
            vb,
      )
      refl

known_at_once :
    (n : NetworkInterface) (ip : ℕ) (mac : EthernetAddress)
    → get_cache (knows n ip mac).ip_mac_map ip ≡ some mac
known_at_once n ip mac =
    let same : (ip == ip) ≡ true = ground arith in
    get_cache-set_cache n.ip_mac_map ip ip mac n.ms_since_last_tick n.expire_time ∙ rw same refl

known_still :
    (n : NetworkInterface) (ip other : ℕ) (mac : EthernetAddress)
    → ip ≢ other
    → get_cache (knows n ip mac).ip_mac_map other ≡ get_cache n.ip_mac_map other
known_still n ip other mac h =
    let differ : (ip == other) ≡ false = ground arith in
    get_cache-set_cache n.ip_mac_map ip other mac n.ms_since_last_tick n.expire_time
    ∙ rw differ refl

-- A datagram to a next hop whose Ethernet address is not known, when no request is under way: a
-- request leaves, the interface of the next hop, whose table does not hold its own address, replies,
-- and the reply makes the datagram leave for the right Ethernet address, where it is received. Both
-- interfaces then know each other.
pub recv_frame-request :
    (a b : NetworkInterface) (d : InternetDatagram)
    → IsInterface a
    → IsInterface b
    → IsDatagram d
    → a.ip_address ≢ b.ip_address
    → get_cache a.ip_mac_map b.ip_address ≡ none
    → still_waits (find_waiting a.arp_ip_queue a.ip_address) a.ms_since_last_tick ≡ false
    → get_cache b.ip_mac_map b.ip_address ≡ none
    → (send_datagram a d b.ip_address ≡ ok tt (asked a d b.ip_address))
      × (recv_frame b (request_frame a b.ip_address) ≡ ok none (answered a b))
      × (recv_frame (asked a d b.ip_address) (reply_frame a b) ≡ ok none (resolved a b d))
      × (recv_frame (answered a b) (datagram_frame a b d) ≡ ok (some (arrived d)) (answered a b))
      × (get_cache (answered a b).ip_mac_map a.ip_address ≡ some a.ethernet_address)
      × (get_cache (resolved a b d).ip_mac_map b.ip_address ≡ some b.ethernet_address)
recv_frame-request a b d va vb v differ ea w eb =
    let n = push_frame (asked a d b.ip_address) (datagram_frame a b d) in
    let known = knows n b.ip_address b.ethernet_address in
    (
      send_request a d b.ip_address va vb.ip_small ea w,
      recv_arp_lem b (request_frame a b.ip_address) (request a b.ip_address)
            (request-IsMessage a b.ip_address va vb.ip_small) refl refl
          ∙ answer_request a b va vb eb,
      recv_arp_lem (asked a d b.ip_address) (reply_frame a b) (reply_message a b)
            (reply-IsMessage a b va vb) refl refl
          ∙ take_reply a b d va vb v,
      recv_datagram (answered a b) a.ethernet_address d v,
      known_at_once (push_frame b (reply_frame a b)) a.ip_address a.ethernet_address,
      known_still known a.ip_address b.ip_address a.ethernet_address differ
          ∙ known_at_once n b.ip_address b.ethernet_address,
    )
