-- ===== src/Tests/Links.antt =====
-- Interfaces and a router at concrete values.
use cs144_sponge.Prelude.{
  ◌-◌, true, false, ℕ, ◌≡◌, ◌<◌, ◌^◌, refl, List, [], ◌∷◌, none, some, arith, length, ok,
}
use cs144_sponge.EthernetCache.{get_cache, lookup, try_clean_expire_cache, clean_loop}
use cs144_sponge.Ethernet.{EthernetFrame, same_address, type_ipv4}
use cs144_sponge.Ethernet.RoundTrip.{IsAddress}
use cs144_sponge.Ipv4
use cs144_sponge.Ipv4.{InternetDatagram}
use cs144_sponge.NetworkInterface.{
  NetworkInterface, send_datagram, recv_frame, tick, frame, push_frame, find_waiting,
}
use cs144_sponge.NetworkInterface.Sending.{IsDatagram, datagram_bytes, arrived}
use cs144_sponge.NetworkInterface.Exchange.{
  datagram_frame, IsInterface, asked, answered, resolved, request_frame, reply_frame,
}
use cs144_sponge.NetworkInterface.Resolution.{recv_frame-request}
use cs144_sponge.NetworkInterface.Waiting.{send_datagram-lost}
use cs144_sponge.Segment.{TcpSegment, default_header}
use cs144_sponge.Adapter.{Address, set_ports}
use cs144_sponge.Adapter.Wire.{Sends, received_segment}
use cs144_sponge.Adapter.Devices.{TapAdapter, write_tap, read_tap}
use cs144_sponge.Adapter.Devices.OverEthernet.{on_wire, read_tap-write_tap}
use cs144_sponge.Router.{RouterInfo, find_route, next_address, matches, find_loop, take_route}
use cs144_sponge.Router.Routing.{
  Router, AsyncNetworkInterface, route, interface, set_base, route_one_datagram,
}
use cs144_sponge.Router.Routing.Interfaces.{AllInterfaces, Emptied}
use cs144_sponge.Router.Routing.Emptying.{route-Emptied}
use cs144_sponge.Router.Routing.Forwarding.{route_one_datagram-recv_frame}

abbrev node : ℕ → ℕ → NetworkInterface
node last ip = record {
  ethernet_address = 2 ∷ 0 ∷ 0 ∷ 0 ∷ 0 ∷ last ∷ [];
  ip_address = ip;
  frames_out = [];
  arp_ip_queue = [];
  ip_mac_map = record { ip_mac_cache = []; expire_queue = [] };
  ms_since_last_tick = 0;
  expire_time = 30000;
}

node-IsInterface : (last ip : ℕ) → last < 2 ^ 8 → ip < 2 ^ 32 → IsInterface (node last ip)
unfolding same_address
node-IsInterface last ip h k = record {
  unicast = record {
    valid = record { six = refl; bytes = ground arith };
    no_broadcast = refl;
    no_zero = refl;
  };
  ip_small = k;
}

abbrev letter : InternetDatagram
letter = record {
  header = record Ipv4.default_header { len = 23; src = 167772161; dst = 167772162; cksum = 5 };
  payload = (1 ∷ 2 ∷ []) ∷ (3 ∷ []) ∷ [];
}

letter-IsDatagram : IsDatagram letter
letter-IsDatagram = record {
  header_valid = record {
    ver_four = refl;
    hlen_least = omega arith;
    hlen_small = omega arith;
    tos_small = omega arith;
    len_small = omega arith;
    id_small = omega arith;
    offset_small = omega arith;
    ttl_small = omega arith;
    proto_small = omega arith;
    cksum_small = omega arith;
    src_small = omega arith;
    dst_small = omega arith;
  };
  long = refl;
}

abbrev left : NetworkInterface
left = node 1 10

abbrev right : NetworkInterface
right = node 2 11

unknown : (last ip hop : ℕ) → get_cache (node last ip).ip_mac_map hop ≡ none
unfolding get_cache lookup
unknown last ip hop = refl

recv_frame-request_example :
    (send_datagram left letter 11 ≡ ok tt (asked left letter 11))
    × (recv_frame right (request_frame left 11) ≡ ok none (answered left right))
    × (recv_frame (asked left letter 11) (reply_frame left right)
        ≡ ok none (resolved left right letter))
    × (recv_frame (answered left right) (datagram_frame left right letter)
        ≡ ok (some (arrived letter)) (answered left right))
    × (get_cache (answered left right).ip_mac_map 10 ≡ some left.ethernet_address)
    × (get_cache (resolved left right letter).ip_mac_map 11 ≡ some right.ethernet_address)
unfolding find_waiting
recv_frame-request_example =
    recv_frame-request left right letter (node-IsInterface 1 10 (omega arith) (omega arith))
      (node-IsInterface 2 11 (omega arith) (omega arith)) letter-IsDatagram (omega arith)
      (unknown 1 10 11) refl (unknown 2 11 11)

later_unknown : get_cache (tick (asked left letter 11) 100).ip_mac_map 12 ≡ none
unfolding tick try_clean_expire_cache clean_loop get_cache lookup
later_unknown = refl

send_datagram-lost_example :
    (send_datagram left letter 11 ≡ ok tt (asked left letter 11))
    × (send_datagram (tick (asked left letter 11) 100) letter 12
        ≡ ok tt (tick (asked left letter 11) 100))
unfolding find_waiting
send_datagram-lost_example =
    send_datagram-lost left letter letter 11 12 100
      (node-IsInterface 1 10 (omega arith) (omega arith)) (omega arith) (unknown 1 10 11) refl
      (omega arith) (omega arith) later_unknown

abbrev entry : RouterInfo
entry = record {
  router_prefix = 167772160;
  prefix_length = 8;
  next_hop = some 11;
  interface_num = 0;
}

abbrev table : List RouterInfo
table = entry ∷ []

abbrev knowing : NetworkInterface
knowing = record left {
  ip_mac_map = record {
    ip_mac_cache = (11, right.ethernet_address) ∷ [];
    expire_queue = (30000, 11) ∷ [];
  };
}

abbrev router : Router
router = record {
  interfaces = record { base = knowing; datagrams_out = letter ∷ letter ∷ [] } ∷ [];
  router_list = table;
}

knowing-IsInterface : IsInterface knowing
knowing-IsInterface =
    let v = node-IsInterface 1 10 (omega arith) (omega arith) in
    record { unicast = v.unicast; ip_small = v.ip_small }

route-Emptied_example :
    (after : List AsyncNetworkInterface) × (route router
      ≡ ok tt (record router { interfaces = after }))
    × (length after ≡ 1)
    × AllInterfaces after
    × Emptied 1 after
route-Emptied_example = route-Emptied router (record {
  interfaces_valid = ((knowing-IsInterface, (letter-IsDatagram, (letter-IsDatagram, tt))), tt);
  routes_valid = ((omega arith, omega arith), tt);
})

found : find_route table 167772162 ≡ some entry
unfolding find_route find_loop take_route matches
found = refl

first_port : interface router.interfaces 0 ≡ some knowing
unfolding interface
first_port = refl

known : get_cache knowing.ip_mac_map (next_address entry 167772162) ≡ some right.ethernet_address
unfolding get_cache lookup next_address
known = refl

left-IsAddress : IsAddress left.ethernet_address
left-IsAddress = (node-IsInterface 1 10 (omega arith) (omega arith)).unicast.valid

right-IsAddress : IsAddress right.ethernet_address
right-IsAddress = (node-IsInterface 2 11 (omega arith) (omega arith)).unicast.valid

abbrev letter_on : InternetDatagram
letter_on = record letter { header = record letter.header { ttl = letter.header.ttl - 1 } }

abbrev sent_frame : EthernetFrame
sent_frame = frame right.ethernet_address left.ethernet_address type_ipv4 (datagram_bytes letter_on)

route_one_datagram-recv_frame_example :
    (route_one_datagram router letter
      ≡ ok tt (
        record router { interfaces = set_base router.interfaces 0 (push_frame knowing sent_frame) },
        letter_on,
      ))
    × (recv_frame right sent_frame ≡ ok (some (arrived letter_on)) right)
route_one_datagram-recv_frame_example =
    route_one_datagram-recv_frame router letter entry knowing right letter-IsDatagram (omega arith)
      found first_port known left-IsAddress right-IsAddress

abbrev host : NetworkInterface → ℕ → Address → Address → TapAdapter
host n hop source destination = record {
  base = record {
    config = record {
      source = source;
      destination = destination;
      loss_rate_dn = 0;
      loss_rate_up = 0;
    };
    listening = false;
  };
  interface = n;
  next_hop = hop;
  tap = [];
}

abbrev near : Address
near = record { ipv4_numeric = 10; port = 4000 }

abbrev far : Address
far = record { ipv4_numeric = 11; port = 80 }

abbrev client : TapAdapter
client = host knowing 11 near far

abbrev server : TapAdapter
server = host right 10 far near

abbrev greeting : TcpSegment
greeting = record {
  header = record default_header { seqno = 7; syn = true; win = 1000 };
  payload = 104 ∷ 105 ∷ [];
}

greeting-Sends : Sends client.base greeting
greeting-Sends = record {
  source_valid = record { ip_small = omega arith; port_small = omega arith };
  destination_valid = record { ip_small = omega arith; port_small = omega arith };
  header_valid = record {
    sport_small = omega arith;
    dport_small = omega arith;
    seqno_small = omega arith;
    ackno_small = omega arith;
    doff_least = omega arith;
    doff_small = omega arith;
    win_small = omega arith;
    cksum_small = omega arith;
    uptr_small = omega arith;
  };
  bytes = (omega arith, (omega arith, tt));
  fits = omega arith;
}

client_knows : get_cache knowing.ip_mac_map 11 ≡ some right.ethernet_address
unfolding get_cache lookup
client_knows = refl

read_tap-write_tap_example :
    (write_tap client greeting
      ≡ ok
          (set_ports client.base greeting)
          (record client { tap = on_wire client server greeting ∷ [] }))
    × (read_tap server (on_wire client server greeting)
        ≡ ok (some (received_segment client.base greeting)) server)
read_tap-write_tap_example =
    read_tap-write_tap client server greeting greeting-Sends refl refl refl left-IsAddress
      right-IsAddress client_knows refl refl
