-- ===== src/Router/Routing/Forwarding.antt =====
-- A datagram that `Router::route_one_datagram` of libsponge/router.cc forwards to the next host.
use cs144_sponge.Prelude.{◌-◌, ◌<◌, ◌≡◌, ◌∙◌, some, false, leb, arith, ok}
use cs144_sponge.EthernetCache.{get_cache}
use cs144_sponge.Ethernet.{type_ipv4, default_frame}
use cs144_sponge.Ethernet.RoundTrip.{IsAddress}
use cs144_sponge.Ipv4.{InternetDatagram}
use cs144_sponge.NetworkInterface
use cs144_sponge.NetworkInterface.{NetworkInterface, frame, push_frame}
use cs144_sponge.NetworkInterface.Sending.{
  IsDatagram, datagram_bytes, arrived, recv_frame-send_datagram,
}
use cs144_sponge.Router.{RouterInfo, find_route, next_address}
use cs144_sponge.Router.Routing.{Router, interface, set_base, decrement_ttl, route_one_datagram}
use cs144_sponge.Router.Routing.Datagram.{decrement_ttl-IsDatagram, route_found, forward_lem}

-- A datagram with time to live left, on a table with a route for it whose interface knows the
-- Ethernet address of the next hop, leaves over this interface with one less to live, and the host
-- with that address receives it.
pub route_one_datagram-recv_frame :
    (r : Router) (d : InternetDatagram) (info : RouterInfo) (n b : NetworkInterface)
    → IsDatagram d
    → 1 < d.header.ttl
    → find_route r.router_list d.header.dst ≡ some info
    → interface r.interfaces info.interface_num ≡ some n
    → get_cache n.ip_mac_map (next_address info d.header.dst) ≡ some b.ethernet_address
    → IsAddress n.ethernet_address
    → IsAddress b.ethernet_address
    → let less = record d { header = record d.header { ttl = d.header.ttl - 1 } } in
      let f = frame b.ethernet_address n.ethernet_address type_ipv4 (datagram_bytes less) in
      (route_one_datagram r d
        ≡ ok tt (
          record r { interfaces = set_base r.interfaces info.interface_num (push_frame n f) },
          less,
        ))
      × (NetworkInterface.recv_frame b f ≡ ok (some (arrived less)) b)
route_one_datagram-recv_frame r d info n b v h found port known vn vb =
    let live : leb d.header.ttl 1 ≡ false = ground arith in
    let s =
      recv_frame-send_datagram n b (decrement_ttl d) (next_address info d.header.dst) default_frame
        vn vb known (decrement_ttl-IsDatagram d v) in
    (
      route_found r d (some info) live found
          ∙ forward_lem r d info n
              (push_frame n (
                frame b.ethernet_address n.ethernet_address type_ipv4
                  (datagram_bytes (decrement_ttl d))))
              port s.0,
      s.2,
    )
