-- ===== src/Router/Routing/Datagram.antt =====
-- `Router::route_one_datagram` of libsponge/router.cc, on each branch.
use cs144_sponge.Prelude.{
  ℕ, ◌^◌, ◌<◌, ◌≡◌, ◌∙◌, inl, inr, refl, subst, List, Option, none, some, true, false, leb, length,
  arith, ok, Bool-cases, Option-cases,
}
use cs144_sponge.Ipv4.{InternetDatagram}
use cs144_sponge.NetworkInterface.{NetworkInterface, send_datagram}
use cs144_sponge.NetworkInterface.Sending.{IsDatagram}
use cs144_sponge.NetworkInterface.Waiting.{send_datagram-Sent}
use cs144_sponge.Router.{RouterInfo, find_route, next_address}
use cs144_sponge.Router.Choice.{Longest, find_route-Longest}
use cs144_sponge.Router.Routing.{
  AsyncNetworkInterface, Router, interface, set_base, decrement_ttl, forward, forward_on,
  route_one_datagram,
}
use cs144_sponge.Router.Routing.Interfaces.{
  AllInterfaces, IsHop, IsRouter, Emptied, AllRoutes-In, interface-There, length-set_base,
  set_base-AllInterfaces, set_base-Emptied,
}

pub decrement_ttl-IsDatagram : (d : InternetDatagram) → IsDatagram d → IsDatagram (decrement_ttl d)
decrement_ttl-IsDatagram d v =
    let h = v.header_valid in
    record {
      header_valid = record {
        ver_four = h.ver_four;
        hlen_least = h.hlen_least;
        hlen_small = h.hlen_small;
        tos_small = h.tos_small;
        len_small = h.len_small;
        id_small = h.id_small;
        offset_small = h.offset_small;
        ttl_small = omega (arith, h.ttl_small);
        proto_small = h.proto_small;
        cksum_small = h.cksum_small;
        src_small = h.src_small;
        dst_small = h.dst_small;
      };
      long = v.long;
    }

hop-lt :
    (o : Option ℕ) (dst : ℕ)
    → IsHop o
    → dst < 2 ^ 32
    → elim o [ none ↦ dst | some address ↦ address ] < 2 ^ 32
hop-lt none dst v h = h
hop-lt (some address) dst v h = v

next_address-lt :
    (info : RouterInfo) (dst : ℕ)
    → IsHop info.next_hop
    → dst < 2 ^ 32
    → next_address info dst < 2 ^ 32
unfolding next_address
next_address-lt info dst v h = hop-lt info.next_hop dst v h

-- A call of `route_one_datagram` that returns.
pub record Routed (r : Router) (d : InternetDatagram) : Type 0 where
  pub after : List AsyncNetworkInterface
  pub dgram : InternetDatagram
  pub returns : route_one_datagram r d ≡ ok tt (record r { interfaces = after }, dgram)
  pub valid : AllInterfaces after
  pub long : length after ≡ length r.interfaces
  pub keeps : (k : ℕ) → Emptied k r.interfaces → Emptied k after

pub forward_lem :
    (r : Router) (d : InternetDatagram) (info : RouterInfo) (n after : NetworkInterface)
    → interface r.interfaces info.interface_num ≡ some n
    → send_datagram n (decrement_ttl d) (next_address info d.header.dst) ≡ ok tt after
    → forward_on r d (some info)
      ≡ ok tt (
        record r { interfaces = set_base r.interfaces info.interface_num after },
        decrement_ttl d,
      )
unfolding forward_on forward
forward_lem r d info n after e s = rw (e, s) refl

forward_none : (r : Router) (d : InternetDatagram) → forward_on r d none ≡ ok tt (r, d)
unfolding forward_on
forward_none r d = refl

route_dropped :
    (r : Router) (d : InternetDatagram)
    → leb d.header.ttl 1 ≡ true
    → route_one_datagram r d ≡ ok tt (r, d)
unfolding route_one_datagram
route_dropped r d e = rw e refl

pub route_found :
    (r : Router) (d : InternetDatagram) (o : Option RouterInfo)
    → leb d.header.ttl 1 ≡ false
    → find_route r.router_list d.header.dst ≡ o
    → route_one_datagram r d ≡ forward_on r d o
unfolding route_one_datagram
route_found r d o e f = rw (e, f) refl

forward-Routed :
    (r : Router) (d : InternetDatagram) (info : RouterInfo)
    → IsRouter r
    → IsDatagram d
    → leb d.header.ttl 1 ≡ false
    → find_route r.router_list d.header.dst ≡ some info
    → Routed r d
forward-Routed r d info v vd e f =
    let l =
      subst (Longest d.header.dst r.router_list) f
        (find_route-Longest r.router_list d.header.dst) in
    let i = AllRoutes-In (length r.interfaces) info r.router_list v.routes_valid l.0 in
    let t = interface-There r.interfaces info.interface_num v.interfaces_valid i.0 in
    let s =
      send_datagram-Sent t.base (decrement_ttl d) (next_address info d.header.dst) t.valid
        (decrement_ttl-IsDatagram d vd)
        (next_address-lt info d.header.dst i.1 vd.header_valid.dst_small) in
    record {
      after = set_base r.interfaces info.interface_num s.after;
      dgram = decrement_ttl d;
      returns =
          route_found r d (some info) e f ∙ forward_lem r d info t.base s.after t.found s.returns;
      valid =
          set_base-AllInterfaces r.interfaces info.interface_num s.after s.valid v.interfaces_valid;
      long = length-set_base r.interfaces info.interface_num s.after;
      keeps = λ k. set_base-Emptied k r.interfaces info.interface_num s.after;
    }

unchanged-Routed :
    (r : Router) (d : InternetDatagram)
    → IsRouter r
    → route_one_datagram r d ≡ ok tt (r, d)
    → Routed r d
unchanged-Routed r d v e = record {
  after = r.interfaces;
  dgram = d;
  returns = e;
  valid = v.interfaces_valid;
  long = refl;
  keeps = λ k h. h;
}

pub route_one_datagram-Routed :
    (r : Router) (d : InternetDatagram) → IsRouter r → IsDatagram d → Routed r d
route_one_datagram-Routed r d v vd = elim (Bool-cases (leb d.header.ttl 1)) [
  | inl e ↦ unchanged-Routed r d v (route_dropped r d e)
  | inr e ↦ elim (Option-cases (find_route r.router_list d.header.dst)) [
    | inl f ↦ unchanged-Routed r d v (route_found r d none e f ∙ forward_none r d)
    | inr (info, f) ↦ forward-Routed r d info v vd e f
  ]
]
