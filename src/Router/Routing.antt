-- ===== src/Router/Routing.antt =====
-- libsponge/router.hh and router.cc: the interfaces of a router, with the datagrams that they have
-- received, and the routing of these.
pub mod Interfaces
pub mod Datagram
pub mod Emptying
pub mod Forwarding
use cs144_sponge.Prelude.{
  ℕ, zero, suc, ◌-◌, List, [], ◌∷◌, ◌++◌, Option, none, some, leb, length, get_elem?, sub64,
  if◌then◌else◌, Outcome, ok, throws, out_of_range, lift, and_then,
}
use cs144_sponge.Ethernet.{EthernetFrame}
use cs144_sponge.Ipv4.{InternetDatagram}
use cs144_sponge.NetworkInterface
use cs144_sponge.NetworkInterface.{NetworkInterface, send_datagram}
use cs144_sponge.Router.{RouterInfo, find_route, next_address}

pub record AsyncNetworkInterface : Type 0 where
  pub base : NetworkInterface
  pub datagrams_out : List InternetDatagram

-- What is received is kept for the owner.
keep_datagram :
    List InternetDatagram
    → Outcome NetworkInterface (Option InternetDatagram)
    → Outcome AsyncNetworkInterface (Unit {0})
keep_datagram queue (throws e n) = throws e (record { base = n; datagrams_out = queue })
keep_datagram queue (ok none n) = ok tt (record { base = n; datagrams_out = queue })
keep_datagram queue (ok (some d) n) = ok tt (record { base = n; datagrams_out = queue ++ (d ∷ []) })

pub recv_frame : AsyncNetworkInterface → EthernetFrame → Outcome AsyncNetworkInterface (Unit {0})
recv_frame i f = keep_datagram i.datagrams_out (NetworkInterface.recv_frame i.base f)

pub record Router : Type 0 where
  pub interfaces : List AsyncNetworkInterface
  pub router_list : List RouterInfo

pub add_interface : Router → AsyncNetworkInterface → ℕ × Router
add_interface r i =
    let interfaces = r.interfaces ++ (i ∷ []) in
    (sub64 (length interfaces) 1, record r { interfaces = interfaces })

-- `interface(N)`, as far as the routing reads it; `at` throws where the result is `none`.
unfoldable pub interface : List AsyncNetworkInterface → ℕ → Option NetworkInterface
interface [] num = none
interface (i ∷ is) zero = some i.base
interface (i ∷ is) (suc num) = interface is num

-- A write through the reference that `interface(N)` gives, to each part.
pub set_base : List AsyncNetworkInterface → ℕ → NetworkInterface → List AsyncNetworkInterface
set_base [] num n = []
set_base (i ∷ is) zero n = record i { base = n } ∷ is
set_base (i ∷ is) (suc num) n = i ∷ set_base is num n

pub datagrams_of : List AsyncNetworkInterface → ℕ → List InternetDatagram
datagrams_of [] num = []
datagrams_of (i ∷ is) zero = i.datagrams_out
datagrams_of (i ∷ is) (suc num) = datagrams_of is num

pub set_datagrams :
    List AsyncNetworkInterface → ℕ → List InternetDatagram → List AsyncNetworkInterface
set_datagrams [] num ds = []
set_datagrams (i ∷ is) zero ds = record i { datagrams_out = ds } ∷ is
set_datagrams (i ∷ is) (suc num) ds = i ∷ set_datagrams is num ds

abbrev pub decrement_ttl : InternetDatagram → InternetDatagram
decrement_ttl d = record d { header = record d.header { ttl = d.header.ttl - 1 } }

-- Sending over the interface of a route; the datagram is changed as well.
forward :
    Router
    → InternetDatagram
    → RouterInfo
    → Option NetworkInterface
    → Outcome (Router × InternetDatagram) (Unit {0})
forward r d info none = throws out_of_range (r, d)
forward r d info (some n) =
    lift
      (λ after.
        (record r { interfaces = set_base r.interfaces info.interface_num after }, decrement_ttl d))
      (send_datagram n (decrement_ttl d) (next_address info d.header.dst))

pub forward_on :
    Router → InternetDatagram → Option RouterInfo → Outcome (Router × InternetDatagram) (Unit {0})
forward_on r d none = ok tt (r, d)
forward_on r d (some info) = forward r d info (interface r.interfaces info.interface_num)

pub route_one_datagram : Router → InternetDatagram → Outcome (Router × InternetDatagram) (Unit {0})
route_one_datagram r d =
    if leb d.header.ttl 1
    then ok tt (r, d)
    else forward_on r d (find_route r.router_list d.header.dst)

abbrev pub put_queue : Router → ℕ → List InternetDatagram → Router
put_queue r k ds = record r { interfaces = set_datagrams r.interfaces k ds }

-- The inner loop of `route`: the front of the queue is routed in its place, then taken off.
pub empty_queue : Router → ℕ → List InternetDatagram → Outcome Router (Unit {0})
empty_queue r k [] = ok tt r
empty_queue r k (d ∷ ds) =
    and_then (lift (λ s. put_queue s.0 k (s.1 ∷ ds)) (route_one_datagram r d))
      (λ _ s. empty_queue (put_queue s k ds) k ds)

-- The outer loop, over the `n` interfaces from `k` on.
pub route_loop : Router → ℕ → ℕ → Outcome Router (Unit {0})
route_loop r k zero = ok tt r
route_loop r k (suc n) =
    and_then (empty_queue r k (datagrams_of r.interfaces k)) (λ _ s. route_loop s (suc k) n)

pub route : Router → Outcome Router (Unit {0})
route r = route_loop r 0 (length r.interfaces)
