-- ===== src/Router/Routing/Emptying.antt =====
-- `Router::route` of libsponge/router.cc routes all that the interfaces have received.
use cs144_sponge.Prelude.{
  ℕ, zero, suc, ◌+◌, ◌<◌, ◌≡◌, ◌∙◌, refl, sym, ap, subst, List, [], ◌∷◌, length, arith, Outcome, ok,
}
use cs144_sponge.Ipv4.{InternetDatagram}
use cs144_sponge.Router.Routing.{
  AsyncNetworkInterface, Router, datagrams_of, set_datagrams, route_one_datagram, empty_queue,
  route_loop, route,
}
use cs144_sponge.Router.Routing.Interfaces.{
  AllDatagrams, AllInterfaces, AllRoutes, IsRouter, Emptied, length-set_datagrams,
  set_datagrams-AllInterfaces, set_datagrams-Emptied, datagrams_of-set_datagrams,
  set_datagrams_twice, Emptied-suc, datagrams_of-AllDatagrams,
}
use cs144_sponge.Router.Routing.Datagram.{route_one_datagram-Routed}

-- A run over queues from the `k`th on that returns, with the queues before `n` empty.
record Empties (r : Router) (run : Outcome Router (Unit {0})) (n : ℕ) : Type 0 where
  after : List AsyncNetworkInterface
  returns : run ≡ ok tt (record r { interfaces = after })
  valid : AllInterfaces after
  long : length after ≡ length r.interfaces
  emptied : Emptied n after

with_interfaces-IsRouter :
    (r : Router) (is : List AsyncNetworkInterface)
    → IsRouter r
    → AllInterfaces is
    → length is ≡ length r.interfaces
    → IsRouter (record r { interfaces = is })
with_interfaces-IsRouter r is v w l = record {
  interfaces_valid = w;
  routes_valid = subst (λ n. AllRoutes n r.router_list) (sym l) v.routes_valid;
}

empty_queue_step :
    (r : Router) (k : ℕ) (d e : InternetDatagram) (ds : List InternetDatagram)
    (is : List AsyncNetworkInterface)
    → route_one_datagram r d ≡ ok tt (record r { interfaces = is }, e)
    → empty_queue r k (d ∷ ds) ≡ empty_queue (record r { interfaces = set_datagrams is k ds }) k ds
unfolding empty_queue
empty_queue_step r k d e ds is t = rw t (
    ap (λ js. empty_queue (record r { interfaces = js }) k ds)
      (set_datagrams_twice is k (e ∷ ds) ds))

empty_queue_nil : (r : Router) (k : ℕ) → empty_queue r k [] ≡ ok tt r
unfolding empty_queue
empty_queue_nil r k = refl

empty_queue-Empties :
    (r : Router) (k : ℕ) (ds : List InternetDatagram)
    → IsRouter r
    → AllDatagrams ds
    → k < length r.interfaces
    → datagrams_of r.interfaces k ≡ ds
    → Emptied k r.interfaces
    → Empties r (empty_queue r k ds) (suc k)
empty_queue-Empties r k [] v w h q e = record {
  after = r.interfaces;
  returns = empty_queue_nil r k;
  valid = v.interfaces_valid;
  long = refl;
  emptied = Emptied-suc k r.interfaces e q;
}
empty_queue-Empties r k (d ∷ ds) v w h q e =
    let t = route_one_datagram-Routed r d v w.0 in
    let is = set_datagrams t.after k ds in
    let l = length-set_datagrams t.after k ds ∙ t.long in
    let valid = set_datagrams-AllInterfaces t.after k ds w.1 t.valid in
    let rest =
      empty_queue-Empties (record r { interfaces = is }) k ds
        (with_interfaces-IsRouter r is v valid l) w.1 (omega (arith, l))
        (datagrams_of-set_datagrams t.after k ds (omega (arith, t.long)))
        (set_datagrams-Emptied k t.after ds (t.keeps k e)) in
    record {
      after = rest.after;
      returns = empty_queue_step r k d t.dgram ds t.after t.returns ∙ rest.returns;
      valid = rest.valid;
      long = rest.long ∙ l;
      emptied = rest.emptied;
    }

route_loop_lem :
    (r s : Router) (k n : ℕ)
    → empty_queue r k (datagrams_of r.interfaces k) ≡ ok tt s
    → route_loop r k (suc n) ≡ route_loop s (suc k) n
unfolding route_loop
route_loop_lem r s k n e = rw e refl

route_loop_end : (r : Router) (k : ℕ) → route_loop r k 0 ≡ ok tt r
unfolding route_loop
route_loop_end r k = refl

route_loop-Empties :
    (r : Router) (k n : ℕ)
    → IsRouter r
    → k + n ≡ length r.interfaces
    → Emptied k r.interfaces
    → Empties r (route_loop r k n) (length r.interfaces)
route_loop-Empties r k zero v l e = record {
  after = r.interfaces;
  returns = route_loop_end r k;
  valid = v.interfaces_valid;
  long = refl;
  emptied = subst (λ m. Emptied m r.interfaces) (omega arith) e;
}
route_loop-Empties r k (suc n) v l e =
    let q =
      empty_queue-Empties r k (datagrams_of r.interfaces k) v
        (datagrams_of-AllDatagrams r.interfaces k v.interfaces_valid) (omega arith) refl e in
    let s : Router = record r { interfaces = q.after } in
    let rest =
      route_loop-Empties s (suc k) n (with_interfaces-IsRouter r q.after v q.valid q.long)
        (omega (arith, q.long)) q.emptied in
    record {
      after = rest.after;
      returns = route_loop_lem r s k n q.returns ∙ rest.returns;
      valid = rest.valid;
      long = rest.long ∙ q.long;
      emptied = subst (λ m. Emptied m rest.after) q.long rest.emptied;
    }

-- On a router whose routes name interfaces that there are, and whose interfaces and received
-- datagrams are valid, routing returns without an exception, and all that the interfaces had
-- received has been taken off; the interfaces stay valid, and no interface is added or lost.
pub route-Emptied :
    (r : Router)
    → IsRouter r
    → (after : List AsyncNetworkInterface) × (route r ≡ ok tt (record r { interfaces = after }))
      × (length after ≡ length r.interfaces)
      × AllInterfaces after
      × Emptied (length r.interfaces) after
unfolding route
route-Emptied r v =
    let e = route_loop-Empties r 0 (length r.interfaces) v (omega arith) tt in
    (e.after, e.returns, e.long, e.valid, e.emptied)
