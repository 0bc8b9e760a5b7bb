-- ===== src/Router/Routing/Interfaces.antt =====
-- The interfaces of libsponge/router.hh one by one: what a write to one of them keeps.
use cs144_sponge.Prelude.{
  ℕ, zero, suc, ◌^◌, ◌<◌, ◌≡◌, inl, inr, refl, sym, ap, subst, List, [], ◌∷◌, Option, none, some,
  length, arith,
}
use cs144_sponge.Ipv4.{InternetDatagram}
use cs144_sponge.NetworkInterface.{NetworkInterface}
use cs144_sponge.NetworkInterface.Sending.{IsDatagram}
use cs144_sponge.NetworkInterface.Exchange.{IsInterface}
use cs144_sponge.Router.{RouterInfo}
use cs144_sponge.Router.Choice.{In}
use cs144_sponge.Router.Routing.{
  AsyncNetworkInterface, Router, interface, set_base, datagrams_of, set_datagrams,
}

abbrev pub AllDatagrams : List InternetDatagram → Type 0
AllDatagrams [] = Unit {0}
AllDatagrams (d ∷ ds) = IsDatagram d × AllDatagrams ds

-- Interfaces of valid addresses, which have received valid datagrams.
abbrev pub AllInterfaces : List AsyncNetworkInterface → Type 0
AllInterfaces [] = Unit {0}
AllInterfaces (i ∷ is) = (IsInterface i.base × AllDatagrams i.datagrams_out) × AllInterfaces is

abbrev pub IsHop : Option ℕ → Type 0
IsHop none = Unit {0}
IsHop (some address) = address < 2 ^ 32

-- Routes over interfaces that there are.
abbrev pub AllRoutes : ℕ → List RouterInfo → Type 0
AllRoutes n [] = Unit {0}
AllRoutes n (info ∷ infos) = ((info.interface_num < n) × IsHop info.next_hop) × AllRoutes n infos

pub record IsRouter (r : Router) : Type 0 where
  pub interfaces_valid : AllInterfaces r.interfaces
  pub routes_valid : AllRoutes (length r.interfaces) r.router_list

-- The first `k` interfaces have nothing left to route.
abbrev pub Emptied : ℕ → List AsyncNetworkInterface → Type 0
Emptied zero is = Unit {0}
Emptied (suc k) [] = Unit {0}
Emptied (suc k) (i ∷ is) = (i.datagrams_out ≡ []) × Emptied k is

pub AllRoutes-In :
    (n : ℕ) (info : RouterInfo) (infos : List RouterInfo)
    → AllRoutes n infos
    → In info infos
    → (info.interface_num < n) × IsHop info.next_hop
AllRoutes-In n info [] v i = absurd i
AllRoutes-In n info (x ∷ xs) v (inl e) =
    subst (λ y. (y.interface_num < n) × IsHop y.next_hop) (sym e) v.0
AllRoutes-In n info (x ∷ xs) v (inr i) = AllRoutes-In n info xs v.1 i

-- The parts of an interface that is there.
pub record There (is : List AsyncNetworkInterface) (num : ℕ) : Type 0 where
  pub base : NetworkInterface
  pub found : interface is num ≡ some base
  pub valid : IsInterface base

pub interface-There :
    (is : List AsyncNetworkInterface) (num : ℕ) → AllInterfaces is → num < length is → There is num
unfolding interface
interface-There [] num v h = absurd (omega arith)
interface-There (i ∷ is) zero v h = record { base = i.base; found = refl; valid = v.0.0 }
interface-There (i ∷ is) (suc num) v h =
    let t = interface-There is num v.1 (omega arith) in
    record { base = t.base; found = t.found; valid = t.valid }

pub length-set_base :
    (is : List AsyncNetworkInterface) (num : ℕ) (n : NetworkInterface)
    → length (set_base is num n) ≡ length is
unfolding set_base
length-set_base [] num n = refl
length-set_base (i ∷ is) zero n = refl
length-set_base (i ∷ is) (suc num) n = ap suc (length-set_base is num n)

pub set_base-AllInterfaces :
    (is : List AsyncNetworkInterface) (num : ℕ) (n : NetworkInterface)
    → IsInterface n
    → AllInterfaces is
    → AllInterfaces (set_base is num n)
unfolding set_base
set_base-AllInterfaces [] num n k v = v
set_base-AllInterfaces (i ∷ is) zero n k v = ((k, v.0.1), v.1)
set_base-AllInterfaces (i ∷ is) (suc num) n k v = (v.0, set_base-AllInterfaces is num n k v.1)

pub set_base-Emptied :
    (k : ℕ) (is : List AsyncNetworkInterface) (num : ℕ) (n : NetworkInterface)
    → Emptied k is
    → Emptied k (set_base is num n)
unfolding set_base
set_base-Emptied zero is num n e = tt
set_base-Emptied (suc k) [] num n e = tt
set_base-Emptied (suc k) (i ∷ is) zero n e = e
set_base-Emptied (suc k) (i ∷ is) (suc num) n e = (e.0, set_base-Emptied k is num n e.1)

pub length-set_datagrams :
    (is : List AsyncNetworkInterface) (k : ℕ) (ds : List InternetDatagram)
    → length (set_datagrams is k ds) ≡ length is
unfolding set_datagrams
length-set_datagrams [] k ds = refl
length-set_datagrams (i ∷ is) zero ds = refl
length-set_datagrams (i ∷ is) (suc k) ds = ap suc (length-set_datagrams is k ds)

pub set_datagrams-AllInterfaces :
    (is : List AsyncNetworkInterface) (k : ℕ) (ds : List InternetDatagram)
    → AllDatagrams ds
    → AllInterfaces is
    → AllInterfaces (set_datagrams is k ds)
unfolding set_datagrams
set_datagrams-AllInterfaces [] k ds v w = w
set_datagrams-AllInterfaces (i ∷ is) zero ds v w = ((w.0.0, v), w.1)
set_datagrams-AllInterfaces (i ∷ is) (suc k) ds v w =
    (w.0, set_datagrams-AllInterfaces is k ds v w.1)

pub set_datagrams-Emptied :
    (k : ℕ) (is : List AsyncNetworkInterface) (ds : List InternetDatagram)
    → Emptied k is
    → Emptied k (set_datagrams is k ds)
unfolding set_datagrams
set_datagrams-Emptied zero is ds e = tt
set_datagrams-Emptied (suc k) [] ds e = tt
set_datagrams-Emptied (suc k) (i ∷ is) ds e = (e.0, set_datagrams-Emptied k is ds e.1)

pub datagrams_of-set_datagrams :
    (is : List AsyncNetworkInterface) (k : ℕ) (ds : List InternetDatagram)
    → k < length is
    → datagrams_of (set_datagrams is k ds) k ≡ ds
unfolding set_datagrams datagrams_of
datagrams_of-set_datagrams [] k ds h = absurd (omega arith)
datagrams_of-set_datagrams (i ∷ is) zero ds h = refl
datagrams_of-set_datagrams (i ∷ is) (suc k) ds h = datagrams_of-set_datagrams is k ds (omega arith)

pub set_datagrams_twice :
    (is : List AsyncNetworkInterface) (k : ℕ) (ds es : List InternetDatagram)
    → set_datagrams (set_datagrams is k ds) k es ≡ set_datagrams is k es
unfolding set_datagrams
set_datagrams_twice [] k ds es = refl
set_datagrams_twice (i ∷ is) zero ds es = refl
set_datagrams_twice (i ∷ is) (suc k) ds es = ap (◌∷◌ i) (set_datagrams_twice is k ds es)

pub Emptied-suc :
    (k : ℕ) (is : List AsyncNetworkInterface)
    → Emptied k is
    → datagrams_of is k ≡ []
    → Emptied (suc k) is
unfolding datagrams_of
Emptied-suc zero [] e n = tt
Emptied-suc zero (i ∷ is) e n = (n, tt)
Emptied-suc (suc k) [] e n = tt
Emptied-suc (suc k) (i ∷ is) e n = (e.0, Emptied-suc k is e.1 n)

pub datagrams_of-AllDatagrams :
    (is : List AsyncNetworkInterface) (k : ℕ) → AllInterfaces is → AllDatagrams (datagrams_of is k)
unfolding datagrams_of
datagrams_of-AllDatagrams [] k v = tt
datagrams_of-AllDatagrams (i ∷ is) zero v = v.0.1
datagrams_of-AllDatagrams (i ∷ is) (suc k) v = datagrams_of-AllDatagrams is k v.1
