-- ===== src/EthernetCache.antt =====
-- `IP2EthernetCache` of libsponge/network_interface.hh and network_interface.cc: the Ethernet
-- addresses that an interface has learnt, and the queue of their ends.
pub mod Expiry
pub mod Order
use cs144_sponge.Prelude.{
  ℕ, ◌+◌, List, [], ◌∷◌, ◌++◌, Option, none, some, u64, ltb, ◌==◌, if◌then◌else◌,
}

-- An `unordered_map`: each key stands in one entry at most.
abbrev pub AddressMap : Type 0
AddressMap = List (ℕ × List ℕ)

-- `find`, with the value where there is one.
unfoldable pub lookup : AddressMap → ℕ → Option (List ℕ)
lookup [] ip_address = none
lookup (x ∷ xs) ip_address =
    let rest = lookup xs ip_address in if x.0 == ip_address then some x.1 else rest

pub erase : AddressMap → ℕ → AddressMap
erase [] ip_address = []
erase (x ∷ xs) ip_address =
    let rest = erase xs ip_address in if x.0 == ip_address then rest else x ∷ rest

-- `map[ip_address] = ether_address`.
pub assign : AddressMap → ℕ → List ℕ → AddressMap
unfolding erase
assign m ip_address ether_address = (ip_address, ether_address) ∷ erase m ip_address

-- A time, and the address that ends behind it.
abbrev pub ExpireQueue : Type 0
ExpireQueue = List (ℕ × ℕ)

pub record IpEthernetCache : Type 0 where
  pub ip_mac_cache : AddressMap
  pub expire_queue : ExpireQueue

pub init : IpEthernetCache
init = record { ip_mac_cache = []; expire_queue = [] }

unfoldable pub get_cache : IpEthernetCache → ℕ → Option (List ℕ)
unfolding lookup
get_cache c ip_address = lookup c.ip_mac_cache ip_address

-- The loop that takes the old entry off the queue, up to its `break`.
pub erase_first : ExpireQueue → ℕ → ExpireQueue
erase_first [] ip_address = []
erase_first (x ∷ xs) ip_address =
    let rest = erase_first xs ip_address in if x.1 == ip_address then xs else x ∷ rest

forget_old : Option (List ℕ) → ExpireQueue → ℕ → ExpireQueue
unfolding erase_first
forget_old none queue ip_address = queue
forget_old (some old) queue ip_address = erase_first queue ip_address

pub set_cache : IpEthernetCache → ℕ → List ℕ → ℕ → ℕ → IpEthernetCache
unfolding forget_old assign
set_cache c ip_address ether_address ms_since_last_tick expire_time = record {
  ip_mac_cache = assign c.ip_mac_cache ip_address ether_address;
  expire_queue =
      forget_old (lookup c.ip_mac_cache ip_address) c.expire_queue ip_address
      ++ ((u64 (ms_since_last_tick + expire_time), ip_address) ∷ []);
}

-- The loop of `try_clean_expire_cache`.
unfoldable pub clean_loop : AddressMap → ExpireQueue → ℕ → IpEthernetCache
unfolding erase
clean_loop m [] current_time = record { ip_mac_cache = m; expire_queue = [] }
clean_loop m (x ∷ xs) current_time =
    let rest = clean_loop (erase m x.1) xs current_time in
    if ltb x.0 current_time then rest else record { ip_mac_cache = m; expire_queue = x ∷ xs }

unfoldable pub try_clean_expire_cache : IpEthernetCache → ℕ → IpEthernetCache
unfolding clean_loop
try_clean_expire_cache c current_time = clean_loop c.ip_mac_cache c.expire_queue current_time
