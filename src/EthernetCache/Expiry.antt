-- ===== src/EthernetCache/Expiry.antt =====
-- What the cache of libsponge/network_interface.cc knows, and for how long.
use cs144_sponge.Prelude.{
  ℕ, ◌≤◌, ◌≡◌, ◌≢◌, refl, sym, subst, ◌∙◌, ◌⊎◌, inl, inr, List, [], ◌∷◌, none, some, ltb, ◌==◌,
  if◌then◌else◌, arith,
}
use cs144_sponge.EthernetCache.{
  AddressMap, ExpireQueue, IpEthernetCache, lookup, erase, assign, get_cache, set_cache, clean_loop,
  try_clean_expire_cache,
}

-- An entry of the queue, and an address that has none.
abbrev pub In : ℕ → ℕ → ExpireQueue → Type 0
In t ip [] = ⊥
In t ip (x ∷ xs) = ((t ≡ x.0) × (ip ≡ x.1)) ⊎ In t ip xs

abbrev pub Absent : ℕ → ExpireQueue → Type 0
Absent ip [] = Unit {0}
Absent ip (x ∷ xs) = (x.1 ≢ ip) × Absent ip xs

-- The queue is in the order of time, and each address stands in it once at most.
abbrev pub Ordered : ℕ → ExpireQueue → ℕ → Type 0
Ordered low [] high = low ≤ high
Ordered low (x ∷ xs) high = (low ≤ x.0) × Absent x.1 xs × Ordered x.0 xs high

lookup-erase :
    (m : AddressMap) (a b : ℕ) → lookup (erase m a) b ≡ (if a == b then none else lookup m b)
unfolding lookup erase
lookup-erase [] a b = ground arith
lookup-erase (x ∷ xs) a b = ground (arith, lookup-erase xs a b)

-- A new address is known at once, and the other ones stay.
pub get_cache-set_cache :
    (c : IpEthernetCache) (a b : ℕ) (ether : List ℕ) (now span : ℕ)
    → get_cache (set_cache c a ether now span) b ≡ (if a == b then some ether else get_cache c b)
unfolding get_cache set_cache assign lookup
get_cache-set_cache c a b ether now span = ground (arith, lookup-erase c.ip_mac_cache a b)

lookup-clean-Absent :
    (m : AddressMap) (q : ExpireQueue) (now ip : ℕ)
    → Absent ip q
    → lookup (clean_loop m q now).ip_mac_cache ip ≡ lookup m ip
unfolding clean_loop
lookup-clean-Absent m [] now ip h = refl
lookup-clean-Absent m (x ∷ xs) now ip h =
    ground (arith, lookup-clean-Absent (erase m x.1) xs now ip h.1, lookup-erase m x.1 ip, h.0)

In-low : (t ip low high : ℕ) (q : ExpireQueue) → In t ip q → Ordered low q high → low ≤ t
In-low t ip low high [] i o = absurd i
In-low t ip low high (x ∷ xs) (inl e) o = omega (arith, e.0, o.0)
In-low t ip low high (x ∷ xs) (inr i) o = omega (arith, o.0, In-low t ip x.0 high xs i o.2)

Absent-In : (t ip a : ℕ) (q : ExpireQueue) → Absent a q → In t ip q → a ≢ ip
Absent-In t ip a [] h i = absurd i
Absent-In t ip a (x ∷ xs) h (inl e) = λ k. h.0 (sym (k ∙ e.1))
Absent-In t ip a (x ∷ xs) h (inr i) = Absent-In t ip a xs h.1 i

lookup-clean_loop :
    (m : AddressMap) (q : ExpireQueue) (now t ip low high : ℕ)
    → Ordered low q high
    → In t ip q
    → lookup (clean_loop m q now).ip_mac_cache ip ≡ (if ltb t now then none else lookup m ip)
unfolding clean_loop
lookup-clean_loop m [] now t ip low high o i = absurd i
lookup-clean_loop m (x ∷ xs) now t ip low high o (inl e) =
    let n = subst (λ a. Absent a xs) (sym e.1) o.1 in
    ground (arith, lookup-clean-Absent (erase m x.1) xs now ip n, lookup-erase m x.1 ip, e.0, e.1)
lookup-clean_loop m (x ∷ xs) now t ip low high o (inr i) = ground (
  arith,
  lookup-clean_loop (erase m x.1) xs now t ip x.0 high o.2 i,
  lookup-erase m x.1 ip,
  Absent-In t ip x.1 xs o.1 i,
  In-low t ip x.0 high xs i o.2,
)

-- Cleaning forgets exactly the addresses whose time is over.
pub get_cache-try_clean :
    (c : IpEthernetCache) (now t ip low high : ℕ)
    → Ordered low c.expire_queue high
    → In t ip c.expire_queue
    → get_cache (try_clean_expire_cache c now) ip ≡ (if ltb t now then none else get_cache c ip)
unfolding get_cache try_clean_expire_cache
get_cache-try_clean c now t ip low high o i =
    lookup-clean_loop c.ip_mac_cache c.expire_queue now t ip low high o i
