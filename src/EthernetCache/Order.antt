-- ===== src/EthernetCache/Order.antt =====
-- The queue of the cache of libsponge/network_interface.cc stays in order.
use cs144_sponge.Prelude.{
  ℕ, ◌+◌, ◌^◌, ◌≤◌, ◌<◌, ◌≡◌, ◌≢◌, refl, sym, subst, ◌∙◌, inl, inr, List, [], ◌∷◌, ◌++◌, Option,
  none, some, ◌==◌, if◌then◌else◌, arith, ℕ_discrete, u64,
}
use cs144_sponge.EthernetCache.{
  ExpireQueue, IpEthernetCache, lookup, get_cache, set_cache, erase_first, forget_old,
}
use cs144_sponge.EthernetCache.Expiry.{In, Absent, Ordered, get_cache-set_cache}

-- A cache with a queue in order up to `high`, in which each address of the queue is known.
pub record IsValid (c : IpEthernetCache) (high : ℕ) : Type 0 where
  pub ordered : Ordered 0 c.expire_queue high
  pub known : (ip : ℕ) → get_cache c ip ≡ none → Absent ip c.expire_queue

erase_first_on : (x : ℕ × ℕ) (xs : ExpireQueue) (a : ℕ) → x.1 ≡ a → erase_first (x ∷ xs) a ≡ xs
unfolding erase_first
erase_first_on x xs a e = ground (arith, e)

erase_first_off :
    (x : ℕ × ℕ) (xs : ExpireQueue) (a : ℕ) → x.1 ≢ a → erase_first (x ∷ xs) a ≡ x ∷ erase_first xs a
unfolding erase_first
erase_first_off x xs a e = ground (arith, e)

Absent-erase_first : (a b : ℕ) (q : ExpireQueue) → Absent b q → Absent b (erase_first q a)
unfolding erase_first
Absent-erase_first a b [] h = tt
Absent-erase_first a b (x ∷ xs) h = elim (ℕ_discrete x.1 a) [
  | yes e ↦ subst (Absent b) (sym (erase_first_on x xs a e)) h.1
  | no e ↦ subst (Absent b) (sym (erase_first_off x xs a e)) (h.0, Absent-erase_first a b xs h.1)
]

Ordered-mono :
    (low low' : ℕ) (q : ExpireQueue) (high : ℕ)
    → low' ≤ low
    → Ordered low q high
    → Ordered low' q high
Ordered-mono low low' [] high h o = omega arith
Ordered-mono low low' (x ∷ xs) high h o = (omega (arith, o.0), o.1, o.2)

-- Behind the loop the address has no entry.
erase_first-Ordered :
    (a low high : ℕ) (q : ExpireQueue)
    → Ordered low q high
    → Ordered low (erase_first q a) high × Absent a (erase_first q a)
unfolding erase_first
erase_first-Ordered a low high [] o = (o, tt)
erase_first-Ordered a low high (x ∷ xs) o = elim (ℕ_discrete x.1 a) [
  | yes e ↦
      subst (λ q. Ordered low q high × Absent a q) (sym (erase_first_on x xs a e))
        (Ordered-mono x.0 low xs high o.0 o.2, subst (λ b. Absent b xs) e o.1)
  | no e ↦
      let k = erase_first-Ordered a x.0 high xs o.2 in
      subst (λ q. Ordered low q high × Absent a q) (sym (erase_first_off x xs a e))
        ((o.0, Absent-erase_first a x.1 xs o.1, k.0), (e, k.1))
]

Absent-snoc : (a b t : ℕ) (q : ExpireQueue) → Absent a q → b ≢ a → Absent a (q ++ ((t, b) ∷ []))
Absent-snoc a b t [] h n = (n, tt)
Absent-snoc a b t (x ∷ xs) h n = (h.0, Absent-snoc a b t xs h.1 n)

Ordered-snoc :
    (low high t a : ℕ) (q : ExpireQueue)
    → Ordered low q high
    → high ≤ t
    → Absent a q
    → Ordered low (q ++ ((t, a) ∷ [])) t × In t a (q ++ ((t, a) ∷ []))
Ordered-snoc low high t a [] o h n = ((omega arith, tt, omega arith), inl (refl, refl))
Ordered-snoc low high t a (x ∷ xs) o h n =
    let k = Ordered-snoc x.0 high t a xs o.2 h n.1 in
    ((o.0, Absent-snoc x.1 a t xs o.1 (λ e. n.0 (sym e)), k.0), inr k.1)

forget_old-Ordered :
    (o : Option (List ℕ)) (a low high : ℕ) (q : ExpireQueue)
    → Ordered low q high
    → (o ≡ none → Absent a q)
    → Ordered low (forget_old o q a) high × Absent a (forget_old o q a)
unfolding forget_old
forget_old-Ordered none a low high q v h = (v, h refl)
forget_old-Ordered (some e) a low high q v h = erase_first-Ordered a low high q v

forget_old-Absent :
    (o : Option (List ℕ)) (a b : ℕ) (q : ExpireQueue) → Absent b q → Absent b (forget_old o q a)
unfolding forget_old
forget_old-Absent none a b q h = h
forget_old-Absent (some e) a b q h = Absent-erase_first a b q h

unknown :
    (a b : ℕ) (x : List ℕ) (o : Option (List ℕ))
    → (if a == b then some x else o) ≡ none
    → (a ≢ b) × (o ≡ none)
unknown a b x o h = (λ e. ground (arith, h, e), ground (arith, h))

-- As long as the time only grows, learning an address leaves a valid cache, in which the address
-- ends behind its time to live, whatever end it had before.
pub set_cache-IsValid :
    (c : IpEthernetCache) (high a : ℕ) (ether : List ℕ) (now span : ℕ)
    → IsValid c high
    → high ≤ now + span
    → now + span < 2 ^ 64
    → IsValid (set_cache c a ether now span) (now + span)
      × In (now + span) a (set_cache c a ether now span).expire_queue
unfolding set_cache get_cache
set_cache-IsValid c high a ether now span v h s =
    let t : u64 (now + span) ≡ now + span = omega arith in
    let f = forget_old-Ordered (get_cache c a) a 0 high c.expire_queue v.ordered (v.known a) in
    let k = Ordered-snoc 0 high (now + span) a _ f.0 h f.1 in
    let q = forget_old (lookup c.ip_mac_cache a) c.expire_queue a in
    (
      record {
        ordered = rw t k.0;
        known = λ ip e.
            let u =
              unknown a ip ether (get_cache c ip)
                (sym (get_cache-set_cache c a ip ether now span) ∙ e) in
            Absent-snoc ip a _ q (forget_old-Absent _ a ip c.expire_queue (v.known ip u.1)) u.0;
      },
      rw t k.1,
    )
