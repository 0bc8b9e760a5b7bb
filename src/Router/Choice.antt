-- ===== src/Router/Choice.antt =====
-- The choice of a route in libsponge/router.cc is the longest prefix that matches.
use cs144_sponge.Prelude.{
  ℕ, ◌-◌, ◌/◌, ◌^◌, ◌≤◌, ◌<◌, ◌≡◌, refl, sym, ap, subst, ◌∙◌, ◌⊎◌, inl, inr, List, [], ◌∷◌, Option,
  none, some, true, leb, arith, Bool-cases,
}
use cs144_sponge.Router.{RouterInfo, matches, take_route, find_loop, find_route}

abbrev pub In : RouterInfo → List RouterInfo → Type 0
In r [] = ⊥
In r (x ∷ xs) = (r ≡ x) ⊎ In r xs

-- The length that goes with a route that has been found.
abbrev Agrees : Option RouterInfo → ℕ → Type 0
Agrees none n = n ≡ 0
Agrees (some r) n = n ≡ r.prefix_length

-- A found route was found before or is in the list and matches.
abbrev Comes : ℕ → List RouterInfo → Option RouterInfo → Option RouterInfo → Type 0
Comes ip_dst its before none = before ≡ none
Comes ip_dst its before (some r) = (before ≡ some r) ⊎ (In r its × (matches ip_dst r ≡ true))

-- What the loop over the routes leaves.
record Finds (ip_dst : ℕ) (its : List RouterInfo) (before after : Option RouterInfo × ℕ)
    : Type 0 where
  agrees : Agrees after.0 after.1
  grows : before.1 ≤ after.1
  comes : Comes ip_dst its before.0 after.0
  longest :
      (r : RouterInfo)
      → In r its
      → matches ip_dst r ≡ true
      → (r.prefix_length ≤ after.1) × (after.0 ≡ none → ⊥)

-- What one round leaves.
record Takes (ip_dst : ℕ) (it : RouterInfo) (before after : Option RouterInfo × ℕ) : Type 0 where
  agrees : Agrees after.0 after.1
  grows : before.1 ≤ after.1
  comes : (after.0 ≡ before.0) ⊎ ((after.0 ≡ some it) × (matches ip_dst it ≡ true))
  took : matches ip_dst it ≡ true → (it.prefix_length ≤ after.1) × (after.0 ≡ none → ⊥)

some_or_zero : (o : Option RouterInfo) (n : ℕ) → Agrees o n → 0 < n → o ≡ none → ⊥
some_or_zero none n v h e = absurd (omega arith)
some_or_zero (some r) n v h e = ground (arith, e)

take_route-Takes :
    (ip_dst : ℕ) (it : RouterInfo) (o : Option RouterInfo) (n : ℕ)
    → Agrees o n
    → Takes ip_dst it (o, n) (take_route ip_dst it (o, n))
unfolding take_route
take_route-Takes ip_dst it o n v = elim (Bool-cases (matches ip_dst it)) [
  | inr e ↦ rw e (record {
    agrees = v;
    grows = omega arith;
    comes = inl refl;
    took = λ t. ground (arith, t, e);
  })
  | inl e ↦ elim (Bool-cases (leb n it.prefix_length)) [
    | inl l ↦
        rw (e, l)
          (record {
            agrees = refl;
            grows = ground (arith, l);
            comes = inr (refl, e);
            took = λ t. (omega arith, λ k. ground (arith, k));
          })
    | inr l ↦
        rw (e, l)
          (record {
            agrees = v;
            grows = omega arith;
            comes = inl refl;
            took = λ t. (ground (arith, l), some_or_zero o n v (ground (arith, l)));
          })
  ]
]

Comes-cons :
    (ip_dst : ℕ) (it : RouterInfo) (its : List RouterInfo) (before next after : Option RouterInfo)
    → (next ≡ before) ⊎ ((next ≡ some it) × (matches ip_dst it ≡ true))
    → Comes ip_dst its next after
    → Comes ip_dst (it ∷ its) before after
Comes-cons ip_dst it its before next none (inl e) h = sym e ∙ h
Comes-cons ip_dst it its before next none (inr (e, m)) h = ground (arith, e, h)
Comes-cons ip_dst it its before next (some r) (inl e) (inl h) = inl (sym e ∙ h)
Comes-cons ip_dst it its before next (some r) (inr (e, m)) (inl h) =
    let k : r ≡ it = cc in inr (inl k, rw k m)
Comes-cons ip_dst it its before next (some r) t (inr (i, m)) = inr (inr i, m)

none-Comes :
    (ip_dst : ℕ) (its : List RouterInfo) (before after : Option RouterInfo)
    → Comes ip_dst its before after
    → after ≡ none
    → before ≡ none
none-Comes ip_dst its before none h e = h
none-Comes ip_dst its before (some r) h e = ground (arith, e)

Comes-refl : (ip_dst : ℕ) (o : Option RouterInfo) → Comes ip_dst [] o o
Comes-refl ip_dst none = refl
Comes-refl ip_dst (some r) = inl refl

find_loop-Finds :
    (ip_dst : ℕ) (its : List RouterInfo) (before : Option RouterInfo × ℕ)
    → Agrees before.0 before.1
    → Finds ip_dst its before (find_loop its ip_dst before)
unfolding find_loop
find_loop-Finds ip_dst [] before v = record {
  agrees = v;
  grows = omega arith;
  comes = Comes-refl ip_dst before.0;
  longest = λ r i m. absurd i;
}
find_loop-Finds ip_dst (it ∷ its) before v =
    let t = take_route-Takes ip_dst it before.0 before.1 v in
    let next = take_route ip_dst it before in
    let f = find_loop-Finds ip_dst its next t.agrees in
    let after = find_loop its ip_dst next in
    record {
      agrees = f.agrees;
      grows = omega (arith, t.grows, f.grows);
      comes = Comes-cons ip_dst it its before.0 next.0 after.0 t.comes f.comes;
      longest = λ r i m. elim i [
        | inl e ↦
            let k = t.took (subst (λ x. matches ip_dst x ≡ true) e m) in
            (
              omega (arith, k.0, f.grows, ap (λ (x : RouterInfo). x.prefix_length) e),
              λ n. k.1 (none-Comes ip_dst its next.0 after.0 f.comes n),
            )
        | inr e ↦ f.longest r e m
      ];
    }

-- The destination and the prefix of the route have the same first `prefix_length` bits.
abbrev pub InPrefix : ℕ → RouterInfo → Type 0
InPrefix ip_dst r =
    ip_dst / 2 ^ (32 - r.prefix_length) ≡ r.router_prefix / 2 ^ (32 - r.prefix_length)

InPrefix-matches : (ip_dst : ℕ) (r : RouterInfo) → matches ip_dst r ≡ true → InPrefix ip_dst r
unfolding matches
InPrefix-matches ip_dst r m = ground (arith, m)

matches-InPrefix : (ip_dst : ℕ) (r : RouterInfo) → InPrefix ip_dst r → matches ip_dst r ≡ true
unfolding matches
matches-InPrefix ip_dst r m = ground (arith, m)

-- Of a table, a route that has the destination in its prefix, which is the longest that does, or none
-- where no route does.
abbrev pub Longest : ℕ → List RouterInfo → Option RouterInfo → Type 0
Longest ip_dst list none = (r : RouterInfo) → In r list → ¬ InPrefix ip_dst r
Longest ip_dst list (some best) =
    In best list
    × InPrefix ip_dst best
    × ((r : RouterInfo) → In r list → InPrefix ip_dst r → r.prefix_length ≤ best.prefix_length)

Finds-Longest :
    (ip_dst : ℕ) (list : List RouterInfo) (o : Option RouterInfo) (n : ℕ)
    → Finds ip_dst list (none, 0) (o, n)
    → Longest ip_dst list o
Finds-Longest ip_dst list none n f = λ r i t. (f.longest r i (matches-InPrefix ip_dst r t)).1 refl
Finds-Longest ip_dst list (some best) n f = elim f.comes [
  | inl e ↦ ground (arith, e)
  | inr (i, m) ↦ (
    i,
    InPrefix-matches ip_dst best m,
    λ r k t. omega (arith, (f.longest r k (matches-InPrefix ip_dst r t)).0, f.agrees),
  )
]

-- The look-up finds a route of the table whose prefix holds the destination (the first bits are the
-- same, as many as the prefix is long), and no such route has a longer prefix; it finds none only
-- where there is no such route.
pub find_route-Longest :
    (list : List RouterInfo) (ip_dst : ℕ) → Longest ip_dst list (find_route list ip_dst)
unfolding find_route
find_route-Longest list ip_dst =
    Finds-Longest ip_dst list (find_loop list ip_dst (none, 0)).0
      (find_loop list ip_dst (none, 0)).1 (find_loop-Finds ip_dst list (none, 0) refl)
