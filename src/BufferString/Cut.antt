-- ===== src/BufferString/Cut.antt =====
-- Where the two bounds of `push_back` of libsponge/buffer_string.cc cut an ordered list.
use cs144_sponge.Prelude.{
  ℕ, suc, ◌+◌, ◌≤◌, ◌<◌, ◌≡◌, refl, ap, [], ◌∷◌, ◌++◌, arith, length, dec_lt,
}
use cs144_sponge.BufferString.{BufferStringList, lower_bound, upper_bound}
use cs144_sponge.BufferString.Pieces.{Pieces}

-- Each node meets the positions from `a` to `c`, or borders on them.
abbrev pub Touches : ℕ → ℕ → BufferStringList → Type 0
Touches a c [] = Unit {0}
Touches a c (x ∷ xs) = (a ≤ x.second) × (x.first ≤ c) × Touches a c xs

module _ (f : ℕ → ℕ) where
  -- The nodes up to the upper bound, in a list that begins at the lower bound.
  record Span (lo : ℕ) (l : BufferStringList) (hi a c : ℕ) : Type 0 where
    mid : BufferStringList
    after : BufferStringList
    q : ℕ
    r : ℕ
    whole : l ≡ mid ++ after
    upper : upper_bound l c ≡ length mid
    in_mid : Pieces f lo mid q
    in_after : Pieces f r after hi
    apart : q ≤ r
    beyond : c < r
    touches : Touches a c mid

  span :
      (lo : ℕ) (l : BufferStringList) (hi a c : ℕ)
      → Pieces f lo l hi
      → a ≤ lo
      → c < hi
      → Span lo l hi a c
  unfolding upper_bound
  span lo [] hi a c p h k = record {
    mid = [];
    after = [];
    q = lo;
    r = hi;
    whole = refl;
    upper = refl;
    in_mid = omega arith;
    in_after = omega arith;
    apart = p;
    beyond = k;
    touches = tt;
  }
  span lo (x ∷ xs) hi a c p h k = elim (dec_lt c x.first) [
    | yes far ↦ record {
      mid = [];
      after = x ∷ xs;
      q = lo;
      r = x.first;
      whole = refl;
      upper = ground arith;
      in_mid = omega arith;
      in_after = (omega arith, p.1, p.2);
      apart = p.0;
      beyond = far;
      touches = tt;
    }
    | no near ↦
        let s = span (suc x.second) xs hi a c p.2 (omega (arith, p.1.ordered)) k in
        record {
          mid = x ∷ s.mid;
          after = s.after;
          q = s.q;
          r = s.r;
          whole = ap (◌∷◌ x) s.whole;
          upper = ground (arith, s.upper);
          in_mid = (p.0, p.1, s.in_mid);
          in_after = s.in_after;
          apart = s.apart;
          beyond = s.beyond;
          touches = (omega (arith, p.1.ordered), omega arith, s.touches);
        }
  ]

  -- The list as the nodes before, at and behind the positions from `a` to `c`.
  pub record Cut (lo : ℕ) (l : BufferStringList) (hi a c : ℕ) : Type 0 where
    pub before : BufferStringList
    pub mid : BufferStringList
    pub after : BufferStringList
    pub p : ℕ
    pub q : ℕ
    pub r : ℕ
    pub whole : l ≡ before ++ (mid ++ after)
    pub lower : lower_bound l a ≡ length before
    pub upper : upper_bound l c ≡ length before + length mid
    pub in_before : Pieces f lo before p
    pub in_mid : Pieces f p mid q
    pub in_after : Pieces f r after hi
    pub start : p ≤ a
    pub apart : q ≤ r
    pub beyond : c < r
    pub touches : Touches a c mid

  pub cut :
      (lo : ℕ) (l : BufferStringList) (hi a c : ℕ)
      → Pieces f lo l hi
      → lo ≤ a
      → a ≤ c
      → c < hi
      → Cut lo l hi a c
  unfolding upper_bound lower_bound
  cut lo [] hi a c s h k e = record {
    before = [];
    mid = [];
    after = [];
    p = lo;
    q = lo;
    r = hi;
    whole = refl;
    lower = refl;
    upper = omega arith;
    in_before = omega arith;
    in_mid = omega arith;
    in_after = omega arith;
    start = h;
    apart = s;
    beyond = e;
    touches = tt;
  }
  cut lo (x ∷ xs) hi a c s h k e = elim (dec_lt x.second a) [
    | yes far ↦
        let t = cut (suc x.second) xs hi a c s.2 far k e in
        record {
          before = x ∷ t.before;
          mid = t.mid;
          after = t.after;
          p = t.p;
          q = t.q;
          r = t.r;
          whole = ap (◌∷◌ x) t.whole;
          lower = ground (arith, t.lower);
          upper = ground (arith, t.upper, s.1.ordered);
          in_before = (s.0, s.1, t.in_before);
          in_mid = t.in_mid;
          in_after = t.in_after;
          start = t.start;
          apart = t.apart;
          beyond = t.beyond;
          touches = t.touches;
        }
    | no near ↦ elim (dec_lt c x.first) [
      | yes far ↦ record {
        before = [];
        mid = [];
        after = x ∷ xs;
        p = lo;
        q = lo;
        r = x.first;
        whole = refl;
        lower = ground arith;
        upper = ground arith;
        in_before = omega arith;
        in_mid = omega arith;
        in_after = (omega arith, s.1, s.2);
        start = h;
        apart = s.0;
        beyond = far;
        touches = tt;
      }
      | no close ↦
          let t = span (suc x.second) xs hi a c s.2 (omega arith) e in
          record {
            before = [];
            mid = x ∷ t.mid;
            after = t.after;
            p = lo;
            q = t.q;
            r = t.r;
            whole = ap (◌∷◌ x) t.whole;
            lower = ground arith;
            upper = ground (arith, t.upper);
            in_before = omega arith;
            in_mid = (s.0, s.1, t.in_mid);
            in_after = t.in_after;
            start = h;
            apart = t.apart;
            beyond = t.beyond;
            touches = (omega arith, omega arith, t.touches);
          }
    ]
  ]
