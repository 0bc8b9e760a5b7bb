-- ===== src/Tests/Network.antt =====
-- The table of routes and the cache of addresses at concrete values.
use cs144_sponge.Prelude.{ℕ, ◌≡◌, refl, inl, List, [], ◌∷◌, none, some, ltb, if◌then◌else◌, arith}
use cs144_sponge.Router.{RouterInfo, find_route}
use cs144_sponge.Router.Choice.{Longest, find_route-Longest}
use cs144_sponge.EthernetCache.{
  IpEthernetCache, lookup, get_cache, set_cache, try_clean_expire_cache,
}
use cs144_sponge.EthernetCache.Expiry.{In, get_cache-try_clean}
use cs144_sponge.EthernetCache.Order.{IsValid, set_cache-IsValid}

-- 10.0.0.0/8, 10.1.0.0/16 and the default route.
abbrev table : List RouterInfo
table =
    record { router_prefix = 167772160; prefix_length = 8; next_hop = none; interface_num = 0 }
    ∷ record { router_prefix = 167837696; prefix_length = 16; next_hop = none; interface_num = 1 }
    ∷ record { router_prefix = 0; prefix_length = 0; next_hop = some 1; interface_num = 2 }
    ∷ []

find_route-Longest_example : Longest 167837697 table (find_route table 167837697)
find_route-Longest_example = find_route-Longest table 167837697

abbrev ether : List ℕ
ether = 2 ∷ 0 ∷ 0 ∷ 0 ∷ 0 ∷ 7 ∷ []

abbrev cache : IpEthernetCache
cache = record {
  ip_mac_cache = (5, ether) ∷ (6, ether) ∷ [];
  expire_queue = (30, 6) ∷ (40, 5) ∷ [];
}

cache-IsValid : IsValid cache 40
unfolding get_cache lookup
cache-IsValid = record {
  ordered = (omega arith, (λ e. omega arith, tt), (omega arith, tt, omega arith));
  known = λ ip e. (λ k. ground (arith, e, k), (λ k. ground (arith, e, k), tt));
}

get_cache-try_clean_example :
    get_cache (try_clean_expire_cache cache 35) 6 ≡ (if ltb 30 35 then none else get_cache cache 6)
get_cache-try_clean_example =
    get_cache-try_clean cache 35 30 6 0 40 cache-IsValid.ordered (inl (refl, refl))

set_cache-IsValid_example :
    IsValid (set_cache cache 6 ether 35 30) 65
    × In 65 6 (set_cache cache 6 ether 35 30).expire_queue
set_cache-IsValid_example =
    set_cache-IsValid cache 40 6 ether 35 30 cache-IsValid (omega arith) (omega arith)
