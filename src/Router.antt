-- ===== src/Router.antt =====
-- libsponge/router.hh and router.cc: the table of routes and the choice of one. An `Address` is its
-- IPv4 number. A prefix length is at most 32; beyond, the source shifts by a negative count.
pub mod Choice
pub mod Routing
use cs144_sponge.Prelude.{
  ℕ, ◌-◌, ◌/◌, ◌^◌, List, [], ◌∷◌, ◌++◌, Option, none, some, Bool, ◌&&◌, leb, ◌==◌, if◌then◌else◌,
}

pub record RouterInfo : Type 0 where
  pub router_prefix : ℕ
  pub prefix_length : ℕ
  pub next_hop : Option ℕ
  pub interface_num : ℕ

-- `add_route`, on `_router_list`.
pub add_route : List RouterInfo → ℕ → ℕ → Option ℕ → ℕ → List RouterInfo
add_route list route_prefix prefix_length next_hop interface_num =
    list
    ++ (record {
      router_prefix = route_prefix;
      prefix_length = prefix_length;
      next_hop = next_hop;
      interface_num = interface_num;
    }
        ∷ [])

-- Whether the high bits of the destination are those of the route.
unfoldable pub matches : ℕ → RouterInfo → Bool
matches ip_dst it =
    (ip_dst / 2 ^ (32 - it.prefix_length)) == (it.router_prefix / 2 ^ (32 - it.prefix_length))

-- One round of the loop, on `route_info` and `max_prefix`.
unfoldable pub take_route : ℕ → RouterInfo → Option RouterInfo × ℕ → Option RouterInfo × ℕ
unfolding matches
take_route ip_dst it (route_info, max_prefix) =
    if matches ip_dst it && leb max_prefix it.prefix_length
    then (some it, it.prefix_length)
    else (route_info, max_prefix)

unfoldable pub find_loop : List RouterInfo → ℕ → Option RouterInfo × ℕ → Option RouterInfo × ℕ
unfolding take_route
find_loop [] ip_dst found = found
find_loop (it ∷ its) ip_dst found = find_loop its ip_dst (take_route ip_dst it found)

-- The route that `route_one_datagram` looks up.
unfoldable pub find_route : List RouterInfo → ℕ → Option RouterInfo
unfolding find_loop
find_route list ip_dst = (find_loop list ip_dst (none, 0)).0

-- The address that the datagram is sent to next: its own destination on a network that is directly
-- attached.
unfoldable pub next_address : RouterInfo → ℕ → ℕ
next_address route ip_dst = elim route.next_hop [ none ↦ ip_dst | some address ↦ address ]
