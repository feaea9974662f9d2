-- ===== src/Fo/Table.antt =====
-- lib/FO/fo.cpp: the table that FO_get_routes fills.
use unified_routing_framewor.Prelude.{
  ℕ, zero, suc, ◌*◌, ◌<◌, ◌≤◌, ◌≡◌, refl, List, [], ◌∷◌, none, some, true, false, arith, length,
  get_elem?,
}
use unified_routing_framewor.Prelude.Outcome.{done, fault, overrun}
use unified_routing_framewor.Fo.{
  RtAttr, RouteInfo, Macros, rtm_newroute, nlmsg_done, size_route_entry, parse_routes,
}
use unified_routing_framewor.Fo.Routes.{
  RtMsg, RouteDump, zero_entry, store_route, read_message, read_messages, read_answers,
  netlink_send_get_request, fo_get_routes,
}

-- The message of a route, and the last message.
abbrev pub route_message : List RtAttr → RtMsg
route_message l = record { nlmsg_type = rtm_newroute; attributes = l }

abbrev pub last_message : RtMsg
last_message = record { nlmsg_type = nlmsg_done; attributes = [] }

get_elem?-behind {ℓ} : {A : Type ℓ} (l : List A) (i : ℕ) → length l ≤ i → get_elem? l i ≡ none
get_elem?-behind [] i h = refl
get_elem?-behind (x ∷ l) zero h = ground (arith, h)
get_elem?-behind (x ∷ l) (suc i) h = get_elem?-behind l i (omega (arith, h))

store_route-overrun :
    (l : List RtAttr) (s : RouteDump)
    → length s.entries ≤ s.entry_number * size_route_entry
    → store_route l s ≡ fault overrun
unfolding store_route
store_route-overrun l s h =
    rw (get_elem?-behind s.entries (s.entry_number * size_route_entry) h, store_route) refl

-- The state after a route is stored in the first entry.
abbrev first_stored : List RtAttr → RouteInfo → List RouteInfo → RouteDump
first_stored r e l = record {
  entries = parse_routes r zero_entry ∷ l;
  entry_number = 1;
  end_flag = false;
}

store_route-first :
    (r : List RtAttr) (e : RouteInfo) (l : List RouteInfo)
    → store_route r (record { entries = e ∷ l; entry_number = 0; end_flag = false })
      ≡ done (first_stored r e l)
unfolding store_route
store_route-first r e l = refl

-- Where the kernel answers in one piece and the caller's table has from 1 to 32 entries, `FO_get_routes` succeeds where the kernel has no route, and where it
-- has one, which it puts first in the table; where the kernel has more, the function writes the second one
-- behind the table.
pub fo_get_routes-stores :
    (d : Macros) (e : RouteInfo) (l : List RouteInfo) (r r' : List RtAttr) (more : List RtMsg)
    → length l < 32
    → (let got = λ (messages : List RtMsg). (fo_get_routes d true (some messages ∷ []) (e ∷ l)).1 in
        (got (last_message ∷ []) ≡ done (some (e ∷ l, 0)))
        × (got (route_message r ∷ last_message ∷ [])
            ≡ done (some (parse_routes r zero_entry ∷ l, 1)))
        × (got (route_message r ∷ route_message r' ∷ more) ≡ fault overrun))
unfolding fo_get_routes netlink_send_get_request read_answers read_messages read_message
fo_get_routes-stores d e l r r' more h = (
  refl,
  rw (store_route-first r e l) refl,
  rw (store_route-first r e l, store_route-overrun r' (first_stored r e l) (omega (arith, h))) refl,
)
