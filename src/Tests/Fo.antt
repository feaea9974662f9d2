-- ===== src/Tests/Fo.antt =====
-- The theorems on the library FO at concrete calls of lib/FO.
use unified_routing_framewor.Prelude.{
  ℕ, ◌+◌, ◌≤◌, ◌≡◌, ◌↔◌, ◌⊎◌, refl, List, [], ◌∷◌, Option, some, true, arith, ◌-◌, ◌&&◌, leb,
}
use unified_routing_framewor.Prelude.Outcome.{Outcome, done, fault, overrun}
use unified_routing_framewor.Fo.{
  rta_oif, rta_dst, nlmsg_error, RtAttr, RtReq, RouteInfo, Macros, Exchange, minus_one, size_rtreq,
  request_attributes, parse_routes, fo_add_a_route, fo_delete_a_route,
}
use unified_routing_framewor.Fo.Routes.{RtMsg, fo_get_routes, zero_entry}
use unified_routing_framewor.Fo.Words.{IsAligned}
use unified_routing_framewor.Fo.Requests.{requests-parse_routes}
use unified_routing_framewor.Fo.Answers.{IsAcknowledged, updates-IsAcknowledged}
use unified_routing_framewor.Fo.Table.{route_message, last_message, fo_get_routes-stores}

-- Macros that measure headers; the words need no alignment.
abbrev macros : Macros
macros = record {
  rtm_rta = 28;
  rtm_payload = λ n. n - 28;
  rta_ok = λ k n. leb 4 n && leb 4 k && leb k n;
  rta_next = λ n. n;
  nlmsg_align = λ n. n;
  nlmsg_length = λ n. n + 16;
  rta_length = λ n. n + 4;
}

macros-IsAligned : IsAligned macros
macros-IsAligned = record {
  align_bound = λ n. omega arith;
  align_exact = λ n. refl;
  message_header = refl;
  attribute_header = refl;
  first = refl;
  payload = λ n. omega arith;
  ok = λ n. ground arith;
  ok_end = λ k. ground arith;
  next = refl;
}

-- The kernel acknowledges.
abbrev exchange : Exchange
exchange = record {
  is_sent = true;
  answer = some (record { is_ok = true; nlmsg_type = nlmsg_error; nlmsg_len = 36; error = 0 });
}

requests-parse_routes_example :
    (q q' : RtReq) × ((fo_add_a_route macros exchange 20 32 30 2 5 0).0 ≡ some q)
    × ((fo_delete_a_route macros exchange 20 30 2 5 0).0 ≡ some q')
    × (q.nlmsg_len ≤ size_rtreq)
    × (q'.nlmsg_len ≤ size_rtreq)
    × (parse_routes (request_attributes macros q) zero_entry
        ≡ record { dst = 20; gateway = 30; ifindex = 2; metric = 5; src = 0; table = 0 })
    × (parse_routes (request_attributes macros q') zero_entry
        ≡ record { dst = 20; gateway = 30; ifindex = 2; metric = 5; src = 0; table = 0 })
requests-parse_routes_example =
    requests-parse_routes macros exchange 20 32 30 2 5 0 macros-IsAligned refl

updates-IsAcknowledged_example :
    let added = (fo_add_a_route macros exchange 20 32 30 2 5 0).1 in
    ((added ≡ 0) ↔ IsAcknowledged macros exchange)
    × ((added ≡ 0) ⊎ (added ≡ minus_one))
    × ((fo_delete_a_route macros exchange 20 30 2 5 0).1 ≡ added)
updates-IsAcknowledged_example =
    updates-IsAcknowledged macros exchange 20 32 30 2 5 0 (λ h e. ground (arith, e)) refl

-- The attributes of two routes, by their destinations.
abbrev to : ℕ → List RtAttr
to n = record { rta_type = rta_dst; word = n } ∷ record { rta_type = rta_oif; word = 2 } ∷ []

abbrev got : List RtMsg → Outcome (Option (List RouteInfo × ℕ))
got messages = (fo_get_routes macros true (some messages ∷ []) (zero_entry ∷ zero_entry ∷ [])).1

fo_get_routes-stores_example :
    (got (last_message ∷ []) ≡ done (some (zero_entry ∷ zero_entry ∷ [], 0)))
    × (got (route_message (to 20) ∷ last_message ∷ [])
        ≡ done (some (parse_routes (to 20) zero_entry ∷ zero_entry ∷ [], 1)))
    × (got (route_message (to 20) ∷ route_message (to 30) ∷ last_message ∷ []) ≡ fault overrun)
fo_get_routes-stores_example =
    fo_get_routes-stores macros zero_entry (zero_entry ∷ []) (to 20) (to 30) (last_message ∷ [])
      (omega arith)
