-- ===== src/Fo/Requests.antt =====
-- lib/FO/fo.cpp: the requests by which routes are added and deleted.
use unified_routing_framewor.Prelude.{
  ℕ, ◌%◌, ◌≤◌, ◌≡◌, refl, sym, ◌∙◌, inl, inr, [], ◌∷◌, some, true, false, not, ◌==◌, ==_iff, ◌&&◌,
  if◌then◌else◌, Bool-cases,
}
use unified_routing_framewor.Fo.{
  rtm_newroute, rtm_delroute, nlm_f_request, nlm_f_ack, nlm_f_create, nlm_f_replace, RtReq, Macros,
  Exchange, is_negative, size_rtmsg, size_rtreq, parse_routes, request_attributes, add_request,
  fo_add_a_route, delete_request, fo_delete_a_route,
}
use unified_routing_framewor.Fo.Routes.{zero_entry}
use unified_routing_framewor.Fo.Words.{IsAligned, parsed}
use unified_routing_framewor.Fo.Carried.{
  or_zero, five-len, Carries-parsed, Carries-header, five-Carries,
}

-- Leaving out a word that is 0, and one that is negative.
word_or_zero : (n : ℕ) → (if not (n == 0) then n else 0) ≡ n
word_or_zero n = elim (Bool-cases (n == 0)) [
  | inl h ↦ rw h (sym ((==_iff n 0).0 h))
  | inr h ↦ rw h refl
]

not_negative : (n : ℕ) → (if not (is_negative n) then n else 0) ≡ or_zero n
not_negative n = elim (is_negative n) as (λ b. (if not b then n else 0) ≡ (if b then 0 else n)) [
  | true ↦ refl
  | false ↦ refl
]

add_request-five :
    (d : Macros) (t netmask g i m s : ℕ)
    → IsAligned d
    → (parsed d (add_request d t netmask g i m s)
        ≡ record { dst = t; gateway = g; ifindex = i; metric = or_zero m; src = s; table = 0 })
      × ((add_request d t netmask g i m s).nlmsg_len ≤ size_rtreq)
unfolding add_request parse_routes
add_request-five d t netmask g i m s a =
    let q : RtReq = record {
      nlmsg_len = d.nlmsg_length size_rtmsg;
      nlmsg_type = rtm_newroute;
      nlmsg_flags = nlm_f_request ∷ nlm_f_ack ∷ nlm_f_create ∷ nlm_f_replace ∷ [];
      rtm_dst_len = netmask % 256;
      buf = [];
    } in
    (
      Carries-parsed d _ _ a (
            five-Carries true (not (is_negative m)) (not (s == 0)) true true d i m s g t q a
              (Carries-header d q a refl refl))
          ∙ rw (not_negative m, word_or_zero s) refl,
      five-len true (not (is_negative m)) (not (s == 0)) true true d i m s g t q a refl,
    )

delete_request-five :
    (d : Macros) (t g i m s : ℕ)
    → IsAligned d
    → (parsed d (delete_request d t g i m s) ≡ record {
      dst = t;
      gateway = g;
      ifindex = or_zero i;
      metric = or_zero m;
      src = s;
      table = 0;
    })
      × ((delete_request d t g i m s).nlmsg_len ≤ size_rtreq)
unfolding delete_request parse_routes
delete_request-five d t g i m s a =
    let q : RtReq = record {
      nlmsg_len = d.nlmsg_length size_rtmsg;
      nlmsg_type = rtm_delroute;
      nlmsg_flags = nlm_f_request ∷ nlm_f_ack ∷ [];
      rtm_dst_len = 32;
      buf = [];
    } in
    let b₀ = not (is_negative i) in
    let b₁ = not (is_negative m) in
    (
      Carries-parsed d _ _ a (
            five-Carries b₀ b₁ (not (s == 0)) (not (g == 0)) (not (t == 0)) d i m s g t q a
              (Carries-header d q a refl refl))
          ∙ rw (not_negative i, not_negative m, word_or_zero s, word_or_zero g, word_or_zero t)
              refl,
      five-len b₀ b₁ (not (s == 0)) (not (g == 0)) (not (t == 0)) d i m s g t q a refl,
    )

fo_delete_a_route-request :
    (d : Macros) (x : Exchange) (t g i m s : ℕ)
    → ((t == 0) && (g == 0) && is_negative i) ≡ false
    → (fo_delete_a_route d x t g i m s).0 ≡ some (delete_request d t g i m s)
unfolding fo_delete_a_route
fo_delete_a_route-request d x t g i m s h = rw h refl

-- Where the system's macros are as documented, and a deletion has a target, the
-- requests of `FO_add_a_route` and `FO_delete_a_route` fit `struct rtreq`, and `parseRoutes`, which
-- goes from attribute to attribute by the lengths that stand in the message, reads from them the destination, the gateway, the interface, the metric and the source that the function was
-- called with; only a negative metric, and of a deletion a negative interface, are left out.
pub requests-parse_routes :
    (d : Macros) (x : Exchange) (t netmask g i m s : ℕ)
    → IsAligned d
    → ((t == 0) && (g == 0) && is_negative i) ≡ false
    → (q q' : RtReq) × ((fo_add_a_route d x t netmask g i m s).0 ≡ some q)
      × ((fo_delete_a_route d x t g i m s).0 ≡ some q')
      × (q.nlmsg_len ≤ size_rtreq)
      × (q'.nlmsg_len ≤ size_rtreq)
      × (parse_routes (request_attributes d q) zero_entry
          ≡ record { dst = t; gateway = g; ifindex = i; metric = or_zero m; src = s; table = 0 })
      × (parse_routes (request_attributes d q') zero_entry ≡ record {
        dst = t;
        gateway = g;
        ifindex = or_zero i;
        metric = or_zero m;
        src = s;
        table = 0;
      })
unfolding fo_add_a_route
requests-parse_routes d x t netmask g i m s a h =
    let (p, l) = add_request-five d t netmask g i m s a in
    let (p', l') = delete_request-five d t g i m s a in
    (
      add_request d t netmask g i m s,
      delete_request d t g i m s,
      refl,
      fo_delete_a_route-request d x t g i m s h,
      l,
      l',
      p,
      p',
    )
