-- ===== src/Fo/Answers.antt =====
-- lib/FO/fo.cpp: the kernel's answers to requests.
use unified_routing_framewor.Prelude.{
  ℕ, ◌-◌, ◌%◌, ◌^◌, ◌<◌, ◌≤◌, ◌≡◌, ◌↔◌, ◌⊎◌, refl, sym, subst, inl, inr, Option, none, some, Bool,
  true, false, ltb, ◌==◌, ◌&&◌, arith, if◌then◌else◌,
}
use mathlib.Core.Option.{some-injective}
use unified_routing_framewor.Fo.{
  NlmsgType, rtm_newroute, rtm_delroute, rtm_getroute, nlmsg_done, nlmsg_error, nlmsg_other, Macros,
  Answer, Exchange, minus_one, size_nlmsgerr, update_answer, netlink_send_update_request,
  update_result, fo_add_a_route, fo_delete_a_route, is_negative,
}

-- The answer acknowledges the request.
pub record IsAck (d : Macros) (h : Answer) : Type 0 where
  pub ok : h.is_ok ≡ true
  pub error_type : h.nlmsg_type ≡ nlmsg_error
  pub whole : d.nlmsg_length size_nlmsgerr ≤ h.nlmsg_len
  pub no_error : h.error ≡ 0

abbrev pub IsAcknowledged : Macros → Exchange → Type 0
IsAcknowledged d x = (x.is_sent ≡ true) × (h : Answer) × (x.answer ≡ some h) × IsAck d h

negated : (n : ℕ) → n < 2 ^ 32 → ((2 ^ 32 - n) % 2 ^ 32) ≡ 0 → n ≡ 0
negated n h e = omega (arith, h, e)

update_answer-short :
    (n m e : ℕ)
    → e < 2 ^ 32
    → (if ltb n m then minus_one else (2 ^ 32 - e) % 2 ^ 32) ≡ 0
    → (m ≤ n) × (e ≡ 0)
update_answer-short n m e b h = ground (arith, h, b)

update_answer-IsAck :
    (d : Macros) (ok : Bool) (k : NlmsgType) (n e : ℕ)
    → e < 2 ^ 32
    → (let h : Answer = record { is_ok = ok; nlmsg_type = k; nlmsg_len = n; error = e } in
        update_answer d h ≡ 0 → IsAck d h)
unfolding update_answer
update_answer-IsAck d false k n e b h = ground (arith, h)
update_answer-IsAck d true rtm_newroute n e b h = ground (arith, h)
update_answer-IsAck d true rtm_delroute n e b h = ground (arith, h)
update_answer-IsAck d true rtm_getroute n e b h = ground (arith, h)
update_answer-IsAck d true nlmsg_done n e b h = ground (arith, h)
update_answer-IsAck d true (nlmsg_other i) n e b h = ground (arith, h)
update_answer-IsAck d true nlmsg_error n e b h =
    let (l, z) = update_answer-short n (d.nlmsg_length size_nlmsgerr) e b h in
    record { ok = refl; error_type = refl; whole = l; no_error = z }

IsAck-update_answer : (d : Macros) (h : Answer) → IsAck d h → update_answer d h ≡ 0
unfolding update_answer
IsAck-update_answer d h a =
    rw (a.ok, update_answer, a.error_type, a.no_error) (ground (arith, a.whole))

update_result-zero : (n : ℕ) → (update_result n ≡ 0) ↔ (n ≡ 0)
update_result-zero n = (λ h. ground (arith, h), λ h. ground (arith, h))

update_result-cases : (n : ℕ) → (update_result n ≡ 0) ⊎ (update_result n ≡ minus_one)
update_result-cases n =
    elim (n == 0)
      as (λ b. ((if b then 0 else minus_one) ≡ 0) ⊎ ((if b then 0 else minus_one) ≡ minus_one)) [
        | true ↦ inl refl
        | false ↦ inr refl
      ]

request-IsAcknowledged :
    (d : Macros) (sent : Bool) (answer : Option Answer)
    → ((h : Answer) → answer ≡ some h → h.error < 2 ^ 32)
    → (let x : Exchange = record { is_sent = sent; answer = answer } in
        (netlink_send_update_request d x ≡ 0) ↔ IsAcknowledged d x)
unfolding netlink_send_update_request
request-IsAcknowledged d false answer b = (λ h. ground (arith, h), λ h. ground (arith, h.0))
request-IsAcknowledged d true none b = (λ h. ground (arith, h), λ h. ground (arith, h.2))
request-IsAcknowledged d true (some h) b = (
  λ e. (refl, h, refl, update_answer-IsAck d h.is_ok h.nlmsg_type h.nlmsg_len h.error (b h refl) e),
  λ (sent, k, same, a). IsAck-update_answer d h (subst (IsAck d) (sym (some-injective h k same)) a),
)

-- Where an answer's `error` is in its range, `FO_add_a_route` and `FO_delete_a_route` with a target return 0
-- exactly when the request is sent and the answer to it is a whole and well-formed error message
-- whose `error` is 0, which is how the kernel acknowledges; otherwise they return -1.
pub updates-IsAcknowledged :
    (d : Macros) (x : Exchange) (t netmask g i m s : ℕ)
    → ((h : Answer) → x.answer ≡ some h → h.error < 2 ^ 32)
    → ((t == 0) && (g == 0) && is_negative i) ≡ false
    → (let added = (fo_add_a_route d x t netmask g i m s).1 in
        let deleted = (fo_delete_a_route d x t g i m s).1 in
        ((added ≡ 0) ↔ IsAcknowledged d x)
        × ((added ≡ 0) ⊎ (added ≡ minus_one))
        × (deleted ≡ added))
unfolding fo_add_a_route fo_delete_a_route
updates-IsAcknowledged d x t netmask g i m s b h =
    let n = netlink_send_update_request d x in
    let (to, from) = request-IsAcknowledged d x.is_sent x.answer b in
    let (z, z') = update_result-zero n in
    ((λ e. to (z e), λ a. z' (from a)), update_result-cases n, rw h refl)
