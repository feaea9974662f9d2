-- ===== src/Daemon/Discovery/Progress.antt =====
-- Route discovery comes to an end: how many times a request is sent again.
use unified_routing_framewor.Prelude.{
  ℕ, zero, ap, suc, ◌+◌, ◌-◌, ◌<◌, ◌≤◌, ◌≡◌, ◌∙◌, ◌⊎◌, inl, inr, some, Bool, true, false, arith,
  ltb, add32, Bool-cases,
}
use unified_routing_framewor.Params.{ttl_threshold, rreq_retries, broadcast_addr}
use unified_routing_framewor.Packets.{Packet, rreq}
use unified_routing_framewor.PendingRreqs.{RreqListEntry, in_list, delete_from_list}
use unified_routing_framewor.PendingRreqs.Laws.{in_list-dest_ip, in_list-write_entry}
use unified_routing_framewor.TimerQueue.{Handler, TimerData}
use unified_routing_framewor.Node.{
  Node, emit, set_real_timer, send_packet, hops, feedback, ip_nofound,
}
use unified_routing_framewor.Node.Timers.{set_timer, timer_add, set_lowest_timer}
use unified_routing_framewor.RoutingTable.{get_dest_seq_num}
use unified_routing_framewor.Daemon.Discovery.{
  set_rreq_timer, next_attempt, send_again, resend_request,
}

-- A bound on the attempts that are left: the steps of the ttl below the threshold, and the retries.
abbrev pub attempts_left : RreqListEntry → ℕ
attempts_left e = (ttl_threshold - e.ttl) + (suc rreq_retries - e.retries)

next_attempt-less :
    (ring : Bool) (e : RreqListEntry)
    → e.retries ≤ rreq_retries
    → attempts_left (next_attempt ring e) < attempts_left e
unfolding next_attempt
next_attempt-less ring e h = ground arith

send_packet-rreq_list :
    (dst ttl : ℕ) (p : Packet) (s : Node) → (send_packet dst (hops ttl) p s).rreq_list ≡ s.rreq_list
unfolding send_packet emit
send_packet-rreq_list dst ttl p s = ground arith

set_lowest_timer-rreq_list :
    (time_val : ℕ) (s : Node) → (set_lowest_timer time_val s).rreq_list ≡ s.rreq_list
unfolding set_lowest_timer set_real_timer emit
set_lowest_timer-rreq_list time_val s = ground arith

set_timer-rreq_list :
    (time_val : ℕ) (h : Handler) (d : TimerData) (s : Node)
    → (set_timer time_val h d s).rreq_list ≡ s.rreq_list
unfolding set_timer timer_add
set_timer-rreq_list time_val h d s = set_lowest_timer-rreq_list time_val (timer_add time_val h d s)

set_rreq_timer-rreq_list :
    (dst ttl : ℕ) (s : Node) → (set_rreq_timer dst ttl s).rreq_list ≡ s.rreq_list
unfolding set_rreq_timer
set_rreq_timer-rreq_list dst ttl s = set_timer-rreq_list _ _ _ s

-- The entry that `resendRREQ` leaves in the list.
abbrev renewed : ℕ → RreqListEntry → Node → RreqListEntry
renewed dst e s = record e {
  rreq_ob = record e.rreq_ob {
    rreq_id = add32 s.rreq_id 1;
    dest_seq_num = get_dest_seq_num dst s;
    src_seq_num = add32 s.local_seq_num 1;
  };
}

send_again-in_list :
    (dst : ℕ) (e d : RreqListEntry) (s : Node)
    → e.rreq_ob.dest_ip ≡ dst
    → in_list dst s.rreq_list ≡ some d
    → in_list dst (send_again dst e s).rreq_list ≡ some (renewed dst e s)
unfolding send_again
send_again-in_list dst e d s x h =
    ap (in_list dst) (
      send_packet-rreq_list broadcast_addr e.ttl (rreq (renewed dst e s).rreq_ob) _
      ∙ set_rreq_timer-rreq_list dst e.ttl _)
    ∙ in_list-write_entry dst (renewed dst e s) s.rreq_list d x h

next_attempt-dest_ip :
    (ring : Bool) (e : RreqListEntry) → (next_attempt ring e).rreq_ob.dest_ip ≡ e.rreq_ob.dest_ip
unfolding next_attempt
next_attempt-dest_ip ring e = ground arith

-- The call gives up: the agent hears of it and the request leaves the list.
abbrev pub GivesUp : ℕ → Node → Type 0
GivesUp dst s =
    resend_request dst s
    ≡ feedback dst ip_nofound (record s { rreq_list = delete_from_list dst s.rreq_list })

module _ (dst : ℕ) (e : RreqListEntry) (s : Node) (h : in_list dst s.rreq_list ≡ some e) where
  resend_request-GivesUp :
      ltb rreq_retries (next_attempt s.expanding_ring_search e).retries ≡ true → GivesUp dst s
  unfolding resend_request
  resend_request-GivesUp b = ground arith

  resend_request-sends :
      ltb rreq_retries (next_attempt s.expanding_ring_search e).retries ≡ false
      → resend_request dst s ≡ send_again dst (next_attempt s.expanding_ring_search e) s
  unfolding resend_request
  resend_request-sends b = ground arith

module _ (dst : ℕ) (e : RreqListEntry) (s : Node) (h : in_list dst s.rreq_list ≡ some e)
    (r : e.retries ≤ rreq_retries) where
  resend_request-in_list :
      GivesUp dst s
      ⊎ ((e' : RreqListEntry) × (in_list dst (resend_request dst s).rreq_list ≡ some e')
          × (e'.retries ≤ rreq_retries)
          × (attempts_left e' < attempts_left e))
  resend_request-in_list =
      elim (Bool-cases (ltb rreq_retries (next_attempt s.expanding_ring_search e).retries)) [
        | inl b ↦ inl (resend_request-GivesUp dst e s h b)
        | inr b ↦ inr (
          renewed dst (next_attempt s.expanding_ring_search e) s,
          rw (resend_request-sends dst e s h b) (
              send_again-in_list dst (next_attempt s.expanding_ring_search e) e s
                (next_attempt-dest_ip s.expanding_ring_search e
                  ∙ in_list-dest_ip dst s.rreq_list e h)
                h),
          ground arith,
          next_attempt-less s.expanding_ring_search e r,
        )
      ]

-- The state after so many calls of `resendRREQ` for a destination.
pub resends : ℕ → ℕ → Node → Node
resends zero dst s = s
resends (suc n) dst s = resends n dst (resend_request dst s)

resends-GivesUp :
    (fuel dst : ℕ) (e : RreqListEntry) (s : Node)
    → in_list dst s.rreq_list ≡ some e
    → e.retries ≤ rreq_retries
    → attempts_left e ≤ fuel
    → (n : ℕ) × (n ≤ fuel) × GivesUp dst (resends n dst s)
unfolding resends
resends-GivesUp zero dst e s h r f = elim (resend_request-in_list dst e s h r) [
  | inl g ↦ (0, omega arith, g)
  | inr (e', x, y, z) ↦ absurd (omega arith)
]
resends-GivesUp (suc fuel) dst e s h r f = elim (resend_request-in_list dst e s h r) [
  | inl g ↦ (0, omega arith, g)
  | inr (e', x, y, z) ↦
      (let (n, m, g) = resends-GivesUp fuel dst e' (resend_request dst s) x y (omega arith) in
        (suc n, omega arith, g))
]

-- A request that waits for its reply with at most the allowed retries is given up after at most ten
-- further calls of `resendRREQ` without one: that call tells the agent that there is no route, and
-- takes the request from the list.
pub resends-end :
    (dst : ℕ) (e : RreqListEntry) (s : Node)
    → in_list dst s.rreq_list ≡ some e
    → e.retries ≤ rreq_retries
    → (n : ℕ) × (n ≤ 10) × GivesUp dst (resends n dst s)
resends-end dst e s h r = resends-GivesUp 10 dst e s h r (omega arith)
