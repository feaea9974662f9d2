-- ===== src/Requests.antt =====
-- LA_Client_aodv/rreq.cc and rrep.cc: making and receiving route requests and replies. `raw` is what
-- the memory of a fresh `RREP` object holds, which its constructor leaves as it is.
pub mod Decided
pub mod Once
use unified_routing_framewor.Prelude.{
  ℕ, ◌+◌, ◌*◌, ◌^◌, ◌%◌, Option, none, some, Bool, true, false, not, ◌&&◌, ltb, ◌==◌, if◌then◌else◌,
  to_u8, add32, add64, sub64,
}
use unified_routing_framewor.Prelude.Outcome.{Outcome, done, fault, hang}
use unified_routing_framewor.Params.{
  allowed_hello_loss, hello_interval, my_route_timeout, gen_rrep, fwd_rreq, send_rrep,
}
use unified_routing_framewor.RouteEntry.{add_to_precursor}
use unified_routing_framewor.RouteMap.{find}
use unified_routing_framewor.Packets.{Rreq, Rrep}
use unified_routing_framewor.Blacklist
use unified_routing_framewor.ForwardedRreqs
use unified_routing_framewor.Node.{Node}
use unified_routing_framewor.RoutingTable.{
  write, get_dest_seq_num, find_active_route, find_valid_route,
}
use unified_routing_framewor.RoutingTable.Updates.{
  reverse_route_update, forward_route_update, neighbor_update,
}

-- `createRREQ`
unfoldable pub create_rreq : ℕ → ℕ → Node → Rreq × Node
unfolding get_dest_seq_num
create_rreq dst flags s =
    let id = add32 s.rreq_id 1 in
    let seq = add32 s.local_seq_num 1 in
    (
      record {
        g_flag = if flags == 1 then 1 else 0;
        hop_cnt = 0;
        rreq_id = id;
        dest_ip = dst;
        dest_seq_num = get_dest_seq_num dst s;
        src_ip = s.my_ip;
        src_seq_num = seq;
      },
      record s { rreq_id = id; local_seq_num = seq },
    )

-- The request that goes on, in `recvRREQ`: with the greater sequence number, one hop further.
unfoldable pub forwarded : Rreq → Node → Rreq
forwarded r s =
    let known : ℕ = elim (find r.dest_ip s.rtable) [
      | none ↦ r.dest_seq_num
      | some e ↦ if ltb r.dest_seq_num e.dest_seq_num then e.dest_seq_num else r.dest_seq_num
    ] in
    record r { dest_seq_num = known; hop_cnt = to_u8 (r.hop_cnt + 1) }

-- The end of `recvRREQ`: answer or forward.
unfoldable pub answer_rreq : Rreq → Node → ℕ × Rreq × Node
answer_rreq r s =
    if r.dest_ip == s.my_ip
    then (
      gen_rrep,
      r,
      record s {
        local_seq_num =
            if ltb s.local_seq_num r.dest_seq_num then r.dest_seq_num else s.local_seq_num;
      },
    )
    else elim (find_valid_route r.dest_ip r.dest_seq_num s) [
      | some _ ↦ (gen_rrep, r, s)
      | none ↦ (fwd_rreq, forwarded r s, s)
    ]

-- `recvRREQ` behind its two first tests.
unfoldable pub accept_rreq : ℕ → Rreq → Node → ℕ × Rreq × Node
accept_rreq prev_hop r s =
    let s₁ =
      neighbor_update prev_hop r.src_ip (if r.src_ip == prev_hop then r.src_seq_num else 0)
        (add64 s.now (allowed_hello_loss * hello_interval)) s in
    if ForwardedRreqs.in_list r.src_ip r.rreq_id s₁.fw_rreq_list
    then (0, r, s₁)
    else let s₂ = record s₁ {
      fw_rreq_list = ForwardedRreqs.add_to_list s₁.now r.src_ip r.rreq_id s₁.fw_rreq_list;
    } in
      answer_rreq r (if r.src_ip == prev_hop then s₂ else reverse_route_update prev_hop r s₂)

-- `recvRREQ`: the result, the request as it was changed, and the new state.
unfoldable pub recv_rreq : ℕ → Rreq → Node → Outcome (ℕ × Rreq × Node)
recv_rreq prev_hop r s = elim (Blacklist.in_list s.black_list prev_hop) [
  | none ↦ fault hang
  | some true ↦ done (0, r, s)
  | some false ↦ if r.src_ip == s.my_ip then done (0, r, s) else done (accept_rreq prev_hop r s)
]

-- A difference of times that is stored into a `u_int32_t`.
abbrev pub time_left : ℕ → ℕ → ℕ
time_left lifetime now = sub64 lifetime now % 2 ^ 32

-- The flag that a reply gets at this node.
abbrev pub ack_flag : Node → ℕ
ack_flag s = if s.rrep_ack_flag then 1 else 0

-- `addToPrecursor` through the pointer of `findActiveRoute(dest)`.
unfoldable pub add_precursor : ℕ → ℕ → Node → Node
add_precursor dest precur s = elim (find_active_route dest s) [
  | none ↦ s
  | some e ↦ write (add_to_precursor precur e) s
]

-- `createRREP`
unfoldable pub create_rrep : Rrep → ℕ → Rreq → Node → Rrep × Node
create_rrep raw prev_hop r s =
    let base : Rrep = record raw {
      a_flag = ack_flag s;
      prefix_size = 0;
      dest_ip = r.dest_ip;
      src_ip = r.src_ip;
    } in
    if r.dest_ip == s.my_ip
    then (
      record base { dest_seq_num = s.local_seq_num; hop_cnt = 0; lifetime = my_route_timeout },
      s,
    )
    else elim (find_active_route r.dest_ip s) [
      | none ↦ (base, s)
      | some e ↦ (
        record base {
          dest_seq_num = e.dest_seq_num;
          hop_cnt = e.hop_cnt;
          lifetime = time_left e.lifetime s.now;
        },
        add_precursor r.src_ip e.next_hop (write (add_to_precursor prev_hop e) s),
      )
    ]

-- `createGRREP`
unfoldable pub create_grrep : Rrep → ℕ → ℕ → ℕ → Node → Rrep
create_grrep raw org_rreq_src org_rreq_dst seq_num s =
    let base : Rrep = record raw {
      a_flag = ack_flag s;
      prefix_size = 0;
      dest_ip = org_rreq_src;
      dest_seq_num = seq_num;
      src_ip = org_rreq_dst;
    } in
    elim (find_active_route org_rreq_src s) [
      | none ↦ base
      | some e ↦ record base { hop_cnt = e.hop_cnt; lifetime = time_left e.lifetime s.now }
    ]

-- The precursor update of `recvRREP`.
unfoldable pub note_precursor : Rrep → Node → Node
note_precursor r s = elim (find_active_route r.dest_ip s) [
  | none ↦ s
  | some d ↦ elim (find_active_route r.src_ip s) [
    | none ↦ s
    | some e ↦ write (add_to_precursor e.next_hop d) s
  ]
]

-- `recvRREP`: the result, the reply as it was changed, and the new state.
unfoldable pub recv_rrep : ℕ → Rrep → Node → ℕ × Rrep × Node
recv_rrep prev_hop r s =
    let s₁ =
      neighbor_update prev_hop r.src_ip (if r.dest_ip == prev_hop then r.dest_seq_num else 0)
        (add64 s.now (allowed_hello_loss * hello_interval)) s in
    let s₂ = if r.dest_ip == prev_hop then s₁ else forward_route_update prev_hop r s₁ in
    if not (r.src_ip == s₂.my_ip) && not (r.src_ip == 0)
    then (
      send_rrep,
      record r { hop_cnt = to_u8 (r.hop_cnt + 1); a_flag = ack_flag s₂ },
      note_precursor r s₂,
    )
    else (0, r, s₂)
