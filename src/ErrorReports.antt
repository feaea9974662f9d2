-- ===== src/ErrorReports.antt =====
-- `generateRERR` of LA_Client_aodv/aodv.cc, and `setUnrchDest` and `setNFlag` of rerr.h.
pub mod Wire
use unified_routing_framewor.Prelude.{
  ℕ, ◌<◌, List, [], ◌∷◌, ◌++◌, Option, none, some, Bool, true, false, ◌||◌, ltb, ◌==◌,
  if◌then◌else◌,
}
use unified_routing_framewor.Params.{broadcast_addr}
use unified_routing_framewor.RouteEntry.{RtableEntry, get_prec_cnt, get_prec_addr}
use unified_routing_framewor.RouteMap.{find}
use unified_routing_framewor.Packets.{Rerr, UnrchDest, rerr}
use unified_routing_framewor.Node.{Node, hops, send_packet}

-- `RERR()`
abbrev pub empty_rerr : Rerr
empty_rerr = record { n_flag = 0; dest_cnt = 0; unreachable_dest = [] }

unfoldable pub set_unrch_dest : ℕ → ℕ → Rerr → Rerr
set_unrch_dest dst seq r = record r {
  unreachable_dest = r.unreachable_dest ++ record { dest_ip = dst; dest_seq_num = seq } ∷ [];
}

unfoldable pub set_n_flag : ℕ → Rerr → Rerr
set_n_flag val r = record r { n_flag = if val == 1 then 1 else 0 }

-- The report about one destination.
abbrev pub one_dest_rerr : ℕ → ℕ → ℕ → Rerr
one_dest_rerr dst seq_num n_flag = record {
  n_flag = if n_flag == 1 then 1 else 0;
  dest_cnt = 1;
  unreachable_dest = record { dest_ip = dst; dest_seq_num = seq_num } ∷ [];
}

-- The part of `generateRERR` behind its test: to the one precursor, or to all neighbours.
unfoldable pub send_rerr : Option ℕ → ℕ → Rerr → Node → Node
unfolding send_packet
send_rerr prec_addr prec_cnt r s =
    if prec_cnt == 1
    then elim prec_addr [ none ↦ s | some a ↦ send_packet a (hops 1) (rerr r) s ]
    else send_packet broadcast_addr (hops 1) (rerr r) s

unfoldable pub generate_rerr : ℕ → ℕ → Bool → Node → Node
unfolding send_rerr get_prec_cnt get_prec_addr find
generate_rerr dst n_flag brd_flag s = elim (find dst s.rtable) [
  | none ↦ if brd_flag then send_rerr none 0 (one_dest_rerr dst 0 n_flag) s else s
  | some e ↦
      if ltb 0 (get_prec_cnt e) || brd_flag
      then send_rerr (get_prec_addr e) (get_prec_cnt e) (one_dest_rerr dst e.dest_seq_num n_flag) s
      else s
]
