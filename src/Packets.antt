-- ===== src/Packets.antt =====
-- The messages of the protocol: LA_Client_aodv/rreq.h, rrep.h, rerr.h and rrepAck.h. A bit field is
-- a number; the fields that the code sets to 0 and never reads (J, R, the reserved ones) are left out.
use unified_routing_framewor.Prelude.{ℕ, List}

-- `class RREQ`, less its type.
pub record Rreq : Type 0 where
  pub g_flag : ℕ
  pub hop_cnt : ℕ
  pub rreq_id : ℕ
  pub dest_ip : ℕ
  pub dest_seq_num : ℕ
  pub src_ip : ℕ
  pub src_seq_num : ℕ

-- `class RREP`, less its type.
pub record Rrep : Type 0 where
  pub a_flag : ℕ
  pub prefix_size : ℕ
  pub hop_cnt : ℕ
  pub dest_ip : ℕ
  pub dest_seq_num : ℕ
  pub src_ip : ℕ
  pub lifetime : ℕ

-- `class unrchDest`.
pub record UnrchDest : Type 0 where
  pub dest_ip : ℕ
  pub dest_seq_num : ℕ

-- `class RERR`, less its type.
pub record Rerr : Type 0 where
  pub n_flag : ℕ
  pub dest_cnt : ℕ
  pub unreachable_dest : List UnrchDest

-- What goes out through `sendPacket`.
pub data Packet : Type 0 where
  rreq : Rreq → Packet
  rrep : Rrep → Packet
  rerr : Rerr → Packet
  rrep_ack : Packet
