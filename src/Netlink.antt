-- ===== src/Netlink.antt =====
-- kernel_module/ODS_kernel/info_transmission.h and lib/ODS/ods_userspace_netlink.h: the messages
-- between the kernel module and the library ODS, and their bytes. An `int` is its 32 bits, a word is
-- stored with its low byte first, and the compiler aligns the fields to their sizes.
use unified_routing_framewor.Prelude.{
  ℕ, ◌+◌, ◌%◌, List, [], ◌∷◌, ◌++◌, Option, none, some, get_elem?,
}
use unified_routing_framewor.LaMessage.{word_bytes, word_of}

abbrev pub nlmsg_type_init : ℕ
nlmsg_type_init = 0

abbrev pub nlmsg_type_info : ℕ
nlmsg_type_info = 1

abbrev pub nlmsg_type_exit : ℕ
nlmsg_type_exit = 2

abbrev pub max_payload : ℕ
max_payload = 1024

abbrev pub ip_found : ℕ
ip_found = 1

abbrev pub packet_from_local : ℕ
packet_from_local = 0

abbrev pub packet_from_other : ℕ
packet_from_other = 1

-- `struct nlmsghdr`, with the fields that are used, and what stands behind it.
pub record NetlinkMessage : Type 0 where
  pub nlmsg_type : ℕ
  pub nlmsg_pid : ℕ
  pub payload : List ℕ

-- `struct rt_info`
pub record RtInfo : Type 0 where
  pub dst_ip : ℕ
  pub src_ip : ℕ
  pub protocol : ℕ
  pub packet_source_type : ℕ
  pub mac_dst_addr : List ℕ

-- `struct rt_result`
pub record RtResult : Type 0 where
  pub now_ip : ℕ
  pub result : ℕ

-- The bytes of a `struct rt_info` object; `memory` is what the object's memory holds between the fields.
unfoldable pub rt_info_bytes : (ℕ → ℕ) → RtInfo → List ℕ
rt_info_bytes memory i =
    word_bytes i.dst_ip
    ++ word_bytes i.src_ip
    ++ i.protocol % 256 ∷ memory 9 ∷ memory 10 ∷ memory 11 ∷ []
    ++ word_bytes i.packet_source_type
    ++ i.mac_dst_addr
    ++ memory 22 ∷ memory 23 ∷ []

-- A byte of a buffer that was set to 0 before a message was stored in it.
abbrev pub byte_at : List ℕ → ℕ → ℕ
byte_at l i = elim (get_elem? l i) [ none ↦ 0 | some b ↦ b ]

abbrev pub word_at : List ℕ → ℕ → ℕ
word_at l i = word_of (byte_at l i) (byte_at l (i + 1)) (byte_at l (i + 2)) (byte_at l (i + 3))

-- The fields of the `struct rt_info` that is copied from such a buffer.
unfoldable pub read_rt_info : List ℕ → RtInfo
read_rt_info l = record {
  dst_ip = word_at l 0;
  src_ip = word_at l 4;
  protocol = byte_at l 8;
  packet_source_type = word_at l 12;
  mac_dst_addr =
      byte_at l 16 ∷ byte_at l 17 ∷ byte_at l 18 ∷ byte_at l 19 ∷ byte_at l 20 ∷ byte_at l 21 ∷ [];
}

unfoldable pub rt_result_bytes : RtResult → List ℕ
rt_result_bytes r = word_bytes r.now_ip ++ word_bytes r.result

-- The fields of a `struct rt_result` at the beginning of a message; `none` where it is shorter.
unfoldable pub read_rt_result : List ℕ → Option RtResult
read_rt_result (a₀ ∷ a₁ ∷ a₂ ∷ a₃ ∷ b₀ ∷ b₁ ∷ b₂ ∷ b₃ ∷ _) =
    some (record { now_ip = word_of a₀ a₁ a₂ a₃; result = word_of b₀ b₁ b₂ b₃ })
read_rt_result _ = none
