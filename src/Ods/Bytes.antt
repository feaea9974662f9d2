-- ===== src/Ods/Bytes.antt =====
-- lib/ODS and kernel_module/ODS_kernel: `struct rt_info` as the kernel module writes it and the library
-- reads it.
use unified_routing_framewor.Prelude.{
  ℕ, ◌^◌, ◌<◌, ◌≡◌, refl, sym, ap, ◌∙◌, List, [], ◌∷◌, some, arith, length,
}
use unified_routing_framewor.LaMessage.{word_of-word_bytes}
use unified_routing_framewor.Netlink.{RtInfo, rt_info_bytes, read_rt_info}
use unified_routing_framewor.Ods.{ods_recv_msg}

read_rt_info-rt_info_bytes :
    (memory : ℕ → ℕ) (d s p t a b c x y z : ℕ)
    → d < 2 ^ 32
    → s < 2 ^ 32
    → p < 2 ^ 8
    → t < 2 ^ 32
    → (let i : RtInfo = record {
      dst_ip = d;
      src_ip = s;
      protocol = p;
      packet_source_type = t;
      mac_dst_addr = a ∷ b ∷ c ∷ x ∷ y ∷ z ∷ [];
    } in
        read_rt_info (rt_info_bytes memory i) ≡ i)
unfolding read_rt_info rt_info_bytes
read_rt_info-rt_info_bytes memory d s p t a b c x y z hd hs hp ht =
    ground (arith, word_of-word_bytes d hd, word_of-word_bytes s hs, word_of-word_bytes t ht, hp)

six : (l : List ℕ) → length l ≡ 6 → (a b c x y z : ℕ) × (l ≡ a ∷ b ∷ c ∷ x ∷ y ∷ z ∷ [])
six [] h = ground (arith, h)
six (a ∷ []) h = ground (arith, h)
six (a ∷ b ∷ []) h = ground (arith, h)
six (a ∷ b ∷ c ∷ []) h = ground (arith, h)
six (a ∷ b ∷ c ∷ x ∷ []) h = ground (arith, h)
six (a ∷ b ∷ c ∷ x ∷ y ∷ []) h = ground (arith, h)
six (a ∷ b ∷ c ∷ x ∷ y ∷ z ∷ []) h = (a, b, c, x, y, z, refl)
six (a ∷ b ∷ c ∷ x ∷ y ∷ z ∷ w ∷ l) h = ground (arith, h)

-- What `struct rt_info` can hold.
pub record IsInfo (i : RtInfo) : Type 0 where
  pub dst_bound : i.dst_ip < 2 ^ 32
  pub src_bound : i.src_ip < 2 ^ 32
  pub protocol_bound : i.protocol < 2 ^ 8
  pub source_bound : i.packet_source_type < 2 ^ 32
  pub mac_size : length i.mac_dst_addr ≡ 6

-- The reader of `struct rt_info` gets back each field, whatever stands between the fields.
pub read_rt_info-back :
    (memory : ℕ → ℕ) (i : RtInfo) → IsInfo i → ods_recv_msg (some (rt_info_bytes memory i)) ≡ i
unfolding ods_recv_msg
read_rt_info-back memory i v =
    let (a, b, c, x, y, z, e) = six i.mac_dst_addr v.mac_size in
    let t : RtInfo = record i { mac_dst_addr = a ∷ b ∷ c ∷ x ∷ y ∷ z ∷ [] } in
    let same : i ≡ t = ap (λ l. record i { mac_dst_addr = l }) e in
    ap (λ j. read_rt_info (rt_info_bytes memory j)) same
    ∙ read_rt_info-rt_info_bytes memory i.dst_ip i.src_ip i.protocol i.packet_source_type a b c x y
        z v.dst_bound v.src_bound v.protocol_bound v.source_bound
    ∙ sym same
