-- ===== src/KernelModule/Messages.antt =====
-- kernel_module/ODS_kernel/info_transmission.c: what `recv_msg` does, by the kind of the message.
use unified_routing_framewor.Prelude.{
  ℕ, suc, ◌≤◌, ◌≡◌, inl, inr, refl, sym, ap, subst, ◌∙◌, List, [], ◌∷◌, none, some, true, false,
  arith, length, ◌==◌, ==_iff, Bool-cases, Option-cases,
}
use unified_routing_framewor.Prelude.Outcome.{done, fault, overrun, done-injective, done-fault}
use unified_routing_framewor.Netlink.{
  NetlinkMessage, RtResult, nlmsg_type_init, nlmsg_type_info, nlmsg_type_exit, read_rt_result,
}
use unified_routing_framewor.PacketQueue.{PacketQueue, send_packet}
use unified_routing_framewor.PacketQueue.Release.{Releases, send_packet-Releases}
use unified_routing_framewor.PacketQueue.Bounds.{IsCounted}
use unified_routing_framewor.KernelModule.{
  KernelModule, verdict_of, deal_init_msg, deal_exit_msg, deal_info_msg, recv_msg,
}

-- What `recv_msg` comes to: a message other than a reply leaves the queue alone.
pub recv_msg-other :
    (fuel : ℕ) (m : NetlinkMessage) (s : KernelModule)
    → (m.nlmsg_type == nlmsg_type_info) ≡ false
    → (s₁ : KernelModule) × (recv_msg fuel m s ≡ done s₁) × (s₁.queue ≡ s.queue)
unfolding recv_msg deal_init_msg deal_exit_msg
recv_msg-other fuel m s h = elim (Bool-cases (m.nlmsg_type == nlmsg_type_init)) [
  | inl i ↦ (deal_init_msg m s, rw i refl, refl)
  | inr i ↦ elim (Bool-cases (m.nlmsg_type == nlmsg_type_exit)) [
    | inl x ↦ (deal_exit_msg m s, rw (i, h, x) refl, refl)
    | inr x ↦ (s, rw (i, h, x) refl, refl)
  ]
]

-- A reply.
pub recv_msg-info :
    (fuel : ℕ) (n : NetlinkMessage) (r : RtResult) (k : KernelModule) (q : PacketQueue)
    → n.nlmsg_type ≡ nlmsg_type_info
    → read_rt_result n.payload ≡ some r
    → send_packet fuel r.now_ip (verdict_of r.result) k.queue ≡ done q
    → recv_msg fuel n k ≡ done (record k { queue = q })
unfolding recv_msg deal_info_msg
recv_msg-info fuel n r k q t e h = rw (t, recv_msg, e, deal_info_msg, h) refl

recv_msg-short :
    (fuel : ℕ) (m : NetlinkMessage) (s : KernelModule)
    → (m.nlmsg_type == nlmsg_type_info) ≡ true
    → read_rt_result m.payload ≡ none
    → recv_msg fuel m s ≡ fault overrun
unfolding recv_msg deal_info_msg
recv_msg-short fuel m s t e =
    rw ((==_iff m.nlmsg_type nlmsg_type_info).0 t, recv_msg, e, deal_info_msg) refl

-- On a reply that is not too short, where the count of the queue is right.
pub recv_msg-Releases :
    (m : NetlinkMessage) (r : RtResult) (s : KernelModule)
    → s.queue.len ≡ length s.queue.packets
    → (m.nlmsg_type == nlmsg_type_info) ≡ true
    → read_rt_result m.payload ≡ some r
    → (s₁ : KernelModule) × (recv_msg (suc s.queue.len) m s ≡ done s₁)
      × Releases r.now_ip (verdict_of r.result) s.queue s₁.queue
recv_msg-Releases m r s c t e =
    let (q, sent, released) =
      send_packet-Releases (suc s.queue.len) r.now_ip (verdict_of r.result) s.queue c
        (omega arith) in
    (
      record s { queue = q },
      recv_msg-info (suc s.queue.len) m r s q ((==_iff m.nlmsg_type nlmsg_type_info).0 t) e sent,
      released,
    )

-- What a message that is handled has done to the queue.
pub data Hears (m : NetlinkMessage) (s s₁ : KernelModule) : Type 0 where
  other : (m.nlmsg_type == nlmsg_type_info) ≡ false → s₁.queue ≡ s.queue → Hears m s s₁
  reply :
      (r : RtResult)
      → read_rt_result m.payload ≡ some r
      → (m.nlmsg_type == nlmsg_type_info) ≡ true
      → Releases r.now_ip (verdict_of r.result) s.queue s₁.queue
      → Hears m s s₁

pub recv_msg-Hears :
    (m : NetlinkMessage) (s s₁ : KernelModule)
    → IsCounted s.queue
    → recv_msg (suc s.queue.len) m s ≡ done s₁
    → Hears m s s₁
recv_msg-Hears m s s₁ c h = elim (Bool-cases (m.nlmsg_type == nlmsg_type_info)) [
  | inr t ↦
      let (s₂, e, q) = recv_msg-other (suc s.queue.len) m s t in
      other t (ap (λ x. x.queue) (done-injective (sym h ∙ e)) ∙ q)
  | inl t ↦ elim (Option-cases (read_rt_result m.payload)) [
    | inl e ↦ absurd (done-fault (sym (recv_msg-short (suc s.queue.len) m s t e) ∙ h))
    | inr (r, e) ↦
        let (s₂, k, released) = recv_msg-Releases m r s c.counted t e in
        reply r e t (
          subst (λ x. Releases r.now_ip (verdict_of r.result) s.queue x.queue)
            (done-injective (sym k ∙ h)) released)
  ]
]

read_rt_result-some : (l : List ℕ) → 8 ≤ length l → (r : RtResult) × (read_rt_result l ≡ some r)
unfolding read_rt_result
read_rt_result-some [] h = ground (arith, h)
read_rt_result-some (a ∷ []) h = ground (arith, h)
read_rt_result-some (a ∷ b ∷ []) h = ground (arith, h)
read_rt_result-some (a ∷ b ∷ c ∷ []) h = ground (arith, h)
read_rt_result-some (a ∷ b ∷ c ∷ d ∷ []) h = ground (arith, h)
read_rt_result-some (a ∷ b ∷ c ∷ d ∷ e ∷ []) h = ground (arith, h)
read_rt_result-some (a ∷ b ∷ c ∷ d ∷ e ∷ f ∷ []) h = ground (arith, h)
read_rt_result-some (a ∷ b ∷ c ∷ d ∷ e ∷ f ∷ g ∷ []) h = ground (arith, h)
read_rt_result-some (a ∷ b ∷ c ∷ d ∷ e ∷ f ∷ g ∷ x ∷ l) h = (_, refl)

-- A message of at least 8 bytes is handled.
pub recv_msg-done :
    (m : NetlinkMessage) (s : KernelModule)
    → s.queue.len ≡ length s.queue.packets
    → 8 ≤ length m.payload
    → (s₁ : KernelModule) × (recv_msg (suc s.queue.len) m s ≡ done s₁)
recv_msg-done m s c h = elim (Bool-cases (m.nlmsg_type == nlmsg_type_info)) [
  | inr t ↦ let (s₁, e, q) = recv_msg-other (suc s.queue.len) m s t in (s₁, e)
  | inl t ↦
      let (r, e) = read_rt_result-some m.payload h in
      let (s₁, k, x) = recv_msg-Releases m r s c t e in (s₁, k)
]
