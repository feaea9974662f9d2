-- ===== src/KernelModule/Steps.antt =====
-- kernel_module/ODS_kernel: the module under packets and messages that come in any order.
use unified_routing_framewor.Prelude.{
  ℕ, suc, ◌≤◌, ◌≡◌, ◌≢◌, ◌⊎◌, inl, inr, refl, sym, subst, ◌∙◌, List, some, Bool, true, arith,
  length, ◌==◌, ==_iff, Bool-cases,
}
use mathlib.Core.Option.{some-injective}
use unified_routing_framewor.Prelude.Outcome.{done}
use unified_routing_framewor.Netlink.{
  NetlinkMessage, RtResult, nlmsg_type_info, packet_from_local, packet_from_other, read_rt_result,
}
use unified_routing_framewor.PacketQueue.{Element, PacketQueue, receive_packet, init_packet_queue}
use unified_routing_framewor.PacketQueue.Bounds.{IsCounted, receive_packet-IsCounted}
use unified_routing_framewor.PacketQueue.Asks.{Asks, Asks-stays, Asks-trans}
use unified_routing_framewor.PacketQueue.Arrivals.{receive_packet-Asks}
use unified_routing_framewor.PacketQueue.Replies.{Releases-Asks, Releases-IsCounted}
use unified_routing_framewor.KernelModule.Messages.{other, reply, recv_msg-Hears, recv_msg-done}
use unified_routing_framewor.KernelModule.{
  KernelModule, init_mymodule, judgment_packet, check_packet, verdict_of, recv_msg,
}

-- A packet comes to one of the hooks, or a message from a process that `Allowed` lets through. The
-- fuel of `recv_msg` is one more than the count of the queue.
pub data Step (Allowed : NetlinkMessage → Type 0) (s s₁ : KernelModule) : Type 0 where
  packet :
      (hookindex : ℕ) (dst_dev : List ℕ) (sent allocated : Bool) (skb : Element)
      → s₁ ≡ (check_packet hookindex dst_dev sent allocated skb s).1
      → Step Allowed s s₁
  message :
      (m : NetlinkMessage)
      → Allowed m
      → recv_msg (suc s.queue.len) m s ≡ done s₁
      → Step Allowed s s₁

pub data Run (Allowed : NetlinkMessage → Type 0) (s : KernelModule) : KernelModule → Type 0 where
  here : Run Allowed s s
  next : {t u : KernelModule} → Run Allowed s t → Step Allowed t u → Run Allowed s u

-- The message is not a reply for the destination.
abbrev pub IsSilent : ℕ → NetlinkMessage → Type 0
IsSilent dst m =
    (m.nlmsg_type ≢ nlmsg_type_info)
    ⊎ ((r : RtResult) × (read_rt_result m.payload ≡ some r) × (r.now_ip ≢ dst))

-- The queue is left alone, has got a packet, or has released the packets for one destination.
data Does (s : KernelModule) (q : PacketQueue) : Type 0 where
  nothing : q ≡ s.queue → Does s q
  receives :
      (flag sent allocated : Bool) (e : Element)
      → q ≡ (receive_packet flag sent allocated e s.queue).1
      → Does s q

check_packet-Does :
    (hookindex : ℕ) (dst_dev : List ℕ) (sent allocated : Bool) (skb : Element) (s : KernelModule)
    → Does s (check_packet hookindex dst_dev sent allocated skb s).1.queue
unfolding check_packet
check_packet-Does hookindex dst_dev sent allocated skb s =
    elim (Bool-cases (judgment_packet dst_dev)) [
      | inl j ↦ rw j (nothing refl)
      | inr j ↦ elim (Bool-cases (hookindex == packet_from_local)) [
        | inl l ↦ rw (j, l) (receives s.transmission_flag sent allocated _ refl)
        | inr l ↦ elim (Bool-cases (hookindex == packet_from_other)) [
          | inl o ↦ rw (j, l, o) (receives s.transmission_flag sent allocated _ refl)
          | inr o ↦ rw (j, l, o) (nothing refl)
        ]
      ]
    ]

Does-IsCounted : (s : KernelModule) (q : PacketQueue) → IsCounted s.queue → Does s q → IsCounted q
Does-IsCounted s q c (nothing e) = subst IsCounted (sym e) c
Does-IsCounted s q c (receives flag sent allocated x e) =
    subst IsCounted (sym e) (receive_packet-IsCounted flag sent allocated x s.queue c)

Does-Asks : (dst : ℕ) (s : KernelModule) (q : PacketQueue) → Does s q → Asks dst s.queue q
Does-Asks dst s q (nothing e) =
    subst (Asks dst s.queue) (sym e) (Asks-stays dst _ _ refl refl refl refl)
Does-Asks dst s q (receives flag sent allocated x e) =
    subst (Asks dst s.queue) (sym e) (receive_packet-Asks dst flag sent allocated x s.queue)

Step-IsCounted :
    {Allowed : NetlinkMessage → Type 0} {s s₁ : KernelModule}
    → IsCounted s.queue
    → Step Allowed s s₁
    → IsCounted s₁.queue
Step-IsCounted {s = s} c (packet i d b a e h) =
    subst (λ x. IsCounted x.queue) (sym h) (Does-IsCounted s _ c (check_packet-Does i d b a e s))
Step-IsCounted {s = s} {s₁ = s₁} c (message m ok h) = elim (recv_msg-Hears m s s₁ c h) [
  | other t e ↦ subst IsCounted (sym e) c
  | reply r e t x ↦ Releases-IsCounted r.now_ip (verdict_of r.result) s.queue s₁.queue c x
]

Run-IsCounted :
    {Allowed : NetlinkMessage → Type 0} {s s₁ : KernelModule}
    → IsCounted s.queue
    → Run Allowed s s₁
    → IsCounted s₁.queue
Run-IsCounted c here = c
Run-IsCounted c (next r st) = Step-IsCounted (Run-IsCounted c r) st

silent-other :
    (dst : ℕ) (m : NetlinkMessage) (r : RtResult)
    → read_rt_result m.payload ≡ some r
    → (m.nlmsg_type == nlmsg_type_info) ≡ true
    → IsSilent dst m
    → r.now_ip ≢ dst
silent-other dst m r e t (inl z) = absurd (z ((==_iff m.nlmsg_type nlmsg_type_info).0 t))
silent-other dst m r e t (inr (r', e', z)) =
    subst (λ x. x.now_ip ≢ dst) (some-injective r' r (sym e' ∙ e)) z

Step-Asks :
    (dst : ℕ) {s s₁ : KernelModule}
    → IsCounted s.queue
    → Step (IsSilent dst) s s₁
    → Asks dst s.queue s₁.queue
Step-Asks dst {s} c (packet i d b a e h) =
    subst (λ x. Asks dst s.queue x.queue) (sym h)
      (Does-Asks dst s _ (check_packet-Does i d b a e s))
Step-Asks dst {s} {s₁} c (message m ok h) = elim (recv_msg-Hears m s s₁ c h) [
  | other t e ↦ subst (Asks dst s.queue) (sym e) (Asks-stays dst _ _ refl refl refl refl)
  | reply r e t x ↦
      Releases-Asks dst r.now_ip (verdict_of r.result) s.queue s₁.queue
        (silent-other dst m r e t ok) x
]

-- Where the count of the queue is right, however many packets come in and messages other than a reply
-- for the destination, in whatever order: the packets that wait for the destination keep
-- waiting, in their order, behind the newer ones; if one waits, no further request for
-- the destination is sent or tried; and if none waits, then a request is sent, or one could not be
-- sent for want of memory, or none waits still.
pub Run-Asks :
    (dst : ℕ) {s s₁ : KernelModule}
    → IsCounted s.queue
    → Run (IsSilent dst) s s₁
    → Asks dst s.queue s₁.queue
Run-Asks dst c here = Asks-stays dst _ _ refl refl refl refl
Run-Asks dst {s} c (next r st) =
    Asks-trans dst s.queue _ _ (Run-Asks dst c r) (Step-Asks dst (Run-IsCounted c r) st)

init_mymodule-IsCounted : (memory : PacketQueue) → IsCounted (init_mymodule memory).queue
unfolding init_mymodule init_packet_queue
init_mymodule-IsCounted memory = record { counted = refl; bounded = omega arith }

-- After `init_mymodule`, whatever packets and messages have come in, `recv_msg` returns on each message of at
-- least 8 bytes, with fuel one more than the count of the queue, and leaves a queue whose count is
-- the number of its packets and at most the maximum.
pub recv_msg-IsCounted :
    (memory : PacketQueue) (s : KernelModule) (m : NetlinkMessage)
    → Run (λ n. Unit) (init_mymodule memory) s
    → 8 ≤ length m.payload
    → (s₁ : KernelModule) × (recv_msg (suc s.queue.len) m s ≡ done s₁) × IsCounted s₁.queue
recv_msg-IsCounted memory s m run h =
    let c = Run-IsCounted (init_mymodule-IsCounted memory) run in
    let (s₁, e) = recv_msg-done m s c.counted h in
    (s₁, e, Step-IsCounted {Allowed = λ n. Unit} c (message m tt e))
