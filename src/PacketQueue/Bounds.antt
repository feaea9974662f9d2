-- ===== src/PacketQueue/Bounds.antt =====
-- kernel_module/ODS_kernel/packet_queue.c: the count of the packets, and its bound.
use unified_routing_framewor.Prelude.{
  ℕ, refl, zero, ◌-◌, ◌<◌, ◌≢◌, subst, ◌∙◌, inl, inr, List, [], ◌∷◌, Option, none, some,
  Option-cases, ==_self, ==_no, suc, ◌≤◌, ◌≡◌, ap, Bool, true, false, arith, ltb, ltb→lt, ◌==◌,
  length, if◌then◌else◌, Bool-cases,
}
use unified_routing_framewor.Prelude.Outcome.{done}
use unified_routing_framewor.PacketQueue.Release.{packet_dequeue-eq}
use unified_routing_framewor.PacketQueue.{
  take_last, cleanup_packet_queue, Element, Event, PacketQueue, transmit_rtinfo, transmit_failed,
  kfree_skb, note, packet_enqueue, pending_ip, ask_once, enqueue_or_free, receive_packet,
}

-- The count is the number of the packets, and at most the maximum.
pub record IsCounted (s : PacketQueue) : Type 0 where
  pub counted : s.len ≡ length s.packets
  pub bounded : s.len ≤ s.maxlen

note-IsCounted : (x : Event) (s : PacketQueue) → IsCounted s → IsCounted (note x s)
unfolding note
note-IsCounted x s c = record { counted = c.counted; bounded = c.bounded }

ask_once-IsCounted :
    (sent : Bool) (e : Element) (s : PacketQueue) → IsCounted s → IsCounted (ask_once sent e s)
unfolding ask_once
ask_once-IsCounted sent e s c =
    elim (pending_ip e.dst_ip s.packets)
      as (λ b.
        IsCounted
          (if b then s else note (if sent then transmit_rtinfo e else transmit_failed e) s)) [
            | true ↦ c
            | false ↦ note-IsCounted _ s c
          ]

packet_enqueue-IsCounted :
    (allocated : Bool) (e : Element) (s : PacketQueue)
    → IsCounted s
    → IsCounted (packet_enqueue allocated e s).1
unfolding packet_enqueue
packet_enqueue-IsCounted false e s c = c
packet_enqueue-IsCounted true e s c = elim (Bool-cases (ltb s.len s.maxlen)) [
  | inl h ↦
      rw h (record { counted = ap suc c.counted; bounded = omega (arith, ltb→lt s.len s.maxlen h) })
  | inr h ↦ rw h c
]

enqueue_or_free-IsCounted :
    (allocated : Bool) (e : Element) (s : PacketQueue)
    → IsCounted s
    → IsCounted (enqueue_or_free allocated e s)
unfolding enqueue_or_free
enqueue_or_free-IsCounted allocated e s c =
    let q = packet_enqueue-IsCounted allocated e s c in
    elim ((packet_enqueue allocated e s).0 == 0)
      as (λ b. IsCounted (
        if b
        then (packet_enqueue allocated e s).1
        else note (kfree_skb e.skb) (packet_enqueue allocated e s).1)) [
          | true ↦ q
          | false ↦ note-IsCounted _ _ q
        ]

pub receive_packet-IsCounted :
    (enqueue_flag sent allocated : Bool) (e : Element) (s : PacketQueue)
    → IsCounted s
    → IsCounted (receive_packet enqueue_flag sent allocated e s).1
unfolding receive_packet
receive_packet-IsCounted false sent allocated e s c = note-IsCounted _ s c
receive_packet-IsCounted true sent allocated e s c =
    enqueue_or_free-IsCounted allocated e (ask_once sent e s) (ask_once-IsCounted sent e s c)

-- What a search without a condition gives.
abbrev IsTaken : List Element → Option (Element × List Element) → Type 0
IsTaken l none = l ≡ []
IsTaken l (some (x, rest)) = length l ≡ suc (length rest)

take_last-step :
    (e : Element) (l : List Element) (o : Option (Element × List Element))
    → IsTaken l o
    → IsTaken (e ∷ l) (elim o as (λ x. Option (Element × List Element)) [
      | some (x, rest) ↦ some (x, e ∷ rest)
      | none ↦ some (e, l)
    ])
take_last-step e l none h = refl
take_last-step e l (some (x, rest)) h = ap suc h

take_last-IsTaken : (l : List Element) → IsTaken l (take_last (λ e. true) l)
unfolding take_last
take_last-IsTaken [] = refl
take_last-IsTaken (e ∷ l) = take_last-step e l (take_last (λ x. true) l) (take_last-IsTaken l)

cleanup_packet_queue-end :
    (fuel : ℕ) (s : PacketQueue) → s.len ≡ 0 → cleanup_packet_queue (suc fuel) s ≡ done s
unfolding cleanup_packet_queue
cleanup_packet_queue-end fuel s h = rw (ap (λ n. n == 0) h ∙ ==_self 0, cleanup_packet_queue) refl

cleanup_packet_queue-next :
    (fuel : ℕ) (s : PacketQueue) (e : Element) (rest : List Element)
    → s.len ≢ 0
    → take_last (λ x. true) s.packets ≡ some (e, rest)
    → cleanup_packet_queue (suc fuel) s
      ≡ cleanup_packet_queue fuel
          (note (kfree_skb e.skb) (record s { packets = rest; len = s.len - 1 }))
unfolding cleanup_packet_queue
cleanup_packet_queue-next fuel s e rest z h =
    rw (==_no s.len 0 z, cleanup_packet_queue, packet_dequeue-eq (λ x. true) s e rest h) refl

cleanup_packet_queue-empties :
    (fuel : ℕ) (s : PacketQueue)
    → IsCounted s
    → s.len < fuel
    → (s₁ : PacketQueue) × (cleanup_packet_queue fuel s ≡ done s₁)
      × (s₁.packets ≡ [])
      × IsCounted s₁
cleanup_packet_queue-empties zero s c h = ground (arith, h)
cleanup_packet_queue-empties (suc fuel) s c h =
    elim (Option-cases (take_last (λ x. true) s.packets)) [
      | inl e ↦
          let none_left = subst (IsTaken s.packets) e (take_last-IsTaken s.packets) in
          (s, cleanup_packet_queue-end fuel s (c.counted ∙ ap length none_left), none_left, c)
      | inr (p, e) ↦
          let one_less = subst (IsTaken s.packets) e (take_last-IsTaken s.packets) in
          let s₁ = record s { packets = p.1; len = s.len - 1 } in
          let c₁ = note-IsCounted (kfree_skb p.0.skb) s₁ (record {
            counted = omega (arith, c.counted, one_less);
            bounded = omega (arith, c.bounded);
          }) in
          let (s₂, k, empty, c₂) =
            cleanup_packet_queue-empties fuel (note (kfree_skb p.0.skb) s₁) c₁
              (unfold note in omega (arith, h, c.counted, one_less)) in
          (
            s₂,
            cleanup_packet_queue-next fuel s p.0 p.1 (omega (arith, c.counted, one_less)) e ∙ k,
            empty,
            c₂,
          )
    ]

-- Where the count of the queue is the number of its packets and at most the maximum, it is so after
-- `receive_packet`, whether the queue is in use or not, full or not, and each of the allocations succeeds
-- or not; and on fuel larger than the count `cleanup_packet_queue` returns, without an access through
-- NULL, and leaves an empty queue whose count is right.
pub operations-IsCounted :
    (enqueue_flag sent allocated : Bool) (e : Element) (fuel : ℕ) (s : PacketQueue)
    → IsCounted s
    → s.len < fuel
    → IsCounted (receive_packet enqueue_flag sent allocated e s).1
      × (s₁ : PacketQueue) × (cleanup_packet_queue fuel s ≡ done s₁)
      × (s₁.packets ≡ [])
      × IsCounted s₁
operations-IsCounted enqueue_flag sent allocated e fuel s c h =
    let (s₁, k, empty, c₁) = cleanup_packet_queue-empties fuel s c h in
    (receive_packet-IsCounted enqueue_flag sent allocated e s c, s₁, k, empty, c₁)
