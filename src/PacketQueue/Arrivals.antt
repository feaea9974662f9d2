-- ===== src/PacketQueue/Arrivals.antt =====
-- kernel_module/ODS_kernel/packet_queue.c, `receive_packet`: what it does to the packets and the
-- requests for a destination.
use unified_routing_framewor.Prelude.{
  ℕ, suc, ◌<◌, ◌≡◌, ◌⊎◌, inl, inr, refl, ap, ◌∙◌, List, [], ◌∷◌, ◌++◌, Bool, true, false, arith,
  not, ◌&&◌, ◌≤◌, ◌==◌, ==_iff, if◌then◌else◌, Bool-cases,
}
use unified_routing_framewor.PacketQueue.{
  Element, Event, PacketQueue, note, packet_enqueue, pending_ip, ask_once, enqueue_or_free,
  receive_packet,
}
use unified_routing_framewor.PacketQueue.Release.{meant_for}
use unified_routing_framewor.PacketQueue.Requests.{
  requests, failures, IsUnfreed, requests-IsUnfreed, failures-IsUnfreed, count-free,
  enqueue_or_free-count, ask_once-packets, ask_once-pending,
}
use unified_routing_framewor.PacketQueue.Asks.{Asks, Asks-stays}

-- The packets after `enqueue_or_free`.
enqueue_or_free-packets :
    (allocated : Bool) (e : Element) (s : PacketQueue)
    → ((enqueue_or_free allocated e s).packets ≡ s.packets)
      ⊎ ((enqueue_or_free allocated e s).packets ≡ e ∷ s.packets)
unfolding enqueue_or_free packet_enqueue note
enqueue_or_free-packets allocated e s = ground arith

pub meant_for-other :
    (dst : ℕ) (e : Element) (l : List Element)
    → (e.dst_ip == dst) ≡ false
    → (meant_for dst (e ∷ l) ≡ meant_for dst l) × (pending_ip dst (e ∷ l) ≡ pending_ip dst l)
unfolding meant_for pending_ip
meant_for-other dst e l h =
    (rw h refl, elim (Bool-cases (pending_ip dst l)) [ inl p ↦ rw p refl | inr p ↦ rw (p, h) refl ])

pending_ip-again :
    (dst : ℕ) (e : Element) (l : List Element)
    → pending_ip dst l ≡ true
    → pending_ip dst (e ∷ l) ≡ pending_ip dst l
unfolding pending_ip
pending_ip-again dst e l h = rw h refl

meant_for-more :
    (dst : ℕ) (e : Element) (l : List Element)
    → (e.dst_ip == dst) ≡ true
    → meant_for dst (e ∷ l) ≡ e ∷ meant_for dst l
unfolding meant_for
meant_for-more dst e l h = rw h refl

-- What `receive_packet` does where the queue is in use.
abbrev queued : Bool → Bool → Element → PacketQueue → PacketQueue
queued sent allocated e s = enqueue_or_free allocated e (ask_once sent e s)

queued-count :
    (count : List Event → ℕ) (sent allocated : Bool) (e : Element) (s : PacketQueue)
    → IsUnfreed count
    → count (queued sent allocated e s).events ≡ count (ask_once sent e s).events
queued-count count sent allocated e s u =
    enqueue_or_free-count count allocated e (ask_once sent e s) u

-- Where no packet for the destination of `e` waits.
ask_once-counts :
    (dst : ℕ) (sent : Bool) (e : Element) (s : PacketQueue)
    → pending_ip e.dst_ip s.packets ≡ false
    → (requests dst (ask_once sent e s).events
        ≡ (if sent && e.dst_ip == dst then suc (requests dst s.events) else requests dst s.events))
      × (failures dst (ask_once sent e s).events ≡ (
          if not sent && e.dst_ip == dst
          then suc (failures dst s.events)
          else failures dst s.events))
unfolding ask_once note requests failures
ask_once-counts dst true e s h = rw h (refl, refl)
ask_once-counts dst false e s h = rw h (refl, refl)

-- No request, where one waits or the packet has another destination.
ask_once-none :
    (dst : ℕ) (sent : Bool) (e : Element) (s : PacketQueue)
    → ((e.dst_ip == dst) ≡ false) ⊎ (pending_ip e.dst_ip s.packets ≡ true)
    → (requests dst (ask_once sent e s).events ≡ requests dst s.events)
      × (failures dst (ask_once sent e s).events ≡ failures dst s.events)
ask_once-none dst sent e s h = elim (Bool-cases (pending_ip e.dst_ip s.packets)) [
  | inl p ↦
      let same = ask_once-pending sent e s p in
      (ap (λ x. requests dst x.events) same, ap (λ x. failures dst x.events) same)
  | inr p ↦ let (r, f) = ask_once-counts dst sent e s p in ground (arith, r, f, h, p)
]

-- The numbers of requests and failures with `queued`, where none is sent.
queued-none :
    (dst : ℕ) (sent allocated : Bool) (e : Element) (s : PacketQueue)
    → ((e.dst_ip == dst) ≡ false) ⊎ (pending_ip e.dst_ip s.packets ≡ true)
    → (requests dst (queued sent allocated e s).events ≡ requests dst s.events)
      × (failures dst (queued sent allocated e s).events ≡ failures dst s.events)
queued-none dst sent allocated e s h =
    let (r, f) = ask_once-none dst sent e s h in
    (
      queued-count (requests dst) sent allocated e s (requests-IsUnfreed dst) ∙ r,
      queued-count (failures dst) sent allocated e s (failures-IsUnfreed dst) ∙ f,
    )

-- And where one is sent, or could not be sent.
record Tried (dst : ℕ) (s s₁ : PacketQueue) : Type 0 where
  sent : requests dst s.events ≤ requests dst s₁.events
  failed : failures dst s.events ≤ failures dst s₁.events
  one :
      (requests dst s.events < requests dst s₁.events)
      ⊎ (failures dst s.events < failures dst s₁.events)

queued-Tried :
    (dst : ℕ) (sent allocated : Bool) (e : Element) (s : PacketQueue)
    → (e.dst_ip == dst) ≡ true
    → pending_ip e.dst_ip s.packets ≡ false
    → Tried dst s (queued sent allocated e s)
queued-Tried dst true allocated e s h p =
    let (r, f) = ask_once-counts dst true e s p in
    let r₁ = queued-count (requests dst) true allocated e s (requests-IsUnfreed dst) ∙ r in
    let f₁ = queued-count (failures dst) true allocated e s (failures-IsUnfreed dst) ∙ f in
    record {
      sent = ground (arith, r₁, h);
      failed = ground (arith, f₁);
      one = inl (ground (arith, r₁, h));
    }
queued-Tried dst false allocated e s h p =
    let (r, f) = ask_once-counts dst false e s p in
    let r₁ = queued-count (requests dst) false allocated e s (requests-IsUnfreed dst) ∙ r in
    let f₁ = queued-count (failures dst) false allocated e s (failures-IsUnfreed dst) ∙ f in
    record {
      sent = ground (arith, r₁);
      failed = ground (arith, f₁, h);
      one = inr (ground (arith, f₁, h));
    }

queued-packets :
    (sent allocated : Bool) (e : Element) (s : PacketQueue)
    → ((queued sent allocated e s).packets ≡ s.packets)
      ⊎ ((queued sent allocated e s).packets ≡ e ∷ s.packets)
queued-packets sent allocated e s = elim (enqueue_or_free-packets allocated e (ask_once sent e s)) [
  | inl p ↦ inl (p ∙ ask_once-packets sent e s)
  | inr p ↦ inr (p ∙ ap (λ l. e ∷ l) (ask_once-packets sent e s))
]

queued-other :
    (dst : ℕ) (sent allocated : Bool) (e : Element) (s : PacketQueue)
    → (e.dst_ip == dst) ≡ false
    → Asks dst s (queued sent allocated e s)
queued-other dst sent allocated e s h =
    let (r, f) = queued-none dst sent allocated e s (inl h) in
    let (m, p) = meant_for-other dst e s.packets h in
    elim (queued-packets sent allocated e s) [
      | inl l ↦ Asks-stays dst s _ (ap (meant_for dst) l) r f (ap (pending_ip dst) l)
      | inr l ↦ Asks-stays dst s _ (ap (meant_for dst) l ∙ m) r f (ap (pending_ip dst) l ∙ p)
    ]

queued-kept :
    (dst : ℕ) (sent allocated : Bool) (e : Element) (s : PacketQueue)
    → (e.dst_ip == dst) ≡ true
    → (new : List Element) × (meant_for dst (queued sent allocated e s).packets
        ≡ new ++ meant_for dst s.packets)
queued-kept dst sent allocated e s h = elim (queued-packets sent allocated e s) [
  | inl l ↦ ([], ap (meant_for dst) l)
  | inr l ↦ (e ∷ [], ap (meant_for dst) l ∙ meant_for-more dst e s.packets h)
]

queued-again :
    (dst : ℕ) (sent allocated : Bool) (e : Element) (s : PacketQueue)
    → pending_ip dst s.packets ≡ true
    → pending_ip dst (queued sent allocated e s).packets ≡ pending_ip dst s.packets
queued-again dst sent allocated e s h = elim (queued-packets sent allocated e s) [
  | inl l ↦ ap (pending_ip dst) l
  | inr l ↦ ap (pending_ip dst) l ∙ pending_ip-again dst e s.packets h
]

queued-Asks :
    (dst : ℕ) (sent allocated : Bool) (e : Element) (s : PacketQueue)
    → Asks dst s (queued sent allocated e s)
queued-Asks dst sent allocated e s = elim (Bool-cases (e.dst_ip == dst)) [
  | inr h ↦ queued-other dst sent allocated e s h
  | inl h ↦
      let same = ap (λ d. pending_ip d s.packets) ((==_iff e.dst_ip dst).0 h) in
      let kept = queued-kept dst sent allocated e s h in
      elim (Bool-cases (pending_ip dst s.packets)) [
        | inl p ↦
            let (r, f) = queued-none dst sent allocated e s (inr (same ∙ p)) in
            record {
              kept = kept;
              sent = omega (arith, r);
              failed = omega (arith, f);
              asked = inr (r, f, queued-again dst sent allocated e s p);
            }
        | inr p ↦
            let t = queued-Tried dst sent allocated e s h (same ∙ p) in
            record { kept = kept; sent = t.sent; failed = t.failed; asked = inl (p, t.one) }
      ]
]

-- What `receive_packet` does to the packets and the requests for a destination.
pub receive_packet-Asks :
    (dst : ℕ) (enqueue_flag sent allocated : Bool) (e : Element) (s : PacketQueue)
    → Asks dst s (receive_packet enqueue_flag sent allocated e s).1
unfolding receive_packet note
receive_packet-Asks dst false sent allocated e s =
    Asks-stays dst s _ refl (count-free (requests dst) e.skb s (requests-IsUnfreed dst))
      (count-free (failures dst) e.skb s (failures-IsUnfreed dst)) refl
receive_packet-Asks dst true sent allocated e s = queued-Asks dst sent allocated e s
