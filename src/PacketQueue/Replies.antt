-- ===== src/PacketQueue/Replies.antt =====
-- kernel_module/ODS_kernel/packet_queue.c: what a reply for one destination leaves of the packets and
-- requests for another one.
use unified_routing_framewor.Prelude.{
  ℕ, ◌≤◌, ◌≡◌, ◌≢◌, inl, inr, refl, sym, ap, ◌∙◌, List, [], ◌∷◌, ◌++◌, arith, length, ◌==◌, ==_iff,
  ==_no, Bool-cases,
}
use unified_routing_framewor.PacketQueue.{
  Element, Verdict, Event, PacketQueue, nf_drop, nf_accept, other, pending_ip,
}
use unified_routing_framewor.PacketQueue.Release.{meant_for, not_for, fates, Releases}
use unified_routing_framewor.PacketQueue.Bounds.{IsCounted}
use unified_routing_framewor.PacketQueue.Requests.{
  requests, failures, IsUnfreed, requests-IsUnfreed, failures-IsUnfreed,
}
use unified_routing_framewor.PacketQueue.Asks.{Asks, Asks-stays}
use unified_routing_framewor.PacketQueue.Arrivals.{meant_for-other}

count-fates :
    (count : List Event → ℕ) (v : Verdict) (l : List Element) (r : List Event)
    → IsUnfreed count
    → count (fates v l ++ r) ≡ count r
unfolding fates
count-fates count v [] r u = refl
count-fates count nf_drop (e ∷ l) r u = u.unfreed e.skb _ ∙ count-fates count nf_drop l r u
count-fates count nf_accept (e ∷ l) r u = u.unsent e.skb _ ∙ count-fates count nf_accept l r u
count-fates count other (e ∷ l) r u = count-fates count other l r u

-- After a release of the packets for one destination.
count-Releases :
    (count : List Event → ℕ) (d : ℕ) (v : Verdict) (s s₁ : PacketQueue)
    → IsUnfreed count
    → Releases d v s s₁
    → count s₁.events ≡ count s.events
count-Releases count d v s s₁ u r =
    ap count r.released ∙ count-fates count v (meant_for d s.packets) s.events u

-- Without the packets for one destination, those for another one are the same.
not_for-step :
    (dst d : ℕ) (e : Element) (l k : List Element)
    → (meant_for dst k ≡ meant_for dst l) × (pending_ip dst k ≡ pending_ip dst l)
    → (meant_for dst (e ∷ k) ≡ meant_for dst (e ∷ l))
      × (pending_ip dst (e ∷ k) ≡ pending_ip dst (e ∷ l))
unfolding meant_for pending_ip
not_for-step dst d e l k (m, p) = (rw m refl, rw p refl)

meant_for-not_for :
    (dst d : ℕ) (l : List Element)
    → d ≢ dst
    → (meant_for dst (not_for d l) ≡ meant_for dst l)
      × (pending_ip dst (not_for d l) ≡ pending_ip dst l)
unfolding not_for
meant_for-not_for dst d [] z = (refl, refl)
meant_for-not_for dst d (e ∷ l) z =
    let (m, p) = meant_for-not_for dst d l z in
    elim (Bool-cases (e.dst_ip == d)) [
      | inr h ↦ rw h (not_for-step dst d e l (not_for d l) (m, p))
      | inl h ↦
          let (m', p') =
            meant_for-other dst e l
              (==_no e.dst_ip dst (λ q. z (sym ((==_iff e.dst_ip d).0 h) ∙ q))) in
          rw h (m ∙ sym m', p ∙ sym p')
    ]

-- After a reply for another destination.
pub Releases-Asks :
    (dst d : ℕ) (v : Verdict) (s s₁ : PacketQueue) → d ≢ dst → Releases d v s s₁ → Asks dst s s₁
Releases-Asks dst d v s s₁ z r =
    let (m, p) = meant_for-not_for dst d s.packets z in
    Asks-stays dst s s₁ (ap (meant_for dst) r.left ∙ m)
      (count-Releases (requests dst) d v s s₁ (requests-IsUnfreed dst) r)
      (count-Releases (failures dst) d v s s₁ (failures-IsUnfreed dst) r)
      (ap (pending_ip dst) r.left ∙ p)

length-not_for : (d : ℕ) (l : List Element) → length (not_for d l) ≤ length l
unfolding not_for
length-not_for d [] = omega arith
length-not_for d (e ∷ l) = ground (arith, length-not_for d l)

-- The count stays right, and in its bound.
pub Releases-IsCounted :
    (d : ℕ) (v : Verdict) (s s₁ : PacketQueue) → IsCounted s → Releases d v s s₁ → IsCounted s₁
Releases-IsCounted d v s s₁ c r = record {
  counted = r.counted;
  bounded = omega (
    arith,
    c.counted,
    c.bounded,
    r.counted,
    r.same_maxlen,
    ap length r.left,
    length-not_for d s.packets,
  );
}
