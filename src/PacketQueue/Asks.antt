-- ===== src/PacketQueue/Asks.antt =====
-- kernel_module/ODS_kernel/packet_queue.c: how the requests for a destination go with the packets that
-- wait for it, where packets come in and replies for other destinations arrive.
use unified_routing_framewor.Prelude.{
  ℕ, ◌<◌, ◌≡◌, ◌⊎◌, inl, inr, sym, ap, ◌∙◌, List, [], ◌++◌, false, arith, ◌≤◌,
}
use mathlib.Core.List.{append_assoc}
use unified_routing_framewor.PacketQueue.{Element, PacketQueue, pending_ip}
use unified_routing_framewor.PacketQueue.Release.{meant_for}
use unified_routing_framewor.PacketQueue.Requests.{requests, failures}

-- What becomes of the packets and the requests for a destination: the packets that wait keep
-- waiting, in their order, behind the newer ones; where one waits no request is sent or tried, and where
-- none waits a request is sent, or one could not be sent, or none waits still.
pub record Asks (dst : ℕ) (s s₁ : PacketQueue) : Type 0 where
  pub kept : (new : List Element) × (meant_for dst s₁.packets ≡ new ++ meant_for dst s.packets)
  pub sent : requests dst s.events ≤ requests dst s₁.events
  pub failed : failures dst s.events ≤ failures dst s₁.events
  pub asked :
      ((pending_ip dst s.packets ≡ false)
        × ((requests dst s.events < requests dst s₁.events)
            ⊎ (failures dst s.events < failures dst s₁.events)))
      ⊎ ((requests dst s₁.events ≡ requests dst s.events)
          × (failures dst s₁.events ≡ failures dst s.events)
          × (pending_ip dst s₁.packets ≡ pending_ip dst s.packets))

pub Asks-stays :
    (dst : ℕ) (s s₁ : PacketQueue)
    → meant_for dst s₁.packets ≡ meant_for dst s.packets
    → requests dst s₁.events ≡ requests dst s.events
    → failures dst s₁.events ≡ failures dst s.events
    → pending_ip dst s₁.packets ≡ pending_ip dst s.packets
    → Asks dst s s₁
Asks-stays dst s s₁ m r f p = record {
  kept = ([], m);
  sent = omega (arith, r);
  failed = omega (arith, f);
  asked = inr (r, f, p);
}

-- The cases of `asked` before and after, one behind the other.
asked_trans :
    (dst : ℕ) (s s₁ s₂ : PacketQueue)
    → Asks dst s s₁
    → Asks dst s₁ s₂
    → ((pending_ip dst s.packets ≡ false)
        × ((requests dst s.events < requests dst s₂.events)
            ⊎ (failures dst s.events < failures dst s₂.events)))
      ⊎ ((requests dst s₂.events ≡ requests dst s.events)
          × (failures dst s₂.events ≡ failures dst s.events)
          × (pending_ip dst s₂.packets ≡ pending_ip dst s.packets))
asked_trans dst s s₁ s₂ a b = elim a.asked [
  | inl (e, inl lt) ↦ inl (e, inl (omega (arith, lt, b.sent)))
  | inl (e, inr lt) ↦ inl (e, inr (omega (arith, lt, b.failed)))
  | inr (r, f, p) ↦ elim b.asked [
    | inl (e, inl lt) ↦ inl (sym p ∙ e, inl (omega (arith, lt, r)))
    | inl (e, inr lt) ↦ inl (sym p ∙ e, inr (omega (arith, lt, f)))
    | inr (r', f', p') ↦ inr (r' ∙ r, f' ∙ f, p' ∙ p)
  ]
]

pub Asks-trans : (dst : ℕ) (s s₁ s₂ : PacketQueue) → Asks dst s s₁ → Asks dst s₁ s₂ → Asks dst s s₂
Asks-trans dst s s₁ s₂ a b = record {
  kept = (
    b.kept.0 ++ a.kept.0,
    b.kept.1
        ∙ ap (λ l. b.kept.0 ++ l) a.kept.1
        ∙ sym (append_assoc b.kept.0 a.kept.0 (meant_for dst s.packets)),
  );
  sent = omega (arith, a.sent, b.sent);
  failed = omega (arith, a.failed, b.failed);
  asked = asked_trans dst s s₁ s₂ a b;
}
