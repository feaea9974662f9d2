-- ===== src/PacketQueue/Release.antt =====
-- kernel_module/ODS_kernel/packet_queue.c: which packets `send_packet` releases, and in which order.
use unified_routing_framewor.Prelude.{
  ℕ, zero, suc, ◌<◌, ◌≡◌, refl, sym, ap, subst, ◌-◌, ◌∙◌, inl, inr, List, [], ◌∷◌, ◌++◌, Option,
  none, some, Bool, true, false, arith, ◌==◌, length, if◌then◌else◌, Option-cases, Bool-cases,
}
use mathlib.Core.List.{append_assoc}
use unified_routing_framewor.Prelude.Outcome.{done}
use unified_routing_framewor.PacketQueue.{
  Element, Verdict, nf_drop, nf_accept, other, Event, kfree_skb, send_out, PacketQueue, note,
  take_last, packet_dequeue, judge_ip, release, send_packet,
}

-- The packets for a destination, and the others, in their order.
unfoldable pub meant_for : ℕ → List Element → List Element
meant_for dst [] = []
meant_for dst (e ∷ l) = if e.dst_ip == dst then e ∷ meant_for dst l else meant_for dst l

unfoldable pub not_for : ℕ → List Element → List Element
not_for dst [] = []
not_for dst (e ∷ l) = if e.dst_ip == dst then not_for dst l else e ∷ not_for dst l

-- What becomes of a packet.
abbrev pub fate : Verdict → Element → List Event
fate nf_drop e = kfree_skb e.skb ∷ []
fate nf_accept e = send_out e.skb ∷ []
fate other e = []

-- The events of packets that are released from the last one on, newest first.
unfoldable pub fates : Verdict → List Element → List Event
fates v [] = []
fates v (e ∷ l) = fate v e ++ fates v l

-- What a search finds is the last packet for the destination.
abbrev pub Found : ℕ → List Element → Option (Element × List Element) → Type 0
Found dst l none = (meant_for dst l ≡ []) × (not_for dst l ≡ l)
Found dst l (some (x, rest)) =
    (meant_for dst l ≡ meant_for dst rest ++ x ∷ [])
    × (not_for dst l ≡ not_for dst rest)
    × (length l ≡ suc (length rest))

first_meant :
    (dst : ℕ) (e : Element) (l : List Element)
    → (e.dst_ip == dst) ≡ true
    → (meant_for dst (e ∷ l) ≡ e ∷ meant_for dst l) × (not_for dst (e ∷ l) ≡ not_for dst l)
unfolding meant_for not_for
first_meant dst e l h = (rw h refl, rw h refl)

first_other :
    (dst : ℕ) (e : Element) (l : List Element)
    → (e.dst_ip == dst) ≡ false
    → (meant_for dst (e ∷ l) ≡ meant_for dst l) × (not_for dst (e ∷ l) ≡ e ∷ not_for dst l)
unfolding meant_for not_for
first_other dst e l h = (rw h refl, rw h refl)

take_last-step :
    (dst : ℕ) (e : Element) (l : List Element) (o : Option (Element × List Element))
    → Found dst l o
    → Found dst (e ∷ l) (elim o as (λ x. Option (Element × List Element)) [
      | some (x, rest) ↦ some (x, e ∷ rest)
      | none ↦ if judge_ip dst e then some (e, l) else none
    ])
take_last-step dst e l none h = elim (Bool-cases (e.dst_ip == dst)) [
  | inl b ↦
      let (m, n) = first_meant dst e l b in
      rw b (m ∙ ap (λ k. e ∷ k) h.0 ∙ ap (λ k. k ++ e ∷ []) (sym h.0), n, refl)
  | inr b ↦ let (m, n) = first_other dst e l b in rw b (m ∙ h.0, n ∙ ap (λ k. e ∷ k) h.1)
]
take_last-step dst e l (some (x, rest)) h = elim (Bool-cases (e.dst_ip == dst)) [
  | inl b ↦
      let (m, n) = first_meant dst e l b in
      let (m', n') = first_meant dst e rest b in
      (m ∙ ap (λ k. e ∷ k) h.0 ∙ ap (λ k. k ++ x ∷ []) (sym m'), n ∙ h.1 ∙ sym n', ap suc h.2)
  | inr b ↦
      let (m, n) = first_other dst e l b in
      let (m', n') = first_other dst e rest b in
      (m ∙ h.0 ∙ ap (λ k. k ++ x ∷ []) (sym m'), n ∙ ap (λ k. e ∷ k) h.1 ∙ sym n', ap suc h.2)
]

pub take_last-Found : (dst : ℕ) (l : List Element) → Found dst l (take_last (judge_ip dst) l)
unfolding take_last meant_for not_for
take_last-Found dst [] = (refl, refl)
take_last-Found dst (e ∷ l) =
    take_last-step dst e l (take_last (judge_ip dst) l) (take_last-Found dst l)

release-frame :
    (v : Verdict) (e : Element) (s : PacketQueue)
    → ((release v e s).packets ≡ s.packets)
      × ((release v e s).len ≡ s.len)
      × ((release v e s).maxlen ≡ s.maxlen)
      × ((release v e s).events ≡ fate v e ++ s.events)
unfolding release note
release-frame nf_drop e s = (refl, refl, refl, refl)
release-frame nf_accept e s = (refl, refl, refl, refl)
release-frame other e s = (refl, refl, refl, refl)

-- What `send_packet` leaves of `s`.
pub record Releases (dst : ℕ) (v : Verdict) (s s₁ : PacketQueue) : Type 0 where
  pub left : s₁.packets ≡ not_for dst s.packets
  pub counted : s₁.len ≡ length s₁.packets
  pub same_maxlen : s₁.maxlen ≡ s.maxlen
  pub released : s₁.events ≡ fates v (meant_for dst s.packets) ++ s.events

fates-append :
    (v : Verdict) (l : List Element) (x : Element) (r : List Event)
    → fates v (l ++ x ∷ []) ++ r ≡ fates v l ++ (fate v x ++ r)
unfolding fates
fates-append v [] x r = append_assoc (fate v x) [] r
fates-append v (e ∷ l) x r =
    append_assoc (fate v e) (fates v (l ++ x ∷ [])) r
    ∙ ap (λ k. fate v e ++ k) (fates-append v l x r)
    ∙ sym (append_assoc (fate v e) (fates v l) (fate v x ++ r))

fates_none : (v : Verdict) (s : PacketQueue) → s.events ≡ fates v [] ++ s.events
unfolding fates
fates_none v s = refl

pub packet_dequeue-eq :
    (cmp : Element → Bool) (s : PacketQueue) (e : Element) (rest : List Element)
    → take_last cmp s.packets ≡ some (e, rest)
    → packet_dequeue cmp s ≡ some (e, record s { packets = rest; len = s.len - 1 })
unfolding packet_dequeue
packet_dequeue-eq cmp s e rest h = rw (h, packet_dequeue) refl

packet_dequeue-none :
    (cmp : Element → Bool) (s : PacketQueue)
    → take_last cmp s.packets ≡ none
    → packet_dequeue cmp s ≡ none
unfolding packet_dequeue
packet_dequeue-none cmp s h = rw (h, packet_dequeue) refl

send_packet-end :
    (fuel dst : ℕ) (v : Verdict) (s : PacketQueue)
    → packet_dequeue (judge_ip dst) s ≡ none
    → send_packet (suc fuel) dst v s ≡ done s
unfolding send_packet
send_packet-end fuel dst v s h = rw (h, send_packet) refl

send_packet-next :
    (fuel dst : ℕ) (v : Verdict) (s : PacketQueue) (e : Element) (s₁ : PacketQueue)
    → packet_dequeue (judge_ip dst) s ≡ some (e, s₁)
    → send_packet (suc fuel) dst v s ≡ send_packet fuel dst v (release v e s₁)
unfolding send_packet
send_packet-next fuel dst v s e s₁ h = rw (h, send_packet) refl

-- Where the count is the length of the queue, `send_packet` returns, on fuel larger than the count.
-- It then has released just the packets for the destination, the one that came first before the others, each with
-- the verdict; the other packets wait in the order that they had, and the count is their number.
pub send_packet-Releases :
    (fuel dst : ℕ) (v : Verdict) (s : PacketQueue)
    → s.len ≡ length s.packets
    → s.len < fuel
    → (s₁ : PacketQueue) × (send_packet fuel dst v s ≡ done s₁) × Releases dst v s s₁
send_packet-Releases zero dst v s c h = ground (arith, h)
send_packet-Releases (suc fuel) dst v s c h =
    elim (Option-cases (take_last (judge_ip dst) s.packets)) [
      | inl e ↦
          let f = subst (Found dst s.packets) e (take_last-Found dst s.packets) in
          (
            s,
            send_packet-end fuel dst v s (packet_dequeue-none (judge_ip dst) s e),
            record {
              left = sym f.1;
              counted = c;
              same_maxlen = refl;
              released = fates_none v s ∙ ap (λ k. fates v k ++ s.events) (sym f.0);
            },
          )
      | inr (p, e) ↦
          let f = subst (Found dst s.packets) e (take_last-Found dst s.packets) in
          let s₁ = record s { packets = p.1; len = s.len - 1 } in
          let (same, len, maxlen, events) = release-frame v p.0 s₁ in
          let (s₂, k, r) =
            send_packet-Releases fuel dst v (release v p.0 s₁)
              (len ∙ omega (arith, c, f.2) ∙ ap length (sym same))
              (omega (arith, c, f.2, h, len)) in
          (
            s₂,
            send_packet-next fuel dst v s p.0 s₁ (packet_dequeue-eq (judge_ip dst) s p.0 p.1 e) ∙ k,
            record {
              left = r.left ∙ ap (not_for dst) same ∙ sym f.1;
              counted = r.counted;
              same_maxlen = r.same_maxlen ∙ maxlen;
              released =
                  r.released
                  ∙ ap (λ k. fates v (meant_for dst k) ++ (release v p.0 s₁).events) same
                  ∙ ap (λ k. fates v (meant_for dst p.1) ++ k) events
                  ∙ sym (fates-append v (meant_for dst p.1) p.0 s.events)
                  ∙ ap (λ k. fates v k ++ s.events) (sym f.0);
            },
          )
    ]
