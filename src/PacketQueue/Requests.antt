-- ===== src/PacketQueue/Requests.antt =====
-- kernel_module/ODS_kernel/packet_queue.c: the requests for routes that `receive_packet` sends up.
use unified_routing_framewor.Prelude.{
  ℕ, suc, ◌≡◌, refl, ap, ◌∙◌, List, [], ◌∷◌, Bool, true, false, arith, ◌==◌, if◌then◌else◌, ==_self,
}
use unified_routing_framewor.PacketQueue.{
  Element, Event, PacketQueue, transmit_rtinfo, transmit_failed, kfree_skb, send_out, note,
  packet_enqueue, pending_ip, ask_once, enqueue_or_free,
}

-- The number of requests for a destination among the calls.
unfoldable pub requests : ℕ → List Event → ℕ
requests dst [] = 0
requests dst (transmit_rtinfo e ∷ l) =
    let rest = requests dst l in if e.dst_ip == dst then suc rest else rest
requests dst (transmit_failed e ∷ l) = requests dst l
requests dst (kfree_skb n ∷ l) = requests dst l
requests dst (send_out n ∷ l) = requests dst l

-- The number of requests for a destination that could not be sent.
unfoldable pub failures : ℕ → List Event → ℕ
failures dst [] = 0
failures dst (transmit_failed e ∷ l) =
    let rest = failures dst l in if e.dst_ip == dst then suc rest else rest
failures dst (transmit_rtinfo e ∷ l) = failures dst l
failures dst (kfree_skb n ∷ l) = failures dst l
failures dst (send_out n ∷ l) = failures dst l

-- A count that the release of a packet does not change.
pub record IsUnfreed (count : List Event → ℕ) : Type 0 where
  pub unfreed : (n : ℕ) (l : List Event) → count (kfree_skb n ∷ l) ≡ count l
  pub unsent : (n : ℕ) (l : List Event) → count (send_out n ∷ l) ≡ count l

pub requests-IsUnfreed : (dst : ℕ) → IsUnfreed (requests dst)
unfolding requests
requests-IsUnfreed dst = record { unfreed = λ n l. refl; unsent = λ n l. refl }

pub failures-IsUnfreed : (dst : ℕ) → IsUnfreed (failures dst)
unfolding failures
failures-IsUnfreed dst = record { unfreed = λ n l. refl; unsent = λ n l. refl }

packet_enqueue-events :
    (allocated : Bool) (e : Element) (s : PacketQueue)
    → (packet_enqueue allocated e s).1.events ≡ s.events
unfolding packet_enqueue
packet_enqueue-events allocated e s = ground arith

pub count-free :
    (count : List Event → ℕ) (n : ℕ) (s : PacketQueue)
    → IsUnfreed count
    → count (note (kfree_skb n) s).events ≡ count s.events
unfolding note
count-free count n s u = u.unfreed n s.events

pub enqueue_or_free-count :
    (count : List Event → ℕ) (allocated : Bool) (e : Element) (s : PacketQueue)
    → IsUnfreed count
    → count (enqueue_or_free allocated e s).events ≡ count s.events
unfolding enqueue_or_free
enqueue_or_free-count count allocated e s u =
    let q = packet_enqueue allocated e s in
    let same = ap count (packet_enqueue-events allocated e s) in
    elim (q.0 == 0)
      as (λ b. count (if b then q.1 else note (kfree_skb e.skb) q.1).events ≡ count s.events) [
        | true ↦ same
        | false ↦ count-free count e.skb q.1 u ∙ same
      ]

pending_ip-first : (e : Element) (l : List Element) → pending_ip e.dst_ip (e ∷ l) ≡ true
unfolding pending_ip
pending_ip-first e l = ground (arith, ==_self e.dst_ip)

pub ask_once-packets :
    (sent : Bool) (e : Element) (s : PacketQueue) → (ask_once sent e s).packets ≡ s.packets
unfolding ask_once note
ask_once-packets sent e s = ground arith

ask_once-bounds :
    (sent : Bool) (e : Element) (s : PacketQueue)
    → ((ask_once sent e s).len ≡ s.len) × ((ask_once sent e s).maxlen ≡ s.maxlen)
unfolding ask_once note
ask_once-bounds sent e s = ground arith

pub ask_once-pending :
    (sent : Bool) (e : Element) (s : PacketQueue)
    → pending_ip e.dst_ip s.packets ≡ true
    → ask_once sent e s ≡ s
unfolding ask_once
ask_once-pending sent e s h = rw (h, ask_once) refl
