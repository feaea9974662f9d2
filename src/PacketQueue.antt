-- ===== src/PacketQueue.antt =====
-- kernel_module/ODS_kernel/packet_queue.c: the packets that wait in the kernel for a route. The list
-- is in the order of its `next` pointers: `list_add` puts the newest packet first, and the searches
-- begin at the last one.
pub mod Arrivals
pub mod Release
pub mod Bounds
pub mod Requests
pub mod Asks
pub mod Replies
use unified_routing_framewor.Prelude.{
  ℕ, zero, suc, ◌+◌, ◌-◌, List, [], ◌∷◌, Option, none, some, Bool, true, false, not, ltb, ◌==◌,
  if◌then◌else◌,
}
use unified_routing_framewor.Prelude.Outcome.{Outcome, done, fault, null_pointer, hang, ◌>>=◌}

abbrev pub max_packet_number : ℕ
max_packet_number = 1000

-- `struct packet_queue_element`; `skb` tells the packets apart. The addresses of the frame and the
-- device are left out.
pub record Element : Type 0 where
  pub skb : ℕ
  pub dst_ip : ℕ
  pub src_ip : ℕ
  pub protocol : ℕ
  pub origin : ℕ

-- What `send_packet` is to do: NF_DROP, NF_ACCEPT, or another number.
pub data Verdict : Type 0 where
  nf_drop nf_accept other : Verdict

-- The calls that leave the queue: `transmit_rtinfo` of a packet, with the message sent or with only
-- the line printed that it failed, `kfree_skb`, and `reroute` with `ip_local_out`.
pub data Event : Type 0 where
  transmit_rtinfo : Element → Event
  transmit_failed : Element → Event
  kfree_skb : ℕ → Event
  send_out : ℕ → Event

-- `struct packet_queue_head`, and the calls, newest first. `len` is an `int`; it does not fall below 0
-- where it counts the packets.
pub record PacketQueue : Type 0 where
  pub packets : List Element
  pub len : ℕ
  pub maxlen : ℕ
  pub events : List Event

unfoldable pub note : Event → PacketQueue → PacketQueue
note x s = record s { events = x ∷ s.events }

-- `init_packet_queue`, where its allocation succeeds.
unfoldable pub init_packet_queue : PacketQueue → PacketQueue
init_packet_queue s = record s { packets = []; len = 0; maxlen = max_packet_number }

-- `packet_enqueue` with its return value; the first argument says whether `kmalloc` succeeds.
unfoldable pub packet_enqueue : Bool → Element → PacketQueue → ℕ × PacketQueue
packet_enqueue allocated e s =
    if allocated
    then if ltb s.len s.maxlen
      then (0, record s { packets = e ∷ s.packets; len = suc s.len })
      else (1, s)
    else (1, s)

-- The loop of `packet_dequeue`, from the end of the list: the packet, and the list without it.
unfoldable pub take_last : (Element → Bool) → List Element → Option (Element × List Element)
take_last cmp [] = none
take_last cmp (e ∷ l) = elim (take_last cmp l) [
  | some (x, rest) ↦ some (x, e ∷ rest)
  | none ↦ if cmp e then some (e, l) else none
]

-- `packet_dequeue`
unfoldable pub packet_dequeue : (Element → Bool) → PacketQueue → Option (Element × PacketQueue)
packet_dequeue cmp s = elim (take_last cmp s.packets) [
  | none ↦ none
  | some (e, rest) ↦ some (e, record s { packets = rest; len = s.len - 1 })
]

-- `judge_ip`
abbrev pub judge_ip : ℕ → Element → Bool
judge_ip now_ip e = e.dst_ip == now_ip

-- `pending_ip`
unfoldable pub pending_ip : ℕ → List Element → Bool
pending_ip now_ip [] = false
pending_ip now_ip (e ∷ l) = if pending_ip now_ip l then true else e.dst_ip == now_ip

-- The call of `transmit_rtinfo`, where no packet for the destination waits; `sent` says whether
-- `alloc_skb` succeeds in `send_rtinfo`. Its failure is printed and has no other effect.
unfoldable pub ask_once : Bool → Element → PacketQueue → PacketQueue
ask_once sent e s =
    if pending_ip e.dst_ip s.packets
    then s
    else note (if sent then transmit_rtinfo e else transmit_failed e) s

-- The rest of `receive_packet`: a packet that is not queued is freed.
unfoldable pub enqueue_or_free : Bool → Element → PacketQueue → PacketQueue
enqueue_or_free allocated e s =
    let (enqueue_ret, queued) = packet_enqueue allocated e s in
    if enqueue_ret == 0 then queued else note (kfree_skb e.skb) queued

-- `receive_packet`, where `get_transmission_flag` gives the first argument, with its return value.
unfoldable pub receive_packet : Bool → Bool → Bool → Element → PacketQueue → ℕ × PacketQueue
receive_packet enqueue_flag sent allocated e s =
    if enqueue_flag
    then (0, enqueue_or_free allocated e (ask_once sent e s))
    else (1, note (kfree_skb e.skb) s)

-- The body of the loop of `send_packet`.
unfoldable pub release : Verdict → Element → PacketQueue → PacketQueue
release nf_drop e s = note (kfree_skb e.skb) s
release nf_accept e s = note (send_out e.skb) s
release other e s = s

-- `send_packet`
unfoldable pub send_packet : ℕ → ℕ → Verdict → PacketQueue → Outcome PacketQueue
send_packet zero dst_ip verdict s = fault hang
send_packet (suc fuel) dst_ip verdict s = elim (packet_dequeue (judge_ip dst_ip) s) [
  | none ↦ done s
  | some (e, s₁) ↦ send_packet fuel dst_ip verdict (release verdict e s₁)
]

-- `cleanup_packet_queue`, which uses what `packet_dequeue` gives without a test.
unfoldable pub cleanup_packet_queue : ℕ → PacketQueue → Outcome PacketQueue
cleanup_packet_queue zero s = fault hang
cleanup_packet_queue (suc fuel) s = elim (s.len == 0) [
  | true ↦ done s
  | false ↦ elim (packet_dequeue (λ e. true) s) [
    | none ↦ fault null_pointer
    | some (e, s₁) ↦ cleanup_packet_queue fuel (note (kfree_skb e.skb) s₁)
  ]
]
