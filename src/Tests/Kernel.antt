-- ===== src/Tests/Kernel.antt =====
-- The theorems on the kernel's queue of packets and cache of routes at concrete states of
-- kernel_module.
use unified_routing_framewor.Prelude.{
  some, ◌≢◌, ℕ, ◌≡◌, refl, [], ◌∷◌, ◌++◌, true, false, arith, if◌then◌else◌,
}
use unified_routing_framewor.Prelude.Int.{negsuc}
use unified_routing_framewor.Prelude.Outcome.{done}
use unified_routing_framewor.PacketQueue.{
  Element, nf_accept, PacketQueue, receive_packet, send_packet, cleanup_packet_queue,
}
use unified_routing_framewor.PacketQueue.Release.{Releases, send_packet-Releases}
use unified_routing_framewor.PacketQueue.Bounds.{IsCounted, operations-IsCounted}
use unified_routing_framewor.RouteCache.{
  CacheEntry, find_route_cache_entry, input_handler, has_expired, delete_old_route_cache_entries,
  delete_route_cache_entry,
}
use unified_routing_framewor.RouteCache.Query.{
  kernel_getcurrtime, getcurrtime, IsUnique, query_route_idle_time,
}
use unified_routing_framewor.RouteCache.Idle.{query-input_handler}
use unified_routing_framewor.RouteCache.Laws.{unexpired, deletions-lose}

abbrev packet : ℕ → ℕ → Element
packet n dst = record { skb = n; dst_ip = dst; src_ip = 1; protocol = 17; origin = 0 }

-- Three packets wait, two of them for one destination.
abbrev waiting : PacketQueue
waiting = record {
  packets = packet 3 20 ∷ packet 2 30 ∷ packet 1 20 ∷ [];
  len = 3;
  maxlen = 1000;
  events = [];
}

send_packet-Releases_example :
    (s₁ : PacketQueue) × (send_packet 4 20 nf_accept waiting ≡ done s₁)
    × Releases 20 nf_accept waiting s₁
send_packet-Releases_example = send_packet-Releases 4 20 nf_accept waiting refl (omega arith)

operations-IsCounted_example :
    IsCounted (receive_packet true false true (packet 4 40) waiting).1
    × (s₁ : PacketQueue) × (cleanup_packet_queue 4 waiting ≡ done s₁)
    × (s₁.packets ≡ [])
    × IsCounted s₁
operations-IsCounted_example =
    operations-IsCounted true false true (packet 4 40) 4 waiting
      (record { counted = refl; bounded = omega arith }) (omega arith)

abbrev used : ℕ → ℕ → CacheEntry
used n t = record { dst_ip = n; last_use_time = t; valid_flag = 1; node = n }

-- The first entry has expired and the second one has not.
deletions-lose_example :
    (delete_old_route_cache_entries 100 (used 7 20 ∷ used 8 90 ∷ [])
      ≡ (if has_expired 100 (used 7 20) then [] else unexpired 100 (used 7 20 ∷ used 8 90 ∷ [])))
    × (delete_route_cache_entry 7 ((used 9 95 ∷ []) ++ used 7 20 ∷ used 8 90 ∷ []) ≡ (0, []))
deletions-lose_example = deletions-lose 100 (used 9 95 ∷ []) (used 7 20) (used 8 90 ∷ [])

-- The packet comes 20 milliseconds after the start of the second 1, and the query 500 later.
query-input_handler_example :
    let l₁ =
      input_handler true
        (kernel_getcurrtime 1 20000000)
        7
        8
        (some 1)
        (some 2)
        (used 7 20 ∷ used 9 30 ∷ []) in
    let now = getcurrtime 1 520000 in
    IsUnique l₁
    × (query_route_idle_time now 7 1 l₁ ≡ negsuc 19479)
    × (query_route_idle_time now 8 0 l₁ ≡ negsuc 19479)
    × ((b : ℕ)
        → b ≢ 7
        → query_route_idle_time now b 1 l₁
          ≡ query_route_idle_time now b 1 (used 7 20 ∷ used 9 30 ∷ []))
query-input_handler_example =
    query-input_handler 1 20000000 1 520000 7 8 1 2 (used 7 20 ∷ used 9 30 ∷ [])
      (unfold find_route_cache_entry in (refl, (refl, tt))) (omega arith) (omega arith)
      (omega arith) (omega arith)
