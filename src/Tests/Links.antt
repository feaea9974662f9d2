-- ===== src/Tests/Links.antt =====
-- The theorems on neighbour discovery at concrete nodes of lib/ND.
use unified_routing_framewor.Prelude.{suc, ◌-◌, ℕ, ◌≡◌, refl, inl, List, [], ◌∷◌, ◌++◌, arith}
use unified_routing_framewor.Prelude.Outcome.{done}
use unified_routing_framewor.Prelude.Ordered.{From}
use unified_routing_framewor.Nd.{
  OneHopEntry, InterfaceEntry, NdTimer, NdState, delete_entry, sendto, call, hello_live_time,
}
use unified_routing_framewor.Nd.Timers.Laws.{timeout_of}
use unified_routing_framewor.Nd.Hello.{Hello, hello_bytes, read_hello}
use unified_routing_framewor.Nd.Hello.Read.{read_hello-hello_bytes}
use unified_routing_framewor.Nd.Interface.{hello_of, generate_and_send_hello_message, update_info}
use unified_routing_framewor.Nd.Interface.Size.{generate_and_send_hello_message-hello_size}
use unified_routing_framewor.Nd.Interface.Update.{Updates}
use unified_routing_framewor.Nd.Interface.Watched.{entry_timers, replaced, update_info-replaces}
use unified_routing_framewor.Nd.Discovery.{schedule_timer}
use unified_routing_framewor.Nd.Discovery.Schedule.{IsRunning, due_timers, run_all}
use unified_routing_framewor.Nd.Discovery.Runs.{arm_first, schedule_timer-refines}
use unified_routing_framewor.Nd.Handshake.{IsReady, IsSymmetric, deliver, handshake-IsSymmetric}

-- The name is "wlan" in the code of its characters.
abbrev interface : ℕ → List OneHopEntry → InterfaceEntry
interface address neighbors = record {
  name = 119 ∷ 108 ∷ 97 ∷ 110 ∷ [];
  if_index = 2;
  listen_port = 12001;
  interface_address = address;
  fd = 5;
  hello_interval = 2000;
  one_hop_neighbor_set = neighbors;
}

abbrev neighbor : ℕ → OneHopEntry
neighbor address = record {
  ip_address = address;
  quality = 0;
  local_if_set = address ∷ [];
  two_hop_neighbor_set = [];
  status = 1;
  live_time = 6000;
}

abbrev timer : ℕ → ℕ → NdTimer
timer timeout n = record {
  timeout = timeout;
  handler = delete_entry;
  kind = 2;
  value = n;
  contain = 0;
  node = n;
}

abbrev node : InterfaceEntry → List NdTimer → NdState
node e q = record { interfaces = e ∷ []; timer_q = q; next_node = 10; now = 1000; calls = [] }

-- A node with a neighbour, whose entry is due for deletion, and one without.
abbrev here : InterfaceEntry
here = interface 1 (neighbor 7 ∷ [])

abbrev there : InterfaceEntry
there = interface 2 []

abbrev queue : List NdTimer
queue = timer 900 7 ∷ timer 1500 8 ∷ timer 1700 9 ∷ []

abbrev message : Hello
message = record { local_if_set = 7 ∷ []; neighbor_set = (1, 1) ∷ (3, 2) ∷ []; live_time = 6000 }

here-IsReady : IsReady 0 254 here (node here queue)
here-IsReady = record {
  at = refl;
  linked = (omega arith, (omega arith, (omega arith, tt)));
  links = (inl refl, tt);
  words = (omega arith, tt);
  addresses = (omega arith, tt);
  few_neighbors = omega arith;
  few_interfaces = omega arith;
}

there-IsReady : IsReady 0 253 there (node there [])
there-IsReady = record {
  at = refl;
  linked = tt;
  links = tt;
  words = tt;
  addresses = (omega arith, tt);
  few_neighbors = omega arith;
  few_interfaces = omega arith;
}

handshake-IsSymmetric_example :
    (b₁ : NdState) × (a₁ : NdState) × (b₂ : NdState) × (deliver 0
        (node here queue)
        []
        0
        (node there [])
      ≡ done b₁)
    × (deliver 0 b₁ (0 ∷ []) 0 (node here queue) ≡ done a₁)
    × (deliver 0 a₁ [] 0 b₁ ≡ done b₂)
    × IsSymmetric 0 2 a₁
    × IsSymmetric 0 1 b₂
handshake-IsSymmetric_example =
    handshake-IsSymmetric 0 0 here there (node here queue) (node there []) [] (0 ∷ []) []
      here-IsReady there-IsReady (omega arith)

here-IsRunning : IsRunning queue (node here queue)
here-IsRunning = record {
  queue = refl;
  ordered = (omega arith, (omega arith, tt));
  linked = (omega arith, (omega arith, (omega arith, tt)));
  sends = ((omega arith, omega arith), tt);
}

schedule_timer-refines_example :
    (s₁ : NdState) × (run_all (due_timers 1000 queue) (node here queue) ≡ done s₁)
    × (schedule_timer 4 (node here queue) ≡ done (arm_first 1000 s₁.timer_q s₁))
    × From timeout_of 1001 s₁.timer_q
    × IsRunning s₁.timer_q s₁
schedule_timer-refines_example =
    schedule_timer-refines 4 (node here queue) here-IsRunning (unfold due_timers in omega arith)

-- The timer of the neighbour 7 is replaced.
update_info-replaces_example :
    (s₁ : NdState) × (update_info 0 here 7 message (node here queue) ≡ done s₁)
    × Updates 0 here 7 message (node here queue) s₁
    × (entry_timers 7 here s₁ ≡ suc (entry_timers 7 here (node here queue) - replaced 7 here))
update_info-replaces_example =
    update_info-replaces 0 here 7 message (node here queue) refl
      (omega arith, (omega arith, (omega arith, tt)))
      ((omega arith, (omega arith, tt)), ((omega arith, tt), (tt, tt))) (inl refl, tt)

read_hello-hello_bytes_example :
    read_hello (hello_bytes (1 ∷ []) (neighbor 7 ∷ []) ++ 0 ∷ [])
    ≡ done
        (record { local_if_set = 1 ∷ []; neighbor_set = (7, 1) ∷ []; live_time = hello_live_time })
read_hello-hello_bytes_example =
    read_hello-hello_bytes (1 ∷ []) (neighbor 7 ∷ []) (0 ∷ []) (omega arith) (omega arith)
      (omega arith, tt) ((omega arith, omega arith), tt)

generate_and_send_hello_message-hello_size_example :
    generate_and_send_hello_message 0 (node here queue)
    ≡ done (17, call (sendto 5 12001 (hello_of here (node here queue))) (node here queue))
generate_and_send_hello_message-hello_size_example =
    generate_and_send_hello_message-hello_size 0 here (node here queue) refl
