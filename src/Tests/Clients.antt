-- ===== src/Tests/Clients.antt =====
-- The theorems on the local agent at concrete states of LA.
use unified_routing_framewor.Prelude.{
  suc, ◌<◌, ◌⊎◌, All, Any, ◌^◌, ◌-◌, ℕ, ◌≡◌, refl, [], ◌∷◌, none, some, arith, ltb,
}
use unified_routing_framewor.Prelude.Outcome.{done}
use unified_routing_framewor.Agent.{
  LaServ, Agent, RouteRequest, Inputs, la_main_loop_pass, la_fdset_register,
}
use unified_routing_framewor.Agent.Descriptors.{Agrees, la_fdset_register-fd_num}
use unified_routing_framewor.Agent.Loop.{Fits}
use unified_routing_framewor.Agent.Pass.{la_main_loop_pass-Agrees}

abbrev client : ℕ → LaServ
client fd = record { sock_fd = fd; kind = 0 }

-- The library ODS at 3, the server at 4, and two clients.
abbrev agent : Agent
agent = record {
  la_serv_list = client 6 ∷ client 7 ∷ [];
  command_server_fd = 4;
  ods_fd = some 3;
  fd_list = 3 ∷ 4 ∷ 6 ∷ 7 ∷ [];
  rbits_fd = [];
  fd_num = 0;
  acts = [];
}

abbrev request : RouteRequest
request = record { dst_ip = 20; src_ip = 10; protocol = 17; input_ifindex = 2 ^ 32 - 1 }

-- The kernel and the server are ready, and the first client has closed.
abbrev inputs : Inputs
inputs = record {
  selected = some (λ fd. ltb fd 7);
  request = request;
  accepted = some (client 8);
  received = λ fd. none;
}

agent-Agrees : Agrees agent
agent-Agrees = record {
  watched = refl;
  others = ((ground arith, ground arith), ((ground arith, ground arith), tt));
  two = ground arith;
}

inputs-Fits : Fits (some 3) 4 inputs
inputs-Fits = record {
  accepted_other = λ c e. (ground (arith, e), ground (arith, e));
  received_whole = λ fd buffer e. ground (arith, e);
}

la_main_loop_pass-Agrees_example :
    (s₁ : Agent) × (la_main_loop_pass 6 inputs agent ≡ done s₁) × Agrees s₁
la_main_loop_pass-Agrees_example =
    la_main_loop_pass-Agrees 6 inputs agent agent-Agrees inputs-Fits (omega arith)

la_fdset_register-fd_num_example :
    ((la_fdset_register agent).rbits_fd ≡ 3 ∷ 4 ∷ 6 ∷ 7 ∷ [])
    × All (λ fd. fd < (la_fdset_register agent).fd_num) (3 ∷ 4 ∷ 6 ∷ 7 ∷ [])
    × (((la_fdset_register agent).fd_num ≡ 0)
        ⊎ Any (λ fd. suc fd ≡ (la_fdset_register agent).fd_num) (3 ∷ 4 ∷ 6 ∷ 7 ∷ []))
la_fdset_register-fd_num_example = la_fdset_register-fd_num agent
