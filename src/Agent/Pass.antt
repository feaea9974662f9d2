-- ===== src/Agent/Pass.antt =====
-- LA/la_select.cpp: a whole pass of the main loop.
use unified_routing_framewor.Prelude.{
  ℕ, zero, suc, ◌+◌, ◌<◌, ◌≤◌, ◌≡◌, ◌≢◌, refl, sym, ap, ◌∙◌, List, [], ◌∷◌, ◌++◌, Option, none,
  some, Bool, arith, length, get_elem?, get_elem?_bound, All, Option-cases, inl, inr,
}
use unified_routing_framewor.Prelude.Outcome.{Outcome, done}
use unified_routing_framewor.Agent.{
  LaServ, Agent, Inputs, visit, visit_from, la_fdset_register, la_main_loop_pass,
}
use unified_routing_framewor.Agent.Descriptors.{sources, sockets, Agrees}
use unified_routing_framewor.Agent.Loop.{Fits, Steps, visit-other, visit-server}

sockets-other :
    (ods : Option ℕ) (server : ℕ) (l : List LaServ) (i fd : ℕ)
    → get_elem? (sockets l) i ≡ some fd
    → All (λ c. (c.sock_fd ≢ server) × (ods ≢ some c.sock_fd)) l
    → fd ≢ server
sockets-other ods server [] i fd e a = ground (arith, e)
sockets-other ods server (c ∷ l) zero fd e a = ground (arith, e, a.0.0)
sockets-other ods server (c ∷ l) (suc i) fd e a = sockets-other ods server l i fd e a.1

-- Behind the sources stand other descriptors than the server's.
get_elem?-sockets :
    (ods : Option ℕ) (server : ℕ) (l : List LaServ) (i fd : ℕ)
    → length (sources ods server) ≤ i
    → get_elem? (sources ods server ++ sockets l) i ≡ some fd
    → All (λ c. (c.sock_fd ≢ server) × (ods ≢ some c.sock_fd)) l
    → fd ≢ server
get_elem?-sockets none server l zero fd b e a = ground (arith, b)
get_elem?-sockets none server l (suc i) fd b e a = sockets-other none server l i fd e a
get_elem?-sockets (some ods) server l zero fd b e a = ground (arith, b)
get_elem?-sockets (some ods) server l (suc zero) fd b e a = ground (arith, b)
get_elem?-sockets (some ods) server l (suc (suc i)) fd b e a =
    sockets-other (some ods) server l i fd e a

visit_from-step :
    (fuel : ℕ) (ready : ℕ → Bool) (io : Inputs) (i fd : ℕ) (s s₁ : Agent)
    → get_elem? s.fd_list i ≡ some fd
    → visit ready io fd s ≡ done s₁
    → visit_from (suc fuel) ready io i s ≡ visit_from fuel ready io (suc i) s₁
unfolding visit_from
visit_from-step fuel ready io i fd s s₁ e h = rw (e, visit_from, h) refl

visit_from-end :
    (fuel : ℕ) (ready : ℕ → Bool) (io : Inputs) (i : ℕ) (s : Agent)
    → get_elem? s.fd_list i ≡ none
    → visit_from (suc fuel) ready io i s ≡ done s
unfolding visit_from
visit_from-end fuel ready io i s e = rw (e, visit_from) refl

Fits-Steps :
    (n : ℕ) (io : Inputs) (s s₁ : Agent)
    → Steps n s s₁
    → Fits s.ods_fd s.command_server_fd io
    → Fits s₁.ods_fd s₁.command_server_fd io
Fits-Steps n io s s₁ t f = rw (t.same_ods, t.same_server) f

-- The loop from a position behind the sources.
visit_from-clients :
    (fuel : ℕ) (ready : ℕ → Bool) (io : Inputs) (i : ℕ) (s : Agent)
    → Agrees s
    → Fits s.ods_fd s.command_server_fd io
    → length (sources s.ods_fd s.command_server_fd) ≤ i
    → 0 < fuel
    → length s.fd_list < fuel + i
    → (s₁ : Agent) × (visit_from fuel ready io i s ≡ done s₁) × Agrees s₁
visit_from-clients zero ready io i s a f b p h = ground (arith, p)
visit_from-clients (suc fuel) ready io i s a f b p h = elim (Option-cases (get_elem? s.fd_list i)) [
  | inl e ↦ (s, visit_from-end fuel ready io i s e, a)
  | inr (fd, e) ↦
      let bound = get_elem?_bound s.fd_list i fd e in
      let other =
        get_elem?-sockets s.ods_fd s.command_server_fd s.la_serv_list i fd b
          (ap (λ l. get_elem? l i) (sym a.watched) ∙ e) a.others in
      let (s₁, v, t) = visit-other ready io fd s other f a in
      let (s₂, w, a₂) =
        visit_from-clients fuel ready io (suc i) s₁ t.agrees (Fits-Steps 0 io s s₁ t f)
          (rw (t.same_ods, t.same_server) (omega (arith, b))) (omega (arith, bound, h))
          (omega (arith, t.size, h)) in
      (s₂, visit_from-step fuel ready io i fd s s₁ e v ∙ w, a₂)
]

-- The loop from the server's position on.
visit_from-server :
    (fuel : ℕ) (ready : ℕ → Bool) (io : Inputs) (i : ℕ) (s : Agent)
    → Agrees s
    → Fits s.ods_fd s.command_server_fd io
    → get_elem? s.fd_list i ≡ some s.command_server_fd
    → length (sources s.ods_fd s.command_server_fd) ≡ suc i
    → suc (length s.fd_list) < fuel + i
    → (s₁ : Agent) × (visit_from fuel ready io i s ≡ done s₁) × Agrees s₁
visit_from-server zero ready io i s a f e n h =
    ground (arith, h, get_elem?_bound s.fd_list i s.command_server_fd e)
visit_from-server (suc fuel) ready io i s a f e n h =
    let bound = get_elem?_bound s.fd_list i s.command_server_fd e in
    let (s₁, v, t) = visit-server ready io s f a in
    let (s₂, w, a₂) =
      visit_from-clients fuel ready io (suc i) s₁ t.agrees (Fits-Steps 1 io s s₁ t f)
        (rw (t.same_ods, t.same_server) (omega (arith, n))) (omega (arith, bound, h))
        (omega (arith, t.size, h)) in
    (s₂, visit_from-step fuel ready io i s.command_server_fd s s₁ e v ∙ w, a₂)

watched-at :
    (s : Agent) (ods : Option ℕ)
    → s.ods_fd ≡ ods
    → Agrees s
    → s.fd_list ≡ sources ods s.command_server_fd ++ sockets s.la_serv_list
watched-at s ods o a =
    a.watched ∙ ap (λ x. sources x s.command_server_fd ++ sockets s.la_serv_list) o

-- The loop from its beginning, by the descriptor of the library ODS.
visit_from-Agrees :
    (fuel : ℕ) (ready : ℕ → Bool) (io : Inputs) (s : Agent) (ods : Option ℕ)
    → s.ods_fd ≡ ods
    → Agrees s
    → Fits s.ods_fd s.command_server_fd io
    → suc (length s.fd_list) < fuel
    → (s₁ : Agent) × (visit_from fuel ready io 0 s ≡ done s₁) × Agrees s₁
visit_from-Agrees fuel ready io s none o a f h =
    visit_from-server fuel ready io 0 s a f (ap (λ l. get_elem? l 0) (watched-at s none o a))
      (ap (λ x. length (sources x s.command_server_fd)) o) (omega (arith, h))
visit_from-Agrees zero ready io s (some ods) o a f h = ground (arith, h)
visit_from-Agrees (suc fuel) ready io s (some ods) o a f h =
    let first = ap (λ l. get_elem? l 0) (watched-at s (some ods) o a) in
    let (s₁, v, t) =
      visit-other ready io ods s (λ (e : ods ≡ s.command_server_fd). a.two (o ∙ ap some e)) f a in
    let o₁ = t.same_ods ∙ o in
    let (s₂, w, a₂) =
      visit_from-server fuel ready io 1 s₁ t.agrees (Fits-Steps 0 io s s₁ t f)
        (ap (λ l. get_elem? l 1) (watched-at s₁ (some ods) o₁ t.agrees))
        (ap (λ x. length (sources x s₁.command_server_fd)) o₁) (omega (arith, t.size, h)) in
    (s₂, visit_from-step fuel ready io 0 ods s s₁ first v ∙ w, a₂)

la_fdset_register-Agrees : (s : Agent) → Agrees s → Agrees (la_fdset_register s)
unfolding la_fdset_register
la_fdset_register-Agrees s a = record { watched = a.watched; others = a.others; two = a.two }

la_main_loop_pass-selected :
    (fuel : ℕ) (io : Inputs) (s : Agent) (ready : ℕ → Bool)
    → io.selected ≡ some ready
    → la_main_loop_pass fuel io s ≡ visit_from fuel ready io 0 (la_fdset_register s)
unfolding la_main_loop_pass
la_main_loop_pass-selected fuel io s ready e =
    ap
      (λ x. elim x as (λ y. Outcome Agent) [
        | none ↦ done (la_fdset_register s)
        | some r ↦ visit_from fuel r io 0 (la_fdset_register s)
      ])
      e

la_main_loop_pass-failed :
    (fuel : ℕ) (io : Inputs) (s : Agent)
    → io.selected ≡ none
    → la_main_loop_pass fuel io s ≡ done (la_fdset_register s)
unfolding la_main_loop_pass
la_main_loop_pass-failed fuel io s e = rw (e, la_main_loop_pass) refl

-- Where the agent watches just its sources and then its clients, and the clients' descriptors are
-- not those of the sources, a pass of the main loop returns, on fuel of more than one step beyond the
-- number of descriptors, whatever `select` reports, if `accept` gives no descriptor of a source and
-- the buffers of `recv` have at least 17 bytes; the same then holds of the clients and descriptors
-- that it leaves.
pub la_main_loop_pass-Agrees :
    (fuel : ℕ) (io : Inputs) (s : Agent)
    → Agrees s
    → Fits s.ods_fd s.command_server_fd io
    → suc (length s.fd_list) < fuel
    → (s₁ : Agent) × (la_main_loop_pass fuel io s ≡ done s₁) × Agrees s₁
la_main_loop_pass-Agrees fuel io s a f h = elim (Option-cases io.selected) [
  | inl e ↦
      (la_fdset_register s, la_main_loop_pass-failed fuel io s e, la_fdset_register-Agrees s a)
  | inr (ready, e) ↦
      let (s₁, v, a₁) =
        visit_from-Agrees fuel ready io (la_fdset_register s) s.ods_fd
          (unfold la_fdset_register in refl) (la_fdset_register-Agrees s a)
          (unfold la_fdset_register in f) (unfold la_fdset_register in h) in
      (s₁, la_main_loop_pass-selected fuel io s ready e ∙ v, a₁)
]
