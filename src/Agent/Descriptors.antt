-- ===== src/Agent/Descriptors.antt =====
-- LA/la_select.cpp: the descriptors that the agent watches are those of its sources and clients.
use unified_routing_framewor.Prelude.{
  ℕ, All-append, suc, ◌<◌, ◌≤◌, ◌≡◌, ◌≢◌, refl, ap, ◌∙◌, ◌⊎◌, inl, inr, List, [], ◌∷◌, ◌++◌, map,
  Option, none, some, false, arith, leb, length, All, Any, Bool-cases, leb→le, leb_no→lt, sym,
  subst,
}
use mathlib.Core.List.{append_assoc}
use unified_routing_framewor.Agent.{
  LaServ, Agent, la_fdset_init, fd_bound, la_fdset_register, erase_fd, la_fdset_add, la_fdset_del,
  la_command_server_accept, erase_client, has_client, drop_client, act,
}

-- The descriptors of the library ODS and of the server's socket.
abbrev pub sources : Option ℕ → ℕ → List ℕ
sources none server = server ∷ []
sources (some ods) server = ods ∷ server ∷ []

abbrev pub sockets : List LaServ → List ℕ
sockets l = map (λ c. c.sock_fd) l

-- A descriptor that is neither.
abbrev pub IsOther : Agent → ℕ → Type 0
IsOther s fd = (fd ≢ s.command_server_fd) × (s.ods_fd ≢ some fd)

-- The agent watches its sources, and then its clients in their order; these have other descriptors,
-- and the two sources are not one.
pub record Agrees (s : Agent) : Type 0 where
  pub watched : s.fd_list ≡ sources s.ods_fd s.command_server_fd ++ sockets s.la_serv_list
  pub others : All (λ c. IsOther s c.sock_fd) s.la_serv_list
  pub two : s.ods_fd ≢ some s.command_server_fd

fd_bound_mono : (n : ℕ) (l : List ℕ) → n ≤ fd_bound n l
unfolding fd_bound
fd_bound_mono n [] = omega arith
fd_bound_mono n (fd ∷ l) = ground (arith, fd_bound_mono n l, fd_bound_mono (suc fd) l)

fd_bound-high : (n fd : ℕ) (l : List ℕ) → n ≤ fd → fd_bound n (fd ∷ l) ≡ fd_bound (suc fd) l
unfolding fd_bound
fd_bound-high n fd l h = ap (λ m. fd_bound m l) (ground (arith, h))

fd_bound-low : (n fd : ℕ) (l : List ℕ) → fd < n → fd_bound n (fd ∷ l) ≡ fd_bound n l
unfolding fd_bound
fd_bound-low n fd l h = ap (λ m. fd_bound m l) (ground (arith, h))

fd_bound-All : (n : ℕ) (l : List ℕ) → All (λ fd. fd < fd_bound n l) l
fd_bound-All n [] = tt
fd_bound-All n (fd ∷ l) = elim (Bool-cases (leb n fd)) [
  | inl d ↦
      subst (λ k. All (λ x. x < k) (fd ∷ l)) (sym (fd_bound-high n fd l (leb→le n fd d)))
        (fd_bound_mono (suc fd) l, fd_bound-All (suc fd) l)
  | inr d ↦
      let h = leb_no→lt n fd d in
      subst (λ k. All (λ x. x < k) (fd ∷ l)) (sym (fd_bound-low n fd l h))
        (omega (arith, h, fd_bound_mono n l), fd_bound-All n l)
]

-- The bound `k` is `n`, or just above a descriptor of the list.
abbrev IsLeast : ℕ → List ℕ → ℕ → Type 0
IsLeast n l k = (k ≡ n) ⊎ Any (λ fd. suc fd ≡ k) l

fd_bound-IsLeast : (n : ℕ) (l : List ℕ) → IsLeast n l (fd_bound n l)
fd_bound-IsLeast n [] = inl (unfold fd_bound in refl)
fd_bound-IsLeast n (fd ∷ l) = elim (Bool-cases (leb n fd)) [
  | inl d ↦
      subst (IsLeast n (fd ∷ l)) (sym (fd_bound-high n fd l (leb→le n fd d)))
        (elim (fd_bound-IsLeast (suc fd) l) [ inl e ↦ inr (inl (sym e)) | inr a ↦ inr (inr a) ])
  | inr d ↦
      subst (IsLeast n (fd ∷ l)) (sym (fd_bound-low n fd l (leb_no→lt n fd d)))
        (elim (fd_bound-IsLeast n l) [ inl e ↦ inl e | inr a ↦ inr (inr a) ])
]

-- After `la_fdset_register` the set of `select` has just the descriptors of the list, and `fd_num` is
-- larger than each of them; it is 0, or one more than the descriptor of some entry.
pub la_fdset_register-fd_num :
    (s : Agent)
    → ((la_fdset_register s).rbits_fd ≡ s.fd_list)
      × All (λ fd. fd < (la_fdset_register s).fd_num) s.fd_list
      × (((la_fdset_register s).fd_num ≡ 0)
          ⊎ Any (λ fd. suc fd ≡ (la_fdset_register s).fd_num) s.fd_list)
unfolding la_fdset_register
la_fdset_register-fd_num s = (refl, fd_bound-All 0 s.fd_list, fd_bound-IsLeast 0 s.fd_list)

init_sources :
    (ods : Option ℕ) (server : ℕ)
    → (elim ods as (λ x. List ℕ) [ none ↦ server ∷ [] | some fd ↦ fd ∷ server ∷ [] ])
      ≡ sources ods server ++ []
init_sources none server = refl
init_sources (some ods) server = refl

pub la_fdset_init-Agrees :
    (s : Agent)
    → s.la_serv_list ≡ []
    → s.ods_fd ≢ some s.command_server_fd
    → Agrees (la_fdset_init s)
unfolding la_fdset_init
la_fdset_init-Agrees s e t = record {
  watched =
      init_sources s.ods_fd s.command_server_fd
      ∙ ap (λ l. sources s.ods_fd s.command_server_fd ++ sockets l) (sym e);
  others = subst (All (λ c. IsOther s c.sock_fd)) (sym e) tt;
  two = t;
}

sockets-append :
    (c : LaServ) (l : List LaServ) → sockets (l ++ c ∷ []) ≡ sockets l ++ c.sock_fd ∷ []
sockets-append c [] = refl
sockets-append c (x ∷ l) = ap (λ k. x.sock_fd ∷ k) (sockets-append c l)

pub accept-Agrees :
    (c : LaServ) (s : Agent)
    → IsOther s c.sock_fd
    → Agrees s
    → Agrees (la_command_server_accept (some c) s)
unfolding la_command_server_accept la_fdset_add
accept-Agrees c s h a = record {
  watched =
      ap (λ l. l ++ c.sock_fd ∷ []) a.watched
      ∙ append_assoc (sources s.ods_fd s.command_server_fd) (sockets s.la_serv_list)
          (c.sock_fd ∷ [])
      ∙ ap (λ l. sources s.ods_fd s.command_server_fd ++ l) (sym (sockets-append c s.la_serv_list));
  others = All-append (λ x. IsOther s x.sock_fd) c s.la_serv_list h a.others;
  two = a.two;
}

erase_fd-sockets :
    (fd : ℕ) (l : List LaServ) → erase_fd fd (sockets l) ≡ sockets (erase_client fd l)
unfolding erase_fd erase_client
erase_fd-sockets fd [] = refl
erase_fd-sockets fd (c ∷ l) = ground (arith, erase_fd-sockets fd l)

erase_fd-sources :
    (fd : ℕ) (ods : Option ℕ) (server : ℕ) (l : List ℕ)
    → fd ≢ server
    → ods ≢ some fd
    → erase_fd fd (sources ods server ++ l) ≡ sources ods server ++ erase_fd fd l
unfolding erase_fd
erase_fd-sources fd none server l h k = ground (arith, h)
erase_fd-sources fd (some ods) server l h k = ground (arith, h, λ (e : ods ≡ fd). k (ap some e))

All-erase_client :
    (P : LaServ → Type 0) (fd : ℕ) (l : List LaServ) → All P l → All P (erase_client fd l)
unfolding erase_client
All-erase_client P fd [] a = tt
All-erase_client P fd (c ∷ l) a = ground (arith, All-erase_client P fd l a.1)

has_client-erase : (fd : ℕ) (l : List LaServ) → has_client fd l ≡ false → erase_client fd l ≡ l
unfolding has_client erase_client
has_client-erase fd [] h = refl
has_client-erase fd (c ∷ l) h = ground (arith, has_client-erase fd l)

drop_client-la_serv_list :
    (fd : ℕ) (s : Agent) → (drop_client fd s).la_serv_list ≡ erase_client fd s.la_serv_list
unfolding drop_client la_fdset_del act
drop_client-la_serv_list fd s = ground (arith, has_client-erase fd s.la_serv_list)

pub drop_client-frame :
    (fd : ℕ) (s : Agent)
    → ((drop_client fd s).fd_list ≡ erase_fd fd s.fd_list)
      × ((drop_client fd s).ods_fd ≡ s.ods_fd)
      × ((drop_client fd s).command_server_fd ≡ s.command_server_fd)
unfolding drop_client la_fdset_del act
drop_client-frame fd s = ground arith

pub drop_client-Agrees : (fd : ℕ) (s : Agent) → IsOther s fd → Agrees s → Agrees (drop_client fd s)
drop_client-Agrees fd s h a =
    let (f, o, c) = drop_client-frame fd s in
    let l = drop_client-la_serv_list fd s in
    record {
      watched =
          rw (o, c, l)
            (f
              ∙ ap (erase_fd fd) a.watched
              ∙ erase_fd-sources fd s.ods_fd s.command_server_fd (sockets s.la_serv_list) h.0 h.1
              ∙ ap (λ k. sources s.ods_fd s.command_server_fd ++ k)
                  (erase_fd-sockets fd s.la_serv_list));
      others =
          rw (o, c, l) (All-erase_client (λ x. IsOther s x.sock_fd) fd s.la_serv_list a.others);
      two = rw (o, c) a.two;
    }

erase_fd-length : (fd : ℕ) (l : List ℕ) → length (erase_fd fd l) ≤ length l
unfolding erase_fd
erase_fd-length fd [] = omega arith
erase_fd-length fd (x ∷ l) = ground (arith, erase_fd-length fd l)

-- A closed client leaves no more descriptors than there were, and the same sources.
pub drop_client-length : (fd : ℕ) (s : Agent) → length (drop_client fd s).fd_list ≤ length s.fd_list
drop_client-length fd s = rw ((drop_client-frame fd s).0) (erase_fd-length fd s.fd_list)
