-- ===== src/Nd/Handshake.antt =====
-- lib/ND: the link states that two nodes reach as their hello messages arrive at each other. A
-- message is what one side's `generate_and_send_hello_message` sends, and the other side's
-- `handle_hello_message` finds it in its buffer with any bytes behind it.
use unified_routing_framewor.Prelude.{
  ℕ, suc, ◌≤◌, ◌≡◌, ◌≢◌, refl, sym, subst, ◌∙◌, inl, inr, List, [], ◌∷◌, ◌++◌, map, none, some,
  arith, length, get_elem?, get_elem?_bound, get_elem?-set_elem, length-set_elem, All,
  All-get_elem?, All-set_elem, ==_no,
}
use unified_routing_framewor.Prelude.Outcome.{Outcome, done, ◌>>=◌}
use unified_routing_framewor.Nd.{
  OneHopEntry, InterfaceEntry, NdState, heard, symmetric, hello_live_time,
}
use unified_routing_framewor.Nd.Timers.Laws.{IsLinked}
use unified_routing_framewor.Nd.Hello.{Hello, read_hello}
use unified_routing_framewor.Nd.Hello.Read.{IsWord, IsSent, listed, read_hello-hello_bytes}
use unified_routing_framewor.Nd.Interface.{
  interface_at, hello_of, find_neighbor, host_status, update_info, handle_hello_message,
}
use unified_routing_framewor.Nd.Interface.Size.{length-addresses, interface_at-some}
use unified_routing_framewor.Nd.Interface.Links.{IsLink, IsAddressed}
use unified_routing_framewor.Nd.Interface.Update.{Updates, update_info-Updates}

-- The message of the interface `i` of one node reaches the interface `j` of another.
unfoldable pub deliver : ℕ → NdState → List ℕ → ℕ → NdState → Outcome NdState
unfolding interface_at hello_of handle_hello_message
deliver i a rest j b = interface_at i a >>= λ e.
    handle_hello_message j (some (e.interface_address, hello_of e a ++ rest)) b

-- The interface `i` of a node is `e`, with at most `n` neighbours; the node's fields are in their
-- ranges, and its lists short enough for the counts in a message.
pub record IsReady (i n : ℕ) (e : InterfaceEntry) (s : NdState) : Type 0 where
  pub at : get_elem? s.interfaces i ≡ some e
  pub linked : IsLinked s
  pub links : All IsLink e.one_hop_neighbor_set
  pub words : All IsAddressed e.one_hop_neighbor_set
  pub addresses : All (λ x. IsWord x.interface_address) s.interfaces
  pub few_neighbors : length e.one_hop_neighbor_set ≤ n
  pub few_interfaces : length s.interfaces ≤ 255

addresses-map :
    (l : List InterfaceEntry)
    → All (λ x. IsWord x.interface_address) l
    → All IsWord (map (λ x. x.interface_address) l)
addresses-map [] a = tt
addresses-map (x ∷ l) a = (a.0, addresses-map l a.1)

IsLink-IsSent : (e : OneHopEntry) → IsLink e → IsAddressed e → IsSent e
IsLink-IsSent e (inl k) w = (w, omega (arith, k))
IsLink-IsSent e (inr k) w = (w, omega (arith, k))

links-IsSent : (l : List OneHopEntry) → All IsLink l → All IsAddressed l → All IsSent l
links-IsSent [] a w = tt
links-IsSent (e ∷ l) a w = (IsLink-IsSent e a.0 w.0, links-IsSent l a.1 w.1)

-- What the message of an interface says.
abbrev pub hello_from : InterfaceEntry → NdState → Hello
hello_from e s = record {
  local_if_set = map (λ x. x.interface_address) s.interfaces;
  neighbor_set = map listed e.one_hop_neighbor_set;
  live_time = hello_live_time;
}

read_hello-hello_of :
    (i : ℕ) (e : InterfaceEntry) (s : NdState) (rest : List ℕ)
    → IsReady i 255 e s
    → read_hello (hello_of e s ++ rest) ≡ done (hello_from e s)
unfolding hello_of
read_hello-hello_of i e s rest r =
    read_hello-hello_bytes (map (λ x. x.interface_address) s.interfaces) e.one_hop_neighbor_set rest
      (rw (length-addresses s.interfaces) r.few_interfaces) r.few_neighbors
      (addresses-map s.interfaces r.addresses) (links-IsSent e.one_hop_neighbor_set r.links r.words)

host_status-listed :
    (host : ℕ) (l : List OneHopEntry) (n : OneHopEntry)
    → find_neighbor host l ≡ some n
    → All IsLink l
    → host_status host (map listed l) ≢ 0
unfolding find_neighbor host_status
host_status-listed host [] n f a = ground (arith, f)
host_status-listed host (x ∷ l) n f a = ground (arith, host_status-listed host l n)

host_status-unlisted :
    (host : ℕ) (l : List OneHopEntry)
    → find_neighbor host l ≡ none
    → host_status host (map listed l) ≡ 0
unfolding find_neighbor host_status
host_status-unlisted host [] f = refl
host_status-unlisted host (x ∷ l) f = ground (arith, host_status-unlisted host l)

handle_hello_message-reads :
    (j : ℕ) (f : InterfaceEntry) (src : ℕ) (buffer : List ℕ) (h : Hello) (b : NdState)
    → interface_at j b ≡ done f
    → src ≢ f.interface_address
    → read_hello buffer ≡ done h
    → handle_hello_message j (some (src, buffer)) b ≡ update_info j f src h b
unfolding handle_hello_message
handle_hello_message-reads j f src buffer h b k ne r =
    rw (k, ==_no src f.interface_address ne, r) refl

deliver-handles :
    (i : ℕ) (e : InterfaceEntry) (a : NdState) (rest : List ℕ) (j : ℕ) (f : InterfaceEntry)
    (b : NdState)
    → interface_at i a ≡ done e
    → interface_at j b ≡ done f
    → e.interface_address ≢ f.interface_address
    → read_hello (hello_of e a ++ rest) ≡ done (hello_from e a)
    → deliver i a rest j b ≡ update_info j f e.interface_address (hello_from e a) b
unfolding deliver
deliver-handles i e a rest j f b h k ne r = rw h (
    handle_hello_message-reads j f e.interface_address (hello_of e a ++ rest) (hello_from e a) b k
      ne r)

-- What a message from `e` at `a` leaves at the interface `j` of `b`, which was `f`.
record Delivers (e : InterfaceEntry) (j m : ℕ) (f : InterfaceEntry) (b₁ : NdState) : Type 0 where
  after : InterfaceEntry
  ready : IsReady j (suc m) after b₁
  same_address : after.interface_address ≡ f.interface_address
  entry : OneHopEntry
  found : find_neighbor e.interface_address after.one_hop_neighbor_set ≡ some entry
  not_known : find_neighbor f.interface_address e.one_hop_neighbor_set ≡ none → entry.status ≡ heard
  known :
      (n : OneHopEntry)
      → find_neighbor f.interface_address e.one_hop_neighbor_set ≡ some n
      → entry.status ≡ symmetric

Updates-Delivers :
    (i : ℕ) (e : InterfaceEntry) (a : NdState) (j m : ℕ) (f : InterfaceEntry) (b b₁ : NdState)
    → IsReady i 255 e a
    → IsReady j m f b
    → Updates j f e.interface_address (hello_from e a) b b₁
    → Delivers e j m f b₁
Updates-Delivers i e a j m f b b₁ r q u =
    let after = record f { one_hop_neighbor_set = u.neighbors } in
    record {
      after = after;
      ready = record {
        at = rw u.stored (get_elem?-set_elem b.interfaces j f after q.at);
        linked = u.linked;
        links = u.learns.links;
        words =
            u.learns.words
              (All-get_elem? (λ x. IsWord x.interface_address) a.interfaces i e r.at r.addresses)
              q.words;
        addresses = rw u.stored (
            All-set_elem (λ x. IsWord x.interface_address) b.interfaces j after
              (All-get_elem? (λ x. IsWord x.interface_address) b.interfaces j f q.at q.addresses)
              q.addresses);
        few_neighbors = omega (arith, u.learns.size, q.few_neighbors);
        few_interfaces = rw (u.stored, length-set_elem b.interfaces j after) q.few_interfaces;
      };
      same_address = refl;
      entry = u.learns.entry;
      found = u.learns.found;
      not_known = λ k.
          u.learns.tells.not_listed
            (host_status-unlisted f.interface_address e.one_hop_neighbor_set k);
      known = λ n k.
          u.learns.tells.is_listed
            (host_status-listed f.interface_address e.one_hop_neighbor_set n k r.links);
    }

deliver-Delivers :
    (i : ℕ) (e : InterfaceEntry) (a : NdState) (rest : List ℕ) (j m : ℕ) (f : InterfaceEntry)
    (b : NdState)
    → IsReady i 255 e a
    → IsReady j m f b
    → e.interface_address ≢ f.interface_address
    → (b₁ : NdState) × (deliver i a rest j b ≡ done b₁) × Delivers e j m f b₁
deliver-Delivers i e a rest j m f b r q ne =
    let (b₁, k, u) =
      update_info-Updates j f e.interface_address (hello_from e a) b
        (get_elem?_bound b.interfaces j f q.at) q.linked q.links in
    (
      b₁,
      deliver-handles i e a rest j f b (interface_at-some i e a r.at) (interface_at-some j f b q.at)
            ne (read_hello-hello_of i e a rest r)
          ∙ k,
      Updates-Delivers i e a j m f b b₁ r q u,
    )

IsReady-mono :
    (i m n : ℕ) (e : InterfaceEntry) (s : NdState) → m ≤ n → IsReady i m e s → IsReady i n e s
IsReady-mono i m n e s h r = record {
  at = r.at;
  linked = r.linked;
  links = r.links;
  words = r.words;
  addresses = r.addresses;
  few_neighbors = omega (arith, r.few_neighbors);
  few_interfaces = r.few_interfaces;
}

-- The interface `i` of a node holds the link to the given address for symmetric.
abbrev pub IsSymmetric : ℕ → ℕ → NdState → Type 0
IsSymmetric i address s =
    (e : InterfaceEntry) × (get_elem? s.interfaces i ≡ some e)
    × (n : OneHopEntry) × (find_neighbor address e.one_hop_neighbor_set ≡ some n)
    × (n.status ≡ symmetric)

Delivers-IsSymmetric :
    (e : InterfaceEntry) (j m : ℕ) (f : InterfaceEntry) (b : NdState) (n : OneHopEntry)
    → find_neighbor f.interface_address e.one_hop_neighbor_set ≡ some n
    → Delivers e j m f b
    → IsSymmetric j e.interface_address b
Delivers-IsSymmetric e j m f b n h d = (d.after, d.ready.at, d.entry, d.found, d.known n h)

-- Two interfaces with different addresses, of nodes in good order that have at most 255 interfaces,
-- one interface with at most 254 neighbours and the other with at most 253. Three hello messages, there, back
-- and there again, are all taken in, whatever the buffers hold behind them; the first node then
-- holds the link for symmetric from the second message on, and the other one from the third on.
pub handshake-IsSymmetric :
    (i j : ℕ) (e f : InterfaceEntry) (a b : NdState) (rest₁ rest₂ rest₃ : List ℕ)
    → IsReady i 254 e a
    → IsReady j 253 f b
    → e.interface_address ≢ f.interface_address
    → (b₁ : NdState) × (a₁ : NdState) × (b₂ : NdState) × (deliver i a rest₁ j b ≡ done b₁)
      × (deliver j b₁ rest₂ i a ≡ done a₁)
      × (deliver i a₁ rest₃ j b₁ ≡ done b₂)
      × IsSymmetric i f.interface_address a₁
      × IsSymmetric j e.interface_address b₂
handshake-IsSymmetric i j e f a b rest₁ rest₂ rest₃ r q ne =
    let (b₁, h₁, d₁) =
      deliver-Delivers i e a rest₁ j 253 f b (IsReady-mono i 254 255 e a (omega arith) r) q ne in
    let (a₁, h₂, d₂) =
      deliver-Delivers j d₁.after b₁ rest₂ i 254 e a
        (IsReady-mono j 254 255 d₁.after b₁ (omega arith) d₁.ready) r
        (λ k. ne (sym k ∙ d₁.same_address)) in
    let (b₂, h₃, d₃) =
      deliver-Delivers i d₂.after a₁ rest₃ j 254 d₁.after b₁ d₂.ready d₁.ready
        (λ k. ne (sym d₂.same_address ∙ k ∙ d₁.same_address)) in
    (
      b₁,
      a₁,
      b₂,
      h₁,
      h₂,
      h₃,
      subst (λ x. IsSymmetric i x a₁) d₁.same_address
          (Delivers-IsSymmetric d₁.after i 254 e a₁ d₁.entry d₁.found d₂),
      subst (λ x. IsSymmetric j x b₂) d₂.same_address
          (Delivers-IsSymmetric d₂.after j 254 d₁.after b₂ d₂.entry d₂.found d₃),
    )
