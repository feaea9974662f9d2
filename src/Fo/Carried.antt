-- ===== src/Fo/Carried.antt =====
-- lib/FO/fo.cpp: the words of a request, one behind the other.
use unified_routing_framewor.Prelude.{
  ℕ, ◌+◌, ◌≤◌, ◌≡◌, refl, ap, ◌∙◌, List, [], ◌∷◌, ◌++◌, Bool, true, false, arith, if◌then◌else◌,
  subst,
}
use unified_routing_framewor.Fo.{
  Rta, rta_oif, rta_priority, rta_prefsrc, rta_gateway, rta_dst, RtAttr, RtReq, RouteInfo, Macros,
  is_negative, size_rtmsg, size_rtreq, netlink_addreq, addreq_if, parse_attribute, parse_routes,
}
use unified_routing_framewor.Fo.Routes.{zero_entry}
use unified_routing_framewor.Fo.Words.{
  IsAligned, parsed, parse_routes-append, IsBuilt, netlink_addreq-IsBuilt, IsBuilt-parsed,
}

-- A request from which the reader gets a route.
pub record Carries (q : RtReq) (r : RouteInfo) : Type 0 where
  attributes : List RtAttr
  built : IsBuilt q attributes
  reads : parse_routes attributes zero_entry ≡ r

pub Carries-parsed :
    (d : Macros) (q : RtReq) (r : RouteInfo) → IsAligned d → Carries q r → parsed d q ≡ r
Carries-parsed d q r a c =
    ap (λ l. parse_routes l zero_entry) (IsBuilt-parsed d q c.attributes a c.built) ∙ c.reads

-- A request without attributes.
pub Carries-header :
    (d : Macros) (q : RtReq)
    → IsAligned d
    → q.nlmsg_len ≡ d.nlmsg_length size_rtmsg
    → q.buf ≡ []
    → Carries q zero_entry
unfolding parse_routes
Carries-header d q a e h = record {
  attributes = [];
  built = record { measured = omega (arith, e, a.message_header); holds = tt };
  reads = refl;
}

netlink_addreq-len :
    (d : Macros) (k : Rta) (w : ℕ) (q : RtReq)
    → IsAligned d
    → (netlink_addreq d k w q).nlmsg_len ≤ q.nlmsg_len + 11
unfolding netlink_addreq
netlink_addreq-len d k w q a = omega (arith, a.align_bound q.nlmsg_len, a.attribute_header)

addreq_if-len :
    (b : Bool) (d : Macros) (k : Rta) (w : ℕ) (q : RtReq)
    → IsAligned d
    → (addreq_if b d k w q).nlmsg_len ≤ q.nlmsg_len + 11
addreq_if-len true d k w q a = netlink_addreq-len d k w q a
addreq_if-len false d k w q a = omega arith

-- The route that a request is about; a negative number stands for none.
abbrev pub or_zero : ℕ → ℕ
or_zero n = if is_negative n then 0 else n

set_by :
    (b : Bool) (d : Macros) (k : Rta) (w : ℕ) (q : RtReq) (r s : RouteInfo)
    → IsAligned d
    → Carries q r
    → (if b then parse_attribute (record { rta_type = k; word = w }) r else r) ≡ s
    → Carries (addreq_if b d k w q) s
unfolding parse_routes
set_by true d k w q r s a c h =
    let new : RtAttr = record { rta_type = k; word = w } in
    record {
      attributes = c.attributes ++ new ∷ [];
      built = netlink_addreq-IsBuilt d k w q c.attributes a c.built;
      reads =
          parse_routes-append c.attributes (new ∷ []) zero_entry
          ∙ ap (parse_attribute new) c.reads
          ∙ h;
    }
set_by false d k w q r s a c h = subst (Carries q) h c

-- A route of which words are set where a test holds, and 0 elsewhere.
abbrev route_if : Bool → Bool → Bool → Bool → Bool → ℕ → ℕ → ℕ → ℕ → ℕ → RouteInfo
route_if b₀ b₁ b₂ b₃ b₄ ifindex metric src gateway dst = record {
  dst = if b₄ then dst else 0;
  gateway = if b₃ then gateway else 0;
  ifindex = if b₀ then ifindex else 0;
  metric = if b₁ then metric else 0;
  src = if b₂ then src else 0;
  table = 0;
}

-- A request to which the five words are added in the order of the code.
abbrev five : Bool → Bool → Bool → Bool → Bool → Macros → ℕ → ℕ → ℕ → ℕ → ℕ → RtReq → RtReq
five b₀ b₁ b₂ b₃ b₄ d ifindex metric src gateway dst q = addreq_if b₄ d rta_dst dst (
    addreq_if b₃ d rta_gateway gateway (
      addreq_if b₂ d rta_prefsrc src
        (addreq_if b₁ d rta_priority metric (addreq_if b₀ d rta_oif ifindex q))))

pub five-len :
    (b₀ b₁ b₂ b₃ b₄ : Bool) (d : Macros) (i m s g t : ℕ) (q : RtReq)
    → IsAligned d
    → q.nlmsg_len ≡ d.nlmsg_length size_rtmsg
    → (five b₀ b₁ b₂ b₃ b₄ d i m s g t q).nlmsg_len ≤ size_rtreq
five-len b₀ b₁ b₂ b₃ b₄ d i m s g t q a e =
    let q₀ = addreq_if b₀ d rta_oif i q in
    let q₁ = addreq_if b₁ d rta_priority m q₀ in
    let q₂ = addreq_if b₂ d rta_prefsrc s q₁ in
    let q₃ = addreq_if b₃ d rta_gateway g q₂ in
    omega (
      arith,
      e,
      a.message_header,
      addreq_if-len b₀ d rta_oif i q a,
      addreq_if-len b₁ d rta_priority m q₀ a,
      addreq_if-len b₂ d rta_prefsrc s q₁ a,
      addreq_if-len b₃ d rta_gateway g q₂ a,
      addreq_if-len b₄ d rta_dst t q₃ a,
    )

pub five-Carries :
    (b₀ b₁ b₂ b₃ b₄ : Bool) (d : Macros) (i m s g t : ℕ) (q : RtReq)
    → IsAligned d
    → Carries q zero_entry
    → Carries (five b₀ b₁ b₂ b₃ b₄ d i m s g t q) (route_if b₀ b₁ b₂ b₃ b₄ i m s g t)
unfolding parse_attribute
five-Carries b₀ b₁ b₂ b₃ b₄ d i m s g t q a e =
    let q₀ = addreq_if b₀ d rta_oif i q in
    let q₁ = addreq_if b₁ d rta_priority m q₀ in
    let q₂ = addreq_if b₂ d rta_prefsrc s q₁ in
    let q₃ = addreq_if b₃ d rta_gateway g q₂ in
    let r₀ = route_if b₀ false false false false i 0 0 0 0 in
    let r₁ = route_if b₀ b₁ false false false i m 0 0 0 in
    let r₂ = route_if b₀ b₁ b₂ false false i m s 0 0 in
    let r₃ = route_if b₀ b₁ b₂ b₃ false i m s g 0 in
    set_by b₄ d rta_dst t q₃ r₃ _ a
      (set_by b₃ d rta_gateway g q₂ r₂ r₃ a
        (set_by b₂ d rta_prefsrc s q₁ r₁ r₂ a
          (set_by b₁ d rta_priority m q₀ r₀ r₁ a
            (set_by b₀ d rta_oif i q zero_entry r₀ a e
              (elim b₀
                as (λ b.
                  (if b
                    then parse_attribute (record { rta_type = rta_oif; word = i }) zero_entry
                    else zero_entry)
                  ≡ route_if b false false false false i 0 0 0 0) [ true ↦ refl | false ↦ refl ]))
            (elim b₁
              as (λ b.
                (if b
                  then parse_attribute (record { rta_type = rta_priority; word = m }) r₀
                  else r₀)
                ≡ route_if b₀ b false false false i m 0 0 0) [ true ↦ refl | false ↦ refl ]))
          (elim b₂
            as (λ b.
              (if b then parse_attribute (record { rta_type = rta_prefsrc; word = s }) r₁ else r₁)
              ≡ route_if b₀ b₁ b false false i m s 0 0) [ true ↦ refl | false ↦ refl ]))
        (elim b₃
          as (λ b.
            (if b then parse_attribute (record { rta_type = rta_gateway; word = g }) r₂ else r₂)
            ≡ route_if b₀ b₁ b₂ b false i m s g 0) [ true ↦ refl | false ↦ refl ]))
      (elim b₄
        as (λ b.
          (if b then parse_attribute (record { rta_type = rta_dst; word = t }) r₃ else r₃)
          ≡ route_if b₀ b₁ b₂ b₃ b i m s g t) [ true ↦ refl | false ↦ refl ])
