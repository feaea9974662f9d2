-- ===== src/Ods/Interfaces.antt =====
-- lib/ODS/ods_userspace_netlink.cpp: the interface that a forwarded packet came in by.
use unified_routing_framewor.Prelude.{
  ℕ, ◌≡◌, ◌≢◌, ◌⊎◌, inl, inr, refl, ap, ◌∙◌, List, [], ◌∷◌, ◌++◌, none, some, true, false, ==_iff,
  ◌==◌, All, Option, Option-cases, Bool-cases, subst, arith, same_string,
}
use unified_routing_framewor.Prelude.Outcome.{done, fault, overrun}
use unified_routing_framewor.Agent.{RouteRequest}
use unified_routing_framewor.Netlink.{RtInfo, packet_from_other, rt_info_bytes}
use unified_routing_framewor.Ods.{
  Devices, tun_dev_name, ods_recv_msg, get_mac, mac_address_cmp, c_string, find_indev, request_of,
  ods_get_route_request,
}
use unified_routing_framewor.Ods.Bytes.{IsInfo, read_rt_info-back}

-- The loop goes past the interface: it is the tunnel, or its address is another one.
abbrev pub IsPassed : Devices → List ℕ → List ℕ → Type 0
IsPassed d mac name =
    (same_string name tun_dev_name ≡ true)
    ⊎ ((same_string name tun_dev_name ≡ false)
        × (a : List ℕ) × (get_mac d name ≡ some a)
        × (mac_address_cmp mac a ≡ false))

find_indev-passes :
    (d : Devices) (mac name : List ℕ) (l : List (List ℕ)) (r : RouteRequest)
    → IsPassed d mac name
    → find_indev d mac (name ∷ l) r ≡ find_indev d mac l r
unfolding find_indev
find_indev-passes d mac name l r (inl t) = rw (t, find_indev) refl
find_indev-passes d mac name l r (inr (t, a, g, c)) = rw (t, find_indev, g, c) refl

find_indev-skips :
    (d : Devices) (mac : List ℕ) (l m : List (List ℕ)) (r : RouteRequest)
    → All (IsPassed d mac) l
    → find_indev d mac (l ++ m) r ≡ find_indev d mac m r
find_indev-skips d mac [] m r h = refl
find_indev-skips d mac (name ∷ l) m r h =
    find_indev-passes d mac name (l ++ m) r h.0 ∙ find_indev-skips d mac l m r h.1

find_indev-none :
    (d : Devices) (mac : List ℕ) (l : List (List ℕ)) (r : RouteRequest)
    → All (IsPassed d mac) l
    → find_indev d mac l r ≡ done (true, r)
unfolding find_indev
find_indev-none d mac [] r h = refl
find_indev-none d mac (name ∷ l) r h =
    find_indev-passes d mac name l r h.0 ∙ find_indev-none d mac l r h.1

-- An array without a byte 0, or the string at its beginning.
abbrev IsRead : List ℕ → Option (List ℕ) → Type 0
IsRead l none = All (λ b. b ≢ 0) l
IsRead l (some x) = (rest : List ℕ) × (l ≡ x ++ 0 ∷ rest)

c_string-step :
    (a : ℕ) (l : List ℕ) (o : Option (List ℕ))
    → a ≢ 0
    → IsRead l o
    → IsRead (a ∷ l) (elim o as (λ x. Option (List ℕ)) [ none ↦ none | some x ↦ some (a ∷ x) ])
c_string-step a l none z h = (z, h)
c_string-step a l (some x) z (rest, e) = (rest, ap (λ k. a ∷ k) e)

c_string-IsRead : (l : List ℕ) → IsRead l (c_string l)
unfolding c_string
c_string-IsRead [] = tt
c_string-IsRead (a ∷ l) = elim (Bool-cases (a == 0)) [
  | inl h ↦ rw h (l, ap (λ b. b ∷ l) ((==_iff a 0).0 h))
  | inr h ↦ rw h (c_string-step a l (c_string l) (λ e. ground (arith, h, e)) (c_string-IsRead l))
]

find_indev-overrun :
    (d : Devices) (mac name a : List ℕ) (l : List (List ℕ)) (r : RouteRequest)
    → same_string name tun_dev_name ≡ false
    → get_mac d name ≡ some a
    → mac_address_cmp mac a ≡ true
    → c_string mac ≡ none
    → find_indev d mac (name ∷ l) r ≡ fault overrun
unfolding find_indev
find_indev-overrun d mac name a l r t g c n = rw (t, find_indev, g, c, n) refl

find_indev-index :
    (d : Devices) (mac name a x : List ℕ) (l : List (List ℕ)) (r : RouteRequest)
    → same_string name tun_dev_name ≡ false
    → get_mac d name ≡ some a
    → mac_address_cmp mac a ≡ true
    → c_string mac ≡ some x
    → find_indev d mac (name ∷ l) r ≡ done (true, record r { input_ifindex = d.if_nametoindex x })
unfolding find_indev
find_indev-index d mac name a x l r t g c n = rw (t, find_indev, g, c, n) refl

ods_get_route_request-other :
    (d : Devices) (received : List ℕ) (i : RtInfo)
    → ods_recv_msg (some received) ≡ i
    → i.packet_source_type ≡ packet_from_other
    → ods_get_route_request d (some received) ≡ find_indev d i.mac_dst_addr d.names (request_of i)
unfolding ods_get_route_request
ods_get_route_request-other d received i e h = rw (e, ods_get_route_request, h) refl

-- Of the message about a forwarded packet, whose fields are in their ranges, `ODS_get_route_request`
-- makes a request without an index where each interface is the tunnel or has another address than the
-- packet was sent to. Where an interface behind such ones, not the tunnel, has this address, the
-- interface's name is not used: either no byte of the address is 0, and the function reads behind
-- the array of the address, or it stores the index of an interface that is named by the bytes of
-- the address before the first 0.
pub ods_get_route_request-indev :
    (d : Devices) (memory : ℕ → ℕ) (i : RtInfo) (l m : List (List ℕ)) (name a : List ℕ)
    → IsInfo i
    → i.packet_source_type ≡ packet_from_other
    → All (IsPassed d i.mac_dst_addr) l
    → same_string name tun_dev_name ≡ false
    → get_mac d name ≡ some a
    → mac_address_cmp i.mac_dst_addr a ≡ true
    → (let got = λ (names : List (List ℕ)).
          ods_get_route_request (record d { names = names }) (some (rt_info_bytes memory i)) in
        (got l ≡ done (true, request_of i))
        × ((All (λ b. b ≢ 0) i.mac_dst_addr × (got (l ++ name ∷ m) ≡ fault overrun))
            ⊎ ((x rest : List ℕ) × (i.mac_dst_addr ≡ x ++ 0 ∷ rest)
                × (got (l ++ name ∷ m)
                    ≡ done (true, record (request_of i) { input_ifindex = d.if_nametoindex x })))))
ods_get_route_request-indev d memory i l m name a v o h t g c =
    let got = λ (names : List (List ℕ)).
      ods_get_route_request-other (record d { names = names }) (rt_info_bytes memory i) i
        (read_rt_info-back memory i v) o in
    let all = l ++ name ∷ m in
    let e : Devices = record d { names = all } in
    let mac = i.mac_dst_addr in
    let skips = got all ∙ find_indev-skips e mac l (name ∷ m) (request_of i) h in
    let read = c_string-IsRead mac in
    (
      got l ∙ find_indev-none (record d { names = l }) mac l (request_of i) h,
      elim (Option-cases (c_string mac)) [
        | inl n ↦ inl (
          subst (IsRead mac) n read,
          skips ∙ find_indev-overrun e mac name a m (request_of i) t g c n,
        )
        | inr (x, n) ↦
            let (rest, s) = subst (IsRead mac) n read in
            inr (x, rest, s, skips ∙ find_indev-index e mac name a x m (request_of i) t g c n)
      ],
    )
