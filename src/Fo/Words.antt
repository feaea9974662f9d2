-- ===== src/Fo/Words.antt =====
-- lib/FO/fo.cpp: the words of a request, and what `parseRoutes` reads from them.
use unified_routing_framewor.Prelude.{
  ℕ, ◌+◌, ◌≤◌, ◌≡◌, refl, ap, ◌∙◌, List, [], ◌∷◌, ◌++◌, true, false, arith, if◌then◌else◌, zero,
  suc, ◌*◌, ◌-◌, ◌<◌, none, some, leb, length, length-append,
}
use unified_routing_framewor.Fo.{
  Stored, stored_at, attributes_from, request_attributes, Rta, RtAttr, RtReq, RouteInfo, Macros,
  size_rtmsg, netlink_addreq, parse_attribute, parse_routes,
}
use unified_routing_framewor.Fo.Routes.{zero_entry}

-- What the headers say of their macros: aligning adds at most 3 bytes, and none to a multiple of 4; the
-- headers of a message and of an attribute have 16 and 4 bytes; an attribute of 8 bytes is followed
-- at once by the next, and there is one as long as 8 bytes are left.
pub record IsAligned (d : Macros) : Type 0 where
  pub align_bound : (n : ℕ) → d.nlmsg_align n ≤ n + 3
  pub align_exact : (n : ℕ) → d.nlmsg_align (4 * n) ≡ 4 * n
  pub message_header : d.nlmsg_length size_rtmsg ≡ 16 + size_rtmsg
  pub attribute_header : d.rta_length 4 ≡ 8
  pub first : d.rtm_rta ≡ 16 + size_rtmsg
  pub payload : (n : ℕ) → d.rtm_payload (16 + size_rtmsg + n) ≡ n
  pub ok : (n : ℕ) → d.rta_ok 8 n ≡ leb 8 n
  pub ok_end : (k : ℕ) → d.rta_ok k 0 ≡ false
  pub next : d.rta_next 8 ≡ 8

-- The route that the receiver reads from a request.
abbrev pub parsed : Macros → RtReq → RouteInfo
parsed d q = parse_routes (request_attributes d q) zero_entry

pub parse_routes-append :
    (l m : List RtAttr) (r : RouteInfo)
    → parse_routes (l ++ m) r ≡ parse_routes m (parse_routes l r)
unfolding parse_routes
parse_routes-append [] m r = refl
parse_routes-append (a ∷ l) m r = parse_routes-append l m (parse_attribute a r)

-- The stores hold the attributes one behind the other, from an offset on.
abbrev pub Holds : ℕ → List RtAttr → List Stored → Type 0
Holds at [] b = Unit {0}
Holds at (a ∷ l) b =
    (stored_at at b ≡ some (record { offset = at; rta_len = 8; attribute = a }))
    × Holds (at + 8) l b

stored_at-behind :
    (at : ℕ) (w : Stored) (b : List Stored)
    → at + 8 ≤ w.offset
    → stored_at at (w ∷ b) ≡ stored_at at b
unfolding stored_at
stored_at-behind at w b h = ground (arith, h)

Holds-append :
    (at : ℕ) (l : List RtAttr) (w : Stored) (b : List Stored)
    → Holds at l b
    → w.offset ≡ at + 8 * length l
    → w.rta_len ≡ 8
    → Holds at (l ++ w.attribute ∷ []) (w ∷ b)
unfolding stored_at
Holds-append at [] w b h e n =
    let same : w.offset ≡ at = omega (arith, e) in (ground (arith, same, n), tt)
Holds-append at (a ∷ l) w b (h, hs) e n = (
  stored_at-behind at w b (omega (arith, e)) ∙ h,
  Holds-append (at + 8) l w b hs (omega (arith, e)) n,
)

-- A request with the attributes that the reader finds in it.
pub record IsBuilt (q : RtReq) (l : List RtAttr) : Type 0 where
  pub measured : q.nlmsg_len ≡ 28 + 8 * length l
  pub holds : Holds 28 l q.buf

pub netlink_addreq-IsBuilt :
    (d : Macros) (k : Rta) (w : ℕ) (q : RtReq) (l : List RtAttr)
    → IsAligned d
    → IsBuilt q l
    → IsBuilt (netlink_addreq d k w q) (l ++ record { rta_type = k; word = w } ∷ [])
unfolding netlink_addreq
netlink_addreq-IsBuilt d k w q l a b =
    let four : q.nlmsg_len ≡ 4 * (7 + 2 * length l) = omega (arith, b.measured) in
    let exact = ap d.nlmsg_align four ∙ a.align_exact (7 + 2 * length l) in
    record {
      measured = omega (
        arith,
        exact,
        a.attribute_header,
        length-append l (record { rta_type = k; word = w } ∷ []),
      );
      holds = Holds-append 28 l _ q.buf b.holds (omega (arith, exact)) a.attribute_header;
    }

attributes_from-Holds :
    (d : Macros) (fuel at : ℕ) (l : List RtAttr) (b : List Stored)
    → IsAligned d
    → Holds at l b
    → length l < fuel
    → attributes_from d fuel at (8 * length l) b ≡ l
unfolding attributes_from
attributes_from-Holds d zero at l b a h f = ground (arith, f)
attributes_from-Holds d (suc fuel) at [] b a h f =
    elim (stored_at at b)
      as (λ o.
        (elim o as (λ x. List RtAttr) [
          | none ↦ []
          | some w ↦
              if d.rta_ok w.rta_len 0
              then w.attribute
                ∷ attributes_from d fuel (at + d.rta_next w.rta_len) (0 - d.rta_next w.rta_len) b
              else []
        ])
        ≡ []) [ none ↦ refl | some w ↦ rw (a.ok_end w.rta_len) refl ]
attributes_from-Holds d (suc fuel) at (x ∷ l) b a (h, hs) f =
    let go : d.rta_ok 8 (8 * length (x ∷ l)) ≡ true = ground (arith, a.ok (8 * length (x ∷ l))) in
    let left : 8 * length (x ∷ l) - 8 ≡ 8 * length l = omega arith in
    rw (h, attributes_from, go, a.next, left)
      (ap (λ k. x ∷ k) (attributes_from-Holds d fuel (at + 8) l b a hs (omega (arith, f))))

-- The reader of a request finds what it was built of.
pub IsBuilt-parsed :
    (d : Macros) (q : RtReq) (l : List RtAttr)
    → IsAligned d
    → IsBuilt q l
    → request_attributes d q ≡ l
unfolding request_attributes
IsBuilt-parsed d q l a b =
    let fuel = 28 + 8 * length l in
    let left = d.rtm_payload q.nlmsg_len in
    ap (λ n. attributes_from d n d.rtm_rta left q.buf) b.measured
    ∙ ap (λ o. attributes_from d fuel o left q.buf) a.first
    ∙ ap (λ n. attributes_from d fuel 28 n q.buf)
        (ap d.rtm_payload b.measured ∙ a.payload (8 * length l))
    ∙ attributes_from-Holds d fuel 28 l q.buf a b.holds (omega arith)
