-- ===== src/Fo.antt =====
-- lib/FO/fo.cpp: the routes of the kernel, which are added, deleted and read by netlink messages. An
-- `int` is its 32 bits. The macros of the system's headers that align and measure messages, and what
-- the system answers, are arguments; the headers' constants are constructors.
pub mod Carried
pub mod Words
pub mod Requests
pub mod Routes
pub mod Answers
pub mod Table
use unified_routing_framewor.Prelude.{
  ℕ, zero, suc, ◌+◌, ◌*◌, ◌-◌, ◌%◌, ◌^◌, List, [], ◌∷◌, ◌++◌, Option, none, some, Bool, true, false,
  not, ltb, leb, ◌==◌, ◌&&◌, if◌then◌else◌, get_elem?, set_elem,
}
use unified_routing_framewor.Prelude.Outcome.{Outcome, done, fault, overrun, hang, ◌>>=◌}

-- The kinds of attributes and of messages, and the flags, that the code names.
pub data Rta : Type 0 where
  rta_oif rta_gateway rta_prefsrc rta_dst rta_table rta_priority : Rta
  rta_other : ℕ → Rta

pub data NlmsgType : Type 0 where
  rtm_newroute rtm_delroute rtm_getroute nlmsg_done nlmsg_error : NlmsgType
  nlmsg_other : ℕ → NlmsgType

pub data NlmFlag : Type 0 where
  nlm_f_request nlm_f_ack nlm_f_create nlm_f_replace nlm_f_dump : NlmFlag

-- An attribute, whose data are always a word.
pub record RtAttr : Type 0 where
  pub rta_type : Rta
  pub word : ℕ

-- A store of an attribute into a message: where it begins, its `rta_len`, and the attribute.
pub record Stored : Type 0 where
  pub offset : ℕ
  pub rta_len : ℕ
  pub attribute : RtAttr

-- `struct rtreq`, cleared and then filled; `buf` has the stores behind the header, newest first. The members `rtm_family`, `rtm_flags`, `rtm_table`, `rtm_type`, `rtm_protocol` and
-- `rtm_scope`, which each function sets to constants, are left out.
pub record RtReq : Type 0 where
  pub nlmsg_len : ℕ
  pub nlmsg_type : NlmsgType
  pub nlmsg_flags : List NlmFlag
  pub rtm_dst_len : ℕ
  pub buf : List Stored

-- `struct route_entry`, without the pointer, which is not used.
pub record RouteInfo : Type 0 where
  pub dst : ℕ
  pub gateway : ℕ
  pub ifindex : ℕ
  pub metric : ℕ
  pub src : ℕ
  pub table : ℕ

-- `NLMSG_ALIGN`, `NLMSG_LENGTH` and `RTA_LENGTH`; where RTM_RTA finds the first attribute of a
-- message, RTM_PAYLOAD by the length of the message, RTA_OK by the `rta_len` of the attribute and the
-- bytes that are left, and by how much RTA_NEXT moves on.
pub record Macros : Type 0 where
  pub rtm_rta : ℕ
  pub rtm_payload : ℕ → ℕ
  pub rta_ok : ℕ → ℕ → Bool
  pub rta_next : ℕ → ℕ
  pub nlmsg_align : ℕ → ℕ
  pub nlmsg_length : ℕ → ℕ
  pub rta_length : ℕ → ℕ

-- The header of an answer, with what NLMSG_OK says of it and, of an error message, its `error`.
pub record Answer : Type 0 where
  pub is_ok : Bool
  pub nlmsg_type : NlmsgType
  pub nlmsg_len : ℕ
  pub error : ℕ

-- What `sendmsg` and `recvmsg` come to: whether the message is sent, and the answer.
pub record Exchange : Type 0 where
  pub is_sent : Bool
  pub answer : Option Answer

abbrev pub minus_one : ℕ
minus_one = 2 ^ 32 - 1

abbrev pub is_negative : ℕ → Bool
is_negative n = leb (2 ^ 31) n

-- `sizeof(struct rtmsg)`, `sizeof(struct nlmsgerr)`, and of the library's own `struct rtreq` and
-- `struct route_entry`.
abbrev pub size_rtmsg : ℕ
size_rtmsg = 12

abbrev pub size_nlmsgerr : ℕ
size_nlmsgerr = 20

abbrev pub size_rtreq : ℕ
size_rtreq = 1052

abbrev pub size_route_entry : ℕ
size_route_entry = 32

-- `netlink_addreq` with the four bytes of a word.
unfoldable pub netlink_addreq : Macros → Rta → ℕ → RtReq → RtReq
netlink_addreq d kind data_word n = record n {
  nlmsg_len = d.nlmsg_align n.nlmsg_len + d.rta_length 4;
  buf =
      record {
        offset = d.nlmsg_align n.nlmsg_len;
        rta_len = d.rta_length 4;
        attribute = record { rta_type = kind; word = data_word };
      }
      ∷ n.buf;
}

abbrev pub addreq_if : Bool → Macros → Rta → ℕ → RtReq → RtReq
addreq_if b d kind data_word n = if b then netlink_addreq d kind data_word n else n

-- `netlink_send_update_request`, from the answer on.
unfoldable pub update_answer : Macros → Answer → ℕ
update_answer d h = if not h.is_ok then minus_one else elim h.nlmsg_type [
  | nlmsg_error ↦
      if ltb h.nlmsg_len (d.nlmsg_length size_nlmsgerr)
      then minus_one
      else (2 ^ 32 - h.error) % 2 ^ 32
  | rtm_newroute ↦ minus_one
  | rtm_delroute ↦ minus_one
  | rtm_getroute ↦ minus_one
  | nlmsg_done ↦ minus_one
  | nlmsg_other n ↦ minus_one
]

-- `netlink_send_update_request`
unfoldable pub netlink_send_update_request : Macros → Exchange → ℕ
netlink_send_update_request d x =
    if x.is_sent then elim x.answer [ none ↦ minus_one | some h ↦ update_answer d h ] else minus_one

-- The body of the loop of `parseRoutes`.
unfoldable pub parse_attribute : RtAttr → RouteInfo → RouteInfo
parse_attribute a r = elim a.rta_type [
  | rta_oif ↦ record r { ifindex = a.word }
  | rta_gateway ↦ record r { gateway = a.word }
  | rta_prefsrc ↦ record r { src = a.word }
  | rta_dst ↦ record r { dst = a.word }
  | rta_table ↦ record r { table = a.word }
  | rta_priority ↦ record r { metric = a.word }
  | rta_other n ↦ r
]

-- `parseRoutes`
unfoldable pub parse_routes : List RtAttr → RouteInfo → RouteInfo
parse_routes [] r = r
parse_routes (a ∷ l) r = parse_routes l (parse_attribute a r)

-- The attribute that a reader finds at an offset: the newest store there, if no newer one overlaps it.
unfoldable pub stored_at : ℕ → List Stored → Option Stored
stored_at at [] = none
stored_at at (w ∷ l) =
    if w.offset == at
    then some w
    else if ltb w.offset (at + 8) && ltb at (w.offset + w.rta_len)
    then none
    else stored_at at l

-- The attributes that the loop of `parseRoutes` comes to, from an offset on, with `rtLen` bytes left.
-- Where nothing is stored the memory is 0, and so is `rta_len`.
unfoldable pub attributes_from : Macros → ℕ → ℕ → ℕ → List Stored → List RtAttr
attributes_from d zero at rt_len buf = []
attributes_from d (suc fuel) at rt_len buf = elim (stored_at at buf) [
  | none ↦ []
  | some w ↦
      if d.rta_ok w.rta_len rt_len
      then w.attribute
        ∷ attributes_from d fuel (at + d.rta_next w.rta_len) (rt_len - d.rta_next w.rta_len) buf
      else []
]

-- The attributes of a request, by its length.
unfoldable pub request_attributes : Macros → RtReq → List RtAttr
request_attributes d q = attributes_from d q.nlmsg_len d.rtm_rta (d.rtm_payload q.nlmsg_len) q.buf

-- The request of `FO_add_a_route`.
unfoldable pub add_request : Macros → ℕ → ℕ → ℕ → ℕ → ℕ → ℕ → RtReq
add_request d dst netmask gateway ifindex metric src =
    let req : RtReq = record {
      nlmsg_len = d.nlmsg_length size_rtmsg;
      nlmsg_type = rtm_newroute;
      nlmsg_flags = nlm_f_request ∷ nlm_f_ack ∷ nlm_f_create ∷ nlm_f_replace ∷ [];
      rtm_dst_len = netmask % 256;
      buf = [];
    } in
    let with_oif = netlink_addreq d rta_oif ifindex req in
    let with_priority = addreq_if (not (is_negative metric)) d rta_priority metric with_oif in
    let with_prefsrc = addreq_if (not (src == 0)) d rta_prefsrc src with_priority in
    netlink_addreq d rta_dst dst (netlink_addreq d rta_gateway gateway with_prefsrc)

-- The return value of `FO_add_a_route` and `FO_delete_a_route`, by that of the request.
abbrev pub update_result : ℕ → ℕ
update_result err = if err == 0 then 0 else minus_one

-- `FO_add_a_route`
unfoldable pub fo_add_a_route : Macros → Exchange → ℕ → ℕ → ℕ → ℕ → ℕ → ℕ → Option RtReq × ℕ
fo_add_a_route d x dst netmask gateway ifindex metric src = (
  some (add_request d dst netmask gateway ifindex metric src),
  update_result (netlink_send_update_request d x),
)

-- The request of `FO_delete_a_route`.
unfoldable pub delete_request : Macros → ℕ → ℕ → ℕ → ℕ → ℕ → RtReq
delete_request d dst gateway ifindex metric src =
    let req : RtReq = record {
      nlmsg_len = d.nlmsg_length size_rtmsg;
      nlmsg_type = rtm_delroute;
      nlmsg_flags = nlm_f_request ∷ nlm_f_ack ∷ [];
      rtm_dst_len = 32;
      buf = [];
    } in
    let with_oif = addreq_if (not (is_negative ifindex)) d rta_oif ifindex req in
    let with_priority = addreq_if (not (is_negative metric)) d rta_priority metric with_oif in
    let with_prefsrc = addreq_if (not (src == 0)) d rta_prefsrc src with_priority in
    let with_gateway = addreq_if (not (gateway == 0)) d rta_gateway gateway with_prefsrc in
    addreq_if (not (dst == 0)) d rta_dst dst with_gateway

-- `FO_delete_a_route`; without a target it sends nothing.
unfoldable pub fo_delete_a_route : Macros → Exchange → ℕ → ℕ → ℕ → ℕ → ℕ → Option RtReq × ℕ
fo_delete_a_route d x dst gateway ifindex metric src =
    if (dst == 0) && (gateway == 0) && is_negative ifindex then (none, minus_one) else (
      some (delete_request d dst gateway ifindex metric src),
      update_result (netlink_send_update_request d x),
    )
