-- ===== src/ErrorReports/Wire.antt =====
-- `copyIntoBuf` and `createRERR` of LA_Client_aodv/rerr.cc: a route error as bytes. The byte of the
-- type and the reserved byte, which the constructor sets, are written and then not looked at. A number
-- of 32 bits is stored with its low byte first.
use unified_routing_framewor.Prelude.{
  ℕ, zero, suc, ◌*◌, ◌/◌, ◌^◌, ◌<◌, ◌≡◌, refl, List, [], ◌∷◌, ◌++◌, Option, none, some, arith,
  length, All, ap, sym, subst, ◌==◌, if◌then◌else◌, ◌∙◌,
}
use unified_routing_framewor.LaMessage.{word_bytes, word_of, word_of-word_bytes}
use unified_routing_framewor.Packets.{Rerr, UnrchDest}
use unified_routing_framewor.ErrorReports.{set_n_flag, set_unrch_dest, empty_rerr}

-- AODV_RERR
abbrev pub aodv_rerr : ℕ
aodv_rerr = 3

-- The loop of `copyIntoBuf`.
unfoldable pub copy_dests : List UnrchDest → List ℕ
copy_dests [] = []
copy_dests (u ∷ us) = word_bytes u.dest_ip ++ word_bytes u.dest_seq_num ++ copy_dests us

-- `copyIntoBuf`: the bytes that it writes. `getN` is 1 or 0.
unfoldable pub copy_into_buf : Rerr → List ℕ
copy_into_buf r =
    aodv_rerr
    ∷ (if r.n_flag == 1 then 1 else 0) * 2 ^ 7
    ∷ 0
    ∷ r.dest_cnt
    ∷ copy_dests r.unreachable_dest

-- The loop of `createRERR`, with the rounds that are left; `none` where it reads behind the bytes.
unfoldable pub read_dests : ℕ → List ℕ → Rerr → Option Rerr
read_dests zero buf r = some r
read_dests (suc n) (a ∷ b ∷ c ∷ d ∷ e ∷ f ∷ g ∷ h ∷ buf) r =
    read_dests n buf (set_unrch_dest (word_of a b c d) (word_of e f g h) r)
read_dests (suc n) _ r = none

-- `createRERR`, on a fresh object.
unfoldable pub create_rerr : List ℕ → Option Rerr
create_rerr (t ∷ n ∷ reserved ∷ cnt ∷ buf) =
    read_dests cnt buf (record (set_n_flag (n / 2 ^ 7) empty_rerr) { dest_cnt = cnt })
create_rerr _ = none

-- A destination that its fields can hold.
abbrev pub InRange : UnrchDest → Type 0
InRange u = (u.dest_ip < 2 ^ 32) × (u.dest_seq_num < 2 ^ 32)

append-nil : {A : Type 0} (l : List A) → l ++ [] ≡ l
append-nil [] = refl
append-nil (x ∷ l) = ap (λ m. x ∷ m) (append-nil l)

append-cons : {A : Type 0} (l : List A) (x : A) (m : List A) → (l ++ x ∷ []) ++ m ≡ l ++ x ∷ m
append-cons [] x m = refl
append-cons (y ∷ l) x m = ap (λ k. y ∷ k) (append-cons l x m)

read_dests-copy_dests :
    (us : List UnrchDest) (junk : List ℕ) (r : Rerr)
    → All InRange us
    → read_dests (length us) (copy_dests us ++ junk) r
      ≡ some (record r { unreachable_dest = r.unreachable_dest ++ us })
unfolding read_dests copy_dests
read_dests-copy_dests [] junk r h = rw (append-nil r.unreachable_dest) refl
read_dests-copy_dests (u ∷ us) junk r h =
    rw (word_of-word_bytes u.dest_ip h.0.0, word_of-word_bytes u.dest_seq_num h.0.1)
      (read_dests-copy_dests us junk (set_unrch_dest u.dest_ip u.dest_seq_num r) h.1
        ∙ (unfold set_unrch_dest in rw (append-cons r.unreachable_dest u us) refl))

flag_back :
    (n : ℕ)
    → n < 2
    → set_n_flag ((if n == 1 then 1 else 0) * 2 ^ 7 / 2 ^ 7) empty_rerr
      ≡ record empty_rerr { n_flag = n }
unfolding set_n_flag
flag_back n h = ground arith

-- `createRERR` reads back the message that `copyIntoBuf` wrote, and ignores what follows it, where the
-- count is the number of the destinations, the flag is a bit and the numbers fit their fields.
pub create_rerr-copy_into_buf :
    (r : Rerr) (junk : List ℕ)
    → r.n_flag < 2
    → r.dest_cnt ≡ length r.unreachable_dest
    → All InRange r.unreachable_dest
    → create_rerr (copy_into_buf r ++ junk) ≡ some r
unfolding create_rerr copy_into_buf
create_rerr-copy_into_buf r junk n c h =
    let rest = copy_dests r.unreachable_dest ++ junk in
    ap (λ x. read_dests r.dest_cnt rest (record x { dest_cnt = r.dest_cnt })) (flag_back r.n_flag n)
    ∙ subst
        (λ x.
          read_dests x rest (record empty_rerr { n_flag = r.n_flag; dest_cnt = r.dest_cnt })
          ≡ some r)
        (sym c)
        (read_dests-copy_dests r.unreachable_dest junk
          (record empty_rerr { n_flag = r.n_flag; dest_cnt = r.dest_cnt }) h)
