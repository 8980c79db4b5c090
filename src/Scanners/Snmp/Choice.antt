-- ===== src/Scanners/Snmp/Choice.antt =====
-- One address for each MAC of a neighbour table.
pub mod Single
use oott.Prelude.{
  Bool, true, false, ◌&&◌, ◌||◌, ◌⊎◌, ◌≡◌, ◌≢◌, refl, Option, none, some, List, [], ◌∷◌, any, All,
  arith, any-append, Bool-cases, inl, inr, if◌then◌else◌,
}
use oott.Prelude.Text.{Text, text_eq, text_eq_iff}
use oott.Db.{text_le}
use oott.Db.Sorting.{text_le_total}
use oott.Scanners.Ipv4.{Ipv4Addr, ip_eq, ip_le}
use oott.Scanners.Snmp.{
  IpsByMac, push_ip, add_pair, group_pairs, lowest, choose_ip, choose_all, dedup_by_mac,
}

-- Whether a pair is listed, and whether it is in a group.
abbrev pub is_pair : Text → Ipv4Addr → Text × Ipv4Addr → Bool
is_pair m i p = text_eq p.0 m && ip_eq i p.1

abbrev pub in_group : Text → Ipv4Addr → Text × List Ipv4Addr → Bool
in_group m i g = text_eq g.0 m && any (ip_eq i) g.1

-- Equal addresses have the same octets.
ip_eq_sound : (i j k : Ipv4Addr) → ip_eq i j ≡ true → ip_eq i k ≡ ip_eq j k
ip_eq_sound i j k h = ground arith

any-ip_eq :
    (i j : Ipv4Addr) (ips : List Ipv4Addr)
    → ip_eq i j ≡ true
    → any (ip_eq i) ips ≡ any (ip_eq j) ips
any-ip_eq i j [] h = refl
any-ip_eq i j (k ∷ ips) h = rw (ip_eq_sound i j k h, any-ip_eq i j ips h) refl

any-push_ip :
    (i ip : Ipv4Addr) (ips : List Ipv4Addr)
    → any (ip_eq i) (push_ip ip ips) ≡ (any (ip_eq i) ips || ip_eq i ip)
any-push_ip i ip ips = elim (Bool-cases (ip_eq i ip)) [
  | inl e ↦ ground (arith, any-ip_eq i ip ips e, any-append (ip_eq i) ips (ip ∷ []))
  | inr e ↦ ground (arith, any-append (ip_eq i) ips (ip ∷ []))
]

-- A pair is in a group exactly if it was listed.
any-add_pair :
    (m mac : Text) (i ip : Ipv4Addr) (groups : IpsByMac)
    → any (in_group m i) (add_pair mac ip groups)
      ≡ (any (in_group m i) groups || is_pair m i (mac, ip))
unfolding add_pair
any-add_pair m mac i ip [] = ground arith
any-add_pair m mac i ip ((k, ips) ∷ groups) =
    ground (arith, any-add_pair m mac i ip groups, text_eq_iff k mac, any-push_ip i ip ips)

pub any-group_pairs :
    (m : Text) (i : Ipv4Addr) (groups : IpsByMac) (pairs : List (Text × Ipv4Addr))
    → any (in_group m i) (group_pairs groups pairs)
      ≡ (any (in_group m i) groups || any (is_pair m i) pairs)
unfolding group_pairs
any-group_pairs m i groups [] = ground arith
any-group_pairs m i groups ((mac, ip) ∷ pairs) =
    ground
      (arith, any-group_pairs m i (add_pair mac ip groups) pairs, any-add_pair m mac i ip groups)

-- No group is empty, so every group has a lowest address.
abbrev pub AreNonEmpty : IpsByMac → Type 0
AreNonEmpty [] = Unit
AreNonEmpty ((k, ips) ∷ groups) = (ips ≢ []) × AreNonEmpty groups

push_ip-ne-nil : (ip : Ipv4Addr) (ips : List Ipv4Addr) → push_ip ip ips ≢ []
push_ip-ne-nil ip [] = ground arith
push_ip-ne-nil ip (i ∷ ips) = ground arith

add_pair-AreNonEmpty :
    (mac : Text) (ip : Ipv4Addr) (groups : IpsByMac)
    → AreNonEmpty groups
    → AreNonEmpty (add_pair mac ip groups)
unfolding add_pair
add_pair-AreNonEmpty mac ip [] h = (ground arith, tt)
add_pair-AreNonEmpty mac ip ((k, ips) ∷ groups) (g, h) =
    ground (arith, add_pair-AreNonEmpty mac ip groups h, push_ip-ne-nil ip ips)

pub group_pairs-AreNonEmpty :
    (groups : IpsByMac) (pairs : List (Text × Ipv4Addr))
    → AreNonEmpty groups
    → AreNonEmpty (group_pairs groups pairs)
unfolding group_pairs
group_pairs-AreNonEmpty groups [] h = h
group_pairs-AreNonEmpty groups ((mac, ip) ∷ pairs) h =
    group_pairs-AreNonEmpty (add_pair mac ip groups) pairs (add_pair-AreNonEmpty mac ip groups h)

-- Whether the stored address is among some.
abbrev pub is_there : Option Ipv4Addr → List Ipv4Addr → Bool
is_there none ips = false
is_there (some s) ips = any (ip_eq s) ips

-- What is chosen of some candidates: one of them, the stored one where it is among them, and else
-- the one that no other is below.
pub record IsChosen (ips : List Ipv4Addr) (stored : Option Ipv4Addr) (ip : Ipv4Addr) : Type 0 where
  pub candidate : any (ip_eq ip) ips ≡ true
  pub best : (stored ≡ some ip) ⊎ ((is_there stored ips ≡ false) × All (λ i. ip_le ip i ≡ true) ips)

ip_eq_refl : (i : Ipv4Addr) → ip_eq i i ≡ true
ip_eq_refl i = ground arith

ip_le_trans : (i j k : Ipv4Addr) → ip_le i j ≡ true → ip_le j k ≡ true → ip_le i k ≡ true
ip_le_trans i j k h l = ground arith

All-below :
    (i j : Ipv4Addr) (ips : List Ipv4Addr)
    → ip_le i j ≡ true
    → All (λ k. ip_le j k ≡ true) ips
    → All (λ k. ip_le i k ≡ true) ips
All-below i j [] h l = tt
All-below i j (k ∷ ips) h (m, l) = (ip_le_trans i j k h m, All-below i j ips h l)

ip_le_total : (i j : Ipv4Addr) → ip_le i j ≡ false → ip_le j i ≡ true
ip_le_total i j h = ground arith

-- One of the addresses that no other is below.
abbrev IsLowest : List Ipv4Addr → Ipv4Addr → Type 0
IsLowest ips least = (any (ip_eq least) ips ≡ true) × All (λ i. ip_le least i ≡ true) ips

IsLowest-cons :
    (ip least : Ipv4Addr) (ips : List Ipv4Addr) (lower : Bool)
    → ip_le ip least ≡ lower
    → IsLowest ips least
    → IsLowest (ip ∷ ips) (if lower then ip else least)
IsLowest-cons ip least ips true e (h, l) =
    (ground (arith, ip_eq_refl ip), (ground arith, All-below ip least ips e l))
IsLowest-cons ip least ips false e (h, l) = (ground (arith, h), (ip_le_total ip least e, l))

lowest-IsLowest :
    (ip : Ipv4Addr) (ips : List Ipv4Addr)
    → (least : Ipv4Addr) × (lowest (ip ∷ ips) ≡ some least) × IsLowest (ip ∷ ips) least
unfolding lowest
lowest-IsLowest ip [] = (ip, refl, (ground (arith, ip_eq_refl ip), (ground arith, tt)))
lowest-IsLowest ip (i ∷ ips) =
    let (least, e, h) = lowest-IsLowest i ips in
    (
      if ip_le ip least then ip else least,
      rw e refl,
      IsLowest-cons ip least (i ∷ ips) (ip_le ip least) refl h,
    )

-- `choose_ip` always chooses, of candidates of which there is one.
choose_ip-IsChosen :
    (ip : Ipv4Addr) (ips : List Ipv4Addr) (stored : Option Ipv4Addr)
    → (chosen : Ipv4Addr) × (choose_ip (ip ∷ ips) stored ≡ some chosen)
      × IsChosen (ip ∷ ips) stored chosen
unfolding choose_ip
choose_ip-IsChosen ip ips none =
    let (least, e, (h, l)) = lowest-IsLowest ip ips in
    (least, e, record { candidate = h; best = inr (refl, l) })
choose_ip-IsChosen ip ips (some s) = elim (Bool-cases (any (ip_eq s) (ip ∷ ips))) [
  | inl e ↦ (s, rw e refl, record { candidate = e; best = inl refl })
  | inr e ↦
      let (least, f, (h, l)) = lowest-IsLowest ip ips in
      (least, rw e f, record { candidate = h; best = inr (e, l) })
]

-- The groups are in strictly increasing order of their MACs, so that no MAC has two.
abbrev pub AreSorted : IpsByMac → Type 0
AreSorted [] = Unit
AreSorted (g ∷ []) = Unit
AreSorted (g ∷ h ∷ groups) =
    (text_le g.0 h.0 ≡ true) × (text_eq g.0 h.0 ≡ false) × AreSorted (h ∷ groups)

pub text_eq_symm : (s t : Text) → text_eq s t ≡ text_eq t s
text_eq_symm s t = ground (arith, text_eq_iff s t, text_eq_iff t s)

add_pair-AreSorted :
    (mac : Text) (ip : Ipv4Addr) (groups : IpsByMac)
    → AreSorted groups
    → AreSorted (add_pair mac ip groups)
unfolding add_pair
add_pair-AreSorted mac ip [] h = tt
add_pair-AreSorted mac ip ((k, ips) ∷ []) h =
    let t = text_le_total k mac in let e = text_eq_symm k mac in ground (arith, t, e)
add_pair-AreSorted mac ip ((k, ips) ∷ (l, js) ∷ groups) (a, b, h) =
    let t = text_le_total k mac in
    let e = text_eq_symm k mac in
    let r = add_pair-AreSorted mac ip ((l, js) ∷ groups) h in ground (arith, t, e, r)

pub group_pairs-AreSorted :
    (groups : IpsByMac) (pairs : List (Text × Ipv4Addr))
    → AreSorted groups
    → AreSorted (group_pairs groups pairs)
unfolding group_pairs
group_pairs-AreSorted groups [] h = h
group_pairs-AreSorted groups ((mac, ip) ∷ pairs) h =
    group_pairs-AreSorted (add_pair mac ip groups) pairs (add_pair-AreSorted mac ip groups h)

-- What is chosen for the groups: of each group, in their order, its MAC and its choice.
abbrev pub AreChosen : (Text → Option Ipv4Addr) → IpsByMac → List (Text × Ipv4Addr) → Type 0
AreChosen stored_ip [] [] = Unit
AreChosen stored_ip [] (p ∷ out) = ⊥
AreChosen stored_ip (g ∷ groups) [] = ⊥
AreChosen stored_ip ((k, ips) ∷ groups) ((mac, ip) ∷ out) =
    (mac ≡ k) × IsChosen ips (stored_ip k) ip × AreChosen stored_ip groups out

pub choose_all-AreChosen :
    (stored_ip : Text → Option Ipv4Addr) (groups : IpsByMac)
    → AreNonEmpty groups
    → (out : List (Text × Ipv4Addr)) × (choose_all stored_ip groups ≡ some out)
      × AreChosen stored_ip groups out
unfolding choose_all
choose_all-AreChosen stored_ip [] h = ([], refl, tt)
choose_all-AreChosen stored_ip ((k, []) ∷ groups) (g, h) = absurd (g refl)
choose_all-AreChosen stored_ip ((k, ip ∷ ips) ∷ groups) (g, h) =
    let (chosen, e, c) = choose_ip-IsChosen ip ips (stored_ip k) in
    let (out, f, cs) = choose_all-AreChosen stored_ip groups h in
    ((k, chosen) ∷ out, rw (e, f) refl, (refl, c, cs))

-- The choice never panics. There are groups of addresses, in strictly increasing order of their
-- MACs, that hold exactly the pairs listed; the answer has the MAC of each group, in this order,
-- with one of its addresses: the stored one where it is in the group, and else the lowest.
pub dedup_by_mac-AreChosen :
    (pairs : List (Text × Ipv4Addr)) (stored_ip : Text → Option Ipv4Addr)
    → (groups : IpsByMac) × (out : List (Text × Ipv4Addr)) × (dedup_by_mac pairs stored_ip
        ≡ some out)
      × AreChosen stored_ip groups out
      × AreSorted groups
      × ((m : Text) (i : Ipv4Addr) → any (in_group m i) groups ≡ any (is_pair m i) pairs)
unfolding dedup_by_mac
dedup_by_mac-AreChosen pairs stored_ip =
    let groups = group_pairs [] pairs in
    let (out, e, c) = choose_all-AreChosen stored_ip groups (group_pairs-AreNonEmpty [] pairs tt) in
    (groups, out, e, c, group_pairs-AreSorted [] pairs tt, λ m i. any-group_pairs m i [] pairs)
