-- ===== src/Scanners/Snmp/Choice/Single.antt =====
-- The choice for one MAC, whose stored address is among its addresses.
use oott.Prelude.{
  some_inj, Bool, true, false, ◌≡◌, refl, sym, ap, ◌∙◌, Option, none, some, List, [], ◌∷◌, any,
  keep, inl, inr, Bool-cases, arith,
}
use mathlib.Core.Path.{subst}
use oott.Prelude.Text.{Text, text_eq, text_eq_sound, text_eq_refl}
use oott.Db.{text_le}
use oott.Db.Sorting.{text_le_trans, text_le_antisym}
use oott.Scanners.Ipv4.{Ipv4Addr, ip_eq}
use oott.Scanners.Snmp.{IpsByMac}
use oott.Scanners.Snmp.Choice.{AreSorted, text_eq_symm, in_group, is_there, IsChosen, AreChosen}

ip_eq→eq : (x y : Ipv4Addr) → ip_eq x y ≡ true → x ≡ y
ip_eq→eq x y h = ground arith

same_ip : (x ip : Ipv4Addr) → x ≡ ip → ip_eq x ip ≡ true
same_ip x ip e = ground arith

absent_there :
    (x : Ipv4Addr) (ips : List Ipv4Addr) (stored : Option Ipv4Addr)
    → stored ≡ some x
    → any (ip_eq x) ips ≡ true
    → is_there stored ips ≡ false
    → ⊥
absent_there x ips none e h absent = cc
absent_there x ips (some y) e h absent =
    let there = subst (λ z. any (ip_eq z) ips ≡ true) (sym (some_inj e)) h in cc

chosen-stored :
    (x ip : Ipv4Addr) (ips : List Ipv4Addr) (stored : Option Ipv4Addr)
    → IsChosen ips stored ip
    → stored ≡ some x
    → any (ip_eq x) ips ≡ true
    → ip_eq x ip ≡ true
chosen-stored x ip ips stored h e there = elim h.best [
  | inl chosen ↦ same_ip x ip (some_inj (sym e ∙ chosen))
  | inr (absent, least) ↦ absurd (absent_there x ips stored e there absent)
]

not_both : (b : Bool) → b ≡ true → b ≡ false → ⊥
not_both b h k = cc

-- Sorted groups behind a MAC hold no other group of it.
absent_behind :
    (m : Text) (groups : IpsByMac)
    → AreSorted ((m, []) ∷ groups)
    → any (λ g. text_eq g.0 m) groups ≡ false
absent_behind m [] h = refl
absent_behind m ((k, ips) ∷ []) (le, differs, h) = ground (arith, text_eq_symm m k)
absent_behind m ((k, ips) ∷ (l, js) ∷ groups) (le, differs, (le', differs', h)) =
    let beyond = text_le_trans m k l le le' in
    let other : text_eq m l ≡ false = elim (Bool-cases (text_eq m l)) [
      | inr e ↦ e
      | inl e ↦
          let back = subst (λ t. text_le k t ≡ true) (sym (text_eq_sound m l e)) le' in
          let same = text_le_antisym m k le back in
          absurd (not_both (text_eq m k) (rw same (text_eq_refl k)) differs)
    ] in
    let rest = absent_behind m ((l, js) ∷ groups) (beyond, other, h) in
    ground (arith, rest, text_eq_symm m k)

-- The choices for groups of other MACs.
keep-other :
    (stored_ip : Text → Option Ipv4Addr) (m : Text) (groups : IpsByMac)
    (out : List (Text × Ipv4Addr))
    → AreChosen stored_ip groups out
    → any (λ g. text_eq g.0 m) groups ≡ false
    → keep (λ p. text_eq p.0 m) out ≡ []
keep-other stored_ip m [] [] c h = refl
keep-other stored_ip m [] (p ∷ out) c h = absurd c
keep-other stored_ip m (g ∷ groups) [] c h = absurd c
keep-other stored_ip m ((k, ips) ∷ groups) ((mac, ip) ∷ out) (same, chosen, c) h =
    rw same (ground (arith, keep-other stored_ip m groups out c))

group-named :
    (m : Text) (x : Ipv4Addr) (groups : IpsByMac)
    → any (λ g. text_eq g.0 m) groups ≡ false
    → any (in_group m x) groups ≡ false
group-named m x [] h = refl
group-named m x (g ∷ groups) h = ground (arith, group-named m x groups)

AreSorted-tail :
    (g : Text × List Ipv4Addr) (groups : IpsByMac) → AreSorted (g ∷ groups) → AreSorted groups
AreSorted-tail g [] h = tt
AreSorted-tail g (k ∷ groups) (le, differs, h) = h

AreSorted-empty :
    (k : Text) (ips : List Ipv4Addr) (groups : IpsByMac)
    → AreSorted ((k, ips) ∷ groups)
    → AreSorted ((k, []) ∷ groups)
AreSorted-empty k ips [] h = tt
AreSorted-empty k ips (g ∷ groups) h = h

-- The only choice for a MAC that has its stored address in a group.
pub out-only :
    (stored_ip : Text → Option Ipv4Addr) (m : Text) (x : Ipv4Addr) (groups : IpsByMac)
    (out : List (Text × Ipv4Addr))
    → AreChosen stored_ip groups out
    → AreSorted groups
    → stored_ip m ≡ some x
    → any (in_group m x) groups ≡ true
    → keep (λ p. text_eq p.0 m) out ≡ (m, x) ∷ []
out-only stored_ip m x [] out c sorted e h = absurd (cc)
out-only stored_ip m x (g ∷ groups) [] c sorted e h = absurd c
out-only stored_ip m x ((k, ips) ∷ groups) ((mac, ip) ∷ out) (same, chosen, c) sorted e h =
    elim (Bool-cases (text_eq k m)) [
      | inl named ↦
          let km = text_eq_sound k m named in
          let behind =
            subst (λ t. any (λ g. text_eq g.0 t) groups ≡ false) km
              (absent_behind k groups (AreSorted-empty k ips groups sorted)) in
          let here : any (ip_eq x) ips ≡ true = ground (arith, group-named m x groups behind) in
          let pick = chosen-stored x ip ips (stored_ip k) chosen (ap stored_ip km ∙ e) here in
          rw (same, keep-other stored_ip m groups out c behind)
            (rw (km, text_eq_refl m) (ap (λ i. (m, i) ∷ []) (sym (ip_eq→eq x ip pick))))
      | inr not_named ↦
          rw (same, not_named)
            (out-only stored_ip m x groups out c (AreSorted-tail (k, ips) groups sorted) e
              (ground arith))
    ]
