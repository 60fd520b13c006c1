-- ===== src/Radix/Fork.antt =====
-- radix_add of radix.c, where neither the network of a node nor the new one contains the other.
use soteria_tacacs.Prelude.{
  take-suc, get_or-take, get_or, take-take, length-take, length, if◌then◌else◌, ℕ, suc, ◌+◌, ◌≤◌,
  ◌<◌, ◌≡◌, refl, sym, ap, ap₂, ◌∙◌, ◌≢◌, inl, inr, Bool, true, false, [], ◌∷◌, ◌++◌, arith, ltb,
  leb, if◌then◌else◌, Bool-cases, length, get_or, take, take-take, take-suc, get_or-take,
  length-take,
}
use soteria_tacacs.Net.{
  Addr, addr_bits, v6_network, v6_broadcast, v6_cmp, v6_common_cidr, cmp_below_one, same_bit,
}
use soteria_tacacs.Net.Prefix.{
  take-v6_network, length-v6_broadcast, v6_network-cong, length-v6_network, Common,
  common_loop-Common, take-v6_broadcast, get_or-v6_broadcast, v6_cmp_by_bit, v6_bitset-get_or,
}
use soteria_tacacs.Radix.{RadixNode, node, leaf, put_beside}
use soteria_tacacs.Radix.Table.{Prefix}
use soteria_tacacs.Radix.Valid.{IsValid, get}
use soteria_tacacs.Radix.Add.{Fits, Adds, other-none, at_prefix}

-- Both go under a new root of the `c` bits that they share, apart by the next bit.
fork-Adds :
    (k : ℕ) (q : Prefix) (l r : RadixNode) (rm : ℕ) (i : Bool) (ra : Addr) (rd : ℕ) (a : Addr)
    (m d c : ℕ)
    → Fits k q a m
    → IsValid k q (node l r rm i ra rd)
    → k ≤ c
    → c < rm
    → c < m
    → take c ra ≡ take c a
    → same_bit (get_or ra c false) (get_or a c false) ≡ false
    → let t = node l r rm i ra rd in
      Adds k q t a m d (
        if get_or a c false
        then node t (leaf a m d) c true (v6_network ra c) 0
        else node (leaf a m d) t c true (v6_network ra c) 0)
fork-Adds k q l r rm i ra rd a m d c f v hk hr hm e w = elim (Bool-cases (get_or a c false)) [
  | inl s ↦
      rw s ((size, mask, hk, start, base, old false (ground arith), new true s), λ p. ground arith)
  | inr s ↦ rw s (
    (size, mask, hk, start, base, new false s, old true (ground arith)),
    λ p. ground (
      arith,
      at_prefix (get t) (take m a) p (
          other-none t a m c (take c ra) false true f.size
            (omega (arith, length-take c ra, v.0, v.1)) hm
            (v6_bitset-get_or a c (omega (arith, f.mask)) ∙ s) (λ z. ground arith)
            (below true (ground arith))),
    ),
  )
]
  where
    t : RadixNode
    t = node l r rm i ra rd

    size : length (v6_network ra c) ≡ addr_bits
    size = length-v6_network ra c ∙ v.0

    mask : c ≤ addr_bits
    mask = omega (arith, v.1)

    same : take c (v6_network ra c) ≡ take c ra
    same = take-v6_network ra c

    start : take k (v6_network ra c) ≡ q
    start = sym (take-take k c (v6_network ra c) hk) ∙ ap (take k) same ∙ take-take k c ra hk ∙ v.3

    base : v6_network (v6_network ra c) c ≡ v6_network ra c
    base = v6_network-cong (v6_network ra c) ra c (length-v6_network ra c) same

    below : (b : Bool) → get_or ra c false ≡ b → IsValid (suc c) (take c ra ++ b ∷ []) t
    below b s = (
      v.0,
      v.1,
      hr,
      take-suc c ra false (omega (arith, v.0, v.1)) ∙ ap (λ z. take c ra ++ z ∷ []) s,
      v.4,
      v.5,
      v.6,
    )

    old :
        (b : Bool) → get_or ra c false ≡ b → IsValid (suc c) (take c (v6_network ra c) ++ b ∷ []) t
    old b s = rw same (below b s)

    new :
        (b : Bool)
        → get_or a c false ≡ b
        → IsValid (suc c) (take c (v6_network ra c) ++ b ∷ []) (leaf a m d)
    new b s = (
      f.size,
      f.mask,
      hm,
      take-suc c a false (omega (arith, f.size, f.mask))
          ∙ ap₂ (λ y z. y ++ z ∷ []) (sym (same ∙ e)) s,
      f.base,
      tt,
      tt,
    )

-- the networks under one prefix share its bits
same_under :
    (a b : Addr) (k c : ℕ) → take k a ≡ take k b → c < k → get_or a c false ≡ get_or b c false
same_under a b k c e h =
    sym (get_or-take c k a false h) ∙ ap (λ z. get_or z c false) e ∙ get_or-take c k b false h

same_bit_self : (x y : Bool) → x ≡ y → same_bit x y ≡ true
same_bit_self true y e = ground arith
same_bit_self false y e = ground arith

-- Where neither network contains the other, they differ in a bit of both prefixes.
Common-inside :
    (ra a : Addr) (rm m c : ℕ)
    → Common ra a (0 + (if ltb rm m then rm else m)) c
    → (rm ≤ m → take rm ra ≢ take rm a)
    → (m ≤ rm → take m a ≢ take m ra)
    → (c < rm) × (c < m)
Common-inside ra a rm m c found n1 n2 = (
  elim (Bool-cases (ltb c rm)) [
    | inl s ↦ ground arith
    | inr s ↦ absurd (
        n1 (ground (arith, found.at_most)) (
          ap (λ z. take z ra) (ground (arith, found.at_most))
          ∙ found.shared
          ∙ ap (λ z. take z a) (ground (arith, found.at_most))))
  ],
  elim (Bool-cases (ltb c m)) [
    | inl s ↦ ground arith
    | inr s ↦ absurd (
        n2 (ground (arith, found.at_most)) (
          ap (λ z. take z a) (ground (arith, found.at_most))
          ∙ sym found.shared
          ∙ ap (λ z. take z ra) (ground (arith, found.at_most))))
  ],
)

-- and the bits that both have at least belong to the shared prefix
common_long :
    (ra a : Addr) (k c : ℕ)
    → take k ra ≡ take k a
    → same_bit (get_or ra c false) (get_or a c false) ≡ false
    → k ≤ c
common_long ra a k c e w = elim (Bool-cases (leb k c)) [
  | inl s ↦ ground arith
  | inr s ↦ absurd (
      ground (
        arith,
        same_bit_self (get_or ra c false) (get_or a c false) (same_under ra a k c e (ground arith)),
      ))
]

-- A new infrastructural root, where neither network contains the other.
pub put_beside-Adds :
    (k : ℕ) (q : Prefix) (l r : RadixNode) (rm : ℕ) (i : Bool) (ra : Addr) (rd : ℕ) (a : Addr)
    (m d : ℕ)
    → Fits k q a m
    → IsValid k q (node l r rm i ra rd)
    → (rm ≤ m → take rm ra ≢ take rm a)
    → (m ≤ rm → take m a ≢ take m ra)
    → Adds k q (node l r rm i ra rd) a m d (put_beside (node l r rm i ra rd) ra rm a m d)
put_beside-Adds k q l r rm i ra rd a m d f v n1 n2 =
    let min = if ltb rm m then rm else m in
    let c = v6_common_cidr ra a min in
    let found : Common ra a (0 + min) c =
      common_loop-Common ra a 0 min (v.0 ∙ sym f.size) (ground (arith, v.1, f.mask)) refl in
    let (hr, hm) = Common-inside ra a rm m c found n1 n2 in
    let apart : same_bit (get_or ra c false) (get_or a c false) ≡ false =
      found.differ (ground arith) in
    let order : cmp_below_one (v6_cmp (v6_broadcast ra rm) a) ≡ get_or a c false =
      v6_cmp_by_bit (v6_broadcast ra rm) a c (length-v6_broadcast ra rm ∙ v.0 ∙ sym f.size)
        (take-v6_broadcast ra rm c (omega arith) ∙ found.shared)
        (ap (λ z. same_bit z (get_or a c false)) (get_or-v6_broadcast ra rm c hr) ∙ apart) in
    rw order (
      fork-Adds k q l r rm i ra rd a m d c f v (common_long ra a k c (v.3 ∙ sym f.starts) apart) hr
        hm found.shared apart)
