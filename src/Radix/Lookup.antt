-- ===== src/Radix/Lookup.antt =====
-- radix_lookup of radix.c finds the longest prefix.
use soteria_tacacs.Prelude.{
  take-take, length-take, ℕ, suc, ◌+◌, ◌≤◌, ◌<◌, ◌≡◌, refl, sym, ap, ◌∙◌, ◌≢◌, inl, inr, Bool, true,
  false, not, Option, none, some, [], ◌∷◌, ◌++◌, arith, ◌==◌, if◌then◌else◌, Bool-cases, length,
  take, length-append, take-take, length-take,
}
use soteria_tacacs.Net.{Addr, addr_bits, v6_bitset, v6_network, v6_cmp, cmp_is_zero}
use soteria_tacacs.Net.Prefix.{
  take-v6_network, v6_network-cong, v6_cmp_self, eq_of_v6_cmp, length-v6_network,
}
use soteria_tacacs.Radix.{RadixNode, null, node, lookup_loop}
use soteria_tacacs.Radix.Table.{
  Prefix, bits_eq, bits_eq_self, bits_eq_ne, first, longest, payload, empty, longest-none,
  longest-first,
}
use soteria_tacacs.Radix.Valid.{IsValid, get, get-none, last_bit}

-- A subtree whose bits the address does not have holds none of its prefixes.
get-none_prefix :
    (t : RadixNode) (k : ℕ) (q : Prefix) (a : Addr)
    → length q ≡ k
    → IsValid k q t
    → take k a ≢ q
    → (j : ℕ) → get t (take j a) ≡ none
get-none_prefix t k q a h v n j = get-none t k q (take j a) v (λ e. n (go e))
  where
    go : take k (take j a) ≡ q → take k a ≡ q
    go e =
        let l : k ≤ j = omega (arith, ap length e, length-take k (take j a), length-take j a) in
        sym (take-take k j a l) ∙ e

-- nor does it hold a prefix that is shorter than its bits
get-none_short :
    (t : RadixNode) (k : ℕ) (q : Prefix) (a : Addr)
    → length q ≡ k
    → IsValid k q t
    → (j : ℕ) → j < k
    → get t (take j a) ≡ none
get-none_short t k q a h v j l =
    get-none t k q (take j a) v
      (λ e. absurd (omega (arith, ap length e, length-take k (take j a), length-take j a)))

-- among the prefixes of an address, a node holds the one of its length
own_prefix :
    (ra a : Addr) (m j : ℕ)
    → length a ≡ addr_bits
    → m ≤ addr_bits
    → take m ra ≡ take m a
    → j ≤ addr_bits
    → bits_eq (take m ra) (take j a) ≡ (j == m)
own_prefix ra a m j h hm e hj = elim (Bool-cases (j == m)) [
  | inl s ↦
      rw (e, s) (ap (λ z. bits_eq (take m a) (take z a)) (ground arith) ∙ bits_eq_self (take m a))
  | inr s ↦
      rw (e, s)
        (bits_eq_ne (take m a) (take j a)
          (λ w. absurd (ground (arith, ap length w, length-take m a, length-take j a))))
]

-- A node whose prefix the address has: the subtree of its next bit goes before the node.
node-longest :
    (l r : RadixNode) (m : ℕ) (i : Bool) (ra a : Addr) (d : ℕ)
    → length a ≡ addr_bits
    → IsValid m (take m ra) (node l r m i ra d)
    → take m ra ≡ take m a
    → longest (get (node l r m i ra d)) a addr_bits
      ≡ first
          (longest (get (if v6_bitset a (m + 1) then r else l)) a addr_bits)
          (if not i then some d else none)
node-longest l r m i ra a d h v e = elim (Bool-cases (v6_bitset a (m + 1))) [
  | inl s ↦ rw s (
      longest-first (get (node l r m i ra d)) (get r) a m 128 (if not i then some d else none)
        (λ j w. ground (
          arith,
          get-none_prefix l (suc m) (take m ra ++ false ∷ []) a (longer false) v.5
              (wrong false (λ z. ground arith)) j,
          own_prefix ra a m j h v.1 e w,
        ))
        (λ j w.
          get-none_short r (suc m) (take m ra ++ true ∷ []) a (longer true) v.6 j (omega arith))
      ∙ ground (arith, v.1))
  | inr s ↦ rw s (
      longest-first (get (node l r m i ra d)) (get l) a m 128 (if not i then some d else none)
        (λ j w. ground (
          arith,
          get-none_prefix r (suc m) (take m ra ++ true ∷ []) a (longer true) v.6
              (wrong true (λ z. ground arith)) j,
          own_prefix ra a m j h v.1 e w,
        ))
        (λ j w.
          get-none_short l (suc m) (take m ra ++ false ∷ []) a (longer false) v.5 j (omega arith))
      ∙ ground (arith, v.1))
]
  where
    size : length (take m ra) ≡ m
    size = omega (arith, length-take m ra, v.0, v.1)

    longer : (b : Bool) → length (take m ra ++ b ∷ []) ≡ suc m
    longer b = omega (arith, size, length-append (take m ra) (b ∷ []))

    wrong : (b : Bool) → v6_bitset a (m + 1) ≢ b → take (suc m) a ≢ take m ra ++ b ∷ []
    wrong b n w = n (last_bit a m (take m ra) b h size w)

payload-first :
    (o : Option ℕ) (i : Bool) (match d : ℕ)
    → payload o (if i then match else d) ≡ payload (first o (if not i then some d else none)) match
payload-first none true match d = refl
payload-first none false match d = refl
payload-first (some v) i match d = refl

-- The loop goes on in the subtree of the next bit, with the match at the node.
follow :
    (l r : RadixNode) (a : Addr) (match d : ℕ) (b i : Bool)
    → ((x : ℕ) → (lookup_loop l a x).0 ≡ payload (longest (get l) a addr_bits) x)
    → ((x : ℕ) → (lookup_loop r a x).0 ≡ payload (longest (get r) a addr_bits) x)
    → (if b
        then lookup_loop r a (if i then match else d)
        else lookup_loop l a (if i then match else d)).0
      ≡ payload
          (first (longest (get (if b then r else l)) a addr_bits) (if not i then some d else none))
          match
follow l r a match d true true hl hr =
    hr match ∙ payload-first (longest (get r) a addr_bits) true match d
follow l r a match d true false hl hr =
    hr d ∙ payload-first (longest (get r) a addr_bits) false match d
follow l r a match d false true hl hr =
    hl match ∙ payload-first (longest (get l) a addr_bits) true match d
follow l r a match d false false hl hr =
    hl d ∙ payload-first (longest (get l) a addr_bits) false match d

-- The match at a node is the payload of the longest prefix below it, or the match so far.
pub lookup_loop-longest :
    (t : RadixNode) (k : ℕ) (q : Prefix) (a : Addr) (match : ℕ)
    → length a ≡ addr_bits
    → IsValid k q t
    → (lookup_loop t a match).0 ≡ payload (longest (get t) a addr_bits) match
unfolding lookup_loop
lookup_loop-longest null k q a match h v = rw (longest-none empty a 128 (λ j l. refl)) refl
lookup_loop-longest (node l r m i ra d) k q a match h v =
    elim (Bool-cases (cmp_is_zero (v6_cmp ra (v6_network a m)))) [
      | inr c ↦
          rw (c, longest-none (get (node l r m i ra d)) a 128 (λ j w. none_here (apart c) j)) refl
      | inl c ↦
          rw (c, node-longest l r m i ra a d h here (agree c))
            (follow l r a match d (v6_bitset a (m + 1)) i
              (λ x. lookup_loop-longest l (suc m) (take m ra ++ false ∷ []) a x h v.5)
              (λ x. lookup_loop-longest r (suc m) (take m ra ++ true ∷ []) a x h v.6))
    ]
  where
    size : length (take m ra) ≡ m
    size = omega (arith, length-take m ra, v.0, v.1)

    here : IsValid m (take m ra) (node l r m i ra d)
    here = (v.0, v.1, omega arith, refl, v.4, v.5, v.6)

    none_here : take m a ≢ take m ra → (j : ℕ) → get (node l r m i ra d) (take j a) ≡ none
    none_here n = get-none_prefix (node l r m i ra d) m (take m ra) a size here n

    base : take m a ≡ take m ra → v6_network a m ≡ ra
    base e = v6_network-cong a ra m (h ∙ sym v.0) e ∙ v.4

    apart : cmp_is_zero (v6_cmp ra (v6_network a m)) ≡ false → take m a ≢ take m ra
    apart c e = ground (arith, base e, v6_cmp_self ra)

    agree : cmp_is_zero (v6_cmp ra (v6_network a m)) ≡ true → take m ra ≡ take m a
    agree c =
        ap (take m) (eq_of_v6_cmp ra (v6_network a m) (v.0 ∙ sym (length-v6_network a m ∙ h)) c)
        ∙ take-v6_network a m
