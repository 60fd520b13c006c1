-- ===== src/Radix/Add.antt =====
-- How the cases of radix_add of radix.c add an entry to a tree and keep its invariant.
use soteria_tacacs.Prelude.{
  take-take, length-take, length, if◌then◌else◌, ℕ, suc, ◌+◌, ◌≤◌, ◌<◌, ◌≡◌, refl, sym, ap, ◌∙◌,
  ◌≢◌, inl, inr, Bool, true, false, none, [], ◌∷◌, ◌++◌, arith, if◌then◌else◌, Bool-cases, length,
  take, take-take, length-take,
}
use soteria_tacacs.Net.{Addr, addr_bits, v6_bitset, v6_network, v6_cmp, cmp_below_one}
use soteria_tacacs.Net.Prefix.{take_of_range, network_below, below_broadcast}
use soteria_tacacs.Radix.{RadixNode, null, node, leaf, is_subnode, put_above}
use soteria_tacacs.Radix.Table.{Prefix, Table, bits_eq, bits_eq_ne, eq_of_bits_eq, declare}
use soteria_tacacs.Radix.Valid.{IsValid, get, get-none, last_bit, next_bit}

-- A network that belongs under the `k` bits `q`.
pub record Fits (k : ℕ) (q : Prefix) (a : Addr) (m : ℕ) : Type 0 where
  pub size : length a ≡ addr_bits
  pub mask : m ≤ addr_bits
  pub long : k ≤ m
  pub starts : take k a ≡ q
  pub base : v6_network a m ≡ a

-- The new tree is well-formed, and has the new entry and the old ones.
abbrev pub Adds : ℕ → Prefix → RadixNode → Addr → ℕ → ℕ → RadixNode → Type 0
Adds k q t a m d t' = IsValid k q t' × ((p : Prefix) → get t' p ≡ declare (get t) (take m a) d p)

pub take_of_is_subnode :
    (a b : Addr) (m : ℕ)
    → length a ≡ length b
    → v6_network a m ≡ a
    → is_subnode a m b ≡ true
    → take m a ≡ take m b
take_of_is_subnode a b m h e s = take_of_range a b m h (rw e (ground arith)) (ground arith)

pub is_subnode_of_take :
    (a b : Addr) (m : ℕ) → v6_network a m ≡ a → take m a ≡ take m b → is_subnode a m b ≡ true
is_subnode_of_take a b m e s =
    let l : cmp_below_one (v6_cmp a b) ≡ true =
      ap (λ z. cmp_below_one (v6_cmp z b)) (sym e) ∙ network_below a b m s in
    rw (l, below_broadcast a b m s) refl

pub leaf-Adds :
    (k : ℕ) (q : Prefix) (a : Addr) (m d : ℕ) → Fits k q a m → Adds k q null a m d (leaf a m d)
leaf-Adds k q a m d f = ((f.size, f.mask, f.long, f.starts, f.base, tt, tt), λ p. refl)

pub put_above-Adds :
    (k : ℕ) (q : Prefix) (l r : RadixNode) (rm : ℕ) (i : Bool) (ra : Addr) (rd : ℕ) (a : Addr)
    (m d : ℕ)
    → Fits k q a m
    → IsValid k q (node l r rm i ra rd)
    → m < rm
    → take m a ≡ take m ra
    → Adds k q (node l r rm i ra rd) a m d (put_above (node l r rm i ra rd) ra a m d)
put_above-Adds k q l r rm i ra rd a m d f v h e = elim (Bool-cases (v6_bitset ra (m + 1))) [
  | inl s ↦ rw s ((f.size, f.mask, f.long, f.starts, f.base, tt, below true s), λ p. refl)
  | inr s ↦ rw s ((f.size, f.mask, f.long, f.starts, f.base, below false s, tt), λ p. refl)
]
  where
    below :
        (b : Bool)
        → v6_bitset ra (m + 1) ≡ b
        → IsValid (suc m) (take m a ++ b ∷ []) (node l r rm i ra rd)
    below b s = (
      v.0,
      v.1,
      h,
      next_bit ra m b v.0 (omega (arith, v.1)) s ∙ ap (λ z. z ++ b ∷ []) (sym e),
      v.4,
      v.5,
      v.6,
    )

-- below a node whose network contains the new one
pub Fits-below :
    (k : ℕ) (q : Prefix) (a : Addr) (m : ℕ) (ra : Addr) (rm : ℕ) (b : Bool)
    → Fits k q a m
    → rm < m
    → take rm ra ≡ take rm a
    → v6_bitset a (rm + 1) ≡ b
    → Fits (suc rm) (take rm ra ++ b ∷ []) a m
Fits-below k q a m ra rm b f h e s = record {
  size = f.size;
  mask = f.mask;
  long = h;
  base = f.base;
  starts = next_bit a rm b f.size (omega (arith, f.mask)) s ∙ ap (λ z. z ++ b ∷ []) (sym e);
}

-- the subtree of the other bit does not have the new network
pub other-none :
    (t : RadixNode) (a : Addr) (m rm : ℕ) (q : Prefix) (b c : Bool)
    → length a ≡ addr_bits
    → length q ≡ rm
    → rm < m
    → v6_bitset a (rm + 1) ≡ b
    → b ≢ c
    → IsValid (suc rm) (q ++ c ∷ []) t
    → get t (take m a) ≡ none
other-none t a m rm q b c h hq l s n v =
    get-none t (suc rm) (q ++ c ∷ []) (take m a) v
      (λ e. n (sym s ∙ last_bit a rm q c h hq (sym (take-take (suc rm) m a l) ∙ e)))

-- Only the prefix of the new network itself is looked at.
pub at_prefix : (f : Table) (p q : Prefix) → f p ≡ none → bits_eq p q ≡ true → f q ≡ none
at_prefix f p q h e = ap f (sym (eq_of_bits_eq p q e)) ∙ h

pub own-none :
    (ra a : Addr) (rm m : ℕ)
    → length a ≡ addr_bits
    → m ≤ addr_bits
    → rm < m
    → bits_eq (take rm ra) (take m a) ≡ false
own-none ra a rm m h hm l =
    bits_eq_ne (take rm ra) (take m a)
      (λ e. absurd (omega (arith, ap length e, length-take rm ra, length-take m a)))

pub descend-Adds :
    (k : ℕ) (q : Prefix) (l r : RadixNode) (rm : ℕ) (i : Bool) (ra : Addr) (rd : ℕ) (a : Addr)
    (m d : ℕ) (l' r' : RadixNode)
    → Fits k q a m
    → IsValid k q (node l r rm i ra rd)
    → rm < m
    → take rm ra ≡ take rm a
    → (Fits (suc rm) (take rm ra ++ false ∷ []) a m
        → Adds (suc rm) (take rm ra ++ false ∷ []) l a m d l')
    → (Fits (suc rm) (take rm ra ++ true ∷ []) a m
        → Adds (suc rm) (take rm ra ++ true ∷ []) r a m d r')
    → Adds k q
        (node l r rm i ra rd)
        a
        m
        d
        (if v6_bitset a (rm + 1) then node l r' rm i ra rd else node l' r rm i ra rd)
descend-Adds k q l r rm i ra rd a m d l' r' f v h e al ar =
    elim (Bool-cases (v6_bitset a (rm + 1))) [
      | inl s ↦
          let new = ar (Fits-below k q a m ra rm true f h e s) in
          rw s (
            (v.0, v.1, v.2, v.3, v.4, v.5, new.0),
            λ p. ground (
              arith,
              new.1 p,
              own p,
              at_prefix (get l) (take m a) p (
                  other-none l a m rm (take rm ra) true false f.size size h s (λ z. ground arith)
                    v.5),
            ),
          )
      | inr s ↦
          let new = al (Fits-below k q a m ra rm false f h e s) in
          rw s (
            (v.0, v.1, v.2, v.3, v.4, new.0, v.6),
            λ p. ground (
              arith,
              new.1 p,
              own p,
              at_prefix (get r) (take m a) p (
                  other-none r a m rm (take rm ra) false true f.size size h s (λ z. ground arith)
                    v.6),
            ),
          )
    ]
  where
    size : length (take rm ra) ≡ rm
    size = omega (arith, length-take rm ra, v.0, v.1)

    own : (p : Prefix) → bits_eq (take m a) p ≡ true → bits_eq (take rm ra) p ≡ false
    own p w =
        ap (bits_eq (take rm ra)) (sym (eq_of_bits_eq (take m a) p w))
        ∙ own-none ra a rm m f.size f.mask h

pub same-Adds :
    (k : ℕ) (q : Prefix) (l r : RadixNode) (rm : ℕ) (i : Bool) (ra : Addr) (rd : ℕ) (d : ℕ)
    → IsValid k q (node l r rm i ra rd)
    → Adds k q
        (node l r rm i ra rd)
        ra
        rm
        d
        (if i then node l r rm false ra d else node l r rm i ra rd)
same-Adds k q l r rm true ra rd d v = ((v.0, v.1, v.2, v.3, v.4, v.5, v.6), λ p. ground arith)
same-Adds k q l r rm false ra rd d v = ((v.0, v.1, v.2, v.3, v.4, v.5, v.6), λ p. ground arith)
