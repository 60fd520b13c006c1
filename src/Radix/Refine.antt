-- ===== src/Radix/Refine.antt =====
-- The tree of radix.c implements a table of prefixes: radix_add is an entry into the table,
-- radix_lookup the search for the longest prefix, and the copy of one tree into another with
-- radix_walk (config.c, radix_copy_func) the union of the tables.
use mathlib.Core.Path.{fun_ext}
use soteria_tacacs.Prelude.{
  ℕ, suc, ◌≤◌, ◌≡◌, refl, sym, ap, ◌∙◌, Bool, true, false, not, ◌&&◌, Option, none, some, List, [],
  ◌∷◌, ◌++◌, arith, if◌then◌else◌, length, take,
}
use soteria_tacacs.Net.{Addr, addr_bits, v6_network}
use soteria_tacacs.Net.Prefix.{take-v6_network, v6_network-cong, length-v6_network}
use soteria_tacacs.Radix.{RadixNode, null, node, Cmp, radix_add, radix_lookup, radix_walk, add_all}
use soteria_tacacs.Radix.Table.{Prefix, Table, bits_eq, first, empty, declare, longest, payload}
use soteria_tacacs.Radix.Valid.{IsValid, get}
use soteria_tacacs.Radix.Lookup.{lookup_loop-longest}
use soteria_tacacs.Radix.Add.{Fits, Adds}
use soteria_tacacs.Radix.AddLoop.{add_loop-Adds}

abbrev pub IsTree : RadixNode → Type 0
IsTree t = IsValid 0 [] t

-- an address of 128 bits and a mask length that such an address can have
abbrev pub Sized : Addr → ℕ → Type 0
Sized a m = (length a ≡ addr_bits) × (m ≤ addr_bits)

pub v6_network-Fits : (a : Addr) (m : ℕ) → Sized a m → Fits 0 [] (v6_network a m) m
v6_network-Fits a m s = record {
  size = length-v6_network a m ∙ s.0;
  mask = s.1;
  long = omega arith;
  starts = refl;
  base = v6_network-cong (v6_network a m) a m (length-v6_network a m) (take-v6_network a m);
}

radix_add-Adds :
    (cmp : Cmp) (t : RadixNode) (a : Addr) (m d : ℕ)
    → Sized a m
    → IsTree t
    → Adds 0 [] t (v6_network a m) m d (radix_add cmp t a m d).0
unfolding radix_add
radix_add-Adds cmp t a m d s v =
    add_loop-Adds cmp t 0 [] (v6_network a m) m d (v6_network-Fits a m s) v

-- For every tree that satisfies the invariant, and every address of 128 bits with a mask length of
-- at most 128, radix_add keeps the invariant: each node holds the base address of its network,
-- everything below it starts with its prefix and is longer, and the left and right subtree differ
-- in the next bit.
pub radix_add-IsTree :
    (cmp : Cmp) (t : RadixNode) (a : Addr) (m d : ℕ)
    → Sized a m
    → IsTree t
    → IsTree (radix_add cmp t a m d).0
radix_add-IsTree cmp t a m d s v = (radix_add-Adds cmp t a m d s v).0

-- For every tree that satisfies the invariant, and every address of 128 bits with a mask length of
-- at most 128, radix_add enters the payload into the table of the tree for the prefix of the
-- network, unless the prefix has one already, and changes nothing for any other prefix.
pub get-radix_add :
    (cmp : Cmp) (t : RadixNode) (a : Addr) (m d : ℕ)
    → Sized a m
    → IsTree t
    → get (radix_add cmp t a m d).0 ≡ declare (get t) (take m a) d
get-radix_add cmp t a m d s v = fun_ext λ p.
    (radix_add-Adds cmp t a m d s v).1 p ∙ ap (λ z. declare (get t) z d p) (take-v6_network a m)

-- On a tree that satisfies the invariant, radix_lookup of an address of 128 bits returns the entry
-- of the longest of the prefixes of the address that have one, and NULL if none has.
pub radix_lookup-longest :
    (t : RadixNode) (a : Addr)
    → length a ≡ addr_bits
    → IsTree t
    → (radix_lookup t a).0 ≡ payload (longest (get t) a addr_bits) 0
unfolding radix_lookup
radix_lookup-longest t a h v = lookup_loop-longest t 0 [] a 0 h v

-- the entries in their order
abbrev pub declare_all : Table → List (Addr × ℕ × ℕ) → Table
declare_all f [] = f
declare_all f (e ∷ es) = declare_all (declare f (take e.1 e.0) e.2) es

abbrev pub AllSized : List (Addr × ℕ × ℕ) → Type 0
AllSized [] = Unit
AllSized (e ∷ es) = Sized e.0 e.1 × AllSized es

add_all-declare_all :
    (cmp : Cmp) (t : RadixNode) (es : List (Addr × ℕ × ℕ))
    → AllSized es
    → IsTree t
    → IsTree (add_all cmp t es) × (get (add_all cmp t es) ≡ declare_all (get t) es)
unfolding add_all
add_all-declare_all cmp t [] s v = (v, refl)
add_all-declare_all cmp t (e ∷ es) s v =
    let (v', g) =
      add_all-declare_all cmp (radix_add cmp t e.0 e.1 e.2).0 es s.1
        (radix_add-IsTree cmp t e.0 e.1 e.2 s.0 v) in
    (v', g ∙ ap (λ f. declare_all f es) (get-radix_add cmp t e.0 e.1 e.2 s.0 v))

-- After any calls of radix_add on a new tree, with addresses of 128 bits and mask lengths of at most
-- 128, radix_lookup of an address of 128 bits returns the payload that was added first for the
-- longest added prefix of the address, and NULL if no added prefix belongs to it.
pub radix-refines :
    (cmp : Cmp) (es : List (Addr × ℕ × ℕ)) (a : Addr)
    → AllSized es
    → length a ≡ addr_bits
    → (radix_lookup (add_all cmp null es) a).0
      ≡ payload (longest (declare_all empty es) a addr_bits) 0
radix-refines cmp es a s h =
    let (v, g) = add_all-declare_all cmp null es s tt in
    radix_lookup-longest (add_all cmp null es) a h v ∙ ap (λ f. payload (longest f a addr_bits) 0) g

declare_all-append :
    (f : Table) (es gs : List (Addr × ℕ × ℕ))
    → declare_all f (es ++ gs) ≡ declare_all (declare_all f es) gs
declare_all-append f [] gs = refl
declare_all-append f (e ∷ es) gs = declare_all-append (declare f (take e.1 e.0) e.2) es gs

AllSized-append : (es gs : List (Addr × ℕ × ℕ)) → AllSized es → AllSized gs → AllSized (es ++ gs)
AllSized-append [] gs s u = u
AllSized-append (e ∷ es) gs s u = (s.0, AllSized-append es gs s.1 u)

radix_walk-AllSized : (t : RadixNode) (k : ℕ) (q : Prefix) → IsValid k q t → AllSized (radix_walk t)
unfolding radix_walk
radix_walk-AllSized null k q v = tt
radix_walk-AllSized (node l r m i a d) k q v =
    AllSized-append (radix_walk l ++ radix_walk r) _
      (AllSized-append (radix_walk l) (radix_walk r) (radix_walk-AllSized l (suc m) _ v.5)
        (radix_walk-AllSized r (suc m) _ v.6))
      (go i)
  where
    go : (i : Bool) → AllSized (if i then [] else (a, m, d) ∷ [])
    go true = tt
    go false = ((v.0, v.1), tt)

first-none : (o : Option ℕ) → first o none ≡ o
first-none none = refl
first-none (some v) = refl

regroup : (x y z w : Option ℕ) → first (first (first x y) z) w ≡ first x (first y (first z w))
regroup none none z w = refl
regroup none (some y) z w = refl
regroup (some x) y z w = refl

-- the networks that radix_walk hands out are the entries of the table
declare_all-radix_walk :
    (t : RadixNode) (f : Table) (p : Prefix)
    → declare_all f (radix_walk t) p ≡ first (f p) (get t p)
unfolding radix_walk
declare_all-radix_walk null f p = ground arith
declare_all-radix_walk (node l r m i a d) f p =
    ap (λ g. g p)
      (declare_all-append f (radix_walk l ++ radix_walk r) (if i then [] else (a, m, d) ∷ [])
        ∙ ap (λ g. declare_all g (if i then [] else (a, m, d) ∷ []))
            (declare_all-append f (radix_walk l) (radix_walk r)))
    ∙ go i
    ∙ ap (λ o. first o (if not i && bits_eq (take m a) p then some d else none))
        (declare_all-radix_walk r (declare_all f (radix_walk l)) p
          ∙ ap (λ o. first o (get r p)) (declare_all-radix_walk l f p))
    ∙ regroup (f p) (get l p) (get r p) (if not i && bits_eq (take m a) p then some d else none)
  where
    go :
        (i : Bool)
        → declare_all
            (declare_all (declare_all f (radix_walk l)) (radix_walk r))
            (if i then [] else (a, m, d) ∷ [])
            p
          ≡ first
              (declare_all (declare_all f (radix_walk l)) (radix_walk r) p)
              (if not i && bits_eq (take m a) p then some d else none)
    go true = sym (first-none _)
    go false = refl

-- The copy of one tree into another by radix_walk and radix_add, both satisfying the invariant:
-- afterwards each prefix has its old entry in the target, or else the one in the source.
pub copy-union :
    (cmp : Cmp) (t u : RadixNode)
    → IsTree t
    → IsTree u
    → get (add_all cmp t (radix_walk u)) ≡ (λ p. first (get t p) (get u p))
copy-union cmp t u v w =
    (add_all-declare_all cmp t (radix_walk u) (radix_walk-AllSized u 0 [] w) v).1
    ∙ fun_ext λ p. declare_all-radix_walk u (get t) p
