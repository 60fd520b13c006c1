-- ===== src/Radix.antt =====
-- tacacs/binaries/misc/radix.c: the tree of networks that finds hosts, nets and host names by
-- address (radix_add, radix_lookup, radix_walk). A pointer to a payload is a number, and 0 is NULL.
use soteria_tacacs.Prelude.{
  ℕ, zero, suc, ◌+◌, ◌-◌, ◌*◌, ◌/◌, ◌%◌, ◌^◌, ◌≤◌, ◌<◌, bit_and, bit_or, bit_xor, ◌≡◌, refl, sym,
  ap, ap₂, ◌∙◌, ◌≢◌, ◌↔◌, ◌⊎◌, inl, inr, Bool, true, false, not, ◌&&◌, ◌||◌, Option, none, some,
  List, [], ◌∷◌, ◌++◌, append-nil, append_assoc, arith, ltb, leb, ◌==◌, ◌!=◌, if◌then◌else◌, has,
  str_eq, Bool-cases, length, get_or, take, drop, length-append, take-append-drop, length-take,
  length-drop, take-length, drop-length, u8,
}
use soteria_tacacs.Net.{
  Addr, v6_bitset, v6_network, v6_broadcast, v6_cmp, v6_common_cidr, cmp_is_zero, cmp_below_one,
}
pub mod Table
pub mod Valid
pub mod Lookup
pub mod Add
pub mod Fork
pub mod AddLoop
pub mod Refine
pub mod Result

-- a subtree: NULL, or a node with its left and right subtree
pub data RadixNode : Type 0 where
  null : RadixNode
  node : (l r : RadixNode) (m : ℕ) (i : Bool) (a : Addr) (d : ℕ) → RadixNode

-- a node of a network without subtrees
abbrev pub leaf : Addr → ℕ → ℕ → RadixNode
leaf a m d = node null null m false a d

-- rt->cmp, which may be NULL
abbrev pub Cmp : Type 0
Cmp = Option (ℕ → ℕ → Bool)

-- what radix_add returns for a network that the tree has already with the payload `old`
abbrev pub already : Cmp → ℕ → ℕ → ℕ
already cmp old d =
    if old == d then 0 else elim cmp [ none ↦ old | some f ↦ if f old d then old else 0 ]

-- The current root is a subnode of the new network.
abbrev pub is_subnode : Addr → ℕ → Addr → Bool
is_subnode a m b = cmp_below_one (v6_cmp a b) && cmp_below_one (v6_cmp b (v6_broadcast a m))

-- the new node above the current root
abbrev pub put_above : RadixNode → Addr → Addr → ℕ → ℕ → RadixNode
put_above t ra a m d =
    if v6_bitset ra (m + 1) then node null t m false a d else node t null m false a d

-- an infrastructural root above the current root and the new node
abbrev pub put_beside : RadixNode → Addr → ℕ → Addr → ℕ → ℕ → RadixNode
put_beside t ra rm a m d =
    let c = v6_common_cidr ra a (if ltb rm m then rm else m) in
    if cmp_below_one (v6_cmp (v6_broadcast ra rm) a)
    then node t (leaf a m d) c true (v6_network ra c) 0
    else node (leaf a m d) t c true (v6_network ra c) 0

-- The loop of radix_add at a node, for a network `a`; an empty place gets the new node.
unfoldable pub add_loop : Cmp → RadixNode → Addr → ℕ → ℕ → RadixNode × ℕ
add_loop cmp null a m d = (leaf a m d, 0)
add_loop cmp (node l r rm i ra rd) a m d =
    let left = add_loop cmp l a m d in
    let right = add_loop cmp r a m d in
    let t = node l r rm i ra rd in
    if cmp_is_zero (v6_cmp ra a) && rm == m
    then (if i then (node l r rm false ra d, 0) else (t, already cmp rd d))
    else if ltb m rm && is_subnode a m ra
    then (put_above t ra a m d, 0)
    else if ltb rm m && is_subnode ra rm a
    then (if v6_bitset a (rm + 1)
        then (node l right.0 rm i ra rd, right.1)
        else (node left.0 r rm i ra rd, left.1))
    else (put_beside t ra rm a m d, 0)

-- the tree after radix_add, and what it returns
unfoldable pub radix_add : Cmp → RadixNode → Addr → ℕ → ℕ → RadixNode × ℕ
radix_add cmp t a m d = add_loop cmp t (v6_network a m) m d

-- The loop of radix_lookup at a node, with the match so far: the match in the end, and the payloads
-- on the way that it collects in `arr`.
unfoldable pub lookup_loop : RadixNode → Addr → ℕ → ℕ × List ℕ
lookup_loop null a match = (match, [])
lookup_loop (node l r m i ra d) a match =
    let found = if i then match else d in
    let left = lookup_loop l a found in
    let right = lookup_loop r a found in
    let next = if v6_bitset a (m + 1) then right else left in
    if not (cmp_is_zero (v6_cmp ra (v6_network a m)))
    then (match, [])
    else (next.0, (if d != 0 then d ∷ next.1 else next.1))

unfoldable pub radix_lookup : RadixNode → Addr → ℕ × List ℕ
radix_lookup t a = lookup_loop t a 0

-- the networks that radix_walk hands to its function, in this order
unfoldable pub radix_walk : RadixNode → List (Addr × ℕ × ℕ)
radix_walk null = []
radix_walk (node l r m i a d) = radix_walk l ++ radix_walk r ++ (if i then [] else (a, m, d) ∷ [])

-- radix_add of each network, in their order: what radix_copy_func does as the function of a walk
unfoldable pub add_all : Cmp → RadixNode → List (Addr × ℕ × ℕ) → RadixNode
add_all cmp t [] = t
add_all cmp t ((a, m, d) ∷ es) = add_all cmp (radix_add cmp t a m d).0 es
