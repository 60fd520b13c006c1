-- ===== src/Tests/Addresses.antt =====
-- Runs and witnesses for the tree of networks (tacacs/binaries/misc/radix.c).
use soteria_tacacs.Prelude.{
  ℕ, zero, suc, ◌≡◌, refl, Bool, true, false, none, some, ◌↔◌, ◌≢◌, List, [], ◌∷◌, arith,
}
use soteria_tacacs.Net.{Addr, v6_cmp, v6_network, v6_broadcast, common_loop}
use soteria_tacacs.Radix.{
  RadixNode, add_loop, lookup_loop, null, radix_add, radix_lookup, radix_walk, add_all,
}
use soteria_tacacs.Radix.Table.{first, empty, declare, longest, payload}
use soteria_tacacs.Radix.Valid.{get}
use soteria_tacacs.Radix.Refine.{
  IsTree, AllSized, declare_all, radix-refines, radix_add-IsTree, get-radix_add, copy-union,
}
use soteria_tacacs.Radix.Result.{Reports, radix_add-answer}

abbrev padded : ℕ → List Bool → Addr
padded zero bits = []
padded (suc n) [] = false ∷ padded n []
padded (suc n) (x ∷ bits) = x ∷ padded n bits

-- 8000::, a000::, c000:: and a host in a000::/3
abbrev net8 : Addr
net8 = padded 128 (true ∷ [])

abbrev net_a : Addr
net_a = padded 128 (true ∷ false ∷ true ∷ [])

abbrev net_c : Addr
net_c = padded 128 (true ∷ true ∷ [])

abbrev host_a : Addr
host_a = padded 128 (true ∷ false ∷ true ∷ true ∷ false ∷ true ∷ [])

abbrev networks : List (Addr × ℕ × ℕ)
networks = (net_a, 3, 10) ∷ (net_c, 2, 20) ∷ (net8, 1, 30) ∷ (host_a, 3, 40) ∷ []

-- an infrastructural root of one bit becomes the network 8000::/1, and the fourth call changes
-- nothing, since a000::/3 is there
walked :
    radix_walk (add_all none null networks) ≡ (net_a, 3, 10) ∷ (net_c, 2, 20) ∷ (net8, 1, 30) ∷ []
unfolding add_all radix_add radix_walk add_loop v6_cmp v6_network v6_broadcast common_loop
walked = refl

found : radix_lookup (add_all none null networks) host_a ≡ (10, 30 ∷ 10 ∷ [])
unfolding add_all radix_add radix_lookup lookup_loop add_loop v6_cmp v6_network v6_broadcast
    common_loop
found = refl

networks-AllSized : AllSized networks
networks-AllSized =
    ((refl, omega arith), ((refl, omega arith), ((refl, omega arith), ((refl, omega arith), tt))))

radix-refines_example :
    (radix_lookup (add_all none null networks) host_a).0
    ≡ payload (longest (declare_all empty networks) host_a 128) 0
radix-refines_example = radix-refines none networks host_a networks-AllSized refl

-- the tree of the two networks that share a bit
abbrev tree : RadixNode
tree = add_all none null ((net_a, 3, 10) ∷ (net_c, 2, 20) ∷ [])

tree-IsTree : IsTree tree
unfolding add_all
tree-IsTree =
    radix_add-IsTree none (radix_add none null net_a 3 10).0 net_c 2 20 (refl, omega arith)
      (radix_add-IsTree none null net_a 3 10 (refl, omega arith) tt)

radix_add-IsTree_example : IsTree (radix_add none tree net8 1 30).0
radix_add-IsTree_example = radix_add-IsTree none tree net8 1 30 (refl, omega arith) tree-IsTree

get-radix_add_example : get (radix_add none tree net8 1 30).0 ≡ declare (get tree) (true ∷ []) 30
get-radix_add_example = get-radix_add none tree net8 1 30 (refl, omega arith) tree-IsTree

abbrev old_payload : ℕ
old_payload = 10

radix_add-answer_example :
    ((radix_add none tree host_a 3 40).1 ≡ 10)
    ↔ ((get tree (true ∷ false ∷ true ∷ []) ≡ some 10) × (old_payload ≢ 40) × Reports none 10 40)
radix_add-answer_example =
    radix_add-answer none tree host_a 3 40 10 (refl, omega arith) tree-IsTree (λ e. ground arith)

copy-union_example :
    get (add_all none (radix_add none null net8 1 30).0 (radix_walk tree))
    ≡ (λ p. first (get (radix_add none null net8 1 30).0 p) (get tree p))
copy-union_example =
    copy-union none (radix_add none null net8 1 30).0 tree
      (radix_add-IsTree none null net8 1 30 (refl, omega arith) tt) tree-IsTree
