-- ===== src/Radix/AddLoop.antt =====
-- radix_add of radix.c keeps the invariant of the tree and adds one entry to its table.
use soteria_tacacs.Prelude.{
  length, if◌then◌else◌, ℕ, suc, ◌+◌, ◌≤◌, ◌≡◌, refl, sym, ap, ◌∙◌, ◌≢◌, inl, inr, Bool, true,
  false, ◌&&◌, arith, ltb, ◌==◌, if◌then◌else◌, Bool-cases, length, take,
}
use soteria_tacacs.Net.{Addr, v6_bitset, v6_network, v6_cmp, cmp_is_zero}
use soteria_tacacs.Net.Prefix.{v6_network-cong, v6_cmp_self, eq_of_v6_cmp}
use soteria_tacacs.Radix.{RadixNode, null, node, Cmp, is_subnode, add_loop}
use soteria_tacacs.Radix.Table.{Prefix}
use soteria_tacacs.Radix.Valid.{IsValid}
use soteria_tacacs.Radix.Add.{
  Fits, Adds, take_of_is_subnode, is_subnode_of_take, leaf-Adds, put_above-Adds, descend-Adds,
  same-Adds,
}
use soteria_tacacs.Radix.Fork.{put_beside-Adds}

same_case :
    (k : ℕ) (q : Prefix) (l r : RadixNode) (rm : ℕ) (i : Bool) (ra : Addr) (rd : ℕ) (a : Addr)
    (m d x : ℕ)
    → IsValid k q (node l r rm i ra rd)
    → ra ≡ a
    → rm ≡ m
    → let o : RadixNode × ℕ = if i then (node l r rm false ra d, 0) else (node l r rm i ra rd, x) in
      Adds k q (node l r rm i ra rd) a m d o.0
same_case k q l r rm true ra rd a m d x v e h = rw (← e, ← h) (same-Adds k q l r rm true ra rd d v)
same_case k q l r rm false ra rd a m d x v e h =
    rw (← e, ← h) (same-Adds k q l r rm false ra rd d v)

-- Two networks of one length and prefix are the same.
same_network :
    (ra a : Addr) (rm m : ℕ)
    → length ra ≡ length a
    → v6_network ra rm ≡ ra
    → v6_network a m ≡ a
    → rm ≡ m
    → take rm ra ≡ take rm a
    → ra ≡ a
same_network ra a rm m h b c e w = sym b ∙ v6_network-cong ra a rm h w ∙ ap (v6_network a) e ∙ c

equal_of_same :
    (ra a : Addr) (rm m : ℕ)
    → length ra ≡ length a
    → v6_network ra rm ≡ ra
    → v6_network a m ≡ a
    → rm ≡ m
    → take rm ra ≡ take rm a
    → (cmp_is_zero (v6_cmp ra a) && rm == m) ≡ true
equal_of_same ra a rm m h b c z e =
    rw (same_network ra a rm m h b c z e, v6_cmp_self a) (ground arith)

-- Past the tests of the loop, the network of the root does not contain the new one
pub beyond :
    (ra a : Addr) (rm m : ℕ)
    → length ra ≡ length a
    → v6_network ra rm ≡ ra
    → v6_network a m ≡ a
    → (cmp_is_zero (v6_cmp ra a) && rm == m) ≡ false
    → (ltb rm m && is_subnode ra rm a) ≡ false
    → rm ≤ m
    → take rm ra ≢ take rm a
beyond ra a rm m l b c s w h e = elim (Bool-cases (rm == m)) [
  | inl z ↦ absurd (ground (arith, equal_of_same ra a rm m l b c (ground arith) e))
  | inr z ↦ absurd (ground (arith, is_subnode_of_take ra a rm b e))
]

-- nor the new network the root's.
beside :
    (ra a : Addr) (rm m : ℕ)
    → length ra ≡ length a
    → v6_network ra rm ≡ ra
    → v6_network a m ≡ a
    → (cmp_is_zero (v6_cmp ra a) && rm == m) ≡ false
    → (ltb m rm && is_subnode a m ra) ≡ false
    → m ≤ rm
    → take m a ≢ take m ra
beside ra a rm m l b c s u h e = elim (Bool-cases (rm == m)) [
  | inl z ↦
      let y : rm ≡ m = ground arith in
      absurd (
        ground (
          arith,
          equal_of_same ra a rm m l b c y
              (ap (λ x. take x ra) y ∙ sym e ∙ ap (λ x. take x a) (sym y)),
        ))
  | inr z ↦ absurd (ground (arith, is_subnode_of_take a ra m c e))
]

first_of_if : (b : Bool) (x y : RadixNode × ℕ) → (if b then x else y).0 ≡ (if b then x.0 else y.0)
first_of_if true x y = refl
first_of_if false x y = refl

pub add_loop-Adds :
    (cmp : Cmp) (t : RadixNode) (k : ℕ) (q : Prefix) (a : Addr) (m d : ℕ)
    → Fits k q a m
    → IsValid k q t
    → Adds k q t a m d (add_loop cmp t a m d).0
unfolding add_loop
add_loop-Adds cmp null k q a m d f v = leaf-Adds k q a m d f
add_loop-Adds cmp (node l r rm i ra rd) k q a m d f v =
    elim (Bool-cases (cmp_is_zero (v6_cmp ra a) && rm == m)) [
      | inl s ↦ rw s (
          same_case k q l r rm i ra rd a m d _ v (eq_of_v6_cmp ra a sizes (ground arith))
            (ground arith))
      | inr s ↦ rw s (elim (Bool-cases (ltb m rm && is_subnode a m ra)) [
        | inl u ↦ rw u (
            put_above-Adds k q l r rm i ra rd a m d f v (ground arith)
              (take_of_is_subnode a ra m (sym sizes) f.base (ground arith)))
        | inr u ↦ rw u (elim (Bool-cases (ltb rm m && is_subnode ra rm a)) [
          | inl w ↦
              rw
                (
                  w,
                  first_of_if (v6_bitset a (rm + 1))
                      (node l (add_loop cmp r a m d).0 rm i ra rd, (add_loop cmp r a m d).1)
                      (node (add_loop cmp l a m d).0 r rm i ra rd, (add_loop cmp l a m d).1),
                )
                (descend-Adds k q l r rm i ra rd a m d _ _ f v (ground arith)
                  (take_of_is_subnode ra a rm sizes v.4 (ground arith))
                  (λ g. add_loop-Adds cmp l (suc rm) _ a m d g v.5)
                  (λ g. add_loop-Adds cmp r (suc rm) _ a m d g v.6))
          | inr w ↦ rw w (
              put_beside-Adds k q l r rm i ra rd a m d f v (beyond ra a rm m sizes v.4 f.base s w)
                (beside ra a rm m sizes v.4 f.base s u))
        ])
      ])
    ]
  where
    sizes : length ra ≡ length a
    sizes = v.0 ∙ sym f.size
