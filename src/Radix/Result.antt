-- ===== src/Radix/Result.antt =====
-- What radix_add of radix.c returns.
use soteria_tacacs.Prelude.{
  ℕ, suc, ◌+◌, ◌≤◌, ◌<◌, ◌≡◌, refl, sym, ap, ap₂, ◌↔◌, ◌∙◌, ◌≢◌, inl, inr, Bool, true, false, not,
  ◌&&◌, Option, none, some, [], ◌∷◌, ◌++◌, arith, ltb, ◌==◌, if◌then◌else◌, Bool-cases, length,
  take, length-append, take-take, length-take,
}
use soteria_tacacs.Net.{Addr, v6_bitset, v6_network, v6_cmp, cmp_is_zero}
use soteria_tacacs.Radix.Refine.{IsTree, Sized, v6_network-Fits}
use soteria_tacacs.Net.Prefix.{take-v6_network, eq_of_v6_cmp}
use soteria_tacacs.Radix.{RadixNode, null, node, Cmp, already, is_subnode, add_loop, radix_add}
use soteria_tacacs.Radix.Table.{Prefix, bits_eq, bits_eq_self}
use soteria_tacacs.Radix.Valid.{IsValid, get, get-none}
use soteria_tacacs.Radix.Add.{Fits, Fits-below, take_of_is_subnode, other-none, own-none}
use soteria_tacacs.Radix.AddLoop.{beyond}

-- the result for an entry that the table has, or has not
abbrev pub old_entry : Cmp → Option ℕ → ℕ → ℕ
old_entry cmp none d = 0
old_entry cmp (some old) d = already cmp old d

-- A tree has no entry for a prefix that lacks the bits of its root.
root-none :
    (l r : RadixNode) (rm : ℕ) (i : Bool) (ra : Addr) (rd k : ℕ) (q p : Prefix)
    → IsValid k q (node l r rm i ra rd)
    → take rm p ≢ take rm ra
    → get (node l r rm i ra rd) p ≡ none
root-none l r rm i ra rd k q p v n =
    get-none (node l r rm i ra rd) rm (take rm ra) p (v.0, v.1, omega arith, refl, v.4, v.5, v.6) n

short-none :
    (t : RadixNode) (a : Addr) (m k : ℕ) (q : Prefix)
    → length q ≡ k
    → m < k
    → IsValid k q t
    → get t (take m a) ≡ none
short-none t a m k q h l v =
    get-none t k q (take m a) v
      (λ e. absurd (omega (arith, ap length e, length-take k (take m a), length-take m a)))

pub add_loop-answer :
    (cmp : Cmp) (t : RadixNode) (k : ℕ) (q : Prefix) (a : Addr) (m d : ℕ)
    → Fits k q a m
    → IsValid k q t
    → (add_loop cmp t a m d).1 ≡ old_entry cmp (get t (take m a)) d
unfolding add_loop
add_loop-answer cmp null k q a m d f v = refl
add_loop-answer cmp (node l r rm i ra rd) k q a m d f v =
    elim (Bool-cases (cmp_is_zero (v6_cmp ra a) && rm == m)) [
      | inl s ↦ rw (s, own (eq_of_v6_cmp ra a sizes (ground arith)) (ground arith)) (go i)
      | inr s ↦ rw s (elim (Bool-cases (ltb m rm && is_subnode a m ra)) [
        | inl u ↦
            rw (u, short-none (node l r rm i ra rd) a m rm (take rm ra) size (ground arith) here)
              refl
        | inr u ↦ rw u (elim (Bool-cases (ltb rm m && is_subnode ra rm a)) [
          | inl w ↦ rw w (elim (Bool-cases (v6_bitset a (rm + 1))) [
            | inl b ↦ rw b (
                add_loop-answer cmp r (suc rm) (take rm ra ++ true ∷ []) a m d
                  (Fits-below k q a m ra rm true f (ground arith) (contains w) b) v.6
                ∙ ap (λ o. old_entry cmp o d) (sym (right (ground arith) b)))
            | inr b ↦ rw b (
                add_loop-answer cmp l (suc rm) (take rm ra ++ false ∷ []) a m d
                  (Fits-below k q a m ra rm false f (ground arith) (contains w) b) v.5
                ∙ ap (λ o. old_entry cmp o d) (sym (left (ground arith) b)))
          ])
          | inr w ↦ rw (w, root-none l r rm i ra rd k q (take m a) v (outside s w)) refl
        ])
      ])
    ]
  where
    sizes : length ra ≡ length a
    sizes = v.0 ∙ sym f.size

    size : length (take rm ra) ≡ rm
    size = omega (arith, length-take rm ra, v.0, v.1)

    here : IsValid rm (take rm ra) (node l r rm i ra rd)
    here = (v.0, v.1, omega arith, refl, v.4, v.5, v.6)

    outside :
        (cmp_is_zero (v6_cmp ra a) && rm == m) ≡ false
        → (ltb rm m && is_subnode ra rm a) ≡ false
        → take rm (take m a) ≢ take rm ra
    outside s w e =
        let h : rm ≤ m =
          omega (arith, ap length e, size, length-take rm (take m a), length-take m a) in
        beyond ra a rm m sizes v.4 f.base s w h (sym e ∙ take-take rm m a h)

    contains : (ltb rm m && is_subnode ra rm a) ≡ true → take rm ra ≡ take rm a
    contains w = take_of_is_subnode ra a rm sizes v.4 (ground arith)

    right :
        rm < m
        → v6_bitset a (rm + 1) ≡ true
        → get (node l r rm i ra rd) (take m a) ≡ get r (take m a)
    right h b = ground (
      arith,
      other-none l a m rm (take rm ra) true false f.size size h b (λ z. ground arith) v.5,
      own-none ra a rm m f.size f.mask h,
    )

    left :
        rm < m
        → v6_bitset a (rm + 1) ≡ false
        → get (node l r rm i ra rd) (take m a) ≡ get l (take m a)
    left h b = ground (
      arith,
      other-none r a m rm (take rm ra) false true f.size size h b (λ z. ground arith) v.6,
      own-none ra a rm m f.size f.mask h,
    )

    longer : (b : Bool) → length (take rm ra ++ b ∷ []) ≡ suc rm
    longer b = omega (arith, length-append (take rm ra) (b ∷ []), size)

    own : ra ≡ a → rm ≡ m → get (node l r rm i ra rd) (take m a) ≡ (if not i then some rd else none)
    own e h = ground (
      arith,
      short-none l a m (suc rm) (take rm ra ++ false ∷ []) (longer false) (omega arith) v.5,
      short-none r a m (suc rm) (take rm ra ++ true ∷ []) (longer true) (omega arith) v.6,
      ap₂ (λ x y. bits_eq (take rm ra) (take x y)) (sym h) (sym e) ∙ bits_eq_self (take rm ra),
    )

    go :
        (i : Bool)
        → (let o : RadixNode × ℕ =
              if i then (node l r rm false ra d, 0) else (node l r rm i ra rd, already cmp rd d) in
            o.1)
          ≡ old_entry cmp (if not i then some rd else none) d
    go true = refl
    go false = refl

-- When the payload `old` of a network counts as another one than `d`: always, or if the comparison
-- function of the tree says so.
abbrev pub Reports : Cmp → ℕ → ℕ → Type 0
Reports none old d = Unit
Reports (some f) old d = f old d ≡ true

-- the old entry as an answer
old_entry_iff :
    (cmp : Cmp) (entry : Option ℕ) (old d : ℕ)
    → old ≢ 0
    → (old_entry cmp entry d ≡ old) ↔ ((entry ≡ some old) × (old ≢ d) × Reports cmp old d)
old_entry_iff cmp none old d h = (λ e. absurd (h (sym e)), λ e. absurd (ground (arith, e.0)))
old_entry_iff none (some x) old d h = (λ e. ground (arith, e, h), λ (e, n, y). ground (arith, e, n))
old_entry_iff (some f) (some x) old d h = (
  λ e. elim (Bool-cases (f x d)) [
    | inl yes' ↦
        let same : x ≡ old = ground (arith, e, h, yes') in
        (ap some same, ground (arith, e, h, yes'), ap (λ z. f z d) (sym same) ∙ yes')
    | inr no' ↦ absurd (ground (arith, e, h, no'))
  ],
  λ (e, n, y).
      let same : x ≡ old = ground (arith, e) in
      let holds : f x d ≡ true = ap (λ z. f z d) same ∙ y in ground (arith, n, same, holds),
)

-- For every tree that satisfies the invariant, every address of 128 bits with a mask length of at
-- most 128, and every payload `old` but NULL: radix_add returns `old` exactly if the table of the
-- tree has `old` for the prefix, it is another payload than the new one, and the comparison function
-- of the tree, if there is one, holds of the two.
pub radix_add-answer :
    (cmp : Cmp) (t : RadixNode) (a : Addr) (m d old : ℕ)
    → Sized a m
    → IsTree t
    → old ≢ 0
    → ((radix_add cmp t a m d).1 ≡ old)
      ↔ ((get t (take m a) ≡ some old) × (old ≢ d) × Reports cmp old d)
unfolding radix_add
radix_add-answer cmp t a m d old s v h =
    let answer : (radix_add cmp t a m d).1 ≡ old_entry cmp (get t (take m a)) d =
      add_loop-answer cmp t 0 [] (v6_network a m) m d (v6_network-Fits a m s) v
      ∙ ap (λ p. old_entry cmp (get t p) d) (take-v6_network a m) in
    let i = old_entry_iff cmp (get t (take m a)) old d h in
    (λ e. i.0 (sym answer ∙ e), λ w. answer ∙ i.1 w)
