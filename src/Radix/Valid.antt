-- ===== src/Radix/Valid.antt =====
-- The invariant of the tree of radix.c, and the table that a tree stands for.
use soteria_tacacs.Prelude.{
  ℕ, suc, ◌+◌, ◌≤◌, ◌<◌, ◌≡◌, refl, sym, ap, ◌∙◌, ◌≢◌, Bool, true, false, not, ◌&&◌, none, some, [],
  ◌∷◌, ◌++◌, arith, if◌then◌else◌, length, get_or, take, length-append, take-take, take-append,
  take-suc, take_whole, get_or-take, get_or_last, length-take,
}
use soteria_tacacs.Net.{Addr, addr_bits, v6_bitset, v6_network}
use soteria_tacacs.Net.Prefix.{v6_bitset-get_or}
use soteria_tacacs.Radix.{RadixNode, null, node}
use soteria_tacacs.Radix.Table.{Prefix, Table, bits_eq, first, bits_eq_ne}

-- The networks of a subtree start with the `k` bits `q`. Each node holds the base address of its
-- network, and the subtrees differ in the bit behind the prefix of their node.
abbrev pub IsValid : ℕ → Prefix → RadixNode → Type 0
IsValid k q null = Unit
IsValid k q (node l r m i a d) =
    (length a ≡ addr_bits)
    × (m ≤ addr_bits)
    × (k ≤ m)
    × (take k a ≡ q)
    × (v6_network a m ≡ a)
    × IsValid (suc m) (take m a ++ false ∷ []) l
    × IsValid (suc m) (take m a ++ true ∷ []) r

-- the payload of a prefix, wherever in the tree it stands
abbrev pub get : RadixNode → Table
get null p = none
get (node l r m i a d) p =
    first (get l p) (first (get r p) (if not i && bits_eq (take m a) p then some d else none))

-- The bit of an address behind a prefix that it has is the last bit of the longer prefix.
pub last_bit :
    (a : Addr) (m : ℕ) (p : Prefix) (b : Bool)
    → length a ≡ addr_bits
    → length p ≡ m
    → take (suc m) a ≡ p ++ b ∷ []
    → v6_bitset a (m + 1) ≡ b
last_bit a m p b h hp e =
    let n : m < length a =
      omega (arith, ap length e, length-append p (b ∷ []), length-take (suc m) a) in
    v6_bitset-get_or a m (omega arith)
    ∙ sym (get_or-take m (suc m) a false (omega arith))
    ∙ ap (λ z. get_or z m false) e
    ∙ get_or_last m p b false hp

-- the other way round, inside the address
pub next_bit :
    (a : Addr) (m : ℕ) (b : Bool)
    → length a ≡ addr_bits
    → m < addr_bits
    → v6_bitset a (m + 1) ≡ b
    → take (suc m) a ≡ take m a ++ b ∷ []
next_bit a m b h l e =
    take-suc m a false (omega arith)
    ∙ ap (λ z. take m a ++ z ∷ []) (sym (v6_bitset-get_or a m l) ∙ e)

pub prefix_of_longer :
    (m : ℕ) (p q : Prefix) (b : Bool) → length q ≡ m → take (suc m) p ≡ q ++ b ∷ [] → take m p ≡ q
prefix_of_longer m p q b h e =
    sym (take-take m (suc m) p (omega arith))
    ∙ ap (take m) e
    ∙ take-append m q (b ∷ []) (omega arith)
    ∙ ap (λ z. take z q) (sym h)
    ∙ take_whole q

-- a prefix that does not start with the bits of a subtree has no payload there
pub get-none :
    (t : RadixNode) (k : ℕ) (q p : Prefix) → IsValid k q t → take k p ≢ q → get t p ≡ none
get-none null k q p v n = refl
get-none (node l r m i a d) k q p v n =
    let size : length (take m a) ≡ m = omega (arith, length-take m a, v.0, v.1) in
    let own : take m a ≢ p = λ e. n (sym (ap (take k) e) ∙ take-take k m a v.2 ∙ v.3) in
    let below : (b : Bool) → take (suc m) p ≢ take m a ++ b ∷ [] = λ b e. n (
      sym (take-take k m p v.2)
      ∙ ap (take k) (prefix_of_longer m p (take m a) b size e)
      ∙ take-take k m a v.2
      ∙ v.3) in
    rw
      (
        get-none l (suc m) _ p v.5 (below false),
        get-none r (suc m) _ p v.6 (below true),
        bits_eq_ne _ p own,
      )
      (go i)
  where
    go : (i : Bool) → (if not i && false then some d else none) ≡ none
    go true = refl
    go false = refl
