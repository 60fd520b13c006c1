-- ===== src/Net/Prefix.antt =====
-- The prefix functions of net.c by the bits that addresses share: `take m a` is the prefix of `m`
-- bits of an address.
use Prim.Native.Nat.{Ordering}
use soteria_tacacs.Prelude.{
  ℕ, zero, suc, ◌+◌, ◌≤◌, ◌<◌, ◌≡◌, refl, sym, ap, inl, inr, Bool, true, false, [], ◌∷◌, arith,
  Bool-cases, length, get_or, take,
}
use soteria_tacacs.Net.{
  Addr, v6_bitset, v6_network, v6_broadcast, v6_cmp, cmp_is_zero, cmp_below_one, same_bit,
  common_loop,
}

pub length-v6_network : (a : Addr) (m : ℕ) → length (v6_network a m) ≡ length a
unfolding v6_network
length-v6_network [] m = refl
length-v6_network (x ∷ a) zero = ap suc (length-v6_network a zero)
length-v6_network (x ∷ a) (suc m) = ap suc (length-v6_network a m)

pub length-v6_broadcast : (a : Addr) (m : ℕ) → length (v6_broadcast a m) ≡ length a
unfolding v6_broadcast
length-v6_broadcast [] m = refl
length-v6_broadcast (x ∷ a) zero = ap suc (length-v6_broadcast a zero)
length-v6_broadcast (x ∷ a) (suc m) = ap suc (length-v6_broadcast a m)

pub take-v6_network : (a : Addr) (m : ℕ) → take m (v6_network a m) ≡ take m a
unfolding v6_network
take-v6_network [] m = refl
take-v6_network (x ∷ a) zero = refl
take-v6_network (x ∷ a) (suc m) = ap (◌∷◌ x) (take-v6_network a m)

-- the network of an address is a function of its prefix
pub v6_network-cong :
    (a b : Addr) (m : ℕ)
    → length a ≡ length b
    → take m a ≡ take m b
    → v6_network a m ≡ v6_network b m
unfolding v6_network
v6_network-cong [] [] m h e = refl
v6_network-cong [] (y ∷ b) m h e = absurd (omega arith)
v6_network-cong (x ∷ a) [] m h e = absurd (omega arith)
v6_network-cong (x ∷ a) (y ∷ b) zero h e =
    ap (◌∷◌ false) (v6_network-cong a b zero (omega arith) refl)
v6_network-cong (x ∷ a) (y ∷ b) (suc m) h e = ground (arith, v6_network-cong a b m)

pub v6_cmp_self : (a : Addr) → v6_cmp a a ≡ Ordering.eq
unfolding v6_cmp
v6_cmp_self [] = refl
v6_cmp_self (true ∷ a) = v6_cmp_self a
v6_cmp_self (false ∷ a) = v6_cmp_self a

pub eq_of_v6_cmp : (a b : Addr) → length a ≡ length b → cmp_is_zero (v6_cmp a b) ≡ true → a ≡ b
unfolding v6_cmp
eq_of_v6_cmp [] [] h e = refl
eq_of_v6_cmp [] (y ∷ b) h e = absurd (omega arith)
eq_of_v6_cmp (x ∷ a) [] h e = absurd (omega arith)
eq_of_v6_cmp (true ∷ a) (true ∷ b) h e = ap (◌∷◌ true) (eq_of_v6_cmp a b (omega arith) e)
eq_of_v6_cmp (false ∷ a) (false ∷ b) h e = ap (◌∷◌ false) (eq_of_v6_cmp a b (omega arith) e)
eq_of_v6_cmp (true ∷ a) (false ∷ b) h e = ground arith
eq_of_v6_cmp (false ∷ a) (true ∷ b) h e = ground arith

-- an address between a network and its broadcast address is in the network
pub take_of_range :
    (a b : Addr) (m : ℕ)
    → length a ≡ length b
    → cmp_below_one (v6_cmp (v6_network a m) b) ≡ true
    → cmp_below_one (v6_cmp b (v6_broadcast a m)) ≡ true
    → take m a ≡ take m b
unfolding v6_network v6_broadcast v6_cmp
take_of_range a b zero h l u = refl
take_of_range [] [] (suc m) h l u = refl
take_of_range [] (y ∷ b) (suc m) h l u = absurd (omega arith)
take_of_range (x ∷ a) [] (suc m) h l u = absurd (omega arith)
take_of_range (true ∷ a) (true ∷ b) (suc m) h l u =
    ap (◌∷◌ true) (take_of_range a b m (omega arith) l u)
take_of_range (false ∷ a) (false ∷ b) (suc m) h l u =
    ap (◌∷◌ false) (take_of_range a b m (omega arith) l u)
take_of_range (true ∷ a) (false ∷ b) (suc m) h l u = ground arith
take_of_range (false ∷ a) (true ∷ b) (suc m) h l u = ground arith

-- an address of a network is not below its base address
pub network_below :
    (a b : Addr) (m : ℕ) → take m a ≡ take m b → cmp_below_one (v6_cmp (v6_network a m) b) ≡ true
unfolding v6_network v6_cmp
network_below [] b m e = refl
network_below (x ∷ a) [] zero e = refl
network_below (x ∷ a) [] (suc m) e = refl
network_below (x ∷ a) (true ∷ b) zero e = refl
network_below (x ∷ a) (false ∷ b) zero e = network_below a b zero refl
network_below (x ∷ a) (y ∷ b) (suc m) e = ground (arith, network_below a b m)

-- an address of a network is not above its broadcast address
pub below_broadcast :
    (a b : Addr) (m : ℕ) → take m a ≡ take m b → cmp_below_one (v6_cmp b (v6_broadcast a m)) ≡ true
unfolding v6_broadcast v6_cmp
below_broadcast a [] m e = refl
below_broadcast [] (y ∷ b) m e = refl
below_broadcast (x ∷ a) (false ∷ b) zero e = refl
below_broadcast (x ∷ a) (true ∷ b) zero e = below_broadcast a b zero refl
below_broadcast (x ∷ a) (y ∷ b) (suc m) e = ground (arith, below_broadcast a b m)

take_more :
    (a b : Addr) (m : ℕ)
    → length a ≡ length b
    → take m a ≡ take m b
    → get_or a m false ≡ get_or b m false
    → take (suc m) a ≡ take (suc m) b
take_more [] [] m h e f = refl
take_more [] (y ∷ b) m h e f = absurd (omega arith)
take_more (x ∷ a) [] m h e f = absurd (omega arith)
take_more (x ∷ a) (y ∷ b) zero h e f = ap (λ z. z ∷ []) f
take_more (x ∷ a) (y ∷ b) (suc m) h e f = ground (arith, take_more a b m)

-- inside an address, a bit is tested by its position
pub v6_bitset-get_or : (a : Addr) (m : ℕ) → m < 128 → v6_bitset a (m + 1) ≡ get_or a m false
v6_bitset-get_or a m h = ground arith

eq_of_same_bit : (x y : Bool) → same_bit x y ≡ true → x ≡ y
eq_of_same_bit true true h = refl
eq_of_same_bit false false h = refl
eq_of_same_bit true false h = sym h
eq_of_same_bit false true h = h

-- What v6_common_cidr finds: the addresses share a prefix of so many bits, and differ in the next.
pub record Common (a b : Addr) (min k : ℕ) : Type 0 where
  pub shared : take k a ≡ take k b
  pub at_most : k ≤ min
  pub differ : k < min → same_bit (get_or a k false) (get_or b k false) ≡ false

pub common_loop-Common :
    (a b : Addr) (m n : ℕ)
    → length a ≡ length b
    → m + n ≤ 128
    → take m a ≡ take m b
    → Common a b (m + n) (common_loop a b m n)
unfolding common_loop
common_loop-Common a b m zero h l e = record {
  shared = e;
  at_most = omega arith;
  differ = λ w. absurd (omega arith);
}
common_loop-Common a b m (suc n) h l e =
    let ea : v6_bitset a (m + 1) ≡ get_or a m false = v6_bitset-get_or a m (omega arith) in
    let eb : v6_bitset b (m + 1) ≡ get_or b m false = v6_bitset-get_or b m (omega arith) in
    elim (Bool-cases (same_bit (get_or a m false) (get_or b m false))) [
      | inl s ↦
          rw (ea, eb, s)
            (go (
              common_loop-Common a b (suc m) n h (omega arith)
                (take_more a b m h e (eq_of_same_bit _ _ s))))
      | inr s ↦ rw (ea, eb, s) record { shared = e; at_most = omega arith; differ = λ w. s }
    ]
  where
    go : {k : ℕ} → Common a b (suc m + n) k → Common a b (m + suc n) k
    go c = record {
      shared = c.shared;
      at_most = omega (arith, c.at_most);
      differ = λ w. c.differ (omega arith);
    }

pub take-v6_broadcast : (a : Addr) (m k : ℕ) → k ≤ m → take k (v6_broadcast a m) ≡ take k a
unfolding v6_broadcast
take-v6_broadcast [] m k h = refl
take-v6_broadcast (x ∷ a) m zero h = refl
take-v6_broadcast (x ∷ a) zero (suc k) h = absurd (omega arith)
take-v6_broadcast (x ∷ a) (suc m) (suc k) h = ap (◌∷◌ x) (take-v6_broadcast a m k (omega arith))

pub get_or-v6_broadcast :
    (a : Addr) (m k : ℕ) → k < m → get_or (v6_broadcast a m) k false ≡ get_or a k false
unfolding v6_broadcast
get_or-v6_broadcast [] m k h = refl
get_or-v6_broadcast (x ∷ a) zero k h = absurd (omega arith)
get_or-v6_broadcast (x ∷ a) (suc m) zero h = refl
get_or-v6_broadcast (x ∷ a) (suc m) (suc k) h = get_or-v6_broadcast a m k (omega arith)

-- the first bit in which two addresses differ decides their order
pub v6_cmp_by_bit :
    (a b : Addr) (k : ℕ)
    → length a ≡ length b
    → take k a ≡ take k b
    → same_bit (get_or a k false) (get_or b k false) ≡ false
    → cmp_below_one (v6_cmp a b) ≡ get_or b k false
unfolding v6_cmp
v6_cmp_by_bit [] [] k h e d = ground arith
v6_cmp_by_bit [] (y ∷ b) k h e d = absurd (omega arith)
v6_cmp_by_bit (x ∷ a) [] k h e d = absurd (omega arith)
v6_cmp_by_bit (x ∷ a) (y ∷ b) zero h e d = ground arith
v6_cmp_by_bit (x ∷ a) (y ∷ b) (suc k) h e d = ground (arith, v6_cmp_by_bit a b k)
