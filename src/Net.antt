-- ===== src/Net.antt =====
-- tacacs/binaries/misc/net.c: prefixes of addresses (v6_bitset, v6_network, v6_broadcast, v6_cmp,
-- v6_common_cidr, v6_contains). A struct in6_addr in host byte order is the list of its 128 bits,
-- the most significant bit of its first word first: a mask of cidr2mask[] on each of its four words
-- keeps the first m bits, and the order of the words is the order of the bits.
use Prim.Native.Nat.{Ordering}
use soteria_tacacs.Prelude.{
  ℕ, zero, suc, ◌+◌, ◌-◌, ◌*◌, ◌/◌, ◌%◌, ◌^◌, ◌≤◌, ◌<◌, bit_and, bit_or, bit_xor, ◌≡◌, refl, sym,
  ap, ap₂, ◌∙◌, ◌≢◌, ◌↔◌, ◌⊎◌, inl, inr, Bool, true, false, not, ◌&&◌, ◌||◌, Option, none, some,
  List, [], ◌∷◌, ◌++◌, append-nil, append_assoc, arith, ltb, leb, ◌==◌, ◌!=◌, if◌then◌else◌, has,
  str_eq, Bool-cases, length, get_or, take, drop, length-append, take-append-drop, length-take,
  length-drop, take-length, drop-length, u8,
}
pub mod Prefix

abbrev pub Addr : Type 0
Addr = List Bool

-- how many bits an address has
abbrev pub addr_bits : ℕ
addr_bits = 128

-- bit `b`, counted from 1, of an address
abbrev pub v6_bitset : Addr → ℕ → Bool
v6_bitset a b = ltb 0 b && ltb b 129 && get_or a (b - 1) false

-- the bits behind the first `m` are cleared
unfoldable pub v6_network : Addr → ℕ → Addr
v6_network [] m = []
v6_network (x ∷ a) zero = false ∷ v6_network a zero
v6_network (x ∷ a) (suc m) = x ∷ v6_network a m

-- the bits behind the first `m` are set
unfoldable pub v6_broadcast : Addr → ℕ → Addr
v6_broadcast [] m = []
v6_broadcast (x ∷ a) zero = true ∷ v6_broadcast a zero
v6_broadcast (x ∷ a) (suc m) = x ∷ v6_broadcast a m

abbrev bit_cmp : Bool → Bool → Ordering
bit_cmp false true = Ordering.lt
bit_cmp true false = Ordering.gt
bit_cmp _ _ = Ordering.eq

-- -1, 0 and 1 are `lt`, `eq` and `gt`
unfoldable pub v6_cmp : Addr → Addr → Ordering
v6_cmp [] b = Ordering.eq
v6_cmp (x ∷ a) [] = Ordering.eq
v6_cmp (x ∷ a) (y ∷ b) = elim (bit_cmp x y) [ Ordering.eq ↦ v6_cmp a b | o ↦ o ]

-- `!v6_cmp(a, b)`
abbrev pub cmp_is_zero : Ordering → Bool
cmp_is_zero Ordering.eq = true
cmp_is_zero _ = false

-- `1 > v6_cmp(a, b)`
abbrev pub cmp_below_one : Ordering → Bool
cmp_below_one Ordering.gt = false
cmp_below_one _ = true

abbrev pub same_bit : Bool → Bool → Bool
same_bit true true = true
same_bit false false = true
same_bit _ _ = false

-- the loop of v6_common_cidr at `m`, with `n` passes left before `min`
unfoldable pub common_loop : Addr → Addr → ℕ → ℕ → ℕ
common_loop a b m zero = m
common_loop a b m (suc n) =
    let rest = common_loop a b (suc m) n in
    if same_bit (v6_bitset a (m + 1)) (v6_bitset b (m + 1)) then rest else m

abbrev pub v6_common_cidr : Addr → Addr → ℕ → ℕ
v6_common_cidr a b min = common_loop a b 0 min

-- the network `n` of `m` bits contains the address
abbrev pub v6_contains : Addr → ℕ → Addr → Bool
v6_contains n m a = cmp_is_zero (v6_cmp n (v6_network a m))
