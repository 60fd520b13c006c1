-- ===== src/Radix/Table.antt =====
-- What the tree of radix.c stands for: a table from prefixes to payloads, with the search for the
-- longest prefix of an address in it.
use soteria_tacacs.Prelude.{
  ℕ, zero, suc, ◌≤◌, ◌<◌, ◌≡◌, refl, ap, ◌≢◌, inl, inr, Bool, true, false, Option, none, some, List,
  [], ◌∷◌, arith, leb, ◌==◌, if◌then◌else◌, Bool-cases, take,
}
use soteria_tacacs.Net.{Addr}

-- the prefix of a network, as the bits of its mask length
abbrev pub Prefix : Type 0
Prefix = List Bool

abbrev pub Table : Type 0
Table = Prefix → Option ℕ

abbrev pub bits_eq : Prefix → Prefix → Bool
bits_eq [] [] = true
bits_eq [] (y ∷ q) = false
bits_eq (x ∷ p) [] = false
bits_eq (true ∷ p) (true ∷ q) = bits_eq p q
bits_eq (false ∷ p) (false ∷ q) = bits_eq p q
bits_eq (true ∷ p) (false ∷ q) = false
bits_eq (false ∷ p) (true ∷ q) = false

abbrev pub first : Option ℕ → Option ℕ → Option ℕ
first (some v) w = some v
first none w = w

abbrev pub empty : Table
empty p = none

-- an entry for the prefix, if it has none yet
abbrev pub declare : Table → Prefix → ℕ → Table
declare f p d q = first (f q) (if bits_eq p q then some d else none)

-- the entry of the longest prefix of `a` with at most `n` bits
unfoldable pub longest : Table → Addr → ℕ → Option ℕ
longest f a zero = f []
longest f a (suc n) = first (f (take (suc n) a)) (longest f a n)

abbrev pub payload : Option ℕ → ℕ → ℕ
payload none match = match
payload (some d) match = d

pub eq_of_bits_eq : (p q : Prefix) → bits_eq p q ≡ true → p ≡ q
eq_of_bits_eq [] [] h = refl
eq_of_bits_eq [] (y ∷ q) h = ground arith
eq_of_bits_eq (x ∷ p) [] h = ground arith
eq_of_bits_eq (true ∷ p) (true ∷ q) h = ap (◌∷◌ true) (eq_of_bits_eq p q h)
eq_of_bits_eq (false ∷ p) (false ∷ q) h = ap (◌∷◌ false) (eq_of_bits_eq p q h)
eq_of_bits_eq (true ∷ p) (false ∷ q) h = ground arith
eq_of_bits_eq (false ∷ p) (true ∷ q) h = ground arith

pub bits_eq_self : (p : Prefix) → bits_eq p p ≡ true
bits_eq_self [] = refl
bits_eq_self (true ∷ p) = bits_eq_self p
bits_eq_self (false ∷ p) = bits_eq_self p

pub bits_eq_ne : (p q : Prefix) → p ≢ q → bits_eq p q ≡ false
bits_eq_ne p q n = elim (Bool-cases (bits_eq p q)) [
  | inl h ↦ absurd (n (eq_of_bits_eq p q h))
  | inr h ↦ h
]

pub longest-none :
    (f : Table) (a : Addr) (n : ℕ) → ((j : ℕ) → j ≤ n → f (take j a) ≡ none) → longest f a n ≡ none
unfolding longest
longest-none f a zero h = h 0 (omega arith)
longest-none f a (suc n) h =
    rw (h (suc n) (omega arith)) (longest-none f a n (λ j l. h j (omega arith)))

-- An entry for the prefix of `m` bits counts where no longer prefix has one.
pub longest-first :
    (f g : Table) (a : Addr) (m n : ℕ) (w : Option ℕ)
    → ((j : ℕ) → j ≤ n → f (take j a) ≡ first (g (take j a)) (if j == m then w else none))
    → ((j : ℕ) → j ≤ m → g (take j a) ≡ none)
    → longest f a n ≡ first (longest g a n) (if leb m n then w else none)
unfolding longest
longest-first f g a m zero w h low = ground (arith, h 0 (omega arith), low 0 (omega arith))
longest-first f g a m (suc n) w h low =
    let e : longest f a n ≡ first (longest g a n) (if leb m n then w else none) =
      longest-first f g a m n w (λ j l. h j (omega arith)) low in
    let z : n < m → longest g a n ≡ none = λ l. longest-none g a n (λ j k. low j (omega arith)) in
    ground (arith, h (suc n) (omega arith), low (suc n), e, z)
