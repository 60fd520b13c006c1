-- ===== src/Base64/Digits.antt =====
-- The digits of base64.c, one by one, and the bits that base64dec puts together.
use soteria_tacacs.Prelude.{
  ℕ, zero, suc, ◌+◌, ◌*◌, ◌<◌, bit_or, ◌≡◌, refl, ap, ◌∙◌, inl, inr, Bool, true, false, ◌&&◌, arith,
  ◌==◌, ◌!=◌, Bool-cases, get_or,
}
use soteria_tacacs.Base64.{base64_table, padding, base64_reverse}

abbrev all_below : ℕ → (ℕ → Bool) → Bool
all_below zero f = true
all_below (suc n) f = f n && all_below n f

below : (n : ℕ) (f : ℕ → Bool) (k : ℕ) → all_below n f ≡ true → k < n → f k ≡ true
below zero f k h l = absurd (omega arith)
below (suc n) f k h l = elim (Bool-cases (k == n)) [
  | inl e ↦ ap f (ground arith) ∙ go (f n) (all_below n f) h
  | inr e ↦ below n f k (go2 (f n) (all_below n f) h) (ground arith)
]
  where
    go : (x y : Bool) → (x && y) ≡ true → x ≡ true
    go true y w = refl
    go false y w = w

    go2 : (x y : Bool) → (x && y) ≡ true → y ≡ true
    go2 true y w = w
    go2 false y w = ground arith

and_left : (x y : Bool) → (x && y) ≡ true → (x ≡ true) × (y ≡ true)
and_left true y w = (refl, w)
and_left false y w = ground arith

eq_of_test : (a b : ℕ) → (a == b) ≡ true → a ≡ b
eq_of_test a b h = ground arith

ne_of_test : (a b : ℕ) → (a != b) ≡ true → (a == b) ≡ false
ne_of_test a b h = ground arith

-- a digit is no padding, and base64_reverse finds its value
pub base64_reverse-get_or :
    (k : ℕ)
    → k < 64
    → ((get_or base64_table k 0 == padding) ≡ false)
      × (base64_reverse (get_or base64_table k 0) ≡ k)
base64_reverse-get_or k h =
    let f : ℕ → Bool = λ k.
      (get_or base64_table k 0 != padding) && (base64_reverse (get_or base64_table k 0) == k) in
    let (x, y) =
      and_left (get_or base64_table k 0 != padding) (base64_reverse (get_or base64_table k 0) == k)
        (below 64 f k refl h) in
    (
      ne_of_test (get_or base64_table k 0) padding x,
      eq_of_test (base64_reverse (get_or base64_table k 0)) k y,
    )

-- The bits of two digits that make up a byte.
pub bit_or_1 : (c h : ℕ) → c < 64 → h < 4 → bit_or (c * 4) h ≡ c * 4 + h
bit_or_1 c h lc lh =
    let f : ℕ → Bool = λ c. all_below 4 (λ h. bit_or (c * 4) h == c * 4 + h) in
    eq_of_test (bit_or (c * 4) h) (c * 4 + h)
      (below 4 (λ h. bit_or (c * 4) h == c * 4 + h) h (below 64 f c refl lc) lh)

pub bit_or_2 : (c h : ℕ) → c < 16 → h < 16 → bit_or (c * 16) h ≡ c * 16 + h
bit_or_2 c h lc lh =
    let f : ℕ → Bool = λ c. all_below 16 (λ h. bit_or (c * 16) h == c * 16 + h) in
    eq_of_test (bit_or (c * 16) h) (c * 16 + h)
      (below 16 (λ h. bit_or (c * 16) h == c * 16 + h) h (below 16 f c refl lc) lh)

pub bit_or_3 : (c h : ℕ) → c < 4 → h < 64 → bit_or (c * 64) h ≡ c * 64 + h
bit_or_3 c h lc lh =
    let f : ℕ → Bool = λ c. all_below 64 (λ h. bit_or (c * 64) h == c * 64 + h) in
    eq_of_test (bit_or (c * 64) h) (c * 64 + h)
      (below 64 (λ h. bit_or (c * 64) h == c * 64 + h) h (below 4 f c refl lc) lh)
