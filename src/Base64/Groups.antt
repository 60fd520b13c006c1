-- ===== src/Base64/Groups.antt =====
-- What base64dec of base64.c makes of one group of four characters.
use soteria_tacacs.Prelude.{
  ℕ, ◌+◌, ◌*◌, ◌/◌, ◌%◌, ◌^◌, ◌<◌, bit_or, ◌≡◌, refl, ap, ap₂, ◌∙◌, ◌≢◌, true, false, List, [], ◌∷◌,
  arith, ◌==◌, get_or, u8,
}
use soteria_tacacs.Base64.{base64_table, word, put, next, dec_loop}
use soteria_tacacs.Base64.Digits.{base64_reverse-get_or, bit_or_1, bit_or_2, bit_or_3}

abbrev pub Bytes : List ℕ → Type 0
Bytes [] = Unit
Bytes (x ∷ xs) = (x < 256) × Bytes xs

pub get_or-put : (b : ℕ) (buf : List ℕ) → get_or (put b buf) 0 0 ≡ b
get_or-put b [] = refl
get_or-put b (old ∷ buf) = refl

next-put : (b : ℕ) (buf : List ℕ) → next (put b buf) ≡ next buf
next-put b [] = refl
next-put b (old ∷ buf) = refl

pub eq_test : (a b : ℕ) → a ≡ b → (a == b) ≡ true
eq_test a b h = ground arith

pub ne_test : (a b : ℕ) → a ≢ b → (a == b) ≡ false
ne_test a b h = ground arith

-- the character of a value
abbrev pub char_of : ℕ → ℕ
char_of k = get_or base64_table k 0

-- One character, at the four places in a group.
module _ (k i : ℕ) (inbuf buf : List ℕ) (small : k < 64) where
  dec_0 :
      i % 4 ≡ 0 → dec_loop (char_of k ∷ inbuf) i buf ≡ dec_loop inbuf (i + 1) (put (u8 (k * 4)) buf)
  unfolding dec_loop
  dec_0 h =
      let (p, r) = base64_reverse-get_or k small in
      rw (p, r, ne_test k 255 (omega arith), eq_test (i % 4) 0 h) refl

  dec_1 :
      i % 4 ≡ 1
      → dec_loop (char_of k ∷ inbuf) i buf
        ≡ bit_or (get_or buf 0 0) (k / 16) ∷ dec_loop inbuf (i + 1) (put (u8 (k * 16)) (next buf))
  unfolding dec_loop
  dec_1 h =
      let (p, r) = base64_reverse-get_or k small in
      rw (p, r, ne_test k 255 (omega arith), ne_test (i % 4) 0 (omega arith), eq_test (i % 4) 1 h)
        refl

  dec_2 :
      i % 4 ≡ 2
      → dec_loop (char_of k ∷ inbuf) i buf
        ≡ bit_or (get_or buf 0 0) (k / 4) ∷ dec_loop inbuf (i + 1) (put (u8 (k * 64)) (next buf))
  unfolding dec_loop
  dec_2 h =
      let (p, r) = base64_reverse-get_or k small in
      rw
        (
          p,
          r,
          ne_test k 255 (omega arith),
          ne_test (i % 4) 0 (omega arith),
          ne_test (i % 4) 1 (omega arith),
          eq_test (i % 4) 2 h,
        )
        refl

  dec_3 :
      i % 4 ≡ 3
      → dec_loop (char_of k ∷ inbuf) i buf
        ≡ bit_or (get_or buf 0 0) k ∷ dec_loop inbuf (i + 1) (next buf)
  unfolding dec_loop
  dec_3 h =
      let (p, r) = base64_reverse-get_or k small in
      rw
        (
          p,
          r,
          ne_test k 255 (omega arith),
          ne_test (i % 4) 0 (omega arith),
          ne_test (i % 4) 1 (omega arith),
          ne_test (i % 4) 2 (omega arith),
        )
        refl

-- the digits of a group, from its bytes
pub digit_0 : (x y z : ℕ) → x < 256 → y < 256 → z < 256 → word x y z / 2 ^ 18 % 64 ≡ x / 4
digit_0 x y z hx hy hz = omega arith

pub digit_1 :
    (x y z : ℕ) → x < 256 → y < 256 → z < 256 → word x y z / 2 ^ 12 % 64 ≡ x % 4 * 16 + y / 16
digit_1 x y z hx hy hz = omega arith

pub digit_2 :
    (x y z : ℕ) → x < 256 → y < 256 → z < 256 → word x y z / 2 ^ 6 % 64 ≡ y % 16 * 4 + z / 64
digit_2 x y z hx hy hz = omega arith

pub digit_3 : (x y z : ℕ) → x < 256 → y < 256 → z < 256 → word x y z / 2 ^ 0 % 64 ≡ z % 64
digit_3 x y z hx hy hz = omega arith

byte_1 : (x h : ℕ) → x < 256 → h < 16 → bit_or (u8 (x / 4 * 4)) ((x % 4 * 16 + h) / 16) ≡ x
byte_1 x h hx hh = omega (
  arith,
  bit_or_1 (x / 4) (x % 4) (omega arith) (omega arith),
  ap₂ bit_or (u8_eq (x / 4 * 4) (omega arith)) (quot x h hh),
)
  where
    u8_eq : (n : ℕ) → n < 256 → u8 n ≡ n
    u8_eq n l = omega arith

    quot : (x h : ℕ) → h < 16 → (x % 4 * 16 + h) / 16 ≡ x % 4
    quot x h l = omega arith

byte_2 :
    (x y h : ℕ)
    → y < 256
    → h < 4
    → bit_or (u8 ((x % 4 * 16 + y / 16) * 16)) ((y % 16 * 4 + h) / 4) ≡ y
byte_2 x y h hy hh = omega (
  arith,
  bit_or_2 (y / 16) (y % 16) (omega arith) (omega arith),
  ap₂ bit_or (high (x % 4) (y / 16) (omega arith)) (low (y % 16) h hh),
)
  where
    high : (a b : ℕ) → b < 16 → u8 ((a * 16 + b) * 16) ≡ b * 16
    high a b l = omega arith

    low : (b h : ℕ) → h < 4 → (b * 4 + h) / 4 ≡ b
    low b h l = omega arith

byte_3 : (y z : ℕ) → z < 256 → bit_or (u8 ((y % 16 * 4 + z / 64) * 64)) (z % 64) ≡ z
byte_3 y z hz = omega (
  arith,
  bit_or_3 (z / 64) (z % 64) (omega arith) (omega arith),
  ap (λ b. bit_or b (z % 64)) (high (y % 16) (z / 64) (omega arith)),
)
  where
    high : (a b : ℕ) → b < 4 → u8 ((a * 4 + b) * 64) ≡ b * 64
    high a b l = omega arith

-- the first two characters of a group give its first byte
pub group_1 :
    (x h i : ℕ) (inbuf buf : List ℕ)
    → x < 256
    → h < 16
    → i % 4 ≡ 0
    → dec_loop (char_of (x / 4) ∷ char_of (x % 4 * 16 + h) ∷ inbuf) i buf
      ≡ x ∷ dec_loop inbuf (i + 1 + 1) (put (u8 ((x % 4 * 16 + h) * 16)) (next buf))
group_1 x h i inbuf buf hx hh hi =
    dec_0 (x / 4) i (char_of (x % 4 * 16 + h) ∷ inbuf) buf (omega arith) hi
    ∙ dec_1 (x % 4 * 16 + h) (i + 1) inbuf (put (u8 (x / 4 * 4)) buf) (omega arith) (omega arith)
    ∙ ap₂
        (λ b c.
          bit_or b ((x % 4 * 16 + h) / 16)
          ∷ dec_loop inbuf (i + 1 + 1) (put (u8 ((x % 4 * 16 + h) * 16)) c))
        (get_or-put (u8 (x / 4 * 4)) buf) (next-put (u8 (x / 4 * 4)) buf)
    ∙ ap (λ b. b ∷ dec_loop inbuf (i + 1 + 1) (put (u8 ((x % 4 * 16 + h) * 16)) (next buf)))
        (byte_1 x h hx hh)

-- the third gives the second byte
pub group_2 :
    (x y h i : ℕ) (inbuf buf : List ℕ)
    → y < 256
    → h < 4
    → i % 4 ≡ 2
    → dec_loop (char_of (y % 16 * 4 + h) ∷ inbuf) i (put (u8 ((x % 4 * 16 + y / 16) * 16)) buf)
      ≡ y ∷ dec_loop inbuf (i + 1) (put (u8 ((y % 16 * 4 + h) * 64)) (next buf))
group_2 x y h i inbuf buf hy hh hi =
    dec_2 (y % 16 * 4 + h) i inbuf (put (u8 ((x % 4 * 16 + y / 16) * 16)) buf) (omega arith) hi
    ∙ ap₂
        (λ b c.
          bit_or b ((y % 16 * 4 + h) / 4)
          ∷ dec_loop inbuf (i + 1) (put (u8 ((y % 16 * 4 + h) * 64)) c))
        (get_or-put (u8 ((x % 4 * 16 + y / 16) * 16)) buf)
        (next-put (u8 ((x % 4 * 16 + y / 16) * 16)) buf)
    ∙ ap (λ b. b ∷ dec_loop inbuf (i + 1) (put (u8 ((y % 16 * 4 + h) * 64)) (next buf)))
        (byte_2 x y h hy hh)

-- the fourth gives the third byte
pub group_3 :
    (y z i : ℕ) (inbuf buf : List ℕ)
    → z < 256
    → i % 4 ≡ 3
    → dec_loop (char_of (z % 64) ∷ inbuf) i (put (u8 ((y % 16 * 4 + z / 64) * 64)) buf)
      ≡ z ∷ dec_loop inbuf (i + 1) (next buf)
group_3 y z i inbuf buf hz hi =
    dec_3 (z % 64) i inbuf (put (u8 ((y % 16 * 4 + z / 64) * 64)) buf) (omega arith) hi
    ∙ ap₂ (λ b c. bit_or b (z % 64) ∷ dec_loop inbuf (i + 1) c)
        (get_or-put (u8 ((y % 16 * 4 + z / 64) * 64)) buf)
        (next-put (u8 ((y % 16 * 4 + z / 64) * 64)) buf)
    ∙ ap (λ b. b ∷ dec_loop inbuf (i + 1) (next buf)) (byte_3 y z hz)
