-- ===== src/Base64/RoundTrip.antt =====
-- What base64dec of base64.c makes of a text of base64enc, and how long the text is.
use soteria_tacacs.Prelude.{
  ℕ, ◌+◌, ◌*◌, ◌/◌, ◌%◌, ◌≤◌, ◌<◌, ◌≡◌, refl, ap, ◌∙◌, ◌≢◌, false, some, List, [], ◌∷◌, ◌++◌, arith,
  ltb, length, u8,
}
use soteria_tacacs.Base64.{
  padding, base64enc_loop, required_outlen, base64enc, put, next, dec_loop, base64dec,
}
use soteria_tacacs.Base64.Groups.{
  Bytes, get_or-put, eq_test, ne_test, char_of, digit_0, digit_1, digit_2, digit_3, group_1,
  group_2, group_3,
}

-- the byte too many that base64dec counts where the text is padded
abbrev pub surplus : List ℕ → List ℕ
surplus [] = []
surplus (x ∷ []) = 0 ∷ []
surplus (x ∷ y ∷ []) = 0 ∷ []
surplus (x ∷ y ∷ z ∷ bytes) = surplus bytes

dec_padding :
    (inbuf : List ℕ) (i b : ℕ) (buf : List ℕ)
    → (i % 4 ≡ 0 → ⊥)
    → dec_loop (padding ∷ inbuf) i (put b buf) ≡ b ∷ []
unfolding dec_loop
dec_padding inbuf i b buf n = rw (ne_test (i % 4) 0 n, get_or-put b buf) refl

dec_nil : (i : ℕ) (buf : List ℕ) → i % 4 ≡ 0 → dec_loop [] i buf ≡ []
unfolding dec_loop
dec_nil i buf e = rw (eq_test (i % 4) 0 e) refl

ltb_ge : (a b : ℕ) → b ≤ a → ltb a b ≡ false
ltb_ge a b h = ground arith

dec_loop-base64enc_loop :
    (bytes : List ℕ) (i : ℕ) (buf : List ℕ)
    → Bytes bytes
    → i % 4 ≡ 0
    → dec_loop (base64enc_loop bytes) i buf ≡ bytes ++ surplus bytes
unfolding base64enc_loop
dec_loop-base64enc_loop [] i buf h e = dec_nil i buf e
dec_loop-base64enc_loop (x ∷ []) i buf h e =
    rw
      (digit_0 x 0 0 h.0 (omega arith) (omega arith), digit_1 x 0 0 h.0 (omega arith) (omega arith))
      (group_1 x (0 / 16) i (padding ∷ padding ∷ []) buf h.0 (omega arith) e
        ∙ ap (◌∷◌ x) (
            dec_padding (padding ∷ []) (i + 1 + 1) (u8 ((x % 4 * 16 + 0 / 16) * 16)) (next buf)
              (λ z. omega arith)
            ∙ ap (λ b. b ∷ []) (omega arith)))
dec_loop-base64enc_loop (x ∷ y ∷ []) i buf h e =
    rw
      (
        digit_0 x y 0 h.0 h.1.0 (omega arith),
        digit_1 x y 0 h.0 h.1.0 (omega arith),
        digit_2 x y 0 h.0 h.1.0 (omega arith),
      )
      (group_1 x (y / 16) i (char_of (y % 16 * 4 + 0 / 64) ∷ padding ∷ []) buf h.0
          (omega (arith, h.1.0)) e
        ∙ ap (◌∷◌ x) (
            group_2 x y (0 / 64) (i + 1 + 1) (padding ∷ []) (next buf) h.1.0 (omega arith)
              (omega arith)
            ∙ ap (◌∷◌ y) (
                dec_padding [] (i + 1 + 1 + 1) (u8 ((y % 16 * 4 + 0 / 64) * 64)) (next (next buf))
                  (λ z. omega arith)
                ∙ ap (λ b. b ∷ []) (omega arith))))
dec_loop-base64enc_loop (x ∷ y ∷ z ∷ bytes) i buf h e =
    rw
      (
        digit_0 x y z h.0 h.1.0 h.1.1.0,
        digit_1 x y z h.0 h.1.0 h.1.1.0,
        digit_2 x y z h.0 h.1.0 h.1.1.0,
        digit_3 x y z h.0 h.1.0 h.1.1.0,
      )
      (group_1 x (y / 16) i
          (char_of (y % 16 * 4 + z / 64) ∷ char_of (z % 64) ∷ base64enc_loop bytes) buf h.0
          (omega (arith, h.1.0)) e
        ∙ ap (◌∷◌ x) (
            group_2 x y (z / 64) (i + 1 + 1) (char_of (z % 64) ∷ base64enc_loop bytes) (next buf)
              h.1.0 (omega (arith, h.1.1.0)) (omega arith)
            ∙ ap (◌∷◌ y) (
                group_3 y z (i + 1 + 1 + 1) (base64enc_loop bytes) (next (next buf)) h.1.1.0
                  (omega arith)
                ∙ ap (◌∷◌ z) (
                    dec_loop-base64enc_loop bytes (i + 1 + 1 + 1 + 1) (next (next (next buf)))
                      h.1.1.1 (omega arith)))))

-- For bytes below 256, base64dec in a buffer of at least 3 * (length / 4) + 1 bytes, whatever is in
-- it, reads the text of base64enc back, but for one thing: where the text is padded, since the number
-- of bytes is no multiple of 3, it counts a zero byte behind them.
pub base64dec-base64enc :
    (bytes buf : List ℕ) (n m : ℕ)
    → Bytes bytes
    → required_outlen (length bytes) < n
    → 3 * (length (base64enc_loop bytes) / 4) < m
    → (base64enc bytes n ≡ some (base64enc_loop bytes))
      × (base64dec (base64enc_loop bytes) m buf ≡ some (bytes ++ surplus bytes))
unfolding base64enc base64dec
base64dec-base64enc bytes buf n m h hn hm =
    let e : ltb n (required_outlen (length bytes) + 1) ≡ false =
      ltb_ge n (required_outlen (length bytes) + 1) (omega arith) in
    let f : ltb m (3 * (length (base64enc_loop bytes) / 4) + 1) ≡ false =
      ltb_ge m (3 * (length (base64enc_loop bytes) / 4) + 1) (omega arith) in
    (rw e refl, rw f (ap some (dec_loop-base64enc_loop bytes 0 buf h (omega arith))))

-- four characters for every group of three bytes that has begun
length-base64enc_loop :
    (bytes : List ℕ) → length (base64enc_loop bytes) ≡ (length bytes + 2) / 3 * 4
unfolding base64enc_loop
length-base64enc_loop [] = omega arith
length-base64enc_loop (x ∷ []) = omega arith
length-base64enc_loop (x ∷ y ∷ []) = omega arith
length-base64enc_loop (x ∷ y ∷ z ∷ bytes) = omega (arith, length-base64enc_loop bytes)

-- If the number of bytes is no multiple of 3, base64enc takes a buffer of the length that it asks
-- for, and writes behind the end of it: the text with its terminating zero is longer.
pub base64enc-overruns :
    (bytes : List ℕ)
    → length bytes % 3 ≢ 0
    → let n = required_outlen (length bytes) + 1 in
      (base64enc bytes n ≡ some (base64enc_loop bytes)) × (n < length (base64enc_loop bytes) + 1)
unfolding base64enc
base64enc-overruns bytes h =
    let n = required_outlen (length bytes) + 1 in
    (rw (ltb_ge n n (omega arith)) refl, omega (arith, length-base64enc_loop bytes))
