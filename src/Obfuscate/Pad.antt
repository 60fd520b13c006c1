-- ===== src/Obfuscate/Pad.antt =====
-- The pseudo pad of RFC 8907, section 4.5, and the exclusive or of a body with it: an
-- independent description of what `md5_xor` does.
use soteria_tacacs.Prelude.{
  ℕ, zero, suc, ◌≡◌, refl, ap, ap₂, List, [], ◌∷◌, ◌++◌, bit_xor, bit_xor_cancel, length, take,
}
use soteria_tacacs.Protocol.{Hdr}
use soteria_tacacs.Obfuscate.{digest_input}

-- byte by byte, as far as the pad goes
unfoldable pub xor_with : List ℕ → List ℕ → List ℕ
xor_with [] pad = []
xor_with (x ∷ xs) [] = x ∷ xs
xor_with (x ∷ xs) (k ∷ pad) = bit_xor x k ∷ xor_with xs pad

pub xor_with-nil : (xs : List ℕ) → xor_with xs [] ≡ xs
unfolding xor_with
xor_with-nil [] = refl
xor_with-nil (x ∷ xs) = refl

pub xor_with_cancel : (xs pad : List ℕ) → xor_with (xor_with xs pad) pad ≡ xs
unfolding xor_with
xor_with_cancel [] pad = refl
xor_with_cancel (x ∷ xs) [] = refl
xor_with_cancel (x ∷ xs) (k ∷ pad) = ap₂ ◌∷◌ (bit_xor_cancel x k) (xor_with_cancel xs pad)

pub length-xor_with : (xs pad : List ℕ) → length (xor_with xs pad) ≡ length xs
unfolding xor_with
length-xor_with [] pad = refl
length-xor_with (x ∷ xs) [] = refl
length-xor_with (x ∷ xs) (k ∷ pad) = ap suc (length-xor_with xs pad)

module _ (md5v : List (List ℕ) → List ℕ) where
  -- MD5_1 is the digest of session id, key, version and sequence number; MD5_n has MD5_{n-1}
  -- as one more input. `n` digests, the first with the inputs `extra`.
  unfoldable pub pseudo_pad : Hdr → List ℕ → ℕ → List (List ℕ) → List ℕ
  pseudo_pad hdr key zero extra = []
  pseudo_pad hdr key (suc n) extra =
      let digest = md5v (digest_input hdr key ++ extra) in
      digest ++ pseudo_pad hdr key n (digest ∷ [])

  -- the pad that a body is combined with: the digests, cut at the body's length
  unfoldable pub body_pad : Hdr → List ℕ → List ℕ
  body_pad hdr key = take hdr.datalength (pseudo_pad hdr key hdr.datalength [])

  pseudo_pad-flags :
      (hdr : Hdr) (f : ℕ) (key : List ℕ) (n : ℕ) (extra : List (List ℕ))
      → pseudo_pad (record hdr { flags = f }) key n extra ≡ pseudo_pad hdr key n extra
  unfolding pseudo_pad
  pseudo_pad-flags hdr f key zero extra = refl
  pseudo_pad-flags hdr f key (suc n) extra =
      let digest : List ℕ = md5v (digest_input hdr key ++ extra) in
      ap (◌++◌ digest) (pseudo_pad-flags hdr f key n (digest ∷ []))

  -- The pad does not depend on the flags, which obfuscation toggles.
  pub body_pad-flags :
      (hdr : Hdr) (f : ℕ) (key : List ℕ)
      → body_pad (record hdr { flags = f }) key ≡ body_pad hdr key
  unfolding body_pad
  body_pad-flags hdr f key = ap (take hdr.datalength) (pseudo_pad-flags hdr f key hdr.datalength [])
