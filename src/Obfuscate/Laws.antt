-- ===== src/Obfuscate/Laws.antt =====
-- What `md5_xor` guarantees: it is the exclusive or with the pseudo pad, and it undoes itself,
-- which the loop over the keys in `tac_read` rests on.
use soteria_tacacs.Prelude.{
  ℕ, zero, suc, ◌+◌, ◌-◌, ◌*◌, ◌≤◌, ◌<◌, ◌≡◌, ◌≢◌, refl, ap, ap₂, ◌∙◌, sym, List, [], ◌∷◌, ◌++◌,
  bit_xor, bit_xor_cancel, length, take, drop, take-append-drop, arith, ◌==◌, if◌then◌else◌,
}
use native.Mathlib.Decide.{dec_lt, ℕ_discrete}
use soteria_tacacs.Protocol.{Hdr, Pak, unencrypted_flag, byte_at}
use soteria_tacacs.Obfuscate.{minimum, xor_bytes, digest_input, xor_loop, md5_xor}
use soteria_tacacs.Obfuscate.Pad.{
  xor_with, xor_with-nil, xor_with_cancel, pseudo_pad, body_pad, body_pad-flags,
}

-- A block that the digest covers.
full_block :
    (n : ℕ) (block hash rest : List ℕ)
    → length hash ≡ n
    → xor_bytes n (take n block) hash ++ xor_with (drop n block) rest
      ≡ xor_with block (hash ++ rest)
unfolding xor_bytes xor_with
full_block zero block [] rest h = refl
full_block zero block (k ∷ hash) rest h = absurd (omega arith)
full_block (suc n) block [] rest h = absurd (omega arith)
full_block (suc n) [] (k ∷ hash) rest h = refl
full_block (suc n) (x ∷ block) (k ∷ hash) rest h =
    ap (◌∷◌ (bit_xor x k)) (full_block n block hash rest (omega arith))

-- The last block, of which the first `m` bytes are changed.
last_block :
    (m n : ℕ) (block hash : List ℕ)
    → m ≤ n
    → m ≤ length hash
    → xor_bytes m (take n block) hash ++ drop n block ≡ xor_with block (take m hash)
unfolding xor_bytes xor_with
last_block zero n block hash p q = take-append-drop n block ∙ sym (xor_with-nil block)
last_block (suc m) zero block hash p q = absurd (omega arith)
last_block (suc m) (suc n) block [] p q = absurd (omega arith)
last_block (suc m) (suc n) [] (k ∷ hash) p q = refl
last_block (suc m) (suc n) (x ∷ block) (k ∷ hash) p q =
    ap (◌∷◌ (bit_xor x k)) (last_block m n block hash (omega arith) (omega arith))

take_full :
    (n : ℕ) (hash rest : List ℕ)
    → length hash ≤ n
    → take n (hash ++ rest) ≡ hash ++ take (n - length hash) rest
take_full zero [] rest h = refl
take_full zero (k ∷ hash) rest h = absurd (omega arith)
take_full (suc n) [] rest h = ap (λ k. take k rest) {x = suc n} (omega arith)
take_full (suc n) (k ∷ hash) rest h = ap (◌∷◌ k) (
    take_full n hash rest (omega arith)
    ∙ ap (λ j. hash ++ take j rest) {x = n - length hash} (omega arith))

take_part : (n : ℕ) (hash rest : List ℕ) → n ≤ length hash → take n (hash ++ rest) ≡ take n hash
take_part zero hash rest h = refl
take_part (suc n) [] rest h = absurd (omega arith)
take_part (suc n) (k ∷ hash) rest h = ap (◌∷◌ k) (take_part n hash rest (omega arith))

module _ (md5v : List (List ℕ) → List ℕ)
    (digest_size : (bs : List (List ℕ)) → length (md5v bs) ≡ 16) (hdr : Hdr) (key : List ℕ) where
  abbrev extra : ℕ → List ℕ → List (List ℕ)
  extra i prev = if i == 0 then [] else prev ∷ []

  -- Past the end the loop changes nothing.
  loop_done :
      (fuel i : ℕ) (prev block : List ℕ)
      → hdr.datalength ≤ i
      → xor_loop md5v hdr key fuel i prev block ≡ block
  unfolding xor_loop
  loop_done zero i prev block h = refl
  loop_done (suc fuel) i prev block h = ground arith

  loop_over :
      (n i : ℕ) (prev block : List ℕ)
      → hdr.datalength ≤ i
      → xor_loop md5v hdr key n i prev block
        ≡ xor_with block (take (hdr.datalength - i) (pseudo_pad md5v hdr key n (extra i prev)))
  loop_over n i prev block h =
      loop_done n i prev block h
      ∙ sym (xor_with-nil block)
      ∙ ap (λ k. xor_with block (take k (pseudo_pad md5v hdr key n (extra i prev)))) {x = 0}
          (omega arith)

  extra_after : (i : ℕ) (hash : List ℕ) → extra (i + 16) hash ≡ hash ∷ []
  extra_after i hash = ground arith

  module _ (n i : ℕ) (prev block : List ℕ) where
    abbrev digest : List ℕ
    digest = md5v (digest_input hdr key ++ extra i prev)

    -- A round that starts before the end.
    loop_round :
        i < hdr.datalength
        → xor_loop md5v hdr key (suc n) i prev block
          ≡ xor_bytes (minimum (hdr.datalength - i) 16) (take 16 block) digest
            ++ xor_loop md5v hdr key n (i + 16) digest (drop 16 block)
    unfolding xor_loop
    loop_round h = ground arith

    abbrev next_pad : List ℕ
    next_pad = pseudo_pad md5v hdr key n (digest ∷ [])

    abbrev Goal : Type 0
    Goal =
        xor_loop md5v hdr key (suc n) i prev block
        ≡ xor_with block
            (take (hdr.datalength - i) (pseudo_pad md5v hdr key (suc n) (extra i prev)))

    loop_last : i < hdr.datalength → hdr.datalength ≤ i + 16 → Goal
    unfolding pseudo_pad
    loop_last h k =
        let left : ℕ = hdr.datalength - i in
        let m : minimum left 16 ≡ left = ground arith in
        let fits : left ≤ length digest =
          omega (arith, digest_size (digest_input hdr key ++ extra i prev)) in
        loop_round h
        ∙ ap₂ (λ a b. xor_bytes a (take 16 block) digest ++ b) m
            (loop_done n (i + 16) digest (drop 16 block) k)
        ∙ last_block left 16 block digest (omega arith) fits
        ∙ ap (xor_with block) (sym (take_part left digest next_pad fits))

    loop_full :
        i + 16 ≤ hdr.datalength
        → xor_loop md5v hdr key n (i + 16) digest (drop 16 block)
          ≡ xor_with
              (drop 16 block)
              (take (hdr.datalength - (i + 16)) (pseudo_pad md5v hdr key n (extra (i + 16) digest)))
        → Goal
    unfolding pseudo_pad
    loop_full k ih =
        let left : ℕ = hdr.datalength - i in
        let m : minimum left 16 ≡ 16 = ground arith in
        let size : length digest ≡ 16 = digest_size (digest_input hdr key ++ extra i prev) in
        let rest : List ℕ = take (hdr.datalength - (i + 16)) next_pad in
        loop_round (omega arith)
        ∙ ap₂ (λ a b. xor_bytes a (take 16 block) digest ++ b) m (rw extra_after at ih)
        ∙ full_block 16 block digest rest size
        ∙ ap (xor_with block) (
            ap (λ j. digest ++ take j next_pad) {x = hdr.datalength - (i + 16)} (omega arith)
            ∙ sym (take_full left digest next_pad (omega arith)))

  -- `n` rounds from index `i` on, when they reach the end.
  loop-eq-pad :
      (n i : ℕ) (prev block : List ℕ)
      → hdr.datalength ≤ i + 16 * n
      → xor_loop md5v hdr key n i prev block
        ≡ xor_with block (take (hdr.datalength - i) (pseudo_pad md5v hdr key n (extra i prev)))
  loop-eq-pad zero i prev block h = loop_over zero i prev block (omega arith)
  loop-eq-pad (suc n) i prev block h = elim (dec_lt i hdr.datalength) [
    | no done ↦ loop_over (suc n) i prev block (omega arith)
    | yes more ↦ elim (dec_lt hdr.datalength (i + 16)) [
      | yes last ↦ loop_last n i prev block more (omega arith)
      | no full ↦
          loop_full n i prev block (omega arith)
            (loop-eq-pad n (i + 16) (digest n i prev block) (drop 16 block) (omega arith))
    ]
  ]

  loop-eq-body_pad :
      (payload : List ℕ)
      → xor_loop md5v hdr key hdr.datalength 0 [] payload ≡ xor_with payload (body_pad md5v hdr key)
  unfolding body_pad
  loop-eq-body_pad payload =
      loop-eq-pad hdr.datalength 0 [] payload (omega arith)
      ∙ ap (λ k. xor_with payload (take k (pseudo_pad md5v hdr key hdr.datalength [])))
          {x = hdr.datalength - 0} (omega arith)

module _ (md5v : List (List ℕ) → List ℕ)
    (digest_size : (bs : List (List ℕ)) → length (md5v bs) ≡ 16) (key : List ℕ) where
  -- With digests of 16 bytes and a key that does not begin with a zero byte, `md5_xor` combines the
  -- body with the pseudo pad of RFC 8907 (the digests one after the other, cut at the header's data
  -- length) and toggles the flag for clear text.
  pub md5_xor-eq-pad :
      (pak : Pak)
      → byte_at key 0 ≢ 0
      → md5_xor md5v key pak ≡ record {
        hdr = record (pak.hdr) { flags = bit_xor pak.hdr.flags unencrypted_flag };
        payload = xor_with pak.payload (body_pad md5v pak.hdr key);
      }
  unfolding md5_xor
  md5_xor-eq-pad pak h = ground (arith, loop-eq-body_pad md5v digest_size pak.hdr key pak.payload)

  -- Without a key the packet goes through as it is.
  pub md5_xor_no_key : (pak : Pak) → byte_at key 0 ≡ 0 → md5_xor md5v key pak ≡ pak
  unfolding md5_xor
  md5_xor_no_key pak h = ground arith

  -- With digests of 16 bytes, a second pass of `md5_xor` with the same key undoes the first.
  pub md5_xor_cancel : (pak : Pak) → md5_xor md5v key (md5_xor md5v key pak) ≡ pak
  md5_xor_cancel pak = elim (ℕ_discrete (byte_at key 0) 0) [
    | yes h ↦ ap (md5_xor md5v key) (md5_xor_no_key pak h) ∙ md5_xor_no_key pak h
    | no h ↦ twice h
  ]
    where
      flags' : ℕ
      flags' = bit_xor pak.hdr.flags unencrypted_flag

      twice : byte_at key 0 ≢ 0 → md5_xor md5v key (md5_xor md5v key pak) ≡ pak
      twice h = rw (md5_xor-eq-pad pak h) (
          md5_xor-eq-pad _ h
          ∙ rw (body_pad-flags md5v pak.hdr flags' key, bit_xor_cancel, xor_with_cancel))
