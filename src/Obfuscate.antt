-- ===== src/Obfuscate.antt =====
-- `md5_xor` of tacacs/binaries/tac_plus-ng/packet.c: the obfuscation of a packet's body.
pub mod Pad
pub mod Laws
use soteria_tacacs.Prelude.{
  ℕ, zero, suc, ◌+◌, ◌-◌, List, [], ◌∷◌, ◌++◌, bit_xor, ltb, ◌==◌, if◌then◌else◌, get_or, take,
  drop,
}
use soteria_tacacs.Protocol.{Hdr, Pak, unencrypted_flag, be32, byte_at}

-- `minimum` of headers.h
abbrev pub minimum : ℕ → ℕ → ℕ
minimum a b = if ltb a b then a else b

-- `for (j = 0; j < min; j++) data[i + j] ^= hash[h][j];`
unfoldable pub xor_bytes : ℕ → List ℕ → List ℕ → List ℕ
xor_bytes zero block hash = block
xor_bytes (suc min) [] hash = []
xor_bytes (suc min) (x ∷ block) hash =
    bit_xor x (get_or hash 0 0) ∷ xor_bytes min block (drop 1 hash)

-- the buffers of every round
abbrev pub digest_input : Hdr → List ℕ → List (List ℕ)
digest_input hdr key = be32 hdr.session_id ∷ key ∷ (hdr.version ∷ []) ∷ (hdr.seq_no ∷ []) ∷ []

-- `md5v` of mymd5.c hashes the concatenation of the buffers that it is given.
module _ (md5v : List (List ℕ) → List ℕ) where
  -- The loop over the blocks at index `i`. `block` is the data from `i` on, `prev` the digest of
  -- the round before, and the fuel bounds the rounds.
  unfoldable pub xor_loop : Hdr → List ℕ → ℕ → ℕ → List ℕ → List ℕ → List ℕ
  unfolding xor_bytes
  xor_loop hdr key zero i prev block = block
  xor_loop hdr key (suc fuel) i prev block =
      let min = minimum (hdr.datalength - i) 16 in
      let hash = md5v (digest_input hdr key ++ (if i == 0 then [] else prev ∷ [])) in
      let rest = xor_loop hdr key fuel (i + 16) hash (drop 16 block) in
      if ltb i hdr.datalength then xor_bytes min (take 16 block) hash ++ rest else block

  unfoldable pub md5_xor : List ℕ → Pak → Pak
  unfolding xor_loop
  md5_xor key pak =
      let hdr = pak.hdr in
      if byte_at key 0 == 0 then pak else record {
        hdr = record hdr { flags = bit_xor hdr.flags unencrypted_flag };
        payload = xor_loop hdr key hdr.datalength 0 [] pak.payload;
      }
