-- ===== src/Tests/Wire.antt =====
-- Obfuscation, the keys and the stream: a digest that is easy to compute takes the place of MD5.
use soteria_tacacs.Prelude.{
  ℕ, ◌+◌, ◌≡◌, ◌≢◌, refl, false, none, List, [], ◌∷◌, ◌++◌, length, sum, flat, u8, codes, arith,
  inl,
}
use soteria_tacacs.Protocol.{Pak, unencrypted_flag, type_authen}
use soteria_tacacs.Obfuscate.{md5_xor, xor_loop, xor_bytes}
use soteria_tacacs.Obfuscate.Pad.{xor_with, body_pad}
use soteria_tacacs.Obfuscate.Laws.{md5_xor-eq-pad}
use soteria_tacacs.Validate.{authen_pak_looks_bogus, authen_len}
use soteria_tacacs.Input.{looks_bogus, try_keys, open_pak}
use soteria_tacacs.Input.Keys.{try_keys_lem, open_pak-md5_xor, fitting, opened_by}
use soteria_tacacs.Receive.{complete, parse_hdr, put_back, Socket, retry, Reader, tac_read}
use soteria_tacacs.Receive.Complete.{tac_read-completes}
use soteria_tacacs.Receive.Pieces.{Outcome, stream}
use soteria_tacacs.Receive.Stream.{tac_read_lem}

-- sixteen bytes that depend on all that is hashed
abbrev digest : List (List ℕ) → List ℕ
digest bs =
    let n = sum (flat bs) in
    u8 n
    ∷ u8 (n + 1)
    ∷ u8 (n + 2)
    ∷ u8 (n + 3)
    ∷ u8 (n + 4)
    ∷ u8 (n + 5)
    ∷ u8 (n + 6)
    ∷ u8 (n + 7)
    ∷ u8 (n + 8)
    ∷ u8 (n + 9)
    ∷ u8 (n + 10)
    ∷ u8 (n + 11)
    ∷ u8 (n + 12)
    ∷ u8 (n + 13)
    ∷ u8 (n + 14)
    ∷ u8 (n + 15)
    ∷ []

digest_size : (bs : List (List ℕ)) → length (digest bs) ≡ 16
digest_size bs = refl

abbrev key : List ℕ
key = codes "demo"

abbrev other_key : List ℕ
other_key = codes "old"

-- an authentication START with user "joe" that is two blocks long
abbrev start : Pak
start = record {
  hdr = record {
    version = 0xc0;
    kind = type_authen;
    seq_no = 1;
    flags = unencrypted_flag;
    session_id = 77;
    datalength = 19;
  };
  payload = 1 ∷ 0 ∷ 1 ∷ 1 ∷ 3 ∷ 4 ∷ 4 ∷ 0 ∷ (codes "joe" ++ codes "tty01234");
}

-- The body is obfuscated beyond the first block.
start_obfuscated : md5_xor digest key start ≢ start
unfolding md5_xor xor_loop xor_bytes
start_obfuscated h = ground arith

md5_xor-eq-pad_example : md5_xor digest key start ≡ record {
  hdr = record (start.hdr) { flags = 0 };
  payload = xor_with start.payload (body_pad digest start.hdr key);
}
md5_xor-eq-pad_example = md5_xor-eq-pad digest digest_size key start (ground arith)

try_keys_lem_example :
    try_keys digest 0 false other_key (key ∷ []) (md5_xor digest key start)
    ≡ opened_by digest digest_size 0
        (fitting digest digest_size 0 other_key (key ∷ []) (md5_xor digest key start))
        (md5_xor digest key start)
try_keys_lem_example =
    try_keys_lem digest digest_size 0 other_key (key ∷ []) (md5_xor digest key start)

-- The first key does not fit, the second one is the device's.
open_pak-md5_xor_example :
    open_pak digest 0 false false (other_key ∷ key ∷ []) (md5_xor digest key start)
    ≡ record { pak = start; bogus = false; keys = key ∷ [] }
unfolding md5_xor xor_loop xor_bytes looks_bogus authen_pak_looks_bogus authen_len
open_pak-md5_xor_example =
    open_pak-md5_xor digest digest_size 0 (other_key ∷ []) [] key start (refl, tt) refl

-- a header in two pieces, the second with some of the body
abbrev arrived : Socket
arrived = record {
  pieces = (0xc0 ∷ 1 ∷ 1 ∷ 0 ∷ 0 ∷ []) ∷ (0 ∷ 0 ∷ 77 ∷ 0 ∷ 0 ∷ 0 ∷ 2 ∷ 5 ∷ []) ∷ (6 ∷ 7 ∷ []) ∷ [];
  at_end = retry;
}

abbrev fresh : Reader
fresh = record { hdr = []; body = none }

tac_read_lem_example :
    Outcome (stream fresh arrived) (tac_read fresh arrived).progress (tac_read fresh arrived).socket
tac_read_lem_example = tac_read_lem fresh arrived (omega arith, inl (omega arith, refl))

-- five bytes of a header have been read; the rest comes with the body and a byte of the next packet
tac_read-completes_example :
    tac_read
      (record { hdr = 0xc0 ∷ 1 ∷ 1 ∷ 0 ∷ 0 ∷ []; body = none })
      (record { pieces = (0 ∷ 0 ∷ 77 ∷ 0 ∷ 0 ∷ 0 ∷ 2 ∷ 5 ∷ 6 ∷ 9 ∷ []) ∷ []; at_end = retry })
    ≡ record {
      progress = complete (record {
        hdr = record {
          version = 0xc0;
          kind = 1;
          seq_no = 1;
          flags = 0;
          session_id = 77;
          datalength = 2;
        };
        payload = 5 ∷ 6 ∷ [];
      });
      socket = record { pieces = (9 ∷ []) ∷ []; at_end = retry };
    }
unfolding parse_hdr put_back
tac_read-completes_example =
    tac_read-completes (0xc0 ∷ 1 ∷ 1 ∷ 0 ∷ 0 ∷ []) 0 (0 ∷ 77 ∷ 0 ∷ 0 ∷ 0 ∷ 2 ∷ []) 5 (6 ∷ [])
      (9 ∷ []) [] retry refl (refl, omega arith) refl
