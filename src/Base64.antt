-- ===== src/Base64.antt =====
-- tacacs/binaries/misc/base64.c: base64enc and base64dec. Bytes are numbers below 256, and the
-- buffers start at their pointers.
use soteria_tacacs.Prelude.{
  codes, ℕ, zero, suc, ◌+◌, ◌-◌, ◌*◌, ◌/◌, ◌%◌, ◌^◌, ◌≤◌, ◌<◌, bit_and, bit_or, bit_xor, ◌≡◌, refl,
  sym, ap, ap₂, ◌∙◌, ◌≢◌, ◌↔◌, ◌⊎◌, inl, inr, Bool, true, false, not, ◌&&◌, ◌||◌, Option, none,
  some, List, [], ◌∷◌, ◌++◌, append-nil, append_assoc, arith, ltb, leb, ◌==◌, ◌!=◌, if◌then◌else◌,
  has, str_eq, Bool-cases, length, get_or, take, drop, length-append, take-take, take-append,
  take-suc, take_whole, get_or-take, get_or_last, take-append-drop, length-take, length-drop,
  take-length, drop-length, u8,
}
pub mod Digits
pub mod Groups
pub mod RoundTrip

-- base64_table, "ABCDEFGHIJKLMNOPQRSTUVWXYZabcdefghijklmnopqrstuvwxyz0123456789+/"
abbrev pub base64_table : List ℕ
base64_table = codes "ABCDEFGHIJKLMNOPQRSTUVWXYZabcdefghijklmnopqrstuvwxyz0123456789+/"

-- `base64_table[(a >> shift) & 0x3f]`
abbrev pub digit : ℕ → ℕ → ℕ
digit a shift = get_or base64_table (a / 2 ^ shift % 64) 0

-- `((inbuf[0] & 0xff) << 16) | ((inbuf[1] & 0xff) << 8) | (inbuf[2] & 0xff)`
abbrev pub word : ℕ → ℕ → ℕ → ℕ
word x y z = u8 x * 2 ^ 16 + u8 y * 2 ^ 8 + u8 z

-- '='
abbrev pub padding : ℕ
padding = 0x3d

-- what base64enc writes before the terminating zero
unfoldable pub base64enc_loop : List ℕ → List ℕ
base64enc_loop [] = []
base64enc_loop (x ∷ []) = let a = word x 0 0 in digit a 18 ∷ digit a 12 ∷ padding ∷ padding ∷ []
base64enc_loop (x ∷ y ∷ []) =
    let a = word x y 0 in digit a 18 ∷ digit a 12 ∷ digit a 6 ∷ padding ∷ []
base64enc_loop (x ∷ y ∷ z ∷ inbuf) =
    let a = word x y z in digit a 18 ∷ digit a 12 ∷ digit a 6 ∷ digit a 0 ∷ base64enc_loop inbuf

-- the length that base64enc asks for, without the terminating zero
abbrev pub required_outlen : ℕ → ℕ
required_outlen inbuf_len = (inbuf_len * 8 + 5) / 6

-- base64enc with a buffer of `outbuf_len` bytes; `none` is the result -1
unfoldable pub base64enc : List ℕ → ℕ → Option (List ℕ)
base64enc inbuf outbuf_len =
    if ltb outbuf_len (required_outlen (length inbuf) + 1)
    then none
    else some (base64enc_loop inbuf)

-- base64_reverse: the place of a character in the table from place `i` on, or 255
abbrev pub reverse_from : List ℕ → ℕ → ℕ → ℕ
reverse_from [] i c = 255
reverse_from (t ∷ table) i c = if t == c then i else reverse_from table (i + 1) c

abbrev pub base64_reverse : ℕ → ℕ
base64_reverse c = reverse_from base64_table 0 c

-- the contents of the buffer with another first byte
abbrev pub put : ℕ → List ℕ → List ℕ
put b [] = b ∷ []
put b (old ∷ buf) = b ∷ buf

abbrev pub next : List ℕ → List ℕ
next [] = []
next (old ∷ buf) = buf

-- `if (i & 3) outbuf++;`: the last byte that was begun is counted
abbrev pub dec_end : ℕ → List ℕ → List ℕ
dec_end i buf = if i % 4 == 0 then [] else get_or buf 0 0 ∷ []

-- The loop of base64dec at character `i`, with the contents of the buffer from `outbuf` on: what
-- stands before `outbuf` in the end.
unfoldable pub dec_loop : List ℕ → ℕ → List ℕ → List ℕ
dec_loop [] i buf = dec_end i buf
dec_loop (ch ∷ inbuf) i buf =
    let c = base64_reverse ch in
    let skipped = dec_loop inbuf (i + 1) buf in
    let at0 = dec_loop inbuf (i + 1) (put (u8 (c * 4)) buf) in
    let at1 =
      bit_or (get_or buf 0 0) (c / 16) ∷ dec_loop inbuf (i + 1) (put (u8 (c * 16)) (next buf)) in
    let at2 =
      bit_or (get_or buf 0 0) (c / 4) ∷ dec_loop inbuf (i + 1) (put (u8 (c * 64)) (next buf)) in
    let at3 = bit_or (get_or buf 0 0) c ∷ dec_loop inbuf (i + 1) (next buf) in
    if ch == padding
    then dec_end i buf
    else if c == 255
    then skipped
    else if i % 4 == 0
    then at0
    else if i % 4 == 1
    then at1
    else if i % 4 == 2
    then at2
    else at3

-- base64dec into a buffer of `outbuf_len` bytes with the contents `buf`; `none` is the result -1
unfoldable pub base64dec : List ℕ → ℕ → List ℕ → Option (List ℕ)
base64dec inbuf outbuf_len buf =
    if ltb outbuf_len (3 * (length inbuf / 4) + 1) then none else some (dec_loop inbuf 0 buf)
