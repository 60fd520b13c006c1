-- ===== src/Protocol.antt =====
-- tacacs/binaries/tac_plus-ng/protocol_tacacs.h: the packet header and the constants of the wire
-- format. A packet's payload is the list of its bytes; `datalength` is the header's own field.
use soteria_tacacs.Prelude.{ℕ, ◌+◌, ◌*◌, ◌/◌, List, [], ◌∷◌, get_or, u8}

-- `tac_pak_hdr`. The session id is the number whose four bytes stand on the wire.
pub record Hdr : Type 0 where
  pub version : ℕ
  pub kind : ℕ
  pub seq_no : ℕ
  pub flags : ℕ
  pub session_id : ℕ
  pub datalength : ℕ

-- `tac_pak`: the header and what follows it
pub record Pak : Type 0 where
  pub hdr : Hdr
  pub payload : List ℕ

abbrev pub hdr_size : ℕ
hdr_size = 12

abbrev pub unencrypted_flag : ℕ
unencrypted_flag = 0x01

abbrev pub major_ver : ℕ
major_ver = 0xc0

abbrev pub ver_default : ℕ
ver_default = 0xc0

abbrev pub ver_one : ℕ
ver_one = 0xc1

abbrev pub type_authen : ℕ
type_authen = 1

abbrev pub type_author : ℕ
type_author = 2

abbrev pub type_acct : ℕ
type_acct = 3

-- `htons` and `htonl`: the bytes of a number as they go over the wire
abbrev pub be16 : ℕ → List ℕ
be16 n = u8 (n / 256) ∷ u8 n ∷ []

abbrev pub be32 : ℕ → List ℕ
be32 n = u8 (n / 16777216) ∷ u8 (n / 65536) ∷ u8 (n / 256) ∷ u8 n ∷ []

-- the byte at an offset; what lies behind the payload in its buffer is zero (`calloc`)
abbrev pub byte_at : List ℕ → ℕ → ℕ
byte_at p i = get_or p i 0

-- `ntohs` of the two bytes at an offset
abbrev pub u16_at : List ℕ → ℕ → ℕ
u16_at p i = byte_at p i * 256 + byte_at p (i + 1)
