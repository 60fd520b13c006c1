-- ===== src/Reply/Codec.antt =====
-- The wire format of the replies (RFC 8907, sections 5.2, 6.2 and 7.2), read as a device does, and
-- that the packets say what they should.
use soteria_tacacs.Prelude.{
  ℕ, suc, ◌+◌, ◌-◌, ◌*◌, ◌/◌, ◌≤◌, ◌<◌, ◌≡◌, refl, ap, ◌∙◌, sym, List, [], ◌∷◌, ◌++◌, append-nil,
  arith, length, take, drop, take-length, drop-length, length-append, u8, lengths, flat, Shorts,
  length-lengths, length-take, zero, take_field, drop_field, leb, ltb, if◌then◌else◌, true, false,
}
use native.Mathlib.Decide.{dec_lt}
use soteria_tacacs.Protocol.{byte_at, u16_at}
use soteria_tacacs.Author.Request.{split_args}
use soteria_tacacs.Author.Request.Codec.{split_args-flat}
use soteria_tacacs.Obfuscate.{minimum}
use soteria_tacacs.Reply.{
  acct_reply_payload, reply_msg, reply_msg_len, author_reply_payload, authen_reply_payload,
}

-- what a device reads from a reply
pub record Message : Type 0 where
  pub status : ℕ
  pub msg : List ℕ
  pub text : List ℕ
  pub args : List (List ℕ)

abbrev pub read_acct_reply : List ℕ → Message
read_acct_reply p =
    let body = drop 5 p in
    record {
      status = byte_at p 4;
      msg = take (u16_at p 0) body;
      text = take (u16_at p 2) (drop (u16_at p 0) body);
      args = [];
    }

abbrev pub read_authen_reply : List ℕ → Message
read_authen_reply p =
    let body = drop 6 p in
    record {
      status = byte_at p 0;
      msg = take (u16_at p 2) body;
      text = take (u16_at p 4) (drop (u16_at p 2) body);
      args = [];
    }

abbrev pub read_author_reply : List ℕ → Message
read_author_reply p =
    let sizes = drop 6 p in
    let body = drop (byte_at p 1) sizes in
    let text = drop (u16_at p 2) body in
    record {
      status = byte_at p 0;
      msg = take (u16_at p 2) body;
      text = take (u16_at p 4) text;
      args = split_args (take (byte_at p 1) sizes) (drop (u16_at p 4) text);
    }

-- the two bytes of a 16-bit number say it
be16-u16 : (n : ℕ) → n < 65536 → u8 (n / 256) * 256 + u8 n ≡ n
be16-u16 n h = omega arith

module _ (a rest : List ℕ) (n : ℕ) (fits : length a < 65536) (e : n ≡ length a) where
  take_long : take (u8 (n / 256) * 256 + u8 n) (a ++ rest) ≡ a
  take_long = ap (λ k. take k (a ++ rest)) {y = length a} (omega arith) ∙ take-length a rest

  drop_long : drop (u8 (n / 256) * 256 + u8 n) (a ++ rest) ≡ rest
  drop_long = ap (λ k. drop k (a ++ rest)) {y = length a} (omega arith) ∙ drop-length a rest

take_end :
    (a : List ℕ) (n : ℕ) → length a < 65536 → n ≡ length a → take (u8 (n / 256) * 256 + u8 n) a ≡ a
take_end a n fits e =
    ap (take (u8 (n / 256) * 256 + u8 n)) (sym (append-nil a)) ∙ take_long a [] n fits e

-- The device reads the status, the message and the data of an accounting reply, if each of the
-- latter has less than 2^16 bytes.
pub read_acct_reply_lem :
    (status : ℕ) (msg text : List ℕ)
    → length msg < 65536
    → length text < 65536
    → read_acct_reply (acct_reply_payload status msg text)
      ≡ record { status = status; msg = msg; text = text; args = [] }
unfolding acct_reply_payload
read_acct_reply_lem status msg text h k = rw (
  take_long msg text (length msg) h refl,
  drop_long msg text (length msg) h refl,
  take_end text (length text) k refl,
)

take_all : (n : ℕ) (a : List ℕ) → length a ≤ n → take n a ≡ a
take_all zero [] h = refl
take_all zero (x ∷ a) h = absurd (omega arith)
take_all (suc n) [] h = refl
take_all (suc n) (x ∷ a) h = ap (◌∷◌ x) (take_all n a (omega arith))

-- What the length field can say of a string.
abbrev pub cut : List ℕ → List ℕ
cut a = take (minimum (length a) 0xffff) a

pub length-cut : (a : List ℕ) → length (cut a) ≡ minimum (length a) 0xffff
length-cut a = ground (arith, length-take (minimum (length a) 0xffff) a)

pub cut_lem : (a : List ℕ) → cut a ≡ take 0xffff a
cut_lem a = elim (dec_lt (length a) 0xffff) [
  | yes p ↦
      let e : minimum (length a) 0xffff ≡ length a = ground arith in
      ap (λ k. take k a) e
      ∙ take_all (length a) a (omega arith)
      ∙ sym (take_all 0xffff a (omega arith))
  | no p ↦ ap (λ k. take k a) {x = minimum (length a) 0xffff} {y = 0xffff} (ground arith)
]

-- The device reads the status and as much of the message and the data of an authentication reply
-- as the length fields can say.
pub read_authen_reply_lem :
    (status : ℕ) (msg text : List ℕ) (flags : ℕ)
    → read_authen_reply (authen_reply_payload status msg text flags)
      ≡ record { status = status; msg = take 0xffff msg; text = take 0xffff text; args = [] }
unfolding authen_reply_payload
read_authen_reply_lem status msg text flags =
    let msg_len = minimum (length msg) 0xffff in
    let data_len = minimum (length text) 0xffff in
    let m = length-cut msg in
    let t = length-cut text in
    rw (
      take_long (cut msg) (cut text) msg_len (ground arith) (sym m),
      drop_long (cut msg) (cut text) msg_len (ground arith) (sym m),
      take_end (cut text) data_len (ground arith) (sym t),
      cut_lem msg,
      cut_lem text,
    )

pub length-reply_msg :
    (user_msg msg : List ℕ) → length (reply_msg user_msg msg) ≡ reply_msg_len user_msg msg
unfolding reply_msg
length-reply_msg user_msg msg = ground (
  arith,
  length-append user_msg
      (take (minimum (length msg + length user_msg) 0xffff - length user_msg) msg),
  length-take (minimum (length msg + length user_msg) 0xffff - length user_msg) msg,
  length-take (minimum (length msg + 0) 0xffff - 0) msg,
)

-- The two messages in a row, if the length field can say it, and else the start of the second.
pub reply_msg_lem :
    (user_msg msg : List ℕ)
    → reply_msg user_msg msg
      ≡ (if leb (length user_msg + length msg) 0xffff then user_msg ++ msg else take 0xffff msg)
unfolding reply_msg
reply_msg_lem user_msg msg = elim (dec_lt 0xffff (length user_msg + length msg)) [
  | yes p ↦
      let e : ltb 0xffff (length user_msg + length msg) ≡ true = ground arith in
      let f : leb (length user_msg + length msg) 0xffff ≡ false = ground arith in
      let n : minimum (length msg + 0) 0xffff - 0 ≡ minimum (length msg) 0xffff = ground arith in
      rw (e, f) (ap (λ k. take k msg) n ∙ cut_lem msg)
  | no p ↦
      let e : ltb 0xffff (length user_msg + length msg) ≡ false = ground arith in
      let f : leb (length user_msg + length msg) 0xffff ≡ true = ground arith in
      let n : minimum (length msg + length user_msg) 0xffff - length user_msg ≡ length msg =
        ground (arith, p) in
      let all : take (length msg) msg ≡ msg = take_all (length msg) msg (omega arith) in
      rw (e, f) (ap (◌++◌ user_msg) (ap (λ k. take k msg) n ∙ all))
]

-- The device reads the status, the message of the user with the other message behind it, as much of
-- the data as its length field can say, and the arguments of an authorization reply, if there are at most 255 of these, each of at most 255
-- bytes. If the two messages have 2^16 bytes or more together, the user's is left out, and the other
-- is cut to what its length field can say.
pub read_author_reply_lem :
    (status : ℕ) (user_msg msg text : List ℕ) (args : List (List ℕ))
    → length args < 256
    → Shorts args
    → read_author_reply (author_reply_payload status user_msg msg text args) ≡ record {
      status = status;
      msg = if leb (length user_msg + length msg) 0xffff then user_msg ++ msg else take 0xffff msg;
      text = take 0xffff text;
      args = args;
    }
unfolding author_reply_payload
read_author_reply_lem status user_msg msg text args few short =
    let txt = reply_msg user_msg msg in
    let data_len = minimum (length text) 0xffff in
    let m : length txt < 65536 = ground (arith, length-reply_msg user_msg msg) in
    let t = length-cut text in
    let sizes = lengths args in
    let count = length-lengths args in
    let rest = cut text ++ flat args in
    rw (
      drop_field sizes (txt ++ rest) (length args) (omega arith) (sym count),
      take_field sizes (txt ++ rest) (length args) (omega arith) (sym count),
      take_long txt rest (length txt) m refl,
      drop_long txt rest (length txt) m refl,
      take_long (cut text) (flat args) data_len (ground arith) (sym t),
      drop_long (cut text) (flat args) data_len (ground arith) (sym t),
      split_args-flat args short,
      cut_lem text,
      reply_msg_lem user_msg msg,
    )
