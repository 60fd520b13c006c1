-- ===== src/Reply.antt =====
-- The replies of tacacs/binaries/tac_plus-ng/packet.c: `new_pak`, `send_acct_reply`,
-- `send_author_reply` and `send_authen_reply`, up to the packet that they hand to `write_packet`
-- or `delay_packet`. A string is the list of its bytes; a null pointer is the empty list.
pub mod Codec
pub mod Laws
use soteria_tacacs.Prelude.{
  ℕ, ◌+◌, ◌-◌, Bool, ◌||◌, not, List, [], ◌∷◌, ◌++◌, ltb, ◌==◌, if◌then◌else◌, length, take, u8,
  lengths, flat,
}
use soteria_tacacs.Protocol.{Hdr, Pak, unencrypted_flag, type_authen, type_author, type_acct, be16}
use soteria_tacacs.Obfuscate.{minimum}

-- the fields of `tac_session` that a reply reads or changes; `iterations` is that of
-- `session->authen_data`, once there is one
pub record Session : Type 0 where
  pub version : ℕ
  pub seq_no : ℕ
  pub session_id : ℕ
  pub user_msg : List ℕ
  pub authfail_delay : ℕ
  pub has_authen_data : Bool
  pub iterations : ℕ

-- a reply with the state of the session after it
pub record Sent : Type 0 where
  pub session : Session
  pub pak : Pak

-- the sizes without the strings
abbrev pub authen_reply_fixed : ℕ
authen_reply_fixed = 6

abbrev pub author_reply_fixed : ℕ
author_reply_fixed = 6

abbrev pub acct_reply_fixed : ℕ
acct_reply_fixed = 5

-- A packet with room for `len` bytes of payload, which its caller has counted before it writes
-- `payload` there; `seq_no` is a `u_char`.
unfoldable pub new_pak : Session → ℕ → ℕ → List ℕ → Sent
new_pak s kind len payload =
    let seq_no = u8 (s.seq_no + 1) in
    record {
      session = record s { seq_no = seq_no };
      pak = record {
        hdr = record {
          version = s.version;
          kind = kind;
          seq_no = seq_no;
          flags = unencrypted_flag;
          session_id = s.session_id;
          datalength = len;
        };
        payload = payload;
      };
    }

unfoldable pub acct_reply_payload : ℕ → List ℕ → List ℕ → List ℕ
acct_reply_payload status msg data' =
    be16 (length msg) ++ (be16 (length data') ++ (status ∷ (msg ++ data')))

unfoldable pub send_acct_reply : Session → ℕ → List ℕ → List ℕ → Sent
unfolding new_pak acct_reply_payload
send_acct_reply s status msg data' =
    let len = acct_reply_fixed + length msg + length data' in
    new_pak s type_acct len (acct_reply_payload status msg data')

-- The user's message, which goes first, is left out if both messages are too long together.
abbrev pub kept_user_msg : List ℕ → List ℕ → List ℕ
kept_user_msg user_msg msg = if ltb 0xffff (length user_msg + length msg) then [] else user_msg

-- `msg_len`, of both messages
abbrev pub reply_msg_len : List ℕ → List ℕ → ℕ
reply_msg_len user_msg msg = minimum (length msg + length (kept_user_msg user_msg msg)) 0xffff

-- the message that goes out
unfoldable pub reply_msg : List ℕ → List ℕ → List ℕ
reply_msg user_msg msg =
    let user_msg' = kept_user_msg user_msg msg in
    user_msg' ++ take (reply_msg_len user_msg msg - length user_msg') msg

-- the loop that adds the sizes of the arguments, with a byte for each size
unfoldable pub count_args : ℕ → List (List ℕ) → ℕ
count_args len [] = len
count_args len (a ∷ args) = count_args (len + (length a + 1)) args

unfoldable pub author_reply_payload : ℕ → List ℕ → List ℕ → List ℕ → List (List ℕ) → List ℕ
unfolding reply_msg
author_reply_payload status user_msg msg data' args =
    let txt = reply_msg user_msg msg in
    let data_len = minimum (length data') 0xffff in
    status
    ∷ u8 (length args)
    ∷ (be16 (length txt)
        ++ (be16 data_len ++ (lengths args ++ (txt ++ (take data_len data' ++ flat args)))))

unfoldable pub send_author_reply : Session → ℕ → List ℕ → List ℕ → List (List ℕ) → Sent
unfolding new_pak author_reply_payload count_args
send_author_reply s status msg data' args =
    let data_len = minimum (length data') 0xffff in
    let fixed = author_reply_fixed + reply_msg_len s.user_msg msg + data_len in
    new_pak s type_author (count_args fixed args)
      (author_reply_payload status s.user_msg msg data' args)

abbrev pub authen_pass : ℕ
authen_pass = 0x01

abbrev pub authen_fail : ℕ
authen_fail = 0x02

abbrev pub authen_error : ℕ
authen_error = 0x07

abbrev pub authen_follow : ℕ
authen_follow = 0x21

unfoldable pub authen_reply_payload : ℕ → List ℕ → List ℕ → ℕ → List ℕ
authen_reply_payload status msg data' flags =
    let msg_len = minimum (length msg) 0xffff in
    let data_len = minimum (length data') 0xffff in
    status ∷ flags ∷ (be16 msg_len ++ (be16 data_len ++ (take msg_len msg ++ take data_len data')))

-- `delay` is the argument of `delay_packet`, zero for `write_packet`; `ends` says that the session
-- is cleaned up.
pub record AuthenSent : Type 0 where
  pub sent : Sent
  pub delay : ℕ
  pub ends : Bool

-- `trace` is DEBUG_TACTRACE_FLAG; `authfail_delay` is a `u_int` that no session counts up to 2^32.
unfoldable pub send_authen_reply : Bool → Session → ℕ → List ℕ → List ℕ → ℕ → AuthenSent
unfolding new_pak authen_reply_payload
send_authen_reply trace s status msg data' flags =
    let msg_len = minimum (length msg) 0xffff in
    let data_len = minimum (length data') 0xffff in
    let len = authen_reply_fixed + msg_len + data_len in
    let r = new_pak s type_authen len (authen_reply_payload status msg data' flags) in
    let s' = r.session in
    let delay =
      if status == authen_fail
      then s'.authfail_delay + 1
      else if s'.has_authen_data
      then s'.iterations
      else s'.authfail_delay in
    record {
      sent = record r { session = record s' { authfail_delay = delay } };
      delay = if not trace then delay else 0;
      ends =
          status == authen_fail
          || status == authen_pass
          || status == authen_error
          || status == authen_follow;
    }
