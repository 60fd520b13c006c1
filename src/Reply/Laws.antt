-- ===== src/Reply/Laws.antt =====
-- What holds of every reply, whatever it says.
use soteria_tacacs.Prelude.{
  ℕ, ◌+◌, ◌≡◌, refl, Bool, List, [], ◌∷◌, ◌++◌, length, length-append, length-lengths, lengths,
  flat, arith, u8,
}
use soteria_tacacs.Protocol.{unencrypted_flag, type_authen, type_author, type_acct}
use soteria_tacacs.Obfuscate.{minimum}
use soteria_tacacs.Reply.{
  Session, Sent, new_pak, acct_reply_fixed, author_reply_fixed, authen_reply_fixed,
  acct_reply_payload, authen_reply_payload, author_reply_payload, reply_msg, reply_msg_len,
  count_args, send_acct_reply, send_author_reply, send_authen_reply,
}
use soteria_tacacs.Reply.Codec.{cut, length-cut, length-reply_msg}

-- The packet belongs to the session and is next in its sequence; the length that was counted for it
-- is that of its body, and it is not obfuscated yet.
pub record Answers (s : Session) (kind : ℕ) (r : Sent) : Type 0 where
  pub same_version : r.pak.hdr.version ≡ s.version
  pub same_session : r.pak.hdr.session_id ≡ s.session_id
  pub same_kind : r.pak.hdr.kind ≡ kind
  pub next_seq_no : r.pak.hdr.seq_no ≡ u8 (s.seq_no + 1)
  pub remembered : r.session.seq_no ≡ r.pak.hdr.seq_no
  pub clear_text : r.pak.hdr.flags ≡ unencrypted_flag
  pub exact_length : r.pak.hdr.datalength ≡ length r.pak.payload

-- The room that each reply counts is what it writes.
acct_len :
    (status : ℕ) (msg text : List ℕ)
    → acct_reply_fixed + length msg + length text ≡ length (acct_reply_payload status msg text)
unfolding acct_reply_payload
acct_len status msg text = omega (arith, length-append msg text)

authen_len :
    (status flags : ℕ) (msg text : List ℕ)
    → authen_reply_fixed + minimum (length msg) 0xffff + minimum (length text) 0xffff
      ≡ length (authen_reply_payload status msg text flags)
unfolding authen_reply_payload
authen_len status flags msg text =
    omega (arith, length-append (cut msg) (cut text), length-cut msg, length-cut text)

count_args_lem :
    (len : ℕ) (args : List (List ℕ)) → count_args len args ≡ len + length args + length (flat args)
unfolding count_args
count_args_lem len [] = omega arith
count_args_lem len (a ∷ args) =
    omega (arith, count_args_lem (len + (length a + 1)) args, length-append a (flat args))

author_len :
    (status : ℕ) (user_msg msg text : List ℕ) (args : List (List ℕ))
    → count_args
        (author_reply_fixed + reply_msg_len user_msg msg + minimum (length text) 0xffff)
        args
      ≡ length (author_reply_payload status user_msg msg text args)
unfolding author_reply_payload
author_len status user_msg msg text args =
    let txt = reply_msg user_msg msg in
    let rest = cut text ++ flat args in
    omega (
      arith,
      count_args_lem
          (author_reply_fixed + reply_msg_len user_msg msg + minimum (length text) 0xffff) args,
      length-lengths args,
      length-append (lengths args) (txt ++ rest),
      length-append txt rest,
      length-append (cut text) (flat args),
      length-cut text,
      length-reply_msg user_msg msg,
    )

-- Each of the three replies answers the session, with its own type of packet.
pub replies-Answers :
    (s : Session) (trace : Bool) (status flags : ℕ) (msg text : List ℕ) (args : List (List ℕ))
    → Answers s type_acct (send_acct_reply s status msg text)
      × Answers s type_author (send_author_reply s status msg text args)
      × Answers s type_authen (send_authen_reply trace s status msg text flags).sent
unfolding send_acct_reply send_author_reply send_authen_reply new_pak
replies-Answers s trace status flags msg text args =
    let len_acct = acct_len status msg text in
    let len_author = author_len status s.user_msg msg text args in
    let len_authen = authen_len status flags msg text in
    (
      record {
        same_version = refl;
        same_session = refl;
        same_kind = refl;
        next_seq_no = refl;
        remembered = refl;
        clear_text = refl;
        exact_length = len_acct;
      },
      record {
        same_version = refl;
        same_session = refl;
        same_kind = refl;
        next_seq_no = refl;
        remembered = refl;
        clear_text = refl;
        exact_length = len_author;
      },
      record {
        same_version = refl;
        same_session = refl;
        same_kind = refl;
        next_seq_no = refl;
        remembered = refl;
        clear_text = refl;
        exact_length = len_authen;
      },
    )
