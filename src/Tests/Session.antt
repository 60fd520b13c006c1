-- ===== src/Tests/Session.antt =====
-- Sessions, dispatch, replies and the queue of delayed packets.
use mathlib.Core.List.{Perm, map}
use soteria_tacacs.Prelude.{
  ℕ, ◌≡◌, refl, true, false, none, some, List, [], ◌∷◌, ◌++◌, codes, arith, inl, inr, ◌⊎◌,
}
use soteria_tacacs.Protocol.{Hdr, Pak, unencrypted_flag, type_authen, type_author, type_acct}
use soteria_tacacs.Reply.{
  Session, new_pak, send_acct_reply, send_author_reply, send_authen_reply, author_reply_payload,
  authen_reply_payload, authen_fail,
}
use soteria_tacacs.Reply.Codec.{
  read_authen_reply, read_author_reply, read_authen_reply_lem, read_author_reply_lem,
}
use soteria_tacacs.Reply.Laws.{Answers, replies-Answers}
use soteria_tacacs.Input.{
  new_session, start_session, continue_session, Opened, dispatch, breaks_obfuscation, open_pak,
  admit, looks_bogus, lookup_session, author,
}
use soteria_tacacs.Input.Rounds.{
  asked, Exchange, opened, replied, continued, Within, Exchange-seq_no,
}
use soteria_tacacs.Input.Dispatch.{given_to, Refused, dispatch-answers}
use soteria_tacacs.Input.Connection.{put_session, Connection, handle_pak}
use soteria_tacacs.Input.Sessions.{Distinct, handle_pak-sessions}
use soteria_tacacs.Output.{Delayed, Context, delay_packet, write_delayed_packet}
use soteria_tacacs.Output.Queue.{
  IsSorted, delay_packet_lem, write_delayed_packet_lem, due, later, wire_of,
}

abbrev hdr_with : ℕ → Hdr
hdr_with seq_no = record {
  version = 0xc0;
  kind = type_author;
  seq_no = seq_no;
  flags = unencrypted_flag;
  session_id = 77;
  datalength = 2;
}

abbrev session : Session
session = record {
  version = 0xc0;
  seq_no = 1;
  session_id = 77;
  user_msg = [];
  authfail_delay = 0;
  has_authen_data = false;
  iterations = 0;
}

-- a request, a reply and a second request
abbrev session_at : ℕ → Session
session_at n = record session { seq_no = n }

exchange : Exchange 40 (session_at 3) asked 3
unfolding start_session continue_session new_session new_pak
exchange = continued (hdr_with 3) (replied type_author 0 [] (opened (hdr_with 1) refl)) refl

Exchange-seq_no_example : ((session_at 3).seq_no ≡ 3) × Within 40 asked 3
Exchange-seq_no_example =
    Exchange-seq_no 40 (session_at 3) asked 3 (omega arith) (omega arith) exchange

abbrev request : Opened
request = record {
  pak = record { hdr = hdr_with 1; payload = 1 ∷ 2 ∷ [] };
  bogus = false;
  keys = [];
}

abbrev bogus_request : Opened
bogus_request = record request { bogus = true }

dispatch-answers_example :
    (given_to type_author (dispatch false 0 session (codes "Illegal packet") bogus_request)
      ≡ some bogus_request.pak)
    ⊎ Refused session type_author (dispatch false 0 session (codes "Illegal packet") bogus_request)
dispatch-answers_example =
    dispatch-answers false 0 session (codes "Illegal packet") bogus_request (inr (inl refl))

replies-Answers_example :
    Answers session type_acct (send_acct_reply session 1 (codes "ok") [])
    × Answers session type_author (send_author_reply session 1 (codes "ok") [] (codes "a=b" ∷ []))
    × Answers session type_authen (send_authen_reply false session 1 (codes "ok") [] 0).sent
replies-Answers_example = replies-Answers session false 1 0 (codes "ok") [] (codes "a=b" ∷ [])

read_authen_reply_lem_example :
    read_authen_reply (authen_reply_payload authen_fail (codes "no") [] 0)
    ≡ record { status = authen_fail; msg = codes "no"; text = []; args = [] }
read_authen_reply_lem_example = read_authen_reply_lem authen_fail (codes "no") [] 0

read_author_reply_lem_example :
    read_author_reply
      (author_reply_payload 1 (codes "hi ") (codes "joe") [] (codes "a=b" ∷ codes "c*" ∷ []))
    ≡ record {
      status = 1;
      msg = codes "hi " ++ codes "joe";
      text = [];
      args = codes "a=b" ∷ codes "c*" ∷ [];
    }
read_author_reply_lem_example =
    read_author_reply_lem 1 (codes "hi ") (codes "joe") [] (codes "a=b" ∷ codes "c*" ∷ [])
      (omega arith) (omega arith, (omega arith, tt))

abbrev pak_number : ℕ → Pak
pak_number n = record { hdr = hdr_with n; payload = [] }

abbrev waiting_pak : Delayed
waiting_pak = record { pak = pak_number 2; delay_until = 103 }

abbrev context : Context
context = record {
  flags = 0;
  key = none;
  unencrypted = false;
  out = [];
  delayed = waiting_pak ∷ [];
  timer = some 3;
}

delay_packet_lem_example :
    IsSorted (delay_packet 100 context (pak_number 4) 5).delayed
    × Perm
        (delay_packet 100 context (pak_number 4) 5).delayed
        (record { pak = pak_number 4; delay_until = 105 } ∷ waiting_pak ∷ [])
delay_packet_lem_example = delay_packet_lem 100 context (pak_number 4) 5 (tt, tt)

abbrev no_digest : List (List ℕ) → List ℕ
no_digest bs = []

write_delayed_packet_lem_example :
    let c = write_delayed_packet no_digest 103 context in
    (c.out ≡ context.out ++ map (wire_of no_digest context) (due 103 context.delayed))
    × (c.delayed ≡ later 103 context.delayed)
    × IsSorted c.delayed
write_delayed_packet_lem_example = write_delayed_packet_lem no_digest 103 context (tt, tt)

-- a connection without a key, and a request on it without arguments
abbrev connection : Connection
connection = record {
  tls = false;
  trace = false;
  max_rounds = 40;
  bug_compatibility = 0;
  sessions = [];
  keys = [];
  key_fixed = false;
  unencrypted = false;
}

abbrev bare_request : Pak
bare_request = record {
  hdr = record (hdr_with 1) { flags = 0; datalength = 8 };
  payload = 6 ∷ 1 ∷ 1 ∷ 1 ∷ 0 ∷ 0 ∷ 0 ∷ 0 ∷ [];
}

handle_pak-sessions_example :
    ((s : Session) × (lookup_session 77 (session ∷ []) ≡ some s) × (s.seq_no ≡ 1))
    × (lookup_session 5 (session ∷ []) ≡ lookup_session 5 [])
    × Distinct (session ∷ [])
unfolding handle_pak open_pak admit breaks_obfuscation dispatch looks_bogus put_session
handle_pak-sessions_example =
    handle_pak-sessions no_digest [] connection
      (record connection { sessions = session ∷ []; key_fixed = true }) bare_request
      (author bare_request) 5 (λ e. ground arith) tt refl
