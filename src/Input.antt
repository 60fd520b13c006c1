-- ===== src/Input.antt =====
-- The second half of `tac_read` in tacacs/binaries/tac_plus-ng/packet.c: what happens to a packet
-- once it is complete. `RB_lookup_session` finds the session, the guards on its sequence and on
-- obfuscation follow, then the loop over the keys and the dispatch by the packet's type.
pub mod Rounds
pub mod Keys
pub mod Dispatch
pub mod Connection
pub mod Sessions
use soteria_tacacs.Prelude.{
  ℕ, ◌+◌, ◌/◌, Bool, true, false, not, ◌&&◌, ◌||◌, Option, none, some, List, [], ◌∷◌, ◌==◌, ◌!=◌,
  has, if◌then◌else◌, u8,
}
use soteria_tacacs.Protocol.{
  Hdr, Pak, unencrypted_flag, ver_default, ver_one, type_authen, type_author, type_acct,
}
use soteria_tacacs.Obfuscate.{md5_xor}
use soteria_tacacs.Validate.{
  authen_pak_looks_bogus, author_pak_looks_bogus, accounting_pak_looks_bogus,
}
use soteria_tacacs.Reply.{
  Session, Sent, send_acct_reply, send_author_reply, send_authen_reply, authen_error,
}

abbrev pub bug_bad_version : ℕ
bug_bad_version = 0x02

abbrev pub bug_tls_obfuscated : ℕ
bug_tls_obfuscated = 0x04

abbrev pub bug_not_obfuscated : ℕ
bug_not_obfuscated = 0x40

abbrev pub author_error : ℕ
author_error = 0x11

abbrev pub acct_error : ℕ
acct_error = 0x02

-- `RB_lookup_session`: the session with the id, in the sessions of a connection
unfoldable pub lookup_session : ℕ → List Session → Option Session
lookup_session id [] = none
lookup_session id (s ∷ sessions) =
    let rest = lookup_session id sessions in if s.session_id == id then some s else rest

-- what `new_session` starts with
unfoldable pub new_session : Hdr → Session
new_session hdr = record {
  version = hdr.version;
  seq_no = 1;
  session_id = hdr.session_id;
  user_msg = [];
  authfail_delay = 0;
  has_authen_data = false;
  iterations = 0;
}

-- What becomes of a packet's session. After the first three the connection is cleaned up.
pub data Admission : Type 0 where
  too_many_rounds : Admission
  illegal_seq_no : Admission
  stray : Admission
  admitted : Session → Admission

unfoldable pub continue_session : ℕ → Hdr → Session → Admission
continue_session max_rounds hdr s =
    let seq_no = u8 (s.seq_no + 1) in
    if s.seq_no / 2 == max_rounds
    then too_many_rounds
    else if seq_no != hdr.seq_no
    then illegal_seq_no
    else admitted (record s { seq_no = seq_no })

unfoldable pub start_session : Hdr → Admission
unfolding new_session
start_session hdr = if hdr.seq_no == 1 then admitted (new_session hdr) else stray

unfoldable pub admit_found : ℕ → Hdr → Option Session → Admission
unfolding continue_session start_session
admit_found max_rounds hdr none = start_session hdr
admit_found max_rounds hdr (some s) = continue_session max_rounds hdr s

unfoldable pub admit : ℕ → List Session → Hdr → Admission
unfolding admit_found lookup_session
admit max_rounds sessions hdr = admit_found max_rounds hdr (lookup_session hdr.session_id sessions)

-- the guard on obfuscation; `tls` says that the connection has TLS
unfoldable pub breaks_obfuscation : Bool → ℕ → Hdr → Bool
breaks_obfuscation tls bugs hdr =
    let clear = has hdr.flags unencrypted_flag in
    (tls && not clear && not (has bugs bug_tls_obfuscated))
    || (not tls && clear && not (has bugs bug_not_obfuscated))

-- the length check for the packet's type
unfoldable pub looks_bogus : ℕ → Pak → Bool
unfolding authen_pak_looks_bogus author_pak_looks_bogus accounting_pak_looks_bogus
looks_bogus bugs pak =
    let kind = pak.hdr.kind in
    if kind == type_authen
    then authen_pak_looks_bogus bugs pak
    else if kind == type_author
    then author_pak_looks_bogus bugs pak
    else if kind == type_acct
    then accounting_pak_looks_bogus bugs pak
    else false

-- the packet as the loop leaves it, whether it is bogus, and the keys from `ctx->key` on
pub record Opened : Type 0 where
  pub pak : Pak
  pub bogus : Bool
  pub keys : List (List ℕ)

module _ (md5v : List (List ℕ) → List ℕ) where
  -- The `do` loop with `key` at hand and `more` behind it: a bogus packet goes to the next key,
  -- unless the key is fixed, once `md5_xor` has undone the first try.
  unfoldable pub try_keys : ℕ → Bool → List ℕ → List (List ℕ) → Pak → Opened
  try_keys bugs fixed key [] pak =
      let p = md5_xor md5v key pak in
      record { pak = p; bogus = looks_bogus bugs p; keys = key ∷ [] }
  try_keys bugs fixed key (next ∷ more) pak =
      let p = md5_xor md5v key pak in
      let rest = try_keys bugs fixed next more (md5_xor md5v key p) in
      if looks_bogus bugs p && not fixed
      then rest
      else record { pak = p; bogus = looks_bogus bugs p; keys = key ∷ next ∷ more }

  -- A packet in clear text, or without a key, is checked as it is.
  unfoldable pub open_pak : ℕ → Bool → Bool → List (List ℕ) → Pak → Opened
  unfolding try_keys
  open_pak bugs fixed true keys pak = record {
    pak = pak;
    bogus = looks_bogus bugs pak;
    keys = keys;
  }
  open_pak bugs fixed false [] pak = record { pak = pak; bogus = looks_bogus bugs pak; keys = [] }
  open_pak bugs fixed false (key ∷ more) pak = try_keys bugs fixed key more pak

-- What `tac_read` does with the packet in the end: the handlers `authen`, `author` and
-- `accounting`, an error reply, or `cleanup_session` for an unknown type.
pub data Handled : Type 0 where
  authen : Pak → Handled
  author : Pak → Handled
  accounting : Pak → Handled
  refused : Sent → Handled
  dropped : Handled

-- the error reply for the packet's type, where there is one
unfoldable pub error_reply : Bool → Session → ℕ → List ℕ → Option Sent
error_reply trace s kind msg =
    if kind == type_authen
    then some (send_authen_reply trace s authen_error msg [] 0).sent
    else if kind == type_author
    then some (send_author_reply s author_error msg [] [])
    else if kind == type_acct
    then some (send_acct_reply s acct_error msg [])
    else none

unfoldable pub refusal : Option Sent → Handled
refusal none = dropped
refusal (some r) = refused r

-- the `switch` behind the check; `msg` is "Illegal packet (version=… type=…)"
unfoldable pub dispatch : Bool → ℕ → Session → List ℕ → Opened → Handled
unfolding error_reply refusal
dispatch trace bugs s msg o =
    let version = o.pak.hdr.version in
    let kind = o.pak.hdr.kind in
    let lax = version == ver_default || has bugs bug_bad_version in
    let refuse = refusal (error_reply trace s kind msg) in
    if kind == type_authen
    then (if not o.bogus && (version == ver_default || version == ver_one)
        then authen o.pak
        else refuse)
    else if kind == type_author
    then (if not o.bogus && lax then author o.pak else refuse)
    else if kind == type_acct
    then (if not o.bogus && lax then accounting o.pak else refuse)
    else dropped
