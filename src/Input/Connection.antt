-- ===== src/Input/Connection.antt =====
-- `tac_read` on a complete packet: the steps of the second half put together, with the state of the
-- connection that they read and change.
use soteria_tacacs.Prelude.{
  ℕ, ◌+◌, ◌/◌, ◌≡◌, ◌≢◌, Bool, true, false, ◌||◌, ◌⊎◌, Option, none, some, List, [], ◌∷◌, ◌==◌, has,
  if◌then◌else◌, codes, u8,
}
use soteria_tacacs.Protocol.{Hdr, Pak, unencrypted_flag}
use soteria_tacacs.Reply.{Session, Sent, send_authen_reply, authen_error}
use soteria_tacacs.Input.{
  Admission, too_many_rounds, illegal_seq_no, stray, admitted, admit, lookup_session,
  breaks_obfuscation, Opened, open_pak, error_reply, Handled, authen, author, accounting, refused,
  dropped, dispatch, bug_tls_obfuscated, bug_not_obfuscated,
}
use soteria_tacacs.Input.Dispatch.{called_with}

-- The fields of `struct context` that count for its packets, and what the host's configuration
-- says; `keys` are those from `ctx->key` on.
pub record Connection : Type 0 where
  pub tls : Bool
  pub trace : Bool
  pub max_rounds : ℕ
  pub bug_compatibility : ℕ
  pub sessions : List Session
  pub keys : List (List ℕ)
  pub key_fixed : Bool
  pub unencrypted : Bool

-- the connection is cleaned up, perhaps with a reply ahead, or it goes on
pub data Outcome : Type 0 where
  ended : Option Sent → Outcome
  went_on : Connection → Handled → Outcome

-- The found session is changed where it is; a new one comes in.
unfoldable pub put_session : Session → List Session → List Session
put_session s [] = s ∷ []
put_session s (t ∷ sessions) =
    let rest = put_session s sessions in
    if t.session_id == s.session_id then s ∷ sessions else t ∷ rest

-- `cleanup_session` takes the session out of the tree; whether it also cleans up an idle connection
-- is not modelled.
unfoldable pub cleanup_session : ℕ → List Session → List Session
cleanup_session id [] = []
cleanup_session id (t ∷ sessions) =
    let rest = cleanup_session id sessions in if t.session_id == id then sessions else t ∷ rest

-- The sessions with the packet's one among them, up to its handler. After an error reply, and for a
-- packet of an unknown type, the session is cleaned up.
unfoldable pub sessions_after : Handled → Session → List Session → List Session
unfolding put_session cleanup_session
sessions_after (authen pak) s sessions = put_session s sessions
sessions_after (author pak) s sessions = put_session s sessions
sessions_after (accounting pak) s sessions = put_session s sessions
sessions_after (refused r) s sessions = cleanup_session s.session_id (put_session s sessions)
sessions_after dropped s sessions = cleanup_session s.session_id (put_session s sessions)

-- the reply to a session over its limit, if there is the session
unfoldable pub rounds_reply : Bool → Option Session → Option Sent
rounds_reply trace none = none
rounds_reply trace (some s) =
    some (send_authen_reply trace s authen_error (codes "Too many rounds.") [] 0).sent

abbrev pub obfuscation_msg : Bool → List ℕ
obfuscation_msg true = codes "Peers MUST NOT use Obfuscation with TLS."
obfuscation_msg false = codes "Peers MUST use Obfuscation."

-- `ctx->unencrypted_flag` after the packet's flag has been looked at, and `ctx->key` with it
abbrev pub is_clear : Connection → Hdr → Bool
is_clear ctx hdr = ctx.unencrypted || has hdr.flags unencrypted_flag

abbrev pub keys_for : Connection → Hdr → List (List ℕ)
keys_for ctx hdr = if has hdr.flags unencrypted_flag then [] else ctx.keys

module _ (md5v : List (List ℕ) → List ℕ) (msg : List ℕ) where
  abbrev pub opened_pak : Connection → Pak → Opened
  opened_pak ctx pak =
      open_pak md5v ctx.bug_compatibility ctx.key_fixed (is_clear ctx pak.hdr)
        (keys_for ctx pak.hdr) pak

  -- what follows for a session that has been admitted
  unfoldable pub handle_admitted : Connection → Session → Pak → Outcome
  unfolding sessions_after
  handle_admitted ctx s pak =
      let o = opened_pak ctx pak in
      let h = dispatch ctx.trace ctx.bug_compatibility s msg o in
      if breaks_obfuscation ctx.tls ctx.bug_compatibility pak.hdr
      then ended (error_reply ctx.trace s pak.hdr.kind (obfuscation_msg ctx.tls))
      else went_on
          (record ctx {
            sessions = sessions_after h s ctx.sessions;
            keys = o.keys;
            key_fixed = true;
            unencrypted = is_clear ctx pak.hdr;
          })
          h

  unfoldable pub handle_admission : Connection → Pak → Admission → Outcome
  unfolding handle_admitted
  handle_admission ctx pak too_many_rounds =
      ended (rounds_reply ctx.trace (lookup_session pak.hdr.session_id ctx.sessions))
  handle_admission ctx pak illegal_seq_no = ended none
  handle_admission ctx pak stray = ended none
  handle_admission ctx pak (admitted s) = handle_admitted ctx s pak

  unfoldable pub handle_pak : Connection → Pak → Outcome
  unfolding handle_admission
  handle_pak ctx pak = handle_admission ctx pak (admit ctx.max_rounds ctx.sessions pak.hdr)

  -- the handler that is called in the end, by its type of packet, and the packet that it gets
  abbrev pub handed_over : Outcome → Option (ℕ × Pak)
  handed_over (ended reply) = none
  handed_over (went_on ctx h) = called_with h

  -- With TLS a packet is in clear text, and without it is obfuscated, unless the host is said to do
  -- otherwise.
  abbrev pub KeepsRule : Connection → Hdr → Type 0
  KeepsRule ctx hdr =
      (ctx.tls ≡ true)
        × ((has hdr.flags unencrypted_flag ≡ true)
            ⊎ (has ctx.bug_compatibility bug_tls_obfuscated ≡ true))
      ⊎ ((ctx.tls ≡ false)
          × ((has hdr.flags unencrypted_flag ≡ false)
              ⊎ (has ctx.bug_compatibility bug_not_obfuscated ≡ true)))

  -- the packet is the first of a new session, or the next one of a session that may go on
  abbrev pub InSequence : Connection → Hdr → Type 0
  InSequence ctx hdr =
      (lookup_session hdr.session_id ctx.sessions ≡ none) × (hdr.seq_no ≡ 1)
      ⊎ ((s : Session) × (lookup_session hdr.session_id ctx.sessions ≡ some s)
          × (s.seq_no / 2 ≢ ctx.max_rounds)
          × (hdr.seq_no ≡ u8 (s.seq_no + 1)))
