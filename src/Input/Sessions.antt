-- ===== src/Input/Sessions.antt =====
-- The sessions of a connection, as `tac_read` keeps them.
use soteria_tacacs.Prelude.{
  ℕ, ◌≡◌, ◌≢◌, ◌∙◌, refl, sym, ap, inl, inr, Bool-cases, ◌==◌, Option, none, some, List, [], ◌∷◌,
  arith,
}
use mathlib.Core.Path.{subst}
use soteria_tacacs.Protocol.{Hdr, Pak}
use soteria_tacacs.Reply.{Session}
use soteria_tacacs.Input.{
  Admission, too_many_rounds, illegal_seq_no, stray, admitted, admit, admit_found, lookup_session,
  new_session, start_session, continue_session, Handled, authen, author, accounting, refused,
  dropped,
}
use soteria_tacacs.Input.Dispatch.{called_with}
use soteria_tacacs.Input.Connection.{
  Connection, went_on, put_session, cleanup_session, sessions_after, handle_admitted,
  handle_admission, handle_pak,
}

lookup_session-id :
    (id : ℕ) (sessions : List Session) (s : Session)
    → lookup_session id sessions ≡ some s
    → s.session_id ≡ id
unfolding lookup_session
lookup_session-id id [] s h = absurd (ground arith)
lookup_session-id id (t ∷ sessions) s h = ground (arith, lookup_session-id id sessions s)

lookup_session-put_session :
    (s : Session) (sessions : List Session)
    → lookup_session s.session_id (put_session s sessions) ≡ some s
unfolding lookup_session put_session
lookup_session-put_session s [] = ground arith
lookup_session-put_session s (t ∷ sessions) = ground (arith, lookup_session-put_session s sessions)

put_session-other :
    (id : ℕ) (s : Session) (sessions : List Session)
    → id ≢ s.session_id
    → lookup_session id (put_session s sessions) ≡ lookup_session id sessions
unfolding lookup_session put_session
put_session-other id s [] h = ground arith
put_session-other id s (t ∷ sessions) h = ground (arith, put_session-other id s sessions h)

-- no two sessions of a connection with the same id
abbrev pub Distinct : List Session → Type 0
Distinct [] = Unit
Distinct (t ∷ sessions) = (lookup_session t.session_id sessions ≡ none) × Distinct sessions

put_session-Distinct :
    (s : Session) (sessions : List Session) → Distinct sessions → Distinct (put_session s sessions)
unfolding put_session lookup_session
put_session-Distinct s [] h = (refl, tt)
put_session-Distinct s (t ∷ sessions) h = elim (Bool-cases (t.session_id == s.session_id)) [
  | inl same ↦
      let e : t.session_id ≡ s.session_id = ground (arith, same) in
      rw same (ap (λ i. lookup_session i sessions) (sym e) ∙ h.0, h.1)
  | inr differs ↦
      let n : t.session_id ≢ s.session_id = ground (arith, differs) in
      rw differs
        (put_session-other t.session_id s sessions n ∙ h.0, put_session-Distinct s sessions h.1)
]

cleanup_session-gone :
    (id : ℕ) (sessions : List Session)
    → Distinct sessions
    → lookup_session id (cleanup_session id sessions) ≡ none
unfolding cleanup_session lookup_session
cleanup_session-gone id [] h = refl
cleanup_session-gone id (t ∷ sessions) h = elim (Bool-cases (t.session_id == id)) [
  | inl same ↦
      let e : t.session_id ≡ id = ground (arith, same) in
      rw same (ap (λ i. lookup_session i sessions) (sym e) ∙ h.0)
  | inr differs ↦ rw (differs, differs) (cleanup_session-gone id sessions h.1)
]

cleanup_session-other :
    (other id : ℕ) (sessions : List Session)
    → other ≢ id
    → lookup_session other (cleanup_session id sessions) ≡ lookup_session other sessions
unfolding cleanup_session lookup_session
cleanup_session-other other id [] n = refl
cleanup_session-other other id (t ∷ sessions) n =
    ground (arith, cleanup_session-other other id sessions n)

cleanup_session-Distinct :
    (id : ℕ) (sessions : List Session) → Distinct sessions → Distinct (cleanup_session id sessions)
unfolding cleanup_session lookup_session
cleanup_session-Distinct id [] h = tt
cleanup_session-Distinct id (t ∷ sessions) h = elim (Bool-cases (t.session_id == id)) [
  | inl same ↦ rw same h.1
  | inr differs ↦
      let n : t.session_id ≢ id = ground (arith, differs) in
      rw differs (
        cleanup_session-other t.session_id id sessions n ∙ h.0,
        cleanup_session-Distinct id sessions h.1,
      )
]

-- An admitted session is the packet's, at the packet's sequence number.
admit-session :
    (max_rounds : ℕ) (sessions : List Session) (hdr : Hdr) (s : Session)
    → admit max_rounds sessions hdr ≡ admitted s
    → (s.session_id ≡ hdr.session_id) × (s.seq_no ≡ hdr.seq_no)
unfolding admit admit_found start_session continue_session new_session
admit-session max_rounds sessions hdr s h = go (lookup_session hdr.session_id sessions) refl h
  where
    go :
        (found : Option Session)
        → lookup_session hdr.session_id sessions ≡ found
        → admit_found max_rounds hdr found ≡ admitted s
        → (s.session_id ≡ hdr.session_id) × (s.seq_no ≡ hdr.seq_no)
    go none e h = ground arith
    go (some t) e h = ground (arith, lookup_session-id hdr.session_id sessions t e)

-- What becomes of the session of a packet: with the packet's sequence number it waits for what the
-- handler does, or it is gone.
abbrev pub Settled : Hdr → List Session → Handled → Type 0
Settled hdr sessions h = elim (called_with h) [
  | none ↦ lookup_session hdr.session_id sessions ≡ none
  | some x ↦
      (s : Session) × (lookup_session hdr.session_id sessions ≡ some s) × (s.seq_no ≡ hdr.seq_no)
]

sessions_after-Settled :
    (hdr : Hdr) (h : Handled) (s : Session) (sessions : List Session) (other : ℕ)
    → s.session_id ≡ hdr.session_id
    → s.seq_no ≡ hdr.seq_no
    → other ≢ hdr.session_id
    → Distinct sessions
    → Settled hdr (sessions_after h s sessions) h
      × (lookup_session other (sessions_after h s sessions) ≡ lookup_session other sessions)
      × Distinct (sessions_after h s sessions)
unfolding sessions_after
sessions_after-Settled hdr h s sessions other id seq_no differs distinct = go h
  where
    put : List Session
    put = put_session s sessions

    n : other ≢ s.session_id
    n = λ x. differs (x ∙ id)

    others : lookup_session other put ≡ lookup_session other sessions
    others = put_session-other other s sessions n

    distinct' : Distinct put
    distinct' = put_session-Distinct s sessions distinct

    found : (t : Session) × (lookup_session hdr.session_id put ≡ some t) × (t.seq_no ≡ hdr.seq_no)
    found =
        (s, ap (λ i. lookup_session i put) (sym id) ∙ lookup_session-put_session s sessions, seq_no)

    gone : lookup_session hdr.session_id (cleanup_session s.session_id put) ≡ none
    gone =
        ap (λ i. lookup_session i (cleanup_session s.session_id put)) (sym id)
        ∙ cleanup_session-gone s.session_id put distinct'

    others' :
        lookup_session other (cleanup_session s.session_id put) ≡ lookup_session other sessions
    others' = cleanup_session-other other s.session_id put n ∙ others

    go :
        (h : Handled)
        → Settled hdr (sessions_after h s sessions) h
          × (lookup_session other (sessions_after h s sessions) ≡ lookup_session other sessions)
          × Distinct (sessions_after h s sessions)
    go (authen pak) = (found, others, distinct')
    go (author pak) = (found, others, distinct')
    go (accounting pak) = (found, others, distinct')
    go (refused r) = (gone, others', cleanup_session-Distinct s.session_id put distinct')
    go dropped = (gone, others', cleanup_session-Distinct s.session_id put distinct')

module _ (md5v : List (List ℕ) → List ℕ) (msg : List ℕ) where
  -- When a packet passes the guards of a connection whose sessions have different ids, and a handler
  -- is called, its session stands in the connection with the packet's sequence number; without a
  -- handler, after an error reply or for an unknown type, the session is gone. Every other session is
  -- as it was, and the ids stay different.
  pub handle_pak-sessions :
      (ctx ctx' : Connection) (pak : Pak) (h : Handled) (other : ℕ)
      → other ≢ pak.hdr.session_id
      → Distinct ctx.sessions
      → handle_pak md5v msg ctx pak ≡ went_on ctx' h
      → Settled pak.hdr ctx'.sessions h
        × (lookup_session other ctx'.sessions ≡ lookup_session other ctx.sessions)
        × Distinct ctx'.sessions
  unfolding handle_pak handle_admission handle_admitted
  handle_pak-sessions ctx ctx' pak h other differs distinct e =
      go (admit ctx.max_rounds ctx.sessions pak.hdr) refl e
    where
      Goal : List Session → Type 0
      Goal sessions =
          Settled pak.hdr sessions h
          × (lookup_session other sessions ≡ lookup_session other ctx.sessions)
          × Distinct sessions

      go :
          (a : Admission)
          → admit ctx.max_rounds ctx.sessions pak.hdr ≡ a
          → handle_admission md5v msg ctx pak a ≡ went_on ctx' h
          → Goal ctx'.sessions
      go too_many_rounds a e = absurd (ground arith)
      go illegal_seq_no a e = absurd (ground arith)
      go stray a e = absurd (ground arith)
      go (admitted s) a e =
          let (id, seq_no) = admit-session ctx.max_rounds ctx.sessions pak.hdr s a in
          let kept : ctx'.sessions ≡ sessions_after h s ctx.sessions = ground arith in
          subst Goal (sym kept)
            (sessions_after-Settled pak.hdr h s ctx.sessions other id seq_no differs distinct)
