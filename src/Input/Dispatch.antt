-- ===== src/Input/Dispatch.antt =====
-- The `switch` at the end of `tac_read`: who gets a packet, and what the device is told otherwise.
use soteria_tacacs.Prelude.{
  ℕ, ◌≡◌, ◌≢◌, Bool, true, false, ◌⊎◌, Option, none, some, List, [], ◌==◌, has, arith,
  if◌then◌else◌,
}
use soteria_tacacs.Protocol.{Pak, ver_default, ver_one, type_authen, type_author, type_acct}
use soteria_tacacs.Reply.{authen_error, Session}
use soteria_tacacs.Reply.Laws.{Answers, replies-Answers}
use soteria_tacacs.Input.{
  Opened, Handled, authen, author, accounting, refused, dropped, dispatch, bug_bad_version,
  author_error, acct_error, error_reply, refusal,
}

-- the packet that a handler is called with
abbrev pub given_to : ℕ → Handled → Option Pak
given_to kind (authen pak) = if kind == type_authen then some pak else none
given_to kind (author pak) = if kind == type_author then some pak else none
given_to kind (accounting pak) = if kind == type_acct then some pak else none
given_to kind (refused r) = none
given_to kind dropped = none

-- the packet passed its check, and its version is one that its type of request has
abbrev pub Passed : ℕ → Opened → Type 0
Passed bugs o =
    let version = o.pak.hdr.version in
    (o.bogus ≡ false)
    × ((version ≡ ver_default)
        ⊎ ((version ≡ ver_one) × (o.pak.hdr.kind ≡ type_authen))
        ⊎ ((has bugs bug_bad_version ≡ true) × (o.pak.hdr.kind ≢ type_authen)))

-- the handler that is called, by the type of packet that it is for, and the packet that it gets
abbrev pub called_with : Handled → Option (ℕ × Pak)
called_with (authen pak) = some (type_authen, pak)
called_with (author pak) = some (type_author, pak)
called_with (accounting pak) = some (type_acct, pak)
called_with (refused r) = none
called_with dropped = none

-- Whatever handler is called, it is that of the packet's type, and the packet has passed its length
-- check, with a version that the type allows.
pub dispatch-Passed :
    (trace : Bool) (bugs : ℕ) (s : Session) (msg : List ℕ) (o : Opened) (handler : ℕ) (pak : Pak)
    → called_with (dispatch trace bugs s msg o) ≡ some (handler, pak)
    → (pak ≡ o.pak) × (handler ≡ o.pak.hdr.kind) × Passed bugs o
unfolding dispatch error_reply refusal
dispatch-Passed trace bugs s msg o handler pak h = ground (arith, h)

-- the device gets a reply of a type, next in the sequence of the session
abbrev pub Refused : Session → ℕ → Handled → Type 0
Refused s kind (authen pak) = ⊥
Refused s kind (author pak) = ⊥
Refused s kind (accounting pak) = ⊥
Refused s kind (refused r) = Answers s kind r
Refused s kind dropped = ⊥

-- When `dispatch` gets a packet of a known type, it calls the handler of the type with it, or the
-- device gets a reply of the packet's own type, next in the session's sequence.
pub dispatch-answers :
    (trace : Bool) (bugs : ℕ) (s : Session) (msg : List ℕ) (o : Opened)
    → (o.pak.hdr.kind ≡ type_authen) ⊎ (o.pak.hdr.kind ≡ type_author) ⊎ (o.pak.hdr.kind ≡ type_acct)
    → (given_to o.pak.hdr.kind (dispatch trace bugs s msg o) ≡ some o.pak)
      ⊎ Refused s o.pak.hdr.kind (dispatch trace bugs s msg o)
unfolding dispatch error_reply refusal
dispatch-answers trace bugs s msg o h =
    let (to_acct, _, _) = replies-Answers s trace acct_error 0 msg [] [] in
    let (_, to_author, _) = replies-Answers s trace author_error 0 msg [] [] in
    let (_, _, to_authen) = replies-Answers s trace authen_error 0 msg [] [] in
    ground (arith, to_acct, to_author, to_authen)
