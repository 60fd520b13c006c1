-- ===== src/Input/Rounds.antt =====
-- The sequence of a session: `max_rounds` keeps its 8-bit sequence number from wrapping.
use soteria_tacacs.Prelude.{ℕ, ◌+◌, ◌*◌, ◌≢◌, ◌/◌, ◌≤◌, ◌≡◌, ◌∙◌, List, arith, u8}
use soteria_tacacs.Protocol.{Hdr}
use soteria_tacacs.Reply.{Session, new_pak}
use soteria_tacacs.Input.{admitted, continue_session, start_session, new_session}

-- what the last packet was: one of the device, or a reply of the server
pub data Turn : Type 0 where
  asked : Turn
  answered : Turn

-- The exchanges of a session in which a packet of the device comes before every reply, with the
-- number of packets so far. The device may send another packet before it has a reply, as while a
-- query of the backend is under way.
pub data Exchange (max_rounds : ℕ) : Session → Turn → ℕ → Type 0 where
  opened :
      {s : Session} (hdr : Hdr) → start_session hdr ≡ admitted s → Exchange max_rounds s asked 1
  replied :
      {s : Session} {n : ℕ} (kind len : ℕ) (payload : List ℕ)
      → Exchange max_rounds s asked n
      → Exchange max_rounds (new_pak s kind len payload).session answered (n + 1)
  continued :
      {s s' : Session} {turn : Turn} {n : ℕ} (hdr : Hdr)
      → Exchange max_rounds s turn n
      → continue_session max_rounds hdr s ≡ admitted s'
      → Exchange max_rounds s' asked (n + 1)

-- what a session that goes on had to meet
pub record Continues (max_rounds : ℕ) (hdr : Hdr) (s s' : Session) : Type 0 where
  pub below : s.seq_no / 2 ≢ max_rounds
  pub next : s'.seq_no ≡ u8 (s.seq_no + 1)
  pub expected : hdr.seq_no ≡ s'.seq_no

pub continue_session-Continues :
    (max_rounds : ℕ) (hdr : Hdr) (s s' : Session)
    → continue_session max_rounds hdr s ≡ admitted s'
    → Continues max_rounds hdr s s'
unfolding continue_session
continue_session-Continues max_rounds hdr s s' h = ground arith

pub start_session-seq_no :
    (hdr : Hdr) (s : Session) → start_session hdr ≡ admitted s → (s.seq_no ≡ 1) × (hdr.seq_no ≡ 1)
unfolding start_session new_session
start_session-seq_no hdr s h = ground arith

-- where the sequence may be after a packet of the device, and after a reply
abbrev pub Within : ℕ → Turn → ℕ → Type 0
Within max_rounds asked n = n ≤ 2 * max_rounds
Within max_rounds answered n = n ≤ 2 * max_rounds + 1

widen : (max_rounds : ℕ) (turn : Turn) (n : ℕ) → Within max_rounds turn n → n ≤ 2 * max_rounds + 1
widen max_rounds asked n h = omega arith
widen max_rounds answered n h = h

-- With `max_rounds` in the range that the configuration accepts, the sequence number of a session is
-- the number of its packets so far and never wraps, if the device sends a packet before every reply:
-- it is at most 2 * `max_rounds` after a packet of the device, and at most one more after a reply.
-- The device need not wait for a reply before it sends its next packet.
pub Exchange-seq_no :
    (max_rounds : ℕ) (s : Session) (turn : Turn) (n : ℕ)
    → 1 ≤ max_rounds
    → max_rounds ≤ 127
    → Exchange max_rounds s turn n
    → (s.seq_no ≡ n) × Within max_rounds turn n
unfolding new_pak
Exchange-seq_no max_rounds s asked _ lo hi (opened hdr h) =
    let e = start_session-seq_no hdr s h in (e.0, omega arith)
Exchange-seq_no max_rounds _ answered _ lo hi (replied {s} {n} kind len payload x) =
    let (e, most) = Exchange-seq_no max_rounds s asked n lo hi x in (ground arith, omega arith)
Exchange-seq_no max_rounds s' asked _ lo hi (continued {s} {turn} {n} hdr x h) =
    let (e, within) = Exchange-seq_no max_rounds s turn n lo hi x in
    let most = widen max_rounds turn n within in
    let c = continue_session-Continues max_rounds hdr s s' h in
    let b : n / 2 ≢ max_rounds = rw e at c.below in (c.next ∙ ground arith, omega arith)
