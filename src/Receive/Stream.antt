-- ===== src/Receive/Stream.antt =====
-- A call of `tac_read` neither loses nor moves a byte of the stream.
use soteria_tacacs.Prelude.{
  ℕ, ◌-◌, ◌≤◌, ◌≡◌, ◌⊎◌, inl, inr, Bool-cases, refl, sym, ap, ◌∙◌, true, false, some, List, ◌++◌,
  append_assoc, ltb, ◌!=◌, if◌then◌else◌, length, length-append, take, drop, take-length,
  drop-length, flat, arith, bit_and,
}
use mathlib.Core.Path.{subst}
use soteria_tacacs.Protocol.{Hdr, hdr_size, major_ver}
use soteria_tacacs.Receive.{
  Status, ok, retry, close, error, Socket, Received, recv_inject, Reader, parse_hdr, Progress,
  waiting, complete, body_so_far, read_body, check_hdr, read_on, tac_read,
}
use soteria_tacacs.Receive.Pieces.{
  recv_inject_lem, IsReader, stream, Delivers, Outcome, recv_inject-retry, check_status_lem,
}

-- A body of `n` bytes behind a header.
delivered :
    (hdr body rest : List ℕ) (pieces : List (List ℕ))
    → length hdr ≡ hdr_size
    → length body ≡ (parse_hdr hdr).datalength
    → flat pieces ≡ rest
    → (at_end : Status)
    → Delivers
        (hdr ++ (body ++ rest))
        (record { hdr = parse_hdr hdr; payload = body })
        (record { pieces = pieces; at_end = at_end })
delivered hdr body rest pieces size full e at_end =
    let front : take hdr_size (hdr ++ (body ++ rest)) ≡ hdr =
      ap (λ n. take n (hdr ++ (body ++ rest))) {y = length hdr} (sym size)
      ∙ take-length hdr (body ++ rest) in
    let behind : drop hdr_size (hdr ++ (body ++ rest)) ≡ body ++ rest =
      ap (λ n. drop n (hdr ++ (body ++ rest))) {y = length hdr} (sym size)
      ∙ drop-length hdr (body ++ rest) in
    let n : ℕ = (parse_hdr hdr).datalength in
    (
      ap parse_hdr (sym front),
      sym (ap (take n) behind ∙ ap (λ k. take k (body ++ rest)) (sym full) ∙ take-length body rest),
      full,
      e
          ∙ sym (
              ap (drop n) behind
              ∙ ap (λ k. drop k (body ++ rest)) (sym full)
              ∙ drop-length body rest),
    )

read_body_lem :
    (rd : Reader) (socket : Socket)
    → length rd.hdr ≡ hdr_size
    → length (body_so_far rd.body) ≤ (parse_hdr rd.hdr).datalength
    → let r = read_body rd (parse_hdr rd.hdr) socket in
      Outcome (stream rd socket) r.progress r.socket
unfolding read_body body_so_far
read_body_lem rd socket size fits =
    check_status_lem r.status (stream rd socket) again next r.socket
      (λ e. (
        (omega arith, inr (size, fits)),
        ap (λ b. rd.hdr ++ (body ++ b))
            (ap (λ b. b ++ flat r.socket.pieces) (sym (recv_inject-retry want socket e)) ∙ got.0),
      ))
      (go (Bool-cases (length body' != hdr.datalength)))
  where
    hdr : Hdr
    hdr = parse_hdr rd.hdr

    body : List ℕ
    body = body_so_far rd.body

    want : ℕ
    want = hdr.datalength - length body

    r : Received
    r = recv_inject want socket

    got : (r.bytes ++ flat r.socket.pieces ≡ flat socket.pieces) × (length r.bytes ≤ want)
    got = recv_inject_lem want socket

    body' : List ℕ
    body' = body ++ r.bytes

    again : Reader
    again = record rd { body = some body }

    rd' : Reader
    rd' = record rd { body = some body' }

    next : Progress
    next =
        if length body' != hdr.datalength
        then waiting rd'
        else complete (record { hdr = hdr; payload = body' })

    moved : rd.hdr ++ (body' ++ flat r.socket.pieces) ≡ stream rd socket
    moved =
        ap (◌++◌ rd.hdr) (append_assoc body r.bytes (flat r.socket.pieces) ∙ ap (◌++◌ body) got.0)

    go :
        (length body' != hdr.datalength ≡ true) ⊎ (length body' != hdr.datalength ≡ false)
        → Outcome (stream rd socket) next r.socket
    go (inl more) =
        rw more
          ((omega arith, inr (size, omega (arith, length-append body r.bytes, got.1, fits))), moved)
    go (inr full) =
        let size' : length body' ≡ hdr.datalength = ground arith in
        rw full (
          subst (λ b. Delivers b (record { hdr = hdr; payload = body' }) r.socket) moved
            (delivered rd.hdr body' (flat r.socket.pieces) r.socket.pieces size size' refl
              r.socket.at_end))

check_hdr_lem :
    (rd : Reader) (socket : Socket)
    → length rd.hdr ≡ hdr_size
    → length (body_so_far rd.body) ≤ (parse_hdr rd.hdr).datalength
    → let r = check_hdr rd socket in Outcome (stream rd socket) r.progress r.socket
unfolding check_hdr
check_hdr_lem rd socket size fits =
    let hdr = parse_hdr rd.hdr in
    elim (Bool-cases (bit_and hdr.version 0xf0 != major_ver)) [
      | inl wrong ↦ rw wrong tt
      | inr right ↦ elim (Bool-cases (ltb 0xffff hdr.datalength)) [
        | inl long ↦ rw (right, long) tt
        | inr short ↦ rw (right, short) (read_body_lem rd socket size fits)
      ]
    ]

-- Whatever pieces a stream arrives in, a call of `tac_read` loses no byte and moves none: what it
-- has read so far and what has still to be read make up the stream as before. When it completes a
-- packet, that is the stream's first header with exactly as many bytes of body as the header says,
-- and what is left is the rest of the stream.
pub tac_read_lem :
    (rd : Reader) (socket : Socket)
    → IsReader rd
    → let r = tac_read rd socket in Outcome (stream rd socket) r.progress r.socket
unfolding tac_read body_so_far
tac_read_lem rd socket (below, inr (size, fits)) = rw size (check_hdr_lem rd socket size fits)
tac_read_lem rd socket (below, inl (less, no_body)) =
    let e : length rd.hdr != hdr_size ≡ true = ground arith in rw e (go r.status refl)
  where
    want : ℕ
    want = hdr_size - length rd.hdr

    r : Received
    r = recv_inject want socket

    got : (r.bytes ++ flat r.socket.pieces ≡ flat socket.pieces) × (length r.bytes ≤ want)
    got = recv_inject_lem want socket

    rd' : Reader
    rd' = record rd { hdr = rd.hdr ++ r.bytes }

    moved : stream rd' r.socket ≡ stream rd socket
    moved = rw no_body (append_assoc rd.hdr r.bytes (flat r.socket.pieces) ∙ ap (◌++◌ rd.hdr) got.0)

    enough : length rd'.hdr ≤ hdr_size
    enough = omega (arith, length-append rd.hdr r.bytes, got.1, below)

    go :
        (status : Status)
        → r.status ≡ status
        → Outcome
            (stream rd socket)
            (read_on status rd rd' r.socket).progress
            (read_on status rd rd' r.socket).socket
    go ok e = elim (Bool-cases (length rd'.hdr != hdr_size)) [
      | inl more ↦ rw more ((enough, inl (ground (arith, enough), no_body)), moved)
      | inr full ↦
          let size : length rd'.hdr ≡ hdr_size = ground arith in
          let c = check_hdr rd' r.socket in
          rw full (
            subst (λ b. Outcome b c.progress c.socket) moved
              (check_hdr_lem rd' r.socket size (rw no_body (omega arith))))
    ]
    go retry e = (
      (below, inl (less, no_body)),
      rw no_body (
          ap (λ b. rd.hdr ++ (b ++ flat r.socket.pieces)) (sym (recv_inject-retry want socket e))
          ∙ ap (◌++◌ rd.hdr) got.0),
    )
    go close e = tt
    go error e = tt
