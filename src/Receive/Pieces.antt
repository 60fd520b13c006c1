-- ===== src/Receive/Pieces.antt =====
-- The bytes that a call of `recv_inject` takes from the socket, and what a reader of `tac_read` holds
-- between two calls.
use soteria_tacacs.Prelude.{
  ℕ, ◌≤◌, ◌<◌, ◌≡◌, ◌⊎◌, refl, sym, ap, ◌∙◌, none, List, [], ◌∷◌, ◌++◌, append_assoc, length,
  length-take, take, drop, take-append-drop, flat, arith,
}
use soteria_tacacs.Protocol.{Pak, hdr_size}
use soteria_tacacs.Receive.{
  Status, ok, retry, close, error, Socket, put_back, read_status, recv_from, recv_inject, Reader,
  parse_hdr, Progress, waiting, cleaned, complete, check_status, body_so_far,
}

put_back_lem :
    (left : List ℕ) (pieces : List (List ℕ)) → flat (put_back left pieces) ≡ left ++ flat pieces
unfolding put_back
put_back_lem [] pieces = refl
put_back_lem (x ∷ left) pieces = refl

-- `recv_inject` takes bytes off the front of what has arrived, and no more than it may.
pub recv_inject_lem :
    (len : ℕ) (socket : Socket)
    → let r = recv_inject len socket in
      (r.bytes ++ flat r.socket.pieces ≡ flat socket.pieces) × (length r.bytes ≤ len)
unfolding recv_inject recv_from
recv_inject_lem len socket = go socket.pieces
  where
    go :
        (pieces : List (List ℕ))
        → let r = recv_from len pieces socket.at_end in
          (r.bytes ++ flat r.socket.pieces ≡ flat pieces) × (length r.bytes ≤ len)
    go [] = (refl, omega arith)
    go (piece ∷ pieces) = (
      ap (◌++◌ (take len piece)) (put_back_lem (drop len piece) pieces)
          ∙ sym (append_assoc (take len piece) (drop len piece) (flat pieces))
          ∙ ap (λ p. p ++ flat pieces) (take-append-drop len piece),
      omega (arith, length-take len piece),
    )

-- a reader between two calls: less than a header, or a header and less than its body
abbrev pub IsReader : Reader → Type 0
IsReader rd =
    (length rd.hdr ≤ hdr_size)
    × ((length rd.hdr < hdr_size) × (rd.body ≡ none)
        ⊎ (length rd.hdr ≡ hdr_size)
          × (length (body_so_far rd.body) ≤ (parse_hdr rd.hdr).datalength))

-- what has been read and what has arrived
abbrev pub stream : Reader → Socket → List ℕ
stream rd socket = rd.hdr ++ (body_so_far rd.body ++ flat socket.pieces)

-- the packet at the front of a stream, with what is left of it
abbrev pub Delivers : List ℕ → Pak → Socket → Type 0
Delivers bytes pak socket =
    let behind_hdr = drop hdr_size bytes in
    (pak.hdr ≡ parse_hdr (take hdr_size bytes))
    × (pak.payload ≡ take pak.hdr.datalength behind_hdr)
    × (length pak.payload ≡ pak.hdr.datalength)
    × (flat socket.pieces ≡ drop pak.hdr.datalength behind_hdr)

abbrev pub Outcome : List ℕ → Progress → Socket → Type 0
Outcome bytes (waiting rd) socket = IsReader rd × (stream rd socket ≡ bytes)
Outcome bytes (cleaned reset_tcp) socket = Unit
Outcome bytes (complete pak) socket = Delivers bytes pak socket

pub recv_inject-retry :
    (len : ℕ) (socket : Socket)
    → (recv_inject len socket).status ≡ retry
    → (recv_inject len socket).bytes ≡ []
unfolding recv_inject recv_from read_status
recv_inject-retry len socket = go socket.pieces
  where
    nothing : (bytes : List ℕ) → read_status bytes ≡ retry → bytes ≡ []
    nothing [] h = refl
    nothing (x ∷ bytes) h = ground arith

    go :
        (pieces : List (List ℕ))
        → (recv_from len pieces socket.at_end).status ≡ retry
        → (recv_from len pieces socket.at_end).bytes ≡ []
    go [] h = refl
    go (piece ∷ pieces) h = nothing (take len piece) h

pub check_status_lem :
    (status : Status) (bytes : List ℕ) (rd : Reader) (next : Progress) (socket : Socket)
    → (status ≡ retry → Outcome bytes (waiting rd) socket)
    → Outcome bytes next socket
    → Outcome bytes (check_status status rd next) socket
unfolding check_status
check_status_lem ok bytes rd next socket again h = h
check_status_lem retry bytes rd next socket again h = again refl
check_status_lem close bytes rd next socket again h = tt
check_status_lem error bytes rd next socket again h = tt
