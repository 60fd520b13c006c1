-- ===== src/Receive.antt =====
-- The first half of `tac_read` in tacacs/binaries/tac_plus-ng/packet.c: a packet is put together
-- from what the socket has at each call. `recv_inject` stands for its branch without an inject
-- buffer, `check_status` for the three ways a read can fail. TLS and RADIUS are not modelled.
pub mod Pieces
pub mod Stream
pub mod Complete
use soteria_tacacs.Prelude.{
  ℕ, ◌+◌, ◌-◌, ◌*◌, Bool, true, false, Option, none, some, List, [], ◌∷◌, ◌++◌, ltb, ◌==◌, ◌!=◌,
  if◌then◌else◌, length, take, drop, bit_and,
}
use soteria_tacacs.Protocol.{Hdr, Pak, hdr_size, major_ver, byte_at, u16_at}

-- `io_status`
pub data Status : Type 0 where
  ok : Status
  retry : Status
  close : Status
  error : Status

-- what has arrived at a socket, in the pieces that single calls of `recv` can return, and what
-- `recv` says when there is no more
pub record Socket : Type 0 where
  pub pieces : List (List ℕ)
  pub at_end : Status

pub record Received : Type 0 where
  pub bytes : List ℕ
  pub status : Status
  pub socket : Socket

-- what stays of a piece
unfoldable pub put_back : List ℕ → List (List ℕ) → List (List ℕ)
put_back [] pieces = pieces
put_back (x ∷ left) pieces = (x ∷ left) ∷ pieces

-- `else if (res) *status = io_status_ok; else *status = io_status_close;`
unfoldable pub read_status : List ℕ → Status
read_status [] = close
read_status (x ∷ bytes) = ok

unfoldable pub recv_from : ℕ → List (List ℕ) → Status → Received
unfolding put_back read_status
recv_from len [] at_end = record {
  bytes = [];
  status = at_end;
  socket = record { pieces = []; at_end = at_end };
}
recv_from len (piece ∷ pieces) at_end = record {
  bytes = take len piece;
  status = read_status (take len piece);
  socket = record { pieces = put_back (drop len piece) pieces; at_end = at_end };
}

unfoldable pub recv_inject : ℕ → Socket → Received
unfolding recv_from
recv_inject len socket = recv_from len socket.pieces socket.at_end

-- the bytes of the header so far, `hdroff` of them, and those of the body, once there is `ctx->in`
pub record Reader : Type 0 where
  pub hdr : List ℕ
  pub body : Option (List ℕ)

-- the header as the fields of `tac_pak_hdr`
unfoldable pub parse_hdr : List ℕ → Hdr
parse_hdr b = record {
  version = byte_at b 0;
  kind = byte_at b 1;
  seq_no = byte_at b 2;
  flags = byte_at b 3;
  session_id = u16_at b 4 * 65536 + u16_at b 6;
  datalength = u16_at b 8 * 65536 + u16_at b 10;
}

-- what a call of `tac_read` comes to; `cleaned` ends the connection, and says whether with a reset
pub data Progress : Type 0 where
  waiting : Reader → Progress
  cleaned : Bool → Progress
  complete : Pak → Progress

pub record Read : Type 0 where
  pub progress : Progress
  pub socket : Socket

-- `check_status`: the progress unless the status is ok
unfoldable pub check_status : Status → Reader → Progress → Progress
check_status ok rd next = next
check_status retry rd next = waiting rd
check_status close rd next = cleaned false
check_status error rd next = cleaned true

unfoldable pub body_so_far : Option (List ℕ) → List ℕ
body_so_far none = []
body_so_far (some body) = body

-- the body, as far as it has come
unfoldable pub read_body : Reader → Hdr → Socket → Read
unfolding check_status body_so_far
read_body rd hdr socket =
    let body = body_so_far rd.body in
    let r = recv_inject (hdr.datalength - length body) socket in
    let body' = body ++ r.bytes in
    let rd' : Reader = record rd { body = some body' } in
    let next =
      if length body' != hdr.datalength
      then waiting rd'
      else complete (record { hdr = hdr; payload = body' }) in
    record {
      progress = check_status r.status (record rd { body = some body }) next;
      socket = r.socket;
    }

-- the checks on a complete header
unfoldable pub check_hdr : Reader → Socket → Read
unfolding read_body
check_hdr rd socket =
    let hdr = parse_hdr rd.hdr in
    if bit_and hdr.version 0xf0 != major_ver
    then record { progress = cleaned true; socket = socket }
    else if ltb 0xffff hdr.datalength
    then record { progress = cleaned true; socket = socket }
    else read_body rd hdr socket

-- what follows a read of the header that has not failed
unfoldable pub read_on : Status → Reader → Reader → Socket → Read
unfolding check_hdr
read_on ok rd rd' socket =
    if length rd'.hdr != hdr_size
    then record { progress = waiting rd'; socket = socket }
    else check_hdr rd' socket
read_on status rd rd' socket = record {
  progress = check_status status rd (waiting rd);
  socket = socket;
}

unfoldable pub tac_read : Reader → Socket → Read
unfolding read_on
tac_read rd socket =
    let r = recv_inject (hdr_size - length rd.hdr) socket in
    let rd' : Reader = record rd { hdr = rd.hdr ++ r.bytes } in
    if length rd.hdr != hdr_size then read_on r.status rd rd' r.socket else check_hdr rd socket
