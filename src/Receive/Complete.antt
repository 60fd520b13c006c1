-- ===== src/Receive/Complete.antt =====
-- A call of `tac_read` that finds the rest of a packet completes it.
use soteria_tacacs.Prelude.{
  ℕ, ◌-◌, ◌≤◌, ◌≡◌, refl, true, false, none, List, ◌∷◌, ◌++◌, ltb, ◌!=◌, length, length-append,
  take-length, drop-length, arith, bit_and,
}
use soteria_tacacs.Protocol.{Hdr, hdr_size, major_ver}
use soteria_tacacs.Receive.{
  Status, ok, put_back, read_status, recv_from, recv_inject, parse_hdr, complete, check_status,
  body_so_far, read_body, check_hdr, read_on, tac_read,
}

-- A piece that begins with all that is wanted gives just that.
recv_whole :
    (len x : ℕ) (q more : List ℕ) (pieces : List (List ℕ)) (at_end : Status)
    → len ≡ length (x ∷ q)
    → recv_inject len (record { pieces = (x ∷ (q ++ more)) ∷ pieces; at_end = at_end }) ≡ record {
      bytes = x ∷ q;
      status = ok;
      socket = record { pieces = put_back more pieces; at_end = at_end };
    }
unfolding recv_inject recv_from read_status
recv_whole len x q more pieces at_end e =
    rw (e, take-length (x ∷ q) more, drop-length (x ∷ q) more) refl

-- a header that `tac_read` accepts
abbrev pub Acceptable : Hdr → Type 0
Acceptable hdr = (bit_and hdr.version 0xf0 ≡ major_ver) × (hdr.datalength ≤ 0xffff)

read_body-completes :
    (h : List ℕ) (y : ℕ) (b more : List ℕ) (pieces : List (List ℕ)) (at_end : Status)
    → length (y ∷ b) ≡ (parse_hdr h).datalength
    → read_body
        (record { hdr = h; body = none })
        (parse_hdr h)
        (record { pieces = (y ∷ (b ++ more)) ∷ pieces; at_end = at_end })
      ≡ record {
        progress = complete (record { hdr = parse_hdr h; payload = y ∷ b });
        socket = record { pieces = put_back more pieces; at_end = at_end };
      }
unfolding read_body check_status body_so_far
read_body-completes h y b more pieces at_end size =
    let full : length (y ∷ b) != (parse_hdr h).datalength ≡ false = ground arith in
    rw (recv_whole ((parse_hdr h).datalength - 0) y b more pieces at_end (omega arith), full) refl

-- When part of a header has been read, and the rest of it, not empty, has arrived in one piece with
-- a body, not empty, of the length that the header says, then the next call completes the packet,
-- if its version and its length are acceptable, and leaves what is behind it.
pub tac_read-completes :
    (p : List ℕ) (x : ℕ) (q : List ℕ) (y : ℕ) (b more : List ℕ) (pieces : List (List ℕ))
    (at_end : Status)
    → length (p ++ x ∷ q) ≡ hdr_size
    → Acceptable (parse_hdr (p ++ x ∷ q))
    → length (y ∷ b) ≡ (parse_hdr (p ++ x ∷ q)).datalength
    → tac_read
        (record { hdr = p; body = none })
        (record { pieces = (x ∷ (q ++ y ∷ (b ++ more))) ∷ pieces; at_end = at_end })
      ≡ record {
        progress = complete (record { hdr = parse_hdr (p ++ x ∷ q); payload = y ∷ b });
        socket = record { pieces = put_back more pieces; at_end = at_end };
      }
unfolding tac_read read_on check_hdr put_back
tac_read-completes p x q y b more pieces at_end full (right, short) size =
    let hdr = parse_hdr (p ++ x ∷ q) in
    let part : length p != hdr_size ≡ true = ground (arith, full, length-append p (x ∷ q)) in
    let whole : length (p ++ x ∷ q) != hdr_size ≡ false = ground (arith, full) in
    let version : bit_and hdr.version 0xf0 != major_ver ≡ false = ground (arith, right) in
    let fits : ltb 0xffff hdr.datalength ≡ false = ground (arith, short) in
    rw
      (
        recv_whole (hdr_size - length p) x q (y ∷ (b ++ more)) pieces at_end
            (omega (arith, full, length-append p (x ∷ q))),
        part,
        whole,
        version,
        fits,
      )
      (read_body-completes (p ++ x ∷ q) y b more pieces at_end size)
