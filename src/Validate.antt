-- ===== src/Validate.antt =====
-- The length checks of tacacs/binaries/tac_plus-ng/packet.c on an incoming packet:
-- `authen_pak_looks_bogus`, `author_pak_looks_bogus` and `accounting_pak_looks_bogus`.
-- The sums are of at most 263 bytes or two 16-bit numbers, so no `u_int` here can wrap.
pub mod Loop
pub mod Args
use soteria_tacacs.Prelude.{
  ℕ, zero, suc, ◌+◌, Bool, ◌||◌, List, ltb, ◌==◌, ◌!=◌, has, if◌then◌else◌,
}
use soteria_tacacs.Protocol.{Pak, byte_at, u16_at}

-- CLIENT_BUG_HEADER_LENGTH of headers.h
abbrev pub bug_header_length : ℕ
bug_header_length = 0x08

abbrev pub authen_start_size : ℕ
authen_start_size = 8

abbrev pub authen_cont_size : ℕ
authen_cont_size = 5

abbrev pub author_req_size : ℕ
author_req_size = 8

abbrev pub acct_req_size : ℕ
acct_req_size = 9

-- the length that an authentication packet declares
unfoldable pub authen_len : Pak → ℕ
authen_len pak =
    let p = pak.payload in
    if pak.hdr.seq_no == 1
    then authen_start_size + byte_at p 4 + byte_at p 5 + byte_at p 6 + byte_at p 7
    else authen_cont_size + u16_at p 0 + u16_at p 2

unfoldable pub authen_pak_looks_bogus : ℕ → Pak → Bool
unfolding authen_len
authen_pak_looks_bogus bug_compatibility pak =
    let len = authen_len pak in
    if has bug_compatibility bug_header_length
    then ltb pak.hdr.datalength len
    else len != pak.hdr.datalength

-- where the loop over the argument lengths stops, and the length summed up there
pub record Scan : Type 0 where
  pub index : ℕ
  pub len : ℕ

-- `for (i = 0; i < arg_cnt && len < datalength; i++) len += p[i];` with `left` arguments to go.
-- `at` is the offset of `p` in the payload.
unfoldable pub scan_args : List ℕ → ℕ → ℕ → ℕ → ℕ → ℕ → Scan
scan_args payload at datalength zero i len = record { index = i; len = len }
scan_args payload at datalength (suc left) i len =
    let next = scan_args payload at datalength left (i + 1) (len + byte_at payload (at + i)) in
    if ltb len datalength then next else record { index = i; len = len }

-- The condition that both checks return: the comparison of `i` with the count selects between the
-- two tests of the length, since `?:` binds looser than `||`.
unfoldable pub scan_looks_bogus : ℕ → ℕ → ℕ → Scan → Bool
scan_looks_bogus bug_compatibility arg_cnt datalength scan =
    if scan.index != arg_cnt || has bug_compatibility bug_header_length
    then ltb datalength scan.len
    else scan.len != datalength

-- the lengths that an authorization packet declares ahead of its arguments'
abbrev pub author_fixed_len : List ℕ → ℕ
author_fixed_len p = author_req_size + byte_at p 4 + byte_at p 5 + byte_at p 6 + byte_at p 7

unfoldable pub author_scan : Pak → Scan
unfolding scan_args
author_scan pak =
    let p = pak.payload in
    scan_args p author_req_size pak.hdr.datalength (byte_at p 7) 0 (author_fixed_len p)

unfoldable pub author_pak_looks_bogus : ℕ → Pak → Bool
unfolding author_scan scan_looks_bogus
author_pak_looks_bogus bug_compatibility pak =
    scan_looks_bogus bug_compatibility (byte_at pak.payload 7) pak.hdr.datalength (author_scan pak)

abbrev pub acct_fixed_len : List ℕ → ℕ
acct_fixed_len p = acct_req_size + byte_at p 5 + byte_at p 6 + byte_at p 7 + byte_at p 8

unfoldable pub accounting_scan : Pak → Scan
unfolding scan_args
accounting_scan pak =
    let p = pak.payload in
    scan_args p acct_req_size pak.hdr.datalength (byte_at p 8) 0 (acct_fixed_len p)

unfoldable pub accounting_pak_looks_bogus : ℕ → Pak → Bool
unfolding accounting_scan scan_looks_bogus
accounting_pak_looks_bogus bug_compatibility pak =
    scan_looks_bogus bug_compatibility (byte_at pak.payload 8) pak.hdr.datalength
      (accounting_scan pak)
