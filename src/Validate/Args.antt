-- ===== src/Validate/Args.antt =====
-- Which packets the checks of the argument lengths let through.
use soteria_tacacs.Prelude.{ℕ, zero, suc, ◌+◌, ◌≤◌, ◌<◌, ◌≡◌, ap, ◌∙◌, ◌↔◌, false, List, has, arith}
use soteria_tacacs.Protocol.{Pak, byte_at}
use soteria_tacacs.Validate.{
  bug_header_length, author_req_size, acct_req_size, author_fixed_len, acct_fixed_len, author_scan,
  accounting_scan, author_pak_looks_bogus, accounting_pak_looks_bogus,
}
use soteria_tacacs.Validate.Loop.{args_len, accepted_iff, reads_in_data}

-- An authorization packet passes its check exactly when some of its arguments fill the data, also
-- when these are not all of them. (The host has no CLIENT_BUG_HEADER_LENGTH.)
pub author_accepted_iff :
    (bug_compatibility : ℕ) (pak : Pak)
    → has bug_compatibility bug_header_length ≡ false
    → (author_pak_looks_bogus bug_compatibility pak ≡ false) ↔ (
        (k : ℕ) × (k ≤ byte_at pak.payload 7)
        × (author_fixed_len pak.payload + args_len pak.payload author_req_size 0 k
            ≡ pak.hdr.datalength))
unfolding author_pak_looks_bogus
author_accepted_iff bug_compatibility pak b =
    let p = pak.payload in
    accepted_iff p author_req_size pak.hdr.datalength bug_compatibility (byte_at p 7)
      (author_fixed_len p) b

-- An accounting packet passes its check exactly when some of its arguments fill the data, also when
-- these are not all of them. (The host has no CLIENT_BUG_HEADER_LENGTH.)
pub accounting_accepted_iff :
    (bug_compatibility : ℕ) (pak : Pak)
    → has bug_compatibility bug_header_length ≡ false
    → (accounting_pak_looks_bogus bug_compatibility pak ≡ false) ↔ (
        (k : ℕ) × (k ≤ byte_at pak.payload 8)
        × (acct_fixed_len pak.payload + args_len pak.payload acct_req_size 0 k
            ≡ pak.hdr.datalength))
unfolding accounting_pak_looks_bogus
accounting_accepted_iff bug_compatibility pak b =
    let p = pak.payload in
    accepted_iff p acct_req_size pak.hdr.datalength bug_compatibility (byte_at p 8)
      (acct_fixed_len p) b

-- The check of an authorization packet reads only those argument lengths that are inside the data.
pub author_reads_in_data :
    (pak : Pak) (k : ℕ) → k < (author_scan pak).index → author_req_size + k < pak.hdr.datalength
unfolding author_scan
author_reads_in_data pak k h =
    let p = pak.payload in
    reads_in_data p author_req_size pak.hdr.datalength 0 (byte_at p 7) (author_fixed_len p)
      (omega arith) k h

-- The check of an accounting packet reads only those argument lengths that are inside the data.
pub accounting_reads_in_data :
    (pak : Pak) (k : ℕ) → k < (accounting_scan pak).index → acct_req_size + k < pak.hdr.datalength
unfolding accounting_scan
accounting_reads_in_data pak k h =
    let p = pak.payload in
    reads_in_data p acct_req_size pak.hdr.datalength 0 (byte_at p 8) (acct_fixed_len p)
      (omega arith) k h

args_len-split :
    (payload : List ℕ) (at i k n : ℕ)
    → args_len payload at i (k + n) ≡ args_len payload at i k + args_len payload at (i + k) n
unfolding args_len
args_len-split payload at i zero n = omega (
  arith,
  ap (args_len payload at i) {x = 0 + n} {y = n} (omega arith),
  ap (λ j. args_len payload at j n) {x = i} {y = i + 0} (omega arith),
)
args_len-split payload at i (suc k) n =
    ap (args_len payload at i) {x = suc k + n} {y = suc (k + n)} (omega arith)
    ∙ omega (
      arith,
      args_len-split payload at (i + 1) k n,
      ap (λ j. args_len payload at j n) {x = i + 1 + k} {y = i + suc k} (omega arith),
    )

args_len_rest :
    (payload : List ℕ) (at k rest cnt : ℕ)
    → k + rest ≡ cnt
    → args_len payload at 0 cnt ≡ args_len payload at 0 k + args_len payload at k rest
args_len_rest payload at k rest cnt e = omega (
  arith,
  ap (args_len payload at 0) e,
  args_len-split payload at 0 k rest,
  ap (λ j. args_len payload at j rest) {x = 0 + k} {y = k} (omega arith),
)

-- An authorization packet whose first arguments, fewer than it counts, fill the data passes the
-- check, although its remaining arguments, if they are not empty, lie behind the data.
pub author_overrun :
    (bug_compatibility : ℕ) (pak : Pak) (k rest : ℕ)
    → has bug_compatibility bug_header_length ≡ false
    → k + rest ≡ byte_at pak.payload 7
    → author_fixed_len pak.payload + args_len pak.payload author_req_size 0 k ≡ pak.hdr.datalength
    → 0 < args_len pak.payload author_req_size k rest
    → (author_pak_looks_bogus bug_compatibility pak ≡ false)
      × (pak.hdr.datalength
          < author_fixed_len pak.payload
            + args_len pak.payload author_req_size 0 (byte_at pak.payload 7))
author_overrun bug_compatibility pak k rest b n e more = (
  (author_accepted_iff bug_compatibility pak b).1 (k, omega arith, e),
  omega (arith, args_len_rest pak.payload author_req_size k rest (byte_at pak.payload 7) n),
)
