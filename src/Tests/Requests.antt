-- ===== src/Tests/Requests.antt =====
-- The length checks and the reading of authorization requests.
use soteria_tacacs.Prelude.{
  ℕ, ◌+◌, ◌≡◌, ◌<◌, ◌≤◌, refl, false, [], ◌∷◌, length, codes, starts_with, arith,
}
use soteria_tacacs.Protocol.{Hdr, Pak, hdr_size, unencrypted_flag, type_author}
use soteria_tacacs.Validate.{author_pak_looks_bogus, author_fixed_len, author_req_size}
use soteria_tacacs.Validate.Loop.{args_len}
use soteria_tacacs.Validate.Args.{author_overrun}
use soteria_tacacs.Author.Request.{Request, read_author, eval_args, no_command}
use soteria_tacacs.Author.Request.Codec.{encode_author, Fits, read_author-encode_author, author_pak}
use soteria_tacacs.Author.Request.Cmdline.{cmdline_fits}

abbrev hdr_of : ℕ → Hdr
hdr_of datalength = record {
  version = 0xc0;
  kind = type_author;
  seq_no = 1;
  flags = unencrypted_flag;
  session_id = 77;
  datalength = datalength;
}

abbrev request : Request
request = record {
  authen_method = 6;
  priv_lvl = 1;
  authen_type = 1;
  service = 1;
  username = codes "joe";
  port = codes "tty0";
  nac_addr_ascii = codes "::1";
  args = codes "service=shell" ∷ codes "cmd=show" ∷ codes "cmd-arg=ver" ∷ [];
}

request-Fits : Fits request
request-Fits = record {
  user_fits = omega arith;
  port_fits = omega arith;
  rem_addr_fits = omega arith;
  count_fits = omega arith;
  args_fit = (omega arith, (omega arith, (omega arith, tt)));
}

abbrev hdr : Hdr
hdr = hdr_of 53

-- an accounting request with one argument
abbrev acct_pak : Pak
acct_pak = record { hdr = hdr_of 13; payload = 2 ∷ 6 ∷ 1 ∷ 1 ∷ 1 ∷ 0 ∷ 0 ∷ 0 ∷ 1 ∷ 3 ∷ codes "a=b" }

-- two arguments of which the first fills the data
abbrev overrun : Pak
overrun = record {
  hdr = hdr_of 13;
  payload = 6 ∷ 1 ∷ 1 ∷ 1 ∷ 0 ∷ 0 ∷ 0 ∷ 2 ∷ 3 ∷ 200 ∷ codes "a=b";
}

author_overrun_example :
    (author_pak_looks_bogus 0 overrun ≡ false)
    × (13 < author_fixed_len overrun.payload + args_len overrun.payload author_req_size 0 2)
unfolding args_len
author_overrun_example = author_overrun 0 overrun 1 1 refl refl refl (omega arith)

read_author-encode_author_example : read_author (encode_author request) ≡ request
read_author-encode_author_example = read_author-encode_author request request-Fits

cmdline_fits_example :
    length (eval_args no_command (read_author (encode_author request)).args).cmdline + 1
    ≤ hdr_size + (author_pak hdr request).hdr.datalength
unfolding args_len
cmdline_fits_example = cmdline_fits (author_pak hdr request) (omega arith)

-- The command line of the request.
cmdline_of_request : (eval_args no_command request.args).cmdline ≡ codes "show ver"
unfolding eval_args starts_with
cmdline_of_request = refl
