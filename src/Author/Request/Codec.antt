-- ===== src/Author/Request/Codec.antt =====
-- The wire format of an authorization request (RFC 8907, section 6.1), and that `author` reads
-- what it says.
use soteria_tacacs.Prelude.{
  lengths, flat, Shorts, length-lengths, sum-lengths, take_field, drop_field, ℕ, ◌+◌, ◌<◌, ◌≡◌, ap,
  ap₂, ◌∙◌, sym, refl, List, [], ◌∷◌, ◌++◌, arith, length, length-append, u8, has, false, sum,
}
use soteria_tacacs.Protocol.{Hdr, Pak}
use soteria_tacacs.Validate.{
  bug_header_length, author_req_size, author_fixed_len, author_pak_looks_bogus,
}
use soteria_tacacs.Validate.Loop.{args_len, sum-take-drop}
use soteria_tacacs.Validate.Args.{author_accepted_iff}
use soteria_tacacs.Author.Request.{Request, split_args, read_author}

abbrev pub encode_author : Request → List ℕ
encode_author r =
    r.authen_method
    ∷ r.priv_lvl
    ∷ r.authen_type
    ∷ r.service
    ∷ u8 (length r.username)
    ∷ u8 (length r.port)
    ∷ u8 (length r.nac_addr_ascii)
    ∷ u8 (length r.args)
    ∷ (lengths r.args ++ (r.username ++ (r.port ++ (r.nac_addr_ascii ++ flat r.args))))

-- What the format can carry: every field has at most 255 bytes, and there are at most 255
-- arguments.
pub record Fits (r : Request) : Type 0 where
  pub user_fits : length r.username < 256
  pub port_fits : length r.port < 256
  pub rem_addr_fits : length r.nac_addr_ascii < 256
  pub count_fits : length r.args < 256
  pub args_fit : Shorts r.args

pub split_args-flat :
    (args : List (List ℕ)) → Shorts args → split_args (lengths args) (flat args) ≡ args
unfolding split_args
split_args-flat [] h = refl
split_args-flat (a ∷ args) h = ap₂ ◌∷◌ (take_field a (flat args) (length a) h.0 refl) (
    ap (split_args (lengths args)) (drop_field a (flat args) (length a) h.0 refl)
    ∙ split_args-flat args h.1)

-- `author` reads back every request that the format can carry.
pub read_author-encode_author : (r : Request) → Fits r → read_author (encode_author r) ≡ r
unfolding read_author
read_author-encode_author r h =
    let argp : List ℕ = flat r.args in
    let rem_addr : List ℕ = r.nac_addr_ascii ++ argp in
    let port : List ℕ = r.port ++ rem_addr in
    let user : List ℕ = r.username ++ port in
    let sizes : List ℕ = lengths r.args in
    let count : length sizes < 256 = omega (arith, length-lengths r.args, h.count_fits) in
    let e : length r.args ≡ length sizes = sym (length-lengths r.args) in
    rw (
      drop_field sizes user (length r.args) count e,
      take_field sizes user (length r.args) count e,
      drop_field r.username port (length r.username) h.user_fits refl,
      take_field r.username port (length r.username) h.user_fits refl,
      drop_field r.port rem_addr (length r.port) h.port_fits refl,
      take_field r.port rem_addr (length r.port) h.port_fits refl,
      drop_field r.nac_addr_ascii argp (length r.nac_addr_ascii) h.rem_addr_fits refl,
      take_field r.nac_addr_ascii argp (length r.nac_addr_ascii) h.rem_addr_fits refl,
      split_args-flat r.args h.args_fit,
    )

-- the packet that carries a request
abbrev pub author_pak : Hdr → Request → Pak
author_pak hdr r =
    let payload = encode_author r in
    record { hdr = record hdr { datalength = length payload }; payload = payload }

sum_of_sizes :
    (r : Request)
    → Fits r
    → args_len (encode_author r) author_req_size 0 (u8 (length r.args)) ≡ length (flat r.args)
sum_of_sizes r h =
    let sizes : List ℕ = lengths r.args in
    let count : length sizes < 256 = omega (arith, length-lengths r.args, h.count_fits) in
    sym (sum-take-drop (encode_author r) author_req_size 0 (u8 (length r.args)))
    ∙ ap sum (take_field sizes _ (length r.args) count (sym (length-lengths r.args)))
    ∙ sum-lengths r.args h.args_fit

-- A packet with a request that the format can carry passes the length check. (The host has no
-- CLIENT_BUG_HEADER_LENGTH.)
pub author_pak_accepted :
    (bug_compatibility : ℕ) (hdr : Hdr) (r : Request)
    → has bug_compatibility bug_header_length ≡ false
    → Fits r
    → author_pak_looks_bogus bug_compatibility (author_pak hdr r) ≡ false
author_pak_accepted bug_compatibility hdr r b h =
    (author_accepted_iff bug_compatibility (author_pak hdr r) b).1
      (u8 (length r.args), omega arith, fills)
  where
    fills :
        author_fixed_len (encode_author r)
          + args_len (encode_author r) author_req_size 0 (u8 (length r.args))
        ≡ length (encode_author r)
    fills = omega (
      arith,
      sum_of_sizes r h,
      length-lengths r.args,
      length-append (lengths r.args) (r.username ++ (r.port ++ (r.nac_addr_ascii ++ flat r.args))),
      length-append r.username (r.port ++ (r.nac_addr_ascii ++ flat r.args)),
      length-append r.port (r.nac_addr_ascii ++ flat r.args),
      length-append r.nac_addr_ascii (flat r.args),
      h.user_fits,
      h.port_fits,
      h.rem_addr_fits,
      h.count_fits,
    )
