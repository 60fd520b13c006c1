-- ===== src/Author/Request.antt =====
-- How `author` and `eval_args` of tacacs/binaries/tac_plus-ng/author.c read an authorization
-- request. A buffer is the list of bytes from a pointer on.
pub mod Codec
pub mod Cmdline
use soteria_tacacs.Prelude.{
  ℕ, ◌+◌, ◌&&◌, ◌||◌, Option, none, some, List, [], ◌∷◌, ◌++◌, ltb, if◌then◌else◌, length, take,
  drop, codes, starts_with,
}
use soteria_tacacs.Protocol.{byte_at}
use soteria_tacacs.Validate.{author_req_size}

-- `mem_strndup(session->mem, p, len)`
abbrev pub mem_strndup : List ℕ → ℕ → List ℕ
mem_strndup p len = take len p

-- what a request says; `args` are the arguments as they came
pub record Request : Type 0 where
  pub authen_method : ℕ
  pub priv_lvl : ℕ
  pub authen_type : ℕ
  pub service : ℕ
  pub username : List ℕ
  pub port : List ℕ
  pub nac_addr_ascii : List ℕ
  pub args : List (List ℕ)

-- `cmd_argp[i] = mem_strndup(session->mem, p, *argsizep); p += *argsizep++;` for each size
unfoldable pub split_args : List ℕ → List ℕ → List (List ℕ)
split_args [] p = []
split_args (l ∷ sizes) p = mem_strndup p l ∷ split_args sizes (drop l p)

unfoldable pub read_author : List ℕ → Request
unfolding split_args
read_author payload =
    let arg_cnt = byte_at payload 7 in
    let argsizep = drop author_req_size payload in
    let user = drop arg_cnt argsizep in
    let port = drop (byte_at payload 4) user in
    let rem_addr = drop (byte_at payload 5) port in
    let argp = drop (byte_at payload 6) rem_addr in
    record {
      authen_method = byte_at payload 0;
      priv_lvl = byte_at payload 1;
      authen_type = byte_at payload 2;
      service = byte_at payload 3;
      username = mem_strndup user (byte_at payload 4);
      port = mem_strndup port (byte_at payload 5);
      nac_addr_ascii = mem_strndup rem_addr (byte_at payload 6);
      args = split_args (take arg_cnt argsizep) argp;
    }

-- `session->cmdline`, `session->service` and `session->protocol`
pub record Command : Type 0 where
  pub cmdline : List ℕ
  pub service : Option (List ℕ)
  pub protocol : Option (List ℕ)

-- one round of the loop of `eval_args`, on an argument of `l` bytes
unfoldable pub eval_arg : Command → List ℕ → Command
eval_arg c a =
    let l = length a in
    if ltb 3 l && (starts_with (codes "cmd=") a || starts_with (codes "cmd*") a)
    then record c { cmdline = c.cmdline ++ drop 4 a }
    else if ltb 8 l && starts_with (codes "cmd-arg=") a
    then record c { cmdline = c.cmdline ++ b' ' ∷ drop 8 a }
    else if ltb 8 l && starts_with (codes "service=") a
    then record c { service = some (drop 8 a) }
    else if ltb 9 l && starts_with (codes "protocol=") a
    then record c { protocol = some (drop 9 a) }
    else c

unfoldable pub eval_args : Command → List (List ℕ) → Command
unfolding eval_arg
eval_args c [] = c
eval_args c (a ∷ args) = eval_args (eval_arg c a) args

abbrev pub no_command : Command
no_command = record { cmdline = []; service = none; protocol = none }
