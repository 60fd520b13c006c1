-- ===== src/Accounting.antt =====
-- tacacs/binaries/tac_plus-ng/acct.c: `accounting` and `do_acct`, which read an accounting record and
-- answer it. The conversion and the lookup of addresses, and the log, are left out.
pub mod Laws
use soteria_tacacs.Prelude.{
  ℕ, Bool, false, true, ◌&&◌, Option, none, some, List, [], ◌∷◌, has, if◌then◌else◌, codes, str_eq,
  take, drop,
}
use soteria_tacacs.Protocol.{byte_at}
use soteria_tacacs.Validate.{acct_req_size}
use soteria_tacacs.Author.Request.{mem_strndup, split_args, eval_args, Command, no_command}
use soteria_tacacs.Script.{Token, unknown, Script, State, Ran}
use soteria_tacacs.Rules.{settled}
use soteria_tacacs.Reply.{Session, Sent, send_acct_reply}

abbrev pub flag_start : ℕ
flag_start = 0x2

abbrev pub flag_stop : ℕ
flag_stop = 0x4

abbrev pub flag_watchdog : ℕ
flag_watchdog = 0x8

abbrev pub acct_success : ℕ
acct_success = 0x1

-- `session->acct_type`
pub data AcctType : Type 0 where
  stop : AcctType
  start : AcctType
  update : AcctType
  other : AcctType

unfoldable pub acct_type : ℕ → AcctType
acct_type flags =
    if has flags flag_stop
    then stop
    else if has flags flag_start
    then start
    else if has flags flag_watchdog
    then update
    else other

-- `struct acct` with the fields behind it
pub record AcctRecord : Type 0 where
  pub flags : ℕ
  pub authen_method : ℕ
  pub priv_lvl : ℕ
  pub authen_type : ℕ
  pub authen_service : ℕ
  pub username : List ℕ
  pub port : List ℕ
  pub nac_addr_ascii : List ℕ
  pub args : List (List ℕ)

unfoldable pub read_acct : List ℕ → AcctRecord
read_acct payload =
    let arg_cnt = byte_at payload 8 in
    let arg_len = drop acct_req_size payload in
    let user = drop arg_cnt arg_len in
    let port = drop (byte_at payload 5) user in
    let rem_addr = drop (byte_at payload 6) port in
    let argp = drop (byte_at payload 7) rem_addr in
    record {
      flags = byte_at payload 0;
      authen_method = byte_at payload 1;
      priv_lvl = byte_at payload 2;
      authen_type = byte_at payload 3;
      authen_service = byte_at payload 4;
      username = mem_strndup user (byte_at payload 5);
      port = mem_strndup port (byte_at payload 6);
      nac_addr_ascii = mem_strndup rem_addr (byte_at payload 7);
      args = split_args (take arg_cnt arg_len) argp;
    }

-- the scripts of the host and its parents, until one permits or denies; a host without a script is
-- passed over
unfoldable pub run_hosts : (Script → State → Ran) → List (Option Script) → Token → State → Ran
run_hosts run [] res s = record { token = res; state = s }
run_hosts run (none ∷ hosts) res s = run_hosts run hosts res s
run_hosts run (some m ∷ hosts) res s =
    let r = run m s in
    let rest = run_hosts run hosts r.token r.state in if settled r.token then r else rest

unfoldable pub is_shell : Option (List ℕ) → Bool
is_shell none = false
is_shell (some service) = str_eq service (codes "shell")

-- what the session knows after a record: the record, its type and command, the state that the
-- scripts leave, whether the context of the shell ends, and the reply
pub record Accounted : Type 0 where
  pub entry : AcctRecord
  pub kind : AcctType
  pub command : Command
  pub state : State
  pub ends_context : Bool
  pub sent : Sent

-- `run` evaluates a script for the user.
unfoldable pub accounting :
    (List ℕ → Script → State → Ran) → List (Option Script) → Session → State → List ℕ → Accounted
unfolding acct_type read_acct run_hosts is_shell
accounting run hosts session s payload =
    let r = read_acct payload in
    let command = eval_args no_command r.args in
    record {
      entry = r;
      kind = acct_type r.flags;
      command = command;
      state = (run_hosts (run r.username) hosts unknown s).state;
      ends_context = has r.flags flag_stop && is_shell command.service;
      sent = send_acct_reply session acct_success [] [];
    }
