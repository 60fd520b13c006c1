-- ===== src/Accounting/Laws.antt =====
-- That `accounting` reads what a record says, and always answers it.
use soteria_tacacs.Prelude.{
  ℕ, ◌<◌, ◌≡◌, refl, sym, ap, ◌∙◌, Option, none, some, List, [], ◌∷◌, ◌++◌, length, lengths, flat,
  Shorts, length-lengths, take_field, drop_field, u8, arith, if◌then◌else◌,
}
use soteria_tacacs.Author.Request.Codec.{split_args-flat}
use soteria_tacacs.Script.{Token, unknown, Script, State, Ran}
use soteria_tacacs.Rules.{settled, run_own}
use soteria_tacacs.Rules.Order.{first_answer, run_own-first_answer}
use soteria_tacacs.Reply.{Session}
use soteria_tacacs.Accounting.{AcctRecord, read_acct, run_hosts, accounting}

-- RFC 8907, section 7.1
abbrev pub encode_acct : AcctRecord → List ℕ
encode_acct r =
    r.flags
    ∷ r.authen_method
    ∷ r.priv_lvl
    ∷ r.authen_type
    ∷ r.authen_service
    ∷ u8 (length r.username)
    ∷ u8 (length r.port)
    ∷ u8 (length r.nac_addr_ascii)
    ∷ u8 (length r.args)
    ∷ (lengths r.args ++ (r.username ++ (r.port ++ (r.nac_addr_ascii ++ flat r.args))))

-- what the format can carry
pub record AcctFits (r : AcctRecord) : Type 0 where
  pub user_fits : length r.username < 256
  pub port_fits : length r.port < 256
  pub rem_addr_fits : length r.nac_addr_ascii < 256
  pub count_fits : length r.args < 256
  pub args_fit : Shorts r.args

-- Every record that the format can carry is read back.
pub read_acct-encode_acct : (r : AcctRecord) → AcctFits r → read_acct (encode_acct r) ≡ r
unfolding read_acct
read_acct-encode_acct r h =
    let argp : List ℕ = flat r.args in
    let rem_addr : List ℕ = r.nac_addr_ascii ++ argp in
    let port : List ℕ = r.port ++ rem_addr in
    let user : List ℕ = r.username ++ port in
    let sizes : List ℕ = lengths r.args in
    let count : length sizes < 256 = omega (arith, length-lengths r.args, h.count_fits) in
    let e : length r.args ≡ length sizes = sym (length-lengths r.args) in
    rw (
      drop_field sizes user (length r.args) count e,
      take_field sizes user (length r.args) count e,
      drop_field r.username port (length r.username) h.user_fits refl,
      take_field r.username port (length r.username) h.user_fits refl,
      drop_field r.port rem_addr (length r.port) h.port_fits refl,
      take_field r.port rem_addr (length r.port) h.port_fits refl,
      drop_field r.nac_addr_ascii argp (length r.nac_addr_ascii) h.rem_addr_fits refl,
      take_field r.nac_addr_ascii argp (length r.nac_addr_ascii) h.rem_addr_fits refl,
      split_args-flat r.args h.args_fit,
    )

-- the scripts that there are
abbrev pub scripts_of : List (Option Script) → List Script
scripts_of [] = []
scripts_of (none ∷ hosts) = scripts_of hosts
scripts_of (some m ∷ hosts) = m ∷ scripts_of hosts

run_hosts-run_own :
    (run : Script → State → Ran) (hosts : List (Option Script)) (res : Token) (s : State)
    → run_hosts run hosts res s ≡ run_own run (scripts_of hosts) res s
unfolding run_hosts run_own
run_hosts-run_own run [] res s = refl
run_hosts-run_own run (none ∷ hosts) res s = run_hosts-run_own run hosts res s
run_hosts-run_own run (some m ∷ hosts) res s =
    ap (λ rest. if settled (run m s).token then run m s else rest)
      (run_hosts-run_own run hosts (run m s).token (run m s).state)

-- Accounting asks the host first and then its parents, whatever is configured on their order: the
-- state that it leaves is that of the first answer, or of the last script.
pub accounting-first_answer :
    (run : List ℕ → Script → State → Ran) (hosts : List (Option Script)) (session : Session)
    (s : State) (payload : List ℕ)
    → (accounting run hosts session s payload).state
      ≡ (first_answer (run (read_acct payload).username) (scripts_of hosts) s).state
unfolding accounting settled
accounting-first_answer run hosts session s payload =
    let ask = run (read_acct payload).username in
    ap (λ r. r.state) (run_hosts-run_own ask hosts unknown s)
    ∙ ap (λ r. r.state) (run_own-first_answer ask (scripts_of hosts) unknown s refl)
