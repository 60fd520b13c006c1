-- ===== src/Tests/Decisions.antt =====
-- The course of `do_author`, and accounting.
use soteria_tacacs.Prelude.{◌≡◌, ◌≢◌, ◌⊎◌, refl, true, false, none, some, [], ◌∷◌, codes, arith}
use soteria_tacacs.Script.{permit, deny, is_permit, Script, verdict, State, Ran}
use soteria_tacacs.Rules.{author_eval_host, eval_ruleset, settled}
use soteria_tacacs.Rules.Order.{first_answer}
use soteria_tacacs.Author.AvPairs.{pass_add}
use soteria_tacacs.Author.Decide.{
  no_user, user, Policy, Asked, Reply, passed, failed, sent, goes_on_freed, do_author, is_deny,
}
use soteria_tacacs.Author.Decide.Permitted.{host_answer, Entitled}
use soteria_tacacs.Author.Decide.Laws.{do_author-Entitled, do_author-replies}
use soteria_tacacs.Reply.{Session}
use soteria_tacacs.Accounting.{AcctRecord, read_acct, accounting}
use soteria_tacacs.Accounting.Laws.{
  encode_acct, read_acct-encode_acct, accounting-first_answer, scripts_of,
}

abbrev state : State
state = record {
  profile = none;
  attr_dflt = 0;
  message = [];
  label = [];
  attrs_m = [];
  attrs_a = [];
  attrs_o = [];
}

-- the host's script denies
abbrev run : Script → State → Ran
run m s = record { token = deny; state = record s { message = codes "no" } }

abbrev policy : Policy
policy = record {
  run = run;
  eval_acl = λ a s. record { token = deny; state = s };
  hosts = record { own = verdict deny ∷ []; skip_parent = false } ∷ [];
  realms = [];
  profile_acls = λ p. [];
  profile_scripts = λ p. [];
  user_profile = none;
  host_parent_first = false;
  realm_parent_first = false;
  profile_parent_first = false;
  authz_if_authc = true;
  attr_permit = 1;
}

abbrev asked : Asked
asked = record {
  authen_method = 5;
  authen_type = 1;
  authorized = false;
  is_shell = true;
  is_cmd = true;
  in_args = [];
}

-- a known user, whom a rule permits that sets the profile 7, with an ACL and a script of its own
abbrev rules_policy : Policy
rules_policy = record policy {
  run = λ m s. record { token = permit; state = s };
  eval_acl = λ a s. record { token = permit; state = record s { profile = some 7 } };
  hosts = [];
  realms = record { own = 1 ∷ []; skip_parent = false } ∷ [];
  profile_acls = λ p. record { own = verdict permit ∷ []; skip_parent = false } ∷ [];
  profile_scripts = λ p. record { own = verdict permit ∷ []; skip_parent = false } ∷ [];
}

known_user_passes : do_author rules_policy asked (user false) state ≡ sent (passed pass_add [] ∷ [])
unfolding do_author author_eval_host is_deny eval_ruleset settled is_permit
known_user_passes = refl

do_author-Entitled_example :
    (host_answer rules_policy state ≢ deny)
    × Entitled rules_policy asked
        (user false)
        (author_eval_host rules_policy.run false [] state).state
unfolding do_author author_eval_host is_deny eval_ruleset settled is_permit
do_author-Entitled_example = do_author-Entitled rules_policy asked (user false) state tt

do_author-replies_example :
    ((host_answer policy state ≡ deny)
      × (do_author policy asked no_user state ≡ goes_on_freed failed))
    ⊎ ((host_answer policy state ≢ deny)
        × ((r : Reply) × (do_author policy asked no_user state ≡ sent (r ∷ []))))
do_author-replies_example = do_author-replies policy asked no_user state (λ e. ground arith)

abbrev entry : AcctRecord
entry = record {
  flags = 4;
  authen_method = 6;
  priv_lvl = 15;
  authen_type = 1;
  authen_service = 1;
  username = codes "joe";
  port = codes "tty0";
  nac_addr_ascii = codes "::1";
  args = codes "service=shell" ∷ codes "cmd=show" ∷ [];
}

read_acct-encode_acct_example : read_acct (encode_acct entry) ≡ entry
read_acct-encode_acct_example = read_acct-encode_acct entry (record {
  user_fits = omega arith;
  port_fits = omega arith;
  rem_addr_fits = omega arith;
  count_fits = omega arith;
  args_fit = (omega arith, (omega arith, tt));
})

abbrev session : Session
session = record {
  version = 0xc0;
  seq_no = 1;
  session_id = 77;
  user_msg = [];
  authfail_delay = 0;
  has_authen_data = false;
  iterations = 0;
}

accounting-first_answer_example :
    (accounting
      (λ user. run)
      (none ∷ some (verdict deny) ∷ [])
      session
      state
      (encode_acct entry)).state
    ≡ (first_answer run (scripts_of (none ∷ some (verdict deny) ∷ [])) state).state
accounting-first_answer_example =
    accounting-first_answer (λ user. run) (none ∷ some (verdict deny) ∷ []) session state
      (encode_acct entry)
