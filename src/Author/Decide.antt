-- ===== src/Author/Decide.antt =====
-- `do_author` of tacacs/binaries/tac_plus-ng/author.c from its start on: the ACL of the host, the
-- user, the rules and the profile, and then the negotiation of pairs. Each call of
-- `send_author_reply` is a reply, after which the session is cleaned up. The attributes of a user's
-- RARGS are not modelled.
pub mod Permitted
pub mod Laws
use mathlib.Core.List.{map}
use soteria_tacacs.Prelude.{
  ℕ, Bool, true, false, ◌&&◌, Option, none, some, List, [], ◌∷◌, ◌++◌, ◌==◌, ◌!=◌, if◌then◌else◌,
}
use soteria_tacacs.Script.{Token, unknown, return, permit, deny, Script, State, Ran, is_permit}
use soteria_tacacs.Rules.{Level, author_eval_host, author_eval_profile, eval_ruleset}
use soteria_tacacs.Author.AvPairs.{Str, Server, Answer, Status, pass_add, pass_repl, author_args}

abbrev pub authen_meth_tacacsplus : ℕ
authen_meth_tacacsplus = 0x06

abbrev pub authen_type_ascii : ℕ
authen_type_ascii = 1

-- the replies that `do_author` sends
pub data Reply : Type 0 where
  passed : Status → List Str → Reply
  failed : Reply
  errored : Reply

-- What `lookup_user` and `query_mavis_info` come to: the query is under way, the backend has
-- failed, there is no such user, or there is, perhaps with a login password of type `S_error`.
pub data Lookup : Type 0 where
  pending : Lookup
  backend_failure : Lookup
  no_user : Lookup
  user : Bool → Lookup

-- the realm's configuration and the answers of its parts
pub record Policy : Type 0 where
  pub run : Script → State → Ran
  pub eval_acl : ℕ → State → Ran
  pub hosts : List (Level Script)
  pub realms : List (Level ℕ)
  pub profile_acls : ℕ → List (Level Script)
  pub profile_scripts : ℕ → List (Level Script)
  pub user_profile : Option ℕ
  pub host_parent_first : Bool
  pub realm_parent_first : Bool
  pub profile_parent_first : Bool
  pub authz_if_authc : Bool
  pub attr_permit : ℕ

-- the request, as far as `do_author` looks at it
pub record Asked : Type 0 where
  pub authen_method : ℕ
  pub authen_type : ℕ
  pub authorized : Bool
  pub is_shell : Bool
  pub is_cmd : Bool
  pub in_args : List Str

unfoldable pub is_deny : Token → Bool
is_deny deny = true
is_deny unknown = false
is_deny return = false
is_deny permit = false

-- the server's side of the negotiation, from what the scripts have set
abbrev pub server_of : Policy → State → Server
server_of p s = record {
  attrs_m = map some s.attrs_m;
  attrs_o = map some s.attrs_o;
  attrs_a = map some s.attrs_a;
  permit_dflt = s.attr_dflt == p.attr_permit;
}

unfoldable pub reply_of : Option Answer → Reply
reply_of none = failed
reply_of (some a) = passed a.status a.args

unfoldable pub eval_own_profile : Policy → Option ℕ → State → Ran
unfolding author_eval_profile
eval_own_profile p none s = record { token = unknown; state = s }
eval_own_profile p (some profile) s =
    author_eval_profile p.run p.profile_parent_first (p.profile_scripts profile) s

-- `eval_ruleset`, and the scripts of the profile if that permits
unfoldable pub decide : Policy → Asked → State → Ran
unfolding eval_own_profile
decide p a s =
    let r =
      eval_ruleset p.eval_acl p.run p.profile_acls p.user_profile p.realm_parent_first p.realms s in
    let asked = if is_permit r.token then eval_own_profile p r.state.profile r.state else r in
    if a.authorized then record { token = permit; state = s } else asked

-- the reply once the user is known
unfoldable pub answer_user : Policy → Asked → Ran → Reply
unfolding reply_of
answer_user p a r =
    let pairs = reply_of (author_args (server_of p r.state) a.in_args) in
    if is_permit r.token
    then (if a.is_shell && a.is_cmd then passed pass_add [] else pairs)
    else failed

-- all that follows the ACL of the host
unfoldable pub answer_lookup : Policy → Asked → Lookup → State → List Reply
unfolding answer_user decide
answer_lookup p a pending s = []
answer_lookup p a backend_failure s = errored ∷ []
answer_lookup p a no_user s =
    if p.authz_if_authc
      && (a.authen_method != authen_meth_tacacsplus && a.authen_type == authen_type_ascii)
    then passed pass_add [] ∷ []
    else failed ∷ []
answer_lookup p a (user true) s = errored ∷ []
answer_lookup p a (user false) s = answer_user p a (decide p a s) ∷ []

-- How a call of `do_author` goes: with its replies, or with a reply behind which the code goes on with
-- the session that `cleanup_session` has freed, so that nothing is said of what it does then.
pub data Course : Type 0 where
  sent : List Reply → Course
  goes_on_freed : Reply → Course

unfoldable pub do_author : Policy → Asked → Lookup → State → Course
unfolding answer_lookup
do_author p a found s =
    let h = author_eval_host p.run p.host_parent_first p.hosts s in
    if is_deny h.token then goes_on_freed failed else sent (answer_lookup p a found h.state)
