-- ===== src/Tunnel/Acquire.antt =====
-- `Acquire` of internal/tunnel/tunnel.go: which upstream a (username, password) pair opens.
use pio.Base.{
  Bool, Option, none, some, [], GoString, str_discrete, str_eq, not, ◌&&◌, ℕ, if◌then◌else◌,
}
use pio.Base.Map.{find}
use pio.Model.{UpstreamProxy}
use pio.Routing.State.{ResolvedUser, DisplayNameRoute, RoutingState}

-- The sentinel errors of the package, and the errors that wrap none of them.
pub data TunnelError : Type 0 where
  unknown_user bad_password broken_mapping upstream_dial upstream_auth not_hydrated : TunnelError

pub record Grant : Type 0 where
  pub upstream : UpstreamProxy
  pub upstream_pwd : GoString
  pub cancel_group : ℕ

pub data Answer : Type 0 where
  granted : Grant → Answer
  refused : TunnelError → Answer

-- Path 1, for a user whose own password matched.
unfoldable pub user_answer : ResolvedUser → Answer
user_answer u = elim u.upstream [
  | none ↦ refused broken_mapping
  | some up ↦
      if u.broken
      then refused broken_mapping
      else granted
          (record { upstream = up; upstream_pwd = u.upstream_pwd; cancel_group = u.cancel_group })
]

-- Path 2, for a password that is the universal one.
unfoldable pub route_answer : Option DisplayNameRoute → Answer
route_answer none = refused unknown_user
route_answer (some r) = elim r.upstream [
  | none ↦ refused broken_mapping
  | some up ↦
      granted
        (record { upstream = up; upstream_pwd = r.upstream_pwd; cancel_group = r.cancel_group })
]

-- `subtle.ConstantTimeCompare(a, b) == 1` is equality of bytes.
abbrev universal_matches : RoutingState → GoString → Bool
universal_matches s password = not (str_eq s.universal_pwd []) && str_eq s.universal_pwd password

-- Neither path: the failure is classified for the deny-list.
abbrev unmatched : Option ResolvedUser → Answer
unmatched none = refused unknown_user
unmatched (some _) = refused bad_password

abbrev second_path : RoutingState → Option ResolvedUser → GoString → GoString → Answer
second_path s user username password =
    if universal_matches s password
    then route_answer (find str_discrete username s.by_display_name)
    else unmatched user

abbrev first_path : RoutingState → Option ResolvedUser → GoString → GoString → Answer
first_path s none username password = second_path s none username password
first_path s (some u) username password =
    if str_eq u.password_plain password
    then user_answer u
    else second_path s (some u) username password

unfoldable pub acquire : Option RoutingState → GoString → GoString → Answer
unfolding user_answer route_answer
acquire none username password = refused not_hydrated
acquire (some s) username password =
    first_path s (find str_discrete username s.users) username password
