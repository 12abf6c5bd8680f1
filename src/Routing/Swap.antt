-- ===== src/Routing/Swap.antt =====
-- internal/routing/swap.go: SwapUserMapping, RebuildAfterSync and RebuildForUpstreamChange. The
-- callbacks act on a world `W` of their caller (the connection registry and the event hub); nil is
-- `none`. Each operation runs under mappingChangeMu, so it is one step.
use pio.Base.{
  ℕ, ◌+◌, Bool, true, false, Option, none, some, [], ◌∷◌, GoString, str_discrete, str_eq, codes,
  ◌++◌, if◌then◌else◌,
}
use pio.Base.Map.{Map, find, put}
use pio.Model.{AuditLogEntry}
use pio.Store.{
  Result, ok, err, ◌>>=◌, driver, not_found, not_hydrated, no_upstream, Tables,
  update_local_user_mapping,
}
use pio.Routing.State.{new_cancel_group, ResolvedUser, RoutingState, u64, Core}

-- The driver calls of SwapUserMapping that fail, and its readings of the clock.
pub record SwapRun : Type 0 where
  pub begin_fails : Bool
  pub update_fails : Bool
  pub audit_fails : Bool
  pub commit_fails : Bool
  pub now : ℕ

-- The mapping that the user gets, and the value for the upstream_proxy_id column.
unfoldable pub remapped :
    RoutingState → ResolvedUser → GoString → ℕ → Result (ResolvedUser × Option GoString)
remapped cur old new_id group =
    if str_eq new_id []
    then ok (
      record {
        username = old.username;
        password_plain = old.password_plain;
        upstream_id = [];
        upstream = none;
        upstream_pwd = [];
        broken = true;
        cancel_group = group;
      },
      none,
    )
    else elim (find str_discrete new_id cur.upstreams) [
      | none ↦ err (no_upstream new_id)
      | some up ↦ ok (
        record {
          username = old.username;
          password_plain = old.password_plain;
          upstream_id = up.id;
          upstream = some up.upstream;
          upstream_pwd = up.password;
          broken = false;
          cancel_group = group;
        },
        some up.id,
      )
    ]

abbrev pub remap_entry : GoString → GoString → GoString → ℕ → AuditLogEntry
remap_entry username old_id new_id now = record {
  at = now;
  actor = codes "ui";
  action = codes "user_remap";
  username = username;
  old_upstream_id = old_id;
  new_upstream_id = new_id;
}

-- The transaction: the tables are replaced only by a commit.
unfoldable pub persist :
    SwapRun → GoString → Option GoString → AuditLogEntry → Tables → Result Tables
persist run username db_id entry t = do
  begun ← driver run.begin_fails t
  updated ← update_local_user_mapping run.update_fails username db_id run.now begun
  logged ← driver run.audit_fails (record updated { audit_log = updated.audit_log ++ entry ∷ [] })
  driver run.commit_fails logged

-- The loop over the old users: the remapped one is replaced.
unfoldable pub replace_user :
    GoString → ResolvedUser → Map GoString ResolvedUser → Map GoString ResolvedUser
replace_user username new_user [] = []
replace_user username new_user ((name, ru) ∷ rest) =
    put str_discrete name (if str_eq name username then new_user else ru)
      (replace_user username new_user rest)

unfoldable pub swapped : RoutingState → GoString → ResolvedUser → ℕ → RoutingState
swapped cur username new_user now = record {
  users = replace_user username new_user cur.users;
  upstreams = cur.upstreams;
  by_display_name = cur.by_display_name;
  universal_pwd = cur.universal_pwd;
  version = u64 (cur.version + 1);
  built_at = now;
}

abbrev pub call : {A W : Type 0} → Option (A → W → W) → A → W → W
call none a w = w
call (some f) a w = f a w

-- An error leaves the core and the world as they were.
unfoldable pub swap_user_mapping :
    {W : Type 0}
    → SwapRun
    → Option (ResolvedUser → W → W)
    → GoString
    → GoString
    → Core × W
    → Result (Core × W)
swap_user_mapping run on_cancel username new_id (c, w) = elim c.routing_state [
  | none ↦ err not_hydrated
  | some cur ↦ elim (find str_discrete username cur.users) [
    | none ↦ err not_found
    | some old ↦ do
      let (group, groups) = new_cancel_group c.groups
      (new_user, db_id) ← remapped cur old new_id group
      db ← persist run username db_id (remap_entry username old.upstream_id new_id run.now) c.db
      ok (
        record {
          db = db;
          routing_state = some (swapped cur username new_user run.now);
          groups = groups;
        },
        call on_cancel old w,
      )
  ]
]
