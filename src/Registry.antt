-- ===== src/Registry.antt =====
-- internal/registry/registry.go: the active connections, by id and by "username|upstreamID". A
-- CancelFunc is the number of the context that it cancels; each method runs under the mutex.
pub mod Key
pub mod Lookup
pub mod WellFormed
pub mod Close
pub mod Tests
use pio.Base.{
  ℕ, ◌+◌, ◌≡◌, Bool, true, false, Option, none, some, List, [], ◌∷◌, ◌++◌, GoString, codes,
  str_discrete, str_eq, ℕ_discrete, length, if◌then◌else◌,
}
use pio.Base.Map.{Map, find, put, remove}
use pio.Base.Int.{u64}

pub record ActiveConnection : Type 0 where
  pub id : ℕ
  pub username : GoString
  pub upstream_id : GoString
  pub client_addr : GoString
  pub protocol : GoString
  pub target : GoString
  pub accepted_at : ℕ
  pub bytes_in : ℕ
  pub bytes_out : ℕ
  pub cancel_func : ℕ

-- map[uint64]struct{}
abbrev pub Ids : Type 0
Ids = Map ℕ Unit

pub record ConnectionRegistry : Type 0 where
  pub next_id : ℕ
  pub conns : Map ℕ ActiveConnection
  pub by_key : Map GoString Ids

abbrev pub new : ConnectionRegistry
new = record { next_id = 0; conns = []; by_key = [] }

abbrev pub key_of : GoString → GoString → GoString
key_of username upstream_id = username ++ codes "|" ++ upstream_id

abbrev pub conn_key : ActiveConnection → GoString
conn_key c = key_of c.username c.upstream_id

-- A missing key reads as the nil set, which has no member.
abbrev pub ids_of : GoString → Map GoString Ids → Ids
ids_of key by_key = elim (find str_discrete key by_key) [ none ↦ [] | some set ↦ set ]

unfoldable pub register : ActiveConnection → ConnectionRegistry → ℕ × ConnectionRegistry
register c r =
    let id = u64 (r.next_id + 1) in
    let key = conn_key c in
    (
      id,
      record {
        next_id = id;
        conns = put ℕ_discrete id (record c { id = id }) r.conns;
        by_key = put str_discrete key (put ℕ_discrete id tt (ids_of key r.by_key)) r.by_key;
      },
    )

-- `delete(set, id)`, and the key with its last id.
unfoldable pub drop_id : ℕ → GoString → Map GoString Ids → Map GoString Ids
drop_id id key by_key = elim (find str_discrete key by_key) [
  | none ↦ by_key
  | some set ↦ elim (remove ℕ_discrete id set) [
    | [] ↦ remove str_discrete key by_key
    | e ∷ es ↦ put str_discrete key (e ∷ es) by_key
  ]
]

unfoldable pub deregister : ℕ → ConnectionRegistry → ConnectionRegistry
unfolding drop_id
deregister id r = elim (find ℕ_discrete id r.conns) [
  | none ↦ r
  | some c ↦ record r {
    conns = remove ℕ_discrete id r.conns;
    by_key = drop_id id (conn_key c) r.by_key;
  }
]

-- The loop over the ids of a key.
unfoldable pub cancels_of : Ids → Map ℕ ActiveConnection → List ℕ
cancels_of [] conns = []
cancels_of ((id, _) ∷ ids) conns =
    let cancels = cancels_of ids conns in
    elim (find ℕ_discrete id conns) [ none ↦ cancels | some c ↦ c.cancel_func ∷ cancels ]

-- The loop over all connections, for those that pass the test.
unfoldable pub cancels_where : (ActiveConnection → Bool) → Map ℕ ActiveConnection → List ℕ
cancels_where test [] = []
cancels_where test ((id, c) ∷ conns) =
    let cancels = cancels_where test conns in if test c then c.cancel_func ∷ cancels else cancels

-- The contexts that are cancelled; the method returns their number.
unfoldable pub close_by_user_upstream : GoString → GoString → ConnectionRegistry → List ℕ
close_by_user_upstream username upstream_id r =
    cancels_of (ids_of (key_of username upstream_id) r.by_key) r.conns

unfoldable pub close_by_upstream : GoString → ConnectionRegistry → List ℕ
close_by_upstream upstream_id r = cancels_where (λ c. str_eq c.upstream_id upstream_id) r.conns

unfoldable pub close_by_username : GoString → ConnectionRegistry → List ℕ
close_by_username username r = cancels_where (λ c. str_eq c.username username) r.conns

-- A Snapshot has every field of the connection but its CancelFunc.
pub record Snapshot : Type 0 where
  pub id : ℕ
  pub username : GoString
  pub upstream_id : GoString
  pub client_addr : GoString
  pub protocol : GoString
  pub target : GoString
  pub accepted_at : ℕ
  pub bytes_in : ℕ
  pub bytes_out : ℕ

abbrev pub snapshot_of : ActiveConnection → Snapshot
snapshot_of c = record {
  id = c.id;
  username = c.username;
  upstream_id = c.upstream_id;
  client_addr = c.client_addr;
  protocol = c.protocol;
  target = c.target;
  accepted_at = c.accepted_at;
  bytes_in = c.bytes_in;
  bytes_out = c.bytes_out;
}

abbrev snapshots : Map ℕ ActiveConnection → List Snapshot
snapshots [] = []
snapshots ((_, c) ∷ conns) = snapshot_of c ∷ snapshots conns

abbrev pub snapshot_all : ConnectionRegistry → List Snapshot
snapshot_all r = snapshots r.conns

abbrev pub len : ConnectionRegistry → ℕ
len r = length r.conns
