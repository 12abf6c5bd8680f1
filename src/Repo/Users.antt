-- ===== src/Repo/Users.antt =====
-- internal/repo/users.go: the local users. UpdateLocalUserMapping is in Store.
use pio.Base.{
  ℕ, ◌+◌, Bool, true, false, Option, none, some, List, [], ◌∷◌, GoString, str_eq, if◌then◌else◌,
  ltb, ◌==◌,
}
use pio.Model.{LocalUser}
use pio.Store.{Result, ok, err, ◌>>=◌, driver, Tables, not_found, constraint, has_user}
use pio.Repo.Order.{sort, or_next}

-- COALESCE((SELECT MAX(order_index) + 1 FROM local_users), 0)
unfoldable pub next_order : List LocalUser → ℕ
next_order [] = 0
next_order (u ∷ us) =
    let rest = next_order us in if ltb u.order_index rest then rest else u.order_index + 1

abbrev pub new_user : GoString → GoString → GoString → ℕ → ℕ → LocalUser
new_user username password_plain notes order now = record {
  username = username;
  password_plain = password_plain;
  upstream_proxy_id = none;
  broken = false;
  notes = notes;
  order_index = order;
  created_at = now;
  updated_at = now;
}

unfoldable pub insert_local_user :
    Bool → GoString → GoString → GoString → ℕ → Tables → Result Tables
insert_local_user fails username password_plain notes now t = do
  begun ← driver fails t
  if has_user username begun.local_users
      then err constraint
      else ok (record begun {
        local_users =
            new_user username password_plain notes (next_order begun.local_users) now
            ∷ begun.local_users;
      })

unfoldable pub user_row : GoString → List LocalUser → Option LocalUser
user_row username [] = none
user_row username (u ∷ us) = if str_eq u.username username then some u else user_row username us

unfoldable pub get_local_user : Bool → GoString → Tables → Result LocalUser
get_local_user fails username t = do
  rows ← driver fails t.local_users
  elim (user_row username rows) [ none ↦ err not_found | some u ↦ ok u ]

-- ORDER BY order_index ASC, username ASC
abbrev pub user_le : LocalUser → LocalUser → Bool
user_le a b =
    if a.order_index == b.order_index
    then or_next a.username b.username true
    else ltb a.order_index b.order_index

unfoldable pub list_local_users : Bool → Tables → Result (List LocalUser)
list_local_users fails t = driver fails (sort user_le t.local_users)

-- UPDATE local_users SET ... WHERE username = ?
unfoldable pub change_user : GoString → (LocalUser → LocalUser) → List LocalUser → List LocalUser
change_user username f [] = []
change_user username f (u ∷ us) =
    (if str_eq u.username username then f u else u) ∷ change_user username f us

unfoldable pub update_local_user_password : Bool → GoString → GoString → ℕ → Tables → Result Tables
update_local_user_password fails username password_plain now t = do
  written ← driver fails (record t {
    local_users =
        change_user username (λ u. record u { password_plain = password_plain; updated_at = now })
          t.local_users;
  })
  if has_user username t.local_users then ok written else err not_found

unfoldable pub drop_user : GoString → List LocalUser → List LocalUser
drop_user username [] = []
drop_user username (u ∷ us) =
    if str_eq u.username username then drop_user username us else u ∷ drop_user username us

unfoldable pub delete_local_user : Bool → GoString → Tables → Result Tables
delete_local_user fails username t = do
  deleted ← driver fails (record t { local_users = drop_user username t.local_users })
  if has_user username t.local_users then ok deleted else err not_found

-- The loop of ReorderLocalUsers from position `i`: `fails` tells of the call at each position.
unfoldable pub write_order :
    (ℕ → Bool) → ℕ → List GoString → List LocalUser → Result (List LocalUser)
write_order fails i [] us = ok us
write_order fails i (name ∷ names) us = do
  written ← driver (fails i) (change_user name (λ u. record u { order_index = i }) us)
  write_order fails (i + 1) names written

unfoldable pub reorder_local_users :
    Bool → (ℕ → Bool) → Bool → List GoString → Tables → Result Tables
reorder_local_users begin_fails fails commit_fails usernames t = do
  begun ← driver begin_fails t
  written ← write_order fails 0 usernames begun.local_users
  driver commit_fails (record begun { local_users = written })
