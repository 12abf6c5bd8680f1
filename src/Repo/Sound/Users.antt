-- ===== src/Repo/Sound/Users.antt =====
-- The operations on users keep the constraints.
use pio.Base.{
  ℕ, ◌+◌, ◌≡◌, refl, subst, Bool, true, false, Option, List, [], ◌∷◌, GoString, str_eq, arith, inl,
  inr, Bool-cases,
}
use pio.Model.{LocalUser}
use pio.Store.{Tables, ok, driver, bind-ok, ok_eq, has_user, remap_rows, update_local_user_mapping}
use pio.Repo.Rows.{Rows}
use pio.Repo.Users.{
  new_user, next_order, insert_local_user, change_user, update_local_user_password, drop_user,
  delete_local_user, write_order, reorder_local_users,
}
use pio.Repo.Sound.{IsSound, UniqueUsers, MappingsOk, mapped}

-- The two constraints that the users are in.
abbrev pub UsersOk : List LocalUser → Rows → Type 0
UsersOk us rows = UniqueUsers us × MappingsOk us rows

with_users :
    (t : Tables) (us : List LocalUser)
    → IsSound t
    → UsersOk us t.upstream_proxies
    → IsSound (record t { local_users = us })
with_users t us s u = record {
  ids = s.ids;
  names = s.names;
  users = u.0;
  mappings = u.1;
  keys = s.keys;
}

module _ (name : GoString) (f : LocalUser → LocalUser)
    (keeps : (u : LocalUser)
      → ((f u).username ≡ u.username) × ((f u).upstream_proxy_id ≡ u.upstream_proxy_id)) where
  has_user-change_user :
      (n : GoString) (us : List LocalUser) → has_user n (change_user name f us) ≡ has_user n us
  unfolding change_user
  has_user-change_user n [] = refl
  has_user-change_user n (u ∷ us) = ground (arith, keeps u, has_user-change_user n us)

  pub change_user-UsersOk :
      (us : List LocalUser) (rows : Rows) → UsersOk us rows → UsersOk (change_user name f us) rows
  unfolding change_user
  change_user-UsersOk [] rows h = h
  change_user-UsersOk (u ∷ us) rows h =
      let rest = change_user-UsersOk us rows (h.0.1, h.1.1) in
      let same = has_user-change_user u.username us in
      elim (Bool-cases (str_eq u.username name)) [
        | inl y ↦
            rw y ((ground (arith, keeps u, same, h.0.0), rest.0), (rw (keeps u).1 h.1.0, rest.1))
        | inr n ↦ rw n ((rw same h.0.0, rest.0), (h.1.0, rest.1))
      ]

write_order-UsersOk :
    (fails : ℕ → Bool) (i : ℕ) (names : List GoString) (us us' : List LocalUser) (rows : Rows)
    → write_order fails i names us ≡ ok us'
    → UsersOk us rows
    → UsersOk us' rows
unfolding write_order
write_order-UsersOk fails i [] us us' rows h u = subst (λ x. UsersOk x rows) (ok_eq h) u
write_order-UsersOk fails i (name ∷ names) us us' rows h u = elim (Bool-cases (fails i)) [
  | inl y ↦ absurd (ground arith)
  | inr n ↦
      let order : LocalUser → LocalUser = λ x. record x { order_index = i } in
      write_order-UsersOk fails (i + 1) names (change_user name order us) us' rows (ground arith)
        (change_user-UsersOk name order (λ x. (refl, refl)) us rows u)
]

has_user-drop_user :
    (name n : GoString) (us : List LocalUser)
    → has_user n us ≡ false
    → has_user n (drop_user name us) ≡ false
unfolding drop_user
has_user-drop_user name n [] h = refl
has_user-drop_user name n (u ∷ us) h = ground (arith, has_user-drop_user name n us)

drop_user-UsersOk :
    (name : GoString) (us : List LocalUser) (rows : Rows)
    → UsersOk us rows
    → UsersOk (drop_user name us) rows
unfolding drop_user
drop_user-UsersOk name [] rows h = h
drop_user-UsersOk name (u ∷ us) rows h =
    let rest = drop_user-UsersOk name us rows (h.0.1, h.1.1) in
    elim (Bool-cases (str_eq u.username name)) [
      | inl y ↦ rw y rest
      | inr n ↦ rw n ((has_user-drop_user name u.username us h.0.0, rest.0), (h.1.0, rest.1))
    ]

has_user-remap_rows :
    (name n : GoString) (id : Option GoString) (now : ℕ) (us : List LocalUser)
    → has_user n (remap_rows name id now us) ≡ has_user n us
has_user-remap_rows name n id now [] = refl
has_user-remap_rows name n id now (u ∷ us) = ground (arith, has_user-remap_rows name n id now us)

remap_rows-UsersOk :
    (name : GoString) (id : Option GoString) (now : ℕ) (us : List LocalUser) (rows : Rows)
    → mapped id rows ≡ true
    → UsersOk us rows
    → UsersOk (remap_rows name id now us) rows
remap_rows-UsersOk name id now [] rows m h = h
remap_rows-UsersOk name id now (u ∷ us) rows m h =
    let rest = remap_rows-UsersOk name id now us rows m (h.0.1, h.1.1) in
    let same = has_user-remap_rows name u.username id now us in
    ((ground (arith, same, h.0.0), rest.0), (ground (arith, m, h.1.0), rest.1))

pub insert_local_user-IsSound :
    (fails : Bool) (name pw notes : GoString) (now : ℕ) (t t' : Tables)
    → insert_local_user fails name pw notes now t ≡ ok t'
    → IsSound t
    → IsSound t'
unfolding insert_local_user
insert_local_user-IsSound true name pw notes now t t' h s = absurd (ground arith)
insert_local_user-IsSound false name pw notes now t t' h s =
    elim (Bool-cases (has_user name t.local_users)) [
      | inl y ↦ absurd (ground arith)
      | inr n ↦
          let us = new_user name pw notes (next_order t.local_users) now ∷ t.local_users in
          let made : record t { local_users = us } ≡ t' = ground arith in
          subst IsSound made (with_users t us s ((n, s.users), (refl, s.mappings)))
    ]

pub update_local_user_password-IsSound :
    (fails : Bool) (name pw : GoString) (now : ℕ) (t t' : Tables)
    → update_local_user_password fails name pw now t ≡ ok t'
    → IsSound t
    → IsSound t'
unfolding update_local_user_password
update_local_user_password-IsSound true name pw now t t' h s = absurd (ground arith)
update_local_user_password-IsSound false name pw now t t' h s =
    let f : LocalUser → LocalUser = λ u. record u { password_plain = pw; updated_at = now } in
    let made : record t { local_users = change_user name f t.local_users } ≡ t' = ground arith in
    subst IsSound made (
      with_users t _ s (
        change_user-UsersOk name f (λ u. (refl, refl)) t.local_users t.upstream_proxies
          (s.users, s.mappings)))

pub delete_local_user-IsSound :
    (fails : Bool) (name : GoString) (t t' : Tables)
    → delete_local_user fails name t ≡ ok t'
    → IsSound t
    → IsSound t'
unfolding delete_local_user
delete_local_user-IsSound true name t t' h s = absurd (ground arith)
delete_local_user-IsSound false name t t' h s =
    let made : record t { local_users = drop_user name t.local_users } ≡ t' = ground arith in
    subst IsSound made (
      with_users t _ s
        (drop_user-UsersOk name t.local_users t.upstream_proxies (s.users, s.mappings)))

pub update_local_user_mapping-IsSound :
    (fails : Bool) (name : GoString) (id : Option GoString) (now : ℕ) (t t' : Tables)
    → update_local_user_mapping fails name id now t ≡ ok t'
    → IsSound t
    → IsSound t'
unfolding update_local_user_mapping
update_local_user_mapping-IsSound true name id now t t' h s = absurd (ground arith)
update_local_user_mapping-IsSound false name id now t t' h s =
    let affected : has_user name t.local_users ≡ true = ground arith in
    let m : mapped id t.upstream_proxies ≡ true = ground arith in
    let made : record t { local_users = remap_rows name id now t.local_users } ≡ t' =
      ground arith in
    subst IsSound made (
      with_users t _ s
        (remap_rows-UsersOk name id now t.local_users t.upstream_proxies m (s.users, s.mappings)))

pub reorder_local_users-IsSound :
    (begin_fails : Bool) (fails : ℕ → Bool) (commit_fails : Bool) (names : List GoString)
    (t t' : Tables)
    → reorder_local_users begin_fails fails commit_fails names t ≡ ok t'
    → IsSound t
    → IsSound t'
unfolding reorder_local_users
reorder_local_users-IsSound true fails commit_fails names t t' h s = absurd (ground arith)
reorder_local_users-IsSound false fails commit_fails names t t' h s =
    let (us, written, rest) =
      bind-ok (write_order fails 0 names t.local_users)
        (λ us. driver commit_fails (record t { local_users = us })) h in
    let made : record t { local_users = us } ≡ t' = ground arith in
    subst IsSound made (
      with_users t us s (
        write_order-UsersOk fails 0 names t.local_users us t.upstream_proxies written
          (s.users, s.mappings)))
