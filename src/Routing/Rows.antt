-- ===== src/Routing/Rows.antt =====
-- A user of the snapshot against its row in local_users: what Hydrate reads and what SwapUserMapping
-- stores. The cancel group is no part of a user's view.
use pio.Base.{
  ℕ, ◌≡◌, ◌∙◌, refl, sym, ap, Bool, true, false, none, some, List, [], ◌∷◌, ◌++◌, GoString,
  str_discrete, str_eq, arith, inl, inr, Option, subst, some_eq, if◌then◌else◌, Option-cases, ite,
}
use pio.Base.Map.{Map, find, put, find-put}
use pio.Model.{LocalUser, ResolvedUpstream, AuditLogEntry}
use pio.Store.{Tables, ok, remap_rows, update_local_user_mapping}
use pio.Routing.State.{Groups, ResolvedUser, RoutingState, new_cancel_group}
use pio.Routing.Build.{resolve_user, resolve_users}
use pio.Routing.Swap.{SwapRun, remapped, persist, replace_user}
use pio.Routing.Replace.{replaced, find-replace_user}

-- A user as a client sees it.
abbrev view : ResolvedUser → ResolvedUser
view u = record u { cancel_group = 0 }

abbrev pub view? : Option ResolvedUser → Option ResolvedUser
view? none = none
view? (some u) = some (view u)

-- The user that a row stands for.
abbrev pub stored_user : Map GoString ResolvedUpstream → Option LocalUser → Option ResolvedUser
stored_user ups none = none
stored_user ups (some row) = some (resolve_user ups row 0)

abbrev pub row_of : GoString → List LocalUser → Option LocalUser
row_of name [] = none
row_of name (u ∷ us) = ite (str_discrete u.username name) (some u) (row_of name us)

abbrev remapped_row : Bool → Option GoString → ℕ → Option LocalUser → Option LocalUser
remapped_row b id now none = none
remapped_row b id now (some u) = some (
    if b
    then record u {
      upstream_proxy_id = id;
      broken = elim id [ none ↦ true | some _ ↦ false ];
      updated_at = now;
    }
    else u)

row_of-remap_rows :
    (username name : GoString) (id : Option GoString) (now : ℕ) (rows : List LocalUser)
    → row_of name (remap_rows username id now rows)
      ≡ remapped_row (str_eq name username) id now (row_of name rows)
row_of-remap_rows username name id now [] = refl
row_of-remap_rows username name id now (u ∷ us) =
    ground (arith, row_of-remap_rows username name id now us)

view-resolve_user :
    (ups : Map GoString ResolvedUpstream) (row : LocalUser) (k : ℕ)
    → view (resolve_user ups row k) ≡ resolve_user ups row 0
unfolding resolve_user
view-resolve_user ups row k = ground arith

pub find-resolve_users :
    (ups : Map GoString ResolvedUpstream) (rows : List LocalUser) (g : Groups) (name : GoString)
    → view? (find str_discrete name (resolve_users ups rows g).0)
      ≡ stored_user ups (row_of name rows)
unfolding resolve_users find new_cancel_group
find-resolve_users ups [] g name = refl
find-resolve_users ups (row ∷ rows) g name =
    let g' = (new_cancel_group g).1 in
    rw
      (find-put str_discrete row.username name (resolve_user ups row g.next)
        (resolve_users ups rows g').0)
      (elim (str_discrete row.username name)
        as (λ x.
          view? (
            ite x (some (resolve_user ups row g.next))
              (find str_discrete name (resolve_users ups rows g').0))
          ≡ stored_user ups (ite x (some row) (row_of name rows))) [
            | yes p ↦ ap some (view-resolve_user ups row g.next)
            | no p ↦ find-resolve_users ups rows g' name
          ])

pub keyed_by_put :
    (key : GoString) (taken : ResolvedUpstream) (out : Map GoString ResolvedUpstream)
    (id : GoString) (up : ResolvedUpstream)
    → taken.id ≡ key
    → (find str_discrete id out ≡ some up → up.id ≡ id)
    → find str_discrete id (put str_discrete key taken out) ≡ some up
    → up.id ≡ id
keyed_by_put key taken out id up own rest h =
    (elim (str_discrete key id)
        as (λ x. ite x (some taken) (find str_discrete id out) ≡ some up → up.id ≡ id) [
          | yes p ↦ λ e. subst (λ (u : ResolvedUpstream). u.id ≡ id) (some_eq e) (own ∙ p)
          | no p ↦ rest
        ])
      (sym (find-put str_discrete key id taken out) ∙ h)

-- What a committed transaction leaves in the tables.
pub persisted :
    (run : SwapRun) (username : GoString) (db_id : Option GoString) (entry : AuditLogEntry)
    (t db : Tables)
    → persist run username db_id entry t ≡ ok db
    → (db.local_users ≡ remap_rows username db_id run.now t.local_users)
      × (db.upstream_proxies ≡ t.upstream_proxies)
      × (db.audit_log ≡ t.audit_log ++ entry ∷ [])
unfolding persist update_local_user_mapping
persisted run username db_id entry t db h = ground arith

resolved_of :
    (ups : Map GoString ResolvedUpstream) (row : LocalUser) (k : ℕ)
    → ((resolve_user ups row k).username ≡ row.username)
      × ((resolve_user ups row k).password_plain ≡ row.password_plain)
unfolding resolve_user
resolved_of ups row k = ground arith

-- The new record is the one that the new row stands for.
remapped-view :
    (cur : RoutingState) (old new : ResolvedUser) (new_id : GoString) (group now : ℕ)
    (db_id : Option GoString) (row : LocalUser)
    → ((up : ResolvedUpstream) → find str_discrete new_id cur.upstreams ≡ some up → up.id ≡ new_id)
    → remapped cur old new_id group ≡ ok (new, db_id)
    → row.username ≡ old.username
    → row.password_plain ≡ old.password_plain
    → some (view new) ≡ stored_user cur.upstreams (remapped_row true db_id now (some row))
unfolding remapped resolve_user
remapped-view cur old new new_id group now db_id row keyed h u p =
    elim (Option-cases (find str_discrete new_id cur.upstreams)) [
      | inl e ↦ ground arith
      | inr (up, e) ↦ ground (arith, keyed up e)
    ]

-- A stored user has a row, of its name and password.
row_behind :
    (ups : Map GoString ResolvedUpstream) (row : Option LocalUser) (old : ResolvedUser)
    → view? (some old) ≡ stored_user ups row
    → (r : LocalUser) × (row ≡ some r)
      × (r.username ≡ old.username)
      × (r.password_plain ≡ old.password_plain)
row_behind ups none old h = absurd (ground arith)
row_behind ups (some r) old h =
    let (n, p) = resolved_of ups r 0 in
    (
      r,
      refl,
      sym n ∙ ap (λ (x : ResolvedUser). x.username) (sym (some_eq h)),
      sym p ∙ ap (λ (x : ResolvedUser). x.password_plain) (sym (some_eq h)),
    )

abbrev rename : Bool → ResolvedUser → Option ResolvedUser → Option ResolvedUser
rename b new o = view? (replaced b new o)

-- Each user of the new snapshot is the one of its row.
pub replaced_users :
    (cur : RoutingState) (old new : ResolvedUser) (username new_id : GoString) (group now : ℕ)
    (db_id : Option GoString) (rows : List LocalUser)
    → find str_discrete username cur.users ≡ some old
    → ((up : ResolvedUpstream) → find str_discrete new_id cur.upstreams ≡ some up → up.id ≡ new_id)
    → ((name : GoString)
        → view? (find str_discrete name cur.users) ≡ stored_user cur.upstreams (row_of name rows))
    → remapped cur old new_id group ≡ ok (new, db_id)
    → (name : GoString)
    → view? (find str_discrete name (replace_user username new cur.users))
      ≡ stored_user cur.upstreams (row_of name (remap_rows username db_id now rows))
replaced_users cur old new username new_id group now db_id rows user keyed was mapped name =
    rw
      (
        find-replace_user username new cur.users name,
        row_of-remap_rows username name db_id now rows,
      )
      (elim (str_discrete name username)
        as (λ x.
          rename (elim x [ yes _ ↦ true | no _ ↦ false ]) new (find str_discrete name cur.users)
          ≡ stored_user cur.upstreams (
              remapped_row (elim x [ yes _ ↦ true | no _ ↦ false ]) db_id now (row_of name rows))) [
                | yes p ↦
                    let here : find str_discrete name cur.users ≡ some old =
                      ap (λ n. find str_discrete n cur.users) p ∙ user in
                    let (r, e, u, w) =
                      row_behind cur.upstreams (row_of name rows) old
                        (ap view? (sym here) ∙ was name) in
                    rw (here, e)
                      (remapped-view cur old new new_id group now db_id r keyed mapped u w)
                | no p ↦ kept_user (find str_discrete name cur.users) (row_of name rows) (was name)
              ])
  where
    kept_user :
        (o : Option ResolvedUser) (r : Option LocalUser)
        → view? o ≡ stored_user cur.upstreams r
        → rename false new o ≡ stored_user cur.upstreams (remapped_row false db_id now r)
    kept_user none none h = h
    kept_user none (some r) h = h
    kept_user (some u) none h = h
    kept_user (some u) (some r) h = h
