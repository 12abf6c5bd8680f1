-- ===== src/Repo/Sound/Keys.antt =====
-- The operations on API keys, and the deletions, keep the constraints.
use pio.Base.{
  ℕ, ◌≡◌, refl, subst, Bool, true, false, Option, none, some, List, [], ◌∷◌, ◌++◌, GoString, str_eq,
  arith, inl, inr, Option-cases, ◌==◌, ◌∙◌,
}
use pio.Model.{ApiKey, ReferencingUser}
use pio.Store.{Tables, ok, ok_eq, Result-cases}
use pio.Repo.Rows.{
  Rows, row_of, get_upstream, has_key, key_known, delete_rows, has_referencing_users_for_upstream,
  referencing_users,
}
use pio.Repo.Manual.{is_manual_id, unless_used, delete_manual_proxy}
use pio.Repo.Keys.{
  KeyDeletion, of_key, is_synced, insert_api_key, change_key, mark_api_key_sync_success,
  mark_api_key_sync_error, drop_key, key_referenced, key_delete_entry, delete_api_key,
  has_referencing_users_for_key, unless_key_used, api_key_aad,
}
use pio.Repo.Sound.{IsSound, KeysOk}
use pio.Repo.Deleting.{delete_rows-IsSound}

with_keys :
    (t : Tables) (keys : List ApiKey)
    → IsSound t
    → KeysOk t.upstream_proxies keys
    → IsSound (record t { api_keys = keys })
with_keys t keys s k = record {
  ids = s.ids;
  names = s.names;
  users = s.users;
  mappings = s.mappings;
  keys = k;
}

-- Where every key that was there is there still.
more_keys :
    (keys keys' : List ApiKey)
    → ((k : ℕ) → has_key k keys ≡ true → has_key k keys' ≡ true)
    → (rows : Rows) → KeysOk rows keys
    → KeysOk rows keys'
more_keys keys keys' more [] h = tt
more_keys keys keys' more (u ∷ rows) h =
    (known u.source_api_key_id h.0, more_keys keys keys' more rows h.1)
  where
    known : (o : Option ℕ) → key_known o keys ≡ true → key_known o keys' ≡ true
    known none e = refl
    known (some k) e = more k e

has_key-change_key :
    (id : ℕ) (f : ApiKey → ApiKey)
    → ((a : ApiKey) → (f a).id ≡ a.id)
    → (k : ℕ) (keys : List ApiKey) → has_key k (change_key id f keys) ≡ has_key k keys
unfolding has_key change_key
has_key-change_key id f same k [] = refl
has_key-change_key id f same k (a ∷ keys) =
    ground (arith, same a, has_key-change_key id f same k keys)

change_key-IsSound :
    (id : ℕ) (f : ApiKey → ApiKey)
    → ((a : ApiKey) → (f a).id ≡ a.id)
    → (t : Tables) → IsSound t
    → IsSound (record t { api_keys = change_key id f t.api_keys })
change_key-IsSound id f same t s = with_keys t (change_key id f t.api_keys) s (
    more_keys t.api_keys (change_key id f t.api_keys)
      (λ k h. has_key-change_key id f same k t.api_keys ∙ h) t.upstream_proxies s.keys)

pub mark_api_key_sync_success-IsSound :
    (fails : Bool) (id at : ℕ) (t t' : Tables)
    → mark_api_key_sync_success fails id at t ≡ ok t'
    → IsSound t
    → IsSound t'
unfolding mark_api_key_sync_success
mark_api_key_sync_success-IsSound true id at t t' h s = absurd (ground arith)
mark_api_key_sync_success-IsSound false id at t t' h s =
    subst IsSound (ok_eq h) (change_key-IsSound id _ (λ a. refl) t s)

pub mark_api_key_sync_error-IsSound :
    (fails : Bool) (id : ℕ) (message : GoString) (t t' : Tables)
    → mark_api_key_sync_error fails id message t ≡ ok t'
    → IsSound t
    → IsSound t'
unfolding mark_api_key_sync_error
mark_api_key_sync_error-IsSound true id message t t' h s = absurd (ground arith)
mark_api_key_sync_error-IsSound false id message t t' h s =
    subst IsSound (ok_eq h) (change_key-IsSound id _ (λ a. refl) t s)

pub insert_api_key-IsSound :
    (encrypt : GoString → GoString → Option GoString) (fails : Bool) (id now : ℕ)
    (label plain : GoString) (t t' : Tables) (given : ℕ)
    → insert_api_key encrypt fails id now label plain t ≡ ok (given, t')
    → IsSound t
    → IsSound t'
unfolding insert_api_key has_key
insert_api_key-IsSound encrypt fails id now label plain t t' given h s =
    elim (Option-cases (encrypt api_key_aad plain)) [
      | inl bad ↦ absurd (ground arith)
      | inr (enc, e) ↦
          let row : ApiKey = record {
            id = id;
            label = label;
            encrypted_key = enc;
            added_at = now;
            last_synced_at = none;
            last_sync_error = [];
            active = true;
          } in
          let made : record t { api_keys = row ∷ t.api_keys } ≡ t' = ground arith in
          subst IsSound made (
            with_keys t _ s (
              more_keys t.api_keys (row ∷ t.api_keys) (λ k y. ground arith) t.upstream_proxies
                s.keys))
    ]

has_key-drop_key :
    (id k : ℕ) (keys : List ApiKey)
    → (k == id) ≡ false
    → has_key k keys ≡ true
    → has_key k (drop_key id keys) ≡ true
unfolding has_key drop_key
has_key-drop_key id k [] ne e = e
has_key-drop_key id k (a ∷ keys) ne e = ground (arith, has_key-drop_key id k keys)

-- A key that no row refers to can go.
drop_key-KeysOk :
    (id : ℕ) (rows : Rows) (keys : List ApiKey)
    → key_referenced id rows ≡ false
    → KeysOk rows keys
    → KeysOk rows (drop_key id keys)
unfolding key_referenced
drop_key-KeysOk id [] keys n h = tt
drop_key-KeysOk id (u ∷ rows) keys n h =
    (known u.source_api_key_id (ground arith) h.0, drop_key-KeysOk id rows keys (ground arith) h.1)
  where
    known :
        (o : Option ℕ)
        → elim o as (λ _. Bool) [ none ↦ false | some k ↦ k == id ] ≡ false
        → key_known o keys ≡ true
        → key_known o (drop_key id keys) ≡ true
    known none f e = refl
    known (some k) f e = has_key-drop_key id k keys f e

unless_key_used-free : (refs : List ReferencingUser) → unless_key_used refs ≡ ok tt → refs ≡ []
unless_key_used-free [] h = refl
unless_key_used-free (r ∷ refs) h = absurd (ground arith)

unless_used-free : (refs : List ReferencingUser) → unless_used refs ≡ ok tt → refs ≡ []
unless_used-free [] h = refl
unless_used-free (r ∷ refs) h = absurd (ground arith)

-- A DeleteApiKey that succeeds: its check saw no user, and its transaction has deleted.
pub record KeyDeleted (run : KeyDeletion) (id : ℕ) (seen t t' : Tables) : Type 0 where
  pub unseen : referencing_users (of_key id) seen.upstream_proxies seen.local_users ≡ []
  pub unowned : key_referenced id (delete_rows (is_synced id) t).upstream_proxies ≡ false
  pub made :
      let gone = delete_rows (is_synced id) t in
      record gone {
        api_keys = drop_key id gone.api_keys;
        audit_log = gone.audit_log ++ key_delete_entry run.now ∷ [];
      }
      ≡ t'

pub delete_api_key-KeyDeleted :
    (run : KeyDeletion) (id : ℕ) (seen t t' : Tables)
    → delete_api_key run id seen t ≡ ok t'
    → KeyDeleted run id seen t t'
unfolding delete_api_key has_referencing_users_for_key
delete_api_key-KeyDeleted run id seen t t' h =
    let refs = referencing_users (of_key id) seen.upstream_proxies seen.local_users in
    elim (Result-cases (unless_key_used refs)) [
      | inr (e, bad) ↦ absurd (ground arith)
      | inl (tt, free) ↦ record {
        unseen = unless_key_used-free refs free;
        unowned = ground arith;
        made = ground arith;
      }
    ]

pub delete_api_key-IsSound :
    (run : KeyDeletion) (id : ℕ) (seen t t' : Tables)
    → delete_api_key run id seen t ≡ ok t'
    → IsSound t
    → IsSound t'
delete_api_key-IsSound run id seen t t' h s =
    let d = delete_api_key-KeyDeleted run id seen t t' h in
    let gone = delete_rows (is_synced id) t in
    let sound = delete_rows-IsSound (is_synced id) t s in
    subst IsSound d.made (record {
      ids = sound.ids;
      names = sound.names;
      users = sound.users;
      mappings = sound.mappings;
      keys = drop_key-KeysOk id gone.upstream_proxies gone.api_keys d.unowned sound.keys;
    })

-- A DeleteManualProxy that succeeds: its check saw no user, and the row is deleted.
pub delete_manual_proxy-deleted :
    (get_fails refs_fail fails : Bool) (id : GoString) (read seen t t' : Tables)
    → delete_manual_proxy get_fails refs_fail fails id read seen t ≡ ok t'
    → (referencing_users (λ u. str_eq u.id id) seen.upstream_proxies seen.local_users ≡ [])
      × (delete_rows (is_manual_id id) t ≡ t')
unfolding delete_manual_proxy get_upstream has_referencing_users_for_upstream
delete_manual_proxy-deleted get_fails refs_fail fails id read seen t t' h =
    let refs = referencing_users (λ u. str_eq u.id id) seen.upstream_proxies seen.local_users in
    elim (Option-cases (row_of id read.upstream_proxies)) [
      | inl bad ↦ absurd (ground arith)
      | inr (cur, found) ↦ elim (Result-cases (unless_used refs)) [
        | inr (e, bad) ↦ absurd (ground arith)
        | inl (tt, free) ↦ (unless_used-free refs free, ground arith)
      ]
    ]

pub delete_manual_proxy-IsSound :
    (get_fails refs_fail fails : Bool) (id : GoString) (read seen t t' : Tables)
    → delete_manual_proxy get_fails refs_fail fails id read seen t ≡ ok t'
    → IsSound t
    → IsSound t'
delete_manual_proxy-IsSound get_fails refs_fail fails id read seen t t' h s =
    subst IsSound (delete_manual_proxy-deleted get_fails refs_fail fails id read seen t t' h).1
      (delete_rows-IsSound (is_manual_id id) t s)
