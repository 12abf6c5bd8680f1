-- ===== src/Repo/Deleting.antt =====
-- The constraints under DELETE, whose foreign key sets the mappings to a deleted row to NULL.
use pio.Base.{
  ◌≡◌, refl, Bool, true, false, Option, none, some, List, [], ◌∷◌, GoString, arith, inl, inr,
  Bool-cases,
}
use pio.Model.{ApiKey, UpstreamProxy, LocalUser}
use pio.Store.{Tables, has_user}
use pio.Repo.Rows.{
  Rows, has_row, manual_name_taken, doomed_id, kept_rows, set_null, null_mappings, delete_rows,
}
use pio.Repo.Sound.{IsSound, UniqueIds, UniqueNames, UniqueUsers, MappingsOk, KeysOk, mapped}

module _ (p : UpstreamProxy → Bool) where
  has_row-kept_rows :
      (i : GoString) (us : Rows) → has_row i us ≡ false → has_row i (kept_rows p us) ≡ false
  unfolding has_row kept_rows
  has_row-kept_rows i [] h = refl
  has_row-kept_rows i (u ∷ us) h = ground (arith, has_row-kept_rows i us)

  kept_rows-UniqueIds : (us : Rows) → UniqueIds us → UniqueIds (kept_rows p us)
  unfolding kept_rows
  kept_rows-UniqueIds [] h = tt
  kept_rows-UniqueIds (u ∷ us) h = elim (Bool-cases (p u)) [
    | inl y ↦ rw y (kept_rows-UniqueIds us h.1)
    | inr n ↦ rw n (has_row-kept_rows u.id us h.0, kept_rows-UniqueIds us h.1)
  ]

  taken-kept_rows :
      (i n : GoString) (us : Rows)
      → manual_name_taken i n us ≡ false
      → manual_name_taken i n (kept_rows p us) ≡ false
  unfolding manual_name_taken kept_rows
  taken-kept_rows i n [] h = refl
  taken-kept_rows i n (u ∷ us) h = ground (arith, taken-kept_rows i n us)

  kept_rows-UniqueNames : (us : Rows) → UniqueNames us → UniqueNames (kept_rows p us)
  unfolding kept_rows
  kept_rows-UniqueNames [] h = tt
  kept_rows-UniqueNames (u ∷ us) h = elim (Bool-cases (p u)) [
    | inl y ↦ rw y (kept_rows-UniqueNames us h.1)
    | inr n ↦
        rw n (λ m. taken-kept_rows u.id u.manual_name us (h.0 m), kept_rows-UniqueNames us h.1)
  ]

  pub kept_rows-KeysOk :
      (us : Rows) (keys : List ApiKey) → KeysOk us keys → KeysOk (kept_rows p us) keys
  unfolding kept_rows
  kept_rows-KeysOk [] keys h = tt
  kept_rows-KeysOk (u ∷ us) keys h = elim (Bool-cases (p u)) [
    | inl y ↦ rw y (kept_rows-KeysOk us keys h.1)
    | inr n ↦ rw n (h.0, kept_rows-KeysOk us keys h.1)
  ]

  -- A row that is not deleted is there afterwards.
  has_row-survives :
      (i : GoString) (us : Rows)
      → has_row i us ≡ true
      → doomed_id p i us ≡ false
      → has_row i (kept_rows p us) ≡ true
  unfolding has_row doomed_id kept_rows
  has_row-survives i [] h d = h
  has_row-survives i (u ∷ us) h d = ground (arith, has_row-survives i us)

  mapped-set_null :
      (o : Option GoString) (us : Rows)
      → mapped o us ≡ true
      → mapped (set_null (λ i. doomed_id p i us) o) (kept_rows p us) ≡ true
  mapped-set_null none us h = refl
  mapped-set_null (some i) us h = elim (Bool-cases (doomed_id p i us)) [
    | inl y ↦ rw y refl
    | inr n ↦ rw n (has_row-survives i us h n)
  ]

  null_mappings-MappingsOk :
      (users : List LocalUser) (us : Rows)
      → MappingsOk users us
      → MappingsOk (null_mappings (λ i. doomed_id p i us) users) (kept_rows p us)
  unfolding null_mappings
  null_mappings-MappingsOk [] us h = tt
  null_mappings-MappingsOk (lu ∷ users) us h =
      (mapped-set_null lu.upstream_proxy_id us h.0, null_mappings-MappingsOk users us h.1)

has_user-null_mappings :
    (gone : GoString → Bool) (name : GoString) (users : List LocalUser)
    → has_user name (null_mappings gone users) ≡ has_user name users
unfolding null_mappings
has_user-null_mappings gone name [] = refl
has_user-null_mappings gone name (lu ∷ users) =
    ground (arith, has_user-null_mappings gone name users)

null_mappings-UniqueUsers :
    (gone : GoString → Bool) (users : List LocalUser)
    → UniqueUsers users
    → UniqueUsers (null_mappings gone users)
unfolding null_mappings
null_mappings-UniqueUsers gone [] h = tt
null_mappings-UniqueUsers gone (lu ∷ users) h = (
  rw (has_user-null_mappings gone lu.username users) h.0,
  null_mappings-UniqueUsers gone users h.1,
)

pub delete_rows-IsSound :
    (p : UpstreamProxy → Bool) (t : Tables) → IsSound t → IsSound (delete_rows p t)
unfolding delete_rows
delete_rows-IsSound p t s = record {
  ids = kept_rows-UniqueIds p t.upstream_proxies s.ids;
  names = kept_rows-UniqueNames p t.upstream_proxies s.names;
  users = null_mappings-UniqueUsers _ t.local_users s.users;
  mappings = null_mappings-MappingsOk p t.local_users t.upstream_proxies s.mappings;
  keys = kept_rows-KeysOk p t.upstream_proxies t.api_keys s.keys;
}
