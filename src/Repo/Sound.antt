-- ===== src/Repo/Sound.antt =====
-- The constraints that the tables of internal/repo keep, and how the row operations keep them.
pub mod Users
pub mod Proxies
pub mod Keys
use pio.Base.{
  ℕ, ◌≡◌, refl, Bool, true, false, Option, none, some, List, [], ◌∷◌, GoString, str_eq, ◌≤◌,
  str_discrete, arith, All, inl, inr, Bool-cases, ◌==◌, ◌||◌, ◌&&◌, not, if◌then◌else◌,
}
use pio.Model.{ApiKey, UpstreamProxy, LocalUser, source_manual}
pub use pio.Store.{mapped}
use pio.Store.{Tables, has_user}
use pio.Repo.Rows.{
  Rows, has_row, manual_name_taken, has_key, key_known, change_row, doomed_id, kept_rows, set_null,
  null_mappings,
}

abbrev pub UniqueIds : Rows → Type 0
UniqueIds [] = Unit
UniqueIds (u ∷ us) = (has_row u.id us ≡ false) × UniqueIds us

-- No two rows of source 'manual' have one manual_name.
abbrev pub UniqueNames : Rows → Type 0
UniqueNames [] = Unit
UniqueNames (u ∷ us) =
    (str_eq u.source source_manual ≡ true → manual_name_taken u.id u.manual_name us ≡ false)
    × UniqueNames us

abbrev pub UniqueUsers : List LocalUser → Type 0
UniqueUsers [] = Unit
UniqueUsers (u ∷ us) = (has_user u.username us ≡ false) × UniqueUsers us

abbrev pub MappingsOk : List LocalUser → Rows → Type 0
MappingsOk us rows = All (λ u. mapped u.upstream_proxy_id rows ≡ true) us

abbrev pub KeysOk : Rows → List ApiKey → Type 0
KeysOk rows keys = All (λ u. key_known u.source_api_key_id keys ≡ true) rows

-- The ids of the upstreams, the names of the manual ones and the user names are unique; each mapping
-- and each owning key refers to a row.
pub record IsSound (t : Tables) : Type 0 where
  pub ids : UniqueIds t.upstream_proxies
  pub names : UniqueNames t.upstream_proxies
  pub users : UniqueUsers t.local_users
  pub mappings : MappingsOk t.local_users t.upstream_proxies
  pub keys : KeysOk t.upstream_proxies t.api_keys

-- A function on rows that leaves what the constraints read.
abbrev pub KeepsKeys : (UpstreamProxy → UpstreamProxy) → Type 0
KeepsKeys f =
    (u : UpstreamProxy)
    → ((f u).id ≡ u.id)
      × ((f u).source ≡ u.source)
      × ((f u).source_api_key_id ≡ u.source_api_key_id)

abbrev pub KeepsNames : (UpstreamProxy → UpstreamProxy) → Type 0
KeepsNames f = (u : UpstreamProxy) → (f u).manual_name ≡ u.manual_name

module _ (id : GoString) (f : UpstreamProxy → UpstreamProxy) (keeps : KeepsKeys f) where
  pub has_row-change_row :
      (i : GoString) (us : Rows) → has_row i (change_row id f us) ≡ has_row i us
  unfolding has_row change_row
  has_row-change_row i [] = refl
  has_row-change_row i (u ∷ us) = ground (arith, keeps u, has_row-change_row i us)

  pub change_row-UniqueIds : (us : Rows) → UniqueIds us → UniqueIds (change_row id f us)
  unfolding change_row
  change_row-UniqueIds [] h = tt
  change_row-UniqueIds (u ∷ us) h =
      (ground (arith, keeps u, has_row-change_row u.id us, h.0), change_row-UniqueIds us h.1)

  pub change_row-KeysOk :
      (us : Rows) (keys : List ApiKey) → KeysOk us keys → KeysOk (change_row id f us) keys
  unfolding change_row
  change_row-KeysOk [] keys h = tt
  change_row-KeysOk (u ∷ us) keys h = (
    elim (Bool-cases (str_eq u.id id)) [ inl y ↦ rw (y) (rw (keeps u).2 h.0) | inr n ↦ rw n h.0 ],
    change_row-KeysOk us keys h.1,
  )

  pub change_row-MappingsOk :
      (users : List LocalUser) (us : Rows)
      → MappingsOk users us
      → MappingsOk users (change_row id f us)
  change_row-MappingsOk [] us h = tt
  change_row-MappingsOk (lu ∷ users) us h =
      (mapped_after lu.upstream_proxy_id h.0, change_row-MappingsOk users us h.1)
    where
      mapped_after :
          (o : Option GoString) → mapped o us ≡ true → mapped o (change_row id f us) ≡ true
      mapped_after none e = refl
      mapped_after (some i) e = rw (has_row-change_row i us) e
