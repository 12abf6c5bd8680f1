-- ===== src/Store.antt =====
-- The database as the routing core uses it: internal/repo/upstreams.go, users.go and settings.go.
-- A query reads or writes the tables as its SQL text says. The driver, which may fail at any call,
-- and the AES-GCM decryption are arguments.
use pio.Base.{
  ℕ, Bool, true, false, Option, none, some, List, [], ◌∷◌, GoString, str_discrete, ite, codes, ◌≡◌,
  ◌⊎◌, inl, inr, refl, if◌then◌else◌, str_eq, ◌||◌, not,
}
use pio.Base.Map.{Map, put}
use pio.Model.{
  ApiKey, UpstreamProxy, LocalUser, ReferencingUser, ResolvedUpstream, AuditLogEntry, Settings,
}

-- The field of a ManualProxyInput that validate rejects.
pub data InvalidField : Type 0 where
  name_required host_required port_out_of_range bad_protocol password_requires_username :
      InvalidField

pub data Error : Type 0 where
  not_found not_hydrated storage decryption empty_upstream_id nil_dereference : Error
  no_upstream : GoString → Error
  constraint encryption upstream_not_manual manual_name_in_use : Error
  invalid_manual_proxy : InvalidField → Error
  key_in_use upstream_in_use : List ReferencingUser → Error
  fetch_failed : GoString → Error

pub data Result {ℓ} (A : Type ℓ) : Type ℓ where
  err : Error → Result A
  ok : A → Result A

infixl 5 ◌>>=◌
abbrev pub ◌>>=◌ {ℓ κ} : {A : Type ℓ} {B : Type κ} → Result A → (A → Result B) → Result B
err e >>= next = err e
ok a >>= next = next a

-- A chain that ends well began well.
pub bind-ok {ℓ κ} :
    {A : Type ℓ} {B : Type κ} (first : Result A) (next : A → Result B) {out : B}
    → (first >>= next) ≡ ok out
    → (x : A) × (first ≡ ok x) × (next x ≡ ok out)
bind-ok (err e) next h = cc
bind-ok (ok x) next h = (x, refl, h)

pub ok_eq {ℓ} : {A : Type ℓ} {a b : A} → ok a ≡ ok b → a ≡ b
ok_eq e = cc

-- A call of the driver: it fails, or its effect is `a`.
abbrev pub driver {ℓ} : {A : Type ℓ} → Bool → A → Result A
driver true a = err storage
driver false a = ok a

pub record Tables : Type 0 where
  pub api_keys : List ApiKey
  pub upstream_proxies : List UpstreamProxy
  pub local_users : List LocalUser
  pub settings : Settings
  pub universal_proxy_password_enc : GoString
  pub audit_log : List AuditLogEntry

abbrev pub upstream_password_aad : GoString
upstream_password_aad = codes "upstream_proxies.encrypted_password"

abbrev pub universal_proxy_password_aad : GoString
universal_proxy_password_aad = codes "settings.universal_proxy_password_enc"

-- UPDATE local_users SET upstream_proxy_id = ?, broken = ?, updated_at = ? WHERE username = ?
abbrev pub remap_rows : GoString → Option GoString → ℕ → List LocalUser → List LocalUser
remap_rows name id now [] = []
remap_rows name id now (u ∷ us) =
    ite (str_discrete u.username name)
      (record u {
        upstream_proxy_id = id;
        broken = elim id [ none ↦ true | some _ ↦ false ];
        updated_at = now;
      })
      u
    ∷ remap_rows name id now us

abbrev pub has_user : GoString → List LocalUser → Bool
has_user name [] = false
has_user name (u ∷ us) = ite (str_discrete u.username name) true (has_user name us)

-- A row with the id.
unfoldable pub has_row : GoString → List UpstreamProxy → Bool
has_row id [] = false
has_row id (u ∷ us) = str_eq u.id id || has_row id us

-- NULL or the id of a row: the foreign key of local_users.
abbrev pub mapped : Option GoString → List UpstreamProxy → Bool
mapped none rows = true
mapped (some id) rows = has_row id rows

-- UpdateLocalUserMapping: an affected row needs a mapping that the foreign key allows, and no affected
-- row is ErrNotFound.
unfoldable pub update_local_user_mapping :
    Bool → GoString → Option GoString → ℕ → Tables → Result Tables
update_local_user_mapping fails name id now t = do
  t' ← driver fails (record t { local_users = remap_rows name id now t.local_users })
  if not (has_user name t.local_users)
      then err not_found
      else if mapped id t.upstream_proxies
      then ok t'
      else err constraint

-- scanUpstream: the ciphertext is handed out apart, and stays out of the row.
abbrev pub scanned : UpstreamProxy → UpstreamProxy
scanned u = record u { encrypted_password = [] }

-- `decrypt` is crypto.Decrypt under the master key: an AAD and a ciphertext.
module _ (decrypt : GoString → GoString → Option GoString) where
  abbrev decrypted : GoString → GoString → Result GoString
  decrypted aad enc = elim (decrypt aad enc) [ none ↦ err decryption | some pt ↦ ok pt ]

  -- An empty ciphertext means that there is no password.
  unfoldable pub resolve_password : GoString → GoString → Result GoString
  resolve_password aad [] = ok []
  resolve_password aad (b ∷ bs) = decrypted aad (b ∷ bs)

  -- The loop of ListAllResolvedUpstreams over the rows.
  unfoldable pub resolve_rows : List UpstreamProxy → Result (Map GoString ResolvedUpstream)
  unfolding resolve_password
  resolve_rows [] = ok []
  resolve_rows (u ∷ us) = do
    password ← resolve_password upstream_password_aad u.encrypted_password
    out ← resolve_rows us
    ok (put str_discrete u.id (record { upstream = scanned u; password = password }) out)

  -- A row with its password, over the rows behind it.
  pub resolve_rows-cons :
      (u : UpstreamProxy) (us : List UpstreamProxy) {ups : Map GoString ResolvedUpstream}
      → resolve_rows (u ∷ us) ≡ ok ups
      → (password : GoString) × (out : Map GoString ResolvedUpstream) × (resolve_rows us ≡ ok out)
        × (ups ≡ put str_discrete u.id (record { upstream = scanned u; password = password }) out)
  unfolding resolve_rows resolve_password
  resolve_rows-cons u us h =
      let (password, _, h') =
        bind-ok (resolve_password upstream_password_aad u.encrypted_password)
          (λ password. do
            out ← resolve_rows us
            ok (put str_discrete u.id (record { upstream = scanned u; password = password }) out))
          h in
      let (out, read, h'') =
        bind-ok (resolve_rows us)
          (λ out.
            ok (put str_discrete u.id (record { upstream = scanned u; password = password }) out))
          h' in
      (password, out, read, cc)

  unfoldable pub list_all_resolved_upstreams :
      Bool → Tables → Result (Map GoString ResolvedUpstream)
  list_all_resolved_upstreams fails t = do rows ← driver fails t.upstream_proxies; resolve_rows rows

  unfoldable pub load_universal_proxy_password : Bool → Tables → Result GoString
  unfolding resolve_password
  load_universal_proxy_password fails t = do
    enc ← driver fails t.universal_proxy_password_enc
    resolve_password universal_proxy_password_aad enc

pub Result-cases {ℓ} :
    {A : Type ℓ} (r : Result A) → ((a : A) × (r ≡ ok a)) ⊎ ((e : Error) × (r ≡ err e))
Result-cases (ok a) = inl (a, refl)
Result-cases (err e) = inr (e, refl)
