-- ===== src/Repo/Secrets.antt =====
-- The passwords that internal/repo stores encrypted are the ones that the daemon reads back.
use pio.Base.{
  ℕ, ◌≡◌, ◌≤◌, refl, subst, Bool, true, false, not, Option, some, List, [], ◌∷◌, GoString,
  str_discrete, str_eq, arith, inl, inr, length, Option-cases,
}
use pio.Base.Map.{Map, find, put, find-put}
use pio.Model.{UpstreamProxy, ResolvedUpstream}
use pio.Store.{
  Tables, ok, ok_eq, scanned, resolve_password, resolve_rows, list_all_resolved_upstreams,
  load_universal_proxy_password, upstream_password_aad, universal_proxy_password_aad, Result-cases,
}
use pio.Crypto.{Sealing, Unsealing, IsAead, encrypt, decrypt, column_aad, decrypt-encrypt}
use pio.Repo.Manual.{ManualProxyInput, insert_manual_proxy, manual_row, password_column}
use pio.Repo.Config.{set_universal_proxy_password, has_universal_proxy_password}
use pio.Repo.Sound.Proxies.{insert_manual_proxy-Inserted}

-- A listing that succeeds has resolved the rows.
listed_rows :
    (opens : GoString → GoString → Option GoString) (fails : Bool) (t : Tables)
    (ups : Map GoString ResolvedUpstream)
    → list_all_resolved_upstreams opens fails t ≡ ok ups
    → resolve_rows opens t.upstream_proxies ≡ ok ups
unfolding list_all_resolved_upstreams
listed_rows opens true t ups h = absurd (ground arith)
listed_rows opens false t ups h = h

-- crypto.Encrypt and crypto.Decrypt of a column under the master key.
abbrev pub seal_column : Sealing → GoString → GoString → GoString → GoString → Option GoString
seal_column seal key nonce aad plaintext = encrypt seal key (some nonce) plaintext (column_aad aad)

abbrev pub open_column : Unsealing → GoString → GoString → GoString → Option GoString
open_column unseal key aad enc = decrypt unseal key enc (column_aad aad)

module _ (opens : GoString → GoString → Option GoString) where
  -- A ciphertext that is not empty resolves to what it decrypts to.
  resolve-opened :
      (aad enc plaintext : GoString)
      → opens aad enc ≡ some plaintext
      → 1 ≤ length enc
      → resolve_password opens aad enc ≡ ok plaintext
  unfolding resolve_password
  resolve-opened aad [] plaintext h l = absurd (omega arith)
  resolve-opened aad (b ∷ bs) plaintext h l = ground arith

  -- The first row of a listing is found under its id with its password.
  resolve_rows-first :
      (u : UpstreamProxy) (us : List UpstreamProxy) (password : GoString)
      (ups : Map GoString ResolvedUpstream)
      → resolve_rows opens (u ∷ us) ≡ ok ups
      → resolve_password opens upstream_password_aad u.encrypted_password ≡ ok password
      → find str_discrete u.id ups ≡ some (record { upstream = scanned u; password = password })
  unfolding resolve_rows
  resolve_rows-first u us password ups h r = elim (Result-cases (resolve_rows opens us)) [
    | inr (e, bad) ↦ absurd (ground arith)
    | inl (out, read) ↦
        let resolved : ResolvedUpstream = record { upstream = scanned u; password = password } in
        let made : put str_discrete u.id resolved out ≡ ups = ground arith in
        subst (λ m. find str_discrete u.id m ≡ some resolved) made
          (ground (arith, find-put str_discrete u.id u.id resolved out))
  ]

module _ (seal : Sealing) (unseal : Unsealing) (aead : IsAead seal unseal) (key nonce : GoString)
    (twelve : length nonce ≡ 12) where
  -- A ciphertext that a column gets is read back as its text.
  resolve-sealed :
      (aad plaintext enc : GoString)
      → seal_column seal key nonce aad plaintext ≡ some enc
      → (resolve_password (open_column unseal key) aad enc ≡ ok plaintext) × (1 ≤ length enc)
  resolve-sealed aad plaintext enc h =
      let (opened, size) =
        decrypt-encrypt seal unseal aead key nonce plaintext (column_aad aad) enc twelve h in
      (resolve-opened (open_column unseal key) aad enc plaintext opened size, size)

  resolve-password_column :
      (password enc : GoString)
      → password_column (seal_column seal key nonce) [] password ≡ ok enc
      → resolve_password (open_column unseal key) upstream_password_aad enc ≡ ok password
  unfolding resolve_password
  resolve-password_column [] enc h =
      subst (λ e. resolve_password (open_column unseal key) upstream_password_aad e ≡ ok [])
        (ok_eq h) refl
  resolve-password_column (b ∷ bs) enc h =
      elim (Option-cases (seal_column seal key nonce upstream_password_aad (b ∷ bs))) [
        | inl bad ↦ absurd (ground arith)
        | inr (e, sealed) ↦ (resolve-sealed upstream_password_aad (b ∷ bs) enc (ground arith)).0
      ]

  -- A stored manual proxy is resolved, by every listing that succeeds, to the row and the
  -- password that were entered, under a cipher that keeps the laws of AES-GCM.
  pub manual_proxy_resolves :
      (fails list_fails : Bool) (random : Option (List ℕ)) (now : ℕ) (input : ManualProxyInput)
      (t t' : Tables) (id : GoString) (ups : Map GoString ResolvedUpstream)
      → insert_manual_proxy (seal_column seal key nonce) fails random now input t ≡ ok (id, t')
      → list_all_resolved_upstreams (open_column unseal key) list_fails t' ≡ ok ups
      → find str_discrete id ups
        ≡ some (record { upstream = manual_row id input [] now; password = input.password })
  manual_proxy_resolves fails list_fails random now input t t' id ups h l =
      let (enc, v, sealed, i) =
        insert_manual_proxy-Inserted (seal_column seal key nonce) fails random now input t t' id
          h in
      let row = manual_row id input enc now in
      let resolved = resolve-password_column input.password enc sealed in
      resolve_rows-first (open_column unseal key) row t.upstream_proxies input.password ups
        (subst (λ (x : Tables). resolve_rows (open_column unseal key) x.upstream_proxies ≡ ok ups)
          i.result (listed_rows (open_column unseal key) list_fails t' ups l))
        resolved

  -- After SetUniversalProxyPassword, LoadUniversalProxyPassword returns the password that was set, and
  -- HasUniversalProxyPassword tells whether it was not empty, under a cipher that keeps the laws of
  -- AES-GCM.
  pub universal_password_loads :
      (fails : Bool) (password : GoString) (t t' : Tables)
      → set_universal_proxy_password (seal_column seal key nonce) fails password t ≡ ok t'
      → (load_universal_proxy_password (open_column unseal key) false t' ≡ ok password)
        × (has_universal_proxy_password false t' ≡ ok (not (str_eq password [])))
  unfolding set_universal_proxy_password load_universal_proxy_password has_universal_proxy_password
      resolve_password
  universal_password_loads fails [] t t' h = ground arith
  universal_password_loads fails (b ∷ bs) t t' h =
      elim (Option-cases (seal_column seal key nonce universal_proxy_password_aad (b ∷ bs))) [
        | inl bad ↦ absurd (ground arith)
        | inr (enc, sealed) ↦
            let (resolved, size) =
              resolve-sealed universal_proxy_password_aad (b ∷ bs) enc sealed in
            let made : enc ≡ t'.universal_proxy_password_enc = ground arith in
            (
              subst
                  (λ e.
                    resolve_password (open_column unseal key) universal_proxy_password_aad e
                    ≡ ok (b ∷ bs))
                  made resolved,
              ground (arith, size),
            )
      ]
