-- ===== src/Repo/Sound/Proxies.antt =====
-- The operations on upstreams keep the constraints.
use pio.Base.{
  ℕ, ◌≡◌, refl, subst, sym, Bool, true, false, Option, some, List, [], GoString, str_eq, arith, inl,
  inr, Bool-cases, Option-cases, ap, ◌∙◌,
}
use pio.Base.Int.{ℤ}
use pio.Model.{UpstreamProxy, default_upstream_id, source_manual}
use pio.Store.{Tables, ok, ok_eq, Result-cases}
use pio.Repo.Rows.{row_of, get_upstream, has_row, insert_row, change_row, manual_name_taken}
use pio.Repo.Manual.{
  ManualProxyInput, validate, new_manual_id, manual_row, password_column, insert_manual_proxy,
  rewrite, update_manual_proxy, default_row, ensure_default_upstream, update_upstream_latency,
  update_upstream_display_name,
}
use pio.Repo.Sound.{
  IsSound, KeepsKeys, KeepsNames, change_row-UniqueIds, change_row-KeysOk, change_row-MappingsOk,
  UniqueNames,
}
use pio.Repo.Renaming.{change_row-UniqueNames, rewrite-UniqueNames}
use pio.Repo.Inserting.{Inserted, insert_row-Inserted, Inserted-IsSound}

-- A write to the rows of one id, which keeps what the constraints read but for the names.
changed-IsSound :
    (id : GoString) (f : UpstreamProxy → UpstreamProxy) (keeps : KeepsKeys f) (t : Tables)
    → UniqueNames (change_row id f t.upstream_proxies)
    → IsSound t
    → IsSound (record t { upstream_proxies = change_row id f t.upstream_proxies })
changed-IsSound id f keeps t names s = record {
  ids = change_row-UniqueIds id f keeps t.upstream_proxies s.ids;
  names = names;
  users = s.users;
  mappings = change_row-MappingsOk id f keeps t.local_users t.upstream_proxies s.mappings;
  keys = change_row-KeysOk id f keeps t.upstream_proxies t.api_keys s.keys;
}

pub change_row-IsSound :
    (id : GoString) (f : UpstreamProxy → UpstreamProxy)
    → KeepsKeys f
    → KeepsNames f
    → (t : Tables) → IsSound t
    → IsSound (record t { upstream_proxies = change_row id f t.upstream_proxies })
change_row-IsSound id f keeps names t s =
    changed-IsSound id f keeps t
      (change_row-UniqueNames id f keeps names t.upstream_proxies s.names) s

rewrite-keeps : (input : ManualProxyInput) (enc : GoString) → KeepsKeys (rewrite input enc)
rewrite-keeps input enc u = (ground arith, ground arith, ground arith)

pub insert_manual_proxy-Inserted :
    (encrypt : GoString → GoString → Option GoString) (fails : Bool) (random : Option (List ℕ))
    (now : ℕ) (input : ManualProxyInput) (t t' : Tables) (id : GoString)
    → insert_manual_proxy encrypt fails random now input t ≡ ok (id, t')
    → (enc : GoString) × (validate input ≡ ok tt)
      × (password_column encrypt [] input.password ≡ ok enc)
      × Inserted (manual_row id input enc now) t t'
unfolding insert_manual_proxy
insert_manual_proxy-Inserted encrypt fails random now input t t' id h =
    elim (Result-cases (validate input)) [
      | inr (e, bad) ↦ absurd (ground arith)
      | inl (tt, valid) ↦ elim (Result-cases (new_manual_id random)) [
        | inr (e, bad) ↦ absurd (ground arith)
        | inl (i, made) ↦ elim (Result-cases (password_column encrypt [] input.password)) [
          | inr (e, bad) ↦ absurd (ground arith)
          | inl (enc, sealed) ↦ (
            enc,
            valid,
            sealed,
            insert_row-Inserted (manual_row id input enc now) t t'
                (elim (Result-cases (insert_row (manual_row i input enc now) t)) [
                  | inr (e, bad) ↦ absurd (ground arith)
                  | inl (stored, done) ↦
                      let same : i ≡ id = ground arith in
                      let last : stored ≡ t' = ground arith in
                      subst (λ k. insert_row (manual_row k input enc now) t ≡ ok t') same
                        (done ∙ ap ok last)
                ]),
          )
        ]
      ]
    ]

-- What UpdateManualProxy has done.
pub record Rewritten (encrypt : GoString → GoString → Option GoString) (id : GoString)
    (input : ManualProxyInput) (t t' : Tables) : Type 0 where
  pub cur : UpstreamProxy
  pub enc : GoString
  pub valid : validate input ≡ ok tt
  pub found : row_of id t.upstream_proxies ≡ some cur
  pub manual : str_eq cur.source source_manual ≡ true
  pub sealed : password_column encrypt cur.encrypted_password input.password ≡ ok enc
  pub name_free : manual_name_taken id input.name t.upstream_proxies ≡ false
  pub result :
      t' ≡ record t { upstream_proxies = change_row id (rewrite input enc) t.upstream_proxies }

pub update_manual_proxy-Rewritten :
    (encrypt : GoString → GoString → Option GoString) (get_fails fails : Bool) (id : GoString)
    (input : ManualProxyInput) (t t' : Tables)
    → update_manual_proxy encrypt get_fails fails id input t ≡ ok t'
    → Rewritten encrypt id input t t'
unfolding update_manual_proxy get_upstream
update_manual_proxy-Rewritten encrypt get_fails fails id input t t' h =
    elim (Result-cases (validate input)) [
      | inr (e, bad) ↦ absurd (ground arith)
      | inl (tt, valid) ↦ elim (Option-cases (row_of id t.upstream_proxies)) [
        | inl bad ↦ absurd (ground arith)
        | inr (cur, found) ↦
            elim (Result-cases (password_column encrypt cur.encrypted_password input.password)) [
              | inr (e, bad) ↦ absurd (ground arith)
              | inl (enc, sealed) ↦ record {
                cur = cur;
                enc = enc;
                valid = valid;
                found = found;
                manual = ground arith;
                sealed = sealed;
                name_free = ground arith;
                result = ground arith;
              }
            ]
      ]
    ]

pub Rewritten-IsSound :
    (encrypt : GoString → GoString → Option GoString) (id : GoString) (input : ManualProxyInput)
    (t t' : Tables)
    → Rewritten encrypt id input t t'
    → IsSound t
    → IsSound t'
Rewritten-IsSound encrypt id input t t' r s = subst IsSound (sym r.result) (
    changed-IsSound id (rewrite input r.enc) (rewrite-keeps input r.enc) t
      (rewrite-UniqueNames id input r.enc t.upstream_proxies r.name_free s.names) s)

pub update_upstream_latency-IsSound :
    (fails : Bool) (id : GoString) (ms : ℤ) (at : ℕ) (t t' : Tables)
    → update_upstream_latency fails id ms at t ≡ ok t'
    → IsSound t
    → IsSound t'
unfolding update_upstream_latency
update_upstream_latency-IsSound true id ms at t t' h s = absurd (ground arith)
update_upstream_latency-IsSound false id ms at t t' h s =
    subst IsSound (ok_eq h) (change_row-IsSound id _ (λ u. (refl, refl, refl)) (λ u. refl) t s)

pub update_upstream_display_name-IsSound :
    (fails : Bool) (id name : GoString) (t t' : Tables)
    → update_upstream_display_name fails id name t ≡ ok t'
    → IsSound t
    → IsSound t'
unfolding update_upstream_display_name
update_upstream_display_name-IsSound true id name t t' h s = absurd (ground arith)
update_upstream_display_name-IsSound false id name t t' h s =
    let f : UpstreamProxy → UpstreamProxy = λ u. record u { display_name = name } in
    let made : record t { upstream_proxies = change_row id f t.upstream_proxies } ≡ t' =
      ground arith in
    subst IsSound made (change_row-IsSound id f (λ u. (refl, refl, refl)) (λ u. refl) t s)

pub ensure_default_upstream-IsSound :
    (fails : Bool) (now : ℕ) (t t' : Tables)
    → ensure_default_upstream fails now t ≡ ok t'
    → IsSound t
    → IsSound t'
unfolding ensure_default_upstream
ensure_default_upstream-IsSound true now t t' h s = absurd (ground arith)
ensure_default_upstream-IsSound false now t t' h s =
    elim (Bool-cases (has_row default_upstream_id t.upstream_proxies)) [
      | inl y ↦ subst IsSound (ground arith) s
      | inr n ↦
          Inserted-IsSound (default_row now) t t'
            (insert_row-Inserted (default_row now) t t' (ground arith)) s
    ]
