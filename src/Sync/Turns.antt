-- ===== src/Sync/Turns.antt =====
-- What one turn of the loop of a sync has done: it refreshed a known row, or inserted a new one.
use pio.Base.{
  ℕ, ◌≡◌, Bool, true, false, Option, none, some, List, GoString, str_discrete, arith, inl, inr,
  Option-cases, Bool-cases,
}
use pio.Base.Map.{find}
use pio.Store.{Tables, ok, bind-ok, upstream_password_aad}
use pio.Repo.Rows.{insert_row, change_row}
use pio.Repo.Inserting.{Inserted, insert_row-Inserted}
use pio.Sync.{SeqAllocator, next, format_display_name}
use pio.Sync.Reconcile.{
  Proxy, ExistingUpstream, Existing, SyncRun, refreshed, new_row, insert_named, insert_new, id_of,
  sync_proxy,
}

module _ (sha1 : List ℕ → List ℕ) (encrypt : ℕ → GoString → GoString → Option GoString)
    (run : SyncRun) (key : ℕ) (sanitized_label : GoString) (existing : Existing) where
  pub data Turn (i : ℕ) (p : Proxy) (s s' : SeqAllocator × Tables) : Type 0 where
    refreshing :
        (row : ExistingUpstream) (enc : GoString)
        → encrypt i upstream_password_aad p.password ≡ some enc
        → find str_discrete (id_of sha1 p) existing ≡ some row
        → s' ≡ (
          s.0,
          record s.1 {
            upstream_proxies =
                change_row
                  (id_of sha1 p)
                  (refreshed p enc sanitized_label row.display_name run.now)
                  s.1.upstream_proxies;
          },
        )
        → Turn i p s s'
    inserting :
        (n : ℕ) (enc : GoString)
        → encrypt i upstream_password_aad p.password ≡ some enc
        → find str_discrete (id_of sha1 p) existing ≡ none
        → next p.country_code s.0 ≡ some (n, s'.0)
        → Inserted
            (new_row
              (id_of sha1 p)
              key
              p
              enc
              (format_display_name p.country_code sanitized_label n)
              run.now)
            s.1
            s'.1
        → Turn i p s s'

  insert_named-Turn :
      (i : ℕ) (p : Proxy) (enc : GoString) (fails : Bool) (n : ℕ) (a' : SeqAllocator)
      (s s' : SeqAllocator × Tables)
      → encrypt i upstream_password_aad p.password ≡ some enc
      → find str_discrete (id_of sha1 p) existing ≡ none
      → next p.country_code s.0 ≡ some (n, a')
      → insert_named key sanitized_label (id_of sha1 p) p enc run.now fails (n, a') s.1 ≡ ok s'
      → Turn i p s s'
  insert_named-Turn i p enc true n a' s s' c f e h = absurd (ground arith)
  insert_named-Turn i p enc false n a' s s' c f e h =
      let row =
        new_row (id_of sha1 p) key p enc (format_display_name p.country_code sanitized_label n)
          run.now in
      let (t', stored, h') = bind-ok (insert_row row s.1) (λ t'. ok (a', t')) h in
      inserting n enc c f (cc) (insert_row-Inserted row s.1 s'.1 (cc))

  insert_new-Turn :
      (i : ℕ) (p : Proxy) (enc : GoString) (s s' : SeqAllocator × Tables) (fails : Bool)
      → encrypt i upstream_password_aad p.password ≡ some enc
      → find str_discrete (id_of sha1 p) existing ≡ none
      → insert_new key sanitized_label (id_of sha1 p) p enc run.now fails s ≡ ok s'
      → Turn i p s s'
  insert_new-Turn i p enc (a, t) s' fails c f h = elim (Option-cases (next p.country_code a)) [
    | inl e ↦ absurd (ground arith)
    | inr ((n, a'), e) ↦ insert_named-Turn i p enc fails n a' (a, t) s' c f e (ground arith)
  ]

  pub sync_proxy-Turn :
      (i : ℕ) (p : Proxy) (s s' : SeqAllocator × Tables)
      → sync_proxy sha1 encrypt run key sanitized_label existing i p s ≡ ok s'
      → Turn i p s s'
  unfolding sync_proxy
  sync_proxy-Turn i p (a, t) s' h =
      elim (Option-cases (encrypt i upstream_password_aad p.password)) [
        | inl e ↦ absurd (ground arith)
        | inr (enc, e) ↦ elim (Option-cases (find str_discrete (id_of sha1 p) existing)) [
          | inl f ↦ insert_new-Turn i p enc (a, t) s' (run.exec_fails i) e f (ground arith)
          | inr (row, f) ↦ elim (Bool-cases (run.exec_fails i)) [
            | inl y ↦ absurd (ground arith)
            | inr n ↦ refreshing row enc e f (ground arith)
          ]
        ]
      ]
