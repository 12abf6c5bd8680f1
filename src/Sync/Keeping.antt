-- ===== src/Sync/Keeping.antt =====
-- A sync keeps the display names that the operator has chosen.
use pio.Base.{
  ℕ, ◌+◌, ◌≡◌, ◌∙◌, refl, subst, sym, true, false, Option, none, some, List, [], ◌∷◌, GoString,
  str_discrete, str_eq, arith, inl, inr, Bool-cases, ap,
}
use pio.Base.Map.{find, find-put}
use pio.Model.{UpstreamProxy}
use pio.Store.{Tables, ok, bind-ok, ok_eq}
use pio.Repo.Rows.{Rows, row_of, has_row, change_row, kept_rows, delete_rows}
use pio.Repo.Keys.{is_synced}
use pio.Sync.{SeqAllocator, sanitize_label}
use pio.Sync.Names.{parse_legacy_display_name}
use pio.Sync.Reconcile.{
  Proxy, Existing, ExistingUpstream, SyncRun, refreshed, renamed, id_of, incoming_ids, member,
  sync_proxy, sync_proxies, load_existing_upstreams, is_stale, delete_stale, reconcile,
}
use pio.Sync.Turns.{Turn, refreshing, inserting, sync_proxy-Turn}
use pio.Sync.Outcomes.{reconcile-Reconciled}
use pio.Sync.Mirror.{marked_rows}

abbrev pub name_of : GoString → Rows → Option GoString
name_of j rows = elim (row_of j rows) [ none ↦ none | some u ↦ some u.display_name ]

-- A change that keeps ids and that name of the row keeps the name.
name_of-change_row :
    (id : GoString) (f : UpstreamProxy → UpstreamProxy) (j name : GoString) (rows : Rows)
    → ((u : UpstreamProxy) → (f u).id ≡ u.id)
    → (str_eq id j ≡ true → (u : UpstreamProxy) → u.display_name ≡ name → (f u).display_name ≡ name)
    → name_of j rows ≡ some name
    → name_of j (change_row id f rows) ≡ some name
unfolding row_of change_row
name_of-change_row id f j name [] ids same h = h
name_of-change_row id f j name (u ∷ us) ids same h = elim (str_discrete u.id j) [
  | yes p ↦ elim (str_discrete u.id id) [
    | yes q ↦ ground (arith, ids u, same (ground arith) u (ground arith))
    | no q ↦ ground arith
  ]
  | no p ↦ ground (arith, ids u, name_of-change_row id f j name us ids same)
]

has_row-row_of : (j : GoString) (rows : Rows) → has_row j rows ≡ false → row_of j rows ≡ none
unfolding row_of has_row
has_row-row_of j [] h = refl
has_row-row_of j (u ∷ us) h = ground (arith, has_row-row_of j us)

name_of-insert :
    (u : UpstreamProxy) (j name : GoString) (rows : Rows)
    → has_row u.id rows ≡ false
    → name_of j rows ≡ some name
    → name_of j (u ∷ rows) ≡ some name
unfolding row_of
name_of-insert u j name rows fresh h = elim (str_discrete u.id j) [
  | yes p ↦ absurd (ground (arith, has_row-row_of u.id rows fresh))
  | no p ↦ ground arith
]

name_of-kept_rows :
    (d j name : GoString) (rows : Rows)
    → str_eq d j ≡ false
    → name_of j rows ≡ some name
    → name_of j (kept_rows (is_stale d) rows) ≡ some name
unfolding row_of kept_rows
name_of-kept_rows d j name [] ne h = h
name_of-kept_rows d j name (u ∷ us) ne h = ground (arith, name_of-kept_rows d j name us ne)

name_of-delete_stale :
    (run : SyncRun) (incoming : List GoString) (existing : Existing) (j name : GoString)
    (t t' : Tables)
    → delete_stale run incoming existing t ≡ ok t'
    → member j incoming ≡ true
    → name_of j t.upstream_proxies ≡ some name
    → name_of j t'.upstream_proxies ≡ some name
unfolding delete_stale delete_rows
name_of-delete_stale run incoming [] j name t t' h m n = ground arith
name_of-delete_stale run incoming ((id, e) ∷ existing) j name t t' h m n =
    elim (Bool-cases (member id incoming)) [
      | inl y ↦ name_of-delete_stale run incoming existing j name t t' (ground arith) m n
      | inr f ↦ elim (Bool-cases (run.delete_fails id)) [
        | inl y ↦ absurd (ground arith)
        | inr g ↦
            name_of-delete_stale run incoming existing j name (delete_rows (is_stale id) t) t'
              (ground arith) m (name_of-kept_rows id j name t.upstream_proxies (ground arith) n)
      ]
    ]

-- The names that are loaded are those of the rows.
loaded_name :
    (key : ℕ) (j : GoString) (u : UpstreamProxy) (rows : Rows)
    → row_of j rows ≡ some u
    → is_synced key u ≡ true
    → (e : ExistingUpstream) → find str_discrete j (load_existing_upstreams key rows) ≡ some e
    → e.display_name ≡ u.display_name
unfolding row_of load_existing_upstreams
loaded_name key j u [] h s e f = absurd (ground arith)
loaded_name key j u (r ∷ rows) h s e f =
    let put_first =
      find-put str_discrete r.id j
        (record { id = r.id; display_name = r.display_name; country_code = r.country_code })
        (load_existing_upstreams key rows) in
    elim (str_discrete r.id j) [
      | yes p ↦ ground (arith, put_first)
      | no p ↦ loaded_name key j u rows (ground arith) s e (ground (arith, put_first))
    ]

module _ (sha1 : List ℕ → List ℕ) (encrypt : ℕ → GoString → GoString → Option GoString)
    (run : SyncRun) (key : ℕ) (sanitized_label : GoString) (existing : Existing) (j name : GoString)
    (chosen : parse_legacy_display_name name ≡ none) where
  -- What is known of the row under the id is its name.
  abbrev Told : Type 0
  Told = (e : ExistingUpstream) → find str_discrete j existing ≡ some e → e.display_name ≡ name

  name_of-Turn :
      (i : ℕ) (p : Proxy) (s s' : SeqAllocator × Tables)
      → Turn sha1 encrypt run key sanitized_label existing i p s s'
      → Told
      → name_of j s.1.upstream_proxies ≡ some name
      → name_of j s'.1.upstream_proxies ≡ some name
  name_of-Turn i p s s' (refreshing row enc sealed f e) told n =
      subst (λ z. name_of j z.1.upstream_proxies ≡ some name) (sym e)
        (name_of-change_row (id_of sha1 p)
          (refreshed p enc sanitized_label row.display_name run.now) j name s.1.upstream_proxies
          (λ u. refl)
          (λ same u d.
            let same_name : row.display_name ≡ name = told row (ground arith) in
            rw (renamed, same_name, chosen) d)
          n)
  name_of-Turn i p s s' (inserting k enc sealed f e ins) told n =
      subst (λ t. name_of j t.upstream_proxies ≡ some name) (sym ins.result)
        (name_of-insert _ j name s.1.upstream_proxies ins.fresh n)

  name_of-sync_proxies :
      (i : ℕ) (ps : List Proxy) (s s' : SeqAllocator × Tables)
      → sync_proxies sha1 encrypt run key sanitized_label existing i ps s ≡ ok s'
      → Told
      → name_of j s.1.upstream_proxies ≡ some name
      → name_of j s'.1.upstream_proxies ≡ some name
  unfolding sync_proxies
  name_of-sync_proxies i [] s s' h told n =
      subst (λ z. name_of j z.1.upstream_proxies ≡ some name) (ok_eq h) n
  name_of-sync_proxies i (p ∷ ps) s s' h told n =
      let (mid, first, rest) =
        bind-ok (sync_proxy sha1 encrypt run key sanitized_label existing i p s)
          (sync_proxies sha1 encrypt run key sanitized_label existing (i + 1) ps) h in
      name_of-sync_proxies (i + 1) ps mid s' rest told (
        name_of-Turn i p s mid
          (sync_proxy-Turn sha1 encrypt run key sanitized_label existing i p s mid first) told n)

-- A synced row of the key, whose proxy is in the answer and whose display name is not of the legacy
-- form, has the same display name after a committed sync.
pub reconcile_keeps_names :
    (sha1 : List ℕ → List ℕ) (encrypt : ℕ → GoString → GoString → Option GoString) (run : SyncRun)
    (key : ℕ) (label : GoString) (proxies : List Proxy) (t t' : Tables) (j : GoString)
    (u : UpstreamProxy)
    → reconcile sha1 encrypt run key label proxies t ≡ ok t'
    → row_of j t.upstream_proxies ≡ some u
    → is_synced key u ≡ true
    → member j (incoming_ids sha1 proxies) ≡ true
    → parse_legacy_display_name u.display_name ≡ none
    → name_of j t'.upstream_proxies ≡ some u.display_name
reconcile_keeps_names sha1 encrypt run key label proxies t t' j u h r s m chosen =
    let o = reconcile-Reconciled sha1 encrypt run key label proxies t t' h in
    let existing = load_existing_upstreams key t.upstream_proxies in
    let looped =
      name_of-sync_proxies sha1 encrypt run key (sanitize_label label) existing j u.display_name
        chosen 0 proxies _ o.synced_state o.looped (loaded_name key j u t.upstream_proxies r s)
        (rw (name_of, r) refl) in
    let cleaned =
      name_of-delete_stale run (incoming_ids sha1 proxies) existing j u.display_name
        o.synced_state.1 o.cleaned o.deleted m looped in
    ap (name_of j) (marked_rows run.mark_fails key run.now o.cleaned t' o.marked).0 ∙ cleaned
