-- ===== src/Sync/Refreshed.antt =====
-- What a committed sync writes into the rows of the proxies of its answer.
use pio.Base.{
  ℕ, ◌+◌, ◌≡◌, ◌∙◌, refl, subst, sym, true, false, Option, some, List, [], ◌∷◌, GoString,
  str_discrete, str_eq, arith, ◌⊎◌, inl, inr, All,
}
use pio.Model.{UpstreamProxy}
use pio.Store.{Tables, ok, bind-ok, ok_eq, upstream_password_aad}
use pio.Repo.Rows.{Rows, row_of}
use pio.Repo.Keys.{is_synced}
use pio.Sync.{SeqAllocator, sanitize_label, format_display_name}
use pio.Sync.Reconcile.{
  Proxy, Existing, SyncRun, refreshed, new_row, id_of, incoming_ids, member, sync_proxy,
  sync_proxies, load_existing_upstreams,
}
use pio.Sync.Turns.{Turn, refreshing, inserting, sync_proxy-Turn}
use pio.Sync.Exact.{Known, known-load, Turn-synced}
use pio.Sync.Outcomes.{Reconciled}
use pio.Sync.RowOf.{row_of-change_row_same, row_of-change_row_other, row_of-delete_stale}

module _ (sha1 : List ℕ → List ℕ) (encrypt : ℕ → GoString → GoString → Option GoString)
    (run : SyncRun) where
  -- The row has the data of the proxy at the position, its password encrypted by the call for it.
  pub record Shows (i : ℕ) (p : Proxy) (u : UpstreamProxy) : Type 0 where
    pub host : u.host ≡ p.proxy_address
    pub port : u.port ≡ p.port
    pub username : u.username ≡ p.username
    pub password : encrypt i upstream_password_aad p.password ≡ some u.encrypted_password
    pub country_code : u.country_code ≡ p.country_code
    pub city_name : u.city_name ≡ p.city_name
    pub last_seen_at : u.last_seen_at ≡ run.now

  -- The proxy has the id, and the row under the id shows it.
  abbrev pub Refreshed : GoString → ℕ → Proxy → Rows → Type 0
  Refreshed j i p rows =
      (id_of sha1 p ≡ j) × ((u : UpstreamProxy) × (row_of j rows ≡ some u) × Shows i p u)

  -- One of the proxies, counted from a position on, has the id and is shown by its row.
  abbrev pub Answered : GoString → ℕ → List Proxy → Rows → Type 0
  Answered j i [] rows = ⊥
  Answered j i (p ∷ ps) rows = Refreshed j i p rows ⊎ Answered j (i + 1) ps rows

  module _ (key : ℕ) (sanitized_label : GoString) (existing : Existing) where
    -- A turn leaves the data of its proxy in the row.
    Turn-Refreshed :
        (i : ℕ) (p : Proxy) (s s' : SeqAllocator × Tables)
        → Turn sha1 encrypt run key sanitized_label existing i p s s'
        → Known key existing s.1
        → Refreshed (id_of sha1 p) i p s'.1.upstream_proxies
    unfolding row_of
    Turn-Refreshed i p s s' (refreshing row enc sealed f e) k =
        let id = id_of sha1 p in
        let change = refreshed p enc sanitized_label row.display_name run.now in
        let (u, r) =
          row_of-change_row_same id change (λ u. refl) (is_synced key) s.1.upstream_proxies
            (k id (ground arith)) in
        subst (λ z. Refreshed id i p z.1.upstream_proxies) (sym e)
          (
            refl,
            (
              change u,
              r,
              record {
                host = refl;
                port = refl;
                username = refl;
                password = sealed;
                country_code = refl;
                city_name = refl;
                last_seen_at = refl;
              },
            ),
          )
    Turn-Refreshed i p s s' (inserting n enc sealed f e ins) k =
        subst (λ t. Refreshed (id_of sha1 p) i p t.upstream_proxies) (sym ins.result)
          (
            refl,
            (
              new_row (id_of sha1 p) key p enc
                  (format_display_name p.country_code sanitized_label n) run.now,
              ground arith,
              record {
                host = refl;
                port = refl;
                username = refl;
                password = sealed;
                country_code = refl;
                city_name = refl;
                last_seen_at = refl;
              },
            ),
          )

    -- A turn leaves the rows of other ids.
    row_of-Turn :
        (j : GoString) (i : ℕ) (p : Proxy) (s s' : SeqAllocator × Tables)
        → Turn sha1 encrypt run key sanitized_label existing i p s s'
        → str_eq (id_of sha1 p) j ≡ false
        → row_of j s'.1.upstream_proxies ≡ row_of j s.1.upstream_proxies
    unfolding row_of
    row_of-Turn j i p s s' (refreshing row enc sealed f e) ne =
        subst (λ z. row_of j z.1.upstream_proxies ≡ row_of j s.1.upstream_proxies) (sym e)
          (row_of-change_row_other (id_of sha1 p) _ (λ u. refl) j s.1.upstream_proxies ne)
    row_of-Turn j i p s s' (inserting n enc sealed f e ins) ne =
        subst (λ t. row_of j t.upstream_proxies ≡ row_of j s.1.upstream_proxies) (sym ins.result)
          (ground arith)

    -- What a row shows stays, unless a later proxy of the same id is shown in its place.
    Refreshed-later :
        (j : GoString) (i k : ℕ) (p : Proxy) (ps : List Proxy) (s s' : SeqAllocator × Tables)
        → sync_proxies sha1 encrypt run key sanitized_label existing k ps s ≡ ok s'
        → Known key existing s.1
        → Refreshed j i p s.1.upstream_proxies
        → Refreshed j i p s'.1.upstream_proxies ⊎ Answered j k ps s'.1.upstream_proxies
    unfolding sync_proxies
    Refreshed-later j i k p [] s s' h kn r =
        inl (subst (λ z. Refreshed j i p z.1.upstream_proxies) (ok_eq h) r)
    Refreshed-later j i k p (q ∷ ps) s s' h kn r =
        let (mid, first, rest) =
          bind-ok (sync_proxy sha1 encrypt run key sanitized_label existing k q s)
            (sync_proxies sha1 encrypt run key sanitized_label existing (k + 1) ps) h in
        let turn = sync_proxy-Turn sha1 encrypt run key sanitized_label existing k q s mid first in
        let kn' : Known key existing mid.1 = λ l e. ground (
          arith,
          Turn-synced sha1 encrypt run key sanitized_label existing k q s mid turn kn l,
          kn l e,
        ) in
        elim (str_discrete (id_of sha1 q) j) [
          | yes same ↦
              let now = Turn-Refreshed k q s mid turn kn in
              inr (
                Refreshed-later j k (k + 1) q ps mid s' rest kn'
                  (subst (λ x. Refreshed x k q mid.1.upstream_proxies) same now))
          | no other ↦
              let kept = row_of-Turn j k q s mid turn (ground arith) in
              elim (Refreshed-later j i (k + 1) p ps mid s' rest kn'
                (r.0, (r.1.0, kept ∙ r.1.1, r.1.2))) [ inl a ↦ inl a | inr b ↦ inr (inr b) ]
        ]

    sync_proxies-Answered :
        (j : GoString) (i : ℕ) (ps : List Proxy) (s s' : SeqAllocator × Tables)
        → sync_proxies sha1 encrypt run key sanitized_label existing i ps s ≡ ok s'
        → Known key existing s.1
        → member j (incoming_ids sha1 ps) ≡ true
        → Answered j i ps s'.1.upstream_proxies
    unfolding sync_proxies member incoming_ids
    sync_proxies-Answered j i [] s s' h kn m = absurd (ground arith)
    sync_proxies-Answered j i (p ∷ ps) s s' h kn m =
        let (mid, first, rest) =
          bind-ok (sync_proxy sha1 encrypt run key sanitized_label existing i p s)
            (sync_proxies sha1 encrypt run key sanitized_label existing (i + 1) ps) h in
        let turn = sync_proxy-Turn sha1 encrypt run key sanitized_label existing i p s mid first in
        let kn' : Known key existing mid.1 = λ l e. ground (
          arith,
          Turn-synced sha1 encrypt run key sanitized_label existing i p s mid turn kn l,
          kn l e,
        ) in
        elim (str_discrete (id_of sha1 p) j) [
          | yes same ↦ Refreshed-later j i (i + 1) p ps mid s' rest kn' (
              subst (λ x. Refreshed x i p mid.1.upstream_proxies) same
                (Turn-Refreshed i p s mid turn kn))
          | no other ↦ inr (sync_proxies-Answered j (i + 1) ps mid s' rest kn' (ground arith))
        ]

  -- The id of each proxy has a row that shows a proxy of that id.
  abbrev pub AllAnswered : List Proxy → Rows → Type 0
  AllAnswered proxies rows = All (λ p. Answered (id_of sha1 p) 0 proxies rows) proxies

  -- The rows that are read may be exchanged for ones that agree under the id.
  Answered-same :
      (j : GoString) (i : ℕ) (ps : List Proxy) (rows rows' : Rows)
      → row_of j rows' ≡ row_of j rows
      → Answered j i ps rows
      → Answered j i ps rows'
  Answered-same j i [] rows rows' e a = a
  Answered-same j i (p ∷ ps) rows rows' e (inl (same, (u, r, s))) = inl (same, (u, e ∙ r, s))
  Answered-same j i (p ∷ ps) rows rows' e (inr a) = inr (Answered-same j (i + 1) ps rows rows' e a)

  All-of_members :
      (P : GoString → Type 0) (ps qs : List Proxy)
      → ((j : GoString)
          → member j (incoming_ids sha1 qs) ≡ true
          → member j (incoming_ids sha1 ps) ≡ true)
      → ((j : GoString) → member j (incoming_ids sha1 ps) ≡ true → P j)
      → All (λ p. P (id_of sha1 p)) qs
  unfolding member incoming_ids
  All-of_members P ps [] sub h = tt
  All-of_members P ps (q ∷ qs) sub h =
      (h _ (sub _ (ground arith)), All-of_members P ps qs (λ j m. sub j (ground arith)) h)

  -- Before the key is marked, a sync that is to be committed has written the data of its answer.
  pub cleaned_rows :
      (key : ℕ) (label : GoString) (proxies : List Proxy) (t t' : Tables)
      → (o : Reconciled sha1 encrypt run key label proxies t t')
      → AllAnswered proxies o.cleaned.upstream_proxies
  cleaned_rows key label proxies t t' o =
      let existing = load_existing_upstreams key t.upstream_proxies in
      All-of_members (λ j. Answered j 0 proxies o.cleaned.upstream_proxies) proxies proxies
        (λ j m. m)
        (λ j m.
          Answered-same j 0 proxies o.synced_state.1.upstream_proxies o.cleaned.upstream_proxies
            (row_of-delete_stale run (incoming_ids sha1 proxies) existing j o.synced_state.1
              o.cleaned o.deleted m)
            (sync_proxies-Answered key (sanitize_label label) existing j 0 proxies _ o.synced_state
              o.looped (λ l e. sym (known-load key l t.upstream_proxies) ∙ e) m))
