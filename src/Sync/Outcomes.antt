-- ===== src/Sync/Outcomes.antt =====
-- The parts of a transaction of SyncKey that was committed.
use pio.Base.{ℕ, ◌≡◌, Option, List, GoString, arith, inl, inr}
use pio.Store.{Tables, ok, Result-cases}
use pio.Repo.Keys.{mark_api_key_sync_success}
use pio.Sync.{SeqAllocator, sanitize_label}
use pio.Sync.Reconcile.{
  Proxy, SyncRun, incoming_ids, sync_proxies, load_existing_upstreams, delete_stale,
  build_seq_allocator, reconcile,
}

module _ (sha1 : List ℕ → List ℕ) (encrypt : ℕ → GoString → GoString → Option GoString)
    (run : SyncRun) (key : ℕ) (label : GoString) (proxies : List Proxy) where
  pub record Reconciled (t t' : Tables) : Type 0 where
    pub synced_state : SeqAllocator × Tables
    pub cleaned : Tables
    pub looped :
        let existing = load_existing_upstreams key t.upstream_proxies in
        sync_proxies sha1 encrypt run key
          (sanitize_label label)
          existing
          0
          proxies
          (build_seq_allocator existing (incoming_ids sha1 proxies) (sanitize_label label), t)
        ≡ ok synced_state
    pub deleted :
        delete_stale run
          (incoming_ids sha1 proxies)
          (load_existing_upstreams key t.upstream_proxies)
          synced_state.1
        ≡ ok cleaned
    pub marked : mark_api_key_sync_success run.mark_fails key run.now cleaned ≡ ok t'

  pub reconcile-Reconciled :
      (t t' : Tables) → reconcile sha1 encrypt run key label proxies t ≡ ok t' → Reconciled t t'
  unfolding reconcile mark_api_key_sync_success
  reconcile-Reconciled t t' h =
      let existing = load_existing_upstreams key t.upstream_proxies in
      elim (Result-cases (
        sync_proxies sha1 encrypt run key (sanitize_label label) existing 0 proxies
          (build_seq_allocator existing (incoming_ids sha1 proxies) (sanitize_label label), t))) [
            | inr (e, bad) ↦ absurd (ground arith)
            | inl (s, looped) ↦
                elim (Result-cases (delete_stale run (incoming_ids sha1 proxies) existing s.1)) [
                  | inr (e, bad) ↦ absurd (ground arith)
                  | inl (cleaned, deleted) ↦ record {
                    synced_state = s;
                    cleaned = cleaned;
                    looped = looped;
                    deleted = deleted;
                    marked = ground arith;
                  }
                ]
          ]
