-- ===== src/Routing/Durable.antt =====
-- The snapshot against the database: SwapUserMapping writes both, so a restart after it finds the
-- users as they were in memory.
use pio.Base.{
  ℕ, ◌≡◌, ◌∙◌, refl, sym, ap, Bool, false, some, List, [], ◌∷◌, GoString, str_discrete, arith,
  Option, subst, some_eq,
}
use mathlib.Core.Path.{subst₂}
use pio.Base.Map.{Map, find}
use pio.Model.{UpstreamProxy, ResolvedUpstream}
use pio.Store.{
  scanned, Tables, ok, ok_eq, resolve_rows, resolve_rows-cons, list_all_resolved_upstreams,
}
use pio.Routing.State.{ResolvedUser, RoutingState, Core}
use pio.Routing.Build.{HydrateFaults, hydrate}
use pio.Routing.Swap.{SwapRun, remap_entry, swapped, swap_user_mapping}
use pio.Routing.Reach.{new_core}
use pio.Routing.Outcomes.{swap_outcome, hydrate_outcome}
use pio.Routing.Rows.{
  view?, stored_user, row_of, find-resolve_users, keyed_by_put, persisted, replaced_users,
}

-- The snapshot shows what the tables hold.
pub record MatchesTables (decrypt : GoString → GoString → Option GoString) (c : Core)
    (st : RoutingState) : Type 0 where
  pub current : c.routing_state ≡ some st
  pub upstreams : list_all_resolved_upstreams decrypt false c.db ≡ ok st.upstreams
  pub users :
      (name : GoString)
      → view? (find str_discrete name st.users)
        ≡ stored_user st.upstreams (row_of name c.db.local_users)

module _ (decrypt : GoString → GoString → Option GoString) where
  keyed_by_id :
      (rows : List UpstreamProxy) (ups : Map GoString ResolvedUpstream) (id : GoString)
      (up : ResolvedUpstream)
      → resolve_rows decrypt rows ≡ ok ups
      → find str_discrete id ups ≡ some up
      → up.id ≡ id
  keyed_by_id [] ups id up h e = absurd (unfold find resolve_rows in ground arith)
  keyed_by_id (row ∷ rows) ups id up h e =
      let (password, out, read, e') = resolve_rows-cons decrypt row rows h in
      keyed_by_put row.id (record { upstream = scanned row; password = password }) out id up refl
        (keyed_by_id rows out id up read) (subst (λ m. find str_discrete id m ≡ some up) e' e)

  read_any :
      (fails : Bool) (t : Tables) (ups : Map GoString ResolvedUpstream)
      → list_all_resolved_upstreams decrypt fails t ≡ ok ups
      → list_all_resolved_upstreams decrypt false t ≡ ok ups
  unfolding list_all_resolved_upstreams
  read_any fails t ups h = ground arith

  -- Hydrate leaves a snapshot that shows the tables.
  pub hydrate_matches :
      (faults : HydrateFaults) (now later : ℕ) (c c' : Core)
      → hydrate decrypt faults now later c ≡ ok c'
      → (st : RoutingState) × MatchesTables decrypt c' st
  hydrate_matches faults now later c c' h =
      let o = hydrate_outcome decrypt faults c.db c.db c.db now later c c' h in
      subst (λ x. (st : RoutingState) × MatchesTables decrypt x st) (sym o.result)
        (
          _,
          record {
            current = refl;
            upstreams = read_any faults.upstreams c.db o.upstreams o.read;
            users = find-resolve_users o.upstreams c.db.local_users c.groups;
          },
        )

-- Two cores with the same users, their cancel groups apart.
abbrev pub SameUsers : Core → Core → Type 0
SameUsers c c' =
    (st st' : RoutingState) × (c.routing_state ≡ some st)
    × (c'.routing_state ≡ some st')
    × ((name : GoString)
        → view? (find str_discrete name st'.users) ≡ view? (find str_discrete name st.users))

module _ (decrypt : GoString → GoString → Option GoString) {W : Type 0} where
  -- SwapUserMapping keeps the snapshot and the tables in step.
  pub swap_matches :
      (run : SwapRun) (on_cancel : Option (ResolvedUser → W → W)) (username new_id : GoString)
      (s s' : Core × W)
      → swap_user_mapping run on_cancel username new_id s ≡ ok s'
      → (st : RoutingState) → MatchesTables decrypt s.0 st
      → (st' : RoutingState) × MatchesTables decrypt s'.0 st'
  unfolding list_all_resolved_upstreams swapped
  swap_matches run on_cancel username new_id s s' h st m =
      let o = swap_outcome run on_cancel username new_id s s' h in
      let same : o.cur ≡ st = some_eq (sym o.was ∙ m.current) in
      let read : resolve_rows decrypt s.0.db.upstream_proxies ≡ ok st.upstreams = m.upstreams in
      let (rows, ups, _) =
        persisted run username o.db_id (remap_entry username o.old.upstream_id new_id run.now)
          s.0.db o.db o.stored in
      subst (λ (x : Core × W). (st' : RoutingState) × MatchesTables decrypt x.0 st') (sym o.result)
        (
          swapped o.cur username o.new run.now,
          record {
            current = refl;
            upstreams =
                ap (resolve_rows decrypt) ups
                ∙ read
                ∙ ap (λ (x : RoutingState). ok x.upstreams) (sym same);
            users = λ name. rw rows (
                replaced_users o.cur o.old o.new username new_id s.0.groups.next run.now o.db_id
                  s.0.db.local_users o.user
                  (λ up e. keyed_by_id decrypt s.0.db.upstream_proxies st.upstreams new_id up read (
                    subst (λ (x : RoutingState). find str_discrete new_id x.upstreams ≡ some up)
                      same e))
                  (subst
                    (λ (x : RoutingState).
                      (name : GoString)
                      → view? (find str_discrete name x.users)
                        ≡ stored_user x.upstreams (row_of name s.0.db.local_users))
                    (sym same) m.users)
                  o.mapped name);
          },
        )

  -- A core after a Hydrate and swaps, with no other write to the tables in between.
  pub data Serving : Core × W → Type 0 where
    booting :
        (faults : HydrateFaults) (now later : ℕ) (c : Core) {s : Core × W}
        → hydrate decrypt faults now later c ≡ ok s.0
        → Serving s
    remapping :
        (run : SwapRun) (on_cancel : Option (ResolvedUser → W → W)) (username new_id : GoString)
        {s s' : Core × W}
        → Serving s
        → swap_user_mapping run on_cancel username new_id s ≡ ok s'
        → Serving s'

  Serving-MatchesTables :
      (s : Core × W) → Serving s → (st : RoutingState) × MatchesTables decrypt s.0 st
  Serving-MatchesTables s (booting faults now later c h) =
      hydrate_matches decrypt faults now later c s.0 h
  Serving-MatchesTables s (remapping run on_cancel username new_id {s = before} r h) =
      let (st, m) = Serving-MatchesTables before r in
      swap_matches run on_cancel username new_id before s h st m

  -- After a Hydrate and any number of calls of SwapUserMapping that succeed, with no other write to the
  -- tables in between: a new core that hydrates from the tables has the same users as the core in
  -- memory, their cancel groups apart.
  pub restart_keeps_users :
      (s : Core × W)
      → Serving s
      → (faults : HydrateFaults) (now later : ℕ) (c : Core)
      → hydrate decrypt faults now later (new_core s.0.db) ≡ ok c
      → SameUsers s.0 c
  restart_keeps_users s r faults now later c q =
      let (st, a) = Serving-MatchesTables s r in
      let (st', b) = hydrate_matches decrypt faults now later (new_core s.0.db) c q in
      let o = hydrate_outcome decrypt faults s.0.db s.0.db s.0.db now later (new_core s.0.db) c q in
      let db : c.db ≡ s.0.db = ap (λ (x : Core). x.db) o.result in
      let ups : st'.upstreams ≡ st.upstreams =
        ok_eq (sym b.upstreams ∙ ap (list_all_resolved_upstreams decrypt false) db ∙ a.upstreams) in
      (
        st,
        st',
        a.current,
        b.current,
        λ name.
            b.users name
            ∙ subst₂
                (λ (u : Map GoString ResolvedUpstream) (t : Tables).
                  stored_user u (row_of name t.local_users)
                  ≡ stored_user st.upstreams (row_of name s.0.db.local_users))
                (sym ups) (sym db) refl
            ∙ sym (a.users name),
      )
