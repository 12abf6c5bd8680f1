-- ===== src/Routing/Outcomes.antt =====
-- What a successful operation of the core did, step by step.
use pio.Base.{ℕ, ◌≡◌, Bool, some, GoString, str_discrete, arith, inl, inr, Option, Option-cases}
use pio.Base.Map.{Map, find}
use pio.Model.{ResolvedUpstream}
use pio.Store.{ok, Result-cases, Tables, list_all_resolved_upstreams, load_universal_proxy_password}
use pio.Routing.State.{ResolvedUser, RoutingState, Core, new_cancel_group, u64}
use pio.Routing.Build.{HydrateFaults, hydrate_from, resolve_users, build_display_name_routes}
use pio.Routing.Swap.{SwapRun, remapped, persist, remap_entry, swapped, call, swap_user_mapping}
use pio.Routing.Rebuild.{BrokenInfo, rebuild_users, rebuild_with, notify_if, next_state}

pub record Swapped {W : Type 0} (run : SwapRun) (on_cancel : Option (ResolvedUser → W → W))
    (username new_id : GoString) (s s' : Core × W) : Type 0 where
  pub cur : RoutingState
  pub old : ResolvedUser
  pub new : ResolvedUser
  pub db_id : Option GoString
  pub db : Tables
  pub was : s.0.routing_state ≡ some cur
  pub user : find str_discrete username cur.users ≡ some old
  pub mapped : remapped cur old new_id s.0.groups.next ≡ ok (new, db_id)
  pub stored :
      persist run username db_id (remap_entry username old.upstream_id new_id run.now) s.0.db
      ≡ ok db
  pub result : s' ≡ (
    record {
      db = db;
      routing_state = some (swapped cur username new run.now);
      groups = (new_cancel_group s.0.groups).1;
    },
    call on_cancel old s.1,
  )

pub swap_outcome :
    {W : Type 0} (run : SwapRun) (on_cancel : Option (ResolvedUser → W → W))
    (username new_id : GoString) (s s' : Core × W)
    → swap_user_mapping run on_cancel username new_id s ≡ ok s'
    → Swapped run on_cancel username new_id s s'
unfolding swap_user_mapping new_cancel_group
swap_outcome run on_cancel username new_id (c, w) s' h = elim (Option-cases c.routing_state) [
  | inl e ↦ absurd (ground arith)
  | inr (cur, e) ↦ elim (Option-cases (find str_discrete username cur.users)) [
    | inl q ↦ absurd (ground arith)
    | inr (old, q) ↦ elim (Result-cases (remapped cur old new_id c.groups.next)) [
      | inr (x, m) ↦ absurd (ground arith)
      | inl ((new, db_id), m) ↦
          elim (Result-cases (
            persist run username db_id (remap_entry username old.upstream_id new_id run.now)
              c.db)) [
                | inr (x, p) ↦ absurd (ground arith)
                | inl (db, p) ↦ record {
                  cur = cur;
                  old = old;
                  new = new;
                  db_id = db_id;
                  db = db;
                  was = e;
                  user = q;
                  mapped = m;
                  stored = p;
                  result = ground arith;
                }
              ]
    ]
  ]
]

pub remapped_group :
    (cur : RoutingState) (old : ResolvedUser) (new_id : GoString) (group : ℕ) (new : ResolvedUser)
    (db_id : Option GoString)
    → remapped cur old new_id group ≡ ok (new, db_id)
    → new.cancel_group ≡ group
unfolding remapped
remapped_group cur old new_id group new db_id h = ground arith

module _ (decrypt : GoString → GoString → Option GoString) where
  pub record Hydrated (faults : HydrateFaults) (listed named keyed : Tables) (now later : ℕ)
      (c c' : Core) : Type 0 where
    pub upstreams : Map GoString ResolvedUpstream
    pub pwd : GoString
    pub read : list_all_resolved_upstreams decrypt faults.upstreams listed ≡ ok upstreams
    pub loaded : load_universal_proxy_password decrypt faults.password keyed ≡ ok pwd
    pub result :
        let g1 = (resolve_users upstreams named.local_users c.groups).1 in
        c' ≡ record {
          db = c.db;
          routing_state = some (record {
            users = (resolve_users upstreams named.local_users c.groups).0;
            upstreams = upstreams;
            by_display_name = (build_display_name_routes upstreams g1).0;
            universal_pwd = pwd;
            version = u64 now;
            built_at = later;
          });
          groups = (build_display_name_routes upstreams g1).1;
        }

  pub hydrate_outcome :
      (faults : HydrateFaults) (listed named keyed : Tables) (now later : ℕ) (c c' : Core)
      → hydrate_from decrypt faults listed named keyed now later c ≡ ok c'
      → Hydrated faults listed named keyed now later c c'
  unfolding hydrate_from
  hydrate_outcome faults listed named keyed now later c c' h =
      elim (Result-cases (list_all_resolved_upstreams decrypt faults.upstreams listed)) [
        | inr (x, e) ↦ absurd (ground arith)
        | inl (ups, e) ↦
            elim (Result-cases (load_universal_proxy_password decrypt faults.password keyed)) [
              | inr (x, p) ↦ absurd (ground arith)
              | inl (pwd, p) ↦ record {
                upstreams = ups;
                pwd = pwd;
                read = e;
                loaded = p;
                result = ground arith;
              }
            ]
      ]

  pub record RebuiltWith {W : Type 0}
      (rotates : Map GoString ResolvedUpstream → ResolvedUser → Bool) (fails : Bool) (now : ℕ)
      (callback : Option (BrokenInfo → W → W)) (s s' : Core × W) : Type 0 where
    pub upstreams : Map GoString ResolvedUpstream
    pub cur : RoutingState
    pub read : list_all_resolved_upstreams decrypt fails s.0.db ≡ ok upstreams
    pub was : s.0.routing_state ≡ some cur
    pub result :
        let r = rebuild_users (rotates upstreams) upstreams cur.users s.0.groups in
        let n = next_state cur upstreams r now r.groups in
        let done = notify_if callback cur.users r.rotated (n.1, s.1) in
        s' ≡ (record { db = s.0.db; routing_state = some n.0; groups = done.0 }, done.1)

  pub rebuild_outcome :
      {W : Type 0} (rotates : Map GoString ResolvedUpstream → ResolvedUser → Bool) (fails : Bool)
      (now : ℕ) (callback : Option (BrokenInfo → W → W)) (s s' : Core × W)
      → rebuild_with decrypt rotates fails now callback s ≡ ok s'
      → RebuiltWith rotates fails now callback s s'
  unfolding rebuild_with
  rebuild_outcome rotates fails now callback (c, w) s' h =
      elim (Result-cases (list_all_resolved_upstreams decrypt fails c.db)) [
        | inr (x, e) ↦ absurd (ground arith)
        | inl (ups, e) ↦ elim (Option-cases c.routing_state) [
          | inl q ↦ absurd (ground arith)
          | inr (cur, q) ↦ record {
            upstreams = ups;
            cur = cur;
            read = e;
            was = q;
            result = ground arith;
          }
        ]
      ]
