-- ===== src/Sync/RowOf.antt =====
-- What the statements of a sync do to the row under an id.
use pio.Base.{
  ◌≡◌, ◌∙◌, refl, Bool, true, false, some, List, [], ◌∷◌, GoString, str_discrete, str_eq, arith,
  inl, inr, Bool-cases,
}
use pio.Model.{UpstreamProxy}
use pio.Store.{Tables, ok}
use pio.Repo.Rows.{Rows, row_of, doomed_id, change_row, kept_rows, delete_rows}
use pio.Sync.Reconcile.{Existing, SyncRun, member, is_stale, delete_stale}

pub row_of-change_row_same :
    (id : GoString) (f : UpstreamProxy → UpstreamProxy)
    → ((u : UpstreamProxy) → (f u).id ≡ u.id)
    → (p : UpstreamProxy → Bool) (rows : Rows) → doomed_id p id rows ≡ true
    → (u : UpstreamProxy) × (row_of id (change_row id f rows) ≡ some (f u))
unfolding row_of change_row doomed_id
row_of-change_row_same id f ids p [] h = absurd (ground arith)
row_of-change_row_same id f ids p (u ∷ us) h = elim (str_discrete u.id id) [
  | yes e ↦ (u, ground (arith, ids u))
  | no e ↦
      let (v, r) = row_of-change_row_same id f ids p us (ground arith) in (v, ground (arith, r))
]

pub row_of-change_row_other :
    (id : GoString) (f : UpstreamProxy → UpstreamProxy)
    → ((u : UpstreamProxy) → (f u).id ≡ u.id)
    → (j : GoString) (rows : Rows) → str_eq id j ≡ false
    → row_of j (change_row id f rows) ≡ row_of j rows
unfolding row_of change_row
row_of-change_row_other id f ids j [] ne = refl
row_of-change_row_other id f ids j (u ∷ us) ne =
    ground (arith, ids u, row_of-change_row_other id f ids j us ne)

pub row_of-kept_rows :
    (d j : GoString) (rows : Rows)
    → str_eq d j ≡ false
    → row_of j (kept_rows (is_stale d) rows) ≡ row_of j rows
unfolding row_of kept_rows
row_of-kept_rows d j [] ne = refl
row_of-kept_rows d j (u ∷ us) ne = ground (arith, row_of-kept_rows d j us ne)

pub row_of-delete_stale :
    (run : SyncRun) (incoming : List GoString) (existing : Existing) (j : GoString) (t t' : Tables)
    → delete_stale run incoming existing t ≡ ok t'
    → member j incoming ≡ true
    → row_of j t'.upstream_proxies ≡ row_of j t.upstream_proxies
unfolding delete_stale delete_rows
row_of-delete_stale run incoming [] j t t' h m = ground arith
row_of-delete_stale run incoming ((id, e) ∷ existing) j t t' h m =
    elim (Bool-cases (member id incoming)) [
      | inl y ↦ row_of-delete_stale run incoming existing j t t' (ground arith) m
      | inr f ↦ elim (Bool-cases (run.delete_fails id)) [
        | inl y ↦ absurd (ground arith)
        | inr g ↦
            row_of-delete_stale run incoming existing j (delete_rows (is_stale id) t) t'
              (ground arith) m
            ∙ row_of-kept_rows id j t.upstream_proxies (ground arith)
      ]
    ]
