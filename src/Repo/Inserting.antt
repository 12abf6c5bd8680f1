-- ===== src/Repo/Inserting.antt =====
-- What an INSERT into upstream_proxies has done, and that it keeps the constraints.
use pio.Base.{
  ◌≡◌, refl, true, false, Option, none, some, List, [], ◌∷◌, GoString, str_eq, arith, subst, sym,
}
use pio.Model.{UpstreamProxy, LocalUser, source_manual}
use pio.Store.{Tables, ok}
use pio.Repo.Rows.{Rows, has_row, manual_name_taken, key_known, insert_row}
use pio.Repo.Sound.{IsSound, MappingsOk, mapped}

-- The row is there, and it broke no constraint.
pub record Inserted (u : UpstreamProxy) (t t' : Tables) : Type 0 where
  pub fresh : has_row u.id t.upstream_proxies ≡ false
  pub owner : key_known u.source_api_key_id t.api_keys ≡ true
  pub name_free :
      str_eq u.source source_manual ≡ true
      → manual_name_taken u.id u.manual_name t.upstream_proxies ≡ false
  pub result : t' ≡ record t { upstream_proxies = u ∷ t.upstream_proxies }

pub insert_row-Inserted :
    (u : UpstreamProxy) (t t' : Tables) → insert_row u t ≡ ok t' → Inserted u t t'
unfolding insert_row
insert_row-Inserted u t t' h = record {
  fresh = ground arith;
  owner = ground arith;
  name_free = λ m. ground arith;
  result = ground arith;
}

more_mapped :
    (u : UpstreamProxy) (o : Option GoString) (rows : Rows)
    → mapped o rows ≡ true
    → mapped o (u ∷ rows) ≡ true
unfolding has_row
more_mapped u none rows h = refl
more_mapped u (some id) rows h = ground arith

more-MappingsOk :
    (u : UpstreamProxy) (users : List LocalUser) (rows : Rows)
    → MappingsOk users rows
    → MappingsOk users (u ∷ rows)
more-MappingsOk u [] rows h = tt
more-MappingsOk u (lu ∷ users) rows h =
    (more_mapped u lu.upstream_proxy_id rows h.0, more-MappingsOk u users rows h.1)

pub Inserted-IsSound :
    (u : UpstreamProxy) (t t' : Tables) → Inserted u t t' → IsSound t → IsSound t'
Inserted-IsSound u t t' i s = subst IsSound (sym i.result) (record {
  ids = (i.fresh, s.ids);
  names = (i.name_free, s.names);
  users = s.users;
  mappings = more-MappingsOk u t.local_users t.upstream_proxies s.mappings;
  keys = (i.owner, s.keys);
})
