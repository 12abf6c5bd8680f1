-- ===== src/Registry/Tests.antt =====
-- Runs of the registry with one connection.
use pio.Base.{str_eq, ℕ, ◌≡◌, ◌↔◌, refl, true, GoString, codes, arith, among, ℕ_discrete}
use pio.Base.Map.{find, put}
use pio.Registry.{
  ActiveConnection, ConnectionRegistry, new, register, deregister, close_by_user_upstream,
  close_by_upstream,
}
use pio.Registry.Lookup.{under}
use pio.Registry.WellFormed.{
  WellFormed, new-WellFormed, register-WellFormed, deregister-WellFormed, deregister-register,
}
use pio.Registry.Close.{Held, BarFree, close_by_user_upstream_iff, close_by_upstream_iff}

abbrev conn : ActiveConnection
conn = record {
  id = 0;
  username = codes "ann";
  upstream_id = codes "us-1";
  client_addr = codes "9.9.9.9:1";
  protocol = codes "socks5";
  target = codes "x.example:443";
  accepted_at = 3;
  bytes_in = 0;
  bytes_out = 0;
  cancel_func = 7;
}

abbrev one : ConnectionRegistry
one = (register conn new).1

one-WellFormed : WellFormed one
one-WellFormed = register-WellFormed conn new new-WellFormed (omega arith)

register-WellFormed_example : WellFormed (register conn new).1
register-WellFormed_example = register-WellFormed conn new new-WellFormed (omega arith)

deregister-WellFormed_example : WellFormed (deregister 1 one)
deregister-WellFormed_example = deregister-WellFormed 1 one one-WellFormed

deregister-register_example :
    let r' = deregister (register conn new).0 (register conn new).1 in
    ((j : ℕ) → find ℕ_discrete j r'.conns ≡ find ℕ_discrete j new.conns)
    × ((k : GoString) (j : ℕ) → under r'.by_key k j ≡ under new.by_key k j)
deregister-register_example = deregister-register conn new new-WellFormed (omega arith)

one-BarFree : BarFree one
unfolding register find put
one-BarFree id c e = ground (arith, e)

close_by_user_upstream_iff_example :
    (among 7 (close_by_user_upstream (codes "ann") (codes "us-1") one) ≡ true)
    ↔ Held (λ c. (c.username ≡ codes "ann") × (c.upstream_id ≡ codes "us-1")) one.conns 7
close_by_user_upstream_iff_example =
    close_by_user_upstream_iff one one-WellFormed one-BarFree (codes "ann") (codes "us-1") 7 refl

close_by_upstream_iff_example :
    (among 7 (close_by_upstream (codes "us-1") one) ≡ true)
    ↔ Held (λ c. str_eq c.upstream_id (codes "us-1") ≡ true) one.conns 7
close_by_upstream_iff_example = close_by_upstream_iff one one-WellFormed (codes "us-1") 7
