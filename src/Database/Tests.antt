-- ===== src/Database/Tests.antt =====
-- A run of the writers on the rows of Fixtures: a manual proxy is added, a user is mapped to it, and
-- the password of another user is set.
use pio.Base.{refl, false, some, [], ◌∷◌, codes, arith, str_discrete}
use pio.Base.Int.{pos}
use pio.Model.{protocol_socks5}
use pio.Store.{Tables, Result, ok, err, update_local_user_mapping}
use pio.Fixtures.{tables, open_cipher}
use pio.Repo.Rows.{insert_row, has_row, has_key, manual_name_taken}
use pio.Repo.Manual.{ManualProxyInput, is_blank, validate, hex, insert_manual_proxy, manual_row}
use pio.Repo.Users.{update_local_user_password}
use pio.Repo.Sound.{IsSound}
use pio.Database.{Reach, here, later, inserting_manual, mapping, setting_password}
use pio.Database.Ports.{PortsOk}
use pio.Database.Dialable.{Reach-PortsOk}

abbrev input : ManualProxyInput
input = record {
  name = codes "home";
  host = codes "h.example";
  port = pos 1080;
  protocol = protocol_socks5;
  username = codes "me";
  password = codes "pw";
}

abbrev tables_of : Result Tables → Tables
tables_of (ok t) = t
tables_of (err e) = tables

abbrev with_proxy : Tables
with_proxy = record tables {
  upstream_proxies = manual_row (codes "0a") input (codes "pw") 5 ∷ tables.upstream_proxies;
}

abbrev with_mapping : Tables
with_mapping =
    tables_of (update_local_user_mapping false (codes "bob") (some (codes "0a")) 6 with_proxy)

abbrev at_end : Tables
at_end = tables_of (update_local_user_password false (codes "ann") (codes "new") 7 with_mapping)

tables-IsSound : IsSound tables
unfolding has_row has_key manual_name_taken str_discrete
tables-IsSound = record {
  ids = (refl, (refl, tt));
  names = (λ m. absurd (ground arith), (λ m. refl, tt));
  users = (refl, (refl, tt));
  mappings = (refl, (refl, tt));
  keys = (refl, (refl, tt));
}

abbrev steps : Reach tables at_end
unfolding insert_manual_proxy validate is_blank hex insert_row has_row has_key manual_name_taken
    update_local_user_mapping update_local_user_password str_discrete
steps =
    later
      (later
        (later here (inserting_manual open_cipher false (some (10 ∷ [])) 5 input (codes "0a") refl))
        (mapping false (codes "bob") (some (codes "0a")) 6 refl))
      (setting_password false (codes "ann") (codes "new") 7 refl)

Reach-PortsOk_example : PortsOk at_end.upstream_proxies
unfolding str_discrete
Reach-PortsOk_example =
    Reach-PortsOk tables at_end steps tables-IsSound
      (λ m. absurd (ground arith), (λ m. (omega arith, omega arith, refl), tt))
