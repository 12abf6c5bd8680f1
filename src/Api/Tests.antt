-- ===== src/Api/Tests.antt =====
-- A client of the subscription list.
use pio.Base.{◌≡◌, refl, true, false, Option, none, some, [], ◌++◌, GoString, codes, str_discrete}
use pio.Base.Map.{find}
use pio.Store.{Tables, resolve_password, load_universal_proxy_password}
use pio.DenyList.{new, is_denied}
use pio.Fixtures.{tables, settings, open_cipher, hydrated}
use pio.Repo.Config.{load_settings}
use pio.Repo.Manual.{is_blank}
use pio.Api.Text.{trim_left, trim_right, trim_space}
use pio.Api.Subscription.{Request, wrong_password, subscription_handler}
use pio.Api.Served.{Serves, Entitled, subscription-Serves}

abbrev client : Request
client = record {
  remote_addr = codes "9.9.9.9:5";
  password = codes "all";
  scheme_type = codes " HTTP ";
  host = codes "pio.example:8080";
  forwarded_proto = [];
  over_tls = false;
}

abbrev enabled : Tables
enabled = record tables { settings = record settings { subscription_enabled = true } }

abbrev plain_line : GoString → GoString → GoString → GoString → GoString
plain_line scheme name pw authority = scheme ++ name ++ pw ++ authority

abbrev no_host : GoString → Option GoString
no_host addr = none

trimmed : trim_space (codes "  a b ") ≡ codes "a b"
unfolding trim_left trim_right is_blank
trimmed = refl

refused :
    (subscription_handler no_host plain_line open_cipher false false 1 2 enabled
      (record client { password = codes "al" })
      hydrated.routing_state
      none).0
    ≡ wrong_password
unfolding subscription_handler load_settings load_universal_proxy_password resolve_password
    str_discrete
refused = refl

subscription-Serves_example :
    Serves no_host plain_line open_cipher false false 1 2 enabled client hydrated.routing_state
      (some new)
subscription-Serves_example =
    subscription-Serves no_host plain_line open_cipher false false 1 2 enabled client
      hydrated.routing_state (some new)

client-Entitled :
    Entitled no_host plain_line open_cipher false false 1 2 enabled client hydrated.routing_state
      (some new)
      (codes "all")
unfolding load_universal_proxy_password resolve_password str_discrete is_denied find
client-Entitled = (refl, refl, refl, refl, refl, refl)
