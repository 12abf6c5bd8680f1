-- ===== src/Fixtures.antt =====
-- Concrete rows for the tests: two upstreams, a mapped user and an unmapped one.
use pio.Base.{true, false, Option, none, some, [], ◌∷◌, GoString, codes}
use pio.Base.Int.{pos}
use pio.Model.{
  ApiKey, Settings, UpstreamProxy, LocalUser, source_webshare, source_manual, protocol_socks5,
  protocol_http,
}
use pio.Store.{Result, ok, err, Tables}
use pio.Routing.State.{RoutingState, Core}
use pio.Routing.Build.{HydrateFaults, hydrate}
use pio.Routing.Swap.{SwapRun}
use pio.Routing.Reach.{new_core}

abbrev pub us : UpstreamProxy
us = record {
  id = codes "us-1";
  source = source_webshare;
  source_api_key_id = some 1;
  manual_name = [];
  host = codes "p1.example";
  port = 1080;
  username = codes "u";
  encrypted_password = codes "k1";
  protocol = protocol_socks5;
  display_name = codes "US";
  country_code = codes "US";
  city_name = [];
  recently_failing = false;
  recent_failure_count = 0;
  recent_failure_since = none;
  last_seen_at = 1;
  last_latency_ms = none;
  last_latency_at = none;
}

abbrev pub uk : UpstreamProxy
uk = record us {
  id = codes "uk-1";
  source = source_manual;
  source_api_key_id = none;
  encrypted_password = [];
  protocol = protocol_http;
  display_name = codes "UK";
}

abbrev pub ann : LocalUser
ann = record {
  username = codes "ann";
  password_plain = codes "pa";
  upstream_proxy_id = some (codes "us-1");
  broken = false;
  notes = [];
  order_index = 0;
  created_at = 0;
  updated_at = 0;
}

abbrev pub bob : LocalUser
bob = record ann {
  username = codes "bob";
  order_index = 1;
  password_plain = codes "pb";
  upstream_proxy_id = none;
  broken = true;
}

abbrev pub key : ApiKey
key = record {
  id = 1;
  label = codes "My key";
  encrypted_key = codes "secret";
  added_at = 0;
  last_synced_at = none;
  last_sync_error = [];
  active = true;
}

abbrev pub settings : Settings
settings = record {
  sync_interval_minutes = pos 60;
  proxy_port = pos 8080;
  proxy_bind = codes "127.0.0.1";
  api_port = pos 0;
  proxy_enabled = true;
  subscription_enabled = false;
  subscription_host = [];
}

abbrev pub tables : Tables
tables = record {
  api_keys = key ∷ [];
  settings = settings;
  upstream_proxies = us ∷ uk ∷ [];
  local_users = ann ∷ bob ∷ [];
  universal_proxy_password_enc = codes "all";
  audit_log = [];
}

-- A cipher that leaves every text as it is.
abbrev pub open_cipher : GoString → GoString → Option GoString
open_cipher aad enc = some enc

abbrev pub no_faults : HydrateFaults
no_faults = record { upstreams = false; users = false; password = false }

abbrev pub no_swap_faults : SwapRun
no_swap_faults = record {
  begin_fails = false;
  update_fails = false;
  audit_fails = false;
  commit_fails = false;
  now = 9;
}

abbrev pub core_of : Result Core → Core
core_of (ok c) = c
core_of (err _) = new_core tables

abbrev pub hydrated : Core
hydrated = core_of (hydrate open_cipher no_faults 7 8 (new_core tables))

abbrev pub state_of : Option RoutingState → RoutingState
state_of (some st) = st
state_of none = record {
  users = [];
  upstreams = [];
  by_display_name = [];
  universal_pwd = [];
  version = 0;
  built_at = 0;
}
