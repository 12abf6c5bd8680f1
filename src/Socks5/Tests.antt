-- ===== src/Socks5/Tests.antt =====
-- Runs of the SOCKS5 handshake: a client that logs in and asks for a target.
use pio.Base.{
  ℕ, ◌≡◌, refl, true, false, Option, none, some, List, [], ◌∷◌, ◌++◌, GoString, codes, arith, among,
  str_discrete, ℕ_discrete,
}
use pio.Base.Map.{find, put, remove}
use pio.Wire.{Conn, got, read_from, read_full, write}
use pio.Wire.Text.{digits, read_digits, atoi, last_colon, first_bracket, split_host_port}
use pio.DenyList.{new, is_denied}
use pio.Model.{UpstreamProxy}
use pio.Store.{resolve_rows, list_all_resolved_upstreams, load_universal_proxy_password}
use pio.Registry.{ConnectionRegistry, close_by_upstream}
use pio.Registry.WellFormed.{new-WellFormed}
use pio.Routing.State.{new_cancel_group}
use pio.Routing.Build.{
  hydrate_from, count_names, add_routes, build_display_name_routes, resolve_user, resolve_users,
}
use pio.Tunnel.Acquire.{acquire, user_answer, route_answer}
use pio.Tunnel.Dial.{
  Dialled, connected, Link, linked, broken, send_connect, credentials, connect_request,
}
use pio.Socks5.Request.{
  negotiate, read_rfc1929, read_request_header, read_request_addr, read_request,
}
use pio.Socks5.Handler.{
  Visit, Handled, denied, open_tunnel, read_credentials, accept_request, authorised, handle_conn,
}
use pio.Socks5.RoundTrip.{behind, Reaches, read_rfc1929-credentials, send_connect-Reaches}
use pio.Socks5.Safety.{
  Tunnelled, SameRegistry, tunnel_is_granted, tunnel_is_closable, registry_restored,
}
use pio.Fixtures.{hydrated}

abbrev no_text : List ℕ → GoString
no_text b = []

abbrev host_of : GoString → Option GoString
host_of addr = elim (split_host_port addr) [ none ↦ none | some (host, port) ↦ some host ]

abbrev far : Conn
far = record { incoming = []; outgoing = []; writes = 9; closed = false }

abbrev reachable : UpstreamProxy → GoString → GoString → Dialled
reachable up password target = connected far

abbrev visit : Visit
visit = record {
  remote_addr = codes "9.9.9.9:1";
  checked_at = 1;
  failed_at = 2;
  accepted_at = 3;
  context = 7;
}

-- A greeting, ann's credentials and a CONNECT to a.b:80.
abbrev client : Conn
client = record far {
  incoming =
      (5 ∷ 1 ∷ 2 ∷ [])
      ++ credentials (codes "ann") (codes "pa")
      ++ connect_request (codes "a.b") 80;
}

abbrev empty : ConnectionRegistry
empty = record { next_id = 0; conns = []; by_key = [] }

abbrev handled_client : Handled
handled_client =
    handle_conn host_of no_text reachable visit hydrated.routing_state (some new) (some empty)
      client

client_tunnels : handled_client.tunnel ≡ some far
unfolding handle_conn denied is_denied authorised open_tunnel read_credentials accept_request
    negotiate read_rfc1929 read_request read_request_header read_request_addr read_full read_from
    write digits acquire user_answer route_answer hydrate_from list_all_resolved_upstreams
    resolve_rows load_universal_proxy_password resolve_users resolve_user build_display_name_routes
    count_names add_routes new_cancel_group find put remove str_discrete ℕ_discrete
client_tunnels = refl

-- A request for BIND is refused with reply 7.
bind_is_refused :
    (handle_conn host_of no_text reachable visit hydrated.routing_state
      (some new)
      (some empty)
      (record far {
        incoming =
            (5 ∷ 1 ∷ 2 ∷ []) ++ credentials (codes "ann") (codes "pa") ++ (5 ∷ 2 ∷ 0 ∷ 1 ∷ []);
      })).conn
    ≡ record {
      incoming = [];
      outgoing = 5 ∷ 2 ∷ 1 ∷ 0 ∷ 5 ∷ 7 ∷ 0 ∷ 1 ∷ 0 ∷ 0 ∷ 0 ∷ 0 ∷ 0 ∷ 0 ∷ [];
      writes = 6;
      closed = true;
    }
unfolding handle_conn denied is_denied authorised open_tunnel read_credentials accept_request
    negotiate read_rfc1929 read_request read_request_header read_request_addr read_full read_from
    write digits acquire user_answer route_answer hydrate_from list_all_resolved_upstreams
    resolve_rows load_universal_proxy_password resolve_users resolve_user build_display_name_routes
    count_names add_routes new_cancel_group find put remove str_discrete ℕ_discrete
bind_is_refused = refl

tunnel_is_granted_example :
    Tunnelled host_of no_text reachable visit hydrated.routing_state
      (some new)
      (some empty)
      client
      handled_client
      far
tunnel_is_granted_example =
    tunnel_is_granted host_of no_text reachable visit hydrated.routing_state (some new) (some empty)
      client far client_tunnels

tunnel_is_closable_example :
    (t : Tunnelled host_of no_text reachable visit hydrated.routing_state
      (some new)
      (some empty)
      client
      handled_client
      far)
    × (during : ConnectionRegistry) × (handled_client.registered ≡ some during)
    × (among 7 (close_by_upstream t.grant.upstream.id during) ≡ true)
tunnel_is_closable_example =
    tunnel_is_closable host_of no_text reachable visit hydrated.routing_state (some new) empty
      new-WellFormed (omega arith) client far client_tunnels

registry_restored_example :
    (r' : ConnectionRegistry) × (handled_client.reg ≡ some r') × SameRegistry r' empty
registry_restored_example =
    registry_restored host_of no_text reachable visit hydrated.routing_state (some new) empty
      new-WellFormed (omega arith) client

read_rfc1929-credentials_example :
    read_rfc1929 (behind (credentials (codes "ann") (codes "pa") ++ 5 ∷ []) far)
    ≡ got (codes "ann", codes "pa") (behind (5 ∷ []) far)
read_rfc1929-credentials_example =
    read_rfc1929-credentials (codes "ann") (codes "pa") (5 ∷ []) far (omega arith) (omega arith)

abbrev conn_of : Link {0} Unit → Conn
conn_of (linked _ c) = c
conn_of (broken _ c) = c

abbrev asked : Conn
asked = conn_of (send_connect (codes "a.b:80") far)

asks : send_connect (codes "a.b:80") far ≡ linked tt asked
unfolding send_connect write split_host_port last_colon first_bracket atoi read_digits
asks = refl

send_connect-Reaches_example : Reaches no_text (codes "a.b:80") far asked
send_connect-Reaches_example = send_connect-Reaches no_text (codes "a.b:80") far asked asks
