-- ===== src/Http/Tests.antt =====
-- A CONNECT request on the HTTP proxy.
use pio.Base.{
  if◌then◌else◌, str_eq, ◌≡◌, refl, false, Option, none, some, [], ◌∷◌, ◌⊎◌, ◌++◌, GoString, codes,
  str_discrete, ℕ_discrete,
}
use pio.Base.Map.{find, put, remove}
use pio.Wire.{Conn, Reader, got, write}
use pio.Wire.Text.{split_host_port}
use pio.DenyList.{new, is_denied}
use pio.Model.{UpstreamProxy}
use pio.Store.{resolve_rows, list_all_resolved_upstreams, load_universal_proxy_password}
use pio.Routing.State.{new_cancel_group}
use pio.Routing.Build.{
  hydrate_from, count_names, add_routes, build_display_name_routes, resolve_user, resolve_users,
}
use pio.Tunnel.Acquire.{Grant, acquire, user_answer, route_answer}
use pio.Tunnel.Dial.{Dialled, connected}
use pio.Socks5.Handler.{Visit, Handled, denied}
use pio.Http.Responses.{basic, split_colon, parse_proxy_auth}
use pio.Http.Handler.{
  RequestHead, Relayed, handle_connect, serve_request, handle_request, handle_http_conn,
}
use pio.Http.Safety.{Connected, http_tunnel_is_granted}
use pio.Http.Forward.{
  Response, handle_absolute_form, exchange, final_response, forwarded, returned,
  handle_absolute_form-closes,
}
use pio.Http.Headers.{
  Header, Named, Listed, values, del, del_tokens, del_listed, del_names, split_commas,
  hop_by_hop_headers, strip_hop_by_hop, strip_hop_by_hop-Without,
}
use pio.Api.Text.{trim_left, trim_right}
use pio.Repo.Manual.{is_blank}
use pio.Fixtures.{hydrated, uk}

abbrev host_of : GoString → Option GoString
host_of addr = elim (split_host_port addr) [ none ↦ none | some (host, port) ↦ some host ]

-- A decoder that leaves every text as it is.
abbrev plain_text : GoString → Option GoString
plain_text h = some h

abbrev request : RequestHead
request = record {
  method = codes "CONNECT";
  request_uri = codes "a.b:80";
  host = [];
  proxy_authorization = basic ++ codes "ann:pa";
  url = none;
  header = [];
  trailer = [];
  close_after = false;
}

abbrev reads : Reader RequestHead
reads c = got request c

abbrev far : Conn
far = record { incoming = []; outgoing = []; writes = 9; closed = false }

abbrev reachable : UpstreamProxy → GoString → GoString → Dialled
reachable up password target = connected far

abbrev same_name : GoString → GoString
same_name n = n

abbrev sends : RequestHead → Reader {0} Unit
sends req c = write (codes "request") c

-- An interim response, and then the answer.
abbrev answers : Reader Response
answers c =
    got
      (record {
        status_code = if str_eq c.outgoing [] then 200 else 100;
        header = [];
        body = codes "hello";
        close_after = false;
      })
      (record c { outgoing = [] })

abbrev hands_back : Response → Conn → Conn
hands_back resp c = record c { outgoing = resp.body }

abbrev relays : RequestHead → Grant → Conn → Relayed
relays = handle_absolute_form same_name reachable sends answers 2 hands_back

abbrev grant : Grant
grant = record { upstream = uk; upstream_pwd = []; cancel_group = 0 }

relayed :
    (relays (record request { url = some (codes "http", codes "a.b") }) grant far).0.outgoing
    ≡ codes "hello"
unfolding handle_absolute_form exchange final_response forwarded returned write str_discrete
relayed = refl

abbrev visit : Visit
visit = record {
  remote_addr = codes "9.9.9.9:1";
  checked_at = 1;
  failed_at = 2;
  accepted_at = 3;
  context = 7;
}

abbrev handled_client : Handled
handled_client =
    handle_http_conn host_of plain_text reads reachable relays visit hydrated.routing_state
      (some new) none far

client_tunnels : handled_client.tunnel ≡ some far
unfolding handle_http_conn handle_request serve_request handle_connect parse_proxy_auth split_colon
    denied is_denied write acquire user_answer route_answer hydrate_from list_all_resolved_upstreams
    resolve_rows load_universal_proxy_password resolve_users resolve_user build_display_name_routes
    count_names add_routes new_cancel_group find put remove str_discrete ℕ_discrete
client_tunnels = refl

http_tunnel_is_granted_example :
    Connected host_of plain_text reads reachable visit hydrated.routing_state
      (some new)
      none
      far
      handled_client
      far
http_tunnel_is_granted_example =
    http_tunnel_is_granted host_of plain_text reads reachable relays visit hydrated.routing_state
      (some new) none far
      (handle_absolute_form-closes same_name reachable sends answers 2 hands_back) far
      client_tunnels

abbrev host_only : Header
host_only = (codes "Host", codes "a.b" ∷ []) ∷ []

abbrev header : Header
header =
    (codes "Connection", codes "X-Trace, ,close" ∷ [])
    ∷ (codes "X-Trace", codes "1" ∷ [])
    ∷ (codes "Proxy-Authorization", codes "Basic x" ∷ [])
    ∷ host_only

stripped : strip_hop_by_hop same_name header ≡ host_only
unfolding strip_hop_by_hop values del del_tokens del_listed del_names split_commas find remove
    trim_left trim_right is_blank str_discrete
stripped = refl

strip_hop_by_hop-Without_example :
    (((Listed same_name (values same_name (codes "Connection") header) (codes "X-Trace"))
        ⊎ Named same_name hop_by_hop_headers (codes "X-Trace"))
      × (find str_discrete (codes "X-Trace") (strip_hop_by_hop same_name header) ≡ none))
    ⊎ ((¬ (
          (Listed same_name (values same_name (codes "Connection") header) (codes "X-Trace"))
          ⊎ Named same_name hop_by_hop_headers (codes "X-Trace")))
        × (find str_discrete (codes "X-Trace") (strip_hop_by_hop same_name header)
            ≡ find str_discrete (codes "X-Trace") header))
strip_hop_by_hop-Without_example = strip_hop_by_hop-Without same_name header (codes "X-Trace")
