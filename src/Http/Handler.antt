-- ===== src/Http/Handler.antt =====
-- HTTPProxy.handleConn and handleConnect.
use pio.Base.{Bool, Option, none, some, [], ◌++◌, GoString, codes, str_eq, if◌then◌else◌}
use pio.Wire.{Conn, Reader, failed, got, close, write}
use pio.DenyList.{DenyList}
use pio.Model.{UpstreamProxy}
use pio.Registry.{ActiveConnection, ConnectionRegistry}
use pio.Routing.State.{RoutingState}
use pio.Tunnel.Acquire.{Grant, granted, refused, acquire}
use pio.Tunnel.Dial.{Dialled, connected, dial_error}
use pio.Socks5.Handler.{Visit, Handled, rejected, denied, blame, entry_of, enter, leave}
use pio.Http.Headers.{Header}
use pio.Http.Responses.{parse_proxy_auth, line, write_407, write_502, write_403, handle_auth_error}

-- What the handler looks at in an http.Request: `url` is the scheme and the host, and
-- `proxy_authorization` what the header has under that name.
pub record RequestHead : Type 0 where
  pub method : GoString
  pub request_uri : GoString
  pub host : GoString
  pub proxy_authorization : GoString
  pub url : Option (GoString × GoString)
  pub header : Header
  pub trailer : Header
  pub close_after : Bool

abbrev pub target_of : RequestHead → GoString
target_of req = if str_eq req.request_uri [] then req.host else req.request_uri

abbrev pub established : GoString
established = line (codes "HTTP/1.1 200 Connection established") ++ line []

-- The connection to the client and the tunnel, if there is one.
abbrev pub Relayed : Type 0
Relayed = Conn × Option Conn

unfoldable pub handle_connect :
    (UpstreamProxy → GoString → GoString → Dialled) → RequestHead → Grant → Conn → Relayed
handle_connect dial_upstream req g c =
    elim (dial_upstream g.upstream g.upstream_pwd (target_of req)) [
      | dial_error e _ ↦ (write_502 (codes "upstream dial failed") c, none)
      | connected up ↦ elim (write established c) [
        | failed c' ↦ (close c', none)
        | got _ c' ↦ (c', some up)
      ]
    ]

abbrev pub http_entry : Visit → GoString → GoString → GoString → ActiveConnection
http_entry v username upstream_id target = record (entry_of v username upstream_id target) {
  protocol = codes "http";
}

-- `read_request` is http.ReadRequest, `absolute_form` the relay of a plain request.
module _ (split_host decode : GoString → Option GoString) (read_request : Reader RequestHead)
    (dial_upstream : UpstreamProxy → GoString → GoString → Dialled)
    (absolute_form : RequestHead → Grant → Conn → Relayed) where
  unfoldable pub serve_request :
      Visit
      → GoString
      → RequestHead
      → Grant
      → Option DenyList
      → Option ConnectionRegistry
      → Conn
      → Handled
  serve_request v username req g deny reg c =
      let entry = http_entry v username g.upstream.id (target_of req) in
      let (c', tunnel) =
        if str_eq req.method (codes "CONNECT")
        then handle_connect dial_upstream req g c
        else absolute_form req g c in
      record {
        conn = c';
        deny = deny;
        registered = enter entry reg;
        reg = leave entry reg;
        tunnel = tunnel;
      }

  unfoldable pub handle_request :
      Visit
      → Option RoutingState
      → RequestHead
      → Option DenyList
      → Option ConnectionRegistry
      → Conn
      → Handled
  handle_request v state req deny reg c = elim (parse_proxy_auth decode req.proxy_authorization) [
    | none ↦ rejected deny reg (write_407 (codes "missing or malformed Proxy-Authorization") c)
    | some (username, password) ↦ elim (acquire state username password) [
      | refused e ↦ rejected (blame split_host v e deny) reg (handle_auth_error e c)
      | granted g ↦ serve_request v username req g deny reg c
    ]
  ]

  unfoldable pub handle_http_conn :
      Visit → Option RoutingState → Option DenyList → Option ConnectionRegistry → Conn → Handled
  handle_http_conn v state deny reg c =
      let (banned, deny') = denied split_host v deny in
      if banned
      then rejected deny' reg (write_403 (codes "rate limited") c)
      else elim (read_request c) [
        | failed c' ↦ rejected deny' reg (close c')
        | got req c' ↦ handle_request v state req deny' reg c'
      ]
