-- ===== src/Socks5/Handler.antt =====
-- SOCKS5Proxy.handleConn: the ban, the handshake, the credentials, the dial and the reply. `deny`
-- and `reg` are nil where they are `none`. The tunnel is the upstream connection that Bridge joins
-- to the client's; its copying is not modelled.
use pio.Base.{
  ℕ, Bool, true, false, Option, none, some, List, [], ◌∷◌, GoString, codes, if◌then◌else◌,
}
use pio.Wire.{Conn, Reader, failed, got, ◌>>=◌, close, write, send, or_else}
use pio.DenyList.{DenyList, is_denied, record_failure}
use pio.Model.{UpstreamProxy}
use pio.Registry.{ActiveConnection, ConnectionRegistry, register, deregister}
use pio.Routing.State.{RoutingState}
use pio.Tunnel.Acquire.{TunnelError, unknown_user, bad_password, Grant, granted, refused, acquire}
use pio.Tunnel.Dial.{Dialled, connected, dial_error}
use pio.Socks5.Request.{
  negotiate, read_rfc1929, read_request, write_reply, refuse, auth_ver_user_pwd, rep_succeeded,
  rep_general_failure,
}

-- What is fixed for one connection: its address, the readings of the clock, and the number of the
-- context that it derives from its cancel group.
pub record Visit : Type 0 where
  pub remote_addr : GoString
  pub checked_at : ℕ
  pub failed_at : ℕ
  pub accepted_at : ℕ
  pub context : ℕ

-- `registered` is the registry while the upstream is dialled and bridged.
pub record Handled : Type 0 where
  pub conn : Conn
  pub deny : Option DenyList
  pub registered : Option ConnectionRegistry
  pub reg : Option ConnectionRegistry
  pub tunnel : Option Conn

-- The failures that count against the address.
abbrev pub counts : TunnelError → Bool
counts unknown_user = true
counts bad_password = true
counts _ = false

abbrev pub auth_failed : List ℕ
auth_failed = auth_ver_user_pwd ∷ 1 ∷ []

abbrev pub auth_ok : List ℕ
auth_ok = auth_ver_user_pwd ∷ 0 ∷ []

abbrev pub rejected : Option DenyList → Option ConnectionRegistry → Conn → Handled
rejected deny reg c = record { conn = c; deny = deny; registered = none; reg = reg; tunnel = none }

abbrev pub entry_of : Visit → GoString → GoString → GoString → ActiveConnection
entry_of v username upstream_id target = record {
  id = 0;
  username = username;
  upstream_id = upstream_id;
  client_addr = v.remote_addr;
  protocol = codes "socks5";
  target = target;
  accepted_at = v.accepted_at;
  bytes_in = 0;
  bytes_out = 0;
  cancel_func = v.context;
}

-- Register, and what the deferred Deregister leaves.
abbrev pub enter : ActiveConnection → Option ConnectionRegistry → Option ConnectionRegistry
enter entry none = none
enter entry (some r) = some (register entry r).1

abbrev pub leave : ActiveConnection → Option ConnectionRegistry → Option ConnectionRegistry
leave entry none = none
leave entry (some r) = some (deregister (register entry r).0 (register entry r).1)

module _ (split_host : GoString → Option GoString) where
  unfoldable pub denied : Visit → Option DenyList → Bool × Option DenyList
  denied v none = (false, none)
  denied v (some d) =
      let (b, d') = is_denied split_host v.checked_at d v.remote_addr in (b, some d')

  unfoldable pub blame : Visit → TunnelError → Option DenyList → Option DenyList
  blame v e none = none
  blame v e (some d) =
      some (if counts e then (record_failure split_host v.failed_at d v.remote_addr).1 else d)

-- Step 4, over a client that asked for `target`.
unfoldable pub open_tunnel :
    (UpstreamProxy → GoString → GoString → Dialled)
    → Visit
    → GoString
    → Grant
    → GoString
    → Option DenyList
    → Option ConnectionRegistry
    → Conn
    → Handled
open_tunnel dial_upstream v username g target deny reg c =
    let entry = entry_of v username g.upstream.id target in
    elim (dial_upstream g.upstream g.upstream_pwd target) [
      | dial_error e _ ↦ record {
        conn = refuse rep_general_failure c;
        deny = deny;
        registered = enter entry reg;
        reg = leave entry reg;
        tunnel = none;
      }
      | connected up ↦ elim (write_reply rep_succeeded c) [
        | failed c' ↦ record {
          conn = close c';
          deny = deny;
          registered = enter entry reg;
          reg = leave entry reg;
          tunnel = none;
        }
        | got _ c' ↦ record {
          conn = c';
          deny = deny;
          registered = enter entry reg;
          reg = leave entry reg;
          tunnel = some up;
        }
      ]
    ]

-- Steps 1 and 2, up to the credentials.
unfoldable pub read_credentials : Reader (GoString × GoString)
read_credentials = do _ ← negotiate; or_else read_rfc1929 (λ c. close (send auth_failed c))

unfoldable pub accept_request : (List ℕ → GoString) → Reader GoString
accept_request ipv6_string = do _ ← or_else (write auth_ok) close; read_request ipv6_string

-- Beside SplitHostPort and the text of an IPv6 address, the dial is the manager's DialUpstream.
module _ (split_host : GoString → Option GoString) (ipv6_string : List ℕ → GoString)
    (dial_upstream : UpstreamProxy → GoString → GoString → Dialled) where
  unfoldable pub authorised :
      Visit
      → Option RoutingState
      → GoString × GoString
      → Option DenyList
      → Option ConnectionRegistry
      → Conn
      → Handled
  authorised v state (username, password) deny reg c = elim (acquire state username password) [
    | refused e ↦ rejected (blame split_host v e deny) reg (close (send auth_failed c))
    | granted g ↦ elim (accept_request ipv6_string c) [
      | failed c' ↦ rejected deny reg c'
      | got target c' ↦ open_tunnel dial_upstream v username g target deny reg c'
    ]
  ]

  unfoldable pub handle_conn :
      Visit → Option RoutingState → Option DenyList → Option ConnectionRegistry → Conn → Handled
  handle_conn v state deny reg c =
      let (banned, deny') = denied split_host v deny in
      if banned then rejected deny' reg (close c) else elim (read_credentials c) [
        | failed c' ↦ rejected deny' reg c'
        | got login c' ↦ authorised v state login deny' reg c'
      ]
