-- ===== src/Unified.antt =====
-- internal/listener/unified.go: one port for both protocols. The first byte decides; it is read and
-- replayed to the handler by prefixConn. The HTTP handler, over net/http, is an argument.
pub mod Dispatch
pub mod Tests
use pio.Base.{
  ℕ, ◌==◌, Bool, true, false, Option, none, some, List, [], ◌∷◌, ◌++◌, GoString, if◌then◌else◌,
}
use pio.Wire.{Conn, Read, failed, got, close, read_full, byte_at}
use pio.DenyList.{DenyList}
use pio.Model.{UpstreamProxy}
use pio.Registry.{ConnectionRegistry}
use pio.Routing.State.{RoutingState}
use pio.Tunnel.Dial.{Dialled}
use pio.Socks5.Request.{socks_ver}
use pio.Socks5.Handler.{Visit, Handled, rejected, denied}

-- prefixConn: the prefix is read before the rest, all else is the connection's.
abbrev pub new_prefix_conn : Conn → List ℕ → Conn
new_prefix_conn c prefix = record c { incoming = prefix ++ c.incoming }

abbrev pub Handler : Type 0
Handler = Visit → Option RoutingState → Option DenyList → Option ConnectionRegistry → Conn → Handled

unfoldable pub dispatch :
    (GoString → Option GoString)
    → Handler
    → Handler
    → Visit
    → Option RoutingState
    → Option DenyList
    → Option ConnectionRegistry
    → Conn
    → Handled
dispatch split_host socks_h http_h v state deny reg c =
    let (banned, deny') = denied split_host v deny in
    if banned then rejected deny' reg (close c) else elim (read_full 1 c) [
      | failed c' ↦ rejected deny' reg (close c')
      | got first c' ↦
          let pc = new_prefix_conn c' first in
          if byte_at first 0 == socks_ver
          then socks_h v state deny' reg pc
          else http_h v state deny' reg pc
    ]
