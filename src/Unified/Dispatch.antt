-- ===== src/Unified/Dispatch.antt =====
-- The unified port is no different from the port of the one protocol that the client speaks.
use pio.Base.{
  ℕ, ◌==◌, ◌≡◌, refl, sym, ap, false, Option, List, [], ◌∷◌, GoString, arith, if◌then◌else◌,
}
use pio.Wire.{Conn, got, read_from, read_full}
use pio.DenyList.{DenyList}
use pio.Registry.{ConnectionRegistry}
use pio.Routing.State.{RoutingState}
use pio.Socks5.Handler.{Visit, denied}
use pio.Unified.{Handler, dispatch}

replayed :
    (c : Conn) (first : ℕ) (rest : List ℕ)
    → c.incoming ≡ first ∷ rest
    → read_full 1 c ≡ got (first ∷ []) (record c { incoming = rest })
unfolding read_full read_from
replayed c first rest e = rw (e) refl

restored :
    (c : Conn) (first : ℕ) (rest : List ℕ)
    → c.incoming ≡ first ∷ rest
    → record c { incoming = first ∷ rest } ≡ c
restored c first rest e = ap (λ l. record c { incoming = l }) (sym e)

-- A client that is not banned is handled by the protocol that its first byte names, over the whole
-- connection as it came in, first byte included.
pub dispatch_transparent :
    (split_host : GoString → Option GoString) (socks_h http_h : Handler) (v : Visit)
    (state : Option RoutingState) (deny : Option DenyList) (reg : Option ConnectionRegistry)
    (c : Conn) (first : ℕ) (rest : List ℕ)
    → c.incoming ≡ first ∷ rest
    → (denied split_host v deny).0 ≡ false
    → dispatch split_host socks_h http_h v state deny reg c ≡ (
        if first == 5
        then socks_h v state (denied split_host v deny).1 reg c
        else http_h v state (denied split_host v deny).1 reg c)
unfolding dispatch
dispatch_transparent split_host socks_h http_h v state deny reg c first rest e b =
    ground (arith, replayed c first rest e, restored c first rest e)
