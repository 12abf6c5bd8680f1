-- ===== src/Unified/Tests.antt =====
-- A SOCKS5 client on the unified port.
use pio.Base.{◌≡◌, refl, false, Option, none, some, [], ◌∷◌, GoString, codes, ◌==◌, if◌then◌else◌}
use pio.Wire.{Conn, close}
use pio.Wire.Text.{split_host_port}
use pio.Socks5.Handler.{Visit, rejected, denied}
use pio.Unified.{Handler, dispatch}
use pio.Unified.Dispatch.{dispatch_transparent}

abbrev host_of : GoString → Option GoString
host_of addr = elim (split_host_port addr) [ none ↦ none | some (host, port) ↦ some host ]

abbrev closing : Handler
closing v state deny reg c = rejected deny reg (close c)

abbrev leaving : Handler
leaving v state deny reg c = rejected deny reg c

abbrev visit : Visit
visit = record {
  remote_addr = codes "9.9.9.9:1";
  checked_at = 1;
  failed_at = 2;
  accepted_at = 3;
  context = 7;
}

abbrev greeting : Conn
greeting = record { incoming = 5 ∷ 1 ∷ 2 ∷ []; outgoing = []; writes = 9; closed = false }

dispatch_transparent_example : dispatch host_of closing leaving visit none none none greeting ≡ (
    if 5 == 5
    then closing visit none (denied host_of visit none).1 none greeting
    else leaving visit none (denied host_of visit none).1 none greeting)
dispatch_transparent_example =
    dispatch_transparent host_of closing leaving visit none none none greeting 5 (1 ∷ 2 ∷ []) refl
      (unfold denied in refl)
