-- ===== src/Http/Responses.antt =====
-- The credentials of a request, and the responses that refuse one.
use pio.Base.{
  ℕ, Option, none, some, [], ◌∷◌, ◌++◌, GoString, codes, str_eq, length, take, drop, ◌==◌,
  if◌then◌else◌,
}
use pio.Wire.{Conn, close, send}
use pio.Wire.Text.{itoa}
use pio.Tunnel.Acquire.{TunnelError, unknown_user, bad_password, broken_mapping}

abbrev pub basic : GoString
basic = codes "Basic "

-- strings.SplitN(s, ":", 2), where it has two parts.
unfoldable pub split_colon : GoString → Option (GoString × GoString)
split_colon [] = none
split_colon (b ∷ bs) =
    let rest = split_colon bs in
    if b == 58
    then some ([], bs)
    else elim rest [ none ↦ none | some (before, behind) ↦ some (b ∷ before, behind) ]

unfoldable pub parse_proxy_auth :
    (GoString → Option GoString) → GoString → Option (GoString × GoString)
unfolding split_colon
parse_proxy_auth decode h =
    if str_eq (take 6 h) basic
    then elim (decode (drop 6 h)) [ none ↦ none | some raw ↦ split_colon raw ]
    else none

abbrev crlf : GoString
crlf = 13 ∷ 10 ∷ []

abbrev pub line : GoString → GoString
line text = text ++ crlf

-- The end of the head, for a body of this length.
abbrev tail_of : ℕ → GoString
tail_of n =
    line (codes "Content-Type: text/plain; charset=utf-8")
    ++ line (codes "Content-Length: " ++ itoa n)
    ++ line (codes "Connection: close")
    ++ crlf

abbrev body_of : GoString → GoString
body_of msg = msg ++ 10 ∷ []

-- The head and the body are two writes, whose errors are ignored.
abbrev respond : GoString → GoString → Conn → Conn
respond head msg c = close (send (body_of msg) (send (head ++ tail_of (length (body_of msg))) c))

abbrev pub write_407 : GoString → Conn → Conn
write_407 msg c =
    respond
      (line (codes "HTTP/1.1 407 Proxy Authentication Required")
        ++ line (codes "Proxy-Authenticate: Basic realm=" ++ 34 ∷ codes "pio" ++ 34 ∷ []))
      msg c

abbrev pub write_400 : GoString → Conn → Conn
write_400 msg c = respond (line (codes "HTTP/1.1 400 Bad Request")) msg c

abbrev pub write_502 : GoString → Conn → Conn
write_502 msg c = respond (line (codes "HTTP/1.1 502 Bad Gateway")) msg c

-- writeStatus(conn, 403, "rate limited")
abbrev pub write_403 : GoString → Conn → Conn
write_403 msg c = respond (line (codes "HTTP/1.1 403 Forbidden")) msg c

unfoldable pub handle_auth_error : TunnelError → Conn → Conn
handle_auth_error unknown_user c = write_407 (codes "invalid credentials") c
handle_auth_error bad_password c = write_407 (codes "invalid credentials") c
handle_auth_error broken_mapping c = write_502 (codes "upstream not available") c
handle_auth_error _ c = write_502 (codes "internal error") c
