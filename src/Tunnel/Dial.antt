-- ===== src/Tunnel/Dial.antt =====
-- DialUpstream of internal/tunnel/tunnel.go: the connection through an upstream proxy. Arguments
-- are the TCP dialer, the TLS handshake and the reading and writing of HTTP messages, which are not
-- the program's. Deadlines are part of the connection, as in Wire.
use pio.Base.{
  ℕ, ◌+◌, ◌/◌, ◌%◌, Bool, Option, none, some, List, [], ◌∷◌, ◌++◌, GoString, codes, str_eq, among,
  length, ltb, leb, ◌==◌, ◌||◌, ◌&&◌, not, if◌then◌else◌,
}
use pio.Model.{UpstreamProxy, source_default, protocol_http, protocol_https, protocol_socks5}
use pio.Wire.{Conn, Reader, failed, got, close, read_full, write, byte_at}
use pio.Wire.Text.{itoa, atoi, split_host_port}
use pio.Wire.Base64.{encode_base64}
use pio.Tunnel.Acquire.{TunnelError, upstream_dial, upstream_auth}

-- A handshake that goes on, or has closed its connection with an error.
pub data Link {ℓ} (A : Type ℓ) : Type ℓ where
  linked : A → Conn → Link A
  broken : TunnelError → Conn → Link A

abbrev pub Linker {ℓ} : Type ℓ → Type ℓ
Linker A = Conn → Link A

infixl 5 ◌>>=◌
abbrev pub ◌>>=◌ {ℓ κ} : {A : Type ℓ} {B : Type κ} → Linker A → (A → Linker B) → Linker B
m >>= f = λ c. elim (m c) [ broken e c' ↦ broken e c' | linked a c' ↦ f a c' ]

-- A read or write whose failure is ErrUpstreamDial.
abbrev pub try {ℓ} : {A : Type ℓ} → Reader A → Linker A
try m = λ c. elim (m c) [ failed c' ↦ broken upstream_dial (close c') | got a c' ↦ linked a c' ]

abbrev pub require : Bool → TunnelError → Linker {0} Unit
require ok e = λ c. if ok then linked tt c else broken e (close c)

abbrev pub parsed {ℓ} : {A : Type ℓ} → Option A → Linker A
parsed o = λ c. elim o [ none ↦ broken upstream_dial (close c) | some a ↦ linked a c ]

-- net.JoinHostPort
unfoldable pub join_host_port : GoString → GoString → GoString
join_host_port host port =
    if among 58 host then codes "[" ++ host ++ codes "]:" ++ port else host ++ codes ":" ++ port

-- byte(n)
abbrev pub byte : ℕ → ℕ
byte n = n % 256

abbrev pub method_of : UpstreamProxy → ℕ
method_of up = if str_eq up.username [] then 0 else 2

unfoldable pub greet : ℕ → Linker {0} Unit
greet method = do
  _ ← try (write (5 ∷ 1 ∷ method ∷ []))
  resp ← try (read_full 2)
  _ ← require (byte_at resp 0 == 5) upstream_dial
  _ ← require (not (byte_at resp 1 == 255)) upstream_auth
  require (byte_at resp 1 == method) upstream_dial

-- RFC 1929
abbrev pub credentials : GoString → GoString → List ℕ
credentials username password =
    1 ∷ byte (length username) ∷ username ++ byte (length password) ∷ password

unfoldable pub authenticate : GoString → GoString → Linker {0} Unit
authenticate username password = do
  _ ← require (leb (length username) 255 && leb (length password) 255) upstream_dial
  _ ← try (write (credentials username password))
  ar ← try (read_full 2)
  require (byte_at ar 1 == 0) upstream_auth

abbrev pub connect_request : GoString → ℕ → List ℕ
connect_request host port =
    5 ∷ 1 ∷ 0 ∷ 3 ∷ byte (length host) ∷ host ++ byte (port / 256) ∷ byte port ∷ []

unfoldable pub send_connect : GoString → Linker {0} Unit
send_connect target = do
  parts ← parsed (split_host_port target)
  let (host, port_str) = parts
  port ← parsed (atoi port_str)
  _ ← require (ltb 0 port && leb port 65535) upstream_dial
  _ ← require (leb (length host) 255) upstream_dial
  try (write (connect_request host port))

-- BND.ADDR and BND.PORT are read and dropped.
drain_domain : Linker (List ℕ)
drain_domain = do lb ← try (read_full 1); try (read_full (byte_at lb 0 + 2))

abbrev drain : ℕ → Linker (List ℕ)
drain atyp =
    if atyp == 1
    then try (read_full 6)
    else (if atyp == 4
        then try (read_full 18)
        else (if atyp == 3 then drain_domain else λ c. broken upstream_dial (close c)))

unfoldable pub read_reply : Linker (List ℕ)
unfolding drain_domain
read_reply = do
  head ← try (read_full 4)
  _ ← require (byte_at head 0 == 5) upstream_dial
  _ ← require (byte_at head 1 == 0) upstream_dial
  drain (byte_at head 3)

abbrev skip : Linker {0} Unit
skip = linked tt

unfoldable pub socks5_handshake : UpstreamProxy → GoString → GoString → Linker (List ℕ)
socks5_handshake up password target = do
  _ ← greet (method_of up)
  _ ← if str_eq up.username [] then skip else authenticate up.username password
  _ ← send_connect target
  read_reply

-- The CONNECT request, with the value of its Proxy-Authorization header.
pub record HttpRequest : Type 0 where
  pub method : GoString
  pub host : GoString
  pub proxy_authorization : Option GoString

abbrev pub connect_message : UpstreamProxy → GoString → GoString → HttpRequest
connect_message up password target = record {
  method = codes "CONNECT";
  host = target;
  proxy_authorization =
      if str_eq up.username []
      then none
      else some (codes "Basic " ++ encode_base64 (up.username ++ codes ":" ++ password));
}

-- The connection, or the error and the connection that it closed.
pub data Dialled : Type 0 where
  connected : Conn → Dialled
  dial_error : TunnelError → Option Conn → Dialled

abbrev finished {ℓ} : {A : Type ℓ} → Link A → Dialled
finished (linked _ c) = connected c
finished (broken e c) = dial_error e (some c)

module _ (dial : GoString → Option Conn) (handshake : GoString → Reader {0} Unit)
    (encode : HttpRequest → List ℕ) (read_status : Reader ℕ) where
  finish_http_connect : UpstreamProxy → GoString → GoString → Linker {0} Unit
  finish_http_connect up password target = do
    _ ← try (write (encode (connect_message up password target)))
    status ← try read_status
    _ ← require (not (status == 407)) upstream_auth
    require (status == 200) upstream_dial

  abbrev over_tcp {ℓ} : {A : Type ℓ} → UpstreamProxy → Linker A → Dialled
  over_tcp up m = elim (dial (join_host_port up.host (itoa up.port))) [
    | none ↦ dial_error upstream_dial none
    | some c ↦ finished (m c)
  ]

  dial_direct : GoString → Dialled
  dial_direct target = elim (dial target) [
    | none ↦ dial_error upstream_dial none
    | some c ↦ connected c
  ]

  dial_via_http_connect : UpstreamProxy → GoString → GoString → Dialled
  unfolding finish_http_connect
  dial_via_http_connect up password target = over_tcp up (finish_http_connect up password target)

  dial_via_https_connect : UpstreamProxy → GoString → GoString → Dialled
  unfolding finish_http_connect
  dial_via_https_connect up password target =
      over_tcp up (try (handshake up.host) >>= λ _. finish_http_connect up password target)

  dial_via_socks5 : UpstreamProxy → GoString → GoString → Dialled
  dial_via_socks5 up password target = over_tcp up (socks5_handshake up password target)

  unfoldable pub dial_upstream : UpstreamProxy → GoString → GoString → Dialled
  unfolding dial_direct dial_via_http_connect dial_via_https_connect dial_via_socks5
      finish_http_connect
  dial_upstream up password target =
      if str_eq up.source source_default
      then dial_direct target
      else (if str_eq up.protocol protocol_https
          then dial_via_https_connect up password target
          else (if str_eq up.protocol protocol_socks5
              then dial_via_socks5 up password target
              else (if str_eq up.protocol protocol_http || str_eq up.protocol []
                  then dial_via_http_connect up password target
                  else dial_error upstream_dial none)))
