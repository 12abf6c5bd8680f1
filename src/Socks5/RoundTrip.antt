-- ===== src/Socks5/RoundTrip.antt =====
-- The two sides of SOCKS5 against each other: what the client side of internal/tunnel writes, the
-- server side of internal/listener reads back.
use pio.Base.{
  ℕ, ◌+◌, ◌*◌, ◌/◌, ◌≤◌, ◌≡◌, sym, ap, ◌∙◌, List, [], ◌∷◌, ◌++◌, GoString, length, arith, codes,
  some,
}
use mathlib.Core.List.{append_assoc, append-nil}
use pio.Wire.{Conn, Reader, failed, got, ◌>>=◌, return, read_from, read_full, byte_at}
use pio.Wire.Text.{itoa, atoi, split_host_port}
use pio.Tunnel.Dial.{credentials, connect_request, byte, send_connect, linked}
use pio.Tunnel.Links.{sent_connect}
use pio.Socks5.Request.{
  read_rfc1929, read_request_header, read_request_addr, read_request, refuse, rep_general_failure,
}

-- The connection once these bytes are read.
abbrev pub behind : List ℕ → Conn → Conn
behind rest c = record c { incoming = rest }

read_from-append :
    (bs taken rest : List ℕ) (c : Conn)
    → read_from (length bs) taken (bs ++ rest) c ≡ got (taken ++ bs) (behind rest c)
unfolding read_from
read_from-append [] taken rest c = ap (λ l. got l (behind rest c)) (sym (append-nil taken))
read_from-append (b ∷ bs) taken rest c =
    read_from-append bs (taken ++ b ∷ []) rest c
    ∙ ap (λ l. got l (behind rest c)) (append_assoc taken (b ∷ []) bs)

read_full-append :
    (bs rest : List ℕ) (c : Conn)
    → read_full (length bs) (behind (bs ++ rest) c) ≡ got bs (behind rest c)
unfolding read_full
read_full-append bs rest c = read_from-append bs [] rest (behind (bs ++ rest) c)

byte_id : (n : ℕ) → n ≤ 255 → byte n ≡ n
byte_id n h = omega arith

-- A length byte and the string that it announces.
read_counted :
    (bs rest : List ℕ) (c : Conn)
    → length bs ≤ 255
    → read_full (byte (length bs)) (behind (bs ++ rest) c) ≡ got bs (behind rest c)
read_counted bs rest c h = rw (byte_id (length bs) h) (read_full-append bs rest c)

bind_got {ℓ κ} :
    {A : Type ℓ} {B : Type κ} (m : Reader A) (f : A → Reader B) {c c' : Conn} {a : A}
    → m c ≡ got a c'
    → (m >>= f) c ≡ f a c'
bind_got m f {c} {c'} {a} e = ap (λ r. elim r [ failed d ↦ failed d | got x d ↦ f x d ]) e

abbrev with_password : GoString → List ℕ → Reader (GoString × GoString)
with_password uname pword = return (uname, pword)

abbrev with_name : GoString → Reader (GoString × GoString)
with_name uname = do
  plen ← read_full 1
  pword ← read_full (byte_at plen 0)
  with_password uname pword

-- The server reads back the credentials that the client sends, if neither is longer than a byte
-- can count.
pub read_rfc1929-credentials :
    (username password rest : GoString) (c : Conn)
    → length username ≤ 255
    → length password ≤ 255
    → read_rfc1929 (behind (credentials username password ++ rest) c)
      ≡ got (username, password) (behind rest c)
unfolding read_rfc1929 read_full read_from
read_rfc1929-credentials username password rest c hu hp =
    rw (append_assoc username (byte (length password) ∷ password) rest) (
      bind_got (read_full (byte (length username))) with_name
        (read_counted username (byte (length password) ∷ password ++ rest) c hu)
      ∙ bind_got (read_full (byte (length password))) (with_password username)
          (read_counted password rest c hp))

-- The bytes of a port.
port_bytes : (port : ℕ) → port ≤ 65_535 → byte (port / 256) * 256 + byte port ≡ port
port_bytes port h = omega arith

abbrev with_port : GoString → List ℕ → Reader GoString
with_port host pb = return (host ++ codes ":" ++ itoa (byte_at pb 0 * 256 + byte_at pb 1))

abbrev with_host : GoString → Reader GoString
with_host host = do pb ← read_full 2; with_port host pb

read_domain_addr :
    (ipv6_string : List ℕ → GoString) (host rest : GoString) (port : ℕ) (c : Conn)
    → length host ≤ 255
    → port ≤ 65_535
    → read_request_addr ipv6_string 3
        (behind (byte (length host) ∷ host ++ (byte (port / 256) ∷ byte port ∷ rest)) c)
      ≡ got (host ++ codes ":" ++ itoa port) (behind rest c)
unfolding read_request_addr read_full read_from
read_domain_addr ipv6_string host rest port c hh hp =
    bind_got (read_full (byte (length host))) with_host
      (read_counted host (byte (port / 256) ∷ byte port ∷ rest) c hh)
    ∙ ap (λ n. got (host ++ codes ":" ++ itoa n) (behind rest c)) (port_bytes port hp)

-- The server reads the target out of a CONNECT request of the client.
pub read_request-connect_request :
    (ipv6_string : List ℕ → GoString) (host rest : GoString) (port : ℕ) (c : Conn)
    → length host ≤ 255
    → port ≤ 65_535
    → read_request ipv6_string (behind (connect_request host port ++ rest) c)
      ≡ got (host ++ codes ":" ++ itoa port) (behind rest c)
unfolding read_request read_request_header read_full read_from
read_request-connect_request ipv6_string host rest port c hh hp =
    rw (append_assoc host (byte (port / 256) ∷ byte port ∷ []) rest) (
      ap (λ r. elim r [ failed d ↦ failed (refuse rep_general_failure d) | got x d ↦ got x d ])
        (read_domain_addr ipv6_string host rest port c hh hp))

-- What was sent is a request, which a server reads as the host and port of the target.
abbrev pub Reaches : (List ℕ → GoString) → GoString → Conn → Conn → Type 0
Reaches ipv6_string target c c' =
    (host port_str : GoString) × (port : ℕ) × (request : List ℕ) × (split_host_port target
      ≡ some (host, port_str))
    × (atoi port_str ≡ some port)
    × (c'.outgoing ≡ c.outgoing ++ request)
    × ((rest : List ℕ) (d : Conn)
        → read_request ipv6_string (behind (request ++ rest) d)
          ≡ got (host ++ codes ":" ++ itoa port) (behind rest d))

-- A target that the daemon dials through a SOCKS5 upstream reaches it: a server that reads requests
-- as the daemon's own listener does gets the host byte for byte and the port's number.
pub send_connect-Reaches :
    (ipv6_string : List ℕ → GoString) (target : GoString) (c c' : Conn)
    → send_connect target c ≡ linked tt c'
    → Reaches ipv6_string target c c'
send_connect-Reaches ipv6_string target c c' h =
    let s = sent_connect target c c' h in
    (
      s.host,
      s.port_str,
      s.port,
      connect_request s.host s.port,
      s.parts,
      s.number,
      s.sent,
      λ rest d.
          read_request-connect_request ipv6_string s.host rest s.port d s.host_short s.port_small,
    )
