-- ===== src/Socks5/Request.antt =====
-- The messages of the handshake, as SOCKS5Proxy reads and answers them.
use pio.Base.{
  ℕ, ◌+◌, ◌*◌, Bool, List, [], ◌∷◌, ◌++◌, GoString, among, codes, ◌==◌, ◌||◌, ◌&&◌, if◌then◌else◌,
}
use pio.Wire.{
  Conn, Reader, failed, ◌>>=◌, return, close, read_full, write, send, or_else, require, byte_at,
}
use pio.Wire.Text.{itoa}

abbrev pub socks_ver : ℕ
socks_ver = 5

abbrev pub auth_ver_user_pwd : ℕ
auth_ver_user_pwd = 1

abbrev pub method_user_pwd : ℕ
method_user_pwd = 2

abbrev pub method_no_accept : ℕ
method_no_accept = 255

abbrev pub cmd_connect : ℕ
cmd_connect = 1

abbrev pub atyp_ipv4 : ℕ
atyp_ipv4 = 1

abbrev pub atyp_domain : ℕ
atyp_domain = 3

abbrev pub atyp_ipv6 : ℕ
atyp_ipv6 = 4

abbrev pub rep_succeeded : ℕ
rep_succeeded = 0

abbrev pub rep_general_failure : ℕ
rep_general_failure = 1

abbrev pub rep_command_not_supported : ℕ
rep_command_not_supported = 7

abbrev pub rep_addr_type_not_supported : ℕ
rep_addr_type_not_supported = 8

abbrev pub contains_byte : List ℕ → ℕ → Bool
contains_byte haystack needle = among needle haystack

abbrev pub reply : ℕ → List ℕ
reply rep = socks_ver ∷ rep ∷ 0 ∷ atyp_ipv4 ∷ 0 ∷ 0 ∷ 0 ∷ 0 ∷ 0 ∷ 0 ∷ []

abbrev pub write_reply : ℕ → Reader {0} Unit
write_reply rep = write (reply rep)

-- writeReply with its error ignored, then Close.
abbrev pub refuse : ℕ → Conn → Conn
refuse rep c = close (send (reply rep) c)

-- Step 1: a greeting that offers user/password is accepted.
unfoldable pub negotiate : Reader {0} Unit
negotiate = do
  hdr ← or_else (read_full 2) close
  _ ← require (byte_at hdr 0 == socks_ver) close
  methods ← or_else (read_full (byte_at hdr 1)) close
  _ ←
      require (contains_byte methods method_user_pwd)
        (λ c. close (send (socks_ver ∷ method_no_accept ∷ []) c))
  or_else (write (socks_ver ∷ method_user_pwd ∷ [])) close

unfoldable pub read_rfc1929 : Reader (GoString × GoString)
read_rfc1929 = do
  hdr ← read_full 2
  _ ← require (byte_at hdr 0 == auth_ver_user_pwd) (λ c. c)
  uname ← read_full (byte_at hdr 1)
  plen ← read_full 1
  pword ← read_full (byte_at plen 0)
  return (uname, pword)

-- cmd and atyp.
unfoldable pub read_request_header : Reader (ℕ × ℕ)
read_request_header = do
  hdr ← read_full 4
  _ ← require (byte_at hdr 0 == socks_ver && byte_at hdr 2 == 0) (λ c. c)
  return (byte_at hdr 1, byte_at hdr 3)

abbrev pub dot : List ℕ
dot = codes "."

-- net.IP.String of four bytes.
abbrev pub dotted_quad : List ℕ → GoString
dotted_quad b =
    itoa (byte_at b 0)
    ++ dot
    ++ itoa (byte_at b 1)
    ++ dot
    ++ itoa (byte_at b 2)
    ++ dot
    ++ itoa (byte_at b 3)

-- `ipv6_string` is net.IP.String of sixteen bytes.
module _ (ipv6_string : List ℕ → GoString) where
  read_ipv4 : Reader GoString
  read_ipv4 = do b ← read_full 4; return (dotted_quad b)

  read_ipv6 : Reader GoString
  read_ipv6 = do b ← read_full 16; return (codes "[" ++ ipv6_string b ++ codes "]")

  read_domain : Reader GoString
  read_domain = do lb ← read_full 1; read_full (byte_at lb 0)

  abbrev read_host : ℕ → Reader GoString
  read_host atyp =
      if atyp == atyp_ipv4
      then read_ipv4
      else (if atyp == atyp_ipv6
          then read_ipv6
          else (if atyp == atyp_domain then read_domain else failed))

  unfoldable pub read_request_addr : ℕ → Reader GoString
  unfolding read_ipv4 read_ipv6 read_domain
  read_request_addr atyp = do
    host ← read_host atyp
    pb ← read_full 2
    return (host ++ codes ":" ++ itoa (byte_at pb 0 * 256 + byte_at pb 1))

  -- Step 3: the target of a CONNECT, or the reply that refuses the request.
  unfoldable pub read_request : Reader GoString
  read_request = do
    head ← or_else read_request_header (refuse rep_general_failure)
    let (cmd, atyp) = head
    _ ← require (cmd == cmd_connect) (refuse rep_command_not_supported)
    _ ←
        require (atyp == atyp_ipv4 || atyp == atyp_ipv6 || atyp == atyp_domain)
          (refuse rep_addr_type_not_supported)
    or_else (read_request_addr atyp) (refuse rep_general_failure)
