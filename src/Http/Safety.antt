-- ===== src/Http/Safety.antt =====
-- What the HTTP handler guarantees.
use pio.Base.{
  ◌≡◌, refl, false, Option, none, some, [], ◌∷◌, ◌++◌, GoString, codes, among, arith, str_discrete,
  Option-cases, Bool-cases, inl, inr,
}
use pio.Wire.{Conn, Reader, got, write}
use pio.DenyList.{DenyList}
use pio.Model.{UpstreamProxy}
use pio.Registry.{ConnectionRegistry}
use pio.Routing.State.{RoutingState}
use pio.Tunnel.Acquire.{Grant, granted, acquire}
use pio.Tunnel.Dial.{Dialled, connected}
use pio.Socks5.Handler.{Visit, Handled, denied, enter}
use pio.Socks5.Safety.{Read-cases, Answer-cases, Dialled-cases}
use pio.Http.Responses.{basic, split_colon, parse_proxy_auth}
use pio.Http.Handler.{
  RequestHead, Relayed, target_of, established, http_entry, handle_connect, serve_request,
  handle_request, handle_http_conn,
}

split_colon-append :
    (username password : GoString)
    → among 58 username ≡ false
    → split_colon (username ++ 58 ∷ password) ≡ some (username, password)
unfolding split_colon
split_colon-append [] password h = refl
split_colon-append (b ∷ bs) password h = ground (arith, split_colon-append bs password)

-- A Basic header whose base64 decodes to "name:password" gives that name and password; the password
-- may contain colons, the name may not.
pub parse_proxy_auth-basic :
    (decode : GoString → Option GoString) (h username password : GoString)
    → decode h ≡ some (username ++ 58 ∷ password)
    → among 58 username ≡ false
    → parse_proxy_auth decode (basic ++ h) ≡ some (username, password)
unfolding parse_proxy_auth str_discrete
parse_proxy_auth-basic decode h username password d n =
    rw (d) (split_colon-append username password n)

-- How a CONNECT came to its tunnel.
pub record Connected (split_host decode : GoString → Option GoString)
    (read_request : Reader RequestHead)
    (dial_upstream : UpstreamProxy → GoString → GoString → Dialled) (v : Visit)
    (state : Option RoutingState) (deny : Option DenyList) (reg : Option ConnectionRegistry)
    (c : Conn) (h : Handled) (up : Conn) : Type 0 where
  pub head : RequestHead
  pub username : GoString
  pub password : GoString
  pub grant : Grant
  pub at_request : Conn
  pub not_banned : (denied split_host v deny).0 ≡ false
  pub request : read_request c ≡ got head at_request
  pub login : parse_proxy_auth decode head.proxy_authorization ≡ some (username, password)
  pub allowed : acquire state username password ≡ granted grant
  pub dialled : dial_upstream grant.upstream grant.upstream_pwd (target_of head) ≡ connected up
  pub registered :
      h.registered ≡ enter (http_entry v username grant.upstream.id (target_of head)) reg

module _ (split_host decode : GoString → Option GoString) (read_request : Reader RequestHead)
    (dial_upstream : UpstreamProxy → GoString → GoString → Dialled)
    (absolute_form : RequestHead → Grant → Conn → Relayed) (v : Visit) (state : Option RoutingState)
    (deny : Option DenyList) (reg : Option ConnectionRegistry) (c : Conn)
    (closes : (req : RequestHead) (g : Grant) (d : Conn) → (absolute_form req g d).1 ≡ none) where
  abbrev served : Handled
  served =
      handle_http_conn split_host decode read_request dial_upstream absolute_form v state deny reg c

  -- If the relay of a plain request leaves no tunnel, the HTTP proxy opens one only for a client that
  -- is not banned, whose Basic credentials Acquire grants, to the granted upstream and the target of
  -- its request.
  pub http_tunnel_is_granted :
      (up : Conn)
      → served.tunnel ≡ some up
      → Connected split_host decode read_request dial_upstream v state deny reg c served up
  unfolding handle_http_conn handle_request serve_request handle_connect
  http_tunnel_is_granted up h = elim (Bool-cases (denied split_host v deny).0) [
    | inl b ↦ absurd (ground arith)
    | inr b ↦ elim (Read-cases (read_request c)) [
      | inl (c1, e) ↦ absurd (ground arith)
      | inr (req, c1, e) ↦ elim (Option-cases (parse_proxy_auth decode req.proxy_authorization)) [
        | inl p ↦ absurd (ground arith)
        | inr ((username, password), p) ↦ elim (Answer-cases (acquire state username password)) [
          | inr (x, a) ↦ absurd (ground arith)
          | inl (g, a) ↦ elim (str_discrete req.method (codes "CONNECT")) [
            | no n ↦ absurd (ground (arith, closes req g c1))
            | yes y ↦
                elim (Dialled-cases (dial_upstream g.upstream g.upstream_pwd (target_of req))) [
                  | inr (x, o, d) ↦ absurd (ground arith)
                  | inl (up', d) ↦ record {
                    head = req;
                    username = username;
                    password = password;
                    grant = g;
                    at_request = c1;
                    not_banned = b;
                    request = e;
                    login = p;
                    allowed = a;
                    dialled = elim (Read-cases (write established c1)) [
                      | inl (c2, w) ↦ absurd (ground arith)
                      | inr (_, c2, w) ↦ ground arith
                    ];
                    registered = ground arith;
                  }
                ]
          ]
        ]
      ]
    ]
  ]
