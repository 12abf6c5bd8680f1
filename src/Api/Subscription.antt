-- ===== src/Api/Subscription.antt =====
-- internal/api/subscription.go. The line of a proxy, which net/url writes with its escapes, and the
-- subscription URL are arguments. The core's snapshot is nil before Hydrate.
use pio.Base.{
  ℕ, Bool, true, false, Option, none, some, List, [], ◌∷◌, GoString, codes, str_eq, if◌then◌else◌,
  not, ◌||◌, map,
}
use pio.Base.Map.{Map}
use pio.Model.{Settings}
use pio.Store.{Result, ok, err, Error, Tables, load_universal_proxy_password}
use pio.DenyList.{DenyList, is_denied, record_failure}
use pio.Routing.State.{RoutingState, DisplayNameRoute}
use pio.Repo.Config.{load_settings}
use pio.Repo.Order.{sort, str_le}
use pio.Tunnel.Dial.{join_host_port}
use pio.Api.Text.{trim_space, is_http, itoa_int, hostname_only}

-- What the handlers read of a request: `password` and `scheme_type` are query parameters.
pub record Request : Type 0 where
  pub remote_addr : GoString
  pub password : GoString
  pub scheme_type : GoString
  pub host : GoString
  pub forwarded_proto : GoString
  pub over_tls : Bool

-- Status 500, 404, 403 and 401, and the list of lines.
pub data Reply : Type 0 where
  failed : Error → Reply
  missing rate_limited wrong_password : Reply
  listing : List GoString → Reply

unfoldable pub route_names : Map GoString DisplayNameRoute → List GoString
route_names [] = []
route_names ((name, route) ∷ routes) = name ∷ route_names routes

abbrev pub names_of : Option RoutingState → List GoString
names_of none = []
names_of (some snap) = route_names snap.by_display_name

abbrev pub scheme_of : Request → GoString
scheme_of r = if is_http (trim_space r.scheme_type) then codes "http" else codes "socks"

abbrev host_or : GoString → GoString → GoString
host_or [] fallback = hostname_only fallback
host_or (b ∷ bs) fallback = b ∷ bs

abbrev pub authority_of : Settings → Request → GoString
authority_of st r =
    join_host_port (host_or (trim_space st.subscription_host) r.host) (itoa_int st.proxy_port)

module _ (split_host : GoString → Option GoString)
    (line : GoString → GoString → GoString → GoString → GoString) where
  -- Behind the deny-list: the password, and the lines.
  abbrev pub answer :
      ℕ
      → Settings
      → GoString
      → Request
      → Option RoutingState
      → Option DenyList
      → Reply × Option DenyList
  answer now st universal r snap deny =
      if str_eq r.password universal
      then (
        listing (
            map (λ name. line (scheme_of r) name universal (authority_of st r))
              (sort str_le (names_of snap))),
        deny,
      )
      else (
        wrong_password,
        elim deny [ none ↦ none | some d ↦ some (record_failure split_host now d r.remote_addr).1 ],
      )

  -- The deny-list, if there is one, is asked first.
  abbrev pub guarded :
      ℕ
      → ℕ
      → Settings
      → GoString
      → Request
      → Option RoutingState
      → Option DenyList
      → Reply × Option DenyList
  guarded asked now st universal r snap none = answer now st universal r snap none
  guarded asked now st universal r snap (some d) =
      let (banned, d') = is_denied split_host asked d r.remote_addr in
      if banned then (rate_limited, some d') else answer now st universal r snap (some d')

  -- `asked` and `now` are the clock readings of the deny-list.
  unfoldable pub subscription_handler :
      (GoString → GoString → Option GoString)
      → Bool
      → Bool
      → ℕ
      → ℕ
      → Tables
      → Request
      → Option RoutingState
      → Option DenyList
      → Reply × Option DenyList
  subscription_handler decrypt settings_fail password_fails asked now t r snap deny =
      elim (load_settings settings_fail t) [
        | err e ↦ (failed e, deny)
        | ok st ↦ elim (load_universal_proxy_password decrypt password_fails t) [
          | err e ↦ (failed e, deny)
          | ok universal ↦
              if not st.subscription_enabled || str_eq universal []
              then (missing, deny)
              else guarded asked now st universal r snap deny
        ]
      ]

-- The URL that the panel copies: `url` writes it from a scheme, a host and the password.
unfoldable pub subscription_url_handler :
    (GoString → GoString → GoString → GoString)
    → (GoString → GoString → Option GoString)
    → Bool
    → Bool
    → Tables
    → Request
    → Result (Bool × GoString)
subscription_url_handler url decrypt settings_fail password_fails t r =
    elim (load_settings settings_fail t) [
      | err e ↦ err e
      | ok st ↦ elim (load_universal_proxy_password decrypt password_fails t) [
        | err e ↦ err e
        | ok universal ↦
            if not st.subscription_enabled || str_eq universal []
            then ok (false, [])
            else ok (
              true,
              url
                  (if str_eq r.forwarded_proto (codes "https") || r.over_tls
                    then codes "https"
                    else codes "http")
                  r.host universal,
            )
      ]
    ]
