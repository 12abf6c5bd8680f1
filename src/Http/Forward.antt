-- ===== src/Http/Forward.antt =====
-- handleAbsoluteForm of internal/listener/http_proxy.go: one plain request, sent on to the upstream.
-- Writing and reading messages is net/http's, and is an argument: `write_request` to the upstream,
-- `read_response` from it, `write_response` to the client. The goroutine that watches the client, and
-- the closing of both connections when the mapping changes, are not modelled.
use pio.Base.{
  ℕ, zero, suc, Bool, true, none, some, [], ◌∷◌, ◌++◌, ◌≡◌, ◌≢◌, ◌∙◌, GoString, codes, str_eq,
  str_discrete, among, if◌then◌else◌, ltb, inl, inr, ◌⊎◌, arith, Option-cases,
}
use pio.Base.Map.{find, put, find-put}
use pio.Wire.{Conn, Reader, failed, got, close}
use pio.Model.{UpstreamProxy}
use pio.Tunnel.Acquire.{Grant}
use pio.Tunnel.Dial.{Dialled, connected, dial_error}
use pio.Http.Responses.{write_400, write_502}
use pio.Http.Headers.{
  Header, Named, Listed, values, hop_by_hop_headers, strip_hop_by_hop, strip_hop_by_hop-Without,
}
use pio.Http.Handler.{RequestHead, Relayed}

pub record Response : Type 0 where
  pub status_code : ℕ
  pub header : Header
  pub body : GoString
  pub close_after : Bool

-- The URL's host, with the port of its scheme where it names none.
abbrev pub authority : GoString → GoString → GoString
authority scheme host =
    if among 58 host
    then host
    else if str_eq scheme (codes "https")
    then host ++ codes ":443"
    else host ++ codes ":80"

-- An absent User-Agent becomes an empty one.
unfoldable pub with_agent : Header → Header
with_agent h = elim (find str_discrete (codes "User-Agent") h) [
  | none ↦ put str_discrete (codes "User-Agent") ([] ∷ []) h
  | some vs ↦ h
]

module _ (canonical : GoString → GoString) where
  -- The request as it is sent on.
  unfoldable pub forwarded : RequestHead → RequestHead
  forwarded req = record req {
    header = with_agent (strip_hop_by_hop canonical req.header);
    trailer = [];
    close_after = true;
  }

  -- The response as it is handed back.
  unfoldable pub returned : Response → Response
  returned resp = record resp {
    header = strip_hop_by_hop canonical resp.header;
    close_after = true;
  }

-- The responses up to the first that is not interim. Each head takes a byte at least from the limit
-- on the heads, so that the limit is fuel: a read beyond it fails.
unfoldable pub final_response : Reader Response → ℕ → Reader Response
final_response read_response zero c = failed c
final_response read_response (suc fuel) c = elim (read_response c) [
  | failed c' ↦ failed c'
  | got resp c' ↦
      if ltb resp.status_code 200 then final_response read_response fuel c' else got resp c'
]

module _ (canonical : GoString → GoString)
    (dial_upstream : UpstreamProxy → GoString → GoString → Dialled)
    (write_request : RequestHead → Reader {0} Unit) (read_response : Reader Response) (heads : ℕ)
    (write_response : Response → Conn → Conn) where
  -- What the upstream makes of the request that is sent on.
  unfoldable pub exchange : RequestHead → Conn → Conn → Conn
  exchange req up c = elim (write_request (forwarded canonical req) up) [
    | failed _ ↦ write_502 (codes "upstream write failed") c
    | got _ up' ↦ elim (final_response read_response heads up') [
      | failed _ ↦ write_502 (codes "upstream response invalid") c
      | got resp _ ↦ close (write_response (returned canonical resp) c)
    ]
  ]

  abbrev pub relay_to : GoString × GoString → RequestHead → Grant → Conn → Conn
  relay_to (scheme, host) req g c =
      if str_eq host []
      then write_400 (codes "absolute-form URL required") c
      else elim (dial_upstream g.upstream g.upstream_pwd (authority scheme host)) [
        | dial_error e _ ↦ write_502 (codes "upstream dial failed") c
        | connected up ↦ exchange req up c
      ]

  -- No tunnel is left in any case.
  unfoldable pub handle_absolute_form : RequestHead → Grant → Conn → Relayed
  handle_absolute_form req g c = elim req.url [
    | none ↦ (write_400 (codes "absolute-form URL required") c, none)
    | some url ↦ (relay_to url req g c, none)
  ]

  pub handle_absolute_form-closes :
      (req : RequestHead) (g : Grant) (c : Conn) → (handle_absolute_form req g c).1 ≡ none
  unfolding handle_absolute_form
  handle_absolute_form-closes req g c = elim (Option-cases req.url) [
    | inl e ↦ ground arith
    | inr (url, e) ↦ ground arith
  ]

find-with_agent :
    (name : GoString) (h : Header)
    → name ≢ codes "User-Agent"
    → find str_discrete name (with_agent h) ≡ find str_discrete name h
unfolding with_agent
find-with_agent name h other = elim (Option-cases (find str_discrete (codes "User-Agent") h)) [
  | inl e ↦ ground (arith, find-put str_discrete (codes "User-Agent") name ([] ∷ []) h)
  | inr (vs, e) ↦ ground arith
]

module _ (canonical : GoString → GoString) where
  -- A header other than User-Agent reaches the upstream as the client sent it, unless it is hop-by-hop:
  -- then it does not.
  pub find-forwarded :
      (req : RequestHead) (name : GoString)
      → name ≢ codes "User-Agent"
      → ((Listed canonical (values canonical (codes "Connection") req.header) name
            ⊎ Named canonical hop_by_hop_headers name)
          × (find str_discrete name (forwarded canonical req).header ≡ none))
        ⊎ ((¬ (
              Listed canonical (values canonical (codes "Connection") req.header) name
              ⊎ Named canonical hop_by_hop_headers name))
            × (find str_discrete name (forwarded canonical req).header
                ≡ find str_discrete name req.header))
  unfolding forwarded
  find-forwarded req name other =
      let same = find-with_agent name (strip_hop_by_hop canonical req.header) other in
      elim (strip_hop_by_hop-Without canonical req.header name) [
        | inl (hop, gone) ↦ inl (hop, same ∙ gone)
        | inr (kept, there) ↦ inr (kept, same ∙ there)
      ]
