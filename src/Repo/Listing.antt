-- ===== src/Repo/Listing.antt =====
-- internal/repo/upstreams.go: the listings of the upstreams.
use pio.Base.{Bool, true, str_eq, not}
use pio.Model.{UpstreamProxy, source_manual}
use pio.Store.{Result, driver, Tables}
use pio.Repo.Rows.{Rows, kept_rows}
use pio.Repo.Order.{sort, or_next}

-- ORDER BY source ASC, country_code, display_name
abbrev pub upstream_le : UpstreamProxy → UpstreamProxy → Bool
upstream_le a b =
    or_next a.source b.source
      (or_next a.country_code b.country_code (or_next a.display_name b.display_name true))

unfoldable pub list_upstreams : Bool → Tables → Result Rows
list_upstreams fails t = driver fails (sort upstream_le t.upstream_proxies)

-- WHERE source = 'manual' ORDER BY manual_name
unfoldable pub list_manual_proxies : Bool → Tables → Result Rows
list_manual_proxies fails t = driver fails (
    sort (λ a b. or_next a.manual_name b.manual_name true)
      (kept_rows (λ u. not (str_eq u.source source_manual)) t.upstream_proxies))
