-- ===== src/Webshare/Tests.antt =====
-- Two pages behind a failing network.
use pio.Base.{
  suc, ◌<◌, ◌≤◌, ℕ, ◌≡◌, refl, Bool, false, none, some, [], ◌∷◌, GoString, codes, ◌==◌,
  if◌then◌else◌, inr,
}
use pio.Sync.Reconcile.{Proxy}
use pio.Webshare.{
  ListPage, Response, no_response, responded, exhausted, status, unauthorized, with_retry,
  fetch_with_retry, retry_delays, list_proxies, classify, replace, prepend, follow, after_page,
  is_success, permanent,
}
use pio.Webshare.Retry.{Retryable, fetch_with_retry-Retryable}
use pio.Webshare.Pages.{Walk, last_page, more_pages, listed, list_proxies-listed}

abbrev vienna : Proxy
vienna = record {
  proxy_address = codes "1.2.3.4";
  port = 8080;
  username = codes "u";
  password = codes "p";
  country_code = codes "AT";
  city_name = codes "Vienna";
}

abbrev oslo : Proxy
oslo = record vienna {
  proxy_address = codes "5.6.7.8";
  country_code = codes "NO";
  city_name = codes "Oslo";
}

abbrev first_page : ListPage
first_page = record { next = some (codes "/b"); results = vienna ∷ [] }

abbrev second_page : ListPage
second_page = record { next = some []; results = oslo ∷ [] }

-- The first attempt meets no response and the second a full server.
abbrev server : ℕ → GoString → Response ListPage
server n url =
    if n == 0
    then no_response
    else if n == 1
    then responded 503 none
    else if n == 2
    then responded 200 (some first_page)
    else responded 200 (some second_page)

abbrev down : ℕ → GoString → Response ListPage
down n url = if n == 0 then responded 200 (some first_page) else responded 500 none

abbrev never : ℕ → Bool
never n = false

abbrev start : GoString
start = codes "/a"

expired_key :
    {A : Type 0} → classify {A = A} is_success (responded 401 none) ≡ permanent unauthorized
unfolding classify
expired_key = refl

fetch_with_retry-Retryable_example :
    let n' = (fetch_with_retry never retry_delays server start 0).1 in
    (0 < n') × (n' ≤ 4) × ((i : ℕ) → 0 ≤ i → suc i < n' → Retryable (server i start))
fetch_with_retry-Retryable_example = fetch_with_retry-Retryable never retry_delays server start 0

two_pages : Walk never retry_delays server 0 start (first_page ∷ second_page ∷ []) none 4
unfolding fetch_with_retry with_retry classify
two_pages = more_pages {k = 3} first_page refl refl (last_page second_page refl refl)

list_proxies-listed_example :
    list_proxies never retry_delays server 3 start 0
    ≡ some (listed (first_page ∷ second_page ∷ []) none, 4)
list_proxies-listed_example =
    list_proxies-listed never retry_delays server 0 4 start (first_page ∷ second_page ∷ []) none
      two_pages

-- The server fails on the second page until the retries are exhausted.
gone : list_proxies never retry_delays down 2 start 0 ≡ some (inr (exhausted (status 500)), 5)
unfolding list_proxies follow after_page prepend fetch_with_retry with_retry classify
gone = refl

-- Replace is not tried again.
one_replacement : (replace {R = GoString} {A = ℕ} (λ n r. no_response) start 7).1 ≡ 8
unfolding replace classify
one_replacement = refl
