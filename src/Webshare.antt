-- ===== src/Webshare.antt =====
-- internal/webshare/client.go: the vendor's API over HTTP, with its retries and its pages. The server
-- and the network are one argument: what the attempt of a given number at a URL meets. So is the
-- cancellation of the context, which is looked at while a retry waits.
pub mod Retry
pub mod Pages
pub mod Tests
use pio.Base.{
  ℕ, zero, suc, ◌+◌, Bool, true, false, Option, none, some, List, [], ◌∷◌, ◌++◌, GoString, ◌==◌,
  ltb, leb, ◌&&◌, ◌||◌, not, if◌then◌else◌, ◌⊎◌, inl, inr,
}
use pio.Sync.Reconcile.{Proxy}

pub data ClientError : Type 0 where
  unauthorized context_done malformed transport decoding : ClientError
  status : ℕ → ClientError
  exhausted : ClientError → ClientError

-- What one attempt meets: a request that cannot be built, no response, or a status and a body that
-- decodes or not.
pub data Response (A : Type 0) : Type 0 where
  unbuilt no_response : Response A
  responded : ℕ → Option A → Response A

-- A value, an error that is worth a retry, or one that is not.
pub data Attempt (A : Type 0) : Type 0 where
  done : A → Attempt A
  transient permanent : ClientError → Attempt A

abbrev decoded : {A : Type 0} → Option A → Attempt A
decoded none = permanent decoding
decoded (some a) = done a

-- The switch over the status; `good` tells the statuses that carry a body.
unfoldable pub classify : {A : Type 0} → (ℕ → Bool) → Response A → Attempt A
classify good unbuilt = permanent malformed
classify good no_response = transient transport
classify good (responded code body) =
    if code == 401
    then permanent unauthorized
    else if leb 500 code && ltb code 600
    then transient (status code)
    else if leb 400 code || not (good code)
    then permanent (status code)
    else decoded body

abbrev pub is_ok : ℕ → Bool
is_ok code = code == 200

abbrev pub is_success : ℕ → Bool
is_success code = leb 200 code && ltb code 300

-- The result of the attempts so far, and their number.
abbrev pub Outcome : Type 0 → Type 0
Outcome A = (A ⊎ ClientError) × ℕ

module _ (cancelled : ℕ → Bool) {A : Type 0} (once : ℕ → Attempt A) where
  -- The loop over the attempts: the first, and one behind each delay.
  unfoldable pub with_retry : List ℕ → ℕ → Outcome A
  with_retry [] n = elim (once n) [
    | done a ↦ (inl a, n + 1)
    | permanent e ↦ (inr e, n + 1)
    | transient e ↦ (inr (exhausted e), n + 1)
  ]
  with_retry (delay ∷ delays) n =
      let rest = with_retry delays (n + 1) in
      elim (once n) [
        | done a ↦ (inl a, n + 1)
        | permanent e ↦ (inr e, n + 1)
        | transient e ↦ if cancelled (n + 1) then (inr context_done, n + 1) else rest
      ]

pub record ListPage : Type 0 where
  pub next : Option GoString
  pub results : List Proxy

-- The delays of New, in seconds.
abbrev pub retry_delays : List ℕ
retry_delays = 1 ∷ 3 ∷ 9 ∷ []

-- GET of one page, by the number of the attempt and the URL.
abbrev pub fetch_once : (ℕ → GoString → Response ListPage) → GoString → ℕ → Attempt ListPage
fetch_once server url n = classify is_ok (server n url)

unfoldable pub fetch_with_retry :
    (ℕ → Bool) → List ℕ → (ℕ → GoString → Response ListPage) → GoString → ℕ → Outcome ListPage
fetch_with_retry cancelled delays server url n =
    with_retry cancelled (fetch_once server url) delays n

-- doJSON: `request` is the method, the path and the body.
unfoldable pub do_json :
    {R A : Type 0} → (ℕ → Bool) → List ℕ → (ℕ → R → Response A) → R → ℕ → Outcome A
do_json cancelled delays server request n =
    with_retry cancelled (λ i. classify is_success (server i request)) delays n

-- Replace: one attempt, whatever it meets.
unfoldable pub replace : {R A : Type 0} → (ℕ → R → Response A) → R → ℕ → Outcome A
replace server request n = elim (classify is_success (server n request)) [
  | done a ↦ (inl a, n + 1)
  | permanent e ↦ (inr e, n + 1)
  | transient e ↦ (inr e, n + 1)
]

-- The URL of the next page, unless the cursor is nil or empty.
abbrev pub cursor : ListPage → Option GoString
cursor page = elim page.next [ none ↦ none | some [] ↦ none | some (b ∷ bs) ↦ some (b ∷ bs) ]

-- The results of a page before those of the pages behind it.
unfoldable pub prepend : List Proxy → Option (Outcome (List Proxy)) → Option (Outcome (List Proxy))
prepend results none = none
prepend results (some (inr e, n)) = some (inr e, n)
prepend results (some (inl proxies, n)) = some (inl (results ++ proxies), n)

-- The end of the loop, or its next turn.
unfoldable pub follow :
    (GoString → ℕ → Option (Outcome (List Proxy)))
    → List Proxy
    → ℕ
    → Option GoString
    → Option (Outcome (List Proxy))
follow next_turn results n none = some (inl results, n)
follow next_turn results n (some url) = prepend results (next_turn url n)

unfoldable pub after_page :
    (GoString → ℕ → Option (Outcome (List Proxy)))
    → Outcome ListPage
    → Option (Outcome (List Proxy))
after_page next_turn (inr e, n) = some (inr e, n)
after_page next_turn (inl page, n) = follow next_turn page.results n (cursor page)

module _ (cancelled : ℕ → Bool) (delays : List ℕ) (server : ℕ → GoString → Response ListPage) where
  -- The loop over the pages, on fuel for each page: `none` is a run that has not ended.
  unfoldable pub list_proxies : ℕ → GoString → ℕ → Option (Outcome (List Proxy))
  list_proxies zero url n = none
  list_proxies (suc fuel) url n =
      after_page (list_proxies fuel) (fetch_with_retry cancelled delays server url n)
