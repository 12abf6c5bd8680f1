-- ===== src/Webshare/Pages.antt =====
-- ListProxies follows the cursors of the pages to their end.
use pio.Base.{
  ℕ, suc, ◌≡◌, ◌∙◌, refl, ap, sym, Bool, Option, none, some, List, [], ◌∷◌, ◌++◌, GoString, ◌⊎◌,
  inl, inr, length,
}
use mathlib.Core.List.{append-nil}
use pio.Sync.Reconcile.{Proxy}
use pio.Webshare.{
  ListPage, Response, ClientError, cursor, fetch_with_retry, list_proxies, after_page, follow,
  prepend,
}

abbrev pub all_results : List ListPage → List Proxy
all_results [] = []
all_results (page ∷ pages) = page.results ++ all_results pages

-- The error that ended the walk, or the proxies of its pages in their order.
abbrev pub listed : List ListPage → Option ClientError → List Proxy ⊎ ClientError
listed pages none = inl (all_results pages)
listed pages (some e) = inr e

module _ (cancelled : ℕ → Bool) (delays : List ℕ) (server : ℕ → GoString → Response ListPage) where
  -- The pages that the server hands out from a URL on, fetched by the attempts from the number `n` up
  -- to `m`: each has a cursor to the next, the last has none, or the fetch behind the last failed.
  pub data Walk : ℕ → GoString → List ListPage → Option ClientError → ℕ → Type 0 where
    failed :
        {n m : ℕ} {url : GoString} (e : ClientError)
        → fetch_with_retry cancelled delays server url n ≡ (inr e, m)
        → Walk n url [] (some e) m
    last_page :
        {n m : ℕ} {url : GoString} (page : ListPage)
        → fetch_with_retry cancelled delays server url n ≡ (inl page, m)
        → cursor page ≡ none
        → Walk n url (page ∷ []) none m
    more_pages :
        {n m k : ℕ} {url following : GoString} {pages : List ListPage} {ending : Option ClientError}
        (page : ListPage)
        → fetch_with_retry cancelled delays server url n ≡ (inl page, k)
        → cursor page ≡ some following
        → Walk k following pages ending m
        → Walk n url (page ∷ pages) ending m

  -- One turn of the loop, by the page and what the loop makes of its cursor.
  turn :
      (fuel n k : ℕ) (url : GoString) (page : ListPage) (next : Option GoString)
      → fetch_with_retry cancelled delays server url n ≡ (inl page, k)
      → cursor page ≡ next
      → list_proxies cancelled delays server (suc fuel) url n
        ≡ follow (list_proxies cancelled delays server fuel) page.results k next
  unfolding list_proxies after_page
  turn fuel n k url page next f c =
      ap (after_page (list_proxies cancelled delays server fuel)) f
      ∙ ap (follow (list_proxies cancelled delays server fuel) page.results k) c

  prepend-listed :
      (page : ListPage) (pages : List ListPage) (ending : Option ClientError) (m : ℕ)
      → prepend page.results (some (listed pages ending, m))
        ≡ some (listed (page ∷ pages) ending, m)
  unfolding prepend
  prepend-listed page pages none m = refl
  prepend-listed page pages (some e) m = refl

  -- On a walk over finitely many pages, fuel for each page and one more is enough: ListProxies returns
  -- the results of all pages in their order, or the error of the fetch that failed, and has made the
  -- attempts of the walk.
  pub list_proxies-listed :
      (n m : ℕ) (url : GoString) (pages : List ListPage) (ending : Option ClientError)
      → Walk n url pages ending m
      → list_proxies cancelled delays server (suc (length pages)) url n
        ≡ some (listed pages ending, m)
  unfolding list_proxies after_page follow
  list_proxies-listed n m url pages ending (failed e f) =
      ap (after_page (list_proxies cancelled delays server 0)) f
  list_proxies-listed n m url pages ending (last_page page f c) =
      turn 1 n m url page none f c ∙ ap (λ l. some (inl l, m)) (sym (append-nil page.results))
  list_proxies-listed n m url pages ending
        (more_pages {k = k} {following = following} {pages = rest} page f c walk) =
      turn (suc (length rest)) n k url page (some following) f c
      ∙ ap (prepend page.results) (list_proxies-listed k m following rest ending walk)
      ∙ prepend-listed page rest ending m
