-- ===== src/Http/Headers.antt =====
-- internal/listener/hopbyhop.go: the headers that a proxy does not pass on. http.Header is a map from
-- canonical names; `canonical` is net/http's CanonicalHeaderKey, an argument.
use pio.Base.{
  ℕ, none, some, List, [], ◌∷◌, ◌≡◌, refl, ◌≢◌, ◌∙◌, ◌⊎◌, inl, inr, ite, GoString, codes,
  str_discrete, ◌==◌, if◌then◌else◌,
}
use pio.Base.Map.{Map, find, remove, find-remove}
use pio.Api.Text.{trim_space}

abbrev pub Header : Type 0
Header = Map GoString (List GoString)

abbrev pub hop_by_hop_headers : List GoString
hop_by_hop_headers =
    codes "Connection"
    ∷ codes "Keep-Alive"
    ∷ codes "Proxy-Authenticate"
    ∷ codes "Proxy-Authorization"
    ∷ codes "Proxy-Connection"
    ∷ codes "TE"
    ∷ codes "Trailer"
    ∷ codes "Transfer-Encoding"
    ∷ codes "Upgrade"
    ∷ []

-- A byte before the first of the parts.
abbrev onto_first : ℕ → List GoString → List GoString
onto_first b [] = (b ∷ []) ∷ []
onto_first b (part ∷ parts) = (b ∷ part) ∷ parts

-- strings.SplitSeq(s, ",")
unfoldable pub split_commas : GoString → List GoString
split_commas [] = [] ∷ []
split_commas (b ∷ bs) =
    let rest = split_commas bs in if b == 44 then [] ∷ rest else onto_first b rest

module _ (canonical : GoString → GoString) where
  -- h.Values(name)
  unfoldable pub values : GoString → Header → List GoString
  values name h = elim (find str_discrete (canonical name) h) [ none ↦ [] | some vs ↦ vs ]

  -- h.Del(name)
  unfoldable pub del : GoString → Header → Header
  del name h = remove str_discrete (canonical name) h

  unfoldable pub del_tokens : List GoString → Header → Header
  del_tokens [] h = h
  del_tokens (tok ∷ toks) h =
      del_tokens toks
        (elim (str_discrete (trim_space tok) []) [ yes p ↦ h | no p ↦ del (trim_space tok) h ])

  unfoldable pub del_listed : List GoString → Header → Header
  del_listed [] h = h
  del_listed (conn ∷ conns) h = del_listed conns (del_tokens (split_commas conn) h)

  unfoldable pub del_names : List GoString → Header → Header
  del_names [] h = h
  del_names (name ∷ names) h = del_names names (del name h)

  unfoldable pub strip_hop_by_hop : Header → Header
  strip_hop_by_hop h = del_names hop_by_hop_headers (del_listed (values (codes "Connection") h) h)

  -- A header of one of the names.
  abbrev pub Named : List GoString → GoString → Type 0
  Named [] name = ⊥
  Named (n ∷ ns) name = (canonical n ≡ name) ⊎ Named ns name

  -- A header of one of the tokens, the blank ones apart.
  abbrev pub Token : List GoString → GoString → Type 0
  Token [] name = ⊥
  Token (tok ∷ toks) name =
      ((trim_space tok ≢ []) × (canonical (trim_space tok) ≡ name)) ⊎ Token toks name

  -- A header of a token of one of the values.
  abbrev pub Listed : List GoString → GoString → Type 0
  Listed [] name = ⊥
  Listed (conn ∷ conns) name = Token (split_commas conn) name ⊎ Listed conns name

  -- The headers of `P` are gone, and all others are as they were.
  abbrev pub Without : (GoString → Type 0) → Header → Header → Type 0
  Without P h h' =
      (name : GoString)
      → (P name × (find str_discrete name h' ≡ none))
        ⊎ ((¬ P name) × (find str_discrete name h' ≡ find str_discrete name h))

  Without-del : (n : GoString) (h : Header) → Without (λ name. canonical n ≡ name) h (del n h)
  unfolding del
  Without-del n h name =
      elim (str_discrete (canonical n) name)
          as (λ x.
            find str_discrete name (remove str_discrete (canonical n) h)
              ≡ ite x none (find str_discrete name h)
            → ((canonical n ≡ name)
                × (find str_discrete name (remove str_discrete (canonical n) h) ≡ none))
              ⊎ ((canonical n ≢ name)
                  × (find str_discrete name (remove str_discrete (canonical n) h)
                      ≡ find str_discrete name h))) [
                        | yes p ↦ λ e. inl (p, e)
                        | no p ↦ λ e. inr (p, e)
                      ]
        (find-remove str_discrete (canonical n) name h)

  Without-trans :
      (P Q : GoString → Type 0) (h h1 h2 : Header)
      → Without P h h1
      → Without Q h1 h2
      → Without (λ name. P name ⊎ Q name) h h2
  Without-trans P Q h h1 h2 first second name = elim (second name) [
    | inl (q, gone) ↦ inl (inr q, gone)
    | inr (kept, same) ↦ elim (first name) [
      | inl (p, gone) ↦ inl (inl p, same ∙ gone)
      | inr (spared, before) ↦
          inr (λ s. elim s [ inl p ↦ spared p | inr q ↦ kept q ], same ∙ before)
    ]
  ]

  Without-none : (h : Header) → Without (λ name. ⊥) h h
  Without-none h name = inr (λ e. e, refl)

  Without-del_names :
      (names : List GoString) (h : Header) → Without (Named names) h (del_names names h)
  unfolding del_names
  Without-del_names [] h = Without-none h
  Without-del_names (n ∷ ns) h =
      Without-trans (λ name. canonical n ≡ name) (Named ns) h (del n h) (del_names ns (del n h))
        (Without-del n h) (Without-del_names ns (del n h))

  Without-del_token :
      (tok : GoString) (h : Header) (x : Dec (trim_space tok ≡ []))
      → Without
          (λ name. (trim_space tok ≢ []) × (canonical (trim_space tok) ≡ name))
          h
          (elim x [ yes p ↦ h | no p ↦ del (trim_space tok) h ])
  Without-del_token tok h (yes p) name = inr (λ e. e.0 p, refl)
  Without-del_token tok h (no p) name = elim (Without-del (trim_space tok) h name) [
    | inl (q, gone) ↦ inl ((p, q), gone)
    | inr (q, same) ↦ inr (λ e. q e.1, same)
  ]

  Without-del_tokens :
      (toks : List GoString) (h : Header) → Without (Token toks) h (del_tokens toks h)
  unfolding del_tokens
  Without-del_tokens [] h = Without-none h
  Without-del_tokens (tok ∷ toks) h =
      let h1 = elim (str_discrete (trim_space tok) []) as (λ _. Header) [
        | yes p ↦ h
        | no p ↦ del (trim_space tok) h
      ] in
      Without-trans (λ name. (trim_space tok ≢ []) × (canonical (trim_space tok) ≡ name))
        (Token toks) h h1 (del_tokens toks h1)
        (Without-del_token tok h (str_discrete (trim_space tok) [])) (Without-del_tokens toks h1)

  Without-del_listed :
      (conns : List GoString) (h : Header) → Without (Listed conns) h (del_listed conns h)
  unfolding del_listed
  Without-del_listed [] h = Without-none h
  Without-del_listed (conn ∷ conns) h =
      let h1 = del_tokens (split_commas conn) h in
      Without-trans (Token (split_commas conn)) (Listed conns) h h1 (del_listed conns h1)
        (Without-del_tokens (split_commas conn) h) (Without-del_listed conns h1)

  -- StripHopByHop deletes a header exactly when it is one of the fixed names or a token of a value that
  -- the Connection header had before; every other header keeps its values.
  pub strip_hop_by_hop-Without :
      (h : Header)
      → Without
          (λ name. Listed (values (codes "Connection") h) name ⊎ Named hop_by_hop_headers name)
          h
          (strip_hop_by_hop h)
  unfolding strip_hop_by_hop
  strip_hop_by_hop-Without h =
      let h1 = del_listed (values (codes "Connection") h) h in
      Without-trans (Listed (values (codes "Connection") h)) (Named hop_by_hop_headers) h h1
        (del_names hop_by_hop_headers h1) (Without-del_listed (values (codes "Connection") h) h)
        (Without-del_names hop_by_hop_headers h1)
