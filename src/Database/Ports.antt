-- ===== src/Database/Ports.antt =====
-- The proxies that the operator entered stay ones that can be dialled: the bounds of validate hold of
-- every stored row.
use pio.Base.{
  ℕ, ◌≡◌, ◌≤◌, subst, sym, Bool, true, false, [], ◌∷◌, GoString, str_eq, arith, inl, inr, All,
  Bool-cases, if◌then◌else◌,
}
use pio.Base.Int.{ℤ, pos, negsuc}
use pio.Model.{UpstreamProxy, source_manual, default_upstream_id}
use pio.Store.{Tables, ok}
use pio.Repo.Rows.{Rows, has_row, change_row, kept_rows}
use pio.Repo.Keys.{is_synced}
use pio.Repo.Manual.{
  ManualProxyInput, validate, known_protocol, port_column, port_in_range, rewrite, default_row,
  ensure_default_upstream,
}
use pio.Repo.Inserting.{insert_row-Inserted}
use pio.Sync.Others.{others}

-- A manual row has a port that TCP knows and one of the three protocols.
abbrev pub CanDial : UpstreamProxy → Type 0
CanDial u =
    str_eq u.source source_manual ≡ true
    → (1 ≤ u.port) × (u.port ≤ 65535) × (known_protocol u.protocol ≡ true)

abbrev pub PortsOk : Rows → Type 0
PortsOk rows = All CanDial rows

port_column_bounds :
    (p : ℤ) → port_in_range p ≡ true → (1 ≤ port_column p) × (port_column p ≤ 65535)
port_column_bounds (pos n) h = ground arith
port_column_bounds (negsuc n) h = absurd (ground arith)

validate_port :
    (input : ManualProxyInput) → validate input ≡ ok tt → port_in_range input.port ≡ true
unfolding validate
validate_port input h = ground arith

validate_protocol :
    (input : ManualProxyInput) → validate input ≡ ok tt → known_protocol input.protocol ≡ true
unfolding validate
validate_protocol input h = ground arith

pub validated :
    (input : ManualProxyInput)
    → validate input ≡ ok tt
    → (1 ≤ port_column input.port)
      × (port_column input.port ≤ 65535)
      × (known_protocol input.protocol ≡ true)
validated input h =
    let (low, high) = port_column_bounds input.port (validate_port input h) in
    (low, high, validate_protocol input h)

pub change_row-PortsOk :
    (id : GoString) (f : UpstreamProxy → UpstreamProxy)
    → ((u : UpstreamProxy) → CanDial u → CanDial (f u))
    → (rows : Rows) → PortsOk rows
    → PortsOk (change_row id f rows)
unfolding change_row
change_row-PortsOk id f keeps [] h = tt
change_row-PortsOk id f keeps (u ∷ us) h = elim (Bool-cases (str_eq u.id id)) [
  | inl y ↦ rw y (keeps u h.0, change_row-PortsOk id f keeps us h.1)
  | inr n ↦ rw n (h.0, change_row-PortsOk id f keeps us h.1)
]

pub rewrite-CanDial :
    (input : ManualProxyInput) (enc : GoString)
    → validate input ≡ ok tt
    → (u : UpstreamProxy) → CanDial u
    → CanDial (rewrite input enc u)
rewrite-CanDial input enc v u h = elim (Bool-cases (str_eq u.source source_manual)) [
  | inl y ↦ rw y (λ m. validated input v)
  | inr n ↦ rw n h
]

pub kept_rows-PortsOk :
    (p : UpstreamProxy → Bool) (rows : Rows) → PortsOk rows → PortsOk (kept_rows p rows)
unfolding kept_rows
kept_rows-PortsOk p [] h = tt
kept_rows-PortsOk p (u ∷ us) h = elim (Bool-cases (p u)) [
  | inl y ↦ rw y (kept_rows-PortsOk p us h.1)
  | inr n ↦ rw n (h.0, kept_rows-PortsOk p us h.1)
]

-- A row that a sync has made is not manual: the others decide.
pub others-PortsOk : (key : ℕ) (rows : Rows) → PortsOk (others key rows) → PortsOk rows
unfolding kept_rows
others-PortsOk key [] h = tt
others-PortsOk key (u ∷ us) h =
    let kept : Bool → Rows =
      λ b. if b then kept_rows (is_synced key) us else u ∷ kept_rows (is_synced key) us in
    elim (Bool-cases (is_synced key u)) [
      | inl y ↦
          (λ m. absurd (ground arith), others-PortsOk key us (subst (λ b. PortsOk (kept b)) y h))
      | inr n ↦ let h' = subst (λ b. PortsOk (kept b)) n h in (h'.0, others-PortsOk key us h'.1)
    ]

-- The rows of the others are what they were: so are the manual rows.
pub same_others-PortsOk :
    (key : ℕ) (rows rows' : Rows)
    → others key rows' ≡ others key rows
    → PortsOk rows
    → PortsOk rows'
same_others-PortsOk key rows rows' e h =
    others-PortsOk key rows' (subst PortsOk (sym e) (kept_rows-PortsOk (is_synced key) rows h))

pub ensure_default_upstream-PortsOk :
    (fails : Bool) (now : ℕ) (t t' : Tables)
    → ensure_default_upstream fails now t ≡ ok t'
    → PortsOk t.upstream_proxies
    → PortsOk t'.upstream_proxies
unfolding ensure_default_upstream
ensure_default_upstream-PortsOk true now t t' h p = absurd (ground arith)
ensure_default_upstream-PortsOk false now t t' h p =
    elim (Bool-cases (has_row default_upstream_id t.upstream_proxies)) [
      | inl y ↦
          let same : t ≡ t' = ground arith in
          subst (λ (x : Tables). PortsOk x.upstream_proxies) same p
      | inr n ↦
          let i = insert_row-Inserted (default_row now) t t' (ground arith) in
          subst (λ x. PortsOk x.upstream_proxies) (sym i.result) (λ m. absurd (ground arith), p)
    ]
