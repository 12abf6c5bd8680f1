-- ===== src/Socks5/Safety.antt =====
-- What handleConn guarantees: who gets a tunnel, what is registered while it stands, which failures
-- count against an address, and what is left of it afterwards.
use pio.Base.{
  ℕ, ◌+◌, ◌<◌, ◌^◌, ◌≡◌, refl, true, false, List, GoString, arith, among, str_eq, ℕ_discrete,
  Option, some, Bool-cases, ◌⊎◌, inl, inr,
}
use pio.Base.Map.{find, find-put}
use pio.Base.Int.{u64}
use pio.Wire.{Conn, Read, failed, got}
use pio.DenyList.{DenyList}
use pio.Model.{UpstreamProxy}
use pio.Registry.{ActiveConnection, ConnectionRegistry, register, deregister, close_by_upstream}
use pio.Registry.Lookup.{under}
use pio.Registry.WellFormed.{WellFormed, deregister-register, register-WellFormed}
use pio.Registry.Close.{close_by_upstream_iff}
use pio.Routing.State.{RoutingState}
use pio.Tunnel.Acquire.{TunnelError, Grant, Answer, granted, refused, acquire}
use pio.Tunnel.Dial.{Dialled, connected, dial_error}
use pio.Socks5.Request.{write_reply, rep_succeeded}
use pio.Socks5.Handler.{
  Visit, Handled, entry_of, enter, leave, denied, open_tunnel, read_credentials, accept_request,
  authorised, handle_conn,
}

pub Read-cases {ℓ} :
    {A : Type ℓ} (r : Read A)
    → ((c : Conn) × (r ≡ failed c)) ⊎ ((a : A) × (c : Conn) × (r ≡ got a c))
Read-cases (failed c) = inl (c, refl)
Read-cases (got a c) = inr (a, c, refl)

pub Answer-cases :
    (r : Answer) → ((g : Grant) × (r ≡ granted g)) ⊎ ((e : TunnelError) × (r ≡ refused e))
Answer-cases (granted g) = inl (g, refl)
Answer-cases (refused e) = inr (e, refl)

pub Dialled-cases :
    (r : Dialled)
    → ((up : Conn) × (r ≡ connected up))
      ⊎ ((e : TunnelError) × (o : Option Conn) × (r ≡ dial_error e o))
Dialled-cases (connected up) = inl (up, refl)
Dialled-cases (dial_error e o) = inr (e, o, refl)

module _ (split_host : GoString → Option GoString) (ipv6_string : List ℕ → GoString)
    (dial_upstream : UpstreamProxy → GoString → GoString → Dialled) (v : Visit)
    (state : Option RoutingState) (deny : Option DenyList) (reg : Option ConnectionRegistry)
    (c : Conn) where
  -- How a connection came to its tunnel.
  pub record Tunnelled (h : Handled) (up : Conn) : Type 0 where
    pub username : GoString
    pub password : GoString
    pub target : GoString
    pub grant : Grant
    pub at_login : Conn
    pub at_request : Conn
    pub not_banned : (denied split_host v deny).0 ≡ false
    pub login : read_credentials c ≡ got (username, password) at_login
    pub allowed : acquire state username password ≡ granted grant
    pub request : accept_request ipv6_string at_login ≡ got target at_request
    pub dialled : dial_upstream grant.upstream grant.upstream_pwd target ≡ connected up
    pub replied : write_reply rep_succeeded at_request ≡ got tt h.conn
    pub registered : h.registered ≡ enter (entry_of v username grant.upstream.id target) reg

  abbrev handled : Handled
  handled = handle_conn split_host ipv6_string dial_upstream v state deny reg c

  -- A tunnel is only ever opened for a client that is not banned, whose credentials Acquire grants,
  -- to the granted upstream and the target that the client asked for, after the reply that says so.
  pub tunnel_is_granted : (up : Conn) → handled.tunnel ≡ some up → Tunnelled handled up
  unfolding handle_conn denied authorised open_tunnel
  tunnel_is_granted up h = elim (Bool-cases (denied split_host v deny).0) [
    | inl b ↦ absurd (ground arith)
    | inr b ↦ elim (Read-cases (read_credentials c)) [
      | inl (c1, e) ↦ absurd (ground arith)
      | inr ((username, password), c1, e) ↦ elim (Answer-cases (acquire state username password)) [
        | inr (x, a) ↦ absurd (ground arith)
        | inl (g, a) ↦ elim (Read-cases (accept_request ipv6_string c1)) [
          | inl (c2, r) ↦ absurd (ground arith)
          | inr (target, c2, r) ↦
              elim (Dialled-cases (dial_upstream g.upstream g.upstream_pwd target)) [
                | inr (x, o, d) ↦ absurd (ground arith)
                | inl (up', d) ↦ elim (Read-cases (write_reply rep_succeeded c2)) [
                  | inl (c3, w) ↦ absurd (ground arith)
                  | inr (_, c3, w) ↦ record {
                    username = username;
                    password = password;
                    target = target;
                    grant = g;
                    at_login = c1;
                    at_request = c2;
                    not_banned = b;
                    login = e;
                    allowed = a;
                    request = r;
                    dialled = ground arith;
                    replied = ground arith;
                    registered = ground arith;
                  }
                ]
              ]
        ]
      ]
    ]
  ]

-- A registry is as another one: the same connections under the same keys.
abbrev pub SameRegistry : ConnectionRegistry → ConnectionRegistry → Type 0
SameRegistry r' r =
    ((j : ℕ) → find ℕ_discrete j r'.conns ≡ find ℕ_discrete j r.conns)
    × ((k : GoString) (j : ℕ) → under r'.by_key k j ≡ under r.by_key k j)

module _ (split_host : GoString → Option GoString) (ipv6_string : List ℕ → GoString)
    (dial_upstream : UpstreamProxy → GoString → GoString → Dialled) (v : Visit)
    (state : Option RoutingState) (deny : Option DenyList) (r : ConnectionRegistry)
    (w : WellFormed r) (room : r.next_id + 1 < 2 ^ 64) (c : Conn) where
  abbrev handled_in : Handled
  handled_in = handle_conn split_host ipv6_string dial_upstream v state deny (some r) c

  find_entry :
      (entry : ActiveConnection)
      → find ℕ_discrete (register entry r).0 (register entry r).1.conns
        ≡ some (record entry { id = (register entry r).0 })
  unfolding register
  find_entry entry = ground (
    arith,
    find-put ℕ_discrete (u64 (r.next_id + 1)) (u64 (r.next_id + 1))
        (record entry { id = u64 (r.next_id + 1) }) r.conns,
  )

  upstream_test : (id : GoString) → str_eq id id ≡ true
  upstream_test id = ground arith

  -- While a tunnel stands, its connection is registered under the upstream that Acquire granted to the
  -- credentials of this connection, so that CloseByUpstream of that upstream cancels it.
  pub tunnel_is_closable :
      (up : Conn)
      → handled_in.tunnel ≡ some up
      → (t : Tunnelled split_host ipv6_string dial_upstream v state deny (some r) c handled_in up)
        × (during : ConnectionRegistry) × (handled_in.registered ≡ some during)
        × (among v.context (close_by_upstream t.grant.upstream.id during) ≡ true)
  tunnel_is_closable up h =
      let t = tunnel_is_granted split_host ipv6_string dial_upstream v state deny (some r) c up h in
      let entry = entry_of v t.username t.grant.upstream.id t.target in
      (
        t,
        (register entry r).1,
        t.registered,
        (close_by_upstream_iff (register entry r).1 (register-WellFormed entry r w room)
              t.grant.upstream.id v.context).1
            (
              (register entry r).0,
              record entry { id = (register entry r).0 },
              unfold register in find_entry entry,
              upstream_test t.grant.upstream.id,
              refl,
            ),
      )

  -- The registry is never touched, or entered and left.
  entered_and_left :
      (handled_in.reg ≡ some r)
      ⊎ ((entry : ActiveConnection) × (handled_in.reg ≡ leave entry (some r)))
  unfolding handle_conn authorised open_tunnel
  entered_and_left = elim (Bool-cases (denied split_host v deny).0) [
    | inl b ↦ inl (ground arith)
    | inr b ↦ elim (Read-cases (read_credentials c)) [
      | inl (c1, e) ↦ inl (ground arith)
      | inr ((username, password), c1, e) ↦ elim (Answer-cases (acquire state username password)) [
        | inr (x, a) ↦ inl (ground arith)
        | inl (g, a) ↦ elim (Read-cases (accept_request ipv6_string c1)) [
          | inl (c2, q) ↦ inl (ground arith)
          | inr (target, c2, q) ↦ inr (
            entry_of v username g.upstream.id target,
            elim (Dialled-cases (dial_upstream g.upstream g.upstream_pwd target)) [
              | inr (x, o, d) ↦ ground arith
              | inl (up, d) ↦ elim (Read-cases (write_reply rep_succeeded c2)) [
                | inl (c3, k) ↦ ground arith
                | inr (_, c3, k) ↦ ground arith
              ]
            ],
          )
        ]
      ]
    ]
  ]

  -- However the handler ends, its own connection is the only one that it adds to the registry, and
  -- it takes that one out.
  pub registry_restored : (r' : ConnectionRegistry) × (handled_in.reg ≡ some r') × SameRegistry r' r
  registry_restored = elim entered_and_left [
    | inl e ↦ (r, e, (λ j. refl, λ k j. refl))
    | inr (entry, e) ↦ (
      deregister (register entry r).0 (register entry r).1,
      e,
      deregister-register entry r w room,
    )
  ]
