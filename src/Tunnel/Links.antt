-- ===== src/Tunnel/Links.antt =====
-- What a step of an outgoing handshake that went on has done.
use pio.Base.{
  ℕ, ◌-◌, ◌≤◌, ◌≡◌, refl, sym, ap, ◌∙◌, Bool, true, false, List, [], ◌++◌, GoString, length, arith,
  leb, ltb, ◌&&◌, ◌==◌, if◌then◌else◌, Option, none, some,
}
use pio.Wire.{Conn, Read, failed, got, close, write}
use pio.Wire.Text.{atoi, split_host_port}
use pio.Tunnel.Acquire.{TunnelError, upstream_dial}
use pio.Tunnel.Dial.{
  Link, Linker, linked, broken, try, require, parsed, ◌>>=◌, connect_request, send_connect,
}

pub bind_linked {ℓ κ} :
    {A : Type ℓ} {B : Type κ} (m : Linker A) (f : A → Linker B) {c c' : Conn} {b : B}
    → (m >>= f) c ≡ linked b c'
    → (a : A) × (d : Conn) × (m c ≡ linked a d) × (f a d ≡ linked b c')
bind_linked {A = A} m f {c} {c'} {b} h = go (m c) refl h
  where
    go :
        (r : Link A)
        → m c ≡ r
        → elim r [ broken e d ↦ broken e d | linked a d ↦ f a d ] ≡ linked b c'
        → (a : A) × (d : Conn) × (m c ≡ linked a d) × (f a d ≡ linked b c')
    go (linked a d) e q = (a, d, e, q)
    go (broken x d) e q = cc

pub require_linked :
    (ok : Bool) (e : TunnelError) {c c' : Conn}
    → require ok e c ≡ linked tt c'
    → (ok ≡ true) × (c ≡ c')
require_linked true e h = (refl, cc)
require_linked false e h = cc

pub parsed_linked {ℓ} :
    {A : Type ℓ} (o : Option A) {a : A} {c c' : Conn}
    → parsed o c ≡ linked a c'
    → (o ≡ some a) × (c ≡ c')
parsed_linked none h = cc
parsed_linked (some x) h = (cc, cc)

abbrev written : Bool → List ℕ → Conn → Read {0} Unit
written b bs c =
    if b then failed c else got tt (record c { outgoing = c.outgoing ++ bs; writes = c.writes - 1 })

abbrev outgoing_of : Link {0} Unit → List ℕ
outgoing_of (linked _ c) = c.outgoing
outgoing_of (broken _ c) = []

pub write_linked :
    (bs : List ℕ) (c c' : Conn) → try (write bs) c ≡ linked tt c' → c'.outgoing ≡ c.outgoing ++ bs
unfolding write
write_linked bs c c' h = go (c.writes == 0) h
  where
    go :
        (b : Bool)
        → elim (written b bs c) as (λ _. Link {0} Unit) [
          | failed d ↦ broken upstream_dial (close d)
          | got a d ↦ linked a d
        ]
          ≡ linked tt c'
        → c'.outgoing ≡ c.outgoing ++ bs
    go true q = cc
    go false q = ap outgoing_of (sym q)

-- What a CONNECT that was sent consists of.
pub record SentConnect (target : GoString) (c c' : Conn) : Type 0 where
  pub host : GoString
  pub port_str : GoString
  pub port : ℕ
  pub parts : split_host_port target ≡ some (host, port_str)
  pub number : atoi port_str ≡ some port
  pub port_small : port ≤ 65_535
  pub host_short : length host ≤ 255
  pub sent : c'.outgoing ≡ c.outgoing ++ connect_request host port

abbrev checked : GoString → ℕ → Linker {0} Unit
checked host port = do
  _ ← require (ltb 0 port && leb port 65535) upstream_dial
  _ ← require (leb (length host) 255) upstream_dial
  try (write (connect_request host port))

abbrev with_parts : GoString × GoString → Linker {0} Unit
with_parts (host, port_str) = parsed (atoi port_str) >>= checked host

pub sent_connect :
    (target : GoString) (c c' : Conn)
    → send_connect target c ≡ linked tt c'
    → SentConnect target c c'
unfolding send_connect
sent_connect target c c' h =
    let ((host, port_str), c1, h1, k1) =
      bind_linked (parsed (split_host_port target)) with_parts h in
    let (port, c2, h2, k2) = bind_linked (parsed (atoi port_str)) (checked host) k1 in
    let (_, c3, h3, k3) =
      bind_linked (require (ltb 0 port && leb port 65535) upstream_dial)
        (λ _ c.
          (require (leb (length host) 255) upstream_dial >>= λ _.
          try (write (connect_request host port)))
            c)
        k2 in
    let (_, c4, h4, k4) =
      bind_linked (require (leb (length host) 255) upstream_dial)
        (λ _ c. try (write (connect_request host port)) c) k3 in
    let (parts, e1) = parsed_linked (split_host_port target) h1 in
    let (number, e2) = parsed_linked (atoi port_str) h2 in
    let (small, e3) = require_linked (ltb 0 port && leb port 65535) upstream_dial h3 in
    let (short, e4) = require_linked (leb (length host) 255) upstream_dial h4 in
    record {
      host = host;
      port_str = port_str;
      port = port;
      parts = parts;
      number = number;
      port_small = ground arith;
      host_short = ground arith;
      sent =
          write_linked (connect_request host port) c4 c' k4
          ∙ ap (λ (x : Conn). x.outgoing ++ connect_request host port) (sym (e1 ∙ e2 ∙ e3 ∙ e4));
    }
