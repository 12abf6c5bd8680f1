-- ===== src/Lib.antt =====
-- pio is a proxy daemon. Clients log in to its listeners with a name and a password and are tunnelled
-- through an upstream proxy. An administrator maps users to upstreams while connections are up.
--
-- The parts and the files that model them:
--   internal/auth/denylist.go       DenyList: bans of an address after failed logins
--   internal/model, internal/repo   Model, Store: rows, and the queries that the routing core runs
--   internal/repo                   Repo: statements and constraints (Rows), manual proxies (Manual),
--                                   keys (Keys), users (Users), settings (Config), listings (Listing,
--                                   Order); Database: all writers together
--   internal/crypto/aesgcm.go       Crypto: the layout of an encrypted column
--   internal/routing                Routing: the snapshot (State), its building (Build), the swap of
--                                   one mapping (Swap), the rebuilds (Rebuild)
--   internal/tunnel/tunnel.go       Tunnel: credentials (Acquire) and the way out (Dial)
--   internal/registry/registry.go   Registry: the active connections
--   internal/listener/socks5.go     Socks5: the handshake (Request) and the handler (Handler)
--   internal/listener/http_proxy.go Http: credentials and refusals (Responses), the handler (Handler)
--                                   the relay of a plain request (Forward)
--   internal/listener/hopbyhop.go   Http/Headers: the headers that are not passed on
--   internal/listener/unified.go    Unified: one port for both protocols
--   internal/web/session.go         Session: the tokens of the admin panel
--   internal/sync                   Sync: labels, numbers and the allocator of display names, their
--                                   two forms (Names), one sync of a key (Reconcile)
--   internal/webshare/client.go    Webshare: the vendor's API, its retries (Retry) and pages (Pages)
--   internal/ws/hub.go              Hub: the channels of the event subscribers
--   internal/api/subscription.go    Api: the public list of proxies (Subscription), strings (Text)
-- Wire holds what the listeners and the tunnel share: a connection as the bytes to come, the bytes sent and the number
-- of writes that succeed, and the strconv, net and base64 functions that they call. Base holds lists,
-- maps and branches, and Fixtures the rows for the Tests modules.
--
-- The listener asks the deny-list, reads credentials, calls Acquire on the routing snapshot, registers
-- the connection, and dials. A routing operation stores its change, replaces the snapshot, and ends
-- the connections of the mappings that changed, through cancel groups and through callbacks that walk
-- the registry.
-- The swap and the two rebuilds hold a mutex, so each is one step of Routing.Reach, where any
-- other write to the database or the world of the callbacks may come in between. Hydrate holds none:
-- the tables that its queries read are any, and its store of the snapshot is one step. A store that
-- falls inside a swap or a rebuild, which then overwrites it, is not modelled.
--
-- Every write to the database is one step of Database: an operation of the repository, the
-- transaction of a sync, a change of one mapping. A table is a list of rows with the constraints of
-- the migrations: primary keys, the unique names of manual proxies, and the foreign keys, where the
-- deletion of an upstream sets the mappings to it to NULL. The fetch of a sync lies before its
-- transaction, so others may write in between. So do the checks of DeleteApiKey and
-- DeleteManualProxy lie before their deletions.
--
-- Correspondence: a Go map is an association list, read by `find` and written by `put`; iteration goes
-- over the list, whose order is arbitrary. A pointer that may be nil is an Option. A cancel group and
-- a CancelFunc are numbers. A time is a number of nanoseconds. An error return is `err`, `refused`,
-- `broken` or `failed`. Loops are structural recursion; the digits of a number are taken on fuel of
-- one more than the number, which has at most as many digits, and the search for a free number in
-- Sync on one step more than there are numbers in use, which is proved to be enough.
-- ListProxies follows the vendor's cursors on fuel for each page and one more, which is proved to be
-- enough for finitely many pages.
--
-- Arguments of the definitions stand for what the program only calls: AES-GCM, SHA-1, random bytes,
-- the vendor's answer, the database driver's failures, the clock, net.SplitHostPort where it is not computed, the text of an IPv6
-- address, the TCP dialer, the TLS handshake, base64 decoding, and net/http's reading and writing of
-- messages. The HTTP handler takes the relay of a plain request as an argument, which
-- handle_absolute_form of Http/Forward fills. The interim responses of an upstream are read on the
-- limit of their heads as fuel.
-- Not modelled: the copying of bytes by Bridge, deadlines, accept loops, the text of SQL and of the
-- migrations, logging, the JSON handlers of the admin API, the command line
-- and the web interface.
pub mod Base
pub mod DenyList
pub mod Model
pub mod Store
pub mod Repo
pub mod Routing
pub mod Tunnel
pub mod Registry
pub mod Wire
pub mod Crypto
pub mod Fixtures
pub mod Socks5
pub mod Session
pub mod Sync
pub mod Unified
pub mod Database
pub mod Hub
pub mod Api
pub mod Webshare
pub mod Http
