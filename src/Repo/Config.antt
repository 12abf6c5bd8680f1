-- ===== src/Repo/Config.antt =====
-- internal/repo/settings.go: the single row of settings, and the audit log's listing.
use pio.Base.{ℕ, Bool, Option, List, [], ◌∷◌, ◌++◌, GoString, length, take, ltb}
use pio.Base.Int.{ℤ}
use pio.Model.{Settings, AuditLogEntry}
use pio.Store.{Result, ok, ◌>>=◌, driver, Tables, universal_proxy_password_aad}
use pio.Repo.Manual.{encrypted}

-- The flags are columns of 0 and 1, which LoadSettings reads back as they were written.
unfoldable pub load_settings : Bool → Tables → Result Settings
load_settings fails t = driver fails t.settings

-- Every field but api_port.
unfoldable pub update_settings : Bool → Settings → Tables → Result Tables
update_settings fails s t =
    driver fails (record t { settings = record s { api_port = t.settings.api_port } })

unfoldable pub set_proxy_enabled : Bool → Bool → Tables → Result Tables
set_proxy_enabled fails enabled t =
    driver fails (record t { settings = record t.settings { proxy_enabled = enabled } })

unfoldable pub save_api_port : Bool → ℤ → Tables → Result Tables
save_api_port fails port t =
    driver fails (record t { settings = record t.settings { api_port = port } })

unfoldable pub has_universal_proxy_password : Bool → Tables → Result Bool
has_universal_proxy_password fails t = driver fails (ltb 0 (length t.universal_proxy_password_enc))

-- An empty password clears the column.
abbrev pub universal_column : (GoString → GoString → Option GoString) → GoString → Result GoString
universal_column encrypt [] = ok []
universal_column encrypt (b ∷ bs) = encrypted encrypt universal_proxy_password_aad (b ∷ bs)

unfoldable pub set_universal_proxy_password :
    (GoString → GoString → Option GoString) → Bool → GoString → Tables → Result Tables
set_universal_proxy_password encrypt fails plaintext t = do
  enc ← universal_column encrypt plaintext
  driver fails (record t { universal_proxy_password_enc = enc })

unfoldable pub newest_first : List AuditLogEntry → List AuditLogEntry
newest_first [] = []
newest_first (e ∷ es) = newest_first es ++ e ∷ []

-- ORDER BY id DESC LIMIT ?: the ids grow with the rows.
unfoldable pub list_audit_log : Bool → ℕ → Tables → Result (List AuditLogEntry)
list_audit_log fails limit t = driver fails (take limit (newest_first t.audit_log))
