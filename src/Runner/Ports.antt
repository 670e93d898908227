-- ===== src/Runner/Ports.antt =====
-- src/runner/ports.rs: the address in a probe's URL.
use navin_engine.Prelude.{ℕ, String, Option, none, some, [], ◌∷◌, Result, ok, err, if◌then◌else◌}
use navin_engine.Prelude.Text.{concat, is_blank}
use navin_engine.Prelude.Patterns.{strip_prefix, split_once, rsplit_once, parse_unsigned}

abbrev path_of : String → Option (String × String) → String × String
path_of rest none = (rest, "/")
path_of rest (some (authority, path)) = (authority, concat ("/" ∷ path ∷ []))

abbrev port_of : Option ℕ → Result String ℕ
port_of none = err "invalid port"
port_of (some port) = ok port

abbrev with_host : String → String → String → Result String ℕ → Result String (String × ℕ × String)
with_host url host path (err e) = err e
with_host url host path (ok port) =
    if is_blank host then err (concat ("missing host in " ∷ url ∷ [])) else ok (host, port, path)

abbrev pub authority_of : String → String → String → Result String (String × ℕ × String)
authority_of url authority path = elim (rsplit_once b':' authority) [
  | none ↦ with_host url authority path (ok 80)
  | some (host, port) ↦ with_host url host path (port_of (parse_unsigned 65535 port))
]

unfoldable pub parse_http_url : String → Result String (String × ℕ × String)
parse_http_url url = elim (strip_prefix "http://" url) [
  | none ↦ err "only http:// URLs are supported for local probes"
  | some rest ↦
      let (authority, path) = path_of rest (split_once "/" rest) in authority_of url authority path
]
