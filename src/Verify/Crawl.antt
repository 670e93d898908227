-- ===== src/Verify/Crawl.antt =====
-- src/verify/differential.rs: which vectors are replayed, and what an answer is reduced to. One
-- GET (`fetch`) is an argument: the status, the bytes of the body, and the body as text.
pub mod Capped
use Prim.Native.Nat.{bit_xor}
use Prim.Native.String as Str
use Prim.Native.String.{String, count}
use navin_engine.Prelude.{
  ℕ, zero, suc, ◌*◌, ◌/◌, ◌%◌, ◌^◌, Bool, true, false, not, ◌&&◌, Option, none, some, List, [], ◌∷◌,
  ◌++◌, length, leb, if◌then◌else◌,
}
use navin_engine.Prelude.Patterns.{split_once, has_prefix}
use navin_engine.Baseline.{push_new}
use navin_engine.Verify.Differential.{Fingerprint}

pub record Answer : Type 0 where
  pub status : ℕ  -- u16
  pub bytes : List ℕ
  pub text : String  -- lossy UTF-8

-- A step of FNV-1a, on 64 bits
abbrev pub fnv1a_step : ℕ → ℕ → ℕ
fnv1a_step hash byte = bit_xor hash byte * 1099511628211 % 2 ^ 64

abbrev pub fnv1a_from : ℕ → List ℕ → ℕ
fnv1a_from hash [] = hash
fnv1a_from hash (byte ∷ bytes) = fnv1a_from (fnv1a_step hash byte) bytes

abbrev hex_digit : ℕ → String
hex_digit n = Str.slice "0123456789abcdef" n (suc n)

abbrev hex_digits : ℕ → ℕ → String
hex_digits zero n = ""
hex_digits (suc k) n = let rest = hex_digits k (n / 16) in Str.◌++◌ rest (hex_digit (n % 16))

-- `{hash:016x}`
unfoldable pub fnv1a_hex : List ℕ → String
fnv1a_hex bytes = hex_digits 16 (fnv1a_from 14695981039346656037 bytes)

abbrev first_part : String → Option (String × String) → String
first_part after none = after
first_part after (some (part, rest)) = part

-- `split(p).skip(1)`: the parts behind each occurrence; there are fewer of them than characters.
unfoldable pub parts_behind : ℕ → String → Option (String × String) → List String
parts_behind fuel p none = []
parts_behind zero p (some (before, after)) = []
parts_behind (suc fuel) p (some (before, after)) =
    let further = split_once p after in first_part after further ∷ parts_behind fuel p further

abbrev pub chunks : String → String → List String
chunks attr body = parts_behind (count body) attr (split_once attr body)

-- A path of the same site, and neither an anchor nor a scheme
abbrev pub is_same_site : String → Bool
is_same_site link = has_prefix "/" link && not (has_prefix "//" link)

abbrev if_same_site : String → Option String
if_same_site link = if is_same_site link then some link else none

abbrev pub link_of : Option (String × String) → Option String
link_of none = none
link_of (some (link, rest)) = if_same_site link

-- What follows in the loop when the chunk has a link.
abbrev pub collect_link :
    ℕ → List String → (List String → List String) → Option String → List String
collect_link bound vectors further none = further vectors
collect_link bound vectors further (some link) =
    let grown = push_new vectors link in
    elim (leb bound (length grown)) [ true ↦ grown | false ↦ further grown ]

unfoldable pub collect : ℕ → List String → List String → List String
collect bound [] vectors = vectors
collect bound (chunk ∷ rest) vectors =
    collect_link bound vectors (collect bound rest) (link_of (split_once "\"" chunk))

abbrev pub crawl : ℕ → List String → Option Answer → List String
crawl bound vectors none = vectors
crawl bound vectors (some answer) =
    collect bound (chunks "href=\"" answer.text ++ chunks "action=\"" answer.text) vectors

module _ {W : Type 0} (fetch : String → ℕ → String → W → Option Answer × W) where
  abbrev pub discover_more : String → ℕ → String → ℕ → W → Bool → List String × W
  discover_more host port base_path bound w true = (base_path ∷ [], w)
  discover_more host port base_path bound w false =
      let r = fetch host port base_path w in (crawl bound (base_path ∷ []) r.0, r.1)

  unfoldable pub discover_vectors : String → ℕ → String → ℕ → W → List String × W
  unfolding collect
  discover_vectors host port base_path bound w =
      discover_more host port base_path bound w (leb bound 1)

  -- `unwrap_or_default()`
  abbrev status_of : Option Answer → ℕ
  status_of none = 0
  status_of (some answer) = answer.status

  abbrev body_of : Option Answer → List ℕ
  body_of none = []
  body_of (some answer) = answer.bytes

  abbrev print_of : String → Option Answer → Fingerprint
  print_of path answer = record {
    path = path;
    status = status_of answer;
    body_len = length (body_of answer);
    body_hash = fnv1a_hex (body_of answer);
  }

  unfoldable pub capture_all : String → ℕ → List String → W → List Fingerprint × W
  unfolding fnv1a_hex
  capture_all host port [] w = ([], w)
  capture_all host port (path ∷ paths) w =
      let r = fetch host port path w in
      let rest = capture_all host port paths r.1 in (print_of path r.0 ∷ rest.0, rest.1)
