-- ===== src/Promote/Links.antt =====
-- src/promote/publish.rs: the links of a published promotion, read from what `gh` prints and made
-- from the URL of a remote.
use Prim.Native.String as Str
use Prim.Native.String.{count}
use navin_engine.Prelude.{
  ℕ, zero, suc, String, Bool, false, ◌&&◌, ◌||◌, Option, none, some, List, [], ◌∷◌, if◌then◌else◌,
}
use navin_engine.Prelude.Patterns.{
  is_char, has_prefix, has_text, split_once, strip_prefix, trim_end_char, lines,
}
use navin_engine.Prelude.Text.{concat, trim, is_blank, is_whitespace}

-- The word at the front, and those behind it.
abbrev close_word : String × List String → List String
close_word (word, words) = if is_blank word then words else word ∷ words

unfoldable pub words_from : String → String × List String
words_from Str.[] = ("", [])
words_from (Str.◌∷◌ c s) =
    let r = words_from s in if is_whitespace c then ("", close_word r) else (Str.◌∷◌ c r.0, r.1)

abbrev split_whitespace : String → List String
split_whitespace s = close_word (words_from s)

-- `trim_end_matches(['.', ','])`
unfoldable pub trim_end_stops : String → String
trim_end_stops Str.[] = ""
trim_end_stops (Str.◌∷◌ c s) =
    let rest = trim_end_stops s in
    if (is_char 46 c || is_char 44 c) && is_blank rest then "" else Str.◌∷◌ c rest

abbrev first_https : List String → Option String
first_https [] = none
first_https (word ∷ words) =
    let rest = first_https words in
    if has_prefix "https://" word then some (trim_end_stops word) else rest

unfoldable pub first_url : String → Option String
unfolding words_from trim_end_stops
first_url text = first_https (split_whitespace text)

abbrev last_line : List String → String
last_line [] = ""
last_line (l ∷ []) = l
last_line (l ∷ m ∷ ls) = last_line (m ∷ ls)

abbrev pub short : String → String
short text = trim (last_line (lines text))

-- The text is made of nothing but `.git`, so many times at most.
unfoldable pub is_git_tail : ℕ → Option String → Bool
is_git_tail fuel none = false
is_git_tail zero (some s) = is_blank s
is_git_tail (suc fuel) (some s) = is_blank s || is_git_tail fuel (strip_prefix ".git" s)

-- `trim_end_matches(".git")`
unfoldable pub trim_end_git : String → String
unfolding is_git_tail
trim_end_git Str.[] = ""
trim_end_git (Str.◌∷◌ c s) =
    let rest = trim_end_git s in
    if is_git_tail (count (Str.◌∷◌ c s)) (some (Str.◌∷◌ c s)) then "" else Str.◌∷◌ c rest

-- `replacen(':', "/", 1)`
abbrev colon_to_slash : String → Option (String × String) → String
colon_to_slash rest none = rest
colon_to_slash rest (some (host, path)) = concat (host ∷ "/" ∷ path ∷ [])

-- Credentials in front of `@` go.
abbrev without_user : String → Option (String × String) → String
without_user rest none = rest
without_user rest (some (user, tail)) = tail

abbrev or_else : Option String → Option String → Option String
or_else none other = other
or_else (some s) other = some s

abbrev schemeless : String → Option String
schemeless url =
    or_else (strip_prefix "ssh://" url)
      (or_else (strip_prefix "https://" url) (strip_prefix "http://" url))

abbrev without_scheme : Option String → Option String
without_scheme none = none
without_scheme (some rest) = some (without_user rest (split_once "@" rest))

abbrev authority_of : String → Option String → Option String
authority_of url none = without_scheme (schemeless url)
authority_of url (some rest) = some (colon_to_slash rest (split_once ":" rest))

abbrev rooted : Option String → Option String
rooted none = none
rooted (some authority) =
    let root = trim_end_git (trim_end_char 47 authority) in
    if has_text "/" root then some (concat ("https://" ∷ root ∷ [])) else none

unfoldable pub web_root : String → Option String
unfolding trim_end_git
web_root remote_url =
    let url = trim remote_url in rooted (authority_of url (strip_prefix "git@" url))

abbrev link_to : String → String → Option String → Option String
link_to base branch none = none
link_to base branch (some web) =
    some (concat (web ∷ "/compare/" ∷ base ∷ "..." ∷ branch ∷ "?expand=1" ∷ []))

unfoldable pub compare_url : String → String → String → Option String
unfolding web_root
compare_url remote_url base branch = link_to base branch (web_root remote_url)
