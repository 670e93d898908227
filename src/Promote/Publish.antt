-- ===== src/Promote/Publish.antt =====
-- src/promote/publish.rs: a promotion's branch is pushed, and a pull request opened for it, or a
-- link handed back. The `gh` program is an argument.
pub mod Pushed
use Prim.Native.String as Str
use navin_engine.Prelude.{
  String, Bool, false, not, Option, none, some, List, [], ◌∷◌, ◌++◌, if◌then◌else◌, Result, ok, err,
  Exec, pure, raise, ◌>>=◌, ◌>>◌,
}
use navin_engine.Prelude.Text.{concat, join, show, trim, is_blank}
use navin_engine.System.{System, Output, with_context, catch, gets, ensure}
use navin_engine.System.Path.{FilePath}
use navin_engine.Promote.Certificate.{Certificate, debug}
use navin_engine.Promote.Engine.{finish}
use navin_engine.Promote.Git.{
  is_repo, remote_url, default_remote, base_branch, push_branch, branch_exists,
}
use navin_engine.Promote.Links.{first_url, short, compare_url}
use navin_engine.Promote.Operator.{is_some}
use navin_engine.Promote.Record.{PromotionRecord, Codec, load}

-- The GitHub CLI: its version, and a command in a directory.
pub record GitHubCli (W : Type 0) : Type 0 where
  pub version : Exec W String Output
  pub command : FilePath → List String → Exec W String Output

pub record GhOutput : Type 0 where
  pub ok_status : Bool
  pub text : String

abbrev gh_text : String → String → String
gh_text text stderr =
    if is_blank stderr
    then text
    else if is_blank text
    then stderr
    else concat (text ∷ "\n" ∷ stderr ∷ [])

abbrev gh_output : Output → GhOutput
gh_output output = record {
  ok_status = output.success;
  text = gh_text (trim output.stdout) (trim output.stderr);
}

abbrev title : PromotionRecord → String
title r = concat ("navin: " ∷ r.candidate_id ∷ " (" ∷ r.finding ∷ ")" ∷ [])

abbrev certificate_lines : Option Certificate → List String
certificate_lines none = []
certificate_lines (some cert) =
    concat (
      "- robustness "
      ∷ show cert.score_before
      ∷ " -> "
      ∷ show cert.score_after
      ∷ " out of 100, proof verdict "
      ∷ debug cert.verdict_after
      ∷ [])
    ∷ concat ("- targeted finding resolved: " ∷ (if cert.resolved_target then "yes" else "no") ∷ [])
    ∷ concat ("- family `" ∷ cert.family ∷ "`, engine " ∷ cert.engine_version ∷ [])
    ∷ concat ("- certificate `" ∷ cert.checksum ∷ "` (Ed25519 signed)" ∷ [])
    ∷ []

abbrev commit_lines : Option String → List String
commit_lines none = []
commit_lines (some sha) = concat ("- commit `" ∷ sha ∷ "`" ∷ []) ∷ []

abbrev body : PromotionRecord → String
body r = join "\n" (
    concat ("Candidate `" ∷ r.candidate_id ∷ "` for finding `" ∷ r.finding ∷ "`." ∷ [])
      ∷ ""
      ∷ certificate_lines r.certificate
    ++ commit_lines r.commit_sha
    ++ ""
      ∷ concat (
          "Prepared by navin-engine in `" ∷ r.mode
          ∷ "` mode. Verify the evidence with `navin-engine verify-cert . --id " ∷ r.id ∷ "`." ∷ [])
      ∷ [])

module _ {W : Type 0} (sys : System W) (codec : Codec) (cli : GitHubCli W) where
  abbrev gh : FilePath → List String → Exec W String GhOutput
  gh root args = do
    output ← with_context "running the GitHub CLI" (cli.command root args)
    pure (gh_output output)

  abbrev is_success : Result String Output → Bool
  is_success (ok output) = output.success
  is_success (err e) = false

  abbrev existing_url : String → Option String → Exec W String String
  existing_url text none = raise (concat ("gh could not open a pull request: " ∷ short text ∷ []))
  existing_url text (some url) = pure url

  -- The usual case on a second call: a pull request is open.
  abbrev view_existing : FilePath → String → String → Exec W String String
  view_existing root branch text = do
    existing ← gh root ("pr" ∷ "view" ∷ branch ∷ "--json" ∷ "url" ∷ "-q" ∷ ".url" ∷ [])
    existing_url text (first_url existing.text)

  abbrev opened : FilePath → String → GhOutput → Option String → Exec W String String
  opened root branch output (some url) = pure url
  opened root branch output none = do
    ensure (not output.ok_status) "gh reported success without a pull request URL"
    view_existing root branch output.text

  unfoldable pub open_with_gh : FilePath → PromotionRecord → String → String → Exec W String String
  unfolding first_url
  open_with_gh root r branch base = do
    version ← catch cli.version
    ensure (is_success version) "the GitHub CLI (gh) is not installed"
    output ← gh root (
        "pr"
        ∷ "create"
        ∷ "--head"
        ∷ branch
        ∷ "--base"
        ∷ base
        ∷ "--title"
        ∷ title r
        ∷ "--body"
        ∷ body r
        ∷ [])
    opened root branch output (first_url output.text)

  abbrev pub with_link : String → String → String → Option String → Option String
  with_link reason base branch none = none
  with_link reason base branch (some url) = compare_url url base branch

  abbrev link_note : String → Option String → String
  link_note reason none = concat ("branch pushed; " ∷ reason ∷ [])
  link_note reason (some link) = concat ("branch pushed; open the PR here (" ∷ reason ∷ ")" ∷ [])

  -- The link that is kept, and the reason that is noted.
  abbrev pub announced :
      FilePath
      → String
      → String
      → String
      → Result String String
      → Exec W String (Option String × String)
  announced root remote base branch (ok url) =
      pure (some url, concat ("pull request opened against " ∷ base ∷ []))
  announced root remote base branch (err reason) = do
    url ← remote_url sys root remote
    let link : Option String = with_link reason base branch url
    pure (link, link_note reason link)

  abbrev pub published_record :
      PromotionRecord → String → String → Option String × String → PromotionRecord
  published_record r remote branch (url, note) = record r {
    pushed_to = some (concat (remote ∷ "/" ∷ branch ∷ []));
    pull_request = url;
    reasons = r.reasons ++ note ∷ [];
  }

  abbrev pub publish_to :
      FilePath → PromotionRecord → String → Option String → Exec W String PromotionRecord
  publish_to root r branch none =
      raise "no git remote configured; add one with `git remote add origin <url>`"
  publish_to root r branch (some remote) = do
    with_context (concat ("pushing " ∷ branch ∷ " to " ∷ remote ∷ []))
        (push_branch sys root remote branch)
    base ← base_branch sys root remote
    request ← catch (
        open_with_gh root (record r { pushed_to = some (concat (remote ∷ "/" ∷ branch ∷ [])) })
          branch base)
    news ← announced root remote base branch request
    finish sys codec root (published_record r remote branch news)

  abbrev pub publish_branch :
      FilePath → String → PromotionRecord → Option String → Exec W String PromotionRecord
  publish_branch root id r none =
      raise (concat ("promotion " ∷ id ∷ " has no branch (it was blocked before any commit)" ∷ []))
  publish_branch root id r (some branch) = do
    repo ← gets (is_repo sys root)
    ensure repo "not a git repository"
    present ← branch_exists sys root branch
    ensure present (concat ("branch " ∷ branch ∷ " no longer exists in this repository" ∷ []))
    remote ← default_remote sys root
    publish_to root r branch remote

  unfoldable pub publish : FilePath → String → Exec W String PromotionRecord
  unfolding open_with_gh
  publish root id = do
    r ← load sys codec root id
    ensure (not (is_some r.rolled_back_at))
        (concat ("promotion " ∷ id ∷ " was rolled back; nothing to publish" ∷ []))
    publish_branch root id r r.branch
