-- ===== src/Examples/Publishing.antt =====
-- A promotion whose branch is pushed to a remote.
use navin_engine.Prelude.{ℕ, suc, ◌≡◌, refl, true, String, none, some, Result, ok}
use navin_engine.System.{System, Output}
use navin_engine.Promote.Links.{compare_url}
use navin_engine.Promote.Publish.{GitHubCli, publish}
use navin_engine.Promote.Publish.Pushed.{Published, publish-Published}
use navin_engine.Promote.Record.{PromotionRecord, load}
use navin_engine.Examples.Machine.{machine, is_ok, value_or, succeeded}
use navin_engine.Examples.Promotions.{codec, root, on_disk}

abbrev says : String → Output
says text = record { success = true; stdout = text; stderr = ""; is_utf8 = true }

abbrev connected : System ℕ
connected = record machine { run_git = λ dir args w. (ok (says "origin"), suc w) }

abbrev gh : GitHubCli ℕ
gh = record {
  version = λ w. (ok (says "gh 2"), suc w);
  command = λ dir args w. (ok (says "see https://example.org/pull/7."), suc w);
}

abbrev pushed : Result String PromotionRecord × ℕ
pushed = publish connected codec gh root "p" 0

pushed_ok : is_ok pushed.0 ≡ true
unfolding publish compare_url navin_engine.Prelude.Patterns.strip_prefix
    navin_engine.Prelude.Text.trim navin_engine.Prelude.Patterns.split_once
    navin_engine.Prelude.Patterns.trim_end_char navin_engine.Prelude.◌>>=◌ load
    navin_engine.System.with_context navin_engine.System.ensure navin_engine.System.gets
    navin_engine.Promote.Git.is_repo navin_engine.Promote.Git.branch_exists
    navin_engine.System.attempt navin_engine.Promote.Git.git navin_engine.Promote.Git.default_remote
    navin_engine.Prelude.Patterns.lines navin_engine.Promote.Git.push_branch
    navin_engine.Promote.Git.base_branch navin_engine.System.catch
    navin_engine.Promote.Engine.finish navin_engine.Prelude.pure navin_engine.Prelude.raise
    navin_engine.Prelude.Text.decimal navin_engine.Prelude.Text.is_whitespace
    navin_engine.Prelude.Text.join navin_engine.Prelude.Text.show navin_engine.Prelude.Text.trim_end
    navin_engine.Prelude.Text.trim_start navin_engine.Promote.Git.checked
    navin_engine.Promote.Git.current_branch navin_engine.Promote.Git.remote_url
    navin_engine.Promote.Links.is_git_tail navin_engine.Promote.Publish.open_with_gh
    navin_engine.Promote.Links.trim_end_git navin_engine.Promote.Links.trim_end_stops
    navin_engine.Promote.Links.web_root navin_engine.Promote.Links.words_from
    navin_engine.Promote.Record.save
pushed_ok = refl

publish-Published_example :
    (old : PromotionRecord) × ((load connected codec root "p" 0).0 ≡ ok old)
    × Published connected codec gh root old (value_or on_disk pushed.0)
publish-Published_example =
    publish-Published connected codec gh root "p" 0 pushed.1 (value_or on_disk pushed.0)
      (succeeded on_disk pushed pushed_ok)

pushed_link : (value_or on_disk pushed.0).pull_request ≡ some "https://example.org/pull/7"
unfolding publish compare_url navin_engine.Prelude.Patterns.strip_prefix
    navin_engine.Prelude.Text.trim navin_engine.Prelude.Patterns.split_once
    navin_engine.Prelude.Patterns.trim_end_char navin_engine.Prelude.◌>>=◌ load
    navin_engine.System.with_context navin_engine.System.ensure navin_engine.System.gets
    navin_engine.Promote.Git.is_repo navin_engine.Promote.Git.branch_exists
    navin_engine.System.attempt navin_engine.Promote.Git.git navin_engine.Promote.Git.default_remote
    navin_engine.Prelude.Patterns.lines navin_engine.Promote.Git.push_branch
    navin_engine.Promote.Git.base_branch navin_engine.System.catch
    navin_engine.Promote.Engine.finish navin_engine.Prelude.pure navin_engine.Prelude.raise
    navin_engine.Prelude.Text.decimal navin_engine.Prelude.Text.is_whitespace
    navin_engine.Prelude.Text.join navin_engine.Prelude.Text.show navin_engine.Prelude.Text.trim_end
    navin_engine.Prelude.Text.trim_start navin_engine.Promote.Git.checked
    navin_engine.Promote.Git.current_branch navin_engine.Promote.Git.remote_url
    navin_engine.Promote.Links.is_git_tail navin_engine.Promote.Publish.open_with_gh
    navin_engine.Promote.Links.trim_end_git navin_engine.Promote.Links.trim_end_stops
    navin_engine.Promote.Links.web_root navin_engine.Promote.Links.words_from
    navin_engine.Promote.Record.save
pushed_link = refl

ssh_remote :
    compare_url "git@github.com:acme/app.git" "main" "feature"
    ≡ some "https://github.com/acme/app/compare/main...feature?expand=1"
unfolding compare_url navin_engine.Prelude.Patterns.strip_prefix navin_engine.Prelude.Text.trim
    navin_engine.Prelude.Patterns.split_once navin_engine.Prelude.Patterns.trim_end_char
ssh_remote = refl

credentials_gone :
    compare_url "https://token:x@github.com/acme/app.git/" "main" "feature"
    ≡ some "https://github.com/acme/app/compare/main...feature?expand=1"
unfolding compare_url navin_engine.Prelude.Patterns.strip_prefix navin_engine.Prelude.Text.trim
    navin_engine.Prelude.Patterns.split_once navin_engine.Prelude.Patterns.trim_end_char
credentials_gone = refl

local_remote : compare_url "/srv/git/app.git" "main" "feature" ≡ none
unfolding compare_url navin_engine.Prelude.Patterns.strip_prefix navin_engine.Prelude.Text.trim
local_remote = refl
