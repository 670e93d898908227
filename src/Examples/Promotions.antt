-- ===== src/Examples/Promotions.antt =====
-- A promotion that merges, a one-click merge and a rollback.
use navin_engine.Prelude.{
  ℕ, String, ◌≡◌, ◌↔◌, refl, arith, true, false, none, some, [], ◌∷◌, Result, ok, pure, raise,
  ◌>>=◌,
}
use Prim.Native.String as Str
use Prim.Native.String.{◌++◌}
use navin_engine.System.{with_context, attempt, catch, gets, ensure, now_epoch}
use navin_engine.Prelude.Text.{trim}
use navin_engine.System.Path.{FilePath, parent, is_absolute, components}
use navin_engine.Fix.Patch.{apply, safe_join}
use navin_engine.Fix.Diff.{capture}
use navin_engine.Policy.{EvolveConfig, default_config}
use navin_engine.Proof.{pass}
use navin_engine.Fix.Model.{files, FixCandidate, accept, FixAttempt, FixReport}
use navin_engine.Promote.Policy.{decide}
use navin_engine.Promote.Policy.Laws.{is_merge, is_blocked, MayPromote, MayMerge, decide_iff}
use navin_engine.Promote.Hex.{bytes, panicked, encode_hex, decode_hex}
use navin_engine.Promote.Hex.RoundTrip.{decode_hex-encode_hex, decode_hex_panics}
use navin_engine.Promote.Certificate.{
  Certificate, is_valid, signing_message, compute_checksum, checksum_matches, signature_valid, sign,
  load_or_create, issue,
}
use navin_engine.Promote.Certificate.Authentic.{Certifies, attempt_of, issue-Issued}
use navin_engine.Promote.Certificate.Message.{signing_message_shift}
use navin_engine.Promote.Git.{
  git, is_repo, head_sha, is_clean, create_branch, delete_branch, add_worktree, remove_worktree,
  commit_all, merge_ff_only,
}
use navin_engine.Promote.Record.{branch_only, PromotionRecord, Codec, save}
use navin_engine.Promote.Engine.{
  finish, prepare_commit, try_merge, promote_with_git, carry_out, promote,
}
use navin_engine.Promote.Engine.Guarded.{Authorised, promote-Authorised}
use navin_engine.Promote.Slug.{has_double, sanitize}
use navin_engine.Promote.Slug.Token.{all_safe, starts_with_dash, ends_with_dash, sanitize-safe}
use navin_engine.Examples.Machine.{zeros, machine, crypto, laws, is_ok, value_or, succeeded}

abbrev pub root : FilePath
root = "srv" ∷ "app" ∷ []

abbrev pub candidate : FixCandidate
candidate = record {
  id = "bound-the-queue";
  target_finding = "crash.load";
  rationale = "bound the queue";
  family = "reliability";
  patch = files (record { path = "a.txt"; contents = "x" } ∷ []);
}

abbrev pub attempt_made : FixAttempt ℕ
attempt_made = record {
  candidate_id = "bound-the-queue";
  target_finding = "crash.load";
  rationale = "bound the queue";
  comparison = record {
    score_before = 40;
    score_after = 90;
    verdict_before = pass;
    verdict_after = pass;
    resolved_target = true;
    new_high_findings = [];
    p95_before_ms = none;
    p95_after_ms = none;
    tests_before = none;
    tests_after = none;
    invariants_before = none;
    invariants_after = none;
  };
  gate = record { decision = accept; reasons = [] };
  after_findings = [];
  apply_error = none;
  diff = none;
}

abbrev pub report : FixReport ℕ
report = record {
  schema = "navin-fix/v1";
  commit = "abc";
  collected_at = "epoch:7";
  target_finding = "crash.load";
  score_before = 40;
  verdict_before = pass;
  attempts = attempt_made ∷ [];
  accepted = some "bound-the-queue";
  proposal_path = none;
  notes = [];
}

abbrev pub autonomous : EvolveConfig
unfolding default_config
autonomous = record default_config { evolve = record default_config.evolve { mode = "autonomous" } }

decide_iff_example :
    ((is_blocked (decide autonomous "reliability" true) ≡ false)
      ↔ MayPromote autonomous "reliability" true)
    × ((is_merge (decide autonomous "reliability" true) ≡ true)
        ↔ (MayPromote autonomous "reliability" true × MayMerge autonomous))
decide_iff_example = decide_iff autonomous "reliability" true

abbrev pub run_issue : Result String Certificate × ℕ
run_issue = issue crypto machine root report candidate 0

abbrev pub no_certificate : Certificate
no_certificate = record {
  schema = "navin-certificate/v1";
  engine_version = "0.1.0";
  finding = "crash.load";
  candidate_id = "bound-the-queue";
  family = "reliability";
  commit_before = "abc";
  score_before = 40;
  score_after = 90;
  verdict_after = pass;
  resolved_target = true;
  issued_at = "epoch:7";
  checksum = encode_hex (zeros 7);
  signature = encode_hex (zeros 64);
  public_key = encode_hex (zeros 32);
}

run_issue_ok : is_ok run_issue.0 ≡ true
unfolding issue load_or_create sign ◌>>=◌ pure raise with_context attempt gets now_epoch encode_hex
    compute_checksum
run_issue_ok = refl

issue-Issued_example :
    let c = value_or no_certificate run_issue.0 in
    (checksum_matches crypto c ≡ true)
    × (signature_valid crypto c ≡ some true)
    × (a : FixAttempt ℕ) × (attempt_of report candidate ≡ some a)
    × Certifies report candidate a c
issue-Issued_example =
    issue-Issued report candidate crypto laws machine root (value_or no_certificate run_issue.0) 0
      run_issue.1 (succeeded no_certificate run_issue run_issue_ok)

signing_message_shift_example :
    signing_message (record no_certificate { finding = "a" ++ "\n" ++ "b"; candidate_id = "c" })
    ≡ signing_message (record no_certificate { finding = "a"; candidate_id = "b" ++ "\n" ++ "c" })
signing_message_shift_example = signing_message_shift no_certificate "a" "b" "c"

decode_hex-encode_hex_example : decode_hex (encode_hex (0 ∷ 255 ∷ [])) ≡ bytes (0 ∷ 255 ∷ [])
decode_hex-encode_hex_example =
    decode_hex-encode_hex (0 ∷ 255 ∷ []) (ground arith, (ground arith, tt))

decode_hex_panics_example : decode_hex (Str.◌∷◌ "a" (Str.◌∷◌ "é" "b")) ≡ panicked
decode_hex_panics_example =
    decode_hex_panics "a" "é" "b" (ground arith) (ground arith) (ground arith)

abbrev pub on_disk : PromotionRecord
on_disk = record {
  schema = "navin-promotion/v1";
  id = "p";
  finding = "crash.load";
  candidate_id = "bound-the-queue";
  mode = "safe";
  outcome = branch_only;
  reasons = [];
  branch = some "navin/evolve/p";
  commit_sha = some "def";
  prev_head = some "abc";
  merged = false;
  certificate = some no_certificate;
  diff = none;
  pushed_to = none;
  pull_request = none;
  created_at = "epoch:7";
  rolled_back_at = none;
}

abbrev pub codec : Codec
codec = record {
  to_json = λ r. "record";
  of_json =
      λ text. ok (record on_disk { certificate = some (value_or no_certificate run_issue.0) });
  promotion = λ r. "markdown";
}

abbrev run_promote : Result String PromotionRecord × ℕ
run_promote = promote machine codec crypto root report candidate "candidate" autonomous 0

run_promote_ok : is_ok run_promote.0 ≡ true
unfolding promote carry_out promote_with_git prepare_commit try_merge finish save is_repo is_clean
    git merge_ff_only create_branch delete_branch add_worktree remove_worktree commit_all head_sha
    issue load_or_create sign with_context attempt catch gets now_epoch ◌>>=◌ pure raise ensure
    decide autonomous is_valid parent apply safe_join is_absolute components capture trim
run_promote_ok = refl

abbrev promoted : PromotionRecord
promoted = value_or on_disk run_promote.0

promote-Authorised_example : Authorised autonomous "reliability" promoted
promote-Authorised_example =
    promote-Authorised machine codec root crypto report candidate "candidate" autonomous 0
      run_promote.1 promoted (succeeded on_disk run_promote run_promote_ok)

sanitize-safe_example :
    (all_safe (sanitize "--crash..load/1-") ≡ true)
    × (has_double (sanitize "--crash..load/1-") ≡ false)
    × (starts_with_dash (sanitize "--crash..load/1-") ≡ false)
    × (ends_with_dash (sanitize "--crash..load/1-") ≡ false)
sanitize-safe_example = sanitize-safe "--crash..load/1-"
