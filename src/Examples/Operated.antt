-- ===== src/Examples/Operated.antt =====
-- A one-click merge and a rollback on a machine that keeps the file of the record.
use navin_engine.Prelude.{
  String, ◌≡◌, refl, Bool, true, false, some, [], ◌∷◌, str_eq, if◌then◌else◌, Result, ok, pure,
  raise, ◌>>=◌, arith,
}
use navin_engine.System.{System, with_context, attempt, catch, gets, ensure, now_epoch}
use navin_engine.System.Path.{FilePath}
use navin_engine.Prelude.Text.{trim, show}
use navin_engine.Promote.Hex.{encode_hex, decode_hex}
use navin_engine.Promote.Certificate.{
  is_valid, is_authentic, compute_checksum, checksum_matches, signature_valid, sign, load_or_create,
  issue,
}
use navin_engine.Promote.Git.{git, is_repo, is_clean, delete_branch, merge_ff_only}
use navin_engine.Promote.Record.{PromotionRecord, Codec, save, load}
use navin_engine.Promote.Engine.{finish}
use navin_engine.Promote.Operator.{
  is_some, merged_record, merge_loaded, merge, rollback_loaded, rollback,
}
use navin_engine.Promote.Operator.Stored.{Store}
use navin_engine.Promote.Operator.Once.{Ready, RolledBack, Fails, merge-Ready, rollback-RolledBack}
use navin_engine.Examples.Machine.{zeros, crypto, value_or}
use navin_engine.Examples.Promotions.{root, on_disk, no_certificate, run_issue}

abbrev is_file_of : String → FilePath → Bool
is_file_of name [] = false
is_file_of name (part ∷ []) = str_eq part name
is_file_of name (part ∷ rest) = is_file_of name rest

-- The world is what the file of the record says.
abbrev disk : System String
disk = record {
  run_git =
      λ dir args w. (ok (record { success = true; stdout = ""; stderr = ""; is_utf8 = true }), w);
  git_apply =
      λ dir diff w. (ok (record { success = true; stdout = ""; stderr = ""; is_utf8 = true }), w);
  run_command = λ cmd dir log deadline w. (ok 0, w);
  exists = λ p w. true;
  is_file = λ p w. false;
  is_dir = λ p w. true;
  create_dir_all = λ p w. (ok tt, w);
  write = λ p text w. (ok tt, if is_file_of "p.json" p then text else w);
  read_to_string = λ p w. (ok w, w);
  copy = λ p q w. (ok tt, w);
  remove_dir_all = λ p w. (ok tt, w);
  read_dir = λ p w. (ok [], w);
  set_owner_only = λ p w. (ok tt, w);
  random_bytes = λ n w. (ok (zeros n), w);
  epoch_secs = λ w. 7;
}

abbrev prepared : PromotionRecord
prepared = record on_disk { certificate = some (value_or no_certificate run_issue.0) }

abbrev rolled : PromotionRecord
rolled = record prepared { rolled_back_at = some "epoch:7" }

abbrev codec : Codec
codec = record {
  to_json =
      λ r. if is_some r.rolled_back_at then "rolled" else if r.merged then "merged" else "prepared";
  of_json = λ text. ok (
      if str_eq text "rolled"
      then rolled
      else if str_eq text "merged"
      then merged_record prepared
      else prepared);
  promotion = λ r. "markdown";
}

store : Store disk codec root "p"
store = record { kept = λ text w w' h. ground (arith, h); beside = λ text w. refl }

abbrev run_merge : Result String PromotionRecord × String
run_merge = merge disk codec crypto root "p" "prepared"

abbrev run_rollback : Result String PromotionRecord × String
run_rollback = rollback disk codec root "p" "prepared"

run_merge-eq : run_merge ≡ (ok (merged_record prepared), "merged")
unfolding merge merge_loaded load save finish is_repo is_clean git merge_ff_only ensure with_context
    attempt catch gets now_epoch ◌>>=◌ pure raise is_authentic is_valid issue sign load_or_create
    checksum_matches compute_checksum encode_hex signature_valid decode_hex trim
run_merge-eq = refl

run_rollback-eq : run_rollback ≡ (ok rolled, "rolled")
unfolding rollback rollback_loaded load save finish is_repo git delete_branch ensure with_context
    attempt catch gets now_epoch ◌>>=◌ pure raise show
run_rollback-eq = refl

merge-Ready_example :
    (old : PromotionRecord) × ((load disk codec root "p" "prepared").0 ≡ ok old)
    × Ready crypto old (merged_record prepared)
    × ((load disk codec root "p" "merged").0 ≡ ok (merged_record prepared))
    × Fails (merge disk codec crypto root "p") "merged"
merge-Ready_example =
    merge-Ready disk codec crypto root "p" store "prepared" "merged" (merged_record prepared)
      run_merge-eq refl refl

rollback-RolledBack_example :
    (old : PromotionRecord) × ((load disk codec root "p" "prepared").0 ≡ ok old)
    × RolledBack disk root "p" old rolled
    × ((load disk codec root "p" "rolled").0 ≡ ok rolled)
    × Fails (merge disk codec crypto root "p") "rolled"
    × Fails (rollback disk codec root "p") "rolled"
rollback-RolledBack_example =
    rollback-RolledBack disk codec crypto root "p" store "prepared" "rolled" rolled run_rollback-eq
      refl refl
