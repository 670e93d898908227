-- ===== src/Verify/Invariants.antt =====
-- src/verify/invariants.rs: the commands that a project declares as invariants, run in a shadow.
pub mod Reported
use navin_engine.Prelude.{
  ℕ, max, String, Bool, true, false, List, [], ◌∷◌, ◌++◌, length, is_empty, if◌then◌else◌, Exec,
  pure, ◌>>=◌,
}
use navin_engine.System.{System, command_ok, engine_dir}
use navin_engine.System.Path.{FilePath}
use navin_engine.Policy.{InvariantSpec}

pub record InvariantOutcome : Type 0 where
  pub checked : ℕ
  pub passed : Bool
  pub failures : List String

abbrev pub invariants_log : FilePath → FilePath
invariants_log root = engine_dir root ++ "logs" ∷ "invariants.log" ∷ []

-- `if !ok { failures.push(name) }`
abbrev pub push_failure : Bool → String → List String → List String
push_failure is_green name failures = if is_green then failures else failures ++ name ∷ []

module _ {W : Type 0} (sys : System W) (work_dir root : FilePath) where
  abbrev pub run_invariant : InvariantSpec → Exec W String Bool
  run_invariant spec =
      command_ok sys spec.command work_dir (invariants_log root) (max spec.timeout_secs 1)

  unfoldable pub run_each : List InvariantSpec → List String → Exec W String (List String)
  run_each [] failures = pure failures
  run_each (spec ∷ specs) failures = do
    is_green ← run_invariant spec
    run_each specs (push_failure is_green spec.name failures)

  unfoldable pub run_invariants : List InvariantSpec → Exec W String InvariantOutcome
  run_invariants specs = do
    failures ← run_each specs []
    pure (record { checked = length specs; passed = is_empty failures; failures = failures })
