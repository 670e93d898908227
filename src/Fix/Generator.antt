-- ===== src/Fix/Generator.antt =====
-- src/fix/generator.rs: where candidates come from. The bridge is an external program: its run,
-- with a deadline, is an argument, and so is serde_json.
pub mod Targeted
use navin_engine.Prelude.{
  ℕ, String, Bool, Option, none, some, List, [], ◌∷◌, filter, str_eq, if◌then◌else◌, not, Result,
  ok, err, Exec, pure, raise, ◌>>=◌,
}
use navin_engine.Prelude.Text.{concat, trim, is_blank}
use navin_engine.System.{System, with_context, engine_version}
use navin_engine.System.Path.{FilePath, display}
use navin_engine.Diagnose.{Finding}
use navin_engine.Fix.Model.{FixCandidate}
use navin_engine.Fix.Engine.{FixGenerator}

pub record FixRequest : Type 0 where
  pub schema : String
  pub engine_version : String
  pub project_root : String
  pub finding : Finding
  pub start_command : Option String

pub record Bridge (W : Type 0) : Type 0 where
  pub to_json : FixRequest → String
  pub of_json : String → Result String (List FixCandidate)
  -- the standard output of the command under `sh -c`, fed with the request; an error if it does
  -- not end in time or with success
  pub run_bridge : String → String → ℕ → Option String → Exec W String String

pub record BridgeGenerator : Type 0 where
  pub command : String
  pub timeout : ℕ
  pub preset : Option String
  pub start_command : Option String

-- `filter(|s| !s.trim().is_empty())`
abbrev unless_blank : Option String → Option String
unless_blank none = none
unless_blank (some s) = if is_blank (trim s) then none else some s

unfoldable pub with_preset : BridgeGenerator → Option String → BridgeGenerator
with_preset g preset = record g { preset = unless_blank preset }

unfoldable pub about_app : BridgeGenerator → Option String → BridgeGenerator
about_app g start_command = record g { start_command = unless_blank start_command }

-- Only candidates aimed at the finding.
abbrev is_aimed : Finding → FixCandidate → Bool
is_aimed finding c = str_eq c.target_finding finding.id

abbrev pub aimed_at : Finding → List FixCandidate → List FixCandidate
aimed_at finding candidates = filter (is_aimed finding) candidates

module _ {W : Type 0} where
  unfoldable pub provided : List FixCandidate → FixGenerator W
  unfolding pure
  provided candidates = record {
    name = "provided";
    propose = λ finding. pure (aimed_at finding candidates);
  }

  module _ (bridge : Bridge W) where
    open bridge use {to_json, of_json, run_bridge}

    abbrev parsed_candidates : Result String (List FixCandidate) → Exec W String (List FixCandidate)
    parsed_candidates (ok candidates) = pure candidates
    parsed_candidates (err e) = raise e

    abbrev request_of : BridgeGenerator → FilePath → Finding → FixRequest
    request_of g root finding = record {
      schema = "navin-fix-request/v1";
      engine_version = engine_version;
      project_root = display root;
      finding = finding;
      start_command = g.start_command;
    }

    unfoldable pub propose :
        BridgeGenerator → FilePath → Finding → Exec W String (List FixCandidate)
    propose g root finding = do
      stdout ←
          with_context (concat ("fix bridge `" ∷ g.command ∷ "` failed" ∷ []))
            (run_bridge g.command (to_json (request_of g root finding)) g.timeout g.preset)
      candidates ←
          with_context "bridge output is not a JSON array of fix candidates"
            (parsed_candidates (of_json stdout))
      pure (aimed_at finding candidates)

    abbrev pub bridged : BridgeGenerator → FilePath → FixGenerator W
    bridged g root = record { name = "bridge"; propose = propose g root }
