-- ===== src/Examples/Loads.antt =====
-- A load on a service whose measurements are printed as plain numbers.
use Prim.Native.Char.{Char}
use Prim.Native.String.{char_at}
use Prim.Native.String as Str
use navin_engine.Prelude.{
  ℕ, zero, suc, ◌-◌, ◌≡◌, ◌≢◌, Bool, ltb, refl, ap, String, true, Option, none, some, [], ◌∷◌,
  Result, ok, Formats, find,
}
use navin_engine.System.{System}
use navin_engine.Proof.{pass, ProofReport, FaultOutcome}
use navin_engine.Proof.Service.{Service}
use navin_engine.Proof.Faults.{run_load}
use navin_engine.Fix.Prove.{load_p95, is_load}
use navin_engine.Fix.Prove.ReadBack.{all_chars, PlainNumbers, load_p95-run_load}
use navin_engine.Diagnose.Symptoms.{is_number_char}
use navin_engine.Runner.{Wire, Lab}
use navin_engine.Examples.Machine.{machine, floats, value_or}
use navin_engine.Examples.Runs.{wire, load_config, materials, project, blank_report}

abbrev stroke : Char
stroke = char_at "1" 0

-- Numbers in strokes, which are read back by counting.
abbrev strokes : ℕ → String
strokes zero = Str.◌∷◌ stroke Str.[]
strokes (suc n) = Str.◌∷◌ stroke (strokes n)

abbrev less_one : Option ℕ → Option ℕ
less_one none = none
less_one (some zero) = none
less_one (some (suc n)) = some n

abbrev count_strokes : String → ℕ
count_strokes Str.[] = 0
count_strokes (Str.◌∷◌ c s) = suc (count_strokes s)

abbrev plain_formats : Formats ℕ
plain_formats = record {
  print = λ m. "detail";
  show_real = strokes;
  parse_real = λ s. less_one (some (count_strokes s));
  to_lowercase = λ s. s;
}

count-strokes : (n : ℕ) → count_strokes (strokes n) ≡ suc n
count-strokes zero = refl
count-strokes (suc n) = ap suc (count-strokes n)

strokes-numeric : (n : ℕ) → all_chars is_number_char (strokes n) ≡ true
strokes-numeric zero = refl
strokes-numeric (suc n) = strokes-numeric n

strokes-there : (n : ℕ) → strokes n ≢ ""
strokes-there zero h = cc
strokes-there (suc n) h = cc

abbrev plain_wire : Wire ℕ ℕ
plain_wire = record wire { formats = plain_formats }

-- Of this machine's numbers those below a thousand are vouched for.
abbrev is_small : ℕ → Bool
is_small n = ltb n 1000

plain : PlainNumbers plain_formats is_small
plain = record {
  is_there = λ x small. strokes-there x;
  is_numeric = λ x small. strokes-numeric x;
  reads_back = λ x small. rw (count-strokes x) (refl);
  stays = λ s h. refl;
}

abbrev the_service : Service
the_service = record {
  start_cmd = "serve";
  work_dir = project;
  log_path = project;
  host = "localhost";
  port = 8080;
  specs = [];
  ready_timeout = 5000;
  limits = none;
}

abbrev idle : Lab ℕ
idle = record { machine = 0; process = none }

abbrev no_outcome : FaultOutcome ℕ
no_outcome = record { fault = ""; description = ""; checks = []; verdict = pass; evidence = [] }

abbrev loaded : Result String (FaultOutcome ℕ) × Lab ℕ
loaded = run_load floats plain_wire the_service 5000 16 0 512 idle

abbrev load_outcome : FaultOutcome ℕ
load_outcome = value_or no_outcome loaded.0

abbrev load_report : ProofReport ℕ
load_report = record blank_report { faults = load_outcome ∷ [] }

loaded_ok : loaded ≡ (ok load_outcome, loaded.1)
unfolding run_load navin_engine.Prelude.◌>>=◌ navin_engine.System.gets navin_engine.System.always
    navin_engine.Proof.with_evidence navin_engine.Proof.new_fault
loaded_ok = refl

load_found :
    find (is_load floats machine plain_wire load_config materials) load_report.faults
    ≡ some load_outcome
unfolding run_load navin_engine.Prelude.◌>>=◌ navin_engine.System.gets navin_engine.System.always
    navin_engine.Proof.with_evidence navin_engine.Proof.new_fault
load_found = refl

load_p95-run_load_example :
    load_p95 floats machine plain_wire load_config materials load_report ≡ some 12
load_p95-run_load_example =
    load_p95-run_load floats plain_wire is_small plain machine load_config materials the_service
      5000 16 0 512 idle loaded.1 load_outcome load_report loaded_ok load_found
      (record { p95 = refl; p99 = refl; rate = refl })
