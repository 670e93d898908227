-- ===== src/Policy.antt =====
-- src/policy/config.rs: the sections of `.navin/evolve.toml` that the engine's decisions read,
-- with their defaults. Parsing the file is the toml crate's work. The cost budget
-- `max_llm_cost_usd`, a float that no code reads, is left out.
use navin_engine.Prelude.{ℕ, String, Bool, true, false, List, [], str_eq}
use navin_engine.Prelude.Patterns.{to_ascii_lowercase}

pub record AllowedFamilies : Type 0 where
  pub performance : Bool
  pub memory : Bool
  pub database : Bool
  pub reliability : Bool
  pub concurrency : Bool
  pub security : Bool
  pub dependencies : Bool

unfoldable pub default_families : AllowedFamilies
default_families = record {
  performance = true;
  memory = true;
  database = true;
  reliability = true;
  concurrency = false;
  security = false;
  dependencies = false;
}

pub record PromotionSection : Type 0 where
  pub auto_merge : Bool

pub record ResourceLimits : Type 0 where
  pub max_cpu_percent : ℕ  -- u8
  pub max_memory_mb : ℕ  -- u64
  pub max_disk_mb : ℕ  -- u64
  pub max_runtime_minutes : ℕ  -- u64

pub record BudgetSection : Type 0 where
  pub max_candidates : ℕ  -- u32
  pub max_runtime_minutes : ℕ  -- u64

pub record GeneratorSection : Type 0 where
  pub command : String
  pub timeout_secs : ℕ  -- u64

pub record EvolveSection : Type 0 where
  pub enabled : Bool
  pub mode : String
  pub allowed : AllowedFamilies
  pub promotion : PromotionSection
  pub resources : ResourceLimits
  pub budget : BudgetSection
  pub generator : GeneratorSection

unfoldable pub default_evolve : EvolveSection
unfolding default_families
default_evolve = record {
  enabled = true;
  mode = "safe";
  allowed = default_families;
  promotion = record { auto_merge = false };
  resources = record {
    max_cpu_percent = 15;
    max_memory_mb = 512;
    max_disk_mb = 4096;
    max_runtime_minutes = 30;
  };
  budget = record { max_candidates = 100; max_runtime_minutes = 30 };
  generator = record { command = ""; timeout_secs = 120 };
}

pub record InvariantSpec : Type 0 where
  pub name : String
  pub command : String
  pub timeout_secs : ℕ  -- u64

pub record SignatureSpec : Type 0 where
  pub marker : String
  pub id : String
  pub family : String
  pub cause : String

pub record ProofSection : Type 0 where
  pub enabled : Bool
  pub profile : String

-- How to reach and exercise the application under test.
pub record TargetSection : Type 0 where
  pub kind : String
  pub probe_paths : List String
  pub probe_headers : List (String × String)  -- a map, in the order of its keys
  pub probe_method : String
  pub probe_body : String
  pub health_cmd : String
  pub exercise_cmd : String

unfoldable pub default_target : TargetSection
default_target = record {
  kind = "http";
  probe_paths = [];
  probe_headers = [];
  probe_method = "";
  probe_body = "";
  health_cmd = "";
  exercise_cmd = "";
}

-- `eq_ignore_ascii_case("worker")`
unfoldable pub is_worker : TargetSection → Bool
is_worker target = str_eq (to_ascii_lowercase target.kind) "worker"

pub record EvolveConfig : Type 0 where
  pub proof : ProofSection
  pub evolve : EvolveSection
  pub target : TargetSection
  pub invariants : List InvariantSpec
  pub signatures : List SignatureSpec

unfoldable pub default_config : EvolveConfig
unfolding default_evolve default_target
default_config = record {
  proof = record { enabled = true; profile = "standard" };
  evolve = default_evolve;
  target = default_target;
  invariants = [];
  signatures = [];
}
