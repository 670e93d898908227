-- ===== src/Fix/Prove/ReadBack.antt =====
-- src/fix/engine.rs: the P95 that the load fault measured is the one that the gate compares.
use text.Mathlib.TextLemmas.{nil-append, cons-append, append_assoc}
use Prim.Native.Char.{Char, code}
use Prim.Native.String as Str
use Prim.Native.String.{String, char_at}
use navin_engine.Prelude.{
  ℕ, zero, suc, ◌/◌, ◌%◌, ◌≡◌, ◌≢◌, refl, sym, ap, ◌∙◌, arith, Bool, true, false, ◌&&◌, ◌||◌, not,
  Option, none, some, List, [], ◌∷◌, All, find, Result, ok, err, Exec, pure, ◌>>=◌, ltb, leb, ◌==◌,
  if◌then◌else◌, Formats,
}
use navin_engine.Prelude.Text.{concat, join, show, decimal, digit, trim_start, is_whitespace}
use navin_engine.Prelude.Patterns.{strip_prefix, split_once, or_further, take_while}
use navin_engine.Prelude.Reals.{F64}
use navin_engine.Diagnose.Symptoms.{is_number_char, number_after, parse_metric}
use navin_engine.Optimize.Model.{LatencyStats}
use navin_engine.Policy.{EvolveConfig}
use navin_engine.System.{System, gets, always}
use navin_engine.System.Path.{FilePath}
use navin_engine.Shadow.{Materials}
use navin_engine.Proof.{FaultOutcome, ProofReport, with_evidence, new_fault}
use navin_engine.Proof.Service.{Service}
use navin_engine.Proof.Faults.{load_evidence, run_load}
use navin_engine.Fix.Prove.{is_load, load_p95}
use navin_engine.Runner.{Wire, Lab}

abbrev pub all_chars : (Char → Bool) → String → Bool
all_chars p Str.[] = true
all_chars p (Str.◌∷◌ c s) = p c && all_chars p s

-- What evidence is made of: no capital letter, nothing beyond ASCII.
abbrev pub is_plain : Char → Bool
is_plain c =
    is_number_char c || leb b'a' (code c) && leb (code c) b'z' || code c == 32 || code c == b','

-- A finite number without a sign prints as digits and a point, with no exponent, and is read back
-- as it was; and text in lower-case ASCII is in lower case as it is. Nothing is asked of other
-- numbers: NaN, an infinity and what has a sign print as they do.
pub record PlainNumbers {F : Type 0} (formats : Formats F) (is_unsigned : F → Bool) : Type 0 where
  pub is_there : (x : F) → is_unsigned x ≡ true → formats.show_real x ≢ ""
  pub is_numeric :
      (x : F) → is_unsigned x ≡ true → all_chars is_number_char (formats.show_real x) ≡ true
  pub reads_back :
      (x : F) → is_unsigned x ≡ true → formats.parse_real (formats.show_real x) ≡ some x
  pub stays : (s : String) → all_chars is_plain s ≡ true → formats.to_lowercase s ≡ s

abbrev space : Char
space = char_at " " 0

all_chars-append :
    (p : Char → Bool) (s t : String) → all_chars p (Str.◌++◌ s t) ≡ (all_chars p s && all_chars p t)
all_chars-append p Str.[] t = ap (all_chars p) (nil-append t)
all_chars-append p (Str.◌∷◌ c s) t =
    ap (all_chars p) (cons-append c s t) ∙ ground (arith, all_chars-append p s t)

number-plain : (s : String) → all_chars is_number_char s ≡ true → all_chars is_plain s ≡ true
number-plain Str.[] h = refl
number-plain (Str.◌∷◌ c s) h = ground (arith, number-plain s (ground (arith, h)), h)

digit-numeric : (n : ℕ) → all_chars is_number_char (digit n) ≡ true
digit-numeric zero = refl
digit-numeric (suc zero) = refl
digit-numeric (suc (suc zero)) = refl
digit-numeric (suc (suc (suc zero))) = refl
digit-numeric (suc (suc (suc (suc zero)))) = refl
digit-numeric (suc (suc (suc (suc (suc zero))))) = refl
digit-numeric (suc (suc (suc (suc (suc (suc zero)))))) = refl
digit-numeric (suc (suc (suc (suc (suc (suc (suc zero))))))) = refl
digit-numeric (suc (suc (suc (suc (suc (suc (suc (suc zero)))))))) = refl
digit-numeric (suc (suc (suc (suc (suc (suc (suc (suc (suc n))))))))) = refl

either-numeric :
    (b : Bool) (s t : String)
    → all_chars is_number_char s ≡ true
    → all_chars is_number_char t ≡ true
    → all_chars is_number_char (if b then s else t) ≡ true
either-numeric true s t h k = h
either-numeric false s t h k = k

decimal-numeric : (fuel n : ℕ) → all_chars is_number_char (decimal fuel n) ≡ true
unfolding decimal
decimal-numeric zero n = refl
decimal-numeric (suc fuel) n = either-numeric (ltb n 10) _ _ (digit-numeric n) (
    ground (
      arith,
      all_chars-append is_number_char (decimal fuel (n / 10)) (digit (n % 10)),
      decimal-numeric fuel (n / 10),
      digit-numeric (n % 10),
    ))

show-numeric : (n : ℕ) → all_chars is_number_char (show n) ≡ true
unfolding show
show-numeric n = decimal-numeric 20 n

abbrev Plain : String → Type 0
Plain s = all_chars is_plain s ≡ true

concat-Plain : (ss : List String) → All Plain ss → Plain (concat ss)
concat-Plain [] h = refl
concat-Plain (s ∷ ss) h =
    ground (arith, all_chars-append is_plain s (concat ss), h.0, concat-Plain ss h.1)

-- No character that begins the key.
abbrev no_key : Char → Bool
no_key c = not (code c == b'p')

number-no_key : (s : String) → all_chars is_number_char s ≡ true → all_chars no_key s ≡ true
number-no_key Str.[] h = refl
number-no_key (Str.◌∷◌ c s) h = ground (arith, number-no_key s (ground (arith, h)), h)

module _ (fl : F64) (formats : Formats fl.Carrier) where
  skip-next :
      (c : Char) (o : Option (String × String))
      → number_after fl formats (or_further c none o) ≡ number_after fl formats o
  skip-next c none = refl
  skip-next c (some (a, b)) = refl

  step :
      (c : Char) (u : String)
      → (code c == b'p') ≡ false
      → number_after fl formats (split_once "p95" (Str.◌∷◌ c u))
        ≡ number_after fl formats (split_once "p95" u)
  unfolding split_once strip_prefix
  step c u h =
      let e : strip_prefix "p95" (Str.◌∷◌ c u) ≡ none = ground (arith, h) in
      rw e (skip-next c (split_once "p95" u))

  -- The search for the key passes over a text that holds no beginning of it.
  skip :
      (s t : String)
      → all_chars no_key s ≡ true
      → number_after fl formats (split_once "p95" (Str.◌++◌ s t))
        ≡ number_after fl formats (split_once "p95" t)
  skip Str.[] t h = ap (λ u. number_after fl formats (split_once "p95" u)) (nil-append t)
  skip (Str.◌∷◌ c s) t h =
      ap (λ u. number_after fl formats (split_once "p95" u)) (cons-append c s t)
      ∙ step c (Str.◌++◌ s t) (ground (arith, h))
      ∙ skip s t (ground (arith, h))

strip_prefix-append : (p t : String) → strip_prefix p (Str.◌++◌ p t) ≡ some t
unfolding strip_prefix
strip_prefix-append Str.[] t = ap some (nil-append t)
strip_prefix-append (Str.◌∷◌ c p) t =
    rw (cons-append c p t) (ground (arith, strip_prefix-append p t))

stops : (t : String) → take_while is_number_char (Str.◌++◌ " ms, p99 " t) ≡ ""
unfolding take_while
stops t = rw (cons-append space "ms, p99 " t) (refl)

take_number :
    (s t : String)
    → all_chars is_number_char s ≡ true
    → take_while is_number_char t ≡ ""
    → take_while is_number_char (Str.◌++◌ s t) ≡ s
unfolding take_while
take_number Str.[] t h k = ap (take_while is_number_char) (nil-append t) ∙ k
take_number (Str.◌∷◌ c s) t h k =
    ap (take_while is_number_char) (cons-append c s t)
    ∙ ground (arith, take_number s t (ground (arith, h)) k, h)

trim_number :
    (s t : String)
    → s ≢ ""
    → all_chars is_number_char s ≡ true
    → trim_start (Str.◌++◌ s t) ≡ Str.◌++◌ s t
unfolding trim_start is_whitespace
trim_number Str.[] t k h = absurd (k refl)
trim_number (Str.◌∷◌ c s) t k h = rw (cons-append c s t) (ground (arith, h))

trim_blank : (t : String) → trim_start (Str.◌++◌ " " t) ≡ trim_start t
unfolding trim_start is_whitespace
trim_blank t = rw (cons-append space "" t, nil-append t) (refl)

split_once-here : (p s t : String) → strip_prefix p s ≡ some t → split_once p s ≡ some ("", t)
unfolding split_once
split_once-here p Str.[] t h = ground (arith, h)
split_once-here p (Str.◌∷◌ c s) t h = ap (λ o. or_further c o (split_once p s)) h

module _ {W : Type 0} (fl : F64) (wire : Wire W fl.Carrier) (is_unsigned : fl.Carrier → Bool)
    (laws : PlainNumbers wire.formats is_unsigned) where
  open wire.formats use {show_real}

  -- What a load measured can be printed without a sign, and is no NaN or infinity.
  pub record Unsigned (stats : LatencyStats fl.Carrier) : Type 0 where
    pub p95 : is_unsigned stats.p95_ms ≡ true
    pub p99 : is_unsigned stats.p99_ms ≡ true
    pub rate : is_unsigned stats.rps ≡ true

  -- What follows the key in the evidence of a load.
  number_text : fl.Carrier → String → String
  number_text x z = Str.◌++◌ (show_real x) (Str.◌++◌ " ms, p99 " z)

  read_number :
      (x : fl.Carrier) (z : String)
      → is_unsigned x ≡ true
      → number_after fl wire.formats (some ("", Str.◌++◌ " " (number_text x z))) ≡ some x
  unfolding number_text
  read_number x z plain =
      let num = laws.is_numeric x plain in
      ap (λ u. wire.formats.parse_real (take_while is_number_char u))
        (trim_blank (number_text x z)
          ∙ trim_number (show_real x) (Str.◌++◌ " ms, p99 " z) (laws.is_there x plain) num)
      ∙ ap wire.formats.parse_real
          (take_number (show_real x) (Str.◌++◌ " ms, p99 " z) num (stops z))
      ∙ laws.reads_back x plain

  find_number :
      (n : ℕ) (x : fl.Carrier) (z : String)
      → is_unsigned x ≡ true
      → number_after fl wire.formats
          (split_once "p95" (Str.◌++◌ (show n) (Str.◌++◌ " req, p95 " (number_text x z))))
        ≡ some x
  find_number n x z plain =
      skip fl wire.formats (show n) _ (number-no_key (show n) (show-numeric n))
      ∙ ap (λ u. number_after fl wire.formats (split_once "p95" u))
          (append_assoc " req, " "p95 " (number_text x z))
      ∙ skip fl wire.formats " req, " _ refl
      ∙ ap (number_after fl wire.formats) (
          split_once-here "p95" (Str.◌++◌ "p95 " (number_text x z)) (Str.◌++◌ " " (number_text x z))
            (ap (strip_prefix "p95") (append_assoc "p95" " " (number_text x z))
              ∙ strip_prefix-append "p95" (Str.◌++◌ " " (number_text x z))))
      ∙ read_number x z plain

  real-plain : (x : fl.Carrier) → is_unsigned x ≡ true → all_chars is_plain (show_real x) ≡ true
  real-plain x plain = number-plain (show_real x) (laws.is_numeric x plain)

  evidence-plain :
      (stats : LatencyStats fl.Carrier)
      → Unsigned stats
      → all_chars is_plain (load_evidence fl wire stats) ≡ true
  evidence-plain stats u =
      concat-Plain
        (show stats.requests
          ∷ " req, p95 "
          ∷ show_real stats.p95_ms
          ∷ " ms, p99 "
          ∷ show_real stats.p99_ms
          ∷ " ms, "
          ∷ show_real stats.rps
          ∷ " rps"
          ∷ [])
        (
          number-plain (show stats.requests) (show-numeric stats.requests),
          (
            refl,
            (
              real-plain stats.p95_ms u.p95,
              (
                refl,
                (real-plain stats.p99_ms u.p99, (refl, (real-plain stats.rps u.rate, (refl, tt)))),
              ),
            ),
          ),
        )

  parse_metric-load_evidence :
      (stats : LatencyStats fl.Carrier)
      → Unsigned stats
      → parse_metric fl wire.formats (wire.formats.to_lowercase (load_evidence fl wire stats)) "p95"
        ≡ some stats.p95_ms
  unfolding parse_metric number_text
  parse_metric-load_evidence stats u =
      rw (laws.stays (load_evidence fl wire stats) (evidence-plain stats u)) (
        find_number stats.requests stats.p95_ms
          (concat (show_real stats.p99_ms ∷ " ms, " ∷ show_real stats.rps ∷ " rps" ∷ [])) u.p95)

  abbrev evidence_in : Result String (FaultOutcome fl.Carrier) → List String
  evidence_in (ok f) = f.evidence
  evidence_in (err e) = []

  module _ (sys : System W) (load_config : FilePath → Exec W String EvolveConfig)
      (materials : Materials W) where
    -- The P95 that a campaign reads in a report is the very P95 that the probes of its load fault
    -- measured, if what they measured is finite and without a sign: the text of the evidence is put
    -- in lower case, searched and parsed without loss. That such numbers print as digits and a
    -- point and are read back is asked of the formats.
    pub load_p95-run_load :
        (svc : Service) (duration concurrency : ℕ) (max_error_ratio : fl.Carrier) (rss_limit_mb : ℕ)
        (l l' : Lab W) (f : FaultOutcome fl.Carrier) (report : ProofReport fl.Carrier)
        → run_load fl wire svc duration concurrency max_error_ratio rss_limit_mb l ≡ (ok f, l')
        → find (is_load fl sys wire load_config materials) report.faults ≡ some f
        → Unsigned ((wire.probe_specs svc.host svc.port svc.specs duration concurrency l.machine).0)
        → load_p95 fl sys wire load_config materials report
          ≡ some
              (wire.probe_specs svc.host svc.port svc.specs duration concurrency l.machine).0.p95_ms
    unfolding load_p95 run_load join ◌>>=◌ gets always pure with_evidence new_fault
    load_p95-run_load svc duration concurrency max_error_ratio rss_limit_mb l l' f report ran found
          u =
        let stats =
          (wire.probe_specs svc.host svc.port svc.specs duration concurrency l.machine).0 in
        let e : f.evidence ≡ load_evidence fl wire stats ∷ [] =
          sym (ap (λ p. evidence_in p.0) ran) in
        rw (found, e) (parse_metric-load_evidence stats u)
