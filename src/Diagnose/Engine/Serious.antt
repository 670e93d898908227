-- ===== src/Diagnose/Engine/Serious.antt =====
-- src/diagnose/: when a diagnosis has a serious finding, one that a campaign would address.
use mathlib.Core.Path.{subst}
use navin_engine.Prelude.{
  sym, String, ◌≡◌, refl, ◌∙◌, ap, arith, Bool, true, false, ◌&&◌, ◌||◌, Option, none, some, List,
  [], ◌∷◌, ◌++◌, map, filter, any, any-append, eq_iff, str_eq, if◌then◌else◌, Formats, Bool-cases,
  inl, inr, leb,
}
use navin_engine.Prelude.Reals.{F64}
use navin_engine.Policy.{SignatureSpec}
use navin_engine.Proof.{Verdict, pass, weak, fail, CheckResult, FaultOutcome, ProofReport}
use navin_engine.Diagnose.{Finding, is_serious, rank, insert, sort, build}
use navin_engine.Diagnose.Symptoms.{
  SymptomKind, crash_after_fault, no_recovery, slow_recovery, high_error_rate, memory_overshoot,
  tail_latency_spike, Symptom, kind_of, symptom_of, of_checks, spike, of_load, of_faults,
  parse_p95_p99,
}
use navin_engine.Diagnose.LogScan.{SignalHit, scan_with}
use navin_engine.Diagnose.Rules.{
  diagnose_symptom, by_kind, crash, never_back, slow_back, error_rate, memory, tail_latency,
}
use navin_engine.Diagnose.Engine.{
  incidental, is_incidental, related_to_all, incidental_findings, findings_of, diagnose_with,
}

-- The checks that a healthy service must pass: it is up, it comes back, it fails few requests, and
-- it stays in its memory. A weak recovery is not counted.
abbrev pub is_broken : String → Verdict → Bool
is_broken name pass = false
is_broken name weak = str_eq name "error_rate" || str_eq name "resource_bound"
is_broken name fail =
    str_eq name "no_crash"
    || str_eq name "recovery"
    || str_eq name "error_rate"
    || str_eq name "resource_bound"

abbrev pub has_broken : {F : Type 0} → FaultOutcome F → Bool
has_broken {F} fault = any (λ (c : CheckResult F). is_broken c.name c.verdict) fault.checks

abbrev pub serious : Finding → Bool
serious f = is_serious f.severity

abbrev is_serious_kind : SymptomKind → Bool
is_serious_kind slow_recovery = false
is_serious_kind tail_latency_spike = false
is_serious_kind _ = true

abbrev serious_symptom : Symptom → Bool
serious_symptom s = is_serious_kind s.kind

any-insert :
    (f : Finding) (fs : List Finding) → any serious (insert f fs) ≡ (serious f || any serious fs)
any-insert f [] = refl
any-insert f (g ∷ gs) = elim (Bool-cases (leb (rank f.severity) (rank g.severity))) [
  | inl h ↦ rw h (refl)
  | inr h ↦ rw (h, any-insert f gs) (swap (serious g) (serious f) (any serious gs))
]
  where
    swap : (a b c : Bool) → (a || (b || c)) ≡ (b || (a || c))
    swap a b c = ground arith

any-sort : (fs : List Finding) → any serious (sort fs) ≡ any serious fs
any-sort [] = refl
any-sort (f ∷ fs) = any-insert f (sort fs) ∙ ap (λ b. serious f || b) (any-sort fs)

by_kind-serious :
    (k : SymptomKind) (s : Symptom) (hits : List SignalHit) (fault : String)
    → serious (by_kind k s hits fault) ≡ is_serious_kind k
unfolding crash never_back slow_back error_rate memory tail_latency
by_kind-serious crash_after_fault s hits fault = refl
by_kind-serious no_recovery s hits fault = refl
by_kind-serious slow_recovery s hits fault = refl
by_kind-serious high_error_rate s hits fault = refl
by_kind-serious memory_overshoot s hits fault = refl
by_kind-serious tail_latency_spike s hits fault = refl

any-diagnose_symptom :
    (hits : List SignalHit) (ss : List Symptom)
    → any serious (map (diagnose_symptom hits) ss) ≡ any serious_symptom ss
any-diagnose_symptom hits [] = refl
any-diagnose_symptom hits (s ∷ ss) =
    rw (by_kind-serious s.kind s hits _, any-diagnose_symptom hits ss) (refl)

any-incidental :
    (related : List String) (hits : List SignalHit)
    → any serious (map incidental (filter (is_incidental related) hits)) ≡ false
any-incidental related [] = refl
any-incidental related (hit ∷ hits) = elim (Bool-cases (is_incidental related hit)) [
  | inl h ↦ rw h (any-incidental related hits)
  | inr h ↦ rw h (any-incidental related hits)
]

is_serious_in : Option SymptomKind → Bool
is_serious_in none = false
is_serious_in (some k) = is_serious_kind k

choose-serious :
    (b : Bool) (k l : Option SymptomKind) (x y : Bool)
    → is_serious_in k ≡ x
    → is_serious_in l ≡ y
    → is_serious_in (if b then k else l) ≡ (if b then x else y)
choose-serious true k l x y p q = p
choose-serious false k l x y p q = q

-- The severity of the arms, one test after the other.
arms-serious :
    (name : String) (k0 k1 k2 k3 : Option SymptomKind)
    → is_serious_in (
        if str_eq name "no_crash"
        then k0
        else if str_eq name "recovery"
        then k1
        else if str_eq name "error_rate"
        then k2
        else if str_eq name "resource_bound"
        then k3
        else none)
      ≡ (if str_eq name "no_crash"
          then is_serious_in k0
          else if str_eq name "recovery"
          then is_serious_in k1
          else if str_eq name "error_rate"
          then is_serious_in k2
          else if str_eq name "resource_bound"
          then is_serious_in k3
          else false)
unfolding is_serious_in
arms-serious name k0 k1 k2 k3 = choose-serious _ k0 _ _ _ refl (
    choose-serious _ k1 _ _ _ refl
      (choose-serious _ k2 _ _ _ refl (choose-serious _ k3 none _ _ refl refl)))

-- The names of the checks differ, so one that a weak verdict excuses is not one that it breaks.
weak-serious :
    (name : String)
    → (if str_eq name "no_crash"
        then false
        else if str_eq name "recovery"
        then false
        else if str_eq name "error_rate"
        then true
        else if str_eq name "resource_bound"
        then true
        else false)
      ≡ is_broken name weak
weak-serious name = elim (Bool-cases (str_eq name "no_crash")) [
  | inl h ↦ named "no_crash" h refl
  | inr h ↦ elim (Bool-cases (str_eq name "recovery")) [
    | inl k ↦ named "recovery" k refl
    | inr k ↦ ground (arith, h, k)
  ]
]
  where
    Weighed : String → Type 0
    Weighed n =
        (if str_eq n "no_crash"
          then false
          else if str_eq n "recovery"
          then false
          else if str_eq n "error_rate"
          then true
          else if str_eq n "resource_bound"
          then true
          else false)
        ≡ is_broken n weak

    named : (literal : String) → str_eq name literal ≡ true → Weighed literal → Weighed name
    named literal h p = subst Weighed (sym ((eq_iff name literal).0 h)) p

kind_of-serious : (name : String) (v : Verdict) → is_serious_in (kind_of name v) ≡ is_broken name v
unfolding is_serious_in
kind_of-serious name pass = arms-serious name none none none none ∙ ground arith
kind_of-serious name weak =
    arms-serious name none (some slow_recovery) (some high_error_rate) (some memory_overshoot)
    ∙ weak-serious name
kind_of-serious name fail =
    arms-serious name (some crash_after_fault) (some no_recovery) (some high_error_rate)
      (some memory_overshoot)
    ∙ ground arith

-- A conditional list whose elements are all harmless.
any-if :
    (b : Bool) (xs : List Symptom)
    → any serious_symptom xs ≡ false
    → any serious_symptom (if b then xs else []) ≡ false
any-if true xs h = h
any-if false xs h = refl

module _ (fl : F64) (formats : Formats fl.Carrier) where
  any-symptom_of :
      (fault : FaultOutcome fl.Carrier) (c : CheckResult fl.Carrier) (k : Option SymptomKind)
      → any serious_symptom (symptom_of fl formats fault c k) ≡ is_serious_in k
  unfolding is_serious_in
  any-symptom_of fault c none = refl
  any-symptom_of fault c (some k) = ground arith

  any-of_checks :
      (fault : FaultOutcome fl.Carrier) (cs : List (CheckResult fl.Carrier))
      → any serious_symptom (of_checks fl formats fault cs)
        ≡ any (λ (c : CheckResult fl.Carrier). is_broken c.name c.verdict) cs
  any-of_checks fault [] = refl
  any-of_checks fault (c ∷ cs) =
      let k = kind_of c.name c.verdict in
      any-append serious_symptom (symptom_of fl formats fault c k) (of_checks fl formats fault cs)
      ∙ rw (any-of_checks fault cs) (
          ap (λ b. b || any (λ (c : CheckResult fl.Carrier). is_broken c.name c.verdict) cs)
            (any-symptom_of fault c k ∙ kind_of-serious c.name c.verdict))

  any-spike :
      (fault : FaultOutcome fl.Carrier) (m : Option (fl.Carrier × fl.Carrier))
      → any serious_symptom (spike fl formats fault m) ≡ false
  any-spike fault none = refl
  any-spike fault (some (a, b)) =
      any-if (fl.le (fl.mul a (fl.of_ℕ 10)) b && fl.le (fl.of_ℕ 250) b)
        (record {
          kind = tail_latency_spike;
          fault = some fault.fault;
          detail = _;
          evidence = fault.evidence;
        }
          ∷ [])
        refl

  any-of_load :
      (fault : FaultOutcome fl.Carrier) → any serious_symptom (of_load fl formats fault) ≡ false
  any-of_load fault =
      any-if (str_eq fault.fault "load") _
        (any-spike fault (parse_p95_p99 fl formats fault.evidence))

  any-of_faults :
      (faults : List (FaultOutcome fl.Carrier))
      → any serious_symptom (of_faults fl formats faults) ≡ any has_broken faults
  any-of_faults [] = refl
  any-of_faults (fault ∷ faults) =
      let checks = of_checks fl formats fault fault.checks in
      let slow = of_load fl formats fault in
      let rest = of_faults fl formats faults in
      ground (
        arith,
        any-append serious_symptom (checks ++ slow) rest,
        any-append serious_symptom checks slow,
        any-of_checks fault fault.checks,
        any-of_load fault,
        any-of_faults faults,
      )

  -- A diagnosis has a serious finding exactly if some fault broke a check: the service was down
  -- after it, did not come back, failed too many requests or outgrew its memory. The log, slow
  -- recoveries and latency spikes never add one.
  pub diagnose-serious :
      (now log_text : String) (report : ProofReport fl.Carrier) (custom : List SignatureSpec)
      → any serious (diagnose_with fl formats now report log_text custom).findings
        ≡ any has_broken report.faults
  unfolding diagnose_with build
  diagnose-serious now log_text report custom =
      let symptoms = of_faults fl formats report.faults in
      let hits = scan_with formats.to_lowercase log_text custom in
      any-sort (findings_of symptoms hits)
      ∙ any-append serious (map (diagnose_symptom hits) symptoms)
          (incidental_findings symptoms hits)
      ∙ ground (
        arith,
        any-diagnose_symptom hits symptoms,
        any-of_faults report.faults,
        any-incidental (related_to_all symptoms) hits,
      )
