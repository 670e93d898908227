-- ===== src/Examples/Machine.antt =====
-- Stand-ins for what the engine does not define: a machine on which every operation succeeds and
-- that counts the operations, floats that are natural numbers, and a toy signature scheme.
use navin_engine.Prelude.{
  ℕ, zero, suc, ◌+◌, ◌-◌, ◌*◌, ◌/◌, String, ◌≡◌, refl, Bool, true, false, List, [], ◌∷◌, ltb, leb,
  arith, Result, ok, err, All,
}
use navin_engine.Prelude.Reals.{F64, StrictOrder}
use navin_engine.System.{System, Output}
use navin_engine.Promote.Hex.RoundTrip.{IsByte}
use navin_engine.Promote.Certificate.{Crypto}
use navin_engine.Promote.Certificate.Authentic.{CryptoLaws}

abbrev pub zeros : ℕ → List ℕ
zeros zero = []
zeros (suc n) = 0 ∷ zeros n

abbrev silent : Output
silent = record { success = true; stdout = ""; stderr = ""; is_utf8 = true }

abbrev pub machine : System ℕ
machine = record {
  run_git = λ dir args w. (ok silent, suc w);
  git_apply = λ dir diff w. (ok silent, suc w);
  run_command = λ cmd dir log deadline w. (ok 0, suc w);
  exists = λ p w. true;
  is_file = λ p w. false;
  is_dir = λ p w. true;
  create_dir_all = λ p w. (ok tt, suc w);
  write = λ p text w. (ok tt, suc w);
  read_to_string = λ p w. (ok "text", w);
  copy = λ p q w. (ok tt, suc w);
  remove_dir_all = λ p w. (ok tt, suc w);
  read_dir = λ p w. (ok [], w);
  set_owner_only = λ p w. (ok tt, suc w);
  random_bytes = λ n w. (ok (zeros n), w);
  epoch_secs = λ w. 7;
}

abbrev pub floats : F64
floats = record {
  Carrier = ℕ;
  lt = ltb;
  le = leb;
  add = ◌+◌;
  sub = ◌-◌;
  mul = ◌*◌;
  div = ◌/◌;
  sqrt = λ a. a;
  abs = λ a. a;
  round = λ a. a;
  ceil = λ a. a;
  to_ℕ = λ a. a;
  of_ℕ = λ n. n;
}

pub order : StrictOrder floats
order = record { lt_irrefl = λ a. ground arith; lt_trans = λ a b c p q. ground arith }

abbrev pub crypto : Crypto
crypto = record {
  SigningKey = Unit;
  from_bytes = λ bs. tt;
  sign_with = λ k m. zeros 64;
  verifying_key = λ k. zeros 32;
  is_key = λ bs. true;
  verifies = λ k m s. true;
  digest = λ inputs. 7;
}

zeros-All : (n : ℕ) → All IsByte (zeros n)
zeros-All zero = tt
zeros-All (suc n) = (ground arith, zeros-All n)

pub laws : CryptoLaws crypto
laws = record {
  key_bytes = λ k. zeros-All 32;
  key_length = λ k. refl;
  key_accepted = λ k. refl;
  signature_bytes = λ k m. zeros-All 64;
  signature_length = λ k m. refl;
  verifies_own = λ k m. refl;
}

abbrev pub is_ok : {A : Type 0} → Result String A → Bool
is_ok (ok a) = true
is_ok (err e) = false

-- The value of a result that is not an error.
abbrev pub value_or : {A : Type 0} → A → Result String A → A
value_or d (ok a) = a
value_or d (err e) = d

value_ok : {A : Type 0} (d : A) (r : Result String A) → is_ok r ≡ true → r ≡ ok (value_or d r)
value_ok d (ok a) h = refl
value_ok d (err e) h = cc

pub succeeded :
    {A : Type 0} (d : A) (r : Result String A × ℕ)
    → is_ok r.0 ≡ true
    → r ≡ (ok (value_or d r.0), r.1)
succeeded d (r, w) h = ground (value_ok d r h, arith)
