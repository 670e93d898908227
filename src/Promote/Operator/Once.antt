-- ===== src/Promote/Operator/Once.antt =====
-- src/promote/engine.rs, `merge` and `rollback`: what an operator may do, and only once.
use navin_engine.Prelude.{
  String, ◌≡◌, refl, ap, Bool, true, false, not, Option, none, some, ok, err, Exec, pure, raise,
  ◌>>=◌, ◌>>◌, arith, Returns, Returns-bind, Returns-bind-of, Leaves, Leaves-bind, Leaves-raise,
  returns_rules, >>=-eq-ok,
}
use navin_engine.Promote.Operator.Stored.{Store, OnDisk, finish-OnDisk}
use navin_engine.System.{System, ensure, gets, now_epoch}
use navin_engine.System.Path.{FilePath}
use navin_engine.Promote.Certificate.{Certificate, Crypto, is_authentic}
use navin_engine.Promote.Record.{
  PromotionOutcome, blocked, branch_only, merged, PromotionRecord, Codec, load,
}
use navin_engine.Promote.Engine.{finish}
use navin_engine.Promote.Operator.{
  is_some, is_branch_only, merged_record, merge_authentic, merge_certified, merge_branch,
  merge_loaded, merge, undo, rollback_loaded, rollback,
}
use navin_engine.Promote.Operator.Undone.{Undone, undo-Undone}

-- What a one-click merge rests on: the record `old` that was on disk, and the record `r` after it.
pub record Ready (crypto : Crypto) (old r : PromotionRecord) : Type 0 where
  pub standing : is_some old.rolled_back_at ≡ false
  pub unmerged : old.merged ≡ false
  pub prepared : old.outcome ≡ branch_only
  pub on_branch : is_some old.branch ≡ true
  pub held : Certificate
  pub holds : old.certificate ≡ some held
  pub authentic : is_authentic crypto held ≡ some true
  pub result : r ≡ merged_record old

-- The record `r` is `old`, undone and rolled back at some time.
pub record RolledBack {W : Type 0} (sys : System W) (root : FilePath) (id : String)
    (old r : PromotionRecord) : Type 0 where
  pub undone : Undone sys root id old old.outcome
  pub standing : is_some old.rolled_back_at ≡ false
  pub time : String
  pub result : r ≡ record old { rolled_back_at = some time }

-- The code failed with a message.
abbrev pub Fails : {W A : Type 0} → Exec W String A → W → Type 0
Fails m w = (e : String) × ((m w).0 ≡ err e)

branch_only_of : (o : PromotionOutcome) → is_branch_only o ≡ true → o ≡ branch_only
branch_only_of branch_only h = refl
branch_only_of blocked h = cc
branch_only_of merged h = cc

module _ {W : Type 0} {A : Type 0} {Q : A → Type 0} where
  raise-bind-Returns : (e : String) (n : Exec W String A) → Returns Q (raise {A = Unit} e >> n)
  unfolding raise
  raise-bind-Returns e n = record {
    at = λ w w' a h. let (u, p, q) = >>=-eq-ok (raise {A = Unit} e) (λ _. n) w h in cc;
  }

  ensure-bind-Returns :
      (b : Bool) (e : String) (n : Exec W String A)
      → (b ≡ true → Returns Q n)
      → Returns Q (ensure b e >> n)
  unfolding ensure
  ensure-bind-Returns true e n rn = Returns-bind (pure tt) (λ _. n) (λ _. rn refl)
  ensure-bind-Returns false e n rn = raise-bind-Returns e n

module _ {W : Type 0} {A : Type 0} where
  ensure-bind-Fails :
      (b : Bool) (e : String) (n : Exec W String A) (w : W) → b ≡ false → Fails (ensure b e >> n) w
  unfolding ensure raise ◌>>=◌
  ensure-bind-Fails true e n w h = cc
  ensure-bind-Fails false e n w h = (e, refl)

  ensure-bind-next :
      (b : Bool) (e : String) (n : Exec W String A) (w : W) → Fails n w → Fails (ensure b e >> n) w
  unfolding ensure pure raise ◌>>=◌
  ensure-bind-next true e n w h = h
  ensure-bind-next false e n w h = (e, refl)

bind-Fails :
    {W A B : Type 0} (m : Exec W String A) (f : A → Exec W String B) (w : W) (a : A)
    → (m w).0 ≡ ok a
    → ((v : W) → Fails (f a) v)
    → Fails (m >>= f) w
unfolding ◌>>=◌
bind-Fails m f w a h fails = rw h (fails (m w).1)

module _ {W : Type 0} (sys : System W) (codec : Codec) (crypto : Crypto) (root : FilePath)
    (id : String) where
  module _ {Q : PromotionRecord → Type 0} (r : PromotionRecord) (branch : String) where
    finish-Returns : Q (merged_record r) → Returns Q (finish sys codec root (merged_record r))
    unfolding finish
    finish-Returns q = search (returns_rules, q)

    merge_authentic-Returns :
        (authentic : Option Bool)
        → (authentic ≡ some true → Q (merged_record r))
        → Returns Q (merge_authentic sys codec root id r branch authentic)
    merge_authentic-Returns none q = search returns_rules
    merge_authentic-Returns (some false) q = search returns_rules
    merge_authentic-Returns (some true) q =
        let merged_fine = finish-Returns (q refl) in search (returns_rules, merged_fine) depth 12

    merge_certified-Returns :
        (cert : Option Certificate)
        → ((c : Certificate)
            → cert ≡ some c
            → is_authentic crypto c ≡ some true
            → Q (merged_record r))
        → Returns Q (merge_certified sys codec crypto root id r branch cert)
    merge_certified-Returns none q = search returns_rules
    merge_certified-Returns (some c) q = merge_authentic-Returns (is_authentic crypto c) (q c refl)

  merge_branch-Returns :
      (old : PromotionRecord) (branch : Option String)
      → old.branch ≡ branch
      → is_some old.rolled_back_at ≡ false
      → old.merged ≡ false
      → old.outcome ≡ branch_only
      → Returns (Ready crypto old) (merge_branch sys codec crypto root id old branch)
  merge_branch-Returns old none e s u p = search returns_rules
  merge_branch-Returns old (some branch) e s u p =
      merge_certified-Returns old branch old.certificate (λ c held authentic. record {
        standing = s;
        unmerged = u;
        prepared = p;
        on_branch = ground (arith, e);
        held = c;
        holds = held;
        authentic = authentic;
        result = refl;
      })

  merge_loaded-Ready :
      (old : PromotionRecord)
      → Returns (Ready crypto old) (merge_loaded sys codec crypto root id old)
  unfolding merge_loaded
  merge_loaded-Ready old = ensure-bind-Returns (not (is_some old.rolled_back_at)) _ _ (λ s.
      ensure-bind-Returns (not old.merged) _ _ (λ u.
        ensure-bind-Returns (is_branch_only old.outcome) _ _ (λ p.
          merge_branch-Returns old old.branch refl (ground arith) (ground arith)
            (branch_only_of old.outcome p))))

  merged_stays :
      (r : PromotionRecord)
      → r.merged ≡ true
      → (w : W) → Fails (merge_loaded sys codec crypto root id r) w
  unfolding merge_loaded
  merged_stays r h w =
      ensure-bind-next (not (is_some r.rolled_back_at)) _ _ w
        (ensure-bind-Fails (not r.merged) _ _ w (ground arith))

  module _ (store : Store sys codec root id) where
    merge_authentic-OnDisk :
        (r : PromotionRecord) (branch : String) (authentic : Option Bool)
        → Leaves
            (OnDisk sys codec root id store)
            (merge_authentic sys codec root id r branch authentic)
    merge_authentic-OnDisk r branch none = Leaves-raise _
    merge_authentic-OnDisk r branch (some false) = Leaves-raise _
    merge_authentic-OnDisk r branch (some true) = Leaves-bind _ _ (λ repo. Leaves-bind _ _ (λ _.
        Leaves-bind _ _ (λ clean.
          Leaves-bind _ _
            (λ _. Leaves-bind _ _ (λ _. finish-OnDisk sys codec root id store (merged_record r))))))

    merge_certified-OnDisk :
        (r : PromotionRecord) (branch : String) (cert : Option Certificate)
        → Leaves
            (OnDisk sys codec root id store)
            (merge_certified sys codec crypto root id r branch cert)
    merge_certified-OnDisk r branch none = Leaves-raise _
    merge_certified-OnDisk r branch (some c) =
        merge_authentic-OnDisk r branch (is_authentic crypto c)

    merge_branch-OnDisk :
        (r : PromotionRecord) (branch : Option String)
        → Leaves (OnDisk sys codec root id store) (merge_branch sys codec crypto root id r branch)
    merge_branch-OnDisk r none = Leaves-raise _
    merge_branch-OnDisk r (some branch) = merge_certified-OnDisk r branch r.certificate

    merge_loaded-OnDisk :
        (r : PromotionRecord)
        → Leaves (OnDisk sys codec root id store) (merge_loaded sys codec crypto root id r)
    unfolding merge_loaded
    merge_loaded-OnDisk r =
        Leaves-bind _ _
          (λ _. Leaves-bind _ _ (λ _. Leaves-bind _ _ (λ _. merge_branch-OnDisk r r.branch)))

    rollback_loaded-OnDisk :
        (r : PromotionRecord)
        → Leaves (OnDisk sys codec root id store) (rollback_loaded sys codec root id r)
    unfolding rollback_loaded
    rollback_loaded-OnDisk r = Leaves-bind _ _ (λ _. Leaves-bind _ _ (λ _.
        Leaves-bind _ _
          (λ now. finish-OnDisk sys codec root id store (record r { rolled_back_at = some now }))))

  -- A one-click merge that succeeds found a record on disk that was not rolled back, not merged,
  -- at its branch, and whose certificate is authentic; what it returns is that record, merged.
  -- That record is then on disk, and the merge that follows fails. The record is taken to go by
  -- this id, serde_json to read back what it wrote of it, and the file to hold what was written
  -- to it last.
  pub merge-Ready :
      Store sys codec root id
      → (w w' : W) (r : PromotionRecord) → merge sys codec crypto root id w ≡ (ok r, w')
      → r.id ≡ id
      → codec.of_json (codec.to_json r) ≡ ok r
      → (old : PromotionRecord) × ((load sys codec root id w).0 ≡ ok old)
        × Ready crypto old r
        × ((load sys codec root id w').0 ≡ ok r)
        × Fails (merge sys codec crypto root id) w'
  unfolding merge
  merge-Ready store w w' r h own back =
      let (old, loaded, rest) =
        >>=-eq-ok (load sys codec root id) (merge_loaded sys codec crypto root id) w h in
      let v = (load sys codec root id w).1 in
      let ready = (merge_loaded-Ready old).at v w' r rest in
      let there = (merge_loaded-OnDisk store old).at v w' r rest own back in
      let stays = merged_stays r (ap (λ (x : PromotionRecord). x.merged) ready.result) in
      (
        old,
        loaded,
        ready,
        there,
        bind-Fails (load sys codec root id) (merge_loaded sys codec crypto root id) w' r there
            stays,
      )

  finish-RolledBack :
      (old : PromotionRecord) (now : String)
      → Undone sys root id old old.outcome
      → is_some old.rolled_back_at ≡ false
      → Returns
          (RolledBack sys root id old)
          (finish sys codec root (record old { rolled_back_at = some now }))
  unfolding finish
  finish-RolledBack old now u s =
      let q : RolledBack sys root id old (record old { rolled_back_at = some now }) = record {
        undone = u;
        standing = s;
        time = now;
        result = refl;
      } in
      search (returns_rules, q)

  unmergeable :
      (r : PromotionRecord)
      → is_some r.rolled_back_at ≡ true
      → (w : W) → Fails (merge_loaded sys codec crypto root id r) w
  unfolding merge_loaded
  unmergeable r h w = ensure-bind-Fails (not (is_some r.rolled_back_at)) _ _ w (ground arith)

  not_twice :
      (r : PromotionRecord)
      → is_some r.rolled_back_at ≡ true
      → (w : W) → Fails (rollback_loaded sys codec root id r) w
  unfolding rollback_loaded
  not_twice r h w = ensure-bind-Fails (not (is_some r.rolled_back_at)) _ _ w (ground arith)

  rollback_loaded-RolledBack :
      (old : PromotionRecord)
      → Returns (RolledBack sys root id old) (rollback_loaded sys codec root id old)
  unfolding rollback_loaded
  rollback_loaded-RolledBack old = ensure-bind-Returns (not (is_some old.rolled_back_at)) _ _ (λ s.
      Returns-bind-of (λ _. Undone sys root id old old.outcome)
        (undo sys codec root id old old.outcome) _ (undo-Undone sys codec root id old old.outcome)
        (λ _ u.
          Returns-bind (gets (now_epoch sys)) _
            (λ now. finish-RolledBack old now u (ground arith))))

  -- A rollback that succeeds found a record on disk that was not rolled back, undid it according
  -- to its outcome, and returns it with the time of the rollback and nothing else changed. That
  -- record is then on disk, and it can neither be merged nor rolled back again. The record is taken
  -- to go by this id, serde_json to read back what it wrote of it, and the file to hold what was
  -- written to it last.
  pub rollback-RolledBack :
      Store sys codec root id
      → (w w' : W) (r : PromotionRecord) → rollback sys codec root id w ≡ (ok r, w')
      → r.id ≡ id
      → codec.of_json (codec.to_json r) ≡ ok r
      → (old : PromotionRecord) × ((load sys codec root id w).0 ≡ ok old)
        × RolledBack sys root id old r
        × ((load sys codec root id w').0 ≡ ok r)
        × Fails (merge sys codec crypto root id) w'
        × Fails (rollback sys codec root id) w'
  unfolding merge rollback
  rollback-RolledBack store w w' r h own back =
      let (old, loaded, rest) =
        >>=-eq-ok (load sys codec root id) (rollback_loaded sys codec root id) w h in
      let v = (load sys codec root id w).1 in
      let undid = (rollback_loaded-RolledBack old).at v w' r rest in
      let gone = ap (λ (x : PromotionRecord). is_some x.rolled_back_at) undid.result in
      let there = (rollback_loaded-OnDisk store old).at v w' r rest own back in
      (
        old,
        loaded,
        undid,
        there,
        bind-Fails (load sys codec root id) (merge_loaded sys codec crypto root id) w' r there
            (unmergeable r gone),
        bind-Fails (load sys codec root id) (rollback_loaded sys codec root id) w' r there
            (not_twice r gone),
      )
