-- ===== src/Fix/Patch/Confined.antt =====
-- Where a candidate's file edits can write.
use mathlib.Core.Path.{subst}
use mathlib.Core.List.{append-nil, append_assoc}
use navin_engine.Prelude.{
  String, ◌≡◌, refl, ◌∙◌, List, [], ◌∷◌, ◌++◌, Option, none, some, Result, ok, err, All, arith,
  Exec, raise, continue, ◌>>=◌, str_eq, eq_iff, not, ◌&&◌, ◌||◌, Bool, true, false, if◌then◌else◌,
  ◌⊎◌, inl, inr, ap,
}
use navin_engine.System.{System, with_context}
use navin_engine.System.Path.{
  FilePath, Component, root_dir, cur_dir, parent_dir, normal, components, parent,
}
use navin_engine.System.Path.Names.{IsName, IsSafe, has_slash, components-All}
use navin_engine.Fix.Model.{FileEdit, files}
use navin_engine.Fix.Patch.{
  push_components, safe_join, apply, apply_edits, write_edit, create_parent, apply_file_edit,
}

-- `p` lies under `base`: it goes on from it by single names.
abbrev pub Under : FilePath → FilePath → Type 0
Under base p = (names : List String) × (p ≡ base ++ names) × All IsName names

push_components-Under :
    (base : FilePath) (rel : String) (cs : List Component) {p : FilePath}
    → All IsSafe cs
    → push_components base rel cs ≡ ok p
    → Under base p
unfolding push_components
push_components-Under base rel [] safe h = ([], cc (append-nil base), tt)
push_components-Under base rel (normal part ∷ cs) safe h =
    let (names, e, all) = push_components-Under (base ++ part ∷ []) rel cs safe.1 h in
    (part ∷ names, e ∙ append_assoc base (part ∷ []) names, (safe.0, all))
push_components-Under base rel (root_dir ∷ cs) safe h = cc
push_components-Under base rel (cur_dir ∷ cs) safe h = cc
push_components-Under base rel (parent_dir ∷ cs) safe h = cc

-- Whatever the text of the path, a path that `safe_join` accepts lies under the base: it extends
-- the base by names that are neither empty nor `.` nor `..` and hold no slash.
pub safe_join-Under :
    (base : FilePath) (rel : String) (p : FilePath) → safe_join base rel ≡ ok p → Under base p
unfolding safe_join
safe_join-Under base rel p h =
    push_components-Under base rel (components rel) (components-All rel) (ground arith)

-- A path without its last name.
abbrev init : String → List String → List String
init n [] = []
init n (m ∷ ns) = n ∷ init m ns

init-All : (n : String) (ns : List String) → All IsName (n ∷ ns) → All IsName (init n ns)
init-All n [] a = tt
init-All n (m ∷ ns) a = (a.0, init-All m ns a.1)

parent-append :
    (base : FilePath) (n : String) (ns : List String)
    → parent (base ++ n ∷ ns) ≡ some (base ++ init n ns)
unfolding parent
parent-append [] n [] = refl
parent-append [] n (m ∷ ns) = rw (parent-append [] m ns)
parent-append (b ∷ []) n ns = rw (parent-append [] n ns)
parent-append (b ∷ c ∷ base) n ns = rw (parent-append (c ∷ base) n ns)

abbrev is_name : String → Bool
is_name s = not (str_eq s "") && not (str_eq s ".") && not (str_eq s "..") && not (has_slash s)

-- The test of being under a base.
abbrev is_under : FilePath → FilePath → Bool
is_under [] [] = true
is_under [] (n ∷ ns) = let rest = is_under [] ns in is_name n && rest
is_under (b ∷ bs) [] = false
is_under (b ∷ bs) (n ∷ ns) = let rest = is_under bs ns in str_eq b n && rest

abbrev same_path : FilePath → FilePath → Bool
same_path [] [] = true
same_path [] (n ∷ ns) = false
same_path (b ∷ bs) [] = false
same_path (b ∷ bs) (n ∷ ns) = let rest = same_path bs ns in str_eq b n && rest

abbrev is_parent : Option FilePath → FilePath → Bool
is_parent none d = false
is_parent (some p) d = same_path p d

same_path_refl : (p : FilePath) → same_path p p ≡ true
same_path_refl [] = refl
same_path_refl (n ∷ ns) = ground (arith, eq_iff n n, same_path_refl ns)

is_under-append :
    (base names : List String) → All IsName names → is_under base (base ++ names) ≡ true
is_under-append [] [] all = refl
is_under-append [] (n ∷ ns) all =
    let rest = is_under-append [] ns all.1 in
    ground (arith, rest, all.0.not_empty, all.0.not_dot, all.0.not_dots, all.0.no_slash)
is_under-append (b ∷ bs) ns all = ground (arith, eq_iff b b, is_under-append bs ns all)

is_under-Under : (base p : FilePath) → Under base p → is_under base p ≡ true
is_under-Under base p (names, e, all) = rw e (is_under-append base names all)

is_parent-here : (o : Option FilePath) (d : FilePath) → o ≡ some d → is_parent o d ≡ true
is_parent-here none d e = cc
is_parent-here (some p) d e =
    let q : p ≡ d = ground (arith, e) in subst (λ x. same_path p x ≡ true) q (same_path_refl p)

or_right : (b c : Bool) → c ≡ true → (b || c) ≡ true
or_right b c h = ground (arith, h)

-- The machine behind a wall: it refuses every operation but writing a file whose path lies under
-- `base`, and making a directory whose path lies there or is that of the parent of `base`.
abbrev pub walled : {W : Type 0} → System W → FilePath → System W
walled sys base = record {
  run_git = λ dir args. raise "refused";
  git_apply = λ dir diff. raise "refused";
  run_command = λ cmd dir log deadline. raise "refused";
  exists = λ p w. false;
  is_file = λ p w. false;
  is_dir = λ p w. false;
  create_dir_all = λ d.
      if is_under base d || is_parent (parent base) d
      then sys.create_dir_all d
      else raise "refused";
  write = λ p text. if is_under base p then sys.write p text else raise "refused";
  read_to_string = λ p. raise "refused";
  copy = λ p q. raise "refused";
  remove_dir_all = λ p. raise "refused";
  read_dir = λ p. raise "refused";
  set_owner_only = λ p. raise "refused";
  random_bytes = λ n. raise "refused";
  epoch_secs = λ w. 0;
}

-- The directory that a path under `base` stands in is under `base` or is that of `base`.
parent-Under :
    (base p d : FilePath) → Under base p → parent p ≡ some d → Under base d ⊎ (parent base ≡ some d)
parent-Under base p d ([], e, all) h = inr (rw (e ∙ append-nil base) at h)
parent-Under base p d (n ∷ ns, e, all) h =
    inl (init n ns, cc (parent-append base n ns, ap parent e), init-All n ns all)

module _ {W A B : Type 0} where
  continue-same :
      (r : Result String A) (f g : A → Exec W String B)
      → ((a : A) (w : W) → f a w ≡ g a w)
      → (w : W) → continue r f w ≡ continue r g w
  continue-same (ok a) f g e w = e a w
  continue-same (err x) f g e w = refl

  -- Two chains whose steps do the same.
  bind-same :
      (m n : Exec W String A) (f g : A → Exec W String B)
      → ((w : W) → m w ≡ n w)
      → ((a : A) (w : W) → f a w ≡ g a w)
      → (w : W) → (m >>= f) w ≡ (n >>= g) w
  unfolding ◌>>=◌
  bind-same m n f g h e w = rw (h w) (continue-same (n w).0 f g e (n w).1)

module _ {W : Type 0} (sys : System W) (base : FilePath) where
  write-walled :
      (p : FilePath) (text : String)
      → Under base p
      → (w : W) → (walled sys base).write p text w ≡ sys.write p text w
  write-walled p text u w = rw (is_under-Under base p u) refl

  create_parent-walled :
      (o : Option FilePath)
      → ((d : FilePath) → o ≡ some d → Under base d ⊎ (parent base ≡ some d))
      → (w : W) → create_parent (walled sys base) o w ≡ create_parent sys o w
  unfolding create_parent with_context
  create_parent-walled none place w = refl
  create_parent-walled (some d) place w = elim (place d refl) [
    | inl u ↦ rw (is_under-Under base d u) refl
    | inr u ↦
        rw
          (or_right (is_under base d) (is_parent (parent base) d)
            (is_parent-here (parent base) d u))
          refl
  ]

  write_edit-walled :
      (edit : FileEdit) (r : Result String FilePath)
      → ((p : FilePath) → r ≡ ok p → Under base p)
      → (w : W) → write_edit (walled sys base) edit r w ≡ write_edit sys edit r w
  unfolding with_context
  write_edit-walled edit (err e) place w = refl
  write_edit-walled edit (ok p) place w =
      bind-same (create_parent (walled sys base) (parent p)) (create_parent sys (parent p)) _ _
        (create_parent-walled (parent p) (λ d. parent-Under base p d (place p refl)))
        (λ a w'. rw (is_under-Under base p (place p refl)) refl) w

  apply_edits-walled :
      (edits : List FileEdit) (w : W)
      → apply_edits (walled sys base) edits base w ≡ apply_edits sys edits base w
  unfolding apply_edits apply_file_edit
  apply_edits-walled [] w = refl
  apply_edits-walled (edit ∷ edits) w =
      bind-same (apply_file_edit (walled sys base) edit base) (apply_file_edit sys edit base) _ _
        (write_edit-walled edit (safe_join base edit.path) (safe_join-Under base edit.path))
        (λ a. apply_edits-walled edits) w

  -- Applying file edits asks the machine for nothing but files and directories whose paths lie
  -- under the shadow, and for the directory that the shadow stands in: on a machine that refuses
  -- all else it does and answers the same, whatever the edits are. Where such a path leads when
  -- a part of it is a symbolic link, the paths do not say.
  pub apply-Confined :
      (edits : List FileEdit) (w : W)
      → apply (walled sys base) (files edits) base w ≡ apply sys (files edits) base w
  unfolding apply
  apply-Confined edits w = apply_edits-walled edits w
