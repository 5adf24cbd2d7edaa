-- ===== src/Files/Scope.antt =====
-- filemanager.go: which paths the handlers that change files give to package os.
use pfortainer.Base.{
  ◌≡◌, refl, sym, ap, ◌∙◌, ◌≢◌, ◌⊎◌, inl, inr, true, false, Option, none, some, List, [], ◌∷◌, Text,
  codes, text_eq, Result, ok, err, All, if◌then◌else◌, Bool-cases, Option-cases,
}
use pfortainer.FilePath.{root, names, rooted, IsName}
use pfortainer.FilePath.Resolve.{names-IsName, safe_path_lem}
use pfortainer.Files.{Os, Answer, success, refused}
use pfortainer.Files.Change.{each, step_answer, delete_one, file_delete}

is_success : (a : Answer) → (a ≡ success) ⊎ (a ≢ success)
is_success success = inl refl
is_success (refused status e) = inr (λ h. cc)

module _ {W : Type 0} where
  step_answer_state : (prefix : Text) (r : Result (Unit {0}) × W) → (step_answer prefix r).1 ≡ r.1
  unfolding step_answer
  step_answer_state prefix (ok _, w) = refl
  step_answer_state prefix (err e, w) = refl

  step_answer-ne-success :
      (prefix : Text) (r : Result (Unit {0}) × W) → (step_answer prefix r).0 ≢ some success
  unfolding step_answer
  step_answer-ne-success prefix (ok _, w) h = cc
  step_answer-ne-success prefix (err e, w) h = cc

  module _ {A : Type 0} (step : A → W → Option Answer × W) (p : A) (ps : List A) (w : W) where
    each-none : (step p w).0 ≡ none → each step (p ∷ ps) w ≡ each step ps (step p w).1
    unfolding each
    each-none n = rw (n, each) refl

    each-some : {a : Answer} → (step p w).0 ≡ some a → each step (p ∷ ps) w ≡ (a, (step p w).1)
    unfolding each
    each-some n = rw (n, each) refl

  -- What every round keeps, the loop keeps.
  each-keeps :
      {A : Type 0} (P : W → Type 0) (step : A → W → Option Answer × W)
      → ((p : A) (w : W) → P w → P (step p w).1)
      → (ps : List A) (w : W) → P w
      → P (each step ps w).1
  unfolding each
  each-keeps P step keeps [] w h = h
  each-keeps P step keeps (p ∷ ps) w h = elim (Option-cases (step p w).0) [
    | inl n ↦ rw (each-none step p ps w n) (each-keeps P step keeps ps (step p w).1 (keeps p w h))
    | inr (a, e) ↦ rw (each-some step p ps w e) (keeps p w h)
  ]

not_root : (p : Text) → text_eq (rooted (names p)) root ≡ false → names p ≢ []
unfolding rooted text_eq
not_root p e n = let same : text_eq (rooted (names p)) root ≡ true = rw n refl in absurd (cc)

module _ {W : Type 0} (os : Os W) where
  -- One round of the loop, on the names that the path resolves to.
  delete_one_lem :
      (p : Text) (w : W)
      → delete_one os p w ≡ (
          if text_eq (rooted (names p)) root
          then (some (refused 400 (codes "루트 디렉토리는 삭제할 수 없습니다.")), w)
          else step_answer [] (os.remove_all (rooted (names p)) w))
  unfolding delete_one
  delete_one_lem p w = rw (safe_path_lem p, delete_one) refl

  -- `P` is whatever the removal of a path below the root leaves true.
  module _ (P : W → Type 0)
      (keeps : (s : List Text) (w : W)
        → All IsName s
        → s ≢ []
        → P w
        → P (os.remove_all (rooted s) w).1) where
    delete_one-keeps : (p : Text) (w : W) → P w → P (delete_one os p w).1
    delete_one-keeps p w h = elim (Bool-cases (text_eq (rooted (names p)) root)) [
      | inl e ↦ rw (delete_one_lem p w, e) h
      | inr e ↦
          rw (delete_one_lem p w, e)
            (rw (step_answer_state [] (os.remove_all (rooted (names p)) w))
              (keeps (names p) w (names-IsName p) (not_root p e) h))
    ]

    file_delete-keeps : (body : Option (List Text)) (w : W) → P w → P (file_delete os body w).1
    unfolding file_delete
    file_delete-keeps none w h = h
    file_delete-keeps (some paths) w h = each-keeps P (delete_one os) delete_one-keeps paths w h

  delete_one-ne-success : (p : Text) (w : W) → (delete_one os p w).0 ≢ some success
  delete_one-ne-success p w = elim (Bool-cases (text_eq (rooted (names p)) root)) [
    | inl e ↦ rw (delete_one_lem p w, e) (λ h. cc)
    | inr e ↦
        rw (delete_one_lem p w, e) (step_answer-ne-success [] (os.remove_all (rooted (names p)) w))
  ]

  -- A round that goes on met no path that resolves to the root.
  delete_one-goes_on : (p : Text) (w : W) → (delete_one os p w).0 ≡ none → names p ≢ []
  unfolding rooted text_eq
  delete_one-goes_on p w h e =
      let same : text_eq (rooted (names p)) root ≡ true = rw e refl in
      let stops : (delete_one os p w).0 ≡ some (refused 400 (codes "루트 디렉토리는 삭제할 수 없습니다.")) =
        rw (delete_one_lem p w, same) refl in
      absurd (cc)

  each_delete-goes_on :
      (ps : List Text) (w : W)
      → (each (delete_one os) ps w).0 ≡ success
      → All (λ p. names p ≢ []) ps
  unfolding each
  each_delete-goes_on [] w h = tt
  each_delete-goes_on (p ∷ ps) w h = elim (Option-cases (delete_one os p w).0) [
    | inl n ↦ (
      delete_one-goes_on p w n,
      each_delete-goes_on ps (delete_one os p w).1
          (sym (ap (λ (r : Answer × W). r.0) (each-none (delete_one os) p ps w n)) ∙ h),
    )
    | inr (a, e) ↦
        let same : a ≡ success =
          sym (ap (λ (r : Answer × W). r.0) (each-some (delete_one os) p ps w e)) ∙ h in
        absurd (delete_one-ne-success p w (e ∙ ap some same))
  ]

  -- Whatever every removal of a path of one or more proper names leaves true of the host's files,
  -- fileDelete leaves true too, whatever paths it is given; and it answers with success only if
  -- none of the paths resolves to the root.
  pub file_delete_below_root :
      (P : W → Type 0)
      → ((s : List Text) (w : W) → All IsName s → s ≢ [] → P w → P (os.remove_all (rooted s) w).1)
      → (paths : List Text) (w : W) → P w
      → P (file_delete os (some paths) w).1
        × (((file_delete os (some paths) w).0 ≢ success) ⊎ All (λ p. names p ≢ []) paths)
  unfolding file_delete
  file_delete_below_root P keeps paths w h = (
    file_delete-keeps P keeps (some paths) w h,
    elim (is_success (each (delete_one os) paths w).0) [
      | inl e ↦ inr (each_delete-goes_on paths w e)
      | inr ne ↦ inl ne
    ],
  )
