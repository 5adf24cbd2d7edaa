-- ===== src/Store/Rows/Laws.antt =====
-- What the row operations keep: predicates on all rows, and keys that no two rows share.
use Prim.Native.Nat.{max}
use pfortainer.Base.{
  ℕ, ◌+◌, ◌≤◌, ◌≡◌, sym, ◌≢◌, inl, inr, Bool, false, some, List, [], ◌∷◌, ◌++◌, arith, keep, All,
  All-append, Bool-cases,
}
use mathlib.Core.Path.{subst}
use pfortainer.Store.Rows.{find, update_where, count_where, max_id, next_id, DistinctKeys}

module _ {A : Type 0} (P : A → Type 0) where
  pub All-map_rows : (Q : A → Type 0) (xs : List A) → ((x : A) → P x → Q x) → All P xs → All Q xs
  All-map_rows Q [] f h = tt
  All-map_rows Q (x ∷ xs) f h = (f x h.0, All-map_rows Q xs f h.1)

  pub All-update_where :
      (p : A → Bool) (f : A → A) (xs : List A)
      → ((x : A) → P x → P (f x))
      → All P xs
      → All P (update_where p f xs)
  unfolding update_where
  All-update_where p f [] keeps h = tt
  All-update_where p f (x ∷ xs) keeps h = elim (Bool-cases (p x)) [
    | inl e ↦ rw e (keeps x h.0, All-update_where p f xs keeps h.1)
    | inr e ↦ rw e (h.0, All-update_where p f xs keeps h.1)
  ]

  pub All-keep_rows : (p : A → Bool) (xs : List A) → All P xs → All P (keep p xs)
  All-keep_rows p [] h = tt
  All-keep_rows p (x ∷ xs) h = elim (Bool-cases (p x)) [
    | inl e ↦ rw e (h.0, All-keep_rows p xs h.1)
    | inr e ↦ rw e (All-keep_rows p xs h.1)
  ]

  -- The row that `find` returns satisfies what all rows do.
  pub find-All : (p : A → Bool) (xs : List A) (x : A) → All P xs → find p xs ≡ some x → P x
  unfolding find
  find-All p [] x h e = cc
  find-All p (y ∷ xs) x h e = elim (Bool-cases (p y)) [
    | inl t ↦ let same : y ≡ x = ground arith in subst P same h.0
    | inr t ↦ find-All p xs x h.1 (ground arith)
  ]

module _ {A K : Type 0} (key : A → K) where
  pub DistinctKeys-update_where :
      (p : A → Bool) (f : A → A) (xs : List A)
      → ((x : A) → key (f x) ≡ key x)
      → DistinctKeys key xs
      → DistinctKeys key (update_where p f xs)
  unfolding update_where
  DistinctKeys-update_where p f [] same h = tt
  DistinctKeys-update_where p f (x ∷ xs) same h = elim (Bool-cases (p x)) [
    | inl e ↦ rw e (
      All-update_where (λ y. key y ≢ key (f x)) p f xs (λ y ne. rw same ne) (rw same h.0),
      DistinctKeys-update_where p f xs same h.1,
    )
    | inr e ↦ rw e (
      All-update_where (λ y. key y ≢ key x) p f xs (λ y ne. rw same ne) h.0,
      DistinctKeys-update_where p f xs same h.1,
    )
  ]

  pub DistinctKeys-keep :
      (p : A → Bool) (xs : List A) → DistinctKeys key xs → DistinctKeys key (keep p xs)
  DistinctKeys-keep p [] h = tt
  DistinctKeys-keep p (x ∷ xs) h = elim (Bool-cases (p x)) [
    | inl e ↦ rw e (All-keep_rows (λ y. key y ≢ key x) p xs h.0, DistinctKeys-keep p xs h.1)
    | inr e ↦ rw e (DistinctKeys-keep p xs h.1)
  ]

  -- A new row whose key no row has.
  pub DistinctKeys-append :
      (xs : List A) (z : A)
      → All (λ y. key y ≢ key z) xs
      → DistinctKeys key xs
      → DistinctKeys key (xs ++ z ∷ [])
  DistinctKeys-append [] z new h = (tt, tt)
  DistinctKeys-append (x ∷ xs) z new h = (
    All-append (λ y. key y ≢ key x) xs (z ∷ []) h.0 ((λ e. new.0 (sym e)), tt),
    DistinctKeys-append xs z new.1 h.1,
  )

module _ {A : Type 0} where
  pub count_where-zero :
      (p : A → Bool) (xs : List A) → count_where p xs ≡ 0 → All (λ y. p y ≡ false) xs
  unfolding count_where
  count_where-zero p [] h = tt
  count_where-zero p (x ∷ xs) h = elim (Bool-cases (p x)) [
    | inl e ↦ absurd (ground arith)
    | inr e ↦ (e, count_where-zero p xs (ground arith))
  ]

  All-le-max_id : (id : A → ℕ) (xs : List A) → All (λ y. id y ≤ max_id id xs) xs
  unfolding max_id
  All-le-max_id id [] = tt
  All-le-max_id id (x ∷ xs) = (
    omega arith,
    All-map_rows (λ y. id y ≤ max_id id xs) (λ y. id y ≤ max (id x) (max_id id xs)) xs
        (λ y h. omega arith) (All-le-max_id id xs),
  )

  -- The key of a new row is one that no row has.
  pub next_id-new : (id : A → ℕ) (xs : List A) → All (λ y. id y ≢ next_id id xs) xs
  unfolding next_id
  next_id-new id xs =
      All-map_rows (λ y. id y ≤ max_id id xs) (λ y. id y ≢ max_id id xs + 1) xs (λ y h. omega arith)
        (All-le-max_id id xs)
