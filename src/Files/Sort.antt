-- ===== src/Files/Sort.antt =====
-- filemanager.go: the order of a listing (fileList, fileListJSON): directories, then files, each by
-- name.
use mathlib.Core.List.{Permᴰ}
use mathlib.Core.List.Permᴰ
use pfortainer.Base.{
  ◌≡◌, refl, sym, ◌∙◌, inl, inr, Bool, true, false, not, ◌&&◌, ◌||◌, List, [], ◌∷◌, ◌++◌, arith,
  Text, keep, All, All-append, All-keep, ltb, ◌==◌, if◌then◌else◌, Bool-cases,
}

-- sort.Slice by name, for names that are distinct.
unfoldable pub text_lt : Text → Text → Bool
text_lt a [] = false
text_lt [] (y ∷ ys) = true
text_lt (x ∷ xs) (y ∷ ys) = ltb x y || (x == y && text_lt xs ys)

module _ {A : Type 0} (key : A → Text) where
  unfoldable pub insert_by : A → List A → List A
  insert_by a [] = a ∷ []
  insert_by a (b ∷ bs) =
      let rest = insert_by a bs in if text_lt (key b) (key a) then b ∷ rest else a ∷ b ∷ bs

  unfoldable pub sort_by : List A → List A
  unfolding insert_by
  sort_by [] = []
  sort_by (a ∷ as') = insert_by a (sort_by as')

module _ {A : Type 0} (key : A → Text) (is_dir : A → Bool) where
  -- The loop that parts the entries, the two sorts, and append(dirs, files...).
  unfoldable pub arrange : List A → List A
  unfolding sort_by
  arrange xs = sort_by key (keep is_dir xs) ++ sort_by key (keep (λ x. not (is_dir x)) xs)

-- Not after: what sort.Slice leaves true of every earlier and later entry.
text_lt_asym : (a b : Text) → text_lt a b ≡ true → text_lt b a ≡ false
unfolding text_lt
text_lt_asym a [] h = absurd (cc)
text_lt_asym [] (y ∷ b) h = refl
text_lt_asym (x ∷ a) (y ∷ b) h = ground (arith, text_lt_asym a b)

text_le_trans : (a b c : Text) → text_lt b a ≡ false → text_lt c b ≡ false → text_lt c a ≡ false
unfolding text_lt
text_le_trans [] b [] h k = refl
text_le_trans [] b (z ∷ c) h k = refl
text_le_trans (x ∷ a) [] c h k = absurd (cc)
text_le_trans (x ∷ a) (y ∷ b) [] h k = absurd (cc)
text_le_trans (x ∷ a) (y ∷ b) (z ∷ c) h k = ground (arith, text_le_trans a b c)

module _ {A : Type 0} where
  -- Every item against all later ones.
  abbrev pub Pairwise : (A → A → Type 0) → List A → Type 0
  Pairwise R [] = Unit
  Pairwise R (x ∷ xs) = All (R x) xs × Pairwise R xs

  Pairwise-append :
      (R : A → A → Type 0) (xs ys : List A)
      → Pairwise R xs
      → Pairwise R ys
      → All (λ x. All (R x) ys) xs
      → Pairwise R (xs ++ ys)
  Pairwise-append R [] ys hx hy h = hy
  Pairwise-append R (x ∷ xs) ys hx hy h =
      (All-append (R x) xs ys hx.0 h.0, Pairwise-append R xs ys hx.1 hy h.1)

module _ {A : Type 0} (key : A → Text) where
  abbrev pub InOrder : A → A → Type 0
  InOrder a b = text_lt (key b) (key a) ≡ false

  insert_by-All :
      (P : A → Type 0) (a : A) (bs : List A) → P a → All P bs → All P (insert_by key a bs)
  unfolding insert_by
  insert_by-All P a [] h t = (h, tt)
  insert_by-All P a (b ∷ bs) h t = elim (Bool-cases (text_lt (key b) (key a))) [
    | inl e ↦ rw e (t.0, insert_by-All P a bs h t.1)
    | inr e ↦ rw e (h, t)
  ]

  insert_by-perm : (a : A) (bs : List A) → Permᴰ (insert_by key a bs) (a ∷ bs)
  unfolding insert_by
  insert_by-perm a [] = Permᴰ.refl (a ∷ [])
  insert_by-perm a (b ∷ bs) = elim (Bool-cases (text_lt (key b) (key a))) [
    | inl e ↦ rw e (Permᴰ.trans (Permᴰ.cons refl (insert_by-perm a bs)) (Permᴰ.swap refl refl))
    | inr e ↦ rw e (Permᴰ.refl (a ∷ b ∷ bs))
  ]

  below : (a b : A) (cs : List A) → InOrder a b → All (InOrder b) cs → All (InOrder a) cs
  below a b [] h t = tt
  below a b (c ∷ cs) h t = (text_le_trans (key a) (key b) (key c) h t.0, below a b cs h t.1)

  insert_by-Pairwise :
      (a : A) (bs : List A) → Pairwise InOrder bs → Pairwise InOrder (insert_by key a bs)
  unfolding insert_by
  insert_by-Pairwise a [] h = (tt, tt)
  insert_by-Pairwise a (b ∷ bs) h = elim (Bool-cases (text_lt (key b) (key a))) [
    | inl e ↦ rw e (
      insert_by-All (InOrder b) a bs (text_lt_asym (key b) (key a) e) h.0,
      insert_by-Pairwise a bs h.1,
    )
    | inr e ↦ rw e ((e, below a b bs e h.0), h)
  ]

  sort_by-All : (P : A → Type 0) (as' : List A) → All P as' → All P (sort_by key as')
  unfolding sort_by
  sort_by-All P [] h = tt
  sort_by-All P (a ∷ as') h = insert_by-All P a (sort_by key as') h.0 (sort_by-All P as' h.1)

  sort_by-perm : (as' : List A) → Permᴰ (sort_by key as') as'
  unfolding sort_by
  sort_by-perm [] = Permᴰ.nil
  sort_by-perm (a ∷ as') =
      Permᴰ.trans (insert_by-perm a (sort_by key as')) (Permᴰ.cons refl (sort_by-perm as'))

  sort_by-Pairwise : (as' : List A) → Pairwise InOrder (sort_by key as')
  unfolding sort_by
  sort_by-Pairwise [] = tt
  sort_by-Pairwise (a ∷ as') = insert_by-Pairwise a (sort_by key as') (sort_by-Pairwise as')

module _ {A : Type 0} (key : A → Text) (is_dir : A → Bool) where
  -- A directory before a file, and within each kind by name.
  abbrev pub Before : A → A → Type 0
  Before a b =
      (is_dir b ≡ true → is_dir a ≡ true) × (is_dir a ≡ is_dir b → text_lt (key b) (key a) ≡ false)

  one_kind :
      (k : Bool) (x : A) (xs : List A)
      → is_dir x ≡ k
      → All (λ y. is_dir y ≡ k) xs
      → All (InOrder key x) xs
      → All (Before x) xs
  one_kind k x [] e t h = tt
  one_kind k x (y ∷ xs) e t h = (((λ q. e ∙ (sym t.0 ∙ q)), λ _. h.0), one_kind k x xs e t.1 h.1)

  InOrder-Before :
      (xs : List A)
      → Pairwise (InOrder key) xs
      → (k : Bool) → All (λ x. is_dir x ≡ k) xs
      → Pairwise Before xs
  InOrder-Before [] h k t = tt
  InOrder-Before (x ∷ xs) h k t = (one_kind k x xs t.0 t.1 h.0, InOrder-Before xs h.1 k t.1)

  perm_parts : (xs : List A) → Permᴰ (keep is_dir xs ++ keep (λ x. not (is_dir x)) xs) xs
  perm_parts [] = Permᴰ.nil
  perm_parts (x ∷ xs) = elim (Bool-cases (is_dir x)) [
    | inl e ↦ rw e (Permᴰ.cons refl (perm_parts xs))
    | inr e ↦ rw e (
        Permᴰ.trans (Permᴰ.middle x (keep is_dir xs) (keep (λ y. not (is_dir y)) xs))
          (Permᴰ.cons refl (perm_parts xs)))
  ]

  dir-Before :
      (x : A) (ys : List A) → is_dir x ≡ true → All (λ y. is_dir y ≡ false) ys → All (Before x) ys
  dir-Before x [] e t = tt
  dir-Before x (y ∷ ys) e t = (((λ _. e), λ h. absurd (cc)), dir-Before x ys e t.1)

  dirs-Before :
      (xs ys : List A)
      → All (λ x. is_dir x ≡ true) xs
      → All (λ y. is_dir y ≡ false) ys
      → All (λ x. All (Before x) ys) xs
  dirs-Before [] ys h t = tt
  dirs-Before (x ∷ xs) ys h t = (dir-Before x ys h.0 t, dirs-Before xs ys h.1 t)

  dirs-All : (xs : List A) → All (λ x. is_dir x ≡ true) (sort_by key (keep is_dir xs))
  dirs-All xs =
      sort_by-All key (λ x. is_dir x ≡ true) (keep is_dir xs)
        (All-keep (λ x. is_dir x ≡ true) is_dir xs (λ x e. e))

  files-All :
      (xs : List A) → All (λ x. is_dir x ≡ false) (sort_by key (keep (λ x. not (is_dir x)) xs))
  files-All xs =
      sort_by-All key (λ x. is_dir x ≡ false) (keep (λ x. not (is_dir x)) xs)
        (All-keep (λ x. is_dir x ≡ false) (λ x. not (is_dir x)) xs (λ x e. ground arith))

  -- The listing has the entries it was given, each once, in order.
  pub arrange_lem :
      (xs : List A) → Permᴰ (arrange key is_dir xs) xs × Pairwise Before (arrange key is_dir xs)
  unfolding arrange
  arrange_lem xs =
      let ds = keep is_dir xs in
      let fs = keep (λ x. not (is_dir x)) xs in
      (
        Permᴰ.trans
            (Permᴰ.trans (Permᴰ.append_right (sort_by key fs) (sort_by-perm key ds))
              (Permᴰ.append_left ds (sort_by-perm key fs)))
            (perm_parts xs),
        Pairwise-append Before (sort_by key ds) (sort_by key fs)
            (InOrder-Before (sort_by key ds) (sort_by-Pairwise key ds) true (dirs-All xs))
            (InOrder-Before (sort_by key fs) (sort_by-Pairwise key fs) false (files-All xs))
            (dirs-Before (sort_by key ds) (sort_by key fs) (dirs-All xs) (files-All xs)),
      )
