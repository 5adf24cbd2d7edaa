-- ===== src/Datasets/Tree.antt =====
-- zfs.go: the tree of datasets that listZFSDatasets shows, and which of them can be deleted.
use pfortainer.Base.{
  ℕ, zero, suc, ◌+◌, ◌<◌, ◌≡◌, refl, sym, ap, ◌∙◌, ◌≢◌, inl, inr, Bool, true, false, not, ◌&&◌,
  ◌||◌, Option, none, some, List, [], ◌∷◌, ◌++◌, append_assoc, Memᴰ, arith, Text, codes, text_eq,
  has_prefix, contains, last_index, text_eq_iff, Lacks, Lacks-append, split_last, last_index-append,
  last_index-Lacks, take-before, drop-length, length, take, keep, any, All, ltb, leb, if◌then◌else◌,
  Bool-cases, Option-cases,
}
use mathlib.Core.Path.{subst}
use pfortainer.Datasets.{
  snapshot_at, short_name, parent_of, count_byte, depth, has_children, Dataset, collect,
  new_dataset, dataset_of, name_of, datasets_in, fields_of, parse_int, empty_dataset_threshold,
}

last_index-skip : (c : ℕ) (a b : Text) → Lacks c b → last_index (a ++ b) c ≡ last_index a c
unfolding last_index
last_index-skip c [] b h = last_index-Lacks c b h
last_index-skip c (x ∷ a) b h = ground (arith, last_index-skip c a b h)

last_index-lt : (c : ℕ) (a : Text) (j : ℕ) → last_index a c ≡ some j → j < length a
unfolding last_index
last_index-lt c [] j h = absurd (cc)
last_index-lt c (x ∷ a) zero h = omega arith
last_index-lt c (x ∷ a) (suc j) h = ground (arith, last_index-lt c a j)

count_byte-append : (c : ℕ) (a b : Text) → count_byte c (a ++ b) ≡ count_byte c a + count_byte c b
unfolding count_byte
count_byte-append c [] b = omega arith
count_byte-append c (x ∷ a) b = ground (arith, count_byte-append c a b)

count_byte-Lacks : (c : ℕ) (a : Text) → Lacks c a → count_byte c a ≡ 0
unfolding count_byte
count_byte-Lacks c [] h = refl
count_byte-Lacks c (x ∷ a) h = ground (arith, count_byte-Lacks c a h.1, h.0)

-- A dataset's name has no "@", and the last part of a name has neither separator.
module _ (p c : Text) (hp : Lacks b'@' p) (slash : Lacks b'/' c) (at : Lacks b'@' c) where
  no_at : Lacks b'@' (p ++ b'/' ∷ c)
  no_at = Lacks-append b'@' p (b'/' ∷ c) hp ((omega arith), at)

  no_snapshot : snapshot_at (p ++ b'/' ∷ c) ≡ none
  unfolding snapshot_at
  no_snapshot = rw (last_index-Lacks b'@' (p ++ b'/' ∷ c) no_at, snapshot_at) refl

  a_snapshot : snapshot_at (p ++ b'@' ∷ c) ≡ some (length p)
  unfolding snapshot_at
  a_snapshot = elim (Option-cases (last_index p b'/')) [
    | inl n ↦
        rw
          (
            last_index-append b'@' p c at,
            snapshot_at,
            last_index-skip b'/' p (b'@' ∷ c) ((omega arith), slash),
            n,
          )
          refl
    | inr (j, e) ↦
        let lt : ltb j (length p) ≡ true = ground (arith, last_index-lt b'/' p j e) in
        rw
          (
            last_index-append b'@' p c at,
            snapshot_at,
            last_index-skip b'/' p (b'@' ∷ c) ((omega arith), slash),
            e,
            lt,
          )
          refl
  ]

  depth_dataset : depth p ≡ count_byte b'/' p
  unfolding depth snapshot_at
  depth_dataset = rw (last_index-Lacks b'@' p hp, depth, snapshot_at) refl

  slashes : count_byte b'/' (p ++ b'/' ∷ c) ≡ count_byte b'/' p + 1
  unfolding count_byte
  slashes = rw (count_byte-append b'/' p (b'/' ∷ c)) (omega (arith, count_byte-Lacks b'/' c slash))

  pub child_in_tree :
      ((parent_of (p ++ b'/' ∷ c) ≡ p)
        × (short_name (p ++ b'/' ∷ c) ≡ c)
        × (depth (p ++ b'/' ∷ c) ≡ depth p + 1))
      × (parent_of (p ++ b'@' ∷ c) ≡ p)
      × (short_name (p ++ b'@' ∷ c) ≡ b'@' ∷ c)
      × (depth (p ++ b'@' ∷ c) ≡ depth p + 1)
  unfolding parent_of short_name depth
  child_in_tree =
      let j : last_index (p ++ b'/' ∷ c) b'/' ≡ some (length p) =
        last_index-append b'/' p c slash in
      (
        (
          rw (no_snapshot, parent_of, j) (take-before b'/' p c),
          rw (no_snapshot, short_name, j) (drop-length b'/' p c),
          rw (no_snapshot, depth) (omega (arith, depth_dataset, slashes)),
        ),
        rw (a_snapshot, parent_of) (take-before b'@' p c),
        rw (a_snapshot, short_name) (ap (λ t. b'@' ∷ t) (drop-length b'@' p c)),
        rw (a_snapshot, depth) (rw (take-before b'@' p c) (omega (arith, depth_dataset))),
      )

has_prefix-append : (a b : Text) → has_prefix (a ++ b) a ≡ true
unfolding has_prefix
has_prefix-append [] [] = refl
has_prefix-append [] (x ∷ b) = refl
has_prefix-append (x ∷ a) b = ground (arith, has_prefix-append a b)

longer : (a : Text) (x : ℕ) (b : Text) → text_eq (a ++ x ∷ b) a ≡ false
unfolding text_eq
longer [] x b = refl
longer (y ∷ a) x b = ground (arith, longer a x b)

-- What is before the last separator x is a prefix, with the separator.
before_last :
    (x : ℕ) (e : Text) (i : ℕ)
    → last_index e x ≡ some i
    → (text_eq e (take i e) ≡ false) × (has_prefix e (take i e ++ x ∷ []) ≡ true)
before_last x e i h = elim (split_last x e) [
  | inl lacks ↦ let n : last_index e x ≡ none = last_index-Lacks x e lacks in absurd (cc)
  | inr (a, b, parts, lacks) ↦
      let at : some (length a) ≡ some i =
        sym (last_index-append x a b lacks) ∙ (ap (λ t. last_index t x) (sym parts) ∙ h) in
      let n : i ≡ length a = cc in
      let before : take i e ≡ a =
        ap (λ k. take k e) n ∙ (ap (λ t. take (length a) t) parts ∙ take-before x a b) in
      rw (before, parts)
        (
          longer a x b,
          ap (λ t. has_prefix t (a ++ x ∷ [])) (sym (append_assoc a (x ∷ []) b))
              ∙ has_prefix-append (a ++ x ∷ []) b,
        )
]

-- The test by which hasChildren counts a name.
abbrev is_child : Text → Text → Bool
is_child name n =
    not (text_eq n name) && (has_prefix n (name ++ b'/' ∷ []) || has_prefix n (name ++ b'@' ∷ []))

snapshot_at_index : (e : Text) (i : ℕ) → snapshot_at e ≡ some i → last_index e b'@' ≡ some i
unfolding snapshot_at
snapshot_at_index e i h = ground arith

parent_of-is_child : (e : Text) → parent_of e ≢ [] → is_child (parent_of e) e ≡ true
unfolding parent_of
parent_of-is_child e ne = elim (Option-cases (snapshot_at e)) [
  | inr (i, s) ↦
      let (n, p) = before_last b'@' e i (snapshot_at_index e i s) in
      rw (s, parent_of) (ground (arith, n, p))
  | inl s ↦ elim (Option-cases (last_index e b'/')) [
    | inr (j, l) ↦
        let (n, p) = before_last b'/' e j l in rw (s, parent_of, l) (ground (arith, n, p))
    | inl l ↦ absurd (ne (rw (s, parent_of, l) refl))
  ]
]

any_mem {ℓ} :
    {A : Type ℓ} (p : A → Bool) (xs : List A) {x : A} → Memᴰ x xs → p x ≡ true → any p xs ≡ true
any_mem p [] m h = elim m [ ]
any_mem p (y ∷ xs) (Memᴰ.head e) h = let t : p y ≡ true = ap p (sym e) ∙ h in ground (arith, t)
any_mem p (y ∷ xs) (Memᴰ.tail m) h = ground (arith, any_mem p xs m h)

module _ {A B : Type 0} (f : A → Option B) where
  collect-All :
      (P : B → Type 0) (xs : List A)
      → ((x : A) (y : B) → Memᴰ x xs → f x ≡ some y → P y)
      → All P (collect f xs)
  unfolding collect
  collect-All P [] h = tt
  collect-All P (x ∷ xs) h = elim (Option-cases (f x)) [
    | inl n ↦ rw (n, collect) (collect-All P xs (λ z y m e. h z y (Memᴰ.tail m) e))
    | inr (y, e) ↦
        rw (e, collect)
          (h x y (Memᴰ.head refl) e, collect-All P xs (λ z y' m e'. h z y' (Memᴰ.tail m) e'))
  ]

  collect-mem : (xs : List A) {x : A} (y : B) → Memᴰ x xs → f x ≡ some y → Memᴰ y (collect f xs)
  unfolding collect
  collect-mem [] y m h = elim m [ ]
  collect-mem (z ∷ xs) y (Memᴰ.head e) h =
      let here : f z ≡ some y = ap f (sym e) ∙ h in rw (here, collect) (Memᴰ.head refl)
  collect-mem (z ∷ xs) y (Memᴰ.tail m) h = elim (Option-cases (f z)) [
    | inl n ↦ rw (n, collect) (collect-mem xs y m h)
    | inr (v, e) ↦ rw (e, collect) (Memᴰ.tail (collect-mem xs y m h))
  ]

-- The fields of a line, for the file system `n` below a pool that refers to less than 1 MiB.
abbrev pub IsEmptyFilesystem : List Text → Text → Type 0
IsEmptyFilesystem (name ∷ kind ∷ used ∷ avail ∷ refer ∷ mountpoint ∷ more) n =
    (name ≡ n)
    × (kind ≡ codes "filesystem")
    × (parse_int refer < 1048576)
    × ((contains name (codes "/") || contains name (codes "@")) ≡ true)
IsEmptyFilesystem _ n = ⊥

-- What a line's dataset says of its fields.
record Parsed (names : List Text) (fs : List Text) (d : Dataset) : Type 0 where
  named : d.name ≢ [] → name_of fs ≡ some d.name
  parent : d.parent ≡ parent_of d.name
  pool : d.is_pool ≡ (not (contains d.name (b'/' ∷ [])) && not (contains d.name (b'@' ∷ [])))
  deletable :
      d.can_delete ≡ true
      → (d.is_pool ≡ false) × (has_children names d.name ≡ false) × IsEmptyFilesystem fs d.name

module _ (fmt_bytes : ℕ → Text) where
  new_dataset-Parsed :
      (names : List Text) (n k u a r m : Text) (more : List Text)
      → Parsed names (n ∷ k ∷ u ∷ a ∷ r ∷ m ∷ more) (new_dataset fmt_bytes names n k u a r m)
  unfolding new_dataset name_of
  new_dataset-Parsed names n k u a r m more = record {
    named = λ ne. ground (arith, text_eq_iff n []);
    parent = refl;
    pool = refl;
    deletable = λ h.
        let parts : ((not (contains n (b'/' ∷ [])) && not (contains n (b'@' ∷ []))) ≡ false)
            × (has_children names n ≡ false)
            × (leb empty_dataset_threshold (parse_int r) ≡ false)
            × (text_eq k (codes "filesystem") ≡ true) =
          ground arith in
        let (no_pool, no_child, no_files, kind) = parts in
        (
          no_pool,
          no_child,
          (
            refl,
            (text_eq_iff k (codes "filesystem")).0 kind,
            ground (arith, no_files),
            ground (arith, no_pool),
          ),
        );
  }

  dataset_of-Parsed :
      (names : List Text) (fs : List Text) (d : Dataset)
      → dataset_of fmt_bytes names fs ≡ some d
      → Parsed names fs d
  unfolding dataset_of
  dataset_of-Parsed names (n ∷ k ∷ u ∷ a ∷ r ∷ m ∷ more) d h =
      subst (λ e. Parsed names (n ∷ k ∷ u ∷ a ∷ r ∷ m ∷ more) e) (cc)
        (new_dataset-Parsed names n k u a r m more)
  dataset_of-Parsed names [] d h = absurd (cc)
  dataset_of-Parsed names (n ∷ []) d h = absurd (cc)
  dataset_of-Parsed names (n ∷ k ∷ []) d h = absurd (cc)
  dataset_of-Parsed names (n ∷ k ∷ u ∷ []) d h = absurd (cc)
  dataset_of-Parsed names (n ∷ k ∷ u ∷ a ∷ []) d h = absurd (cc)
  dataset_of-Parsed names (n ∷ k ∷ u ∷ a ∷ r ∷ []) d h = absurd (cc)

no_name_is_pool : (not (contains [] (b'/' ∷ [])) && not (contains [] (b'@' ∷ []))) ≡ true
unfolding contains has_prefix
no_name_is_pool = refl

parent_of_nothing : parent_of [] ≡ []
unfolding parent_of snapshot_at last_index
parent_of_nothing = refl

named_if_no_pool :
    (names fs : List Text) (d : Dataset) → Parsed names fs d → d.is_pool ≡ false → d.name ≢ []
named_if_no_pool names fs d h none_of e =
    let pool : d.is_pool ≡ true =
      h.pool
      ∙ (ap (λ n. not (contains n (b'/' ∷ [])) && not (contains n (b'@' ∷ []))) e
          ∙ no_name_is_pool) in
    absurd (cc)

blocked :
    (names : List Text) (d e : Text)
    → Memᴰ e names
    → is_child d e ≡ true
    → has_children names d ≢ false
unfolding has_children
blocked names d e m child without = ground (arith, any_mem (is_child d) names m child)

-- A listed name whose parent is d keeps d from being deleted.
parent_blocks :
    (names fs gs : List Text) (d e : Dataset)
    → Parsed names fs d
    → Parsed names gs e
    → (name_of gs ≡ some e.name → Memᴰ e.name names)
    → d.can_delete ≡ true
    → e.parent ≢ d.name
parent_blocks names fs gs d e hd he listed can same =
    let (no_pool, no_child, _) = hd.deletable can in
    let ne : d.name ≢ [] = named_if_no_pool names fs d hd no_pool in
    let up : parent_of e.name ≡ d.name = sym he.parent ∙ same in
    let has : e.name ≢ [] = λ n. ne (sym up ∙ (ap parent_of n ∙ parent_of_nothing)) in
    let child : is_child d.name e.name ≡ true =
      ap (λ t. is_child t e.name) (sym up) ∙ parent_of-is_child e.name (λ n. ne (sym up ∙ n)) in
    absurd (blocked names d.name e.name (listed (he.named has)) child no_child)

All-keep_of :
    {A : Type 0} (P : A → Type 0) (p : A → Bool) (xs : List A)
    → All (λ x. p x ≡ true → P x) xs
    → All P (keep p xs)
All-keep_of P p [] h = tt
All-keep_of P p (x ∷ xs) h = elim (Bool-cases (p x)) [
  | inl e ↦ rw e (h.0 e, All-keep_of P p xs h.1)
  | inr e ↦ rw e (All-keep_of P p xs h.1)
]

module _ (fmt_bytes : ℕ → Text) (lines : List Text) where
  abbrev all_names : List Text
  all_names = collect (λ line. name_of (fields_of line)) lines

  from_line :
      (line : Text) (d : Dataset)
      → (if text_eq line [] then none else dataset_of fmt_bytes all_names (fields_of line)) ≡ some d
      → Parsed all_names (fields_of line) d
  from_line line d h = elim (Bool-cases (text_eq line [])) [
    | inl e ↦ absurd (ground (arith, e))
    | inr e ↦ dataset_of-Parsed fmt_bytes all_names (fields_of line) d (ground (arith, e))
  ]

  -- The dataset stands on a line for an empty file system, and is the parent of none.
  abbrev pub IsLeaf : Dataset → Type 0
  IsLeaf d =
      ((line : Text) × Memᴰ line lines × IsEmptyFilesystem (fields_of line) d.name)
      × All (λ e. e.parent ≢ d.name) (datasets_in fmt_bytes lines)

  deletable_in_place : All (λ d. d.can_delete ≡ true → IsLeaf d) (datasets_in fmt_bytes lines)
  unfolding datasets_in
  deletable_in_place =
      let f : Text → Option Dataset =
        λ line. if text_eq line [] then none else dataset_of fmt_bytes all_names (fields_of line) in
      collect-All f (λ d. d.can_delete ≡ true → IsLeaf d) lines
        (λ line d m h can.
          let hd = from_line line d h in
          let (_, _, printed) = hd.deletable can in
          (
            (line, m, printed),
            collect-All f (λ e. e.parent ≢ d.name) lines
                (λ line' e m' h'.
                  parent_blocks all_names (fields_of line) (fields_of line') d e hd
                    (from_line line' e h')
                    (λ n. collect-mem (λ l. name_of (fields_of l)) lines e.name m' n) can),
          ))

  -- Whatever lines zfs list prints, a dataset that listZFSDatasets marks as deletable stands on a
  -- line with its name, the type filesystem and fewer than 1048576 bytes referred to, its name has
  -- a slash or an @, so that it is no pool, and it is shown as the parent of no dataset of the
  -- list.
  pub deletable_are_leaves : All IsLeaf (keep (λ d. d.can_delete) (datasets_in fmt_bytes lines))
  deletable_are_leaves =
      All-keep_of IsLeaf (λ d. d.can_delete) (datasets_in fmt_bytes lines) deletable_in_place
