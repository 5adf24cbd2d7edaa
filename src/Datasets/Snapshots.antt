-- ===== src/Datasets/Snapshots.antt =====
-- zfs.go: listSnapshots and listSnapshotsByDataset.
use pfortainer.Base.{
  ℕ, suc, ◌≡◌, refl, sym, ◌∙◌, inl, inr, Bool, false, ◌||◌, Option, none, some, List, [], ◌∷◌, ◌++◌,
  append-nil, append_assoc, arith, Text, codes, text_eq, last_index, elem_text, text_eq_iff, Result,
  ok, ◌>>=◌, take, drop, keep, any, if◌then◌else◌, Bool-cases,
}
use pfortainer.Datasets.{lines_of, fields_of, collect, parse_int}

pub record Snapshot : Type 0 where
  pub name : Text
  pub dataset : Text
  pub snap_name : Text
  pub creation : ℕ
  pub used : Text
  pub refer : Text

abbrev list_args : Text → List Text
list_args dataset =
    (codes "list"
      ∷ codes "-H"
      ∷ codes "-p"
      ∷ codes "-t"
      ∷ codes "snapshot"
      ∷ codes "-o"
      ∷ codes "name,creation,used,refer"
      ∷ codes "-s"
      ∷ codes "creation"
      ∷ [])
    ++ (if text_eq dataset [] then [] else codes "-r" ∷ dataset ∷ [])

module _ (fmt_bytes : ℕ → Text) where
  unfoldable pub snapshot_of : List Text → Option Snapshot
  unfolding parse_int
  snapshot_of (name ∷ creation ∷ used ∷ refer ∷ more) = elim (last_index name b'@') [
    | none ↦ none
    | some i ↦ some record {
      name = name;
      dataset = take i name;
      snap_name = drop (suc i) name;
      creation = parse_int creation;
      used = fmt_bytes (parse_int used);
      refer = fmt_bytes (parse_int refer);
    }
  ]
  snapshot_of _ = none

  -- `zfs` is zfsRun("zfs", …): the output, or the message of the failure.
  unfoldable pub list_snapshots : (List Text → Result Text) → Text → Result (List Snapshot)
  unfolding collect snapshot_of lines_of fields_of
  list_snapshots zfs dataset = zfs (list_args dataset) >>= λ out. ok (
      collect (λ line. if text_eq line [] then none else snapshot_of (fields_of line))
        (lines_of out))

-- The map from datasets to snapshots, as the list of its entries.
abbrev pub Groups : Type 0
Groups = List (Text × List Snapshot)

unfoldable pub has_key : Text → Groups → Bool
has_key d [] = false
has_key d ((k, v) ∷ gs) = text_eq k d || has_key d gs

-- Reading a key that is missing gives no snapshots.
unfoldable pub group : Text → Groups → List Snapshot
group d [] = []
group d ((k, v) ∷ gs) = if text_eq k d then v else group d gs

unfoldable pub add_to : Text → Snapshot → Groups → Groups
add_to d s [] = (d, s ∷ []) ∷ []
add_to d s ((k, v) ∷ gs) =
    let rest = add_to d s gs in if text_eq k d then (k, v ++ s ∷ []) ∷ gs else (k, v) ∷ rest

unfoldable pub grouped : Groups → List Text → List Snapshot → Groups × List Text
unfolding has_key add_to
grouped gs order [] = (gs, order)
grouped gs order (s ∷ ss) =
    grouped (add_to s.dataset s gs)
      (if has_key s.dataset gs then order else order ++ s.dataset ∷ []) ss

unfoldable pub list_snapshots_by_dataset : Result (List Snapshot) → Result (Groups × List Text)
unfolding grouped
list_snapshots_by_dataset listed = listed >>= λ snaps. ok (grouped [] [] snaps)

group-add_to :
    (d k : Text) (s : Snapshot) (gs : Groups)
    → group d (add_to k s gs) ≡ (if text_eq k d then group d gs ++ s ∷ [] else group d gs)
unfolding group add_to
group-add_to d k s [] = refl
group-add_to d k s ((j, v) ∷ gs) =
    ground (arith, group-add_to d k s gs, text_eq_iff j k, text_eq_iff k d, text_eq_iff j d)

has_key-add_to :
    (d k : Text) (s : Snapshot) (gs : Groups)
    → has_key d (add_to k s gs) ≡ (has_key d gs || text_eq k d)
unfolding has_key add_to
has_key-add_to d k s [] = ground arith
has_key-add_to d k s ((j, v) ∷ gs) =
    ground (arith, has_key-add_to d k s gs, text_eq_iff j k, text_eq_iff k d, text_eq_iff j d)

group-grouped :
    (d : Text) (ss : List Snapshot) (gs : Groups) (order : List Text)
    → group d (grouped gs order ss).0 ≡ group d gs ++ keep (λ s. text_eq s.dataset d) ss
unfolding grouped
group-grouped d [] gs order = sym (append-nil (group d gs))
group-grouped d (s ∷ ss) gs order =
    group-grouped d ss (add_to s.dataset s gs)
      (if has_key s.dataset gs then order else order ++ s.dataset ∷ [])
    ∙ elim (Bool-cases (text_eq s.dataset d)) [
      | inl e ↦
          rw (group-add_to d s.dataset s gs)
            (rw e (append_assoc (group d gs) (s ∷ []) (keep (λ t. text_eq t.dataset d) ss)))
      | inr e ↦ rw (group-add_to d s.dataset s gs) (rw e refl)
    ]

-- No dataset stands twice in the order.
abbrev pub Distinct : List Text → Type 0
Distinct [] = Unit
Distinct (x ∷ xs) = (elem_text x xs ≡ false) × Distinct xs

elem-append :
    (d x : Text) (xs : List Text) → elem_text d (xs ++ x ∷ []) ≡ (elem_text d xs || text_eq d x)
unfolding elem_text
elem-append d x [] = ground arith
elem-append d x (y ∷ xs) = ground (arith, elem-append d x xs)

Distinct-append :
    (xs : List Text) (x : Text) → Distinct xs → elem_text x xs ≡ false → Distinct (xs ++ x ∷ [])
unfolding elem_text
Distinct-append [] x h e = (refl, tt)
Distinct-append (y ∷ xs) x h e = (
  ground (arith, elem-append y x xs, h.0, text_eq_iff y x, text_eq_iff x y),
  Distinct-append xs x h.1 (ground arith),
)

-- The order lists the keys of the map.
record Tracks (gs : Groups) (order : List Text) : Type 0 where
  keys : (d : Text) → elem_text d order ≡ has_key d gs
  distinct : Distinct order

abbrev next_order : Text → Groups → List Text → List Text
next_order k gs order = if has_key k gs then order else order ++ k ∷ []

nothing-Tracks : Tracks [] []
unfolding has_key elem_text
nothing-Tracks = record { keys = λ d. refl; distinct = tt }

add_to-Tracks :
    (s : Snapshot) (gs : Groups) (order : List Text)
    → Tracks gs order
    → Tracks (add_to s.dataset s gs) (next_order s.dataset gs order)
add_to-Tracks s gs order t = elim (Bool-cases (has_key s.dataset gs)) [
  | inl e ↦ rw e record {
    keys = λ d. ground (arith, t.keys d, has_key-add_to d s.dataset s gs, text_eq_iff s.dataset d);
    distinct = t.distinct;
  }
  | inr e ↦ rw e record {
    keys = λ d. ground (
      arith,
      t.keys d,
      has_key-add_to d s.dataset s gs,
      elem-append d s.dataset order,
      text_eq_iff s.dataset d,
      text_eq_iff d s.dataset,
    );
    distinct = Distinct-append order s.dataset t.distinct (t.keys s.dataset ∙ e);
  }
]

grouped-Tracks :
    (ss : List Snapshot) (gs : Groups) (order : List Text)
    → Tracks gs order
    → Tracks (grouped gs order ss).0 (grouped gs order ss).1
unfolding grouped
grouped-Tracks [] gs order t = t
grouped-Tracks (s ∷ ss) gs order t =
    grouped-Tracks ss (add_to s.dataset s gs) (next_order s.dataset gs order)
      (add_to-Tracks s gs order t)

has_key-grouped :
    (d : Text) (ss : List Snapshot) (gs : Groups) (order : List Text)
    → has_key d (grouped gs order ss).0 ≡ (has_key d gs || any (λ s. text_eq s.dataset d) ss)
unfolding grouped
has_key-grouped d [] gs order = ground arith
has_key-grouped d (s ∷ ss) gs order = ground (
  arith,
  has_key-grouped d ss (add_to s.dataset s gs) (next_order s.dataset gs order),
  has_key-add_to d s.dataset s gs,
)

pub groups_all_snapshots :
    (snaps : List Snapshot)
    → (gs : Groups) × (order : List Text) × (list_snapshots_by_dataset (ok snaps) ≡ ok (gs, order))
      × ((d : Text) → group d gs ≡ keep (λ s. text_eq s.dataset d) snaps)
      × ((d : Text) → elem_text d order ≡ any (λ s. text_eq s.dataset d) snaps)
      × Distinct order
unfolding list_snapshots_by_dataset group has_key
groups_all_snapshots snaps =
    let g = grouped [] [] snaps in
    let t = grouped-Tracks snaps [] [] nothing-Tracks in
    (
      g.0,
      g.1,
      refl,
      (λ d. group-grouped d snaps [] [] ∙ refl),
      (λ d. t.keys d ∙ has_key-grouped d snaps [] []),
      t.distinct,
    )
