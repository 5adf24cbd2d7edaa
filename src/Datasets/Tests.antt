-- ===== src/Datasets/Tests.antt =====
-- Runs of the lists of datasets and snapshots.
use pfortainer.Base.{
  ℕ, ◌≡◌, refl, List, [], ◌∷◌, map, Text, codes, text_eq, has_prefix, contains, split, trim,
  decimal, Result, ok, err, keep, All,
}
use pfortainer.Datasets.{
  Dataset, has_children, lines_of, fields_of, collect, parse_int, number_from, new_dataset,
  dataset_of, name_of, datasets_in, list_zfs_datasets,
}
use pfortainer.Datasets.Tree.{IsLeaf, deletable_are_leaves}

no_unit : ℕ → Text
no_unit n = decimal n

abbrev output : Text
output =
    codes
      "tank\tfilesystem\t9\t9\t98304\t/tank\ntank/a\tfilesystem\t9\t9\t98304\t/tank/a\ntank/a/b\tfilesystem\t9\t9\t98304\t/tank/a/b\ntank/c\tfilesystem\t9\t9\t2097152\t/tank/c\n"

deletable : Result (List Dataset) → List Text
deletable (err _) = []
deletable (ok ds) = map (λ (d : Dataset). d.name) (keep (λ d. d.can_delete) ds)

-- Only the small leaf is offered.
only_leaf : deletable (list_zfs_datasets no_unit (ok output)) ≡ codes "tank/a/b" ∷ []
unfolding deletable list_zfs_datasets lines_of trim split datasets_in collect fields_of name_of
    dataset_of new_dataset parse_int number_from has_children contains has_prefix text_eq
only_leaf = refl

deletable_are_leaves_example :
    All
      (IsLeaf no_unit (lines_of output))
      (keep (λ d. d.can_delete) (datasets_in no_unit (lines_of output)))
deletable_are_leaves_example = deletable_are_leaves no_unit (lines_of output)
