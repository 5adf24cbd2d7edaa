-- ===== src/Hostd/Zfs/Prune.antt =====
-- What a prune destroys.
use pfortainer.Base.{
  ℕ, zero, suc, ◌-◌, ◌≡◌, refl, sym, ap, ◌∙◌, ◌≢◌, inl, inr, true, false, not, ◌&&◌, none, some,
  List, [], ◌∷◌, ◌++◌, map, append-nil, append_assoc, arith, Text, text_eq, has_prefix, split, trim,
  text_eq_iff, Lacks, split_last, last_index-append, last_index-Lacks, take-before, drop-after,
  length, take, keep, All, All-keep, ltb, ◌==◌, Bool-cases,
}
use pfortainer.Hostd.{Log, Shell, exec, with_body, success}
use pfortainer.Hostd.Zfs.{
  PruneBody, destroy, is_matching, matching_names, name_column, list_snapshots, destroy_oldest,
  prune_listed, prune_body, zfs_snapshot_prune,
}

-- The name is the dataset, an @, the prefix and a rest.
abbrev pub IsNamed : Text → Text → Text → Type 0
IsNamed dataset prefix name = (rest : Text) × (name ≡ dataset ++ b'@' ∷ (prefix ++ rest))

prefix_rest : (s p : Text) → has_prefix s p ≡ true → (rest : Text) × (s ≡ p ++ rest)
unfolding has_prefix
prefix_rest s [] h = (s, refl)
prefix_rest [] (c ∷ p) h = absurd (ground arith)
prefix_rest (x ∷ s) (c ∷ p) h =
    let (rest, e) = prefix_rest s p (ground arith) in (rest, ground arith)

is_matching_at :
    (dataset prefix a b : Text)
    → Lacks b'@' b
    → is_matching dataset prefix (a ++ b'@' ∷ b) ≡ (text_eq a dataset && has_prefix b prefix)
unfolding is_matching
is_matching_at dataset prefix a b l =
    rw (is_matching, last_index-append b'@' a b l)
      (rw (take-before b'@' a b, drop-after b'@' a b) refl)

name_of :
    (dataset prefix a b rest : Text)
    → a ≡ dataset
    → b ≡ prefix ++ rest
    → a ++ b'@' ∷ b ≡ dataset ++ b'@' ∷ (prefix ++ rest)
name_of dataset prefix a b rest same e = cc

named :
    (dataset prefix a b : Text)
    → (text_eq a dataset && has_prefix b prefix) ≡ true
    → IsNamed dataset prefix (a ++ b'@' ∷ b)
named dataset prefix a b h =
    let (rest, e) = prefix_rest b prefix (ground arith) in
    let same : a ≡ dataset = (text_eq_iff a dataset).0 (ground arith) in
    (rest, name_of dataset prefix a b rest same e)

is_matching-IsNamed :
    (dataset prefix name : Text)
    → is_matching dataset prefix name ≡ true
    → IsNamed dataset prefix name
unfolding is_matching
is_matching-IsNamed dataset prefix name h = elim (split_last b'@' name) [
  | inl l ↦ absurd (ground (arith, last_index-Lacks b'@' name l))
  | inr (a, b, e, l) ↦
      let at_last : is_matching dataset prefix (a ++ b'@' ∷ b) ≡ true = rw e at h in
      rw e (named dataset prefix a b (sym (is_matching_at dataset prefix a b l) ∙ at_last))
]

take_nil : {A : Type 0} → (k : ℕ) → take {A = A} k [] ≡ []
take_nil zero = refl
take_nil (suc k) = refl

pub matching-IsNamed :
    (dataset prefix out : Text) → All (IsNamed dataset prefix) (matching_names dataset prefix out)
unfolding matching_names
matching-IsNamed dataset prefix out =
    All-keep (IsNamed dataset prefix) (is_matching dataset prefix)
      (map name_column (keep (λ line. not (text_eq line [])) (split (trim out) b'\n')))
      (is_matching-IsNamed dataset prefix)

module _ (sh : Shell) where
  destroy_oldest_lem :
      (n : ℕ) (names : List Text) (log : Log)
      → destroy_oldest sh n names log ≡ log ++ map destroy (take (length names - n) names)
  unfolding destroy_oldest
  destroy_oldest_lem n [] log = rw (take_nil {A = Text} (0 - n)) (sym (append-nil log))
  destroy_oldest_lem n (name ∷ names) log = elim (Bool-cases (ltb n (suc (length names)))) [
    | inl e ↦
        let more : suc (length names) - n ≡ suc (length names - n) = ground arith in
        rw (e, more)
          (destroy_oldest_lem n names (log ++ destroy name ∷ [])
            ∙ append_assoc log (destroy name ∷ []) (map destroy (take (length names - n) names)))
    | inr e ↦
        let less : suc (length names) - n ≡ 0 = ground arith in rw (e, less) (sym (append-nil log))
  ]

  -- For a POST with a dataset and a `keep` that is not 0, on a host where `zfs list` succeeds and
  -- prints `out`, a prune runs that command and then `zfs destroy` on each matching snapshot of
  -- `out`, in its order, but for the last `keep` ones; and each matching name is the dataset, an @,
  -- the prefix and a rest.
  pub prune_destroys_oldest :
      (b : PruneBody) (log : Log) (out : Text)
      → text_eq b.dataset [] ≡ false
      → b.keep_newest ≢ 0
      → sh log (list_snapshots b.dataset) ≡ (out, none)
      → let names = matching_names b.dataset b.prefix out in
        (zfs_snapshot_prune sh (record { is_post = true; body = some b }) log ≡ (
          (log ++ list_snapshots b.dataset ∷ [])
              ++ map destroy (take (length names - b.keep_newest) names),
          success,
        ))
        × All (IsNamed b.dataset b.prefix) names
  unfolding zfs_snapshot_prune with_body prune_body
  prune_destroys_oldest b log out has positive listed = (
    rw (prune_body, has, ne)
        (ap (prune_listed sh b) listed_first
          ∙ ap (λ l. (l, success))
              (destroy_oldest_lem b.keep_newest (matching_names b.dataset b.prefix out)
                (log ++ list_snapshots b.dataset ∷ []))),
    matching-IsNamed b.dataset b.prefix out,
  )
    where
      ne : (b.keep_newest == 0) ≡ false
      ne = ground arith

      listed_first :
          exec sh (list_snapshots b.dataset) log
          ≡ ((out, none), log ++ list_snapshots b.dataset ∷ [])
      listed_first = ap (λ r. (r, log ++ list_snapshots b.dataset ∷ [])) listed
