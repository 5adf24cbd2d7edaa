-- ===== src/Store/Rows.antt =====
-- SELECT, UPDATE and DELETE with a WHERE clause over a list of rows, and the keys of new rows.
pub mod Laws
use Prim.Native.Nat.{max}
use pfortainer.Base.{
  ℕ, suc, ◌+◌, ◌≤◌, ◌<◌, Bool, true, false, not, Option, none, some, List, [], ◌∷◌, ◌++◌, ◌≡◌, ◌≢◌,
  refl, ap, arith, keep, All, length, if◌then◌else◌, Bool-cases, Memᴰ,
}

module _ {ℓ} {A : Type ℓ} where
  -- The first row that satisfies the clause (QueryRow).
  unfoldable pub find : (A → Bool) → List A → Option A
  find p [] = none
  find p (x ∷ xs) = if p x then some x else find p xs

  unfoldable pub update_where : (A → Bool) → (A → A) → List A → List A
  update_where p f [] = []
  update_where p f (x ∷ xs) = (if p x then f x else x) ∷ update_where p f xs

  unfoldable pub delete_where : (A → Bool) → List A → List A
  delete_where p xs = keep (λ x. not (p x)) xs

  -- RowsAffected, or SELECT COUNT(*).
  unfoldable pub count_where : (A → Bool) → List A → ℕ
  count_where p [] = 0
  count_where p (x ∷ xs) = if p x then suc (count_where p xs) else count_where p xs

  unfoldable pub max_id : (A → ℕ) → List A → ℕ
  max_id id [] = 0
  max_id id (x ∷ xs) = max (id x) (max_id id xs)

  -- The rowid of a new row of a table with INTEGER PRIMARY KEY.
  unfoldable pub next_id : (A → ℕ) → List A → ℕ
  unfolding max_id
  next_id id xs = max_id id xs + 1

module _ {ℓ κ} {A : Type ℓ} {K : Type κ} (key : A → K) where
  -- No two rows share the key.
  abbrev pub DistinctKeys : List A → Type (ℓ ⊔ κ)
  DistinctKeys [] = Unit
  DistinctKeys (x ∷ xs) = All (λ y. key y ≢ key x) xs × DistinctKeys xs
