-- ===== src/Store/Statement.antt =====
-- One statement of the driver, failing or not.
use pfortainer.Base.{Option, none, some, List, [], ◌∷◌, ◌≡◌, refl, Text, Result, ok, err}
use pfortainer.Store.{Db, Sql, statement, with_faults, and_then}

-- The predicate does not depend on the driver's coming answers.
abbrev pub FaultBlind : (Db → Type 0) → Type 0
FaultBlind P = (db : Db) (fs : List (Option Text)) → P db → P (record db { faults = fs })

module _ {A : Type 0} (P : Db → Type 0) (blind : FaultBlind P) where
  with_faults_keeps :
      (fs : List (Option Text)) (body : Sql A)
      → ((db : Db) → P db → P (body db).1)
      → (db : Db) → P db
      → P (with_faults fs body db).1
  with_faults_keeps [] body keeps db h = keeps db h
  with_faults_keeps (none ∷ fs) body keeps db h = keeps _ (blind db fs h)
  with_faults_keeps (some e ∷ fs) body keeps db h = blind db fs h

  -- What the body of a statement keeps, the statement keeps, also when the driver fails.
  pub statement_keeps :
      (body : Sql A)
      → ((db : Db) → P db → P (body db).1)
      → (db : Db) → P db
      → P (statement body db).1
  unfolding statement
  statement_keeps body keeps db h = with_faults_keeps db.faults body keeps db h

module _ {A B : Type 0} (P : Db → Type 0) where
  pub and_then_keeps :
      (m : Result A × Db) (f : A → Sql B)
      → P m.1
      → ((a : A) (db : Db) → P db → P (f a db).1)
      → P (and_then m f).1
  and_then_keeps (ok a, db) f h keeps = keeps a db h
  and_then_keeps (err e, db) f h keeps = h

module _ {A : Type 0} where
  -- With no fault to come a statement is its body.
  pub statement_runs : (body : Sql A) (db : Db) → db.faults ≡ [] → statement body db ≡ body db
  unfolding statement
  statement_runs body db e = rw e

  with_faults_ok :
      (fs : List (Option Text)) (body : Sql A) (db : Db) {a : A}
      → (with_faults fs body db).0 ≡ ok a
      → (rest : List (Option Text)) × (with_faults fs body db ≡ body (record db { faults = rest }))
  with_faults_ok [] body db h = (db.faults, refl)
  with_faults_ok (none ∷ fs) body db h = (fs, refl)
  with_faults_ok (some e ∷ fs) body db h = cc

  -- A statement that succeeds has run its body, and used at most one answer of the driver.
  pub statement_ok :
      (body : Sql A) (db : Db) {a : A}
      → (statement body db).0 ≡ ok a
      → (rest : List (Option Text)) × (statement body db ≡ body (record db { faults = rest }))
  unfolding statement
  statement_ok body db h = with_faults_ok db.faults body db h
