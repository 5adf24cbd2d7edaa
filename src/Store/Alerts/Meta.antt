-- ===== src/Store/Alerts/Meta.antt =====
-- The table `meta` as a function from keys to values: the contract of MetaGet and MetaSet.
use mathlib.Core.Path.{fun_ext}
use pfortainer.Base.{
  ◌≡◌, refl, Option, none, some, List, [], ◌∷◌, Text, text_eq, Result, ok, err, if◌then◌else◌,
}
use pfortainer.Store.{Time, unix, Db, statement, with_faults}
use pfortainer.Store.Rows.{find}
use pfortainer.Store.Alerts.{meta_key, value_of, upsert, meta_get, meta_set}
use pfortainer.Store.Alerts.Laws.{upsert-find}

pub data MetaCall : Type 0 where
  set : (key value : Text) (now : Time) → MetaCall
  get : (key : Text) → MetaCall

pub data Reply : Type 0 where
  stored : Reply
  value : Text → Reply
  failed : (error : Text) → Reply

abbrev set_reply : Result (Unit {0}) → Reply
set_reply (ok _) = stored
set_reply (err e) = failed e

abbrev get_reply : Result Text → Reply
get_reply (ok t) = value t
get_reply (err e) = failed e

unfoldable pub call : MetaCall → Db → Reply × Db
unfolding meta_get meta_set
call (set k v now) db = let (r, db') = meta_set k v now db in (set_reply r, db')
call (get k) db = let (r, db') = meta_get k db in (get_reply r, db')

unfoldable pub calls : List MetaCall → Db → List Reply × Db
unfolding call
calls [] db = ([], db)
calls (c ∷ cs) db = let (r, db') = call c db in let (rs, last) = calls cs db' in (r ∷ rs, last)

-- What the table stands for: a missing key reads as the empty text.
unfoldable pub view : Db → Text → Text
view db key = value_of (find (meta_key key) db.meta)

abbrev pub put : Text → Text → (Text → Text) → Text → Text
put k v f q = if text_eq k q then v else f q

-- One call of the contract: from which function to which, with which reply. A call that fails
-- changes nothing.
abbrev pub Allowed : MetaCall → Reply → (Text → Text) → (Text → Text) → Type 0
Allowed (set k v now) stored f g = g ≡ put k v f
Allowed (get k) (value t) f g = (t ≡ f k) × (g ≡ f)
Allowed c (failed e) f g = g ≡ f
Allowed (set k v now) (value t) f g = ⊥
Allowed (get k) stored f g = ⊥

abbrev pub Replay : List MetaCall → List Reply → (Text → Text) → (Text → Text) → Type 0
Replay [] [] f g = g ≡ f
Replay (c ∷ cs) (r ∷ rs) f g = (h : Text → Text) × Allowed c r f h × Replay cs rs h g
Replay [] (r ∷ rs) f g = ⊥
Replay (c ∷ cs) [] f g = ⊥

set_faults :
    (k v : Text) (now : Time) (fs : List (Option Text)) (db : Db)
    → let r = with_faults fs (λ d. (ok tt, record d { meta = upsert k v (unix now) d.meta })) db in
      Allowed (set k v now) (set_reply r.0) (view db) (view r.1)
unfolding view
set_faults k v now [] db = fun_ext (λ q. upsert-find k q v (unix now) db.meta)
set_faults k v now (none ∷ fs) db = fun_ext (λ q. upsert-find k q v (unix now) db.meta)
set_faults k v now (some e ∷ fs) db = refl

get_faults :
    (k : Text) (fs : List (Option Text)) (db : Db)
    → let r = with_faults fs (λ (d : Db). (ok (value_of (find (meta_key k) d.meta)), d)) db in
      Allowed (get k) (get_reply r.0) (view db) (view r.1)
unfolding view
get_faults k [] db = (refl, refl)
get_faults k (none ∷ fs) db = (refl, refl)
get_faults k (some e ∷ fs) db = refl

call_allowed : (c : MetaCall) (db : Db) → Allowed c (call c db).0 (view db) (view (call c db).1)
unfolding call meta_set meta_get statement
call_allowed (set k v now) db = set_faults k v now db.faults db
call_allowed (get k) db = get_faults k db.faults db

-- MetaSet and MetaGet implement a function from keys to texts: over every sequence of their calls,
-- whatever the driver answers, the table stands for a function that a MetaSet without an error
-- changes at its key alone, that a MetaGet without an error returns the value of and leaves as it
-- is, and that a call that fails leaves as it is.
pub meta_refines :
    (cs : List MetaCall) (db : Db) → Replay cs (calls cs db).0 (view db) (view (calls cs db).1)
unfolding calls
meta_refines [] db = refl
meta_refines (c ∷ cs) db = (view (call c db).1, call_allowed c db, meta_refines cs (call c db).1)
