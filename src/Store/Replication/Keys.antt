-- ===== src/Store/Replication/Keys.antt =====
-- The ids of replication tasks.
use pfortainer.Base.{
  ℕ, ◌≤◌, ◌<◌, ◌≡◌, inl, inr, Bool, List, [], ◌∷◌, arith, Text, text_eq, ok, ◌==◌, Bool-cases,
}
use pfortainer.Store.{Time, ReplRow, Db}
use pfortainer.Store.Statement.{FaultBlind, statement_keeps, statement_ok}
use pfortainer.Store.Rows.{count_where}
use pfortainer.Store.Replication.{
  DbReplTask, create_repl_task, insert_repl_task, update_repl_task_result, toggle_repl_task,
  delete_repl_task,
}

-- A call of a method that writes the table.
pub data ReplCall : Type 0 where
  create : (unique_failed : Text) (task : DbReplTask) (now : Time) → ReplCall
  write_result : (id : ℕ) (snap status message : Text) (now : Time) → ReplCall
  toggle : (id : ℕ) (enabled : Bool) → ReplCall
  delete : (id : ℕ) → ReplCall

-- The database after the call, whether it returns an error or not.
unfoldable pub repl_call : ReplCall → Db → Db
repl_call (create unique_failed task now) db = (create_repl_task unique_failed task now db).1
repl_call (write_result id snap status message now) db =
    (update_repl_task_result id snap status message now db).1
repl_call (toggle id enabled) db = (toggle_repl_task id enabled db).1
repl_call (delete id) db = (delete_repl_task id db).1

unfoldable pub repl_calls : List ReplCall → Db → Db
repl_calls [] db = db
repl_calls (c ∷ cs) db = repl_calls cs (repl_call c db)

abbrev AtLeast : ℕ → Db → Type 0
AtLeast n db = n ≤ db.repl_seq

AtLeast-blind : (n : ℕ) → FaultBlind (AtLeast n)
AtLeast-blind n db fs h = h

insert-AtLeast :
    (n : ℕ) (unique_failed : Text) (t : DbReplTask) (now : Time) (db : Db)
    → AtLeast n db
    → AtLeast n (insert_repl_task unique_failed t now db).1
unfolding insert_repl_task
insert-AtLeast n unique_failed t now db h =
    elim (Bool-cases
      (count_where (λ (r : ReplRow). text_eq r.name t.name) db.replication_tasks == 0)) [
        | inl e ↦ rw (insert_repl_task, e) (omega arith)
        | inr e ↦ rw (insert_repl_task, e) h
      ]

call-AtLeast : (n : ℕ) (c : ReplCall) (db : Db) → AtLeast n db → AtLeast n (repl_call c db)
unfolding repl_call create_repl_task update_repl_task_result toggle_repl_task delete_repl_task
call-AtLeast n (create unique_failed task now) db h =
    statement_keeps (AtLeast n) (AtLeast-blind n) (insert_repl_task unique_failed task now)
      (insert-AtLeast n unique_failed task now) db h
call-AtLeast n (write_result id snap status message now) db h =
    statement_keeps (AtLeast n) (AtLeast-blind n) _ (λ d k. k) db h
call-AtLeast n (toggle id enabled) db h =
    statement_keeps (AtLeast n) (AtLeast-blind n) _ (λ d k. k) db h
call-AtLeast n (delete id) db h = statement_keeps (AtLeast n) (AtLeast-blind n) _ (λ d k. k) db h

calls-AtLeast : (n : ℕ) (cs : List ReplCall) (db : Db) → AtLeast n db → AtLeast n (repl_calls cs db)
unfolding repl_calls
calls-AtLeast n [] db h = h
calls-AtLeast n (c ∷ cs) db h = calls-AtLeast n cs (repl_call c db) (call-AtLeast n c db h)

insert_ok :
    (unique_failed : Text) (t : DbReplTask) (now : Time) (db : Db) (id : ℕ)
    → (insert_repl_task unique_failed t now db).0 ≡ ok id
    → (db.repl_seq < id) × ((insert_repl_task unique_failed t now db).1.repl_seq ≡ id)
unfolding insert_repl_task
insert_ok unique_failed t now db id h = ground arith

create_ok :
    (unique_failed : Text) (t : DbReplTask) (now : Time) (db : Db) (id : ℕ)
    → (create_repl_task unique_failed t now db).0 ≡ ok id
    → (db.repl_seq < id) × ((create_repl_task unique_failed t now db).1.repl_seq ≡ id)
unfolding create_repl_task
create_ok unique_failed t now db id h =
    let (rest, e) = statement_ok (insert_repl_task unique_failed t now) db h in
    rw e (insert_ok unique_failed t now (record db { faults = rest }) id (rw e at h))

-- A replication task that is created after another one has a larger id, whatever calls, deletions
-- included, come between, and whatever the driver answers to them.
pub later_id_larger :
    (unique_failed : Text) (t u : DbReplTask) (now later : Time) (cs : List ReplCall) (db : Db)
    (first second : ℕ)
    → (create_repl_task unique_failed t now db).0 ≡ ok first
    → (create_repl_task unique_failed u later
        (repl_calls cs (create_repl_task unique_failed t now db).1)).0
      ≡ ok second
    → first < second
later_id_larger unique_failed t u now later cs db first second h k =
    let (above, seq) = create_ok unique_failed t now db first h in
    let db₁ = (create_repl_task unique_failed t now db).1 in
    let kept = calls-AtLeast first cs db₁ (omega arith) in
    let (above', seq') = create_ok unique_failed u later (repl_calls cs db₁) second k in omega arith
