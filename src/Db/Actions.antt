-- ===== src/Db/Actions.antt =====
-- A service method reads and changes the tables and answers a value or an exception. What was
-- committed before a throw stays; a throw inside a transaction takes the transaction back.
use ruznamo_backend.Common.{ℕ, String, Result, ok, err, insert}
use ruznamo_backend.Db.Enums.{ActorType}
use ruznamo_backend.Db.Tables.{Db}

abbrev pub Action : Type 0 → Type 0
Action A = Db → Result A × Db

abbrev pub settle : {A : Type 0} → Db → Result (A × Db) → Result A × Db
settle db (ok (a, db')) = (ok a, db')
settle db (err e) = (err e, db)

-- prisma.$transaction
abbrev pub transaction : {A : Type 0} → (Db → Result (A × Db)) → Action A
transaction t db = settle db (t db)

-- The rest of the method, after a step that may have thrown.
abbrev pub and_then : {A B : Type 0} → Result A × Db → (A → Action B) → Result B × Db
and_then (ok a, db) k = k a db
and_then (err e, db) k = (err e, db)

-- AuditService.log
unfoldable pub log : ActorType → ℕ → String → ℕ → Db → Db
log actor_type actor_id action entity_id db = record db {
  audit =
      insert
        (record {
          actor_type = actor_type;
          actor_id = actor_id;
          action = action;
          entity_id = entity_id;
        })
        db.audit;
}

-- The tables after a method: an exception of a method in one transaction leaves them as they were.
abbrev pub kept : {A : Type 0} → Db → Result (A × Db) → Db
kept db (ok (a, db')) = db'
kept db (err e) = db
