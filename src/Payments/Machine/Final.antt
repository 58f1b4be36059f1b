-- ===== src/Payments/Machine/Final.antt =====
-- What holds of orders after any sequence of methods.
use ruznamo_backend.Common.{refl, sym, ◌∙◌, ◌∙◌, sym, ℕ, ◌≡◌, some, List}
use ruznamo_backend.Db.{OrderStatus, Db, Order}
use ruznamo_backend.Payments.Orders.{order_of}
use ruznamo_backend.Payments.Machine.{
  stays, cancelled, submitted, resubmitted, approved, approved_unreviewed, rejected_pending,
  rejected_submitted, rejected_reviewed, rejected_cancelled, Reach, here, next, Reach, Moves, Step,
  starts, attaches, cancels, submits, approves, rejects,
}
use ruznamo_backend.Payments.Machine.Status.{
  attach_moves, cancel_moves, submit_moves, approve_moves, reject_moves,
}
use ruznamo_backend.Payments.Machine.Allowed.{IdsUnique}
use ruznamo_backend.Payments.Machine.Unique.{Step-IdsUnique}
use ruznamo_backend.Payments.Machine.Start.{start_moves}

-- Where ids of orders are unique, no method on orders, run alone, loses an order, and each leaves an
-- order's status or moves it by one step of Moves: from pending to cancelled, under review or rejected,
-- from a submitted receipt to under review, completed or rejected, from under review to completed or
-- rejected, and from cancelled to rejected.
pub Step-Moves :
    (hash : List ℕ → ℕ) (db db' : Db) (id : ℕ) (o : Order)
    → Step hash db db'
    → IdsUnique db.orders
    → order_of db id ≡ some o
    → (o' : Order) × (order_of db' id ≡ some o') × Moves o.status o'.status
unfolding order_of
Step-Moves hash db db' id o (starts db₁ now new user_id plan_id period fresh) unique found =
    start_moves db now new user_id plan_id period id o found
Step-Moves hash db db' id o (attaches db₁ now order_id user_id m) unique found =
    attach_moves db id o found now order_id user_id m
Step-Moves hash db db' id o (cancels db₁ now user_id order_id) unique found =
    cancel_moves db id o found now user_id order_id
Step-Moves hash db db' id o (submits db₁ now new input) unique found =
    submit_moves db id o found now new input unique
Step-Moves hash db db' id o (approves db₁ now new raw order_id actor) unique found =
    approve_moves db id o found hash now new raw order_id actor
Step-Moves hash db db' id o (rejects db₁ now order_id actor input) unique found =
    reject_moves db id o found now order_id actor input

-- A settled order: completed, approved or rejected.
abbrev pub IsFinal : OrderStatus → Type 0
IsFinal OrderStatus.completed = Unit
IsFinal OrderStatus.approved = Unit
IsFinal OrderStatus.rejected = Unit
IsFinal _ = ⊥

Moves-final : {s t : OrderStatus} → Moves s t → IsFinal s → s ≡ t
Moves-final (stays s) f = refl
Moves-final cancelled f = absurd f
Moves-final submitted f = absurd f
Moves-final resubmitted f = absurd f
Moves-final approved f = absurd f
Moves-final approved_unreviewed f = absurd f
Moves-final rejected_pending f = absurd f
Moves-final rejected_submitted f = absurd f
Moves-final rejected_reviewed f = absurd f
Moves-final rejected_cancelled f = absurd f

-- Where ids of orders are unique, whatever methods follow, each run alone, an order that is
-- completed, approved or rejected is still there with that status, and ids are still unique.
pub final_for_good :
    (hash : List ℕ → ℕ) (db db' : Db) (id : ℕ) (o : Order)
    → Reach hash db db'
    → IdsUnique db.orders
    → order_of db id ≡ some o
    → IsFinal o.status
    → ((o' : Order) × (order_of db' id ≡ some o') × (o'.status ≡ o.status)) × IdsUnique db'.orders
final_for_good hash db db' id o here unique found final = ((o, found, refl), unique)
final_for_good hash db db' id o (next {mid} r st) unique found final =
    let (kept_order, unique') = final_for_good hash db mid id o r unique found final in
    let (o₁, found₁, same₁) = kept_order in
    let (o₂, found₂, moves) = Step-Moves hash mid db' id o₁ st unique' found₁ in
    let stuck = Moves-final moves (rw same₁ final) in
    ((o₂, found₂, sym stuck ∙ same₁), Step-IdsUnique hash mid db' st unique')
