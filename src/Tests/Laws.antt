-- ===== src/Tests/Laws.antt =====
-- Transactions of the world in memory.
use todo_chat_app.Prelude.{◌≡◌, List}
use todo_chat_app.Outcome.{Outcome, Error, ok, err}
use todo_chat_app.Gorm.Laws.{TransactionLaws}
use todo_chat_app.Tests.World.{World, db, undo_on_error}

undo_keeps :
    {S : Type 0} (rows : World → List S) (A : Type 0) (o : Outcome World A) (e : Error)
    (w v : World)
    → undo_on_error w o ≡ err e v
    → rows v ≡ rows w
undo_keeps rows A (ok a u) e w v h = cc
undo_keeps rows A (err x u) e w v h = let same : w ≡ v = cc in rw same

undo_commits :
    (A : Type 0) (o : Outcome World A) (a : A) (w v : World)
    → undo_on_error w o ≡ ok a v
    → o ≡ ok a v
undo_commits A (ok b u) a w v h = h
undo_commits A (err x u) a w v h = cc

pub transaction_laws : {S : Type 0} (rows : World → List S) → TransactionLaws db rows
transaction_laws rows = record {
  commits = λ A m a w v h. undo_commits A (m w) a w v h;
  rolls_back = λ A m e w v h. undo_keeps rows A (m w) e w v h;
}
