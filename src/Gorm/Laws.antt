-- ===== src/Gorm/Laws.antt =====
-- What the proofs rely on of gorm and PostgreSQL: the documented effect of each call on the rows of
-- its table. `rows w` lists a table's rows, and `Stored r s` says that the database stores `s` for
-- the struct `r` (it fills in the key, the timestamps and the column defaults).
use todo_chat_app.Prelude.{
  ℕ, suc, ◌≤◌, ◌≡◌, ◌≢◌, ◌⊎◌, ◌↔◌, Bool, true, false, Option, some, List, length, Has, All,
  if◌then◌else◌,
}
use todo_chat_app.Prelude.Int.{pos}
use todo_chat_app.Outcome.{Outcome, answer, fails, ok, err, record_not_found, Error, Action}
use todo_chat_app.Model.{Time}
use todo_chat_app.Gorm.Defs.{Reader, Table, Db}

module _ {W R : Type 0} where
  pub record ReadLaws (t : Reader W R) (rows : W → List R) : Type 0 where
    pub first_has :
        (q : R → Bool) (w : W) (r : R) → t.first q w ≡ answer r → Has r (rows w) × (q r ≡ true)
    pub first_misses :
        (q : R → Bool) (w : W) (r : R)
        → t.first q w ≡ fails record_not_found
        → Has r (rows w)
        → q r ≡ false
    pub count_none :
        (q : R → Bool) (w : W) (r : R) → t.count q w ≡ answer 0 → Has r (rows w) → q r ≡ false
    pub count_some :
        (q : R → Bool) (w : W) (n : ℕ)
        → t.count q w ≡ answer (suc n)
        → (r : R) × Has r (rows w) × (q r ≡ true)
    pub page_rows :
        (less : R → R → Bool) (q : R → Bool) (w : W) (skip most : ℕ) (rs : List R)
        → t.page less q (pos skip) (pos (suc most)) w ≡ answer rs
        → All (λ r. Has r (rows w) × (q r ≡ true)) rs × (length rs ≤ suc most)

  -- What `Create`, `Save` and `Updates` do. The row of a `Save` has the key of the struct, unless that
  -- is the zero value.
  pub record EditLaws (t : Table W R) (rows : W → List R) (key : R → ℕ) (Stored : R → R → Type 0)
      : Type 0 where
    pub create_rows :
        (r s : R) (w v : W)
        → t.create r w ≡ ok s v
        → Stored r s × ((x : R) → Has x (rows v) ↔ ((x ≡ s) ⊎ Has x (rows w)))
    pub create_err : (r : R) (w v : W) (e : Error) → t.create r w ≡ err e v → rows v ≡ rows w
    pub save_rows :
        (r : R) (at : Time) (w v : W)
        → t.save r w ≡ ok at v
        → (s : R) × Stored r s
          × (key r ≢ 0 → key s ≡ key r)
          × ((x : R) → Has x (rows v) ↔ ((x ≡ s) ⊎ (Has x (rows w) × (key x ≢ key r))))
    pub save_err : (r : R) (w v : W) (e : Error) → t.save r w ≡ err e v → rows v ≡ rows w
    pub update_rows :
        (q : R → Bool) (f : R → R) (w v : W) (n : ℕ)
        → t.update q f w ≡ ok n v
        → (x : R) → Has x (rows v) ↔ ((y : R) × Has y (rows w) × (x ≡ (if q y then f y else y)))
    pub update_count :
        (q : R → Bool) (f : R → R) (w v : W) (x : R)
        → t.update q f w ≡ ok 0 v
        → Has x (rows w)
        → q x ≡ false
    pub update_err :
        (q : R → Bool) (f : R → R) (w v : W) (e : Error)
        → t.update q f w ≡ err e v
        → rows v ≡ rows w

  -- A table to which no foreign key of its own points: a `Delete` removes the rows that match.
  pub record WriteLaws (t : Table W R) (rows : W → List R) (key : R → ℕ) (Stored : R → R → Type 0)
      : Type 0 where
    pub edits : EditLaws t rows key Stored
    pub open edits use *
    pub delete_rows :
        (q : R → Bool) (w v : W) (n : ℕ)
        → t.delete q w ≡ ok n v
        → (x : R) → Has x (rows v) ↔ (Has x (rows w) × (q x ≡ false))
    pub delete_err : (q : R → Bool) (w v : W) (e : Error) → t.delete q w ≡ err e v → rows v ≡ rows w
    pub returning_rows :
        (q : R → Bool) (w v : W) (rs : List R)
        → t.delete_returning q w ≡ ok rs v
        → All (λ r. Has r (rows w) × (q r ≡ true)) rs
          × ((x : R) → Has x (rows v) ↔ (Has x (rows w) × (q x ≡ false)))
    pub returning_err :
        (q : R → Bool) (w v : W) (e : Error) → t.delete_returning q w ≡ err e v → rows v ≡ rows w

-- The rows that go with those that match `q`, where `parent` is declared
-- `REFERENCES … ON DELETE CASCADE` to the key of the same table.
pub data Falls {R : Type 0} (key : R → ℕ) (parent : R → Option ℕ) (q : R → Bool) (rows : List R)
    : R → Type 0 where
  matched : {x : R} → q x ≡ true → Falls key parent q rows x
  orphaned :
      {x y : R}
      → Has y rows
      → parent x ≡ some (key y)
      → Falls key parent q rows y
      → Falls key parent q rows x

module _ {W R : Type 0} where
  pub record CascadeLaws (t : Table W R) (rows : W → List R) (key : R → ℕ) (parent : R → Option ℕ)
      (Stored : R → R → Type 0) : Type 0 where
    pub edits : EditLaws t rows key Stored
    pub open edits use *
    pub delete_rows :
        (q : R → Bool) (w v : W) (n : ℕ)
        → t.delete q w ≡ ok n v
        → (x : R) → Has x (rows v) ↔ (Has x (rows w) × (¬ Falls key parent q (rows w) x))
    pub delete_err : (q : R → Bool) (w v : W) (e : Error) → t.delete q w ≡ err e v → rows v ≡ rows w

-- The state that a call leaves, whatever it returns.
abbrev pub state_of : {W A : Type 0} → Outcome W A → W
state_of (ok a v) = v
state_of (err e v) = v

-- An action leaves the rows of a table as they are.
abbrev pub Keeps : {W A S : Type 0} → (W → List S) → Action W A → Type 0
Keeps {W} rows m = (w : W) → rows (state_of (m w)) ≡ rows w

-- `db.Transaction(fn)` commits what `fn` did if it returns no error, and else rolls the tables back.
pub record TransactionLaws {W S : Type 0} (db : Db W) (rows : W → List S) : Type 1 where
  pub commits :
      (A : Type 0) (m : Action W A) (a : A) (w v : W) → db.transaction m w ≡ ok a v → m w ≡ ok a v
  pub rolls_back :
      (A : Type 0) (m : Action W A) (e : Error) (w v : W)
      → db.transaction m w ≡ err e v
      → rows v ≡ rows w
