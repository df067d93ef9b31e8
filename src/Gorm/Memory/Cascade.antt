-- ===== src/Gorm/Memory/Cascade.antt =====
-- A table in memory with a foreign key to itself that cascades: a `Delete` also takes the rows whose
-- parent goes, sweep by sweep, until nothing more goes; one sweep more than there are rows is allowed,
-- and a call that needed more would fail.
use todo_chat_app.Prelude.{
  ℕ, zero, suc, ◌≡◌, refl, ◌↔◌, ◌⊎◌, inl, inr, Bool, true, false, not, ◌||◌, Option, none, some,
  List, [], ◌∷◌, ◌++◌, length, Has, arith, sym, ap, ◌==◌, ==_iff, Bool-cases,
}
use todo_chat_app.Outcome.{Outcome, Error, ok, err, other}
use todo_chat_app.Gorm.Defs.{Table}
use todo_chat_app.Gorm.Laws.{ReadLaws, CascadeLaws, Falls, matched, orphaned}
use todo_chat_app.Gorm.Memory.{memory_table, memory-ReadLaws, memory-EditLaws}
use todo_chat_app.Gorm.Memory.Lists.{keep, Has-keep_to, Has-keep_from, Has-append}

module _ {R : Type 0} (key : R → ℕ) (parent : R → Option ℕ) (q : R → Bool) where
  -- The parent is among the rows.
  abbrev has_key : ℕ → List R → Bool
  has_key k [] = false
  has_key k (y ∷ ys) = k == key y || has_key k ys

  abbrev loses : Option ℕ → List R → Bool
  loses none gone = false
  loses (some k) gone = has_key k gone

  abbrev goes : List R → R → Bool
  goes gone x = q x || loses (parent x) gone

  -- The rows that stay, if the sweeps come to an end.
  unfoldable pub sweep : ℕ → List R → List R → Option (List R)
  unfolding keep
  sweep zero gone rest = none
  sweep (suc n) gone rest = elim (keep (goes gone) rest) [
    | [] ↦ some rest
    | y ∷ ys ↦ sweep n ((y ∷ ys) ++ gone) (keep (λ x. not (goes gone x)) rest)
  ]

  has_key_sound :
      (k : ℕ) (gone : List R) → has_key k gone ≡ true → (y : R) × Has y gone × (k ≡ key y)
  has_key_sound k [] h = cc
  has_key_sound k (y ∷ ys) h = elim (Bool-cases (k == key y)) [
    | inl hit ↦ (y, inl refl, (==_iff k (key y)).0 hit)
    | inr miss ↦ let (z, has, e) = has_key_sound k ys (rw miss at h) in (z, inr has, e)
  ]

  has_key_complete :
      (k : ℕ) (y : R) (gone : List R) → Has y gone → k ≡ key y → has_key k gone ≡ true
  has_key_complete k y [] has e = elim has [ ]
  has_key_complete k y (z ∷ gone) (inl same) e =
      let hit : (k == key z) ≡ true = (==_iff k (key z)).1 (rw same at e) in rw hit refl
  has_key_complete k y (z ∷ gone) (inr has) e =
      let rest = has_key_complete k y gone has e in ground (arith, rest)

  -- A split of the rows into those that go, all of which must, and the rest.
  record Split (rows gone rest : List R) : Type 0 where
    covers : (x : R) → Has x rows → Has x gone ⊎ Has x rest
    rest_old : (x : R) → Has x rest → Has x rows
    gone_old : (x : R) → Has x gone → Has x rows
    gone_falls : (x : R) → Has x gone → Falls key parent q rows x

  loses-Falls :
      (rows gone rest : List R) (x : R) (o : Option ℕ)
      → Split rows gone rest
      → parent x ≡ o
      → loses o gone ≡ true
      → Falls key parent q rows x
  loses-Falls rows gone rest x none s e h = cc
  loses-Falls rows gone rest x (some k) s e h =
      let (y, has, same) = has_key_sound k gone h in
      orphaned (s.gone_old y has) (rw same at e) (s.gone_falls y has)

  goes-Falls :
      (rows gone rest : List R) (x : R)
      → Split rows gone rest
      → goes gone x ≡ true
      → Falls key parent q rows x
  goes-Falls rows gone rest x s h = elim (Bool-cases (q x)) [
    | inl hit ↦ matched hit
    | inr miss ↦ loses-Falls rows gone rest x (parent x) s refl (rw miss at h)
  ]

  -- Where no row of the rest goes, no row of the rest must.
  stays :
      (rows gone rest : List R)
      → Split rows gone rest
      → keep (goes gone) rest ≡ []
      → (x : R) → Falls key parent q rows x
      → ¬ Has x rest
  stays rows gone rest s empty x (matched hit) has =
      let found = Has-keep_from (goes gone) x rest has (rw hit refl) in
      let none_there : Has x [] = rw empty at found in none_there
  stays rows gone rest s empty x (orphaned {y} old up falls) has = elim (s.covers y old) [
    | inr kept ↦ stays rows gone rest s empty y falls kept
    | inl lost ↦
        let hit : loses (parent x) gone ≡ true =
          rw up (has_key_complete (key y) y gone lost refl) in
        let found = Has-keep_from (goes gone) x rest has (ground (arith, hit)) in
        let none_there : Has x [] = rw empty at found in none_there
  ]

  Split-next :
      (rows gone rest : List R)
      → Split rows gone rest
      → Split rows (keep (goes gone) rest ++ gone) (keep (λ x. not (goes gone x)) rest)
  Split-next rows gone rest s = record {
    covers = λ x has. elim (s.covers x has) [
      | inl lost ↦ inl ((Has-append x (keep (goes gone) rest) gone).1 (inr lost))
      | inr kept ↦ elim (Bool-cases (goes gone x)) [
        | inl out ↦ inl (
            (Has-append x (keep (goes gone) rest) gone).1
              (inl (Has-keep_from (goes gone) x rest kept out)))
        | inr stay ↦ inr (Has-keep_from (λ x. not (goes gone x)) x rest kept (rw stay refl))
      ]
    ];
    rest_old = λ x has. s.rest_old x (Has-keep_to (λ x. not (goes gone x)) x rest has).0;
    gone_old = λ x has. elim ((Has-append x (keep (goes gone) rest) gone).0 has) [
      | inl new ↦ s.rest_old x (Has-keep_to (goes gone) x rest new).0
      | inr old ↦ s.gone_old x old
    ];
    gone_falls = λ x has. elim ((Has-append x (keep (goes gone) rest) gone).0 has) [
      | inl new ↦ goes-Falls rows gone rest x s (Has-keep_to (goes gone) x rest new).1
      | inr old ↦ s.gone_falls x old
    ];
  }

  abbrev Sweeps : List R → List R → Type 0
  Sweeps rows kept = (x : R) → Has x kept ↔ (Has x rows × (¬ Falls key parent q rows x))

  sweep-Sweeps :
      (n : ℕ) (rows gone rest kept : List R)
      → Split rows gone rest
      → sweep n gone rest ≡ some kept
      → Sweeps rows kept
  unfolding sweep
  sweep-Sweeps zero rows gone rest kept s h = cc
  sweep-Sweeps (suc n) rows gone rest kept s h =
      go (λ g r t e. sweep-Sweeps n rows g r kept t e) (keep (goes gone) rest) refl h
    where
      go :
          ((g r : List R) → Split rows g r → sweep n g r ≡ some kept → Sweeps rows kept)
          → (next : List R) → keep (goes gone) rest ≡ next
          → (elim next [
            | [] ↦ some rest
            | y ∷ ys ↦ sweep n ((y ∷ ys) ++ gone) (keep (λ x. not (goes gone x)) rest)
          ])
            ≡ some kept
          → Sweeps rows kept
      go again [] e h = λ x.
          let same : rest ≡ kept = cc in
          rw (← same) (
            λ has. (s.rest_old x has, λ falls. stays rows gone rest s e x falls has),
            λ k. elim (s.covers x k.0) [
              | inl lost ↦ absurd (k.1 (s.gone_falls x lost))
              | inr old ↦ old
            ],
          )
      go again (y ∷ ys) e h =
          again ((y ∷ ys) ++ gone) (keep (λ x. not (goes gone x)) rest)
            (rw e at (Split-next rows gone rest s)) h

  pub start_Sweeps : (n : ℕ) (rows kept : List R) → sweep n [] rows ≡ some kept → Sweeps rows kept
  start_Sweeps n rows kept h =
      sweep-Sweeps n rows [] rows kept
        record {
          covers = λ x has. inr has;
          rest_old = λ x has. has;
          gone_old = λ x has. elim has [ ];
          gone_falls = λ x has. elim has [ ];
        }
        h

module _ {W R : Type 0} (get : W → List R) (put : List R → W → W) (fill : R → W → R) (key : R → ℕ)
    (parent : R → Option ℕ) where
  abbrev removed : ℕ → W → Option (List R) → Outcome W ℕ
  removed n w none = err (other 0) w
  removed n w (some kept) = ok n (put kept w)

  unfoldable pub cascading_table : Table W R
  unfolding keep sweep memory_table
  cascading_table = record (memory_table get put fill key) {
    delete = λ q w.
        removed (length (keep q (get w))) w (sweep key parent q (suc (length (get w))) [] (get w));
  }

  pub cascading-ReadLaws : ReadLaws cascading_table.reader get
  unfolding cascading_table
  cascading-ReadLaws = memory-ReadLaws get put fill key

  module _ (Stored : R → R → Type 0) (get-put : (l : List R) (w : W) → get (put l w) ≡ l)
      (stored-fill : (r : R) (w : W) → Stored r (fill r w))
      (stored_refl : (r : R) → Stored r r) where
    removed_rows :
        (q : R → Bool) (m n : ℕ) (w v : W) (o : Option (List R))
        → sweep key parent q (suc (length (get w))) [] (get w) ≡ o
        → removed m w o ≡ ok n v
        → Sweeps key parent q (get w) (get v)
    removed_rows q m n w v none e h = cc
    removed_rows q m n w v (some kept) e h =
        let last : put kept w ≡ v = cc in
        rw (← last, get-put kept w) (start_Sweeps key parent q _ (get w) kept e)

    removed_err :
        (m : ℕ) (w v : W) (o : Option (List R)) (e : Error) → removed m w o ≡ err e v → w ≡ v
    removed_err m w v none e h = cc
    removed_err m w v (some kept) e h = cc

    pub cascading-CascadeLaws : CascadeLaws cascading_table get key parent Stored
    unfolding cascading_table
    cascading-CascadeLaws = record {
      edits =
          let e = memory-EditLaws get put fill key Stored get-put stored-fill stored_refl in
          record {
            create_rows = e.create_rows;
            create_err = e.create_err;
            save_rows = e.save_rows;
            save_err = e.save_err;
            update_rows = e.update_rows;
            update_count = e.update_count;
            update_err = e.update_err;
          };
      delete_rows = λ q w v n h. removed_rows q _ n w v _ refl h;
      delete_err = λ q w v e h. ap get (sym (removed_err _ w v _ e h));
    }
