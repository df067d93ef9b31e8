-- ===== src/Gorm/Memory.antt =====
-- A database in memory that keeps the laws: a list for each table. It shows that the laws can hold
-- together, and it runs the services in tests. It never fails; keys are handed out in order.
mod Lists
pub mod Cascade
use todo_chat_app.Prelude.{
  ℕ, zero, suc, ◌+◌, ◌≤◌, ◌≡◌, ◌≢◌, refl, sym, ◌∙◌, ap, subst, ◌↔◌, ◌⊎◌, inl, inr, Bool, true,
  false, not, List, [], ◌∷◌, map, length, Has, All, arith, if◌then◌else◌, ◌==◌, ==_iff, Bool-cases,
}
use todo_chat_app.Prelude.Int.{ℤ, pos, negsuc}
use todo_chat_app.Outcome.{Answer, answer, fails, Outcome, ok, err, record_not_found}
use todo_chat_app.Gorm.Defs.{Reader, Table}
use todo_chat_app.Gorm.Laws.{ReadLaws, EditLaws, WriteLaws}
use Lists.{
  keep, head_or_missing, take, drop, Has-keep_to, Has-keep_from, Has-map, All-keep, All-drop,
  All-take, length-take,
}

-- An `Offset` or a `Limit` that is negative is left out of the query.
unfoldable pub paged : {R : Type 0} → ℤ → ℤ → List R → List R
paged (pos o) (pos l) rs = take l (drop o rs)
paged (pos o) (negsuc l) rs = drop o rs
paged (negsuc o) (pos l) rs = take l rs
paged (negsuc o) (negsuc l) rs = rs

module _ {W R : Type 0} (get : W → List R) (put : List R → W → W) (fill : R → W → R)
    (key : R → ℕ) where
  memory_reader : Reader W R
  unfolding keep head_or_missing take drop paged
  memory_reader = record {
    first = λ q w. head_or_missing (keep q (get w));
    first_by = λ less q w. head_or_missing (keep q (get w));
    count = λ q w. answer (length (keep q (get w)));
    find = λ less q w. answer (keep q (get w));
    page = λ less q o l w. answer (paged o l (keep q (get w)));
  }

  other_key : R → R → Bool
  other_key r x = not (key x == key r)

  unfoldable pub memory_table : Table W R
  unfolding memory_reader other_key
  memory_table = record {
    reader = memory_reader;
    create = λ r w. ok (fill r w) (put (fill r w ∷ get w) w);
    save = λ r w. ok 0 (put (r ∷ keep (other_key r) (get w)) w);
    update =
        λ q g w. ok (length (keep q (get w))) (put (map (λ y. if q y then g y else y) (get w)) w);
    delete = λ q w. ok (length (keep q (get w))) (put (keep (λ y. not (q y)) (get w)) w);
    delete_returning = λ q w. ok (keep q (get w)) (put (keep (λ y. not (q y)) (get w)) w);
  }

  head-Has :
      (q : R → Bool) (l : List R) (r : R)
      → head_or_missing (keep q l) ≡ answer r
      → Has r l × (q r ≡ true)
  unfolding head_or_missing
  head-Has q l r h = Has-keep_to q r l (first_of (keep q l) h)
    where
      first_of : (k : List R) → head_or_missing k ≡ answer r → Has r k
      first_of [] h = cc
      first_of (x ∷ k) h = inl (cc)

  no_head : (q : R → Bool) (l : List R) (r : R) → keep q l ≡ [] → Has r l → q r ≡ false
  no_head q l r h has = elim (Bool-cases (q r)) [
    | inl hit ↦ absurd (subst (Has r) h (Has-keep_from q r l has hit))
    | inr miss ↦ miss
  ]

  empty_of_missing : (k : List R) → head_or_missing k ≡ fails record_not_found → k ≡ []
  unfolding head_or_missing
  empty_of_missing [] h = refl
  empty_of_missing (x ∷ k) h = cc

  empty_of_length : (k : List R) → length k ≡ 0 → k ≡ []
  empty_of_length [] h = refl
  empty_of_length (x ∷ k) h = absurd (omega arith)

  some_of_length : (k : List R) (n : ℕ) → length k ≡ suc n → (r : R) × Has r k
  some_of_length [] n h = absurd (omega arith)
  some_of_length (x ∷ k) n h = (x, inl refl)

  pub memory-ReadLaws : ReadLaws memory_table.reader get
  unfolding memory_table paged
  memory-ReadLaws = record {
    first_has = λ q w r h. head-Has q (get w) r h;
    first_misses = λ q w r h. no_head q (get w) r (empty_of_missing (keep q (get w)) h);
    count_none = λ q w r h. no_head q (get w) r (empty_of_length (keep q (get w)) (counts h));
    count_some = λ q w n h.
        let (r, has) = some_of_length (keep q (get w)) n (counts h) in
        let (old, hit) = Has-keep_to q r (get w) has in (r, old, hit);
    page_rows = λ less q w o l rs h.
        let same : paged (pos o) (pos (suc l)) (keep q (get w)) ≡ rs = cc in
        rw (← same) (
          All-take (suc l) (drop o (keep q (get w))) _
              (All-drop o (keep q (get w)) _ (All-keep q (get w) _ (λ x has hit. (has, hit)))),
          length-take (suc l) (drop o (keep q (get w))),
        );
  }
    where
      counts : {a b : ℕ} → ◌≡◌ {A = Answer ℕ} (answer a) (answer b) → a ≡ b
      counts h = cc

  other_key_iff : (r x : R) → (other_key r x ≡ true) ↔ (key x ≢ key r)
  unfolding other_key
  other_key_iff r x = ground arith

  not_iff : (b : Bool) → (not b ≡ true) ↔ (b ≡ false)
  not_iff b = ground arith

  Has-others :
      (r x : R) (l : List R)
      → ((x ≡ r) ⊎ Has x (keep (other_key r) l)) ↔ ((x ≡ r) ⊎ (Has x l × (key x ≢ key r)))
  Has-others r x l = (
    elim [
      | inl e ↦ inl e
      | inr k ↦
          let (has, other) = Has-keep_to (other_key r) x l k in
          inr (has, (other_key_iff r x).0 other)
    ],
    elim [
      | inl e ↦ inl e
      | inr k ↦ inr (Has-keep_from (other_key r) x l k.0 ((other_key_iff r x).1 k.1))
    ],
  )

  Has-rest :
      (q : R → Bool) (x : R) (l : List R)
      → Has x (keep (λ y. not (q y)) l) ↔ (Has x l × (q x ≡ false))
  Has-rest q x l = (
    λ h. let (has, miss) = Has-keep_to (λ y. not (q y)) x l h in (has, (not_iff (q x)).0 miss),
    λ h. Has-keep_from (λ y. not (q y)) x l h.0 ((not_iff (q x)).1 h.1),
  )

  module _ (Stored : R → R → Type 0) (get-put : (l : List R) (w : W) → get (put l w) ≡ l)
      (stored-fill : (r : R) (w : W) → Stored r (fill r w))
      (stored_refl : (r : R) → Stored r r) where
    after_put :
        {A : Type 0} (a b : A) (l : List R) (w v : W)
        → ◌≡◌ {A = Outcome W A} (ok a (put l w)) (ok b v)
        → get v ≡ l
    after_put a b l w v h = let e : put l w ≡ v = cc in rw (← e) (get-put l w)

    pub memory-EditLaws : EditLaws memory_table get key Stored
    unfolding memory_table
    memory-EditLaws = record {
      create_rows = λ r s w v h.
          let e : fill r w ≡ s = cc in
          (
            rw (← e) (stored-fill r w),
            λ x. rw (after_put (fill r w) s _ w v h, e) (λ k. k, λ k. k),
          );
      create_err = λ r w v e h. cc;
      save_rows = λ r at w v h.
          (r, stored_refl r, λ _. refl, λ x. rw (after_put 0 at _ w v h) (Has-others r x (get w)));
      save_err = λ r w v e h. cc;
      update_rows = λ q g w v n h x. rw (after_put _ n _ w v h) (Has-map _ x (get w));
      update_count = λ q g w v x h has.
          let e : length (keep q (get w)) ≡ 0 = cc in
          no_head q (get w) x (empty_of_length (keep q (get w)) e) has;
      update_err = λ q g w v e h. cc;
    }

    pub memory-WriteLaws : WriteLaws memory_table get key Stored
    unfolding memory_table
    memory-WriteLaws = record {
      edits = memory-EditLaws;
      delete_rows = λ q w v n h x. rw (after_put _ n _ w v h) (Has-rest q x (get w));
      delete_err = λ q w v e h. cc;
      returning_rows = λ q w v rs h.
          let e : keep q (get w) ≡ rs = cc in
          (
            rw (← e) (All-keep q (get w) _ (λ x has hit. (has, hit))),
            λ x. rw (after_put _ rs _ w v h) (Has-rest q x (get w)),
          );
      returning_err = λ q w v e h. cc;
    }
