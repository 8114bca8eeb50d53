-- ===== src/Database/Writing.antt =====
-- The insertion of a person of apps/use_sqlite.
use communicate_between_proc.Prelude.{
  ℕ, ◌≡◌, ◌≢◌, ap, ◌∙◌, fun_ext, ℕ_discrete, true, false, none, some, arith,
}
use communicate_between_proc.Database.Sqlite.{
  Sqlite, View, Stmt, Bindings, integer, text, put, bound, stepped, sqlite_done, sqlite_ok,
}
use communicate_between_proc.Database.Statement.{
  Person, PreparedStatement, insert_query, until_zero, write, insert, execute, reset, set_integer,
  set_text,
}

-- The parameters of an insertion: the first is the age, the second the name.
abbrev pub row : Person → Bindings
row person =
    put 2 (some (text (until_zero person.name))) (put 1 (some (integer person.age)) (λ i. none))

-- person_writer of a connection.
abbrev pub writer_stmt : ℕ → ℕ → Stmt
writer_stmt memory number = record { number = number; database = memory; query = insert_query }

abbrev pub writer : ℕ → ℕ → PreparedStatement
writer memory number = record {
  database_handle = some memory;
  stmt = some (writer_stmt memory number);
}

module _ {A : Type 0} where
  pub put_at : (i : ℕ) (a : A) (f : ℕ → A) → put i a f i ≡ a
  put_at i a f = ground arith

  pub put_other : (i j : ℕ) (a : A) (f : ℕ → A) → j ≢ i → put i a f j ≡ f j
  put_other i j a f h = ground (arith, h)

  put-put : (i : ℕ) (a b : A) (f : ℕ → A) → put i a (put i b f) ≡ put i a f
  put-put i a b f = fun_ext (λ j. ground arith)

module _ {D C : Type 0} (sqlite : Sqlite D C) (memory number : ℕ) (person : Person) (d : D) where
  abbrev age_bound : ℕ × D
  age_bound = sqlite.sqlite3_bind_int (writer_stmt memory number) 1 person.age d

  abbrev name_bound : ℕ × D
  name_bound =
      sqlite.sqlite3_bind_text (writer_stmt memory number) 2 (until_zero person.name) age_bound.1

  abbrev evaluated : ℕ × D
  evaluated = sqlite.sqlite3_step (writer_stmt memory number) name_bound.1

  write_codes :
      (d' : D)
      → write sqlite (writer memory number) person d ≡ some (true, d')
      → (age_bound.0 ≡ sqlite_ok)
        × (name_bound.0 ≡ sqlite_ok)
        × (evaluated.0 ≡ sqlite_done)
        × (d' ≡ (sqlite.sqlite3_reset (writer_stmt memory number) evaluated.1).1)
  unfolding write insert execute reset set_integer set_text
  write_codes d' h = (ground arith, ground arith, ground arith, ground arith)

  -- Where no other parameter is bound.
  row_lem :
      (old : Bindings)
      → ((i : ℕ) → i ≢ 1 → i ≢ 2 → old i ≡ none)
      → put 2 (some (text (until_zero person.name))) (put 1 (some (integer person.age)) old)
        ≡ row person
  row_lem old h = fun_ext (λ i. elim (ℕ_discrete i 1) [
    | yes e ↦ ground (arith, e)
    | no one ↦ elim (ℕ_discrete i 2) [
      | yes e ↦ ground (arith, e)
      | no two ↦ ground (arith, h i one two)
    ]
  ])

  -- The view behind an insertion.
  abbrev pub inserted : View C → View C
  inserted v = record v {
    content = put memory (sqlite.effect insert_query (row person) (v.content memory)) v.content;
    bindings = put number (row person) v.bindings;
    failed = put number false v.failed;
  }

  abbrev named : View C → View C
  named v = record v { bindings = put number (row person) v.bindings }

  named_lem :
      (v : View C)
      → ((i : ℕ) → i ≢ 1 → i ≢ 2 → v.bindings number i ≡ none)
      → bound
          (writer_stmt memory number)
          2
          (text (until_zero person.name))
          (bound (writer_stmt memory number) 1 (integer person.age) v)
        ≡ named v
  named_lem v h =
      ap (λ b. record v { bindings = b })
        (put-put number _ _ v.bindings
          ∙ ap (λ b. put number b v.bindings)
              (ap (λ b. put 2 (some (text (until_zero person.name))) b) (put_at number _ v.bindings)
                ∙ row_lem (v.bindings number) h))

  pub write-view :
      (d' : D)
      → ((i : ℕ) → i ≢ 1 → i ≢ 2 → (sqlite.view d).bindings number i ≡ none)
      → write sqlite (writer memory number) person d ≡ some (true, d')
      → sqlite.view d' ≡ inserted (sqlite.view d)
  write-view d' unbound h =
      let s = writer_stmt memory number in
      let (c1, c2, c3, e) = write_codes d' h in
      let v1 = sqlite.bind_int_ok s 1 person.age d c1 in
      let v2 = sqlite.bind_text_ok s 2 (until_zero person.name) age_bound.1 c2 in
      let v3 = sqlite.step_done s name_bound.1 c3 in
      let all_bound : sqlite.view name_bound.1 ≡ named (sqlite.view d) =
        v2
        ∙ ap (bound s 2 (text (until_zero person.name))) v1
        ∙ named_lem (sqlite.view d) unbound in
      let stepped_lem : sqlite.view evaluated.1 ≡ inserted (sqlite.view d) =
        v3
        ∙ ap (λ v. stepped s (sqlite.effect insert_query (v.bindings number) (v.content memory)) v)
            all_bound
        ∙ ap
            (λ b.
              stepped s (sqlite.effect insert_query b ((sqlite.view d).content memory))
                (named (sqlite.view d)))
            (put_at number (row person) (sqlite.view d).bindings) in
      let fine : (sqlite.view evaluated.1).failed number ≡ false =
        ap (λ v. v.failed number) stepped_lem ∙ put_at number false (sqlite.view d).failed in
      ap sqlite.view e ∙ sqlite.reset_lem s evaluated.1 fine ∙ stepped_lem
