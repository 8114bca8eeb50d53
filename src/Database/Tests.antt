-- ===== src/Database/Tests.antt =====
-- The database of apps/use_sqlite at concrete inputs.
use communicate_between_proc.Prelude.{
  ℕ, ◌+◌, ◌≡◌, refl, true, none, some, List, [], ◌∷◌, pos, codes, Option,
}
use communicate_between_proc.Database.Sqlite.{integer, text}
use communicate_between_proc.Database.Statement
use communicate_between_proc.Database.Statement.{Person, insert_query, copy_content, create_writer}
use communicate_between_proc.Database.SqlDatabase
use communicate_between_proc.Database.SqlDatabase.{
  SqlDatabase, Call, write_call, flush_call, load_call, calls, open_database, destructor,
}
use communicate_between_proc.Database.Writing.{row}
use communicate_between_proc.Database.Refine.{opened_database, run_calls}
use communicate_between_proc.Database.Lifetime.{open_balance, lifetime_balance, calls_contents}
use communicate_between_proc.Database.Sample.{State, sample, sample-BackupsSucceed, empty}

abbrev tom : Person
tom = record { name = codes "Tom"; age = pos 26 }

abbrev path : List ℕ
path = codes "database.db"

abbrev session : List Call
session = write_call tom ∷ flush_call ∷ load_call ∷ write_call tom ∷ []

abbrev database : SqlDatabase
database = opened_database 0 1 1

-- The state in which `open` leaves the sample, and that behind the session.
abbrev opened_state : State
opened_state = elim (open_database sample path empty) [ none ↦ empty | some (r, d) ↦ d ]

abbrev session_state : State
session_state = elim (calls sample session database opened_state) [ none ↦ empty | some (b, d) ↦ d ]

opens : open_database sample path empty ≡ some (some database, opened_state)
unfolding open_database
opens = refl

succeeds : calls sample session database opened_state ≡ some (true, session_state)
unfolding calls SqlDatabase.call Statement.write
succeeds = refl

open_balance_example :
    (r : Option SqlDatabase) × (d' : State) × (open_database sample path empty ≡ some (r, d'))
    × (d'.seen.connections ≡ 0 + (elim r [ none ↦ 0 | some db ↦ 2 ]))
open_balance_example = open_balance sample sample-BackupsSucceed path empty

lifetime_balance_example :
    (d3 : State) × (destructor sample database session_state ≡ some d3) × (d3.seen.connections ≡ 0)
lifetime_balance_example =
    lifetime_balance sample sample-BackupsSucceed path session empty opened_state session_state
      database opens succeeds

calls_contents_example :
    (session_state.seen.content 1, session_state.seen.content 0)
    ≡ run_calls (λ person. sample.effect insert_query (row person)) session ([], [])
calls_contents_example =
    calls_contents sample sample-BackupsSucceed path session empty opened_state session_state
      database opens succeeds 0 1 refl refl

-- The age is the value for the column of the names, and the name that for the ages.
swapped_columns :
    run_calls
      (λ person. sample.effect insert_query (row person))
      (write_call tom ∷ flush_call ∷ [])
      ([], [])
    ≡ (
      (some (integer (pos 26)), some (text (codes "Tom"))) ∷ [],
      (some (integer (pos 26)), some (text (codes "Tom"))) ∷ [],
    )
unfolding Statement.until_zero
swapped_columns = refl
