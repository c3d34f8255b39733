-- ===== src/Store/Migrate.antt =====
-- `Migrate` of internal/store/postgres.go. The embedded directory is a parameter, and so is the
-- database, with what a script makes of it.
use public_transport_tracker.Base.{
  ◌≡◌, ◌⊎◌, refl, ap, Bool, true, false, Option, none, some, List, [], ◌∷◌, ◌++◌, String,
  if◌then◌else◌, Bool-cases, Option-cases, inl, inr, arith,
}

-- `content` is `none` where the file cannot be read.
pub record Entry : Type 0 where
  pub name : String
  pub is_dir : Bool
  pub content : Option String

pub data MigrateError : Type 0 where
  read_failed execute_failed : String → MigrateError

module _ {D : Type 0} (exec : String → D → Option D) where
  -- The loop over the entries of the directory.
  unfoldable pub migrate_range : List Entry → D → D × Option MigrateError
  migrate_range [] db = (db, none)
  migrate_range (entry ∷ entries) db =
      let skipped = migrate_range entries db in
      if entry.is_dir then skipped else elim entry.content [
        | none ↦ (db, some (read_failed entry.name))
        | some script ↦ elim (exec script db) [
          | none ↦ (db, some (execute_failed entry.name))
          | some db' ↦ migrate_range entries db'
        ]
      ]

  -- `entries` is `none` where the directory cannot be read.
  unfoldable pub migrate : Option (List Entry) → D → D × Option MigrateError
  unfolding migrate_range
  migrate none db = (db, some (read_failed "migrations"))
  migrate (some entries) db = migrate_range entries db

  -- The scripts of the entries, executed one after the other; a directory has none.
  pub data Executes : List Entry → D → D → Type 0 where
    finished : {db : D} → Executes [] db db
    directory :
        {entry : Entry} {entries : List Entry} {db db' : D}
        → entry.is_dir ≡ true
        → Executes entries db db'
        → Executes (entry ∷ entries) db db'
    script :
        {entry : Entry} {entries : List Entry} {text : String} {db db1 db' : D}
        → entry.is_dir ≡ false
        → entry.content ≡ some text
        → exec text db ≡ some db1
        → Executes entries db1 db'
        → Executes (entry ∷ entries) db db'

  -- The entry is no directory, and it cannot be read, or the database refuses its script.
  pub data FailsAt (entry : Entry) (db : D) : MigrateError → Type 0 where
    unreadable :
        entry.is_dir ≡ false → entry.content ≡ none → FailsAt entry db (read_failed entry.name)
    refused :
        (text : String)
        → entry.is_dir ≡ false
        → entry.content ≡ some text
        → exec text db ≡ none
        → FailsAt entry db (execute_failed entry.name)

  -- How far a migration comes.
  abbrev pub Stops : List Entry → D → D × Option MigrateError → Type 0
  Stops entries db (db', error) =
      (before : List Entry) × (rest : List Entry) × (entries ≡ before ++ rest)
      × Executes before db db'
      × (((error ≡ none) × (rest ≡ []))
          ⊎ ((entry : Entry) × (after : List Entry) × (failure : MigrateError) × (rest
                ≡ entry ∷ after)
              × (error ≡ some failure)
              × FailsAt entry db' failure))

  -- A migration executes the scripts of the first entries in their order, each on what the one
  -- before has made of the database: of all entries where it returns no error, and else of those before
  -- the first entry that is no directory and cannot be read, or whose script the database refuses as
  -- they have left it; the error says which of the two, with the name of this entry. What they have done
  -- stays done.
  pub migrate_range-Stops :
      (entries : List Entry) (db : D) → Stops entries db (migrate_range entries db)
  unfolding migrate_range
  migrate_range-Stops [] db = ([], [], refl, finished, inl (refl, refl))
  migrate_range-Stops (entry ∷ entries) db =
      let here : List Entry = entry ∷ entries in
      elim (Bool-cases entry.is_dir) [
        | inl d ↦
            let step : migrate_range here db ≡ migrate_range entries db = ground arith in
            let (before, rest, e, x, end) = migrate_range-Stops entries db in
            rw step (entry ∷ before, rest, ap (λ l. entry ∷ l) e, directory d x, end)
        | inr d ↦ elim (Option-cases entry.content) [
          | inl c ↦
              let step : migrate_range here db ≡ (db, some (read_failed entry.name)) =
                ground arith in
              rw step
                ([], here, refl, finished, inr (entry, entries, _, refl, refl, unreadable d c))
          | inr (text, c) ↦ elim (Option-cases (exec text db)) [
            | inl x ↦
                let step : migrate_range here db ≡ (db, some (execute_failed entry.name)) =
                  ground arith in
                rw step (
                  [],
                  here,
                  refl,
                  finished,
                  inr (entry, entries, _, refl, refl, refused text d c x),
                )
            | inr (db1, x) ↦
                let step : migrate_range here db ≡ migrate_range entries db1 = ground arith in
                let (before, rest, e, xs, end) = migrate_range-Stops entries db1 in
                rw step (entry ∷ before, rest, ap (λ l. entry ∷ l) e, script d c x xs, end)
          ]
        ]
      ]
