-- ===== src/Tests/StoreTests.antt =====
-- The store over a small database, and an answer of the API with it.
use public_transport_tracker.Base.{
  string_eq, nat_eq, ℕ, ◌+◌, true, false, Option, none, some, List, [], ◌∷◌, String, if◌then◌else◌,
  ◌==◌,
}
use public_transport_tracker.Store.Migrate.{Entry, migrate_range, Stops, migrate_range-Stops}

abbrev count_scripts : String → ℕ → Option ℕ
count_scripts script n = if script == "bad" then none else some (n + 1)

abbrev migrations : List Entry
migrations =
    record { name = "001"; is_dir = false; content = some "good" }
    ∷ record { name = "old"; is_dir = true; content = none }
    ∷ record { name = "002"; is_dir = false; content = some "bad" }
    ∷ record { name = "003"; is_dir = false; content = some "good" }
    ∷ []

migrate_range-Stops_example :
    Stops count_scripts migrations 0 (migrate_range count_scripts migrations 0)
migrate_range-Stops_example = migrate_range-Stops count_scripts migrations 0
