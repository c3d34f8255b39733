-- ===== src/Gtfs/Schema.antt =====
-- internal/store/migrations/001_gtfs_schema.sql: the primary and the foreign keys and the INTEGER
-- columns, as the database that they make of the tables.
use public_transport_tracker.Base.{
  string_eq, nat_eq, Bool, true, false, not, ◌&&◌, ◌||◌, none, some, List, [], ◌∷◌, ◌++◌, String,
  ◌==◌, is_empty, ltb,
}
use public_transport_tracker.Base.Int.{ℤ, pos, negsuc, int_eq}
use public_transport_tracker.Gtfs.{
  Table, agencies, routes, stops, shapes, trips, stop_times, calendar, calendar_dates, Row, agency,
  route, stop, shape, trip, stop_time, service, service_date, Tables, Database, begin, commit,
  delete_from, prepare, insert,
}

-- The other tables whose rows refer to rows of a table.
abbrev pub referring : Table → List Table
referring agencies = routes ∷ []
referring routes = trips ∷ []
referring stops = stop_times ∷ []
referring shapes = trips ∷ []
referring trips = stop_times ∷ []
referring stop_times = []
referring calendar = []
referring calendar_dates = []

abbrev pub is_integer : ℤ → Bool
is_integer (pos n) = ltb n 2_147_483_648
is_integer (negsuc n) = ltb n 2_147_483_648

module _ {F : Type 0} where
  abbrev pub any_row : (Row F → Bool) → List (Row F) → Bool
  any_row test [] = false
  any_row test (row ∷ rows) = test row || any_row test rows

  -- PRIMARY KEY
  abbrev pub same_key : Row F → Row F → Bool
  same_key (agency i _ _ _ _ _) (agency j _ _ _ _ _) = i == j
  same_key (route i _ _ _ _ _ _ _) (route j _ _ _ _ _ _ _) = i == j
  same_key (stop i _ _ _ _ _ _) (stop j _ _ _ _ _ _) = i == j
  same_key (shape i _) (shape j _) = i == j
  same_key (trip i _ _ _ _ _ _) (trip j _ _ _ _ _ _) = i == j
  same_key (stop_time i _ m _ _ _ _) (stop_time j _ n _ _ _ _) = i == j && m == n
  same_key (service i _ _ _ _ _ _ _ _ _) (service j _ _ _ _ _ _ _ _ _) = i == j
  same_key (service_date i s _) (service_date j t _) = i == j && s == t
  same_key _ _ = false

  -- A row of a table with one text for its key, which is this one.
  abbrev pub has_id : String → Row F → Bool
  has_id id (agency i _ _ _ _ _) = i == id
  has_id id (route i _ _ _ _ _ _ _) = i == id
  has_id id (stop i _ _ _ _ _ _) = i == id
  has_id id (shape i _) = i == id
  has_id id (trip i _ _ _ _ _ _) = i == id
  has_id id _ = false

  abbrev pub knows : String → List (Row F) → Bool
  knows id rows = any_row (has_id id) rows

  -- REFERENCES, to other tables
  abbrev pub has_links : Table → Row F → Tables F → Bool
  has_links routes (route _ a _ _ _ _ _ _) db = knows a (db agencies)
  has_links trips (trip _ r _ _ _ _ none) db = knows r (db routes)
  has_links trips (trip _ r _ _ _ _ (some s)) db = knows r (db routes) && knows s (db shapes)
  has_links stop_times (stop_time t s _ _ _ _ _) db = knows t (db trips) && knows s (db stops)
  has_links _ _ db = true

  -- parent_station TEXT REFERENCES stops(stop_id): a stop may be its own parent.
  abbrev pub has_parent : Row F → List (Row F) → Bool
  has_parent (stop i _ _ _ (some p) _ _) rows = i == p || knows p rows
  has_parent _ rows = true

  -- The INTEGER columns hold 32 bits.
  abbrev pub has_integers : Row F → Bool
  has_integers (route _ _ _ _ route_type _ _ sort_order) =
      is_integer route_type && is_integer sort_order
  has_integers (stop _ _ _ location_type _ _ _) = is_integer location_type
  has_integers (trip _ _ _ _ _ direction_id _) = is_integer direction_id
  has_integers (stop_time _ _ sequence _ _ pickup_type drop_off_type) =
      is_integer sequence && (is_integer pickup_type && is_integer drop_off_type)
  has_integers (service_date _ _ exception_type) = is_integer exception_type
  has_integers _ = true

  -- What a row must meet, beside the rows that the table has.
  abbrev pub fits_row : Table → Row F → List (Row F) → Tables F → Bool
  fits_row t row rows db =
      has_integers row
      && (not (any_row (same_key row) rows) && (has_parent row rows && has_links t row db))

  abbrev pub all_empty : List Table → Tables F → Bool
  all_empty [] db = true
  all_empty (t ∷ tables) db = is_empty (db t) && all_empty tables db

  -- The database, which checks the integers and the keys of each statement.
  unfoldable pub schema : Database F
  schema begin db = true
  schema commit db = true
  schema (prepare t) db = true
  schema (delete_from t) db = all_empty (referring t) db
  schema (insert t row) db = fits_row t row (db t) db

  -- The rows of a table, if each of them has a key of its own, integers of 32 bits and its parent before it,
  -- and refers to rows that there are.
  abbrev pub fits_rows : Table → List (Row F) → List (Row F) → Tables F → Bool
  fits_rows t before [] db = true
  fits_rows t before (row ∷ rows) db =
      let rest = fits_rows t (before ++ row ∷ []) rows db in fits_row t row before db && rest
