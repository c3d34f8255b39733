-- ===== src/Gtfs.antt =====
-- internal/gtfs/importer.go: the import of a GTFS archive into the database. Here: the tables, their
-- rows, and the SQL statements of the importer.
pub mod Csv
pub mod Rows
pub mod Shapes
pub mod Importer
pub mod Schema
use public_transport_tracker.Base.{
  nat_eq, ℕ, ◌≡◌, refl, sym, ap, ◌∙◌, Bool, true, false, Option, none, some, List, [], ◌∷◌, ◌++◌,
  String, if◌then◌else◌, nat_beq, nat_beq_iff, Comparable, ◌==◌, ◌↔◌, get_or, get_elem?,
}
use public_transport_tracker.Base.Int.{ℤ}
use public_transport_tracker.Vehicle.{Time}

pub data Table : Type 0 where
  agencies routes stops shapes trips stop_times calendar calendar_dates : Table

abbrev number_of : Table → ℕ
number_of agencies = 0
number_of routes = 1
number_of stops = 2
number_of shapes = 3
number_of trips = 4
number_of stop_times = 5
number_of calendar = 6
number_of calendar_dates = 7

abbrev all_tables : List Table
all_tables =
    agencies ∷ routes ∷ stops ∷ shapes ∷ trips ∷ stop_times ∷ calendar ∷ calendar_dates ∷ []

abbrev table_of : ℕ → Table
table_of n = get_or (get_elem? all_tables n) agencies

table_of-number : (t : Table) → table_of (number_of t) ≡ t
table_of-number agencies = refl
table_of-number routes = refl
table_of-number stops = refl
table_of-number shapes = refl
table_of-number trips = refl
table_of-number stop_times = refl
table_of-number calendar = refl
table_of-number calendar_dates = refl

abbrev pub table_beq : Table → Table → Bool
table_beq t u = nat_beq (number_of t) (number_of u)

pub table_beq_iff : (t u : Table) → (table_beq t u ≡ true) ↔ (t ≡ u)
table_beq_iff t u = (
  λ e.
      sym (table_of-number t)
      ∙ ap table_of ((nat_beq_iff (number_of t) (number_of u)).0 e)
      ∙ table_of-number u,
  λ e. (nat_beq_iff (number_of t) (number_of u)).1 (ap number_of e),
)

instance abbrev pub table_eq : Comparable Table
table_eq = record { equal = table_beq; equal_iff = table_beq_iff }

-- The rows, by the parameters of the INSERT statements in their order. `none` is NULL.
pub data Row (F : Type 0) : Type 0 where
  agency : (agency_id name url timezone lang phone : String) → Row F
  route :
      (route_id agency_id short_name long_name : String) (route_type : ℤ)
      (color text_color : String) (sort_order : ℤ)
      → Row F
  stop :
      (stop_id stop_code stop_name : String) (location_type : ℤ) (parent_station : Option String)
      (lon lat : F)
      → Row F
  shape : (shape_id line_string : String) → Row F
  trip :
      (trip_id route_id service_id headsign short_name : String) (direction_id : ℤ)
      (shape_id : Option String)
      → Row F
  stop_time :
      (trip_id stop_id : String) (stop_sequence : ℤ) (arrival_time departure_time : String)
      (pickup_type drop_off_type : ℤ)
      → Row F
  service :
      (service_id : String) (monday tuesday wednesday thursday friday saturday sunday : Bool)
      (start_date end_date : Time)
      → Row F
  service_date : (service_id : String) (date : Time) (exception_type : ℤ) → Row F

-- The rows of each table, in the order of their insertion.
abbrev pub Tables : Type 0 → Type 0
Tables F = Table → List (Row F)

-- What the database is asked, in the order of the calls.
pub data Statement (F : Type 0) : Type 0 where
  begin commit : Statement F
  delete_from prepare : Table → Statement F
  insert : Table → Row F → Statement F

-- The database decides whether a statement succeeds, by its constraints and its connection.
abbrev pub Database : Type 0 → Type 0
Database F = Statement F → Tables F → Bool

module _ {F : Type 0} where
  -- DELETE FROM t
  abbrev pub delete_all : Table → Tables F → Tables F
  delete_all t db u = if t == u then [] else db u

  abbrev pub insert_row : Table → Row F → Tables F → Tables F
  insert_row t row db u = if t == u then db u ++ row ∷ [] else db u
