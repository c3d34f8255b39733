-- ===== src/Store.antt =====
-- internal/store/queries.go and postgres.go: the queries, and how their rows become values. The
-- database, and the conversions of `Scan`, are parameters. internal/gtfs/models.go: `Route`.
pub mod Scan
pub mod Queries
pub mod Select
pub mod Imported
pub mod Answers
pub mod Migrate
pub mod Open
use public_transport_tracker.Base.{
  ℕ, Bool, true, false, Option, none, some, List, [], ◌∷◌, ◌++◌, String, if◌then◌else◌, nat_eq,
  ◌==◌, or_else,
}
use Prim.Native.String.{◌++◌ as ◌+s◌}
use public_transport_tracker.Base.Int.{ℤ, pos, negsuc}

pub data Column (F : Type 0) : Type 0 where
  text : String → Column F
  number : ℤ → Column F
  real : F → Column F
  null : Column F

-- The rows that a cursor yields, and whether `rows.Err` reports an error behind them.
pub record Rows (F : Type 0) : Type 0 where
  pub items : List (List (Column F))
  pub failed : Bool

-- What the store calls of `database/sql`: a query by its text and its arguments, `none` on an error,
-- and the conversions of `Scan` into a string, an int and a float64, `none` on an error.
pub record Sql (F : Type 0) : Type 0 where
  pub query : String → List (Column F) → Option (Rows F)
  pub scan_string : Column F → Option String
  pub scan_int : Column F → Option ℤ
  pub scan_float : Column F → Option F

-- gtfs.Route
pub record Route : Type 0 where
  pub id : String
  pub agency_id : String
  pub short_name : String
  pub long_name : String
  pub type : ℤ
  pub color : String
  pub text_color : String
  pub sort_order : ℤ

-- A value of a `map[string]any` of the queries.
pub data Property (F : Type 0) : Type 0 where
  string : String → Property F
  int : ℤ → Property F
  float : F → Property F

pub record GeoJsonFeature (F : Type 0) : Type 0 where
  pub type : String
  pub properties : List (String × Property F)
  pub geometry : String

-- A `nil` slice of features is the empty list.
pub record GeoJsonCollection (F : Type 0) : Type 0 where
  pub type : String
  pub features : List (GeoJsonFeature F)

unfoldable pub route_type_name : ℤ → String
route_type_name (negsuc n) = "other"
route_type_name (pos n) =
    if n == 0
    then "tram"
    else if n == 1
    then "metro"
    else if n == 2
    then "rail"
    else if n == 3
    then "bus"
    else if n == 4
    then "ferry"
    else if n == 5
    then "cable_tram"
    else if n == 6
    then "aerial_lift"
    else if n == 7
    then "funicular"
    else if n == 11
    then "trolleybus"
    else if n == 12
    then "monorail"
    else "other"

-- The loop `for rows.Next()`: a row that cannot be scanned ends it with an error.
unfoldable pub scan_range :
    {F A : Type 0}
    → (List (Column F) → Option A)
    → List (List (Column F))
    → List A
    → Option (List A)
scan_range scan [] result = some result
scan_range scan (row ∷ items) result = elim (scan row) [
  | none ↦ none
  | some a ↦ scan_range scan items (result ++ a ∷ [])
]

-- A query, the loop over its rows, and `rows.Err`. The callers use the value only without an error.
unfoldable pub scan_query :
    {F A : Type 0} → (List (Column F) → Option A) → Option (Rows F) → Option (List A)
unfolding scan_range
scan_query scan none = none
scan_query scan (some rows) = elim (scan_range scan rows.items []) [
  | none ↦ none
  | some result ↦ if rows.failed then none else some result
]

-- `QueryRow` and `Scan`: the first row, and an error if there is none.
unfoldable pub scan_first :
    {F A : Type 0} → (List (Column F) → Option A) → Option (Rows F) → Option A
scan_first scan none = none
scan_first scan (some rows) = elim rows.items [ [] ↦ none | row ∷ items ↦ scan row ]

abbrev pub bind : {A B : Type 0} → Option A → (A → Option B) → Option B
bind none f = none
bind (some a) f = f a
