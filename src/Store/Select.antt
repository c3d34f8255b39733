-- ===== src/Store/Select.antt =====
-- internal/store/queries.go: what the SQL texts select from the tables that the importer fills, and
-- a database that answers them so.
pub mod Scanned
pub mod Members
pub mod Shapes
pub mod Stops
use mathlib.Core.List.{Permᴰ}
use public_transport_tracker.Base.{
  string_eq, ◌≡◌, Bool, true, false, ◌&&◌, ◌||◌, Option, none, some, List, [], ◌∷◌, ◌++◌, map,
  String, if◌then◌else◌, ◌==◌,
}
use public_transport_tracker.Base.Int.{ℤ, ltb_ℤ, int_eq}
use public_transport_tracker.Gtfs.{Row, route, stop, stop_time, routes, stops, stop_times, Tables}
use public_transport_tracker.Gtfs.Schema.{is_integer}
use public_transport_tracker.Store.{
  Column, text, number, real, Rows, Sql, Route, Property, string, int, float,
}
use public_transport_tracker.Store.Queries.{
  routes_text, routes_of_type_text, route_text, stop_times_text,
}

-- FROM … WHERE
abbrev pub select_where : {A : Type 0} → (A → Bool) → List A → List A
select_where test [] = []
select_where test (a ∷ rows) =
    let rest = select_where test rows in if test a then a ∷ rest else rest

-- FROM … JOIN … ON
abbrev pub join_on : {A B : Type 0} → (A → B → Bool) → List A → List B → List (A × B)
join_on test [] others = []
join_on test (a ∷ rows) others =
    map (λ b. (a, b)) (select_where (test a) others) ++ join_on test rows others

-- ORDER BY: no row stands before one that comes first.
abbrev pub Ascends : {A : Type 0} → (A → A → Bool) → List A → Type 0
Ascends before [] = Unit
Ascends before (a ∷ []) = Unit
Ascends before (a ∷ b ∷ rows) = (before b a ≡ false) × Ascends before (b ∷ rows)

-- The database answers a query without an error, with the rows selected, in an order that the text
-- asks for.
pub record Answers {F A : Type 0} (sql : Sql F) (query : String) (args : List (Column F))
    (columns : A → List (Column F)) (selected : List A) (before : A → A → Bool) : Type 0 where
  pub rows : List A
  pub permutes : Permᴰ rows selected
  pub ascends : Ascends before rows
  pub answer : sql.query query args ≡ some (record { items = map columns rows; failed = false })

module _ {F : Type 0} where
  -- The SELECT list of the routes. `COALESCE` leaves what is not NULL as it is, and the importer stores
  -- no NULL in a route.
  abbrev pub route_columns : Row F → List (Column F)
  route_columns (route i a s l t c tc so) =
      text i ∷ text a ∷ text s ∷ text l ∷ number t ∷ text c ∷ text tc ∷ number so ∷ []
  route_columns _ = []

  -- route_id = $1
  abbrev pub is_route : String → Row F → Bool
  is_route id (route i _ _ _ _ _ _ _) = i == id
  is_route id _ = false

  -- route_type = $1
  abbrev pub has_type : ℤ → Row F → Bool
  has_type t (route _ _ _ _ u _ _ _) = u == t
  has_type t _ = false

  -- sort_order, short_name, for an order of the texts.
  abbrev pub route_before : (String → String → Bool) → Row F → Row F → Bool
  route_before text_before (route _ _ s _ _ _ _ m) (route _ _ t _ _ _ _ n) =
      ltb_ℤ m n || m == n && text_before s t
  route_before text_before _ _ = false

  -- s.stop_id = $1
  abbrev pub is_stop : String → Row F → Bool
  is_stop id (stop i _ _ _ _ _ _) = i == id
  is_stop id _ = false

  -- s.stop_id = st.stop_id
  abbrev pub at_stop : Row F → Row F → Bool
  at_stop (stop_time _ id _ _ _ _ _) s = is_stop id s
  at_stop _ s = false

  -- st.trip_id = $1
  abbrev pub has_trip : String → Row F → Bool
  has_trip trip_id (stop_time t _ _ _ _ _ _) = t == trip_id
  has_trip trip_id _ = false

  abbrev pub stop_times_of : String → Tables F → List (Row F × Row F)
  stop_times_of trip_id db =
      select_where (λ p. has_trip trip_id p.0) (join_on at_stop (db stop_times) (db stops))

  abbrev pub stop_time_columns : Row F × Row F → List (Column F)
  stop_time_columns (stop_time _ _ seq arrival departure _ _, stop id _ name _ _ lon lat) =
      number seq ∷ text arrival ∷ text departure ∷ text id ∷ text name ∷ real lat ∷ real lon ∷ []
  stop_time_columns _ = []

  -- st.stop_sequence
  abbrev pub sequence_before : Row F × Row F → Row F × Row F → Bool
  sequence_before (stop_time _ _ m _ _ _ _, s) (stop_time _ _ n _ _ _ _, t) = ltb_ℤ m n
  sequence_before _ _ = false

  -- A database with these tables, as its answers to the queries show it, while it is there; the order of
  -- the texts is that of its collation. It refuses a number outside the INTEGER column that it is compared
  -- with, and the texts that it does not take for a parameter: those with a zero byte, and those that are
  -- not UTF-8.
  pub record Holds (sql : Sql F) (takes : String → Bool) (text_before : String → String → Bool)
      (db : Tables F) : Type 0 where
    pub strings : (s : String) → sql.scan_string (text s) ≡ some s
    pub ints : (n : ℤ) → sql.scan_int (number n) ≡ some n
    pub floats : (x : F) → sql.scan_float (real x) ≡ some x
    pub all_routes : Answers sql routes_text [] route_columns (db routes) (route_before text_before)
    pub routes_of_type :
        (t : ℤ)
        → is_integer t ≡ true
        → Answers sql routes_of_type_text
            (number t ∷ [])
            route_columns
            (select_where (has_type t) (db routes))
            (route_before text_before)
    pub no_integer :
        (t : ℤ) → is_integer t ≡ false → sql.query routes_of_type_text (number t ∷ []) ≡ none
    pub one_route :
        (id : String)
        → takes id ≡ true
        → Answers sql route_text
            (text id ∷ [])
            route_columns
            (select_where (is_route id) (db routes))
            (λ r s. false)
    pub no_route_text :
        (id : String) → takes id ≡ false → sql.query route_text (text id ∷ []) ≡ none
    pub trip_stop_times :
        (trip_id : String)
        → takes trip_id ≡ true
        → Answers sql stop_times_text
            (text trip_id ∷ [])
            stop_time_columns
            (stop_times_of trip_id db)
            sequence_before
    pub no_trip_text :
        (trip_id : String)
        → takes trip_id ≡ false
        → sql.query stop_times_text (text trip_id ∷ []) ≡ none

  -- The row as the program's value.
  abbrev pub route_of : Row F → Option Route
  route_of (route i a s l t c tc so) = some (record {
    id = i;
    agency_id = a;
    short_name = s;
    long_name = l;
    type = t;
    color = c;
    text_color = tc;
    sort_order = so;
  })
  route_of _ = none

  abbrev pub stop_time_of : Row F × Row F → Option (List (String × Property F))
  stop_time_of (stop_time _ _ seq arrival departure _ _, stop id _ name _ _ lon lat) = some (
      ("stop_sequence", int seq)
      ∷ ("arrival_time", string arrival)
      ∷ ("departure_time", string departure)
      ∷ ("stop_id", string id)
      ∷ ("stop_name", string name)
      ∷ ("lat", float lat)
      ∷ ("lon", float lon)
      ∷ [])
  stop_time_of _ = none
