-- ===== src/Tests/ImportedTests.antt =====
-- A database with given tables, and the answers of the API behind the import of a small archive.
use mathlib.Core.List.{Permᴰ}
use mathlib.Core.List.Permᴰ
use public_transport_tracker.Base.{
  string_eq, ◌≡◌, ◌⊎◌, refl, Bool, true, false, not, Option, none, some, List, [], ◌∷◌, map, String,
  if◌then◌else◌, ◌==◌, Bool-cases, inl, inr, arith,
}
use public_transport_tracker.Base.Int.{ℤ, int_eq, sub_ℕ}
use public_transport_tracker.Gtfs.{Row, Tables, route, stop_time, routes}
use public_transport_tracker.Gtfs.Schema.{schema, is_integer}
use public_transport_tracker.Gtfs.Importer.{import}
use public_transport_tracker.Gtfs.Importer.Integrity.{import-consistent}
use public_transport_tracker.Api.Split.{Bytes}
use public_transport_tracker.Api.Handlers.{
  Codec, http_error, write_json, handle_list_routes, handle_get_trip_stop_times,
}
use public_transport_tracker.Store.{Column, text, number, real, null, Rows, Sql, Route, Property}
use public_transport_tracker.Store.Queries.{
  routes_text, routes_of_type_text, route_text, stop_times_text,
}
use public_transport_tracker.Store.Answers.{Value, store_of}
use public_transport_tracker.Store.Select.{
  Answers, Ascends, Holds, select_where, route_columns, has_type, is_route, route_before,
  stop_time_columns, stop_times_of, sequence_before,
}
use public_transport_tracker.Store.Imported.Contents.{archive_rows}
use public_transport_tracker.Store.Imported.StopTimes.{TripTimes, handle_get_trip_stop_times-import}
use public_transport_tracker.Store.Imported.Listing.{RouteList, is_type}
use public_transport_tracker.Store.Imported.Routes.{type_of, handle_list_routes-import}
use public_transport_tracker.Tests.GtfsTests.{sort, conv, sort-IsSorting, nothing_before}
use public_transport_tracker.Tests.SchemaTests.{city, two_points, order, city_consistent}

-- ORDER BY
module _ {A : Type 0} (before : A → A → Bool) where
  abbrev place : A → List A → List A
  place a [] = a ∷ []
  place a (b ∷ rows) = let rest = place a rows in if before b a then b ∷ rest else a ∷ b ∷ rows

  abbrev pub order_by : List A → List A
  order_by [] = []
  order_by (a ∷ rows) = place a (order_by rows)

  place_permutes : (a : A) (rows : List A) → Permᴰ (place a rows) (a ∷ rows)
  place_permutes a [] = Permᴰ.refl _
  place_permutes a (b ∷ rows) = elim (Bool-cases (before b a)) [
    | inl e ↦ rw e (Permᴰ.trans (Permᴰ.cons refl (place_permutes a rows)) (Permᴰ.swap refl refl))
    | inr e ↦ rw e (Permᴰ.refl _)
  ]

  pub order_by_permutes : (rows : List A) → Permᴰ (order_by rows) rows
  order_by_permutes [] = Permᴰ.nil
  order_by_permutes (a ∷ rows) =
      Permᴰ.trans (place_permutes a (order_by rows)) (Permᴰ.cons refl (order_by_permutes rows))

  module _ (asymmetric : (a b : A) → before a b ≡ true → before b a ≡ false) where
    place-Ascends : (a : A) (rows : List A) → Ascends before rows → Ascends before (place a rows)
    place-Ascends a [] h = tt
    place-Ascends a (b ∷ []) h = elim (Bool-cases (before b a)) [
      | inl e ↦ rw e (asymmetric b a e, tt)
      | inr e ↦ rw e (e, tt)
    ]
    place-Ascends a (b ∷ c ∷ rows) (h, k) = elim (Bool-cases (before b a)) [
      | inr e ↦ rw e (e, (h, k))
      | inl e ↦ elim (Bool-cases (before c a)) [
        | inl d ↦ let rest = place-Ascends a (c ∷ rows) k in rw (e, d) (h, rw d at rest)
        | inr d ↦ rw (e, d) (asymmetric b a e, (d, k))
      ]
    ]

    pub order_by-Ascends : (rows : List A) → Ascends before (order_by rows)
    order_by-Ascends [] = tt
    order_by-Ascends (a ∷ rows) = place-Ascends a (order_by rows) (order_by-Ascends rows)

abbrev pub unordered : String → String → Bool
unordered s t = false

abbrev pub yields : {A : Type 0} → (A → List (Column ℤ)) → List A → Option (Rows ℤ)
yields columns rows = some (record { items = map columns rows; failed = false })

-- The text `?` stands for the texts that a database does not take.
abbrev pub takes : String → Bool
takes s = not (s == "?")

-- The database, by the texts of the queries.
abbrev sql_of : Tables ℤ → Sql ℤ
sql_of db = record {
  query = λ query args. elim args [
    | [] ↦ yields route_columns (order_by (route_before unordered) (db routes))
    | arg ∷ rest ↦ elim arg [
      | number t ↦
          if is_integer t
          then yields route_columns
              (order_by (route_before unordered) (select_where (has_type t) (db routes)))
          else none
      | text id ↦
          if not (takes id)
          then none
          else if query == route_text
          then yields route_columns
              (order_by (λ r s. false) (select_where (is_route id) (db routes)))
          else yields stop_time_columns (order_by sequence_before (stop_times_of id db))
      | real x ↦ none
      | null ↦ none
    ]
  ];
  scan_string = λ c. elim c [ text s ↦ some s | number n ↦ none | real x ↦ none | null ↦ none ];
  scan_int = λ c. elim c [ text s ↦ none | number n ↦ some n | real x ↦ none | null ↦ none ];
  scan_float = λ c. elim c [ text s ↦ none | number n ↦ none | real x ↦ some x | null ↦ none ];
}

route_before_asymmetric :
    (r s : Row ℤ) → route_before unordered r s ≡ true → route_before unordered s r ≡ false
route_before_asymmetric (route _ _ _ _ _ _ _ m) (route _ _ _ _ _ _ _ n) h = ground arith
route_before_asymmetric (route _ _ _ _ _ _ _ m) _ h = absurd (ground arith)
route_before_asymmetric _ s h = absurd (ground arith)

sequence_before_asymmetric :
    (p q : Row ℤ × Row ℤ) → sequence_before p q ≡ true → sequence_before q p ≡ false
sequence_before_asymmetric (stop_time _ _ m _ _ _ _, s) (stop_time _ _ n _ _ _ _, t) h =
    ground arith
sequence_before_asymmetric (stop_time _ _ m _ _ _ _, s) (_, t) h = absurd (ground arith)
sequence_before_asymmetric (_, s) q h = absurd (ground arith)

ordered :
    {A : Type 0} (query : String) (args : List (Column ℤ)) (columns : A → List (Column ℤ))
    (before : A → A → Bool) (selected : List A) (db : Tables ℤ)
    → ((a b : A) → before a b ≡ true → before b a ≡ false)
    → (sql_of db).query query args ≡ yields columns (order_by before selected)
    → Answers (sql_of db) query args columns selected before
ordered query args columns before selected db asymmetric answer = record {
  rows = order_by before selected;
  permutes = order_by_permutes before selected;
  ascends = order_by-Ascends before asymmetric selected;
  answer = answer;
}

pub sql_of-Holds : (db : Tables ℤ) → Holds (sql_of db) takes unordered db
sql_of-Holds db = record {
  strings = λ s. refl;
  ints = λ n. refl;
  floats = λ x. refl;
  all_routes =
      ordered routes_text [] route_columns (route_before unordered) (db routes) db
        route_before_asymmetric refl;
  routes_of_type = λ t fits.
      ordered routes_of_type_text (number t ∷ []) route_columns (route_before unordered)
        (select_where (has_type t) (db routes)) db route_before_asymmetric (rw fits refl);
  no_integer = λ t outside. rw outside refl;
  one_route = λ id taken.
      ordered route_text (text id ∷ []) route_columns (λ r s. false)
        (select_where (is_route id) (db routes)) db (λ r s h. refl) (ground arith);
  no_route_text = λ id refused. ground arith;
  trip_stop_times = λ id taken.
      ordered stop_times_text (text id ∷ []) stop_time_columns sequence_before (stop_times_of id db)
        db sequence_before_asymmetric (ground arith);
  no_trip_text = λ id refused. ground arith;
}

-- Numbers of one digit.
abbrev pub digit_of : Bytes → Option ℤ
digit_of [] = none
digit_of (b ∷ []) = some (sub_ℕ b 48)
digit_of (a ∷ b ∷ s) = none

abbrev pub codec : Codec ℤ (Value ℤ)
codec = record {
  atoi = digit_of;
  parse_float = λ s. none;
  encode = λ v. some (1 ∷ []);
  status_ok = Value.routes [];
  no_values = Value.routes [];
  text = λ s. [];
}

abbrev pub tables_after : Tables ℤ
tables_after = (import schema conv sort order (some (city two_points)) nothing_before).0

pub imported : (import schema conv sort order (some (city two_points)) nothing_before).1 ≡ none
imported =
    (import-consistent conv sort sort-IsSorting order (some (city two_points)) nothing_before).1
      city_consistent

abbrev pub database : Sql ℤ
database = sql_of tables_after

handle_get_trip_stop_times-import_example :
    let store = store_of database (λ b. "t") (λ s. []) in
    let answer = handle_get_trip_stop_times codec store [] in
    ((takes "t" ≡ true)
      × (shown : List (List (String × Property ℤ))) × TripTimes
          (archive_rows conv sort sort-IsSorting order (city two_points))
          "t"
          shown
      × (answer ≡ write_json codec store none (Value.stop_times shown)))
    ⊎ ((takes "t" ≡ false) × (answer ≡ http_error codec store "not found" 404))
handle_get_trip_stop_times-import_example =
    handle_get_trip_stop_times-import conv sort sort-IsSorting codec (λ b. "t") (λ s. []) order
      (city two_points) nothing_before database takes unordered [] imported
      (sql_of-Holds tables_after)

handle_list_routes-import_example :
    let store = store_of database (λ b. "r") (λ s. []) in
    let answer = handle_list_routes codec store (48 ∷ []) in
    ((type_of codec (48 ∷ []) ≡ none)
      × (answer ≡ http_error codec store "invalid type parameter" 400))
    ⊎ ((t : Option ℤ) × (type_of codec (48 ∷ []) ≡ some t)
        × (((is_type t ≡ true)
              × (shown : List Route) × RouteList
                  (archive_rows conv sort sort-IsSorting order (city two_points))
                  unordered
                  t
                  shown
              × (answer ≡ write_json codec store none (Value.routes shown)))
            ⊎ ((is_type t ≡ false) × (answer ≡ http_error codec store "internal error" 500))))
handle_list_routes-import_example =
    handle_list_routes-import conv sort sort-IsSorting codec (λ b. "r") (λ s. []) order
      (city two_points) nothing_before database takes unordered (48 ∷ []) imported
      (sql_of-Holds tables_after)
