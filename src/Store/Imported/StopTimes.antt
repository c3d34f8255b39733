-- ===== src/Store/Imported/StopTimes.antt =====
-- `GET /api/trips/{id}/stop-times` behind an import: `handleGetTripStopTimes` (internal/api/handlers.go)
-- and `GetTripStopTimes` (internal/store/queries.go).
use mathlib.Core.List.{Permᴰ}
use mathlib.Core.List.Permᴰ
use public_transport_tracker.Base.{
  string_eq, ◌≡◌, refl, subst, ◌⊎◌, Bool, true, false, Option, none, some, List, [], ◌∷◌, map,
  String, All, All-Perm, is_some, arith, Bool-cases, inl, inr,
}
use public_transport_tracker.Gtfs.{Row, stop, stop_time, stops, stop_times, Tables}
use public_transport_tracker.Gtfs.Csv.{CsvFile}
use public_transport_tracker.Gtfs.Rows.{Conversions}
use public_transport_tracker.Gtfs.Shapes.{ShapePoint}
use public_transport_tracker.Gtfs.Shapes.Group.{IsSorting}
use public_transport_tracker.Gtfs.Schema.{schema}
use public_transport_tracker.Gtfs.Importer.{import}
use public_transport_tracker.Api.Split.{Bytes}
use public_transport_tracker.Api.Handlers.{
  Codec, http_error, write_json, handle_get_trip_stop_times,
}
use public_transport_tracker.Store.{Sql, Property, scan_query}
use public_transport_tracker.Store.Queries.{scan_stop_time, get_trip_stop_times}
use public_transport_tracker.Store.Answers.{Value, store_of}
use public_transport_tracker.Store.Select.{
  Holds, Ascends, select_where, at_stop, has_trip, sequence_before, stop_time_of,
}
use public_transport_tracker.Store.Select.Scanned.{
  traverse, scan_query-Answers, scan_stop_time-columns,
}
use public_transport_tracker.Store.Imported.Keys.{All-HasStop}
use public_transport_tracker.Store.Imported.Joined.{join_on_complete, join_on_beside}
use public_transport_tracker.Store.Imported.Contents.{IsImported, archive_rows, import-IsImported}

select_where-test :
    {A : Type 0} (test : A → Bool) (rows : List A) (a : A)
    → select_where test rows ≡ a ∷ []
    → test a ≡ true
select_where-test test [] a e = absurd (ground arith)
select_where-test test (b ∷ rows) a e = elim (Bool-cases (test b)) [
  | inl h ↦ let same : b ≡ a = ground arith in subst (λ c. test c ≡ true) same h
  | inr h ↦ select_where-test test rows a (ground arith)
]

map-All :
    {A : Type 0} {P Q : A → Type 0} (rows : List A)
    → ((a : A) → P a → Q a)
    → All P rows
    → All Q rows
map-All [] f h = tt
map-All (a ∷ rows) f (here, h) = (f a here, map-All rows f h)

module _ {F : Type 0} where
  at_stop-stop_time_of :
      (st s : Row F) → at_stop st s ≡ true → is_some (stop_time_of (st, s)) ≡ true
  at_stop-stop_time_of (stop_time _ _ _ _ _ _ _) (stop _ _ _ _ _ _ _) h = refl
  at_stop-stop_time_of (stop_time _ _ _ _ _ _ _) _ h = absurd (ground arith)
  at_stop-stop_time_of _ s h = absurd (ground arith)

  -- The stop times of a trip, each with its only stop, in ascending order of their numbers.
  pub record TripTimes (rows : Tables F) (trip_id : String)
      (shown : List (List (String × Property F))) : Type 0 where
    pub found : List (Row F × Row F)
    pub complete :
        Permᴰ
          (map (λ (p : Row F × Row F). p.0) found)
          (select_where (has_trip trip_id) (rows stop_times))
    pub beside : All (λ p. select_where (at_stop p.0) (rows stops) ≡ p.1 ∷ []) found
    pub ascends : Ascends sequence_before found
    pub values : traverse stop_time_of found ≡ some shown

  imported_times :
      (sql : Sql F) (takes : String → Bool) (text_before : String → String → Bool) (rows : Tables F)
      (trip_id : String)
      → takes trip_id ≡ true
      → Holds sql takes text_before rows
      → IsImported rows
      → (shown : List (List (String × Property F))) × TripTimes rows trip_id shown
        × (get_trip_stop_times sql trip_id ≡ some shown)
  unfolding get_trip_stop_times
  imported_times sql takes text_before rows trip_id taken holds i =
      let one =
        All-HasStop [] (rows stop_times) rows i.stops_fit i.stops_typed i.stop_times_typed
          i.stop_times_fit in
      let answer = holds.trip_stop_times trip_id taken in
      let beside = join_on_beside at_stop (has_trip trip_id) (rows stops) (rows stop_times) one in
      let typed =
        map-All _
          (λ p e. at_stop-stop_time_of p.0 p.1 (select_where-test (at_stop p.0) (rows stops) p.1 e))
          beside in
      let (shown, values, e) =
        scan_query-Answers (scan_stop_time sql) stop_time_of answer (scan_stop_time-columns holds)
          typed in
      (
        shown,
        record {
          found = answer.rows;
          complete =
              subst (λ l. Permᴰ (map (λ (p : Row F × Row F). p.0) answer.rows) l)
                (join_on_complete at_stop (has_trip trip_id) (rows stops) (rows stop_times) one)
                (Permᴰ.map (λ (p : Row F × Row F). p.0) answer.permutes);
          beside = All-Perm _ answer.permutes beside;
          ascends = answer.ascends;
          values = values;
        },
        e,
      )

  no_times :
      (sql : Sql F) (takes : String → Bool) (text_before : String → String → Bool) (rows : Tables F)
      (trip_id : String)
      → takes trip_id ≡ false
      → Holds sql takes text_before rows
      → get_trip_stop_times sql trip_id ≡ none
  unfolding get_trip_stop_times scan_query
  no_times sql takes text_before rows trip_id refused holds =
      rw (holds.no_trip_text trip_id refused, scan_query) refl

module _ {F : Type 0} (conv : Conversions F) (sort : List (ShapePoint F) → List (ShapePoint F))
    (sorts : IsSorting sort) (codec : Codec F (Value F)) (decode : Bytes → String)
    (encode : String → Bytes) where
  -- After an import that has succeeded, over a database with the keys of the schema, whatever it held
  -- before: if the database takes the ID of the trip, the answer to a request for its stop times is 200 with
  -- the records of stop_times.txt that name the trip, each once, in ascending order of their numbers, and
  -- each with the name and the place of the only stop in stops.txt that it names; if not, it is 404.
  pub handle_get_trip_stop_times-import :
      (order : List String) (entries : List (String × Option CsvFile)) (before : Tables F)
      (sql : Sql F) (takes : String → Bool) (text_before : String → String → Bool) (trip : Bytes)
      → (import schema conv sort order (some entries) before).1 ≡ none
      → Holds sql takes text_before (import schema conv sort order (some entries) before).0
      → let store = store_of sql decode encode in
        let answer = handle_get_trip_stop_times codec store trip in
        ((takes (decode trip) ≡ true)
          × (shown : List (List (String × Property F))) × TripTimes
              (archive_rows conv sort sorts order entries)
              (decode trip)
              shown
          × (answer ≡ write_json codec store none (Value.stop_times shown)))
        ⊎ ((takes (decode trip) ≡ false) × (answer ≡ http_error codec store "not found" 404))
  unfolding handle_get_trip_stop_times
  handle_get_trip_stop_times-import order entries before sql takes text_before trip e holds =
      let (same, i) = import-IsImported conv sort sorts order entries before e in
      let rows = archive_rows conv sort sorts order entries in
      let holds' = subst (λ db. Holds sql takes text_before db) same holds in
      elim (Bool-cases (takes (decode trip))) [
        | inl taken ↦
            let (shown, times, answer) =
              imported_times sql takes text_before rows (decode trip) taken holds' i in
            inl (taken, shown, times, rw (answer, handle_get_trip_stop_times) refl)
        | inr refused ↦
            let none_found = no_times sql takes text_before rows (decode trip) refused holds' in
            inr (refused, rw (none_found, handle_get_trip_stop_times) refl)
      ]
