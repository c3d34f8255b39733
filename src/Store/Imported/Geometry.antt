-- ===== src/Store/Imported/Geometry.antt =====
-- The answers to the queries for the shapes (internal/store/queries.go, `GetAllRouteShapes` and
-- `GetRouteShape`), behind an import.
use mathlib.Core.List.{Memᴰ}
use mathlib.Core.List.Memᴰ
use public_transport_tracker.Base.{
  string_eq, nat_eq, ◌≡◌, refl, subst, Bool, true, false, Option, none, some, List, [], map, String,
  All, is_some, if◌then◌else◌, length, arith, Bool-cases, inl, inr,
}
use public_transport_tracker.Gtfs.{trips, shapes, Row, route, trip, shape, Tables}
use public_transport_tracker.Gtfs.Schema.{any_row}
use public_transport_tracker.Store.{Sql, GeoJsonFeature, scan_first}
use public_transport_tracker.Store.Scan.{scan_query-Scans}
use public_transport_tracker.Store.Queries.{
  scan_route_shape, scan_geojson, all_shapes_text, get_all_route_shapes, get_route_shape,
}
use public_transport_tracker.Store.Select.{Ascends, select_where, join_on, is_route}
use public_transport_tracker.Store.Select.Scanned.{traverse, traverse-some, traverse-Scans}
use public_transport_tracker.Store.Select.Members.{
  All-Memᴰ, All-members, Memᴰ-select_where, select_where-Memᴰ, Memᴰ-join_on, join_on-Memᴰ,
  any_row-Memᴰ,
}
use public_transport_tracker.Store.Select.Shapes.{
  FirstOf, no_first, a_first, RouteLine, runs_on, of_route, has_shape, route_id_before, lines_of,
  line_columns, shape_columns, HoldsShapes, feature_of, geometry_of,
}
use public_transport_tracker.Store.Imported.Contents.{IsImported}
use public_transport_tracker.Store.Imported.Lines.{
  has_line, IsLine, fits_rows-links, route_lines-IsLine, shape_of_trip, OneEach-count,
}

module _ {F : Type 0} (as_geo_json : String → String) where
  -- Each route that a trip with a shape runs on, once, in ascending order of the IDs, with the line of
  -- such a trip.
  pub record RouteShapes (rows : Tables F) (text_before : String → String → Bool)
      (shown : List (GeoJsonFeature F)) : Type 0 where
    pub found : List (RouteLine F)
    pub real : All (IsLine rows) found
    pub complete :
        (id : String)
        → length (select_where (λ p. is_route id p.0.0) found)
          ≡ (if any_row (has_line id) (rows trips) then 1 else 0)
    pub ascends : Ascends (route_id_before text_before) found
    pub values : traverse (feature_of as_geo_json) found ≡ some shown

  -- The line of a trip of the route, if one has a shape.
  pub data LineOf (rows : Tables F) (id : String) : Option String → Type 0 where
    no_line : any_row (has_line id) (rows trips) ≡ false → LineOf rows id none
    a_line :
        (t : Row F) (shape_id line : String)
        → Memᴰ t (rows trips)
        → has_line id t ≡ true
        → Memᴰ (shape shape_id line) (rows shapes)
        → has_shape t (shape shape_id line) ≡ true
        → LineOf rows id (some (as_geo_json line))

  line-feature_of :
      (r t s : Row F)
      → of_route r t ≡ true
      → has_shape t s ≡ true
      → is_some (feature_of as_geo_json ((r, t), s)) ≡ true
  line-feature_of (route _ _ _ _ _ _ _ _) (trip _ _ _ _ _ _ (some k)) (shape _ _) e h = refl
  line-feature_of (route _ _ _ _ _ _ _ _) (trip _ _ _ _ _ _ (some k)) _ e h = absurd (ground arith)
  line-feature_of (route _ _ _ _ _ _ _ _) _ s e h = absurd (ground arith)
  line-feature_of _ t s e h = absurd (ground arith)

  geometry_of-LineOf :
      (rows : Tables F) (id : String) (s t : Row F)
      → Memᴰ s (rows shapes)
      → Memᴰ t (rows trips)
      → has_shape t s ≡ true
      → runs_on id t ≡ true
      → LineOf rows id (geometry_of as_geo_json (s, t))
  geometry_of-LineOf rows id (shape i line) (trip a b c d e f (some k)) m n h r =
      a_line (trip a b c d e f (some k)) i line n r m h
  geometry_of-LineOf rows id (shape i line) _ m n h r = absurd (ground arith)
  geometry_of-LineOf rows id _ (trip a b c d e f (some k)) m n h r = absurd (ground arith)
  geometry_of-LineOf rows id _ _ m n h r = absurd (ground arith)

  has_line-runs_on : (t : Row F) (id : String) → has_line id t ≡ true → runs_on id t ≡ true
  has_line-runs_on (trip _ _ _ _ _ _ (some k)) id h = h
  has_line-runs_on _ id h = absurd (ground arith)

  module _ (sql : Sql F) (takes : String → Bool) (text_before : String → String → Bool)
      (rows : Tables F) (holds : HoldsShapes as_geo_json sql takes text_before rows) where
    scan_route_shape-columns :
        (p : RouteLine F)
        → scan_route_shape sql (line_columns as_geo_json p) ≡ feature_of as_geo_json p
    unfolding scan_route_shape
    scan_route_shape-columns ((route i _ s l t c _ _, _), shape _ line) =
        simp (holds.strings, holds.ints) refl
    scan_route_shape-columns ((route i _ s l t c _ _, _), _) = refl
    scan_route_shape-columns ((_, _), _) = refl

    scan_geojson-columns :
        (p : Row F × Row F)
        → scan_geojson sql (shape_columns as_geo_json p) ≡ geometry_of as_geo_json p
    scan_geojson-columns (shape _ line, t) = simp holds.strings refl
    scan_geojson-columns (_, t) = refl

    module _ (i : IsImported rows) where
      pub imported_shapes :
          (shown : List (GeoJsonFeature F)) × RouteShapes rows text_before shown
          × (get_all_route_shapes sql
              ≡ some (record { type = "FeatureCollection"; features = shown }))
      unfolding get_all_route_shapes
      imported_shapes =
          let real =
            All-members (IsLine rows) holds.lines
              λ p m. route_lines-IsLine rows p (All-Memᴰ _ holds.lines p holds.distinct.0 m) in
          let typed = All-members _ holds.lines λ p m.
            let line = All-Memᴰ (IsLine rows) holds.lines p real m in
            line-feature_of p.0.0 p.0.1 p.1 line.trip_fits line.shape_fits in
          let (shown, e) = traverse-some (feature_of as_geo_json) holds.lines typed in
          let scanned =
            traverse-Scans (scan_route_shape sql) (line_columns as_geo_json)
              (feature_of as_geo_json) holds.lines shown scan_route_shape-columns e in
          let answer =
            (scan_query-Scans (scan_route_shape sql) (sql.query all_shapes_text []) shown).1
              (_, holds.all_shapes, refl, scanned) in
          (
            shown,
            record {
              found = holds.lines;
              real = real;
              complete = λ id. OneEach-count rows i holds.lines id holds.distinct;
              ascends = holds.ascends;
              values = e;
            },
            rw answer refl,
          )

      no_line_of :
          (id : String) → lines_of id rows ≡ [] → any_row (has_line id) (rows trips) ≡ false
      no_line_of id e = elim (Bool-cases (any_row (has_line id) (rows trips))) [
        | inr h ↦ h
        | inl h ↦
            let (t, t_there, line) = any_row-Memᴰ (has_line id) (rows trips) h in
            let links =
              All-Memᴰ _ (rows trips) t (fits_rows-links trips [] (rows trips) rows i.trips_fit)
                t_there in
            let (s, s_there, fits) = shape_of_trip rows i t id line links in
            let selected =
              Memᴰ-select_where (λ p. runs_on id p.1)
                (join_on (λ s t. has_shape t s) (rows shapes) (rows trips)) (s, t)
                (Memᴰ-join_on (λ s t. has_shape t s) (rows trips) (rows shapes) s t s_there t_there
                  fits)
                (has_line-runs_on t id line) in
            absurd (Memᴰ.not-nil (subst (λ l. Memᴰ (s, t) l) e selected))
      ]

      first_line :
          (id : String) (first : List (Row F × Row F))
          → FirstOf (lines_of id rows) first
          → LineOf rows id (
              scan_first
                (scan_geojson sql)
                (some (record { items = map (shape_columns as_geo_json) first; failed = false })))
      unfolding scan_first
      first_line id first (no_first e) = no_line (no_line_of id e)
      first_line id first (a_first (s, t) m) =
          let (pair, runs) =
            select_where-Memᴰ (λ p. runs_on id p.1)
              (join_on (λ s t. has_shape t s) (rows shapes) (rows trips)) (s, t) m in
          let (s_there, t_there, fits) =
            join_on-Memᴰ (λ s t. has_shape t s) (rows trips) (rows shapes) (s, t) pair in
          rw (scan_geojson-columns (s, t))
            (geometry_of-LineOf rows id s t s_there t_there fits runs)

      pub imported_shape : (id : String) → takes id ≡ true → LineOf rows id (get_route_shape sql id)
      unfolding get_route_shape
      imported_shape id taken =
          let (first, chosen, answer) = holds.route_shape id taken in
          rw answer (first_line id first chosen)

      pub no_shape_of : (id : String) → takes id ≡ false → get_route_shape sql id ≡ none
      unfolding get_route_shape scan_first
      no_shape_of id refused = rw (holds.no_shape_text id refused, scan_first) refl
