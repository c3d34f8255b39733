-- ===== src/Store/Imported/Lines.antt =====
-- The routes beside the shapes of their trips, behind an import: the joins of `GetAllRouteShapes` and
-- `GetRouteShape` (internal/store/queries.go).
use mathlib.Core.List.{Memᴰ}
use public_transport_tracker.Base.{
  string_eq, nat_eq, ◌≡◌, refl, sym, ap, ◌∙◌, Bool, true, false, some, List, [], ◌∷◌, ◌++◌, String,
  All, ◌==◌, ==_iff, is_some, if◌then◌else◌, length, arith, Bool-cases, inl, inr,
}
use public_transport_tracker.Gtfs.{Table, routes, trips, shapes, Row, route, trip, shape, Tables}
use public_transport_tracker.Gtfs.Schema.{any_row, has_id, fits_rows, has_links}
use public_transport_tracker.Store.Select.{select_where, join_on, is_route, route_of}
use public_transport_tracker.Store.Select.Members.{
  All-Memᴰ, All-members, Memᴰ-join_on, join_on-Memᴰ, Memᴰ-any_row, any_row-Memᴰ,
}
use public_transport_tracker.Store.Select.Shapes.{
  OneEach, RouteLine, runs_on, of_route, is_shape, has_shape, route_lines, same_route,
}
use public_transport_tracker.Store.Imported.Contents.{IsImported, is_shape_row}

select_where_none :
    {A : Type 0} (test : A → Bool) (rows : List A)
    → All (λ a. test a ≡ false) rows
    → length (select_where test rows) ≡ 0
select_where_none test [] h = refl
select_where_none test (a ∷ rows) (here, h) = rw here (select_where_none test rows h)

module _ {F : Type 0} where
  -- A trip of the route that names a shape.
  abbrev pub has_line : String → Row F → Bool
  has_line id (trip _ r _ _ _ _ (some s)) = r == id
  has_line id _ = false

  -- The three rows of a line belong to each other.
  pub record IsLine (rows : Tables F) (p : RouteLine F) : Type 0 where
    pub route_there : Memᴰ p.0.0 (rows routes)
    pub trip_there : Memᴰ p.0.1 (rows trips)
    pub shape_there : Memᴰ p.1 (rows shapes)
    pub trip_fits : of_route p.0.0 p.0.1 ≡ true
    pub shape_fits : has_shape p.0.1 p.1 ≡ true

  has_id-is_route :
      (row : Row F) (id : String)
      → is_some (route_of row) ≡ true
      → has_id id row ≡ true
      → is_route id row ≡ true
  has_id-is_route (route _ _ _ _ _ _ _ _) id e h = h
  has_id-is_route _ id e h = absurd (ground arith)

  has_id-is_shape :
      (row : Row F) (id : String)
      → is_shape_row row ≡ true
      → has_id id row ≡ true
      → is_shape id row ≡ true
  has_id-is_shape (shape _ _) id e h = h
  has_id-is_shape _ id e h = absurd (ground arith)

  is_route-of_route :
      (row t : Row F) (id : String)
      → is_route id row ≡ true
      → runs_on id t ≡ true
      → of_route row t ≡ true
  is_route-of_route (route i _ _ _ _ _ _ _) (trip _ r _ _ _ _ _) id h k =
      ground (arith, ==_iff i id, ==_iff r id, ==_iff r i)
  is_route-of_route (route i _ _ _ _ _ _ _) _ id h k = absurd (ground arith)
  is_route-of_route _ t id h k = absurd (ground arith)

  line-has_line :
      (r t s : Row F) (id : String)
      → of_route r t ≡ true
      → is_route id r ≡ true
      → has_shape t s ≡ true
      → has_line id t ≡ true
  line-has_line (route i _ _ _ _ _ _ _) (trip _ j _ _ _ _ (some k)) s id e h n =
      ground (arith, ==_iff j i, ==_iff i id, ==_iff j id)
  line-has_line (route i _ _ _ _ _ _ _) _ s id e h n = absurd (ground arith)
  line-has_line _ t s id e h n = absurd (ground arith)

  pub fits_rows-links :
      (t : Table) (before rows : List (Row F)) (db : Tables F)
      → fits_rows t before rows db ≡ true
      → All (λ row. has_links t row db ≡ true) rows
  fits_rows-links t before [] db h = tt
  fits_rows-links t before (row ∷ rows) db h =
      (ground arith, fits_rows-links t (before ++ row ∷ []) rows db (ground arith))

  pub route_lines-IsLine :
      (rows : Tables F) (p : RouteLine F) → Memᴰ p (route_lines rows) → IsLine rows p
  route_lines-IsLine rows p m =
      let (pair, s, h) =
        join_on-Memᴰ (λ (q : Row F × Row F) s. has_shape q.1 s) (rows shapes)
          (join_on of_route (rows routes) (rows trips)) p m in
      let (r, t, k) = join_on-Memᴰ of_route (rows trips) (rows routes) p.0 pair in
      record { route_there = r; trip_there = t; shape_there = s; trip_fits = k; shape_fits = h }

  module _ (rows : Tables F) (i : IsImported rows) where
    pub shape_of_trip :
        (t : Row F) (id : String)
        → has_line id t ≡ true
        → has_links trips t rows ≡ true
        → (s : Row F) × Memᴰ s (rows shapes) × (has_shape t s ≡ true)
    shape_of_trip (trip a b c d e f (some k)) id h links =
        let (s, there, s_id) = any_row-Memᴰ (has_id k) (rows shapes) (ground arith) in
        (s, there, has_id-is_shape s k (All-Memᴰ _ (rows shapes) s i.shapes_typed there) s_id)
    shape_of_trip _ id h links = absurd (ground arith)

    route_of_trip :
        (t : Row F) (id : String)
        → has_line id t ≡ true
        → has_links trips t rows ≡ true
        → (r : Row F) × Memᴰ r (rows routes) × (is_route id r ≡ true) × (of_route r t ≡ true)
    route_of_trip (trip a b c d e f (some k)) id h links =
        let (r, there, r_id) = any_row-Memᴰ (has_id b) (rows routes) (ground arith) in
        let r_is = has_id-is_route r b (All-Memᴰ _ (rows routes) r i.routes_typed there) r_id in
        let same : b ≡ id = (==_iff b id).0 h in
        (
          r,
          there,
          ap (λ j. is_route j r) (sym same) ∙ r_is,
          is_route-of_route r (trip a b c d e f (some k)) b r_is ((==_iff b b).1 refl),
        )
    route_of_trip _ id h links = absurd (ground arith)

    -- A trip that names a shape is beside it: the joins lose no line.
    line_of_trip :
        (t : Row F) (id : String)
        → Memᴰ t (rows trips)
        → has_line id t ≡ true
        → has_links trips t rows ≡ true
        → (p : RouteLine F) × Memᴰ p (route_lines rows) × (is_route id p.0.0 ≡ true)
    line_of_trip t id m h links =
        let (r, r_there, r_is, fits) = route_of_trip t id h links in
        let (s, s_there, s_fits) = shape_of_trip t id h links in
        (
          ((r, t), s),
          Memᴰ-join_on (λ (q : Row F × Row F) s. has_shape q.1 s) (rows shapes)
              (join_on of_route (rows routes) (rows trips)) (r, t) s
              (Memᴰ-join_on of_route (rows trips) (rows routes) r t r_there m fits) s_there s_fits,
          r_is,
        )

    same_route-is_route :
        (p : RouteLine F) (id : String)
        → is_route id p.0.0 ≡ true
        → same_route p ≡ (λ q. is_route id q.0.0)
    same_route-is_route ((route j _ _ _ _ _ _ _, t), s) id h =
        ap (λ k (q : RouteLine F). is_route k q.0.0) ((==_iff j id).0 h)
    same_route-is_route _ id h = absurd (ground arith)

    -- A route is shown once if a trip of it names a shape, and not at all otherwise.
    pub OneEach-count :
        (found : List (RouteLine F)) (id : String)
        → OneEach same_route (route_lines rows) found
        → length (select_where (λ (p : RouteLine F). is_route id p.0.0) found)
          ≡ (if any_row (has_line id) (rows trips) then 1 else 0)
    OneEach-count found id (chosen, one) = elim (Bool-cases (any_row (has_line id) (rows trips))) [
      | inl there ↦
          let (t, m, h) = any_row-Memᴰ (has_line id) (rows trips) there in
          let links =
            All-Memᴰ _ (rows trips) t (fits_rows-links trips [] (rows trips) rows i.trips_fit) m in
          let (p, n, k) = line_of_trip t id m h links in
          rw (there, ← same_route-is_route p id k)
            (All-Memᴰ (λ a. length (select_where (same_route a) found) ≡ 1) (route_lines rows) p one
              n)
      | inr none_there ↦ rw none_there (
          select_where_none (λ (p : RouteLine F). is_route id p.0.0) found
            (All-members _ found λ q m. elim (Bool-cases (is_route id q.0.0)) [
              | inr e ↦ e
              | inl e ↦
                  let line = route_lines-IsLine rows q (All-Memᴰ _ found q chosen m) in
                  let there =
                    Memᴰ-any_row (has_line id) (rows trips) q.0.1 line.trip_there
                      (line-has_line q.0.0 q.0.1 q.1 id line.trip_fits e line.shape_fits) in
                  absurd (ground arith)
            ]))
    ]
