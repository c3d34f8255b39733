-- ===== src/Store/Imported/Listing.antt =====
-- The answers to the queries for the routes (internal/store/queries.go, `ListRoutes` and `GetRoute`),
-- behind an import.
use mathlib.Core.List.{Permᴰ}
use public_transport_tracker.Base.{
  string_eq, ◌≡◌, ◌≤◌, refl, sym, ap, subst, Bool, true, false, Option, none, some, List, [], ◌∷◌,
  String, All, is_some, length, arith, Bool-cases, Option-cases, inl, inr,
}
use public_transport_tracker.Base.Int.{ℤ}
use public_transport_tracker.Gtfs.{Row, routes, Tables}
use public_transport_tracker.Gtfs.Schema.{is_integer}
use public_transport_tracker.Store.{Sql, Route, scan_query, scan_first}
use public_transport_tracker.Store.Queries.{scan_route, list_routes, get_route}
use public_transport_tracker.Store.Select.{
  Holds, Ascends, select_where, has_type, is_route, route_before, route_of,
}
use public_transport_tracker.Store.Select.Scanned.{
  traverse, scan_query-Answers, scan_first-Answers, scan_route-columns,
}
use public_transport_tracker.Store.Imported.Keys.{few_rows, route_key}
use public_transport_tracker.Store.Imported.Contents.{IsImported}

select_where-All :
    {A : Type 0} (P : A → Type 0) (test : A → Bool) (rows : List A)
    → All P rows
    → All P (select_where test rows)
select_where-All P test [] h = tt
select_where-All P test (a ∷ rows) (here, h) = elim (Bool-cases (test a)) [
  | inl e ↦ rw e (here, select_where-All P test rows h)
  | inr e ↦ rw e (select_where-All P test rows h)
]

select_where_all : {A : Type 0} (rows : List A) → select_where (λ a. true) rows ≡ rows
select_where_all [] = refl
select_where_all (a ∷ rows) = ap (λ l. a ∷ l) (select_where_all rows)

-- No type, or one that the INTEGER column can hold.
abbrev pub is_type : Option ℤ → Bool
is_type none = true
is_type (some t) = is_integer t

module _ {F : Type 0} where
  abbrev pub of_type : Option ℤ → Row F → Bool
  of_type none row = true
  of_type (some t) row = has_type t row

  -- The routes of a type, or all of them, in the order of their numbers and names.
  pub record RouteList (rows : Tables F) (text_before : String → String → Bool) (type : Option ℤ)
      (shown : List Route) : Type 0 where
    pub found : List (Row F)
    pub complete : Permᴰ found (select_where (of_type type) (rows routes))
    pub ascends : Ascends (route_before text_before) found
    pub values : traverse route_of found ≡ some shown

  -- The route with an ID, if there is one: it is the only one.
  pub data Finds (rows : Tables F) (id : String) : Option Route → Type 0 where
    missing : select_where (is_route id) (rows routes) ≡ [] → Finds rows id none
    one_found :
        (row : Row F) (value : Route)
        → select_where (is_route id) (rows routes) ≡ row ∷ []
        → route_of row ≡ some value
        → Finds rows id (some value)

  first_Finds :
      (rows : Tables F) (id : String) (found : List (Row F))
      → All (λ row. is_some (route_of row) ≡ true) found
      → length found ≤ 1
      → select_where (is_route id) (rows routes) ≡ found
      → Finds rows id (elim found [ [] ↦ none | row ∷ rest ↦ route_of row ])
  first_Finds rows id [] typed few e = missing e
  first_Finds rows id (row ∷ []) (typed, h) few e = elim (Option-cases (route_of row)) [
    | inl k ↦ absurd (ground arith)
    | inr (value, k) ↦ rw k (one_found row value e k)
  ]
  first_Finds rows id (row ∷ other ∷ rest) typed few e = absurd (omega arith)

  module _ (sql : Sql F) (takes : String → Bool) (text_before : String → String → Bool)
      (rows : Tables F) (holds : Holds sql takes text_before rows) (i : IsImported rows) where
    pub imported_routes :
        (type : Option ℤ)
        → is_type type ≡ true
        → (shown : List Route) × RouteList rows text_before type shown
          × (list_routes sql type ≡ some shown)
    unfolding list_routes
    imported_routes none fits =
        let answer = holds.all_routes in
        let (shown, values, e) =
          scan_query-Answers (scan_route sql) route_of answer (scan_route-columns holds)
            i.routes_typed in
        (
          shown,
          record {
            found = answer.rows;
            complete =
                subst (λ l. Permᴰ answer.rows l) (sym (select_where_all (rows routes)))
                  answer.permutes;
            ascends = answer.ascends;
            values = values;
          },
          e,
        )
    imported_routes (some t) fits =
        let answer = holds.routes_of_type t fits in
        let (shown, values, e) =
          scan_query-Answers (scan_route sql) route_of answer (scan_route-columns holds)
            (select_where-All _ (has_type t) (rows routes) i.routes_typed) in
        (
          shown,
          record {
            found = answer.rows;
            complete = answer.permutes;
            ascends = answer.ascends;
            values = values;
          },
          e,
        )

    pub no_routes : (type : Option ℤ) → is_type type ≡ false → list_routes sql type ≡ none
    unfolding list_routes scan_query
    no_routes none fits = absurd (ground arith)
    no_routes (some t) fits = rw (holds.no_integer t fits, scan_query) refl

    pub no_route_of : (id : String) → takes id ≡ false → get_route sql id ≡ none
    unfolding get_route scan_first
    no_route_of id refused = rw (holds.no_route_text id refused, scan_first) refl

    pub imported_route : (id : String) → takes id ≡ true → Finds rows id (get_route sql id)
    unfolding get_route
    imported_route id taken =
        let found = select_where (is_route id) (rows routes) in
        let first =
          scan_first-Answers found (scan_route sql) route_of (holds.one_route id taken)
            (scan_route-columns holds)
            (few_rows is_route route_key routes [] (rows routes) rows id i.routes_fit
              (omega arith)) in
        rw first (
          first_Finds rows id found (select_where-All _ (is_route id) (rows routes) i.routes_typed)
            (few_rows is_route route_key routes [] (rows routes) rows id i.routes_fit (omega arith))
            refl)
