-- ===== src/Gtfs/Importer/Cleared.antt =====
-- The deletions at the start of an import leave every table empty.
use public_transport_tracker.Base.{
  nat_eq, ◌≡◌, refl, true, List, [], ◌∷◌, if◌then◌else◌, arith, Bool-cases, inl, inr, count, leb,
}
use public_transport_tracker.Gtfs.{
  table_eq, Table, agencies, routes, stops, shapes, trips, stop_times, calendar, calendar_dates,
  Tables, Database, delete_from, delete_all,
}
use public_transport_tracker.Gtfs.Rows.{Conversions}
use public_transport_tracker.Gtfs.Shapes.{ShapePoint}
use public_transport_tracker.Gtfs.Importer.{ok, cleared_tables, delete_range}

module _ {F : Type 0} (accepts : Database F) (conv : Conversions F)
    (sort : List (ShapePoint F) → List (ShapePoint F)) where
  delete_range_lem :
      (tables : List Table) (tx tx' : Tables F)
      → delete_range accepts conv sort tables tx ≡ ok tt tx'
      → (u : Table) → tx' u ≡ (if leb 1 (count u tables) then [] else tx u)
  unfolding delete_range
  delete_range_lem [] tx tx' e u = let same : tx' ≡ tx = ground arith in rw same refl
  delete_range_lem (t ∷ tables) tx tx' e u = elim (Bool-cases (accepts (delete_from t) tx)) [
    | inl a ↦
        let rest : tx' u ≡ (if leb 1 (count u tables) then [] else delete_all t tx u) =
          delete_range_lem tables (delete_all t tx) tx' (ground arith) u in
        ground arith
    | inr a ↦ absurd (ground arith)
  ]

  -- No table is left out of the deletions.
  cleared_all : (u : Table) → leb 1 (count u (cleared_tables accepts conv sort)) ≡ true
  cleared_all agencies = refl
  cleared_all routes = refl
  cleared_all stops = refl
  cleared_all shapes = refl
  cleared_all trips = refl
  cleared_all stop_times = refl
  cleared_all calendar = refl
  cleared_all calendar_dates = refl

  pub delete_range-cleared :
      (db tx : Tables F)
      → delete_range accepts conv sort (cleared_tables accepts conv sort) db ≡ ok tt tx
      → (u : Table) → tx u ≡ []
  delete_range-cleared db tx e u =
      let cleared = delete_range_lem (cleared_tables accepts conv sort) db tx e u in
      rw (cleared_all u) at cleared
