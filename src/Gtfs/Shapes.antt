-- ===== src/Gtfs/Shapes.antt =====
-- The points of shapes in internal/gtfs/importer.go: grouped by shape, and written as a line.
pub mod Group
use Prim.Native.String.{◌++◌ as ◌+s◌}
use public_transport_tracker.Base.{
  string_eq, ℕ, suc, Bool, Option, none, some, List, [], ◌∷◌, ◌++◌, String, if◌then◌else◌, length,
  ltb, get_or,
}
use public_transport_tracker.Base.Int.{ℤ}
use public_transport_tracker.GoMap.{GoMap, lookup, assign}
use public_transport_tracker.Gtfs.Csv.{get_field}
use public_transport_tracker.Gtfs.Rows.{Conversions}

pub record ShapePoint (F : Type 0) : Type 0 where
  pub lon : F
  pub lat : F
  pub seq : ℤ

module _ {F : Type 0} (conv : Conversions F) where
  open conv use {atoi, parse_float, format_float}

  -- The shape and the point of a record.
  unfoldable pub point_of : List String → List String → String × ShapePoint F
  point_of header record' = (
    get_field header record' "shape_id",
    record {
      lon = parse_float (get_field header record' "shape_pt_lon");
      lat = parse_float (get_field header record' "shape_pt_lat");
      seq = atoi (get_field header record' "shape_pt_sequence");
    },
  )

  -- The loop that groups the points. A missing key reads as the empty slice.
  unfoldable pub group_range :
      List String
      → List (List String)
      → GoMap String (List (ShapePoint F))
      → GoMap String (List (ShapePoint F))
  group_range header [] grouped = grouped
  group_range header (record' ∷ rows) grouped =
      let (id, point) = point_of header record' in
      group_range header rows (assign id (get_or (lookup id grouped) [] ++ point ∷ []) grouped)

  point_texts : ℕ → List (ShapePoint F) → String
  point_texts i [] = ""
  point_texts i (p ∷ points) =
      (if ltb 0 i then "," else "")
      +s (format_float p.lon +s (" " +s (format_float p.lat +s point_texts (suc i) points)))

  unfoldable pub line_string : List (ShapePoint F) → String
  unfolding point_texts
  line_string points = "LINESTRING(" +s (point_texts 0 points +s ")")
