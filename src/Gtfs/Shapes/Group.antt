-- ===== src/Gtfs/Shapes/Group.antt =====
-- The points of each shape, as the grouping loop collects them.
use mathlib.Core.List.{Permᴰ}
use public_transport_tracker.Base.{
  string_eq, ◌≡◌, refl, sym, ◌∙◌, false, List, [], ◌∷◌, ◌++◌, String, if◌then◌else◌, ◌==◌, ==_iff,
  append-nil, append_assoc, length, length-Perm, get_or, Bool-cases, inl, inr,
}
use public_transport_tracker.Base.Int.{ltb_ℤ}
use public_transport_tracker.GoMap.{GoMap, lookup, assign}
use public_transport_tracker.GoMap.Laws.{lookup-assign}
use public_transport_tracker.Gtfs.Rows.{Conversions}
use public_transport_tracker.Gtfs.Shapes.{ShapePoint, point_of, group_range}

module _ {F : Type 0} where
  abbrev pub IsAscending : List (ShapePoint F) → Type 0
  IsAscending [] = Unit
  IsAscending (p ∷ []) = Unit
  IsAscending (p ∷ q ∷ points) = (ltb_ℤ q.seq p.seq ≡ false) × IsAscending (q ∷ points)

  -- What package `sort` documents of `sort.Slice` with this comparison: the same points, in ascending
  -- order, and nothing of points with equal numbers.
  pub record IsSorting (sort : List (ShapePoint F) → List (ShapePoint F)) : Type 0 where
    pub permutes : (points : List (ShapePoint F)) → Permᴰ (sort points) points
    pub ascends : (points : List (ShapePoint F)) → IsAscending (sort points)

  pub length-sort :
      (sort : List (ShapePoint F) → List (ShapePoint F))
      → IsSorting sort
      → (points : List (ShapePoint F)) → length (sort points) ≡ length points
  length-sort sort h points = length-Perm (h.permutes points)

  module _ (conv : Conversions F) (header : List String) where
    -- The points that the records of a file have for a shape, in the order of the file.
    abbrev pub points_of : String → List (List String) → List (ShapePoint F)
    points_of id [] = []
    points_of id (record' ∷ rows) =
        (if (point_of conv header record').0 == id
          then (point_of conv header record').1 ∷ []
          else [])
        ++ points_of id rows

    pub group_range-points_of :
        (id : String) (rows : List (List String)) (grouped : GoMap String (List (ShapePoint F)))
        → get_or (lookup id (group_range conv header rows grouped)) []
          ≡ get_or (lookup id grouped) [] ++ points_of id rows
    unfolding group_range
    group_range-points_of id [] grouped = sym (append-nil _)
    group_range-points_of id (record' ∷ rows) grouped =
        let (i, point) = point_of conv header record' in
        let points = get_or (lookup i grouped) [] ++ point ∷ [] in
        group_range-points_of id rows (assign i points grouped)
        ∙ rw (lookup-assign id i points grouped) (elim (Bool-cases (i == id)) [
          | inl e ↦ rw (e, (==_iff i id).0 e) (append_assoc _ (point ∷ []) _)
          | inr e ↦ rw e refl
        ])
