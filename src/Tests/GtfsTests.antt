-- ===== src/Tests/GtfsTests.antt =====
-- An import of a small archive over a database that accepts every statement, with insertion sort in
-- place of `sort.Slice`.
use Prim.Native.Char.{code}
use mathlib.Core.List.{Permᴰ}
use mathlib.Core.List.Permᴰ
use public_transport_tracker.Base.{
  string_eq, nat_eq, ◌≡◌, ◌⊎◌, refl, true, false, Option, none, some, List, [], ◌∷◌, ◌-◌, String,
  if◌then◌else◌, arith, Bool-cases, inl, inr, ltb, length, is_some, ◌≢◌, ◌==◌,
}
use public_transport_tracker.Base.Int.{ℤ, pos, ltb_ℤ}
use public_transport_tracker.GoMap.{GoMap, IsMap, lookup, assign, empty, keys}
use public_transport_tracker.GoMap.Range.{keys-Enumerates}
use public_transport_tracker.Gtfs.{table_eq, Table, Row, shapes, Tables}
use public_transport_tracker.Gtfs.Csv.{
  CsvFile, trim_space, trim_left, trim_right, trim_bom, col_index, col_index_range, get_field,
  read_csv,
}
use public_transport_tracker.Gtfs.Csv.Fields.{get_field-first_value, first_value}
use public_transport_tracker.Gtfs.Rows.{Conversions, agency_row}
use public_transport_tracker.Gtfs.Shapes.{ShapePoint, point_of, group_range, line_string}
use public_transport_tracker.Gtfs.Shapes.Group.{IsSorting, IsAscending}
use public_transport_tracker.Gtfs.Schema.{schema}
use public_transport_tracker.Gtfs.Importer.{import, index_files, truncate_failed}
use public_transport_tracker.Gtfs.Importer.Integrity.{schema-DeletesUnreferenced}
use public_transport_tracker.Gtfs.Importer.Deletions.{import-ne-truncate_failed}
use public_transport_tracker.Gtfs.Importer.Lines.{find_line, file_points}
use public_transport_tracker.Gtfs.Importer.Import.{import_lem, table_rows}
use public_transport_tracker.Gtfs.Importer.ShapeTable.{import-shapes, file_groups}
use public_transport_tracker.Gtfs.Importer.Success.{import-succeeds, is_complete, accept_all}

abbrev place : ShapePoint ℤ → List (ShapePoint ℤ) → List (ShapePoint ℤ)
place p [] = p ∷ []
place p (q ∷ points) =
    let later = place p points in if ltb_ℤ q.seq p.seq then q ∷ later else p ∷ q ∷ points

abbrev pub sort : List (ShapePoint ℤ) → List (ShapePoint ℤ)
sort [] = []
sort (p ∷ points) = place p (sort points)

place_permutes :
    (p : ShapePoint ℤ) (points : List (ShapePoint ℤ)) → Permᴰ (place p points) (p ∷ points)
place_permutes p [] = Permᴰ.refl _
place_permutes p (q ∷ points) = elim (Bool-cases (ltb_ℤ q.seq p.seq)) [
  | inl e ↦ rw e (Permᴰ.trans (Permᴰ.cons refl (place_permutes p points)) (Permᴰ.swap refl refl))
  | inr e ↦ rw e (Permᴰ.refl _)
]

sort_permutes : (points : List (ShapePoint ℤ)) → Permᴰ (sort points) points
sort_permutes [] = Permᴰ.nil
sort_permutes (p ∷ points) =
    Permᴰ.trans (place_permutes p (sort points)) (Permᴰ.cons refl (sort_permutes points))

place_ascends :
    (p : ShapePoint ℤ) (points : List (ShapePoint ℤ))
    → IsAscending points
    → IsAscending (place p points)
place_ascends p [] h = tt
place_ascends p (q ∷ []) h = ground arith
place_ascends p (q ∷ r ∷ points) (h, hs) = ground (arith, place_ascends p (r ∷ points) hs)

sort_ascends : (points : List (ShapePoint ℤ)) → IsAscending (sort points)
sort_ascends [] = tt
sort_ascends (p ∷ points) = place_ascends p (sort points) (sort_ascends points)

pub sort-IsSorting : IsSorting sort
sort-IsSorting = record { permutes = sort_permutes; ascends = sort_ascends }

-- The first character of a text, as a digit.
abbrev digit : String → ℤ
digit String.[] = pos 0
digit (String.◌∷◌ c s) = pos (code c - 48)

abbrev pub conv : Conversions ℤ
conv = record { atoi = digit; parse_float = digit; parse_date = digit; format_float = λ x. "0" }

abbrev pub file_of : List String → List (List String) → Option CsvFile
file_of header rows = some (record { header = some header; rows = rows; complete = true })

abbrev shape_file : Option CsvFile
shape_file =
    file_of ("shape_id" ∷ " shape_pt_sequence" ∷ "shape_pt_lat" ∷ [])
      (("s1" ∷ "2" ∷ "5" ∷ []) ∷ ("s2" ∷ "1" ∷ "6" ∷ []) ∷ ("s1" ∷ "1" ∷ []) ∷ [])

abbrev pub archive : List (String × Option CsvFile)
archive =
    ("agency.txt", file_of ("agency_id" ∷ "agency_name" ∷ []) (("" ∷ " Metro " ∷ []) ∷ []))
    ∷ ("routes.txt", file_of [] [])
    ∷ ("stops.txt", file_of [] [])
    ∷ ("trips.txt", file_of [] [])
    ∷ ("stop_times.txt", file_of [] [])
    ∷ ("shapes.txt", shape_file)
    ∷ []

abbrev pub nothing_before : Tables ℤ
nothing_before t = []

abbrev pub files : GoMap String (Option CsvFile)
files = index_files accept_all conv sort archive empty

abbrev groups : GoMap String (List (ShapePoint ℤ))
groups = file_groups accept_all conv sort sort-IsSorting (lookup "shapes.txt" files)

abbrev pub order : List String
order = keys groups

program : Unit {0}
unfolding import index_files lookup assign trim_space trim_left trim_right trim_bom col_index
    col_index_range get_field read_csv agency_row point_of group_range line_string
program = tt

get_field-first_value_example :
    get_field ("shape_id" ∷ " shape_pt_sequence" ∷ []) ("s1" ∷ "2 " ∷ []) "shape_pt_sequence"
    ≡ first_value "shape_pt_sequence" ("shape_id" ∷ " shape_pt_sequence" ∷ []) ("s1" ∷ "2 " ∷ [])
get_field-first_value_example =
    get_field-first_value ("shape_id" ∷ " shape_pt_sequence" ∷ []) ("s1" ∷ "2 " ∷ [])
      "shape_pt_sequence"

import_lem_example :
    let (db', error) = import accept_all conv sort order (some archive) nothing_before in
    ((error ≡ none)
      × ((entries : List (String × Option CsvFile)) × (some archive ≡ some entries)
          × ((t : Table)
              → db' t
                ≡ table_rows accept_all conv sort sort-IsSorting order
                    (index_files accept_all conv sort entries empty)
                    t)))
    ⊎ ((is_some error ≡ true) × (db' ≡ nothing_before))
import_lem_example =
    import_lem accept_all conv sort sort-IsSorting order (some archive) nothing_before

archive_complete : is_complete conv sort (some archive) ≡ true
unfolding program
archive_complete = refl

archive_imported : (import accept_all conv sort order (some archive) nothing_before).1 ≡ none
archive_imported =
    (import-succeeds conv sort order (some archive) nothing_before).1 archive_complete

groups-IsMap : IsMap groups
unfolding program
groups-IsMap = (refl, (refl, tt))

import-shapes_example :
    let rows = (import accept_all conv sort order (some archive) nothing_before).0 shapes in
    let points : List (ShapePoint ℤ) =
      file_points accept_all conv sort sort-IsSorting (lookup "shapes.txt" files) "s1" in
    ((ltb (length points) 2 ≡ true)
      × (find_line accept_all conv sort sort-IsSorting "s1" rows ≡ none))
    ⊎ ((ltb (length points) 2 ≡ false)
        × ((line : List (ShapePoint ℤ)) × (find_line accept_all conv sort sort-IsSorting "s1" rows
              ≡ some (line_string conv line))
            × Permᴰ line points
            × IsAscending line))
import-shapes_example =
    import-shapes accept_all conv sort sort-IsSorting order archive nothing_before "s1"
      archive_imported (keys-Enumerates groups groups-IsMap)

abbrev one_route : Tables ℤ
one_route t = if t == Table.routes then Row.service_date "s" (pos 0) (pos 0) ∷ [] else []

import-ne-truncate_failed_example :
    (import schema conv sort order (some archive) one_route).1
    ≢ some (truncate_failed Table.agencies)
import-ne-truncate_failed_example =
    import-ne-truncate_failed schema conv sort schema-DeletesUnreferenced order (some archive)
      one_route Table.agencies
