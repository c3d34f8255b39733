-- ===== src/Gtfs/Csv/Fields.antt =====
-- Which value a field of a row is.
use public_transport_tracker.Base.{
  string_eq, ℕ, suc, ◌≡◌, refl, Option, none, some, List, [], ◌∷◌, String, if◌then◌else◌, ◌==◌,
  arith,
}
use public_transport_tracker.Gtfs.Csv.{trim_space, col_index_range, col_index, get_field}

abbrev next : Option ℕ → Option ℕ
next none = none
next (some i) = some (suc i)

col_index_range-suc :
    (i : ℕ) (header : List String) (name : String)
    → col_index_range (suc i) header name ≡ next (col_index_range i header name)
unfolding col_index_range
col_index_range-suc i [] name = refl
col_index_range-suc i (h ∷ header) name = ground (arith, col_index_range-suc (suc i) header name)

-- The value beside the first column of that name, where the header and the row stand side by side.
abbrev pub first_value : String → (header values : List String) → String
first_value name [] values = ""
first_value name (h ∷ header) [] = ""
first_value name (h ∷ header) (v ∷ values) =
    if trim_space h == name then trim_space v else first_value name header values

-- A field is the value beside the first column whose name, without the spaces around it, is the one
-- asked for, itself without the spaces around it; it is empty if there is no such column, or if the
-- row ends before it.
pub get_field-first_value :
    (header values : List String) (name : String)
    → get_field header values name ≡ first_value name header values
unfolding get_field col_index col_index_range
get_field-first_value [] values name = refl
get_field-first_value (h ∷ header) [] name = ground arith
get_field-first_value (h ∷ header) (v ∷ values) name =
    ground (arith, col_index_range-suc 0 header name, get_field-first_value header values name)
