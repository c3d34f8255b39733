-- ===== src/Gtfs/Csv.antt =====
-- The reading of CSV fields in internal/gtfs/importer.go, with the functions of package `strings` that
-- it uses. The rows that `csv.Reader` yields are a parameter.
pub mod Fields
use Prim.Native.Char.{Char, code}
use public_transport_tracker.Base.{
  string_eq, ℕ, zero, suc, Bool, true, false, Option, none, some, List, [], ◌∷◌, String,
  if◌then◌else◌, ◌==◌, nat_beq, leb, ◌&&◌, ◌||◌, get_elem?,
}

-- unicode.IsSpace
abbrev pub is_space : Char → Bool
is_space c =
    leb 9 (code c) && leb (code c) 13
    || nat_beq (code c) 32
    || nat_beq (code c) 133
    || nat_beq (code c) 160
    || nat_beq (code c) 5760
    || leb 8192 (code c) && leb (code c) 8202
    || nat_beq (code c) 8232
    || nat_beq (code c) 8233
    || nat_beq (code c) 8239
    || nat_beq (code c) 8287
    || nat_beq (code c) 12288

unfoldable pub trim_left : String → String
trim_left String.[] = ""
trim_left (String.◌∷◌ c s) = let rest = trim_left s in if is_space c then rest else String.◌∷◌ c s

-- The character, unless it is a space at the end.
abbrev pub keep : Char → String → String
keep c String.[] = if is_space c then "" else String.◌∷◌ c ""
keep c (String.◌∷◌ d s) = String.◌∷◌ c (String.◌∷◌ d s)

unfoldable pub trim_right : String → String
trim_right String.[] = ""
trim_right (String.◌∷◌ c s) = keep c (trim_right s)

-- strings.TrimSpace
unfoldable pub trim_space : String → String
unfolding trim_left trim_right
trim_space s = trim_right (trim_left s)

-- strings.TrimPrefix of the byte order mark: the bytes ef bb bf are the character U+FEFF.
unfoldable pub trim_bom : String → String
trim_bom String.[] = ""
trim_bom (String.◌∷◌ c s) = if nat_beq (code c) 65279 then s else String.◌∷◌ c s

-- An entry of the archive, as `Open` and `csv.Reader` read it: the header, unless reading it fails, the
-- rows that follow, and whether they end with `io.EOF` or with an error.
pub record CsvFile : Type 0 where
  pub header : Option (List String)
  pub rows : List (List String)
  pub complete : Bool

pub data CsvError : Type 0 where
  open_entry read_header : CsvError

-- The header and the reader; `entry` is `none` where `Open` fails.
pub data ReadCsv : Type 0 where
  opened : List String → CsvFile → ReadCsv
  failed : CsvError → ReadCsv

abbrev pub strip_bom : List String → List String
unfolding trim_bom
strip_bom [] = []
strip_bom (h ∷ header) = trim_bom h ∷ header

unfoldable pub read_csv : Option CsvFile → ReadCsv
read_csv none = failed open_entry
read_csv (some file) = elim file.header [
  | none ↦ failed read_header
  | some header ↦ opened (strip_bom header) file
]

-- The loop of `colIndex` from index `i` on; `none` is -1.
unfoldable pub col_index_range : ℕ → List String → String → Option ℕ
unfolding trim_space
col_index_range i [] name = none
col_index_range i (h ∷ header) name =
    let rest = col_index_range (suc i) header name in if trim_space h == name then some i else rest

unfoldable pub col_index : List String → String → Option ℕ
unfolding col_index_range
col_index header name = col_index_range 0 header name

unfoldable pub get_field : List String → List String → String → String
get_field header record' name = elim (col_index header name) [
  | none ↦ ""
  | some idx ↦ elim (get_elem? record' idx) [ none ↦ "" | some value ↦ trim_space value ]
]
