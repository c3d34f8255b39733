-- ===== src/Api/Mux.antt =====
-- The patterns of `http.ServeMux` that internal/api/server.go registers, and how a request finds its
-- handler.
pub mod Unique
use public_transport_tracker.Base.{
  string_eq, Bool, true, false, ◌&&◌, ◌||◌, Option, none, some, List, [], ◌∷◌, String,
  if◌then◌else◌, ◌==◌,
}

-- `{name}` stands for one segment.
pub data Segment : Type 0 where
  literal wildcard : String → Segment

-- The values of the wildcards.
abbrev pub Params : Type 0
Params = List (String × String)

-- `method` is `none` for a pattern without one.
pub record Route (H : Type 0) : Type 0 where
  pub method : Option String
  pub pattern : List Segment
  pub handler : H

-- A request with a clean path, which the mux redirects others to. A slash at its end counts as a
-- segment "/".
pub record Request : Type 0 where
  pub method : String
  pub path : List String

abbrev bind : String → String → Option Params → Option Params
bind name value none = none
bind name value (some params) = some ((name, value) ∷ params)

unfoldable pub match_path : List Segment → List String → Option Params
match_path [] [] = some []
match_path (literal l ∷ segments) (s ∷ path) =
    let rest = match_path segments path in if l == s then rest else none
match_path (wildcard name ∷ segments) (s ∷ path) =
    let rest = match_path segments path in if s == "/" then none else bind name s rest
match_path _ _ = none

-- r.PathValue(name)
abbrev pub path_value : String → Params → String
path_value name [] = ""
path_value name ((n, v) ∷ params) = if n == name then v else path_value name params

-- GET stands for HEAD too.
abbrev pub allows : Option String → String → Bool
allows none method = true
allows (some m) method = m == method || (m == "GET" && method == "HEAD")

pub data Selected (H : Type 0) : Type 0 where
  handled : H → Params → Selected H
  method_not_allowed not_found : Selected H

-- `known` is whether the path has matched a pattern of another method.
unfoldable pub select : {H : Type 0} → List (Route H) → Request → Bool → Selected H
select [] req known = if known then method_not_allowed else not_found
select (r ∷ routes) req known = elim (match_path r.pattern req.path) [
  | none ↦ select routes req known
  | some params ↦
      let later = select routes req true in
      if allows r.method req.method then handled r.handler params else later
]
