-- ===== src/Store/Select/Scanned.antt =====
-- What the store makes of the answers of a database with given tables.
use public_transport_tracker.Base.{
  ◌≡◌, refl, ap, ◌∙◌, subst, Bool, true, false, Option, none, some, List, [], ◌∷◌, map, String, All,
  All-Perm, length, length-Perm, ◌≤◌, is_some, arith, Option-cases, inl, inr,
}
use public_transport_tracker.Gtfs.{
  Row, Tables, agency, route, stop, shape, trip, stop_time, service, service_date,
}
use public_transport_tracker.Store.{Column, Sql, scan_query, scan_first}
use public_transport_tracker.Store.Queries.{scan_route, scan_stop_time}
use public_transport_tracker.Store.Scan.{Scans, no_rows, scanned, scan_query-Scans}
use public_transport_tracker.Store.Select.{
  Answers, Holds, route_columns, stop_time_columns, route_of, stop_time_of,
}

-- All values, if there is one for each.
abbrev pub traverse : {A B : Type 0} → (A → Option B) → List A → Option (List B)
traverse f [] = some []
traverse f (a ∷ rows) = elim (f a) [
  | none ↦ none
  | some b ↦ elim (traverse f rows) [ none ↦ none | some rest ↦ some (b ∷ rest) ]
]

pub traverse-some :
    {A B : Type 0} (f : A → Option B) (rows : List A)
    → All (λ a. is_some (f a) ≡ true) rows
    → (result : List B) × (traverse f rows ≡ some result)
traverse-some f [] h = ([], refl)
traverse-some f (a ∷ rows) (here, h) =
    let (rest, e) = traverse-some f rows h in
    elim (Option-cases (f a)) [
      | inl k ↦ absurd (ground arith)
      | inr (b, k) ↦ (b ∷ rest, ground arith)
    ]

pub traverse-Scans :
    {F A B : Type 0} (scan : List (Column F) → Option B) (columns : A → List (Column F))
    (f : A → Option B) (rows : List A) (result : List B)
    → ((a : A) → scan (columns a) ≡ f a)
    → traverse f rows ≡ some result
    → Scans scan (map columns rows) result
traverse-Scans scan columns f [] result same e = subst (λ l. Scans scan [] l) (ground arith) no_rows
traverse-Scans scan columns f (a ∷ rows) result same e = elim (Option-cases (f a)) [
  | inl k ↦ absurd (ground arith)
  | inr (b, k) ↦ elim (Option-cases (traverse f rows)) [
    | inl n ↦ absurd (ground arith)
    | inr (rest, n) ↦
        subst (λ l. Scans scan (map columns (a ∷ rows)) l) (ground arith)
          (scanned (same a ∙ k) (traverse-Scans scan columns f rows rest same n))
  ]
]

-- The loop over an answer yields the values of its rows.
pub scan_query-Answers :
    {F A B : Type 0} {sql : Sql F} {query : String} {args : List (Column F)}
    {columns : A → List (Column F)} {selected : List A} {before : A → A → Bool}
    (scan : List (Column F) → Option B) (f : A → Option B)
    (a : Answers sql query args columns selected before)
    → ((row : A) → scan (columns row) ≡ f row)
    → All (λ row. is_some (f row) ≡ true) selected
    → (result : List B) × (traverse f a.rows ≡ some result)
      × (scan_query scan (sql.query query args) ≡ some result)
scan_query-Answers {sql = sql} {query} {args} {columns} scan f a same typed =
    let (result, e) = traverse-some f a.rows (All-Perm _ a.permutes typed) in
    (
      result,
      e,
      (scan_query-Scans scan (sql.query query args) result).1
          (_, a.answer, refl, traverse-Scans scan columns f a.rows result same e),
    )

one_row :
    {A : Type 0} (rows : List A) (a : A) → All (λ b. b ≡ a) rows → length rows ≡ 1 → rows ≡ a ∷ []
one_row [] a h n = absurd (omega arith)
one_row (b ∷ []) a (e, h) n = ap (λ c. c ∷ []) e
one_row (b ∷ c ∷ rows) a h n = absurd (omega arith)

no_row : {A : Type 0} (rows : List A) → length rows ≡ 0 → rows ≡ []
no_row [] n = refl
no_row (b ∷ rows) n = absurd (omega arith)

answer_of :
    {F A : Type 0} {sql : Sql F} {query : String} {args : List (Column F)}
    {columns : A → List (Column F)} {selected : List A} {before : A → A → Bool}
    (a : Answers sql query args columns selected before) (rows : List A)
    → a.rows ≡ rows
    → sql.query query args ≡ some (record { items = map columns rows; failed = false })
answer_of {columns = columns} a rows e =
    a.answer ∙ ap (λ l. some (record { items = map columns l; failed = false })) e

-- The first row of an answer, where no more than one is selected.
pub scan_first-Answers :
    {F A B : Type 0} {sql : Sql F} {query : String} {args : List (Column F)}
    {columns : A → List (Column F)} {before : A → A → Bool} (selected : List A)
    (scan : List (Column F) → Option B) (f : A → Option B)
    → Answers sql query args columns selected before
    → ((row : A) → scan (columns row) ≡ f row)
    → length selected ≤ 1
    → scan_first scan (sql.query query args) ≡ elim selected [ [] ↦ none | a ∷ rest ↦ f a ]
unfolding scan_first
scan_first-Answers [] scan f a same few =
    let answer = answer_of a [] (no_row a.rows (length-Perm a.permutes)) in
    rw (answer, scan_first) refl
scan_first-Answers (b ∷ []) scan f a same few =
    let answer =
      answer_of a (b ∷ [])
        (one_row a.rows b (All-Perm (λ c. c ≡ b) a.permutes (refl, tt)) (length-Perm a.permutes)) in
    rw (answer, scan_first) (same b)
scan_first-Answers (b ∷ c ∷ rows) scan f a same few = absurd (omega arith)

module _ {F : Type 0} {sql : Sql F} {takes : String → Bool} {text_before : String → String → Bool}
    {db : Tables F} (holds : Holds sql takes text_before db) where
  pub scan_route-columns : (row : Row F) → scan_route sql (route_columns row) ≡ route_of row
  unfolding scan_route
  scan_route-columns (route i a s l t c tc so) = simp (holds.strings, holds.ints) refl
  scan_route-columns (agency _ _ _ _ _ _) = refl
  scan_route-columns (stop _ _ _ _ _ _ _) = refl
  scan_route-columns (shape _ _) = refl
  scan_route-columns (trip _ _ _ _ _ _ _) = refl
  scan_route-columns (stop_time _ _ _ _ _ _ _) = refl
  scan_route-columns (service _ _ _ _ _ _ _ _ _ _) = refl
  scan_route-columns (service_date _ _ _) = refl

  pub scan_stop_time-columns :
      (p : Row F × Row F) → scan_stop_time sql (stop_time_columns p) ≡ stop_time_of p
  unfolding scan_stop_time
  scan_stop_time-columns (stop_time _ _ seq arrival departure _ _, stop id _ name _ _ lon lat) =
      simp (holds.strings, holds.ints, holds.floats) refl
  scan_stop_time-columns (stop_time _ _ _ _ _ _ _, _) = refl
  scan_stop_time-columns (_, s) = refl
