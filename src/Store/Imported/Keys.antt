-- ===== src/Store/Imported/Keys.antt =====
-- What the keys of the schema say of the rows that a query joins.
use public_transport_tracker.Base.{
  string_eq, nat_eq, ◌≡◌, ◌≤◌, refl, Bool, true, false, List, [], ◌∷◌, ◌++◌, String, All, arith,
  length, ==_iff, append_assoc, append-nil, Bool-cases, inl, inr,
}
use public_transport_tracker.Gtfs.{Table, stops, stop_times, Row, route, stop, stop_time, Tables}
use public_transport_tracker.Gtfs.Schema.{same_key, any_row, has_id, fits_rows, has_links}
use public_transport_tracker.Store.Select.{select_where, is_route, is_stop, at_stop}

pub select_where-append :
    {A : Type 0} (test : A → Bool) (rows others : List A)
    → select_where test (rows ++ others) ≡ select_where test rows ++ select_where test others
select_where-append test [] others = refl
select_where-append test (a ∷ rows) others = ground (arith, select_where-append test rows others)

one_row :
    {A : Type 0} (rows : List A) → length rows ≤ 1 → 1 ≤ length rows → (a : A) × (rows ≡ a ∷ [])
one_row [] few some_there = absurd (omega arith)
one_row (a ∷ []) few some_there = (a, refl)
one_row (a ∷ b ∷ rows) few some_there = absurd (omega arith)

module _ {F : Type 0} where
  pub stop_key :
      (row other : Row F) (id : String)
      → is_stop id row ≡ true
      → is_stop id other ≡ true
      → same_key row other ≡ true
  stop_key (stop i _ _ _ _ _ _) (stop j _ _ _ _ _ _) id e k =
      ground (arith, ==_iff i id, ==_iff j id, ==_iff i j)
  stop_key (stop i _ _ _ _ _ _) _ id e k = absurd (ground arith)
  stop_key _ other id e k = absurd (ground arith)

  pub route_key :
      (row other : Row F) (id : String)
      → is_route id row ≡ true
      → is_route id other ≡ true
      → same_key row other ≡ true
  route_key (route i _ _ _ _ _ _ _) (route j _ _ _ _ _ _ _) id e k =
      ground (arith, ==_iff i id, ==_iff j id, ==_iff i j)
  route_key (route i _ _ _ _ _ _ _) _ id e k = absurd (ground arith)
  route_key _ other id e k = absurd (ground arith)

  -- A test for a key that is one text.
  module _ (is_row : String → Row F → Bool)
      (key : (row other : Row F) (id : String)
        → is_row id row ≡ true
        → is_row id other ≡ true
        → same_key row other ≡ true) where
    -- A row of another key than all rows before it.
    no_row_before :
        (row : Row F) (rows : List (Row F)) (id : String)
        → any_row (same_key row) rows ≡ false
        → is_row id row ≡ true
        → select_where (is_row id) rows ≡ []
    no_row_before row [] id h e = refl
    no_row_before row (other ∷ rows) id h e = elim (Bool-cases (is_row id other)) [
      | inl k ↦ absurd (ground (arith, key row other id e k))
      | inr k ↦ ground (arith, no_row_before row rows id)
    ]

    one_row_more :
        (row : Row F) (rows : List (Row F)) (id : String)
        → any_row (same_key row) rows ≡ false
        → length (select_where (is_row id) rows) ≤ 1
        → length (select_where (is_row id) (rows ++ row ∷ [])) ≤ 1
    one_row_more row rows id fresh few = elim (Bool-cases (is_row id row)) [
      | inl e ↦
          rw (select_where-append (is_row id) rows (row ∷ []), no_row_before row rows id fresh e)
            (ground arith)
      | inr e ↦
          rw (select_where-append (is_row id) rows (row ∷ []))
            (ground (arith, append-nil (select_where (is_row id) rows)))
    ]

    pub few_rows :
        (t : Table) (before rows : List (Row F)) (db : Tables F) (id : String)
        → fits_rows t before rows db ≡ true
        → length (select_where (is_row id) before) ≤ 1
        → length (select_where (is_row id) (before ++ rows)) ≤ 1
    few_rows t before [] db id fits few = rw append-nil few
    few_rows t before (row ∷ rows) db id fits few = rw (← append_assoc before (row ∷ []) rows) (
        few_rows t (before ++ row ∷ []) rows db id (ground arith)
          (one_row_more row before id (ground arith) few))

  -- The rows that the importer puts into the table of stops.
  abbrev pub is_stop_row : Row F → Bool
  is_stop_row (stop _ _ _ _ _ _ _) = true
  is_stop_row _ = false

  some_stop :
      (rows : List (Row F)) (id : String)
      → All (λ row. is_stop_row row ≡ true) rows
      → any_row (has_id id) rows ≡ true
      → 1 ≤ length (select_where (is_stop id) rows)
  some_stop [] id h k = absurd (ground arith)
  some_stop (stop i _ _ _ _ _ _ ∷ rows) id (here, h) k =
      ground (arith, some_stop rows id h, ==_iff i id)
  some_stop (_ ∷ rows) id (here, h) k = absurd (ground arith)

  -- The stop that a reference to the table finds is the only one with this ID.
  only_stop :
      (rows : List (Row F)) (db : Tables F) (id : String)
      → fits_rows stops [] rows db ≡ true
      → All (λ row. is_stop_row row ≡ true) rows
      → any_row (has_id id) rows ≡ true
      → (s : Row F) × (select_where (is_stop id) rows ≡ s ∷ [])
  only_stop rows db id fits typed there =
      one_row (select_where (is_stop id) rows)
        (few_rows is_stop stop_key stops [] rows db id fits (omega arith))
        (some_stop rows id typed there)

  abbrev pub is_stop_time_row : Row F → Bool
  is_stop_time_row (stop_time _ _ _ _ _ _ _) = true
  is_stop_time_row _ = false

  -- The row has exactly one stop.
  abbrev pub HasStop : List (Row F) → Row F → Type 0
  HasStop rows st = (s : Row F) × (select_where (at_stop st) rows ≡ s ∷ [])

  links-HasStop :
      (st : Row F) (db : Tables F)
      → fits_rows stops [] (db stops) db ≡ true
      → All (λ row. is_stop_row row ≡ true) (db stops)
      → is_stop_time_row st ≡ true
      → has_links stop_times st db ≡ true
      → HasStop (db stops) st
  links-HasStop (stop_time t s m a d p q) db fits typed e h =
      only_stop (db stops) db s fits typed (ground arith)
  links-HasStop _ db fits typed e h = absurd (ground arith)

  pub All-HasStop :
      (before rows : List (Row F)) (db : Tables F)
      → fits_rows stops [] (db stops) db ≡ true
      → All (λ row. is_stop_row row ≡ true) (db stops)
      → All (λ row. is_stop_time_row row ≡ true) rows
      → fits_rows stop_times before rows db ≡ true
      → All (HasStop (db stops)) rows
  All-HasStop before [] db fits typed times linked = tt
  All-HasStop before (st ∷ rows) db fits typed (here, times) linked = (
    links-HasStop st db fits typed here (ground arith),
    All-HasStop (before ++ st ∷ []) rows db fits typed times (ground arith),
  )
