-- ===== src/Api/BBox.antt =====
-- `splitBBox` of internal/api/handlers.go. `strconv.ParseFloat` is a parameter.
use public_transport_tracker.Base.{
  ◌≡◌, refl, Option, none, some, List, [], ◌∷◌, ◌++◌, if◌then◌else◌, nat_beq, arith, length,
  Option-cases, inl, inr, append_assoc, append-nil, ◌↔◌, sym, subst, ◌∙◌,
}
use public_transport_tracker.Api.Split.{Bytes, split}

module _ {F : Type 0} (parse_float : Bytes → Option F) where
  -- The loop over the texts; `none` is the early `return nil`.
  unfoldable pub parse_parts : List Bytes → List F → Option (List F)
  parse_parts [] parts = some parts
  parse_parts (s ∷ texts) parts = elim (parse_float s) [
    | none ↦ none
    | some v ↦ parse_parts texts (parts ++ v ∷ [])
  ]

  -- `none` is `nil`.
  unfoldable pub split_b_box : Bytes → Option (List F)
  split_b_box bbox = elim (parse_parts (split bbox 44) []) [
    | none ↦ none
    | some parts ↦ if nat_beq (length parts) 4 then some parts else none
  ]

  -- Each text parses to the number beside it.
  pub data Parses : List Bytes → List F → Type 0 where
    nothing : Parses [] []
    number :
        {s : Bytes} {v : F} {texts : List Bytes} {vs : List F}
        → parse_float s ≡ some v
        → Parses texts vs
        → Parses (s ∷ texts) (v ∷ vs)

  parse_parts-Parses :
      (texts : List Bytes) (acc out : List F)
      → parse_parts texts acc ≡ some out
      → (vs : List F) × (out ≡ acc ++ vs) × Parses texts vs
  unfolding parse_parts
  parse_parts-Parses [] acc out e = ([], simp append-nil (ground arith), nothing)
  parse_parts-Parses (s ∷ texts) acc out e = elim (Option-cases (parse_float s)) [
    | inl h ↦ absurd (ground arith)
    | inr (v, h) ↦
        let (vs, joined, parses) = parse_parts-Parses texts (acc ++ v ∷ []) out (ground arith) in
        (v ∷ vs, joined ∙ simp append_assoc refl, number h parses)
  ]

  Parses-parse_parts :
      (texts : List Bytes) (acc vs : List F)
      → Parses texts vs
      → parse_parts texts acc ≡ some (acc ++ vs)
  unfolding parse_parts
  Parses-parse_parts [] acc [] nothing = rw append-nil refl
  Parses-parse_parts [] acc (v ∷ vs) x = elim x [ ]
  Parses-parse_parts (s ∷ texts) acc [] x = elim x [ ]
  Parses-parse_parts (s ∷ texts) acc (v ∷ vs) (number h parses) =
      ground
        (arith, Parses-parse_parts texts (acc ++ v ∷ []) vs parses, append_assoc acc (v ∷ []) vs)

  -- `splitBBox` returns numbers exactly if the text has four parts between its commas that all
  -- parse, and then it returns the four in their order.
  pub split_b_box-Parses :
      (bbox : Bytes) (vs : List F)
      → (split_b_box bbox ≡ some vs) ↔ ((length vs ≡ 4) × Parses (split bbox 44) vs)
  unfolding split_b_box
  split_b_box-Parses bbox vs = (
    λ e. elim (Option-cases (parse_parts (split bbox 44) [])) [
      | inl h ↦ absurd (ground arith)
      | inr (out, h) ↦
          let (ws, joined, parses) = parse_parts-Parses (split bbox 44) [] out h in
          let same : out ≡ vs = ground arith in
          let count : length vs ≡ 4 = ground arith in
          (count, subst (λ l. Parses (split bbox 44) l) (sym joined ∙ same) parses)
    ],
    λ (count, parses). ground (arith, Parses-parse_parts (split bbox 44) [] vs parses),
  )

  pub length-Parses :
      {texts : List Bytes} {vs : List F} → Parses texts vs → length vs ≡ length texts
  length-Parses nothing = refl
  length-Parses (number e parses) = omega (arith, length-Parses parses)
