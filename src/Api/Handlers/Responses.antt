-- ===== src/Api/Handlers/Responses.antt =====
-- What the handlers answer.
use public_transport_tracker.Base.{
  string_eq, ℕ, ◌≡◌, ◌≢◌, ◌⊎◌, inl, inr, refl, Option, none, some, List, [], ◌∷◌, length, arith,
  Option-cases,
}
use public_transport_tracker.Api.Split.{Bytes, split, split-join}
use public_transport_tracker.Api.BBox.{split_b_box, Parses, split_b_box-Parses, length-Parses}
use public_transport_tracker.Api.Handlers.{
  ResponseWriter, Store, Codec, http_error, encode_to, write_json, list_stops_of, handle_list_stops,
}

module _ {F Value : Type 0} (codec : Codec F Value) (store : Store F Value) where
  open codec use {parse_float}

  -- The statuses that a query's answer leads to.
  abbrev status_for : {A : Type 0} → Option A → ℕ
  status_for none = 500
  status_for (some a) = 200

  list_stops_of_four :
      (a b c d : F)
      → (response : ResponseWriter) × (list_stops_of codec store (a ∷ b ∷ c ∷ d ∷ [])
          ≡ some response)
        × (response.status ≡ status_for (store.list_stops_by_b_box a b c d))
  unfolding list_stops_of write_json encode_to http_error
  list_stops_of_four a b c d = elim (Option-cases (store.list_stops_by_b_box a b c d)) [
    | inl e ↦ rw e (_, refl, refl)
    | inr (fc, e) ↦ rw e (_, refl, refl)
  ]

  four :
      (vs : List F)
      → length vs ≡ 4
      → (a : F) × (b : F) × (c : F) × (d : F) × (vs ≡ a ∷ b ∷ c ∷ d ∷ [])
  four (a ∷ b ∷ c ∷ d ∷ []) e = (a, b, c, d, refl)
  four _ e = absurd (omega arith)

  -- `handleListStops` does not panic. If the parameter has four numbers between its commas, it
  -- queries the store with them, in their order, and answers 200, or 500 if the query fails;
  -- otherwise it answers 400.
  pub handle_list_stops_lem :
      (bbox : Bytes)
      → (response : ResponseWriter) × (handle_list_stops codec store bbox ≡ some response)
        × (((a : F) × (b : F) × (c : F) × (d : F) × Parses parse_float
                (split bbox 44)
                (a ∷ b ∷ c ∷ d ∷ [])
              × (response.status ≡ status_for (store.list_stops_by_b_box a b c d)))
            ⊎ (((vs : List F) → Parses parse_float (split bbox 44) vs → length vs ≢ 4)
                × (response.status ≡ 400)))
  unfolding handle_list_stops http_error
  handle_list_stops_lem [] = (
    _,
    refl,
    inr (
      λ vs parses n. omega (arith, length-Parses parse_float parses, (split-join [] 44).2, n),
      refl,
    ),
  )
  handle_list_stops_lem (byte ∷ bytes) =
      let bbox : Bytes = byte ∷ bytes in
      elim (Option-cases (split_b_box parse_float bbox)) [
        | inl e ↦ rw e (
          _,
          refl,
          inr (
            λ vs parses n. ground (arith, (split_b_box-Parses parse_float bbox vs).1 (n, parses)),
            refl,
          ),
        )
        | inr (vs, e) ↦
            let (n, parses) = (split_b_box-Parses parse_float bbox vs).0 e in
            let (a, b, c, d, h) = four vs n in
            let (response, answers, status) = list_stops_of_four a b c d in
            rw (e, h) (response, answers, inl (a, b, c, d, rw h at parses, status))
      ]
