-- ===== src/Store/Select/Members.antt =====
-- The rows that a query selects, one by one (internal/store/queries.go).
use mathlib.Core.List.{Memᴰ}
use mathlib.Core.List.Memᴰ
use public_transport_tracker.Base.{
  ◌≡◌, refl, sym, ap, ◌∙◌, subst, Bool, true, List, [], ◌∷◌, map, All, arith, Bool-cases, inl, inr,
}
use public_transport_tracker.Gtfs.{Row}
use public_transport_tracker.Gtfs.Schema.{any_row}
use public_transport_tracker.Store.Select.{select_where, join_on}

module _ {A : Type 0} where
  pub All-Memᴰ : (P : A → Type 0) (rows : List A) (a : A) → All P rows → Memᴰ a rows → P a
  All-Memᴰ P [] a h m = absurd (Memᴰ.not-nil m)
  All-Memᴰ P (b ∷ rows) a (here, h) (Memᴰ.head e) = subst P (sym e) here
  All-Memᴰ P (b ∷ rows) a (here, h) (Memᴰ.tail m) = All-Memᴰ P rows a h m

  pub All-members : (P : A → Type 0) (rows : List A) → ((a : A) → Memᴰ a rows → P a) → All P rows
  All-members P [] h = tt
  All-members P (a ∷ rows) h = (h a (Memᴰ.head refl), All-members P rows λ b m. h b (Memᴰ.tail m))

  pub Memᴰ-select_where :
      (test : A → Bool) (rows : List A) (a : A)
      → Memᴰ a rows
      → test a ≡ true
      → Memᴰ a (select_where test rows)
  Memᴰ-select_where test [] a m h = m
  Memᴰ-select_where test (b ∷ rows) a (Memᴰ.head e) h =
      let here : test b ≡ true = ap test (sym e) ∙ h in rw here (Memᴰ.head e)
  Memᴰ-select_where test (b ∷ rows) a (Memᴰ.tail m) h =
      let rest = Memᴰ-select_where test rows a m h in
      elim (Bool-cases (test b)) [ inl e ↦ rw e (Memᴰ.tail rest) | inr e ↦ rw e rest ]

  pub select_where-Memᴰ :
      (test : A → Bool) (rows : List A) (a : A)
      → Memᴰ a (select_where test rows)
      → Memᴰ a rows × (test a ≡ true)
  select_where-Memᴰ test [] a m = absurd (Memᴰ.not-nil m)
  select_where-Memᴰ test (b ∷ rows) a m = elim (Bool-cases (test b)) [
    | inl e ↦
        let m' : Memᴰ a (b ∷ select_where test rows) = rw e at m in
        elim (Memᴰ.cases_cons m') [
          | inl same ↦ (Memᴰ.head same, ap test same ∙ e)
          | inr rest ↦ let (there, h) = select_where-Memᴰ test rows a rest in (Memᴰ.tail there, h)
        ]
    | inr e ↦
        let m' : Memᴰ a (select_where test rows) = rw e at m in
        let (there, h) = select_where-Memᴰ test rows a m' in (Memᴰ.tail there, h)
  ]

module _ {A B : Type 0} (test : A → B → Bool) (others : List B) where
  pub Memᴰ-join_on :
      (rows : List A) (a : A) (b : B)
      → Memᴰ a rows
      → Memᴰ b others
      → test a b ≡ true
      → Memᴰ (a, b) (join_on test rows others)
  Memᴰ-join_on [] a b m n h = absurd (Memᴰ.not-nil m)
  Memᴰ-join_on (c ∷ rows) a b (Memᴰ.head e) n h = Memᴰ.append_left (join_on test rows others) (
      Memᴰ.cast (ap (λ x. (x, b)) e) (
        Memᴰ.map (λ y. (c, y))
          (Memᴰ-select_where (test c) others b n (ap (λ x. test x b) (sym e) ∙ h))))
  Memᴰ-join_on (c ∷ rows) a b (Memᴰ.tail m) n h =
      Memᴰ.append_right (map (λ y. (c, y)) (select_where (test c) others))
        (Memᴰ-join_on rows a b m n h)

  pub join_on-Memᴰ :
      (rows : List A) (p : A × B)
      → Memᴰ p (join_on test rows others)
      → Memᴰ p.0 rows × Memᴰ p.1 others × (test p.0 p.1 ≡ true)
  join_on-Memᴰ [] p m = absurd (Memᴰ.not-nil m)
  join_on-Memᴰ (c ∷ rows) p m =
      elim (Memᴰ.append_cases (map (λ y. (c, y)) (select_where (test c) others)) m) [
        | inl here ↦
            let (b, there, same) = Memᴰ.of_map (λ y. (c, y)) (select_where (test c) others) here in
            let (n, h) = select_where-Memᴰ (test c) others b there in
            subst (λ (q : A × B). Memᴰ q.0 (c ∷ rows) × Memᴰ q.1 others × (test q.0 q.1 ≡ true))
              same (Memᴰ.head refl, n, h)
        | inr rest ↦ let (there, n, h) = join_on-Memᴰ rows p rest in (Memᴰ.tail there, n, h)
      ]

module _ {F : Type 0} (test : Row F → Bool) where
  pub Memᴰ-any_row :
      (rows : List (Row F)) (a : Row F) → Memᴰ a rows → test a ≡ true → any_row test rows ≡ true
  Memᴰ-any_row [] a m h = absurd (Memᴰ.not-nil m)
  Memᴰ-any_row (b ∷ rows) a (Memᴰ.head e) h =
      let here : test b ≡ true = ap test (sym e) ∙ h in ground arith
  Memᴰ-any_row (b ∷ rows) a (Memᴰ.tail m) h = ground (arith, Memᴰ-any_row rows a m h)

  pub any_row-Memᴰ :
      (rows : List (Row F)) → any_row test rows ≡ true → (a : Row F) × Memᴰ a rows × (test a ≡ true)
  any_row-Memᴰ [] h = absurd (ground arith)
  any_row-Memᴰ (b ∷ rows) h = elim (Bool-cases (test b)) [
    | inl e ↦ (b, Memᴰ.head refl, e)
    | inr e ↦ let (a, m, k) = any_row-Memᴰ rows (ground arith) in (a, Memᴰ.tail m, k)
  ]
