-- ===== src/Api/Mux/Unique.antt =====
-- Patterns that no path matches together: then the order of the registration does not matter.
use mathlib.Core.List.{Memᴰ}
use public_transport_tracker.Base.{
  string_eq, ◌≡◌, refl, sym, subst, Bool, true, false, ◌&&◌, none, some, List, [], ◌∷◌, All, String,
  if◌then◌else◌, ◌==◌, ==_iff, arith, Option-cases, inl, inr,
}
use public_transport_tracker.Api.Mux.{
  Segment, literal, wildcard, Params, Route, Request, match_path, allows, handled,
  method_not_allowed, not_found, select,
}

-- Whether some path may match both patterns.
abbrev pub overlaps : List Segment → List Segment → Bool
overlaps [] [] = true
overlaps (literal a ∷ p) (literal b ∷ q) = let rest = overlaps p q in a == b && rest
overlaps (literal a ∷ p) (wildcard n ∷ q) = overlaps p q
overlaps (wildcard n ∷ p) (literal b ∷ q) = overlaps p q
overlaps (wildcard n ∷ p) (wildcard m ∷ q) = overlaps p q
overlaps _ _ = false

matched_tail :
    (l : Segment) (p : List Segment) (s : String) (path : List String) (a : Params)
    → match_path (l ∷ p) (s ∷ path) ≡ some a
    → (rest : Params) × (match_path p path ≡ some rest)
unfolding match_path
matched_tail (literal l) p s path a h = elim (Option-cases (match_path p path)) [
  | inr found ↦ found
  | inl e ↦ absurd (ground arith)
]
matched_tail (wildcard n) p s path a h = elim (Option-cases (match_path p path)) [
  | inr found ↦ found
  | inl e ↦ absurd (ground arith)
]

matched_literal :
    (l : String) (p : List Segment) (s : String) (path : List String) (a : Params)
    → match_path (literal l ∷ p) (s ∷ path) ≡ some a
    → l ≡ s
unfolding match_path
matched_literal l p s path a h = ground (arith, ==_iff l s)

overlaps_cons :
    (l t : Segment) (p q : List Segment) (s : String) (path : List String) (a b : Params)
    → match_path (l ∷ p) (s ∷ path) ≡ some a
    → match_path (t ∷ q) (s ∷ path) ≡ some b
    → overlaps p q ≡ true
    → overlaps (l ∷ p) (t ∷ q) ≡ true
overlaps_cons (literal l) (literal m) p q s path a b h k rest =
    ground (arith, ==_iff l m, matched_literal l p s path a h, matched_literal m q s path b k)
overlaps_cons (literal l) (wildcard m) p q s path a b h k rest = rest
overlaps_cons (wildcard n) (literal m) p q s path a b h k rest = rest
overlaps_cons (wildcard n) (wildcard m) p q s path a b h k rest = rest

overlaps_of_matches :
    (p q : List Segment) (path : List String) (a b : Params)
    → match_path p path ≡ some a
    → match_path q path ≡ some b
    → overlaps p q ≡ true
overlaps_of_matches [] [] path a b h k = refl
overlaps_of_matches [] (t ∷ q) [] a b h k = absurd (unfold match_path in ground arith)
overlaps_of_matches [] (t ∷ q) (s ∷ path) a b h k = absurd (unfold match_path in ground arith)
overlaps_of_matches (l ∷ p) q [] a b h k = absurd (unfold match_path in ground arith)
overlaps_of_matches (l ∷ p) [] (s ∷ path) a b h k = absurd (unfold match_path in ground arith)
overlaps_of_matches (l ∷ p) (t ∷ q) (s ∷ path) a b h k =
    let (a', h') = matched_tail l p s path a h in
    let (b', k') = matched_tail t q s path b k in
    overlaps_cons l t p q s path a b h k (overlaps_of_matches p q path a' b' h' k')

-- A pattern that does not overlap one that matches does not match.
unmatched :
    (p q : List Segment) (path : List String) (params : Params)
    → match_path p path ≡ some params
    → overlaps p q ≡ false
    → match_path q path ≡ none
unmatched p q path params h apart = elim (Option-cases (match_path q path)) [
  | inl e ↦ e
  | inr (b, e) ↦ absurd (ground (arith, overlaps_of_matches p q path params b h e))
]

module _ {H : Type 0} where
  -- No two patterns of the list overlap.
  abbrev pub AreDisjoint : List (Route H) → Type 0
  AreDisjoint [] = Unit
  AreDisjoint (r ∷ routes) =
      All (λ (t : Route H). overlaps r.pattern t.pattern ≡ false) routes × AreDisjoint routes

  All-Memᴰ :
      (P : Route H → Type 0) (r : Route H) (routes : List (Route H))
      → All P routes
      → Memᴰ r routes
      → P r
  All-Memᴰ P r [] h m = elim m [ ]
  All-Memᴰ P r (t ∷ routes) (here, h) (Memᴰ.head e) = subst P (sym e) here
  All-Memᴰ P r (t ∷ routes) (here, h) (Memᴰ.tail m) = All-Memᴰ P r routes h m

  select_none :
      (r : Route H) (routes : List (Route H)) (req : Request) (params : Params) (known : Bool)
      → match_path r.pattern req.path ≡ some params
      → All (λ (t : Route H). overlaps r.pattern t.pattern ≡ false) routes
      → select routes req known ≡ (if known then method_not_allowed else not_found)
  unfolding select
  select_none r [] req params known h apart = refl
  select_none r (t ∷ routes) req params known h (here, apart) =
      let miss = unmatched r.pattern t.pattern req.path params h here in
      rw (miss, select) (select_none r routes req params known h apart)

  -- The handler of a route that matches a request gets it, wherever the route stands in the list.
  pub select_unique :
      (routes : List (Route H)) (r : Route H) (req : Request) (params : Params) (known : Bool)
      → AreDisjoint routes
      → Memᴰ r routes
      → match_path r.pattern req.path ≡ some params
      → select routes req known
        ≡ (if allows r.method req.method then handled r.handler params else method_not_allowed)
  unfolding select
  select_unique [] r req params known disjoint m h = elim m [ ]
  select_unique (t ∷ routes) r req params known (apart, disjoint) (Memᴰ.head e) h =
      let hit : match_path t.pattern req.path ≡ some params = rw e at h in
      rw (e, hit, select) (ground (arith, select_none t routes req params true hit apart))
  select_unique (t ∷ routes) r req params known (apart, disjoint) (Memᴰ.tail m) h =
      let here : overlaps t.pattern r.pattern ≡ false = All-Memᴰ _ r routes apart m in
      elim (Option-cases (match_path t.pattern req.path)) [
        | inl miss ↦ rw (miss, select) (select_unique routes r req params known disjoint m h)
        | inr (b, hit) ↦
            absurd (ground (arith, overlaps_of_matches t.pattern r.pattern req.path b params hit h))
      ]
