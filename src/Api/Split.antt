-- ===== src/Api/Split.antt =====
-- `split` of internal/api/handlers.go, on the bytes of a string.
use public_transport_tracker.Base.{
  ℕ, ◌+◌, ◌-◌, ◌≡◌, refl, ◌∙◌, ap, false, List, [], ◌∷◌, ◌++◌, append-nil, append_assoc,
  if◌then◌else◌, nat_beq, nat_beq_iff, arith, length, length-append, All, All-append, take, drop,
  Bool-cases, inl, inr,
}

abbrev pub Bytes : Type 0
Bytes = List ℕ

-- s[lo:hi]
abbrev pub slice : Bytes → ℕ → ℕ → Bytes
slice s lo hi = take (hi - lo) (drop lo s)

-- The loop over `i`, where `rest` is s[i:].
unfoldable pub split_range : Bytes → ℕ → Bytes → (i start : ℕ) → List Bytes → List Bytes
split_range s sep [] i start parts = parts ++ drop start s ∷ []
split_range s sep (b ∷ rest) i start parts =
    split_range s sep rest (i + 1) (if nat_beq b sep then i + 1 else start)
      (if nat_beq b sep then parts ++ slice s start i ∷ [] else parts)

unfoldable pub split : Bytes → ℕ → List Bytes
unfolding split_range
split s sep = split_range s sep s 0 0 []

-- The parts with the separator between them.
abbrev pub join : ℕ → List Bytes → Bytes
join sep [] = []
join sep (p ∷ []) = p
join sep (p ∷ q ∷ parts) = p ++ sep ∷ join sep (q ∷ parts)

-- Every part behind a separator.
abbrev prefixed : ℕ → List Bytes → Bytes
prefixed sep [] = []
prefixed sep (p ∷ parts) = (sep ∷ p) ++ prefixed sep parts

prefixed-append :
    (sep : ℕ) (ps qs : List Bytes) → prefixed sep (ps ++ qs) ≡ prefixed sep ps ++ prefixed sep qs
prefixed-append sep [] qs = refl
prefixed-append sep (p ∷ ps) qs = simp (prefixed-append sep ps qs, append_assoc)

prefixed-join :
    (sep : ℕ) (p : Bytes) (parts : List Bytes)
    → prefixed sep (p ∷ parts) ≡ sep ∷ join sep (p ∷ parts)
prefixed-join sep p [] = rw append-nil
prefixed-join sep p (q ∷ parts) = ap (λ t. sep ∷ (p ++ t)) (prefixed-join sep q parts)

join-of_prefixed :
    (sep : ℕ) (s : Bytes) (parts : List Bytes) → prefixed sep parts ≡ sep ∷ s → join sep parts ≡ s
join-of_prefixed sep s [] e = absurd (ground arith)
join-of_prefixed sep s (p ∷ parts) e = ground (arith, prefixed-join sep p parts)

abbrev pub Lacks : ℕ → Bytes → Type 0
Lacks sep = All λ b. nat_beq b sep ≡ false

abbrev pub count_bytes : ℕ → Bytes → ℕ
count_bytes sep [] = 0
count_bytes sep (b ∷ s) = (if nat_beq b sep then 1 else 0) + count_bytes sep s

-- The slice of a text in three pieces.
drop-append : (xs ys : Bytes) → drop (length xs) (xs ++ ys) ≡ ys
drop-append [] ys = refl
drop-append (x ∷ xs) ys = drop-append xs ys

take-append : (xs ys : Bytes) → take (length xs) (xs ++ ys) ≡ xs
take-append [] ys = refl
take-append (x ∷ xs) ys = ap (λ t. x ∷ t) (take-append xs ys)

slice_middle :
    (s pre cur rest : Bytes)
    → s ≡ pre ++ (cur ++ rest)
    → slice s (length pre) (length pre + length cur) ≡ cur
slice_middle s pre cur rest e =
    let n : length pre + length cur - length pre ≡ length cur = omega arith in
    rw (n, e, drop-append pre (cur ++ rest)) (take-append cur rest)

module _ (s : Bytes) (sep : ℕ) where
  -- With `pre` before the current part and `cur` read of it, the loop adds the parts of the rest.
  split_range_lem :
      (rest pre cur : Bytes) (parts : List Bytes)
      → s ≡ pre ++ (cur ++ rest)
      → Lacks sep cur
      → All (Lacks sep) parts
      → let out = split_range s sep rest (length pre + length cur) (length pre) parts in
        (prefixed sep out ≡ prefixed sep parts ++ sep ∷ (cur ++ rest))
        × All (Lacks sep) out
        × (length out ≡ length parts + count_bytes sep rest + 1)
  unfolding split_range
  split_range_lem [] pre cur parts e hc hp =
      let last : drop (length pre) s ≡ cur ++ [] = rw e (drop-append pre (cur ++ [])) in
      rw last (
        prefixed-append sep parts ((cur ++ []) ∷ []) ∙ rw append-nil,
        All-append (Lacks sep) parts ((cur ++ []) ∷ []) hp (rw append-nil hc, tt),
        omega (arith, length-append parts ((cur ++ []) ∷ [])),
      )
  split_range_lem (b ∷ rest) pre cur parts e hc hp =
      let here : slice s (length pre) (length pre + length cur) ≡ cur =
        slice_middle s pre cur (b ∷ rest) e in
      let n : length (pre ++ (cur ++ b ∷ [])) ≡ length pre + length cur + 1 =
        omega (arith, length-append pre (cur ++ b ∷ []), length-append cur (b ∷ [])) in
      elim (Bool-cases (nat_beq b sep)) [
        | inl hit ↦
            let same : b ≡ sep = (nat_beq_iff b sep).0 hit in
            let (joined, lacks, count) =
              split_range_lem rest (pre ++ (cur ++ b ∷ [])) [] (parts ++ cur ∷ [])
                (simp append_assoc e) tt (All-append (Lacks sep) parts (cur ∷ []) hp (hc, tt)) in
            let m : length (pre ++ (cur ++ b ∷ [])) + 0 ≡ length pre + length cur + 1 =
              omega (arith, n) in
            rw (hit, here)
              (
                (rw (m, n) at joined)
                    ∙ simp (prefixed-append sep parts (cur ∷ []), append_assoc, append-nil, same)
                        refl,
                rw (m, n) at lacks,
                (rw (m, n) at count) ∙ omega (arith, length-append parts (cur ∷ [])),
              )
        | inr miss ↦
            let (joined, lacks, count) =
              split_range_lem rest pre (cur ++ b ∷ []) parts (simp append_assoc e)
                (All-append (λ c. nat_beq c sep ≡ false) cur (b ∷ []) hc (miss, tt)) hp in
            let k : length pre + length (cur ++ b ∷ []) ≡ length pre + length cur + 1 =
              omega (arith, length-append cur (b ∷ [])) in
            rw miss (
              (rw k at joined) ∙ simp append_assoc refl,
              rw k at lacks,
              (rw k at count) ∙ omega arith,
            )
      ]

-- The parts put together with the separator are the text again, none of them holds the separator,
-- and there is one more of them than separators in the text.
pub split-join :
    (s : Bytes) (sep : ℕ)
    → (join sep (split s sep) ≡ s)
      × All (Lacks sep) (split s sep)
      × (length (split s sep) ≡ count_bytes sep s + 1)
unfolding split
split-join s sep =
    let (joined, lacks, count) = split_range_lem s sep s [] [] [] refl tt tt in
    (join-of_prefixed sep s _ joined, lacks, count ∙ omega arith)
