-- ===== src/Hand/Straight/Laws.antt =====
-- `check_straight` of Poker/src/hand.rs: what it reports.
use rust_poker.Base.{
  ℕ, ◌+◌, ◌-◌, ◌≤◌, ◌<◌, ◌≡◌, ◌⊎◌, inl, inr, sym, ◌∙◌, List, [], ◌∷◌, some, true, map, ◌==◌, arith,
  contains, Bool-cases, All, subst, ==_iff,
}
use rust_poker.Hand.Straight.{list_eq, ace_high, descending, unique_values, check_straight}
use rust_poker.Hand.Straight.Falling.{unique_values-Falls, contains-unique_values}
use rust_poker.Hand.Straight.Windows.{HasRun, scan_windows-HasRun, scan_windows-of_HasRun}

All-of_contains : (P : ℕ → Type 0) (xs : List ℕ) → ((a : ℕ) → contains xs a ≡ true → P a) → All P xs
All-of_contains P [] h = tt
All-of_contains P (x ∷ xs) h =
    (h x (ground arith), All-of_contains P xs (λ a m. h a (ground arith)))

contains-All : (P : ℕ → Type 0) (a : ℕ) (xs : List ℕ) → All P xs → contains xs a ≡ true → P a
contains-All P a [] h m = absurd (ground arith)
contains-All P a (x ∷ xs) h m = elim (Bool-cases (x == a)) [
  | inl t ↦ subst P ((==_iff x a).0 t) h.0
  | inr t ↦ contains-All P a xs h.1 (ground arith)
]

All-ace_high : (xs : List ℕ) → All (λ v. v < 256) xs → All (λ v. v < 256) (map ace_high xs)
All-ace_high [] b = tt
All-ace_high (x ∷ xs) b = (ground arith, All-ace_high xs b.1)

unique_values-bounded :
    (values : List ℕ) → All (λ v. v < 256) values → All (λ v. v < 256) (unique_values values)
unique_values-bounded values b =
    All-of_contains (λ v. v < 256) (unique_values values)
      λ a m.
        contains-All (λ v. v < 256) a (map ace_high values) (All-ace_high values b)
          (sym (contains-unique_values a values) ∙ m)

HasRun-unique_values :
    (low : ℕ) (values : List ℕ)
    → (HasRun low (unique_values values) → HasRun low (map ace_high values))
      × (HasRun low (map ace_high values) → HasRun low (unique_values values))
HasRun-unique_values low values =
    let c = λ (a : ℕ). contains-unique_values a values in
    (
      ground (arith, c low, c (low + 1), c (low + 2), c (low + 3), c (low + 4)),
      ground (arith, c low, c (low + 1), c (low + 2), c (low + 3), c (low + 4)),
    )

-- The wheel: exactly the values ace to five.
abbrev pub IsWheel : List ℕ → Type 0
IsWheel values = list_eq (descending values) (5 ∷ 4 ∷ 3 ∷ 2 ∷ 1 ∷ []) ≡ true

-- A straight that `check_straight` reports is there: the five values down from the reported one
-- occur, an ace counting 14, unless the values are exactly ace to five.
pub check_straight-HasRun :
    (values : List ℕ) (h : ℕ)
    → All (λ v. v < 256) values
    → check_straight values ≡ some h
    → (IsWheel values × (h ≡ 5)) ⊎ ((4 ≤ h) × HasRun (h - 4) (map ace_high values))
unfolding check_straight
check_straight-HasRun values h b e =
    elim (Bool-cases (list_eq (descending values) (5 ∷ 4 ∷ 3 ∷ 2 ∷ 1 ∷ []))) [
      | inl t ↦ inl (t, ground arith)
      | inr t ↦
          let (le, run) =
            scan_windows-HasRun (unique_values values) h (unique_values-Falls values)
              (unique_values-bounded values b) (ground arith) in
          inr (le, (HasRun-unique_values (h - 4) values).0 run)
    ]

-- No straight is missed, an ace counting 14: where five consecutive values occur, the value
-- reported is that of a run at least as high, unless the values are exactly ace to five.
pub check_straight-of_HasRun :
    (values : List ℕ) (low : ℕ)
    → All (λ v. v < 256) values
    → HasRun low (map ace_high values)
    → (h : ℕ) × (check_straight values ≡ some h) × ((low + 4 ≤ h) ⊎ IsWheel values)
unfolding check_straight
check_straight-of_HasRun values low b r =
    elim (Bool-cases (list_eq (descending values) (5 ∷ 4 ∷ 3 ∷ 2 ∷ 1 ∷ []))) [
      | inl t ↦ (5, rw t, inr t)
      | inr t ↦
          let (h, e, le) =
            scan_windows-of_HasRun low (unique_values values) (unique_values-Falls values)
              (unique_values-bounded values b) ((HasRun-unique_values low values).1 r) in
          (h, rw t e, inl le)
    ]
