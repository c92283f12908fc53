-- ===== src/Hand/Straight/Windows.antt =====
-- The windows of five in `check_straight` of Poker/src/hand.rs.
use rust_poker.Base.{
  ℕ, suc, ◌+◌, ◌-◌, ◌≤◌, ◌<◌, ◌≡◌, ◌≢◌, ◌⊎◌, inl, inr, refl, List, [], ◌∷◌, some, true, false, ◌==◌,
  arith, contains, Bool-cases, All,
}
use native.Mathlib.Decide.{ℕ_discrete}
use rust_poker.Hand.Straight.{sub8, fifth, scan_windows}
use rust_poker.Hand.Straight.Falling.{Falls}

-- The five values from `low` on all occur.
abbrev pub HasRun : ℕ → List ℕ → Type 0
HasRun low vs =
    (contains vs low ≡ true)
    × (contains vs (low + 1) ≡ true)
    × (contains vs (low + 2) ≡ true)
    × (contains vs (low + 3) ≡ true)
    × (contains vs (low + 4) ≡ true)

pub scan_windows-HasRun :
    (l : List ℕ) (h : ℕ)
    → Falls l
    → All (λ v. v < 256) l
    → scan_windows l ≡ some h
    → (4 ≤ h) × HasRun (h - 4) l
unfolding scan_windows
scan_windows-HasRun [] h f b e = absurd (ground arith)
scan_windows-HasRun (v ∷ []) h f b e = absurd (ground arith)
scan_windows-HasRun (v ∷ w ∷ []) h f b e = absurd (ground arith)
scan_windows-HasRun (v ∷ w ∷ x ∷ []) h f b e = absurd (ground arith)
scan_windows-HasRun (v ∷ w ∷ x ∷ y ∷ []) h f b e = absurd (ground arith)
scan_windows-HasRun (v ∷ w ∷ x ∷ y ∷ z ∷ r) h f b e = elim (Bool-cases (sub8 v z == 4)) [
  | inl t ↦ ground arith
  | inr t ↦ ground (arith, scan_windows-HasRun (w ∷ x ∷ y ∷ z ∷ r) h f.1 b.1)
]

not-contains_above : (j x : ℕ) (xs : List ℕ) → All (λ v. v < x) xs → x ≤ j → contains xs j ≡ false
not-contains_above j x [] a h = refl
not-contains_above j x (y ∷ ys) a h = ground (arith, not-contains_above j x ys a.1 h)

next_of_run :
    (j : ℕ) (l : List ℕ)
    → All (λ v. v < suc j) l
    → Falls l
    → contains l j ≡ true
    → (r : List ℕ) × (l ≡ j ∷ r)
next_of_run j [] a f h = absurd (ground arith)
next_of_run j (x ∷ xs) a f h = (xs, ground (arith, not-contains_above j x xs f.0))

fifth_of_run :
    (low v : ℕ) (rest : List ℕ)
    → v ≡ low + 4
    → Falls (v ∷ rest)
    → HasRun low (v ∷ rest)
    → fifth (v ∷ rest) ≡ some low
fifth_of_run low v [] e f h = absurd (ground arith)
fifth_of_run low v (w ∷ []) e f h = absurd (ground arith)
fifth_of_run low v (w ∷ x ∷ []) e f h = absurd (ground arith)
fifth_of_run low v (w ∷ x ∷ y ∷ []) e f h = absurd (ground arith)
fifth_of_run low v (w ∷ x ∷ y ∷ z ∷ r) e f h = ground (
  arith,
  not-contains_above low z r f.1.1.1.1.0,
  not-contains_above (low + 1) z r f.1.1.1.1.0,
  not-contains_above (low + 2) z r f.1.1.1.1.0,
  not-contains_above (low + 3) z r f.1.1.1.1.0,
)

fifth_of_scan :
    (v h : ℕ) (rest : List ℕ) → scan_windows rest ≡ some h → (e : ℕ) × (fifth (v ∷ rest) ≡ some e)
unfolding scan_windows
fifth_of_scan v h [] e = absurd (ground arith)
fifth_of_scan v h (w ∷ []) e = absurd (ground arith)
fifth_of_scan v h (w ∷ x ∷ []) e = absurd (ground arith)
fifth_of_scan v h (w ∷ x ∷ y ∷ []) e = absurd (ground arith)
fifth_of_scan v h (w ∷ x ∷ y ∷ z ∷ r) e = (z, refl)

-- What `scan_windows` does with an element in front of a list where it finds a run.
scan_windows-cons :
    (v h : ℕ) (rest : List ℕ)
    → scan_windows rest ≡ some h
    → (scan_windows (v ∷ rest) ≡ some v) ⊎ (scan_windows (v ∷ rest) ≡ some h)
unfolding scan_windows
scan_windows-cons v h rest e = go (fifth_of_scan v h rest e)
  where
    go :
        (z : ℕ) × (fifth (v ∷ rest) ≡ some z)
        → (scan_windows (v ∷ rest) ≡ some v) ⊎ (scan_windows (v ∷ rest) ≡ some h)
    go (z, f) = elim (Bool-cases (sub8 v z == 4)) [
      | inl t ↦ inl (rw (scan_windows, f, t))
      | inr t ↦ inr (rw (scan_windows, f, t) e)
    ]

HasRun-tail :
    (low v : ℕ) (rest : List ℕ)
    → v ≢ low + 4
    → Falls (v ∷ rest)
    → HasRun low (v ∷ rest)
    → HasRun low rest × (low + 4 < v)
HasRun-tail low v rest n f h = ground (arith, not-contains_above (low + 4) v rest f.0)

pub scan_windows-of_HasRun :
    (low : ℕ) (l : List ℕ)
    → Falls l
    → All (λ v. v < 256) l
    → HasRun low l
    → (h : ℕ) × (scan_windows l ≡ some h) × (low + 4 ≤ h)
unfolding scan_windows
scan_windows-of_HasRun low [] f b r = absurd (ground arith)
scan_windows-of_HasRun low (v ∷ rest) f b r = elim (ℕ_discrete v (low + 4)) [
  | yes e ↦ (v, rw (scan_windows, fifth_of_run low v rest e f r) (ground arith), omega arith)
  | no n ↦
      let (run, above) = HasRun-tail low v rest n f r in
      keep (scan_windows-of_HasRun low rest f.1 b.1 run) above
]
  where
    keep :
        (h : ℕ) × (scan_windows rest ≡ some h) × (low + 4 ≤ h)
        → low + 4 < v
        → (h : ℕ) × (scan_windows (v ∷ rest) ≡ some h) × (low + 4 ≤ h)
    keep (h, e, le) above = elim (scan_windows-cons v h rest e) [
      | inl first ↦ (v, first, omega arith)
      | inr later ↦ (h, later, le)
    ]
