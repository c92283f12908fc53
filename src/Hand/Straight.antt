-- ===== src/Hand/Straight.antt =====
-- `check_straight` of Poker/src/hand.rs.
pub mod Falling
pub mod Windows
pub mod Laws
use rust_poker.Base.{
  ℕ, suc, ◌+◌, ◌-◌, ◌%◌, List, [], ◌∷◌, Option, none, some, Bool, true, false, ◌&&◌, map, reverse,
  compare, ◌==◌, if◌then◌else◌,
}
use rust_poker.Base.Sort.{sort_by}

-- Subtraction on `u8`, wrapping.
abbrev pub sub8 : ℕ → ℕ → ℕ
sub8 a b = (a + 256 - b) % 256

-- `==` on vectors.
abbrev pub list_eq : List ℕ → List ℕ → Bool
list_eq [] [] = true
list_eq [] (y ∷ ys) = false
list_eq (x ∷ xs) [] = false
list_eq (x ∷ xs) (y ∷ ys) = (x == y) && list_eq xs ys

-- An ace counts 14.
abbrev pub ace_high : ℕ → ℕ
ace_high v = if v == 1 then 14 else v

-- `dedup` drops each element that equals the one before it.
abbrev pub dedup_from : ℕ → List ℕ → List ℕ
dedup_from a [] = []
dedup_from a (x ∷ xs) = if a == x then dedup_from a xs else x ∷ dedup_from x xs

abbrev pub dedup : List ℕ → List ℕ
dedup [] = []
dedup (x ∷ xs) = x ∷ dedup_from x xs

abbrev pub descending : List ℕ → List ℕ
descending values = reverse (sort_by compare values)

-- The window's last element, if five are left.
abbrev pub fifth : List ℕ → Option ℕ
fifth (a ∷ b ∷ c ∷ d ∷ e ∷ rest) = some e
fifth _ = none

-- The loop over the windows of five; the argument is the list from index `i` on.
unfoldable pub scan_windows : List ℕ → Option ℕ
scan_windows [] = none
scan_windows (a ∷ rest) =
    let next = scan_windows rest in
    elim (fifth (a ∷ rest)) [ none ↦ none | some e ↦ if sub8 a e == 4 then some a else next ]

-- The distinct values from the highest, an ace counting 14.
unfoldable pub unique_values : List ℕ → List ℕ
unique_values values = dedup (descending (map ace_high (descending values)))

unfoldable pub check_straight : List ℕ → Option ℕ
unfolding scan_windows unique_values
check_straight values =
    if list_eq (descending values) (5 ∷ 4 ∷ 3 ∷ 2 ∷ 1 ∷ [])
    then some 5
    else scan_windows (unique_values values)
