-- ===== src/Hand.antt =====
-- Poker/src/hand.rs: the hand itself. The children model its parts: `Rank` the ranks and their
-- order, `Text` their text, `Straight` and `Evaluate` the evaluation, `Used` and `Against` the
-- cards that a showdown points out.
pub mod Rank
pub mod Straight
pub mod Evaluate
pub mod Text
pub mod Used
use Prim.Native.String.{String, ◌++◌}
use rust_poker.Base.{ℕ, List, [], ◌∷◌, map, if◌then◌else◌}
use rust_poker.Card.{from_encoded, face_up}
use rust_poker.Card

pub record Hand : Type 0 where
  pub cards : List ℕ

unfoldable pub new : Hand
new = record { cards = [] }

-- The other players see a face-down card as 0.
unfoldable pub to_broadcast : Hand → Hand
to_broadcast h = record { cards = map (λ c. if face_up (from_encoded c) then c else 0) h.cards }

-- `join` on a vector of texts.
unfoldable pub join : String → List String → String
join sep [] = ""
join sep (s ∷ []) = s
join sep (s ∷ t ∷ rest) = s ++ sep ++ join sep (t ∷ rest)

-- `Display::fmt`.
unfoldable pub to_string : Hand → String
unfolding join
to_string h = join ", " (map (λ c. Card.to_string (from_encoded c)) h.cards)
