-- ===== src/Game/SevenCardStud/Laws.antt =====
-- The deal of Poker/src/games/sevencardstud.rs.
use rust_poker.Base.{
  ℕ, zero, suc, refl, ◌+◌, ◌≤◌, ◌<◌, ◌≡◌, ap, List, ◌∷◌, ◌++◌, some, false, arith, map, length,
  length-append, length-map, ltb,
}
use rust_poker.Card.{from_encoded, flip_up}
use rust_poker.Deck
use rust_poker.Deck.{Deck}
use rust_poker.Deck.Laws.{deal_splits, deal_face_up-deal}
use rust_poker.Deck.Weight.{weigh, weigh-append, weigh-deal, weigh-deal_face_up, IsFaceBlind}
use rust_poker.Player.{Player, Addr}
use rust_poker.Store.{Store}
use rust_poker.Store.Links.{Ring}
use rust_poker.Game.Cards.{KeepsCards, Differ, held, deal_loop-keeps}
use rust_poker.Game.SevenCardStud.{
  State, cards_in_round, deal_to_player, advance_round, handle_round_action,
}

deal_to_player-keeps : (w : ℕ → ℕ) → IsFaceBlind w → KeepsCards deal_to_player (λ g. g.deck) w
unfolding deal_to_player
deal_to_player-keeps w blind p g =
    let down = (cards_in_round g.round).0 in
    let up = (cards_in_round g.round).1 in
    let dealt = Deck.deal down g.deck in
    ground (
      arith,
      weigh-deal w down g.deck,
      weigh-deal_face_up w up dealt.0 blind,
      weigh-append w p.hand.cards dealt.1,
      weigh-append w (p.hand.cards ++ dealt.1) (Deck.deal_face_up up dealt.0).1,
    )

-- Each dealing round of seven-card stud ends on a ring of two or more and keeps all cards: for every
-- weight that does not see the face-up mark, the hands and the deck together weigh what they did.
pub seven_card_stud-keeps_cards :
    (w : ℕ → ℕ) (s : Store) (head : Addr) (rest : List Addr) (fuel : ℕ) (g : State)
    → IsFaceBlind w
    → g.round ≤ 4
    → Ring s head rest
    → Differ (head ∷ rest)
    → length (head ∷ rest) < fuel
    → (g' : State) × (s' : Store) × (handle_round_action fuel (some head) (g, s)
        ≡ some ((g', s'), false))
      × (held w s' (head ∷ rest) + weigh w g'.deck.cards
          ≡ held w s (head ∷ rest) + weigh w g.deck.cards)
unfolding handle_round_action
seven_card_stud-keeps_cards w s head rest fuel g blind early r d h =
    let ((g', s'), e, keeps) =
      deal_loop-keeps deal_to_player (λ g. g.deck) w (deal_to_player-keeps w blind) s head rest fuel
        g r d h in
    let t : ltb 4 g.round ≡ false = ground arith in (g', s', rw (e, t), keeps)

-- The number of cards that a player gets in a round.
abbrev pub dealt_in : ℕ → ℕ
dealt_in round = (cards_in_round round).0 + (cards_in_round round).1

deal_to_player-length :
    (p : Player) (g : State)
    → p.folded ≡ false
    → dealt_in g.round ≤ length g.deck.cards
    → (length (deal_to_player p g).0.hand.cards ≡ length p.hand.cards + dealt_in g.round)
      × (length (deal_to_player p g).1.deck.cards + dealt_in g.round ≡ length g.deck.cards)
      × ((deal_to_player p g).1.round ≡ g.round)
      × ((deal_to_player p g).0.folded ≡ false)
unfolding deal_to_player
deal_to_player-length p g f h =
    let down = (cards_in_round g.round).0 in
    let up = (cards_in_round g.round).1 in
    let dealt = Deck.deal down g.deck in
    let one = deal_splits down g.deck in
    let two = deal_splits up dealt.0 in
    rw (f, deal_face_up-deal up dealt.0)
      (
        omega (
          arith,
          length-append (p.hand.cards ++ dealt.1) (map turned (Deck.deal up dealt.0).1),
          length-append p.hand.cards dealt.1,
          length-map turned (Deck.deal up dealt.0).1,
          one,
          two,
        ),
        omega (arith, one, two),
        refl,
        refl,
      )
  where
    turned : ℕ → ℕ
    turned c = (flip_up (from_encoded c)).byte

-- A player's deal in the rounds from the current one on, `advance_round` after each.
unfoldable pub deal_rounds : ℕ → Player × State → Player × State
deal_rounds zero pg = pg
deal_rounds (suc n) (p, g) =
    let (p', g') = deal_to_player p g in deal_rounds n (p', advance_round g')

dealt_over : ℕ → ℕ → ℕ
dealt_over zero round = 0
dealt_over (suc n) round = dealt_in round + dealt_over n (round + 1)

deal_rounds-length :
    (n : ℕ) (p : Player) (g : State)
    → p.folded ≡ false
    → g.round + n ≤ 5
    → dealt_over n g.round ≤ length g.deck.cards
    → (length (deal_rounds n (p, g)).0.hand.cards ≡ length p.hand.cards + dealt_over n g.round)
      × (length (deal_rounds n (p, g)).1.deck.cards + dealt_over n g.round ≡ length g.deck.cards)
unfolding deal_rounds dealt_over advance_round
deal_rounds-length zero p g f b h = (omega arith, omega arith)
deal_rounds-length (suc n) p g f b h =
    let (grown, shrunk, same, kept) = deal_to_player-length p g f (omega arith) in
    let (q, g') = deal_to_player p g in
    let at : (advance_round g').round ≡ g.round + 1 = next g' same in
    let later =
      deal_rounds-length n q (advance_round g') kept (omega (arith, at))
        (rw at (omega (arith, shrunk, left g'))) in
    let sum = ap (dealt_over n) at in
    (omega (arith, later, grown, sum), omega (arith, later, shrunk, sum, left g'))
  where
    next : (g' : State) → g'.round ≡ g.round → (advance_round g').round ≡ g.round + 1
    next g' e = omega arith

    left : (g' : State) → length (advance_round g').deck.cards ≡ length g'.deck.cards
    left g' = refl

-- A player who has not folded gets seven cards over the five dealing rounds, and the deck loses as
-- many, if it has them.
seven_cards :
    (p : Player) (g : State)
    → p.folded ≡ false
    → g.round ≡ 0
    → 7 ≤ length g.deck.cards
    → (length (deal_rounds 5 (p, g)).0.hand.cards ≡ length p.hand.cards + 7)
      × (length (deal_rounds 5 (p, g)).1.deck.cards + 7 ≡ length g.deck.cards)
unfolding dealt_over cards_in_round
seven_cards p g f e h =
    let total : dealt_over 5 g.round ≡ 7 = rw e in
    let (grown, shrunk) = deal_rounds-length 5 p g f (omega arith) (omega (arith, total)) in
    (omega (arith, grown, total), omega (arith, shrunk, total))
