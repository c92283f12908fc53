-- ===== src/Game/FiveCardDraw/Laws.antt =====
-- Laws of the draw in Poker/src/games/fivecarddraw.rs.
use rust_poker.Base.{
  ℕ, String, ◌+◌, ◌≤◌, ◌≡◌, ◌≢◌, refl, sym, ap, ◌∙◌, ◌⊎◌, inl, inr, List, [], ◌∷◌, ◌++◌, some, true,
  false, ◌==◌, ltb, ltb→le, arith, length, length-append, occurs, Bool-cases, Option-cases,
}
use rust_poker.Card.{from_encoded, decode}
use rust_poker.Deck
use rust_poker.Deck.Laws.{occurs-append, deal_splits}
use rust_poker.Player.{PlayerNode}
use rust_poker.Game.{Action, done, refused, panics}
use rust_poker.Game.FiveCardDraw.{
  State, remove_card, remove_all, keeps_ace, replaced, replace_cards,
}

remove_card-occurs :
    (a card : ℕ) (hand rest : List ℕ)
    → remove_card card hand ≡ some rest
    → (occurs a hand ≡ occurs a (card ∷ rest)) × (length hand ≡ length rest + 1)
unfolding remove_card
remove_card-occurs a card [] rest e = absurd (ground arith)
remove_card-occurs a card (c ∷ cs) rest e = elim (Option-cases (remove_card card cs)) [
  | inl n ↦ ground arith
  | inr (r, f) ↦ ground (arith, remove_card-occurs a card cs r f)
]

remove_all-occurs :
    (a : ℕ) (ds hand rest : List ℕ)
    → remove_all ds hand ≡ some rest
    → (occurs a hand ≡ occurs a rest + occurs a ds) × (length hand ≡ length rest + length ds)
unfolding remove_all
remove_all-occurs a [] hand rest e = ground arith
remove_all-occurs a (d ∷ ds) hand rest e = elim (Option-cases (remove_card d hand)) [
  | inl n ↦ absurd (ground arith)
  | inr (r, f) ↦ ground (arith, remove_card-occurs a d hand r f, remove_all-occurs a ds r rest)
]

-- What must hold for a draw to be made.
pub record IsAllowed (discard hand kept : List ℕ) : Type 0 where
  pub taken : remove_all discard hand ≡ some kept
  pub few : length discard ≤ 4
  pub ace : length discard ≡ 4 → keeps_ace kept ≡ done

keeps_ace_cases :
    (kept : List ℕ)
    → (keeps_ace kept ≡ done)
      ⊎ ((text : String) × (keeps_ace kept ≡ refused text))
      ⊎ ((keeps_ace kept ≡ panics) × (kept ≡ []))
unfolding keeps_ace
keeps_ace_cases [] = inr (inr (refl, refl))
keeps_ace_cases (c ∷ cs) = elim (Bool-cases ((decode (from_encoded c)).1 == 1)) [
  | inl t ↦ inl (rw t)
  | inr t ↦ inr (inl ("[ERROR] Can only discard 4 if last card is an ace!!", rw t))
]

-- Every way in which `replace_cards` can end: the draw is made, it is refused with all as it was,
-- or it panics on a hand of four cards.
abbrev Ends : PlayerNode → List ℕ → State → Type 0
Ends node discard g =
    ((kept : List ℕ) × IsAllowed discard node.player.hand.cards kept
      × (replace_cards node discard g ≡ (replaced node g kept (length discard), done)))
    ⊎ ((text : String) × (replace_cards node discard g ≡ ((node, g), refused text)))
    ⊎ ((replace_cards node discard g ≡ ((node, g), panics)) × (length node.player.hand.cards ≡ 4))

replace_four :
    (node : PlayerNode) (discard : List ℕ) (g : State) (kept : List ℕ)
    → ltb 4 (length discard) ≡ false
    → remove_all discard node.player.hand.cards ≡ some kept
    → (length discard == 4) ≡ true
    → Ends node discard g
unfolding replace_cards
replace_four node discard g kept t f u = elim (keeps_ace_cases kept) [
  | inl k ↦
      inl (
        kept,
        record { taken = f; few = ltb→le 4 (length discard) t; ace = λ _. k },
        rw (t, f, u, k),
      )
  | inr (inl (text, k)) ↦ inr (inl (text, rw (t, f, u, k)))
  | inr (inr (k, empty)) ↦ inr (
      inr (
        rw (t, f, u, k),
        ground (arith, (remove_all-occurs 0 discard node.player.hand.cards kept f).1),
      ))
]

replace_cards_cases : (node : PlayerNode) (discard : List ℕ) (g : State) → Ends node discard g
unfolding replace_cards
replace_cards_cases node discard g = elim (Bool-cases (ltb 4 (length discard))) [
  | inl t ↦ inr (inl ("[ERROR] Discard less cards!!", rw t))
  | inr t ↦ elim (Option-cases (remove_all discard node.player.hand.cards)) [
    | inl n ↦ inr (inl ("Card not in hand", rw (t, n)))
    | inr (kept, f) ↦ elim (Bool-cases (length discard == 4)) [
      | inl u ↦ replace_four node discard g kept t f u
      | inr u ↦ inl (
        kept,
        record {
          taken = f;
          few = ltb→le 4 (length discard) t;
          ace = λ four. absurd (ground arith);
        },
        rw (t, f, u),
      )
    ]
  ]
]

-- A draw that is made discards four cards at most, and loses and invents no card: the new hand, the
-- discarded cards and the deck hold each card as often as the old hand and deck did. The hand keeps
-- its size if the deck has enough cards.
pub replace_cards_keeps_cards :
    (node node' : PlayerNode) (discard : List ℕ) (g g' : State)
    → replace_cards node discard g ≡ ((node', g'), done)
    → (length discard ≤ 4)
      × ((a : ℕ)
          → occurs a node'.player.hand.cards + occurs a discard + occurs a g'.deck.cards
            ≡ occurs a node.player.hand.cards + occurs a g.deck.cards)
      × (length discard ≤ length g.deck.cards
          → length node'.player.hand.cards ≡ length node.player.hand.cards)
replace_cards_keeps_cards node node' discard g g' e = elim (replace_cards_cases node discard g) [
  | inl (kept, a, f) ↦
      let r = sym e ∙ f in
      let (dealt, size, left) = deal_splits (length discard) g.deck in
      let hand : node'.player.hand.cards ≡ kept ++ (Deck.deal (length discard) g.deck).1 =
        ap (λ (x : (PlayerNode × State) × Action). x.0.0.player.hand.cards) r in
      let deck : g'.deck.cards ≡ (Deck.deal (length discard) g.deck).0.cards =
        ap (λ (x : (PlayerNode × State) × Action). x.0.1.deck.cards) r in
      (
        a.few,
        λ c. omega (
          arith,
          ap (occurs c) hand,
          ap (occurs c) deck,
          ap (occurs c) dealt,
          occurs-append c kept (Deck.deal (length discard) g.deck).1,
          occurs-append c (Deck.deal (length discard) g.deck).0.cards
              (Deck.deal (length discard) g.deck).1,
          remove_all-occurs c discard node.player.hand.cards kept a.taken,
        ),
        λ enough. omega (
          arith,
          ap length hand,
          length-append kept (Deck.deal (length discard) g.deck).1,
          remove_all-occurs 0 discard node.player.hand.cards kept a.taken,
        ),
      )
  | inr (inl (text, f)) ↦ absurd (ground arith)
  | inr (inr (f, four)) ↦ absurd (ground arith)
]

-- A draw that is not made changes nothing, and only a hand of four cards can make it panic.
pub replace_cards_refusal :
    (node : PlayerNode) (discard : List ℕ) (g : State)
    → (replace_cards node discard g).1 ≢ done
    → ((replace_cards node discard g).0 ≡ (node, g))
      × ((replace_cards node discard g).1 ≡ panics → length node.player.hand.cards ≡ 4)
replace_cards_refusal node discard g n = elim (replace_cards_cases node discard g) [
  | inl (kept, a, f) ↦ absurd (n (ap (λ x. x.1) f))
  | inr (inl (text, f)) ↦ rw f (refl, λ e. absurd (ground arith))
  | inr (inr (f, four)) ↦ rw f (refl, λ _. four)
]
