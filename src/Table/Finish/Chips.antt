-- ===== src/Table/Finish/Chips.antt =====
-- The chips of a table across `end_game` of Server/src/lib.rs.
use rust_poker.Base.{
  ℕ, ◌^◌, ◌≤◌, ◌<◌, ◌≡◌, ◌≢◌, refl, ap, ◌∙◌, List, [], ◌∷◌, some, false, Bool-cases, inl, inr,
  is_empty, arith,
}
use rust_poker.Base.Max.{Among}
use rust_poker.Game.{Game, best_hand, winner_id}
use rust_poker.Game.FiveCardDraw
use rust_poker.Game.FiveCardDraw.{five_card_draw}
use rust_poker.Game.TexasHoldem
use rust_poker.Game.TexasHoldem.{texas_holdem}
use rust_poker.Game.SevenCardStud
use rust_poker.Game.SevenCardStud.{seven_card_stud}
use rust_poker.Game.Laws.{best_hand_lem}
use rust_poker.Hand.{Hand}
use rust_poker.Player
use rust_poker.Player.{Player, PlayerNode, Addr}
use rust_poker.Store.{Store, set_node}
use rust_poker.Table.{Table, Players, addresses, persist_player, trigger_save}
use rust_poker.Table.Bets.Laws.{chips}
use rust_poker.Table.Finish.{cleared, clear_players, settle, end_game, show_all, showdown_entries}
use rust_poker.Table.Money.{Distinct, funds}
use rust_poker.Table.Pots.{bets, unfolded, pay_showdown_pots}
use rust_poker.Table.Pots.Excess.{excess}
use rust_poker.Table.Pots.Laws.{FindsWinner, pay_showdown_pots-funds}
use rust_poker.Table.Pots.Seated.{IsSeated, unfolded-IsSeated}

funds-set_node :
    (s : Store) (a : Addr) (n : PlayerNode) (m : Players)
    → n.player.wallet ≡ (s.node a).player.wallet
    → funds (set_node a n s) m ≡ funds s m
unfolding set_node
funds-set_node s a n [] h = refl
funds-set_node s a n ((k, b) ∷ m) h = ground (arith, funds-set_node s a n m h)

pub is_empty→≢ : (ps : List (ℕ × Hand)) → is_empty ps ≡ false → ps ≢ []
is_empty→≢ [] e = absurd (ground arith)
is_empty→≢ (p ∷ ps) e = λ q. ground arith

module _ {G : Game} where
  clear_players-funds :
      (n : Players) (t : Table G) (m : Players)
      → funds (clear_players n t).store m ≡ funds t.store m
  unfolding clear_players cleared persist_player Player.reset
  clear_players-funds [] t m = refl
  clear_players-funds ((id, a) ∷ n) t m =
      clear_players-funds n _ m ∙ funds-set_node t.store a (cleared (t.store.node a)) m refl

  pub clear_players-players : (n : Players) (t : Table G) → (clear_players n t).players ≡ t.players
  unfolding clear_players persist_player
  clear_players-players [] t = refl
  clear_players-players ((id, a) ∷ n) t = clear_players-players n _

  -- What `settle` leaves in the wallets is what the payment left there, and the pot is empty.
  settle-chips :
      (winner : ℕ) (t : Table G)
      → IsSeated winner t.players
      → chips (settle winner t) ≡ funds (pay_showdown_pots t).store t.players
  unfolding settle pay_showdown_pots trigger_save
  settle-chips winner t (a, e) =
      rw (settle, e)
        (rw (clear_players-players (pay_showdown_pots t).players (pay_showdown_pots t)) (
          omega (
            arith,
            clear_players-funds (pay_showdown_pots t).players (pay_showdown_pots t) t.players,
          )))

  -- The end of a game leaves the sum of all wallets and the pot as it is, if the players' nodes are
  -- distinct, the bets are covered by the pot, that sum fits into 64 bits, and the game finds a winner
  -- among any players there are.
  pub end_game-chips :
      (t : Table G)
      → FindsWinner G
      → Distinct (addresses t.players)
      → excess 0 (bets t.store t.players) ≤ t.pot
      → chips t < 2 ^ 64
      → chips (end_game t) ≡ chips t
  unfolding end_game
  end_game-chips t find d covered h =
      elim (Bool-cases (is_empty (unfolded G t.game t.players t.store t.players))) [
        | inl c ↦ rw (end_game, c)
        | inr c ↦
            let u : unfolded G t.game t.players t.store t.players ≢ [] = is_empty→≢ _ c in
            let (w, among, e) = find t.game (unfolded G t.game t.players t.store t.players) u in
            let seated = unfolded-IsSeated G t.game t.players t.store w t.players among in
            let t' = record t {
              showdown =
                  some
                    (record { winner = w.0; players = show_all [] (showdown_entries t t.players) });
              next_game_players = [];
            } in
            rw (end_game, c, e)
              (settle-chips w.0 t' seated ∙ pay_showdown_pots-funds t' find d u covered h)
      ]

best_hand-winner :
    (view : Hand → Hand) (ps : List (ℕ × Hand))
    → ps ≢ []
    → (w : ℕ × Hand) × Among w ps × (winner_id (best_hand view ps) ≡ some w.0)
best_hand-winner view ps n =
    let (w, e, among, _) = best_hand_lem view ps n in (w, among, ap winner_id e)

-- Each of the three games finds a winner, one of the players it is given, whenever there are players.
pub games-FindsWinner :
    FindsWinner five_card_draw × FindsWinner texas_holdem × FindsWinner seven_card_stud
unfolding five_card_draw texas_holdem seven_card_stud FiveCardDraw.determine_winner
    TexasHoldem.determine_winner SevenCardStud.determine_winner
games-FindsWinner = (
  λ g ps n. best_hand-winner (λ hand. hand) ps n,
  λ g ps n. best_hand-winner (TexasHoldem.showdown_hand g) ps n,
  λ g ps n. best_hand-winner (λ hand. hand) ps n,
)
