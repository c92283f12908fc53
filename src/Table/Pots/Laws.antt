-- ===== src/Table/Pots/Laws.antt =====
-- What `pay_showdown_pots` of Server/src/lib.rs pays.
use rust_poker.Base.{
  ℕ, ◌+◌, ◌-◌, ◌^◌, ◌≤◌, ◌<◌, ◌≡◌, ◌≢◌, refl, sym, ◌∙◌, List, [], ◌∷◌, some, Bool-cases,
  Option-cases, inl, inr, ltb, ltb→le, All, arith,
}
use rust_poker.Base.Max.{Among}
use rust_poker.Game.{Game}
use rust_poker.Hand.{Hand}
use rust_poker.Hand.Straight.Falling.{Rises}
use rust_poker.Player.{Player, Addr}
use rust_poker.Store.{Store, set_player}
use rust_poker.Table.{Table, Players, add64, sub64, mul64, addresses, lookup}
use rust_poker.Table.Money.{Distinct, funds, add64_lem, sub64_lem}
use rust_poker.Table.Pots.{
  bets, levels, contributors, pay, level_winner, pay_levels, unfolded, pay_rest, pay_showdown_pots,
}
use rust_poker.Table.Pots.Excess.{excess, level_pot, bets-pay, levels-Rises}
use rust_poker.Table.Pots.Seated.{funds-pay, level_winner-IsSeated, unfolded-IsSeated}

folded-set_player :
    (s : Store) (a : Addr) (p : Player) (b : Addr)
    → p.folded ≡ (s.node a).player.folded
    → ((set_player a p s).node b).player.folded ≡ (s.node b).player.folded
unfolding set_player
folded-set_player s a p b h = ground arith

hand-set_player :
    (s : Store) (a : Addr) (p : Player) (b : Addr)
    → p.hand ≡ (s.node a).player.hand
    → ((set_player a p s).node b).player.hand ≡ (s.node b).player.hand
unfolding set_player
hand-set_player s a p b h = ground arith

All-above_zero : (ls : List ℕ) → All (λ l. 0 ≤ l) ls
All-above_zero [] = tt
All-above_zero (l ∷ ls) = (omega arith, All-above_zero ls)

-- From `paid` and `s` to what the loop gives: it has paid at most `bound`, and to the wallets just
-- what it counts as paid.
abbrev Pays : Players → ℕ → ℕ → Store → ℕ × Store → Type 0
Pays m bound paid s r = (x : ℕ) × (x ≤ bound) × (r.0 ≡ paid + x) × (funds r.1 m ≡ funds s m + x)

Pays-weaken :
    (m : Players) (bound' bound paid : ℕ) (s : Store) (r : ℕ × Store)
    → bound' ≤ bound
    → Pays m bound' paid s r
    → Pays m bound paid s r
Pays-weaken m bound' bound paid s r le (x, b, p, f) = (x, omega (arith, b), p, f)

Pays-after :
    (m : Players) (bound' bound pot paid' paid : ℕ) (s' s : Store) (r : ℕ × Store)
    → pot + bound' ≤ bound
    → paid' ≡ paid + pot
    → funds s' m ≡ funds s m + pot
    → Pays m bound' paid' s' r
    → Pays m bound paid s r
Pays-after m bound' bound pot paid' paid s' s r le e k (x, b, p, f) =
    (pot + x, omega (arith, b), omega (arith, p), omega (arith, f))

module _ (G : Game) (g : G.State) where
  -- The loop over rising levels pays exactly what it counts as paid, which is at most what the bets
  -- exceed the level before by, and leaves the bets as they are.
  pay_levels_lem :
      (m : Players) (ls : List ℕ) (previous paid : ℕ) (s : Store)
      → Distinct (addresses m)
      → All (λ l. previous ≤ l) ls
      → Rises ls
      → paid + excess previous (bets s m) < 2 ^ 64
      → funds s m + excess previous (bets s m) < 2 ^ 64
      → Pays m (excess previous (bets s m)) paid s (pay_levels G g m previous paid s ls)
  unfolding pay_levels contributors
  pay_levels_lem m [] previous paid s d a r h k = (0, omega arith, omega arith, omega arith)
  pay_levels_lem m (l ∷ ls) previous paid s d a r h k =
      let pot = mul64 (sub64 l previous) (contributors l s m) in
      let cover = level_pot previous l (bets s m) a.0 (omega (arith, h)) in
      elim (Option-cases (level_winner G g m l s)) [
        | inl e ↦
            rw (pay_levels, e)
              (Pays-weaken m (excess l (bets s m)) (excess previous (bets s m)) paid s
                (pay_levels G g m l paid s ls) (omega (arith, cover))
                (pay_levels_lem m ls l paid s d r.0 r.1 (omega (arith, h, cover))
                  (omega (arith, k, cover))))
        | inr (w, e) ↦
            let s' = pay w.0 pot m s in
            let same = bets-pay w.0 pot m s m in
            let sum = add64_lem paid pot (omega (arith, h, cover)) in
            let got =
              funds-pay w.0 pot m s d (level_winner-IsSeated G g m l s w e)
                (omega (arith, k, cover)) in
            rw (pay_levels, e)
              (Pays-after m (excess l (bets s' m)) (excess previous (bets s m)) pot (add64 paid pot)
                paid s' s (pay_levels G g m l (add64 paid pot) s' ls) (rw (same) cover) sum got
                (pay_levels_lem m ls l (add64 paid pot) s' d r.0 r.1
                  (rw (same, sum) (omega (arith, h, cover)))
                  (rw (same, got) (omega (arith, k, cover)))))
      ]

  unfolded-set_player :
      (m : Players) (s : Store) (a : Addr) (p : Player) (n : Players)
      → p.folded ≡ (s.node a).player.folded
      → p.hand ≡ (s.node a).player.hand
      → unfolded G g m (set_player a p s) n ≡ unfolded G g m s n
  unfolded-set_player m s a p [] f h = refl
  unfolded-set_player m s a p ((k, b) ∷ n) f h =
      rw (folded-set_player s a p b f, hand-set_player s a p b h, unfolded-set_player m s a p n f h)

  unfolded-pay :
      (id amount : ℕ) (m : Players) (s : Store) (n : Players)
      → unfolded G g m (pay id amount m s) n ≡ unfolded G g m s n
  unfolding pay
  unfolded-pay id amount m s n = elim (Option-cases (lookup id m)) [
    | inl e ↦ rw (pay, e)
    | inr (a, e) ↦ rw (pay, e) (unfolded-set_player m s a _ n refl refl)
  ]

  unfolded-pay_levels :
      (m : Players) (ls : List ℕ) (previous paid : ℕ) (s : Store)
      → unfolded G g m (pay_levels G g m previous paid s ls).1 m ≡ unfolded G g m s m
  unfolding pay_levels
  unfolded-pay_levels m [] previous paid s = refl
  unfolded-pay_levels m (l ∷ ls) previous paid s = elim (Option-cases (level_winner G g m l s)) [
    | inl e ↦ rw (pay_levels, e) (unfolded-pay_levels m ls l paid s)
    | inr (w, e) ↦
        let pot = mul64 (sub64 l previous) (contributors l s m) in
        rw (pay_levels, e)
          (unfolded-pay_levels m ls l (add64 paid pot) (pay w.0 pot m s)
            ∙ unfolded-pay w.0 pot m s m)
  ]

-- A game finds a winner among any players there are.
abbrev pub FindsWinner : (G : Game) → Type 0
FindsWinner G =
    (g : G.State) (ps : List (ℕ × Hand))
    → ps ≢ []
    → (w : ℕ × Hand) × Among w ps × (G.determine_winner g ps ≡ some w.0)

module _ {G : Game} where
  pay_rest-funds :
      (t : Table G) (paid : ℕ) (s : Store)
      → FindsWinner G
      → Distinct (addresses t.players)
      → unfolded G t.game t.players s t.players ≢ []
      → paid ≤ t.pot
      → funds s t.players + (t.pot - paid) < 2 ^ 64
      → t.pot < 2 ^ 64
      → funds (pay_rest G t.game t.players t.pot paid s) t.players + paid
        ≡ funds s t.players + t.pot
  unfolding pay_rest
  pay_rest-funds t paid s find d u le h b = elim (Bool-cases (ltb paid t.pot)) [
    | inr c ↦ rw (pay_rest, c) (omega (arith, ltb→le paid t.pot c))
    | inl c ↦
        let (w, among, e) = find t.game (unfolded G t.game t.players s t.players) u in
        let seated = unfolded-IsSeated G t.game t.players s w t.players among in
        let rest = sub64_lem t.pot paid le b in
        rw (pay_rest, c, e, rest)
          (omega (arith, funds-pay w.0 (t.pot - paid) t.players s d seated h))
  ]

  -- At a showdown the players' wallets grow by just the pot, side pots and the rest together, if the
  -- players' nodes are distinct, somebody has not folded, the bets are covered by the pot, all chips
  -- fit into 64 bits, and the game finds a winner among any players there are.
  pub pay_showdown_pots-funds :
      (t : Table G)
      → FindsWinner G
      → Distinct (addresses t.players)
      → unfolded G t.game t.players t.store t.players ≢ []
      → excess 0 (bets t.store t.players) ≤ t.pot
      → funds t.store t.players + t.pot < 2 ^ 64
      → funds (pay_showdown_pots t).store t.players ≡ funds t.store t.players + t.pot
  unfolding pay_showdown_pots
  pay_showdown_pots-funds t find d u covered h =
      let m = t.players in
      let ls = levels t.store m in
      let r = pay_levels G t.game m 0 0 t.store ls in
      let (x, b, p, f) =
        pay_levels_lem G t.game m ls 0 0 t.store d (All-above_zero ls) (levels-Rises t.store m)
          (omega arith) (omega arith) in
      let u' : unfolded G t.game m r.1 m ≢ [] =
        λ q. u (sym (unfolded-pay_levels G t.game m ls 0 0 t.store) ∙ q) in
      let rest =
        pay_rest-funds t r.0 r.1 find d u' (omega (arith, p, b)) (omega (arith, p, b, f))
          (omega arith) in
      omega (arith, rest, p, f)
