-- ===== src/Table/Rounds/Antes.antt =====
-- The loop of antes in `start_game` of Server/src/lib.rs.
use rust_poker.Base.{
  ℕ, zero, suc, ◌<◌, ◌≡◌, ◌≢◌, refl, sym, subst, ◌∙◌, List, [], ◌∷◌, Option, none, some,
  Option-cases, Bool, true, false, not, ◌&&◌, Bool-cases, inl, inr, if◌then◌else◌, ◌==◌, ==_refl,
  ltb, length, All, arith,
}
use rust_poker.Game.{Game}
use rust_poker.Player.{Player, Addr}
use rust_poker.Store.{Store, set_player}
use rust_poker.Table.{Table, lookup, player_at, persist_player, sub64}
use rust_poker.Table.Bets.{check, finish}
use rust_poker.Table.Rounds.{antes}
use rust_poker.Table.Rounds.DealIn.{FullLinks}

differ : (a b : ℕ) → a ≢ b → (a == b) ≡ false
differ a b n = ground arith

nextf-set_player :
    (s : Store) (a : Addr) (p : Player) (b : Addr)
    → ((set_player a p s).node b).nextf ≡ (s.node b).nextf
unfolding set_player
nextf-set_player s a p b = ground arith

module _ {G : Game} where
  -- The check of the player at a node.
  abbrev pub check_at : Addr → Table G → Table G
  check_at a t = (check (player_at t a).id t).0

  abbrev pub check_each : List Addr → Table G → Table G
  check_each [] t = t
  check_each (a ∷ nodes) t = check_each nodes (check_at a t)

  nextf-check :
      (id : ℕ) (t : Table G) (b : Addr)
      → ((check id t).0.store.node b).nextf ≡ (t.store.node b).nextf
  unfolding check finish persist_player
  nextf-check id t b = elim (Option-cases (lookup id t.players)) [
    | inl e ↦ rw (check, e)
    | inr (a, e) ↦ elim (Bool-cases ((player_at t a).bet == t.bet)) [
      | inl z ↦ rw (check, e, z)
      | inr z ↦ elim (Bool-cases (ltb (player_at t a).wallet (sub64 t.bet (player_at t a).bet))) [
        | inl c ↦ rw (check, e, z, c)
        | inr c ↦ rw (check, e, z, c) (nextf-set_player t.store a _ b)
      ]
    ]
  ]

  check-FullLinks :
      (id : ℕ) (t : Table G) (a : Addr) (xs : List Addr) (b : Addr)
      → FullLinks t.store a xs b
      → FullLinks (check id t).0.store a xs b
  check-FullLinks id t a [] b l = nextf-check id t a ∙ l
  check-FullLinks id t a (x ∷ xs) b l = (nextf-check id t a ∙ l.0, check-FullLinks id t x xs b l.1)

  antes-next :
      (fuel : ℕ) (blind a b : Addr) (first : Bool) (t : Table G)
      → (t.store.node a).nextf ≡ some b
      → antes (suc fuel) blind a first t ≡ (
          if (b == blind) && not first
          then some (check_at a t)
          else antes fuel blind b false (check_at a t))
  unfolding antes
  antes-next fuel blind a b first t e =
      let Next : Option Addr → Type 0 = λ o.
        (elim o as (λ _. Option (Table G)) [
          | none ↦ some (check_at a t)
          | some c ↦
              if (c == blind) && not first
              then some (check_at a t)
              else antes fuel blind c false (check_at a t)
        ])
        ≡ (if (b == blind) && not first
            then some (check_at a t)
            else antes fuel blind b false (check_at a t)) in
      subst Next (sym e) refl

  antes-later :
      (xs : List Addr) (fuel : ℕ) (blind a : Addr) (t : Table G)
      → length xs < fuel
      → FullLinks t.store a xs blind
      → All (λ x. x ≢ blind) xs
      → antes fuel blind a false t ≡ some (check_each (a ∷ xs) t)
  antes-later xs zero blind a t h l n = absurd (omega arith)
  antes-later [] (suc fuel) blind a t h l n =
      antes-next fuel blind a blind false t l ∙ rw (==_refl blind)
  antes-later (x ∷ xs) (suc fuel) blind a t h l n =
      antes-next fuel blind a x false t l.0
      ∙ rw (differ x blind n.0) (
          antes-later xs fuel blind x (check_at a t) (omega arith)
            (check-FullLinks _ t x xs blind l.1) n.1)

  -- On a full ring of at least two players, with more fuel than players, the loop of antes ends, and
  -- each player of the ring, from the blind on, has checked exactly once.
  pub antes-each :
      (t : Table G) (blind x : Addr) (xs : List Addr) (fuel : ℕ)
      → FullLinks t.store blind (x ∷ xs) blind
      → All (λ y. y ≢ blind) (x ∷ xs)
      → length (x ∷ xs) < fuel
      → antes fuel blind blind true t ≡ some (check_each (blind ∷ x ∷ xs) t)
  antes-each t blind x xs zero l n h = absurd (omega arith)
  antes-each t blind x xs (suc fuel) l n h =
      antes-next fuel blind blind x true t l.0
      ∙ rw (differ x blind n.0) (
          antes-later xs fuel blind x (check_at blind t) (omega arith)
            (check-FullLinks _ t x xs blind l.1) n.1)
