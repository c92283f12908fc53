-- ===== src/Table/Pots/Excess.antt =====
-- The side pot of a level against the bets: what the bets exceed a level by. Server/src/lib.rs,
-- `pay_showdown_pots`.
use rust_poker.Base.{
  ℕ, zero, suc, ◌+◌, ◌-◌, ◌*◌, ◌%◌, ◌^◌, ◌≤◌, ◌<◌, ◌≡◌, refl, List, [], ◌∷◌, Bool-cases,
  Option-cases, inl, inr, leb, ltb, leb→le, leb→lt, length, filter, arith,
}
use rust_poker.Hand.Straight.Falling.{Rises, sort_by-Rises, dedup-Rises}
use rust_poker.Player.{Player, Addr}
use rust_poker.Store.{Store, set_player}
use rust_poker.Table.{Players, sub64, mul64, lookup}
use rust_poker.Table.Pots.{bets, levels, pay}

-- The sum of what the bets exceed `level` by.
abbrev pub excess : ℕ → List ℕ → ℕ
excess level [] = 0
excess level (b ∷ bs) = (b - level) + excess level bs

abbrev count : ℕ → List ℕ → ℕ
count level bs = length (filter (λ b. leb level b) bs)

-- The pot of a level is covered by what its contributors have bet above the level before.
count-excess :
    (previous level : ℕ) (bs : List ℕ)
    → previous ≤ level
    → (level - previous) * count level bs + excess level bs ≤ excess previous bs
count-excess previous level [] h = omega arith
count-excess previous level (b ∷ bs) h =
    let rest = count-excess previous level bs h in
    elim (Bool-cases (leb level b)) [
      | inl c ↦ rw (c) (omega (arith, rest, leb→le level b c))
      | inr c ↦ rw (c) (omega (arith, rest, leb→lt level b c))
    ]

mod_small : (a : ℕ) → a < 2 ^ 64 → a % 2 ^ 64 ≡ a
mod_small a h = omega arith

pot_of_level : (d c bound : ℕ) → d * c ≤ bound → bound < 2 ^ 64 → mul64 (d % 2 ^ 64) c ≡ d * c
pot_of_level d zero bound h b = omega arith
pot_of_level d (suc c) bound h b =
    rw (mod_small d (omega (arith, h, b))) (mod_small (d * suc c) (omega (arith, h, b)))

-- What the code computes for a level is its exact pot.
pub level_pot :
    (previous level : ℕ) (bs : List ℕ)
    → previous ≤ level
    → excess previous bs < 2 ^ 64
    → mul64 (sub64 level previous) (count level bs) + excess level bs ≤ excess previous bs
level_pot previous level bs h b =
    let whole = count-excess previous level bs h in
    let exact =
      pot_of_level (level - previous) (count level bs) (excess previous bs) (omega (arith, whole))
        b in
    let minus : sub64 level previous ≡ (level - previous) % 2 ^ 64 = omega arith in
    rw (minus, exact) whole

bet-set_player :
    (s : Store) (a : Addr) (p : Player) (b : Addr)
    → p.bet ≡ (s.node a).player.bet
    → ((set_player a p s).node b).player.bet ≡ (s.node b).player.bet
unfolding set_player
bet-set_player s a p b h = ground arith

bets-set_player :
    (s : Store) (a : Addr) (p : Player) (n : Players)
    → p.bet ≡ (s.node a).player.bet
    → bets (set_player a p s) n ≡ bets s n
bets-set_player s a p [] h = refl
bets-set_player s a p ((k, b) ∷ n) h = rw (bet-set_player s a p b h, bets-set_player s a p n h)

-- Paying does not change the bets.
pub bets-pay :
    (id amount : ℕ) (m : Players) (s : Store) (n : Players) → bets (pay id amount m s) n ≡ bets s n
unfolding pay
bets-pay id amount m s n = elim (Option-cases (lookup id m)) [
  | inl e ↦ rw (pay, e)
  | inr (a, e) ↦ rw (pay, e) (bets-set_player s a _ n refl)
]

pub levels-Rises : (s : Store) (m : Players) → Rises (levels s m)
unfolding levels
levels-Rises s m = dedup-Rises _ (sort_by-Rises (filter (λ bet. ltb 0 bet) (bets s m)))
