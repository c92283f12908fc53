-- ===== src/Table/Rounds/Kept.antt =====
-- What the bets and the first loop of `start_game` of Server/src/lib.rs leave of the rings.
use rust_poker.Base.{
  ℕ, ◌<◌, ◌≡◌, refl, sym, ◌∙◌, ap, List, [], ◌∷◌, some, Option-cases, true, Bool-cases, inl, inr,
  ◌==◌, ltb, length, contains, All, arith,
}
use rust_poker.Game.{Game}
use rust_poker.Player.{Player, Addr}
use rust_poker.Store.{Store, set_player}
use rust_poker.Table.{Table, lookup, player_at, sub64, persist_player}
use rust_poker.Table.Bets.{raise, check, finish}
use rust_poker.Table.Rounds.{deal_in, dealt_in}
use rust_poker.Table.Rounds.Antes.{check_at, check_each}
use rust_poker.Table.Rounds.Cycles.{Cycle, From, Cycle-From}
use rust_poker.Table.Rounds.DealIn.{FullLinks, deal_in-all, Dealt}

-- The pointers of two stores agree.
abbrev pub SameLinks : Store → Store → Type 0
SameLinks s s' =
    (b : Addr) → ((s'.node b).nextf ≡ (s.node b).nextf) × ((s'.node b).next ≡ (s.node b).next)

set_player-SameLinks : (a : Addr) (p : Player) (s : Store) → SameLinks s (set_player a p s)
unfolding set_player
set_player-SameLinks a p s b = (ground arith, ground arith)

pub SameLinks-Cycle :
    (s s' : Store) → SameLinks s s' → (a : Addr) (xs : List Addr) → Cycle s a xs → Cycle s' a xs
SameLinks-Cycle s s' k a xs c = record { linked = links a xs a c.linked; distinct = c.distinct }
  where
    links : (a : Addr) (xs : List Addr) (b : Addr) → FullLinks s a xs b → FullLinks s' a xs b
    links a [] b l = (k a).0 ∙ l
    links a (x ∷ xs) b l = ((k a).0 ∙ l.0, links x xs b l.1)

-- The player sits between the same neighbours as in the game.
abbrev pub IsIn : Store → Addr → Type 0
IsIn s y = (s.node y).next ≡ (s.node y).nextf

pub SameLinks-IsIn :
    (s s' : Store) → SameLinks s s' → (xs : List Addr) → All (IsIn s) xs → All (IsIn s') xs
SameLinks-IsIn s s' k [] h = tt
SameLinks-IsIn s s' k (x ∷ xs) h = ((k x).1 ∙ h.0 ∙ sym (k x).0, SameLinks-IsIn s s' k xs h.1)

-- The store after the first loop of `start_game`, with a cycle of players who are in the game.
Dealt-Cycle :
    (s s' : Store) → Dealt s s' → (a : Addr) (xs : List Addr) → Cycle s a xs → Cycle s' a xs
unfolding dealt_in
Dealt-Cycle s s' d a xs c = record { linked = links a xs a c.linked; distinct = c.distinct }
  where
    nextf : (y : Addr) → (s'.node y).nextf ≡ (s.node y).nextf
    nextf y = elim (d y) [ inl e ↦ ap (λ n. n.nextf) e | inr e ↦ ap (λ n. n.nextf) e ]

    links : (a : Addr) (xs : List Addr) (b : Addr) → FullLinks s a xs b → FullLinks s' a xs b
    links a [] b l = nextf a ∙ l
    links a (x ∷ xs) b l = (nextf a ∙ l.0, links x xs b l.1)

dealt_in-IsIn :
    (s s' : Store) (xs : List Addr)
    → All (λ y. s'.node y ≡ dealt_in (s.node y)) xs
    → All (IsIn s') xs
unfolding dealt_in
dealt_in-IsIn s s' [] h = tt
dealt_in-IsIn s s' (x ∷ xs) h =
    (ap (λ n. n.next) h.0 ∙ sym (ap (λ n. n.nextf) h.0), dealt_in-IsIn s s' xs h.1)

-- What the loop does from any player of a cycle, seen from any other.
pub deal_in-Cycle :
    (s : Store) (a x : Addr) (xs : List Addr) (head : Addr) (fuel : ℕ)
    → Cycle s a (x ∷ xs)
    → contains (a ∷ x ∷ xs) head ≡ true
    → length (a ∷ x ∷ xs) < fuel
    → (s' : Store) × (deal_in fuel head head true s ≡ some s')
      × Cycle s' a (x ∷ xs)
      × All (IsIn s') (a ∷ x ∷ xs)
deal_in-Cycle s a x xs head fuel c k h = go (Cycle-From s a (x ∷ xs) head k c)
  where
    go :
        From s (a ∷ x ∷ xs) head
        → (s' : Store) × (deal_in fuel head head true s ≡ some s')
          × Cycle s' a (x ∷ xs)
          × All (IsIn s') (a ∷ x ∷ xs)
    go ([], c', n, same) = absurd (omega (arith, n))
    go (y ∷ ys, c', n, same) =
        let (s', e, all, d) =
          deal_in-all s head y ys fuel c'.linked c'.distinct.0 (omega (arith, h, n)) in
        (
          s',
          e,
          Dealt-Cycle s s' d a (x ∷ xs) c,
          (same (IsIn s')).1 (dealt_in-IsIn s s' (head ∷ y ∷ ys) all),
        )

module _ {G : Game} where
  -- What a bet leaves as it is.
  pub record Keeps (t u : Table G) : Type 0 where
    pub links : SameLinks t.store u.store
    pub game : u.game ≡ t.game
    pub turn : u.turn ≡ t.turn

  Keeps-refl : (t : Table G) → Keeps t t
  Keeps-refl t = record { links = λ b. (refl, refl); game = refl; turn = refl }

  Keeps-trans : (t u v : Table G) → Keeps t u → Keeps u v → Keeps t v
  Keeps-trans t u v k l = record {
    links = λ b. ((l.links b).0 ∙ (k.links b).0, (l.links b).1 ∙ (k.links b).1);
    game = l.game ∙ k.game;
    turn = l.turn ∙ k.turn;
  }

  pub raise-Keeps : (id amount : ℕ) (t : Table G) → Keeps t (raise id amount t).0
  unfolding raise finish persist_player
  raise-Keeps id amount t = elim (Bool-cases (amount == 0)) [
    | inl c ↦ rw (raise, c) (Keeps-refl t)
    | inr c ↦ elim (Option-cases (lookup id t.players)) [
      | inl e ↦ rw (raise, c, e) (Keeps-refl t)
      | inr (a, e) ↦ elim (Bool-cases (ltb (player_at t a).wallet amount)) [
        | inl d ↦
            rw (raise, c, e, d) (record { links = λ b. (refl, refl); game = refl; turn = refl })
        | inr d ↦
            rw (raise, c, e, d)
              (record { links = set_player-SameLinks a _ t.store; game = refl; turn = refl })
      ]
    ]
  ]

  check-Keeps : (id : ℕ) (t : Table G) → Keeps t (check id t).0
  unfolding check finish persist_player
  check-Keeps id t = elim (Option-cases (lookup id t.players)) [
    | inl e ↦ rw (check, e) (Keeps-refl t)
    | inr (a, e) ↦ elim (Bool-cases ((player_at t a).bet == t.bet)) [
      | inl z ↦ rw (check, e, z) (Keeps-refl t)
      | inr z ↦ elim (Bool-cases (ltb (player_at t a).wallet (sub64 t.bet (player_at t a).bet))) [
        | inl c ↦ rw (check, e, z, c) (Keeps-refl t)
        | inr c ↦
            rw (check, e, z, c)
              (record { links = set_player-SameLinks a _ t.store; game = refl; turn = refl })
      ]
    ]
  ]

  pub check_each-Keeps : (nodes : List Addr) (t : Table G) → Keeps t (check_each nodes t)
  check_each-Keeps [] t = Keeps-refl t
  check_each-Keeps (a ∷ nodes) t =
      Keeps-trans t (check_at a t) (check_each nodes (check_at a t)) (check-Keeps _ t)
        (check_each-Keeps nodes (check_at a t))
