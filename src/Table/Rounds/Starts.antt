-- ===== src/Table/Rounds/Starts.antt =====
-- `start_game` of Server/src/lib.rs as a whole, for a game that deals around the ring when it starts.
use rust_poker.Base.{
  ℕ, ◌<◌, ◌≡◌, ◌≢◌, refl, sym, ◌∙◌, ap, subst, List, [], ◌∷◌, ◌++◌, Option, none, some, true, false,
  Bool-cases, inl, inr, length, All, arith,
}
use rust_poker.Game.{Game}
use rust_poker.Player.{Addr}
use rust_poker.Store.{Store}
use rust_poker.Store.Links.{Ring}
use rust_poker.Table
use rust_poker.Table.{
  Table, addresses, lookup, player_at, is_running, sub64, add64, persist_player, mark_turn_started,
  trigger_save,
}
use rust_poker.Table.Bets.{raise}
use rust_poker.Table.Money.{Distinct}
use rust_poker.Table.Rounds.{round_action, deal_in, open_game, start_game}
use rust_poker.Table.Rounds.Antes.{check_each, antes-each}
use rust_poker.Table.Rounds.Cycles.{
  Cycle, From, Cycle-From, Cycle-Ring, turned, Same-snoc, length-snoc, Linked-FullLinks,
}
use rust_poker.Table.Seats.{rebuild_full_ring, last_of}
use rust_poker.Table.Seats.Laws.{rebuild_full_ring-Linked}
use rust_poker.Table.Rounds.Opens.{DealsAround}
use rust_poker.Table.Rounds.Kept.{
  IsIn, SameLinks-Cycle, SameLinks-IsIn, deal_in-Cycle, raise-Keeps, check_each-Keeps,
}

not_empty : (xs : List Addr) (a : Addr) → xs ++ a ∷ [] ≢ []
not_empty [] a e = ground (arith, e)
not_empty (x ∷ xs) a e = ground (arith, e)

module _ {G : Game} where
  round_action-opens :
      (deals : DealsAround G) (fuel : ℕ) (t : Table G) (head : Addr) (rest : List Addr)
      → t.turn ≡ some head
      → Ring t.store head rest
      → length (head ∷ rest) < fuel
      → G.get_round t.game ≡ 0
      → (u : Table G) × (round_action fuel t ≡ some (u, true)) × (u.turn ≡ some head)
  unfolding round_action
  round_action-opens deals fuel t head rest e ring h z =
      let (r, o) = deals.opens fuel head rest t.game t.store ring h z in
      let o' : G.handle_round_action fuel t.turn (t.game, t.store) ≡ some (r, false) =
        subst (λ k. G.handle_round_action fuel k (t.game, t.store) ≡ some (r, false)) (sym e) o in
      (record t { game = r.0; store = r.1 }, rw (round_action, o') refl, e)

  opened :
      (deals : DealsAround G) (fuel now : ℕ) (t : Table G) (head : Addr) (rest : List Addr)
      → t.turn ≡ some head
      → Ring t.store head rest
      → length (head ∷ rest) < fuel
      → G.get_round t.game ≡ 0
      → (u : Table G) × (elim (round_action fuel (mark_turn_started now t))
            as (λ _. Option (Table G)) [
              | none ↦ none
              | some (t'', _) ↦ some (trigger_save "start" t'')
            ]
          ≡ some u)
        × (is_running u ≡ true)
  unfolding mark_turn_started trigger_save is_running
  opened deals fuel now t head rest e ring h z =
      let (u, o, turn) =
        round_action-opens deals fuel (mark_turn_started now t) head rest e ring h z in
      (trigger_save "start" u, rw (o) refl, rw (turn) refl)

  open_game-returns :
      (deals : DealsAround G) (fuel now : ℕ) (blind x : Addr) (xs : List Addr) (t : Table G)
      → Cycle t.store blind (x ∷ xs)
      → All (IsIn t.store) (blind ∷ x ∷ xs)
      → length (blind ∷ x ∷ xs) < fuel
      → G.get_round t.game ≡ 0
      → (u : Table G) × (open_game fuel now blind t ≡ some u) × (is_running u ≡ true)
  unfolding open_game
  open_game-returns deals fuel now blind x xs t c all h z =
      let raised : Table G = (raise (player_at t blind).id 50 t).0 in
      let k = raise-Keeps (player_at t blind).id 50 t in
      let c' = SameLinks-Cycle t.store raised.store k.links blind (x ∷ xs) c in
      let all' = SameLinks-IsIn t.store raised.store k.links (blind ∷ x ∷ xs) all in
      elim (Bool-cases (G.is_ante raised.game)) [
        | inl d ↦
            let begun : Table G = record raised { turn = some blind } in
            let t' : Table G = check_each (blind ∷ x ∷ xs) begun in
            let l = check_each-Keeps (blind ∷ x ∷ xs) begun in
            let e = antes-each begun blind x xs fuel c'.linked c'.distinct.0 (omega (arith, h)) in
            let ring =
              Cycle-Ring t'.store blind (x ∷ xs) (λ e. ground (arith, e))
                (SameLinks-Cycle begun.store t'.store l.links blind (x ∷ xs) c')
                (SameLinks-IsIn begun.store t'.store l.links (blind ∷ x ∷ xs) all') in
            let (u, o, on) =
              opened deals fuel now t' blind (x ∷ xs) l.turn ring h
                (ap G.get_round (l.game ∙ k.game) ∙ z) in
            (u, rw (open_game, d, e) o, on)
        | inr d ↦
            let begun : Table G = record raised { turn = (raised.store.node blind).next } in
            let turn : begun.turn ≡ some x = all'.0 ∙ c'.linked.0 in
            let ring =
              Cycle-Ring raised.store x (xs ++ blind ∷ []) (not_empty xs blind)
                (turned raised.store blind x xs c')
                ((Same-snoc blind (x ∷ xs) (IsIn raised.store)).0 all') in
            let (u, o, on) =
              opened deals fuel now begun x (xs ++ blind ∷ []) turn ring
                (omega (arith, h, length-snoc blind xs)) (ap G.get_round k.game ∙ z) in
            (u, rw (open_game, d) o, on)
      ]

  -- The table of `start_game` before the blind's raise.
  abbrev ready : (List ℕ → List ℕ) → Store → Table G → Table G
  ready shuffle s t =
      let u = Table.reset (record t { store = s }) in
      record u { game = G.start_game shuffle u.game }

  abbrev seated : Table G → Table G
  seated t = record (rebuild_full_ring t) { showdown = none; next_game_players = [] }

  start_game-by :
      (fuel now : ℕ) (shuffle : List ℕ → List ℕ) (t u : Table G) (head blind : Addr) (s : Store)
      → (seated t).head ≡ some head
      → deal_in fuel head head true (seated t).store ≡ some s
      → (seated t).blind ≡ some blind
      → open_game fuel now blind (ready shuffle s (seated t)) ≡ some u
      → start_game fuel now shuffle t ≡ some u
  unfolding start_game Table.reset
  start_game-by fuel now shuffle t u head blind s eh f eb o =
      let t' : Table G = seated t in
      let from_blind : Table G → Option Addr → Option (Table G) = λ w m.
        elim m as (λ _. Option (Table G)) [ none ↦ some w | some b ↦ open_game fuel now b w ] in
      let from_store : Option Store → Option (Table G) = λ m. elim m as (λ _. Option (Table G)) [
        | none ↦ none
        | some s ↦ from_blind (ready shuffle s t') t'.blind
      ] in
      ap
        (λ m. elim m as (λ _. Option (Table G)) [
          | none ↦ some t'
          | some h ↦ from_store (deal_in fuel h h true t'.store)
        ])
        eh
      ∙ ap from_store f
      ∙ ap (from_blind (ready shuffle s t')) eb
      ∙ o

  -- With at least two players, who have different nodes, and more fuel than players, `start_game`
  -- returns, and a game is running, for a game that deals around the ring when it starts.
  pub start_game-returns :
      (deals : DealsAround G) (fuel now : ℕ) (shuffle : List ℕ → List ℕ) (t : Table G) (a x : Addr)
      (xs : List Addr)
      → addresses t.players ≡ a ∷ x ∷ xs
      → Distinct (a ∷ x ∷ xs)
      → length (a ∷ x ∷ xs) < fuel
      → (u : Table G) × (start_game fuel now shuffle t ≡ some u) × (is_running u ≡ true)
  unfolding Table.reset
  start_game-returns deals fuel now shuffle t a x xs e d h =
      let t' : Table G = seated t in
      let (linked, (head, eh, kh), (blind, eb, kb)) = rebuild_full_ring-Linked t a (x ∷ xs) e d in
      let c : Cycle t'.store a (x ∷ xs) = record {
        linked = Linked-FullLinks t'.store a (last_of a (x ∷ xs)) a (x ∷ xs) linked;
        distinct = d;
      } in
      let (s, f, c', all) = deal_in-Cycle t'.store a x xs head fuel c kh h in
      let (u, o, on) =
        from_blind deals now fuel blind (ready shuffle s t') (Cycle-From s a (x ∷ xs) blind kb c')
          all h (deals.fresh shuffle t'.game) in
      (u, start_game-by fuel now shuffle t u head blind s eh f eb o, on)
    where
      from_blind :
          (deals : DealsAround G) (now fuel : ℕ) (blind : Addr) (begun : Table G)
          → From begun.store (a ∷ x ∷ xs) blind
          → All (IsIn begun.store) (a ∷ x ∷ xs)
          → length (a ∷ x ∷ xs) < fuel
          → G.get_round begun.game ≡ 0
          → (u : Table G) × (open_game fuel now blind begun ≡ some u) × (is_running u ≡ true)
      from_blind deals now fuel blind begun ([], c, n, same) all h z = absurd (omega (arith, n))
      from_blind deals now fuel blind begun (y ∷ ys, c, n, same) all h z =
          open_game-returns deals fuel now blind y ys begun c ((same (IsIn begun.store)).0 all)
            (omega (arith, h, n)) z
