-- ===== src/Table/Safe/Start.antt =====
-- The invariant across `rebuild_full_ring` and `start_game` of Server/src/lib.rs.
use rust_poker.Base.{
  ℕ, zero, suc, ◌^◌, ◌≤◌, ◌<◌, ◌≡◌, refl, subst, List, [], ◌∷◌, Option, none, some, Option-cases,
  OnSome, Bool, true, false, not, ◌&&◌, Bool-cases, ◌==◌, inl, inr, arith,
}
use rust_poker.Game.{Game}
use rust_poker.Player.{Addr}
use rust_poker.Store.{Store, set_node}
use rust_poker.Table.{Table, Result, addresses, lookup, player_at, mark_turn_started, trigger_save}
use rust_poker.Table
use rust_poker.Table.Bets.{raise, check}
use rust_poker.Table.Pots.Laws.{FindsWinner}
use rust_poker.Table.Rounds.{dealt_in, deal_in, round_action, antes, open_game, start_game}
use rust_poker.Table.Safe.{Safe, Safe-same, raise-Safe, check-Safe}
use rust_poker.Table.Safe.Rounds.{KeepsMoney, round_action-Safe}
use rust_poker.Table.Same.{
  SameMoney, SameMoney_refl, SameMoney_trans, set_node-SameMoney, funds-SameMoney, bets-SameMoney,
}
use rust_poker.Table.Seats.{set_full, link_nodes, link_ring, last_of, rebuild_full_ring}
use rust_poker.Table.Seats.Gone.{rebuild_full_ring-players}

set_full-SameMoney : (a : Addr) (n p : Option Addr) (s : Store) → SameMoney s (set_full a n p s)
unfolding set_full
set_full-SameMoney a n p s = set_node-SameMoney a _ s refl refl

link_nodes-SameMoney :
    (first before a : Addr) (rest : List Addr) (s : Store)
    → SameMoney s (link_nodes first before a rest s)
unfolding link_nodes
link_nodes-SameMoney first before a [] s = set_full-SameMoney a _ _ s
link_nodes-SameMoney first before a (b ∷ bs) s =
    SameMoney_trans (set_full-SameMoney a _ _ s) (link_nodes-SameMoney first a b bs _)

link_ring-SameMoney : (nodes : List Addr) (s : Store) → SameMoney s (link_ring nodes s)
unfolding link_ring
link_ring-SameMoney [] s = SameMoney_refl s
link_ring-SameMoney (a ∷ rest) s = link_nodes-SameMoney a (last_of a rest) a rest s

deal_in-SameMoney :
    (fuel : ℕ) (head a : Addr) (first : Bool) (s : Store)
    → OnSome (SameMoney s) (deal_in fuel head a first s)
unfolding deal_in dealt_in
deal_in-SameMoney zero head a first s = tt
deal_in-SameMoney (suc fuel) head a first s =
    let s' : Store = set_node a (dealt_in (s.node a)) s in
    let here : SameMoney s s' = set_node-SameMoney a (dealt_in (s.node a)) s refl refl in
    elim (Option-cases (s.node a).nextf) [
      | inl e ↦ rw (deal_in, e) here
      | inr (b, e) ↦ elim (Bool-cases ((b == head) && not first)) [
        | inl c ↦ rw (deal_in, e, c) here
        | inr c ↦ rw (deal_in, e, c) (later s s' here _ (deal_in-SameMoney fuel head b false s'))
      ]
    ]
  where
    later :
        (s s' : Store)
        → SameMoney s s'
        → (o : Option Store) → OnSome (SameMoney s') o
        → OnSome (SameMoney s) o
    later s s' h none k = tt
    later s s' h (some s'') k = SameMoney_trans h k

module _ {G : Game} where
  pub rebuild_full_ring-store : (t : Table G) → SameMoney t.store (rebuild_full_ring t).store
  unfolding rebuild_full_ring Table.reset
  rebuild_full_ring-store t = go (addresses t.players) refl
    where
      go :
          (nodes : List Addr)
          → addresses t.players ≡ nodes
          → SameMoney t.store (rebuild_full_ring t).store
      go [] e = rw (rebuild_full_ring, e) (SameMoney_refl t.store)
      go (a ∷ rest) e = rw (rebuild_full_ring, e) (link_ring-SameMoney (a ∷ rest) t.store)

  -- Between two games the pot is empty, and it stays empty.
  pub rebuild_full_ring-pot : (t : Table G) → (rebuild_full_ring t).pot ≤ t.pot
  unfolding rebuild_full_ring Table.reset
  rebuild_full_ring-pot t = go (addresses t.players) refl
    where
      go : (nodes : List Addr) → addresses t.players ≡ nodes → (rebuild_full_ring t).pot ≤ t.pot
      go [] e = rw (rebuild_full_ring, e) (omega arith)
      go (a ∷ rest) e = rw (rebuild_full_ring, e) (omega arith)

  pub rebuild_full_ring-bet : (t : Table G) → (rebuild_full_ring t).bet ≤ t.bet
  unfolding rebuild_full_ring Table.reset
  rebuild_full_ring-bet t = go (addresses t.players) refl
    where
      go : (nodes : List Addr) → addresses t.players ≡ nodes → (rebuild_full_ring t).bet ≤ t.bet
      go [] e = rw (rebuild_full_ring, e) (omega arith)
      go (a ∷ rest) e = rw (rebuild_full_ring, e) (omega arith)

  module _ {total : ℕ} where
    -- Two tables with the same players and money and no pot.
    Safe-idle :
        (t u : Table G)
        → u.players ≡ t.players
        → SameMoney t.store u.store
        → t.pot ≡ 0
        → u.pot ≡ 0
        → u.bet < 2 ^ 64
        → Safe total t
        → Safe total u
    Safe-idle t u p m z y b v = record {
      nodes = rw (p) v.nodes;
      behind = rw (p, m.fresh) v.behind;
      stake = rw (p, bets-SameMoney t.players m) (omega (arith, v.stake, z));
      whole = rw (p, funds-SameMoney t.players m) (omega (arith, v.whole, z, y));
      fits = v.fits;
      small = b;
    }

    antes-Safe :
        (fuel : ℕ) (blind a : Addr) (first : Bool) (t : Table G)
        → Safe total t
        → OnSome (Safe total) (antes fuel blind a first t)
    unfolding antes
    antes-Safe zero blind a first t v = tt
    antes-Safe (suc fuel) blind a first t v =
        let t' : Table G = (check (player_at t a).id t).0 in
        let w : Safe total t' = check-Safe (player_at t a).id t v in
        elim (Option-cases (t.store.node a).nextf) [
          | inl e ↦ rw (antes, e) w
          | inr (b, e) ↦ elim (Bool-cases ((b == blind) && not first)) [
            | inl c ↦ rw (antes, e, c) w
            | inr c ↦ rw (antes, e, c) (antes-Safe fuel blind b false t' w)
          ]
        ]

  module _ (find : FindsWinner G) (keeps : KeepsMoney G) where
    open_round :
        (total fuel now : ℕ) (o : Option (Table G))
        → OnSome (Safe total) o
        → OnSome (Safe total) (elim o as (λ _. Option (Table G)) [
          | none ↦ none
          | some t' ↦
              elim (round_action fuel (mark_turn_started now t')) as (λ _. Option (Table G)) [
                | none ↦ none
                | some (t'', _) ↦ some (trigger_save "start" t'')
              ]
        ])
    unfolding mark_turn_started trigger_save
    open_round total fuel now none v = tt
    open_round total fuel now (some t) v =
        let t' : Table G = mark_turn_started now t in
        let w : Safe total t' = Safe-same t t' refl (SameMoney_refl t.store) refl refl v in
        let r = round_action-Safe find keeps fuel t' w in
        elim (Option-cases (round_action fuel t')) [
          | inl e ↦ rw (e) tt
          | inr ((u, on), e) ↦
              let x : Safe total u = subst (OnSome (λ r. Safe total r.0)) e r in
              rw (e)
                (Safe-same u (trigger_save "start" u) refl (SameMoney_refl u.store) refl refl x)
        ]

    open_game-Safe :
        {total : ℕ} (fuel now : ℕ) (blind : Addr) (t : Table G)
        → Safe total t
        → OnSome (Safe total) (open_game fuel now blind t)
    unfolding open_game
    open_game-Safe {total} fuel now blind t v =
        let raised : Table G = (raise (player_at t blind).id 50 t).0 in
        let w : Safe total raised = raise-Safe (player_at t blind).id 50 t v in
        elim (Bool-cases (G.is_ante raised.game)) [
          | inl c ↦
              let begun : Table G = record raised { turn = some blind } in
              rw (open_game, c)
                (open_round total fuel now (antes fuel blind blind true begun) (
                  antes-Safe fuel blind blind true begun
                    (Safe-same raised begun refl (SameMoney_refl raised.store) refl refl w)))
          | inr c ↦
              let begun : Table G = record raised { turn = (raised.store.node blind).next } in
              rw (open_game, c)
                (open_round total fuel now (some begun)
                  (Safe-same raised begun refl (SameMoney_refl raised.store) refl refl w))
        ]

    pub start_game-Safe :
        {total : ℕ} (fuel now : ℕ) (shuffle : List ℕ → List ℕ) (t : Table G)
        → t.pot ≡ 0
        → Safe total t
        → OnSome (Safe total) (start_game fuel now shuffle t)
    unfolding start_game Table.reset
    start_game-Safe {total} fuel now shuffle t z v =
        let t' : Table G = record (rebuild_full_ring t) {
          showdown = none;
          next_game_players = [];
        } in
        let same = rebuild_full_ring-store t in
        let players = rebuild_full_ring-players t in
        let w : Safe total t' =
          Safe-idle t t' players same z (omega (arith, rebuild_full_ring-pot t, z))
            (omega (arith, rebuild_full_ring-bet t, v.small)) v in
        elim (Option-cases t'.head) [
          | inl e ↦ rw (start_game, e) w
          | inr (head, e) ↦
              let d = deal_in-SameMoney fuel head head true t'.store in
              elim (Option-cases (deal_in fuel head head true t'.store)) [
                | inl f ↦ rw (start_game, e, f) tt
                | inr (s, f) ↦
                    let k : SameMoney t'.store s = subst (OnSome (SameMoney t'.store)) f d in
                    let ready : Table G = Table.reset (record t' { store = s }) in
                    let begun : Table G = record ready { game = G.start_game shuffle ready.game } in
                    let x : Safe total begun =
                      Safe-idle t begun players (SameMoney_trans same k) z refl (omega arith) v in
                    elim (Option-cases begun.blind) [
                      | inl g ↦ rw (start_game, e, f, g) x
                      | inr (blind, g) ↦
                          rw (start_game, e, f, g) (open_game-Safe fuel now blind begun x)
                    ]
              ]
        ]
