-- ===== src/Table/Safe/Expiry.antt =====
-- The invariant across `expire_timed_out_turn` and `remove_unconfirmed_players` of Server/src/lib.rs.
use rust_poker.Base.{
  ℕ, subst, List, [], ◌∷◌, Option, none, some, Option-cases, OnSome, not, ◌||◌, Bool-cases, ltb,
  inl, inr, is_some, ◌-◌,
}
use rust_poker.Game.{Game}
use rust_poker.Table.{Table, Result, ok, err, player_at, turn_timeout}
use rust_poker.Table.Bets.Laws.{chips}
use rust_poker.Table.Expiry.{
  go_on, expire_timed_out_turn, remove_all, unconfirmed, remove_unconfirmed_players,
}
use rust_poker.Table.Pots.Laws.{FindsWinner}
use rust_poker.Table.Rounds.{advance_turn}
use rust_poker.Table.Safe.{Safe, SafeWithin}
use rust_poker.Table.Safe.Leaving.{remove_player-Safe, Safe-SafeWithin, SafeWithin-trans}
use rust_poker.Table.Safe.Rounds.{KeepsMoney, advance_turn-Safe}
use rust_poker.Table.Seats.{remove_player}

module _ {G : Game} (find : FindsWinner G) (keeps : KeepsMoney G) where
  go_on-Safe :
      (total fuel now : ℕ) (t : Table G)
      → SafeWithin total t
      → OnSome (SafeWithin total) (go_on fuel now t)
  unfolding go_on
  go_on-Safe total fuel now t v =
      let a = advance_turn-Safe find keeps fuel now t v.0 in
      elim (Bool-cases (is_some t.turn)) [
        | inr c ↦ rw (go_on, c) v
        | inl c ↦ elim (Option-cases (advance_turn fuel now t)) [
          | inl e ↦ rw (go_on, c, e) tt
          | inr (u, e) ↦
              let w : Safe (chips t) u = subst (OnSome (Safe (chips t))) e a in
              rw (go_on, c, e)
                (SafeWithin-trans (chips t) total u v.1 (Safe-SafeWithin (chips t) u w))
        ]
      ]

  expired-Safe :
      (total fuel now id : ℕ) (o : Option (Table G × Result))
      → OnSome (λ r. SafeWithin total r.0) o
      → (t : Table G) → SafeWithin total t
      → OnSome
          (λ r. SafeWithin total r.0)
          (elim o as (λ _. Option (Table G × Option ℕ)) [
            | none ↦ none
            | some (t', err _) ↦ some (t', none)
            | some (t', ok _) ↦ elim (go_on fuel now t') as (λ _. Option (Table G × Option ℕ)) [
              | none ↦ none
              | some t'' ↦ some (t'', some id)
            ]
          ])
  expired-Safe total fuel now id none h t v = tt
  expired-Safe total fuel now id (some (u, err e)) h t v = h
  expired-Safe total fuel now id (some (u, ok r)) h t v =
      let w = go_on-Safe total fuel now u h in
      elim (Option-cases (go_on fuel now u)) [
        | inl e ↦ rw (e) tt
        | inr (u', e) ↦ rw (e) (subst (OnSome (SafeWithin total)) e w)
      ]

  pub expire_timed_out_turn-Safe :
      (total fuel now : ℕ) (t : Table G)
      → Safe total t
      → OnSome (λ r. SafeWithin total r.0) (expire_timed_out_turn fuel now t)
  unfolding expire_timed_out_turn
  expire_timed_out_turn-Safe total fuel now t v =
      let same = Safe-SafeWithin total t v in
      elim (Bool-cases (is_some t.showdown || not (is_some t.turn))) [
        | inl c ↦ rw (expire_timed_out_turn, c) same
        | inr c ↦ elim (Option-cases t.turn_started_at) [
          | inl e ↦ rw (expire_timed_out_turn, c, e) same
          | inr (started, e) ↦ elim (Option-cases t.turn) [
            | inl f ↦ rw (expire_timed_out_turn, c, e, f) same
            | inr (a, f) ↦ elim (Bool-cases (ltb (now - started) turn_timeout)) [
              | inl d ↦ rw (expire_timed_out_turn, c, e, f, d) same
              | inr d ↦
                  let id = (player_at t a).id in
                  rw (expire_timed_out_turn, c, e, f, d)
                    (expired-Safe total fuel now id (remove_player now id t)
                      (remove_player-Safe find total now id t v) t same)
            ]
          ]
        ]
      ]

  remove_all-Safe :
      (total now : ℕ) (ids : List ℕ) (t : Table G)
      → SafeWithin total t
      → OnSome (SafeWithin total) (remove_all now ids t)
  unfolding remove_all
  remove_all-Safe total now [] t v = v
  remove_all-Safe total now (id ∷ ids) t v =
      let r = remove_player-Safe find (chips t) now id t v.0 in
      elim (Option-cases (remove_player now id t)) [
        | inl e ↦ rw (remove_all, e) tt
        | inr ((u, x), e) ↦
            let w : SafeWithin (chips t) u = subst (OnSome (λ r. SafeWithin (chips t) r.0)) e r in
            rw (remove_all, e)
              (remove_all-Safe total now ids u (SafeWithin-trans (chips t) total u v.1 w))
      ]

  pub remove_unconfirmed_players-Safe :
      (total now : ℕ) (t : Table G)
      → Safe total t
      → OnSome (SafeWithin total) (remove_unconfirmed_players now t)
  unfolding remove_unconfirmed_players
  remove_unconfirmed_players-Safe total now t v =
      let same = Safe-SafeWithin total t v in
      elim (Bool-cases (is_some t.showdown)) [
        | inl c ↦
            rw (remove_unconfirmed_players, c)
              (remove_all-Safe total now (unconfirmed t.next_game_players t.players) t same)
        | inr c ↦ rw (remove_unconfirmed_players, c) same
      ]
