-- ===== src/Server/Clients/Steps.antt =====
-- The rounds of `handle_game_client` of Server/src/clienthandler.rs as steps of the table.
use rust_poker.Base.{
  ℕ, ◌≤◌, refl, subst, List, Option, none, some, Option-cases, OnSome, Bool, true, false,
  Bool-cases, inl, inr, ltb, if◌then◌else◌, arith,
}
use rust_poker.Base.Text.{Text}
use rust_poker.Game.{Game}
use rust_poker.Player.{Addr}
use rust_poker.Table.{Table, Players, Result, ok, err, get_num_players}
use rust_poker.Table.Rounds.{game_actions, advance_turn}
use rust_poker.Table.Seats.{remove_player}
use rust_poker.Table.Steps.{
  turns, ends, Plays, here, next, plays, leaves, Run, stop, step, Run_of_Plays, Run_trans,
}
use rust_poker.Server.Commands.{Answer, accepted, rejected, is_bet, is_word, bet_of}
use rust_poker.Server.Commands.Laws.{Reaches, after_trans, run_bet-Reaches, game_actions-Reaches}
use rust_poker.Server.Clients.{Client, Outcome, continues, returns, disconnect, lost, report, play}
use rust_poker.Server.Clients.Rounds.{joined_command}
use rust_poker.Table.View.{turn_id}
use rust_poker.Server.Web.{is_id}

module _ {G : Game} (insert : ℕ → Addr → Players → Players) where
  -- The table behind is reached by a run that brings at most `w` chips.
  abbrev pub Within : ℕ → Table G → Table G → Type 0
  Within w t u = (n : ℕ) × (n ≤ w) × Run insert t n u

  abbrev pub Ends : ℕ → Table G → Outcome G → Type 0
  Ends w t (continues c u) = Within w t u
  Ends w t (returns c u) = Within w t u

  pub free : (w : ℕ) {t u : Table G} → Run insert t 0 u → Within w t u
  free w r = (0, omega arith, r)

  pub played : (w : ℕ) {t u : Table G} → Plays t u → Within w t u
  played w p = free w (Run_of_Plays insert p)

  advance-Runs :
      (fuel now : ℕ) (on_turn : Bool) (u : Table G)
      → OnSome (Run insert u 0) (if on_turn then advance_turn fuel now u else some u)
  advance-Runs fuel now false u = stop refl
  advance-Runs fuel now true u = elim (Option-cases (advance_turn fuel now u)) [
    | inl e ↦ rw (e) tt
    | inr (v, e) ↦ rw (e) (Run_of_Plays insert (next here (turns fuel now e)))
  ]

  disconnect-Runs :
      (fuel now id : ℕ) (on_turn : Bool) (t : Table G)
      → OnSome (Run insert t 0) (disconnect fuel now id on_turn t)
  unfolding disconnect
  disconnect-Runs fuel now id on_turn t = elim (Option-cases (remove_player now id t)) [
    | inl e ↦ rw (disconnect, e) tt
    | inr ((u, r), e) ↦
        let gone : Run insert t 0 u = step {m = 0} (stop refl) (leaves now id r e) refl in
        elim (Option-cases (if on_turn then advance_turn fuel now u else some u)) [
          | inl f ↦ rw (disconnect, e, f) tt
          | inr (v, f) ↦
              let on : Run insert t 0 v =
                Run_trans insert gone
                  (subst (OnSome (Run insert u 0)) f (advance-Runs fuel now on_turn u)) in
              elim (Bool-cases (ltb (get_num_players v) 2)) [
                | inl c ↦ rw (disconnect, e, f, c) (step {m = 0} on (plays (ends refl)) refl)
                | inr c ↦ rw (disconnect, e, f, c) on
              ]
        ]
  ]

  pub lost-Ends :
      (w fuel now : ℕ) (on_turn : Bool) (c : Client) (t : Table G)
      → OnSome (Ends w t) (lost fuel now on_turn c t)
  unfolding lost
  lost-Ends w fuel now on_turn c t = elim (Option-cases c.player_id) [
    | inl e ↦ rw (lost, e) (free w (stop refl))
    | inr (id, e) ↦
        let d = disconnect-Runs fuel now id on_turn t in
        elim (Option-cases (disconnect fuel now id on_turn t)) [
          | inl f ↦ rw (lost, e, f) tt
          | inr (u, f) ↦ rw (lost, e, f) (free w (subst (OnSome (Run insert t 0)) f d))
        ]
  ]

  report-Ends :
      (w fuel now : ℕ) (writable on_turn : Bool) (id : ℕ) (c : Client) (t : Table G)
      (o : Option (Table G × Answer))
      → Reaches t o
      → OnSome (Ends w t) (report fuel now writable on_turn id c o)
  unfolding report
  report-Ends w fuel now writable on_turn id c t none h = tt
  report-Ends w fuel now true on_turn id c t (some (u, rejected e)) h = played w h
  report-Ends w fuel now true on_turn id c t (some (u, accepted r)) h =
      elim (Option-cases (advance_turn fuel now u)) [
        | inl e ↦ rw (report, e) tt
        | inr (v, e) ↦ rw (report, e) (played w (next h (turns fuel now e)))
      ]
  report-Ends w fuel now false on_turn id c t (some (u, a)) h =
      let d = disconnect-Runs fuel now id on_turn u in
      elim (Option-cases (disconnect fuel now id on_turn u)) [
        | inl e ↦ rw (report, e) tt
        | inr (v, e) ↦
            rw (report, e)
              (free w
                (Run_trans insert (Run_of_Plays insert h) (subst (OnSome (Run insert u 0)) e d)))
      ]

  play-Ends :
      (w fuel now : ℕ) (writable on_turn : Bool) (id : ℕ) (parts : List Text) (c : Client)
      (t : Table G) (o : Option (Table G × Result))
      → Reaches t o
      → OnSome (Ends w t) (play fuel now writable on_turn id parts c o)
  unfolding play
  play-Ends w fuel now writable on_turn id parts c t none h = tt
  play-Ends w fuel now false on_turn id parts c t (some (u, ok r)) h = tt
  play-Ends w fuel now true on_turn id parts c t (some (u, ok r)) h =
      elim (Option-cases (advance_turn fuel now u)) [
        | inl e ↦ rw (play, e) tt
        | inr (v, e) ↦ rw (play, e) (played w (next h (turns fuel now e)))
      ]
  play-Ends w fuel now writable on_turn id parts c t (some (u, err e)) h =
      elim (Bool-cases (is_bet e)) [
        | inl b ↦
            rw (play, b)
              (report-Ends w fuel now writable on_turn id c t _
                (after_trans t u _ h (run_bet-Reaches now id (bet_of parts) u)))
        | inr b ↦ elim (Bool-cases writable) [
          | inl d ↦ rw (play, b, d) (played w h)
          | inr d ↦ rw (play, b, d) tt
        ]
      ]

  pub joined_command-Ends :
      (w fuel now : ℕ) (writable on_turn : Bool) (id : ℕ) (parts : List Text) (c : Client)
      (t : Table G)
      → OnSome (Ends w t) (joined_command fuel now writable on_turn id parts c t)
  unfolding joined_command
  joined_command-Ends w fuel now writable on_turn id parts c t =
      let d = disconnect-Runs fuel now id on_turn t in
      elim (Bool-cases (is_word "LEAVE" parts)) [
        | inl l ↦ elim (Option-cases (disconnect fuel now id on_turn t)) [
          | inl e ↦ rw (joined_command, l, e) tt
          | inr (u, e) ↦ rw (joined_command, l, e) (free w (subst (OnSome (Run insert t 0)) e d))
        ]
        | inr l ↦ elim (Bool-cases (is_word "UPDATE" parts)) [
          | inl p ↦ rw (joined_command, l, p) (free w (stop refl))
          | inr p ↦ elim (Bool-cases (is_id id (turn_id t))) [
            | inl i ↦
                rw (joined_command, l, p, i)
                  (play-Ends w fuel now writable on_turn id parts c t (game_actions id parts t)
                    (game_actions-Reaches id parts t))
            | inr i ↦ rw (joined_command, l, p, i) (free w (stop refl))
          ]
        ]
      ]
