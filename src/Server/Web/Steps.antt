-- ===== src/Server/Web/Steps.antt =====
-- The web server's requests as steps of a table, Server/src/web.rs.
use rust_poker.Base.{
  ℕ, ◌≤◌, ◌≡◌, refl, subst, List, Option, none, some, Option-cases, OnSome, Bool, false, not, ◌&&◌,
  Bool-cases, inl, inr, String, leb, is_empty, is_some, arith,
}
use rust_poker.Base.Text.{Text, trim, split_whitespace}
use rust_poker.Game.{Game}
use rust_poker.Player.{Player, Addr}
use rust_poker.Table.{Table, Players, get_num_players, is_running, persist_player}
use rust_poker.Table.Expiry.{expire_timed_out_turn, remove_unconfirmed_players}
use rust_poker.Table.Rounds.{start_game}
use rust_poker.Table.Seats.{add_player, add_player_with_optional_stream, remove_player}
use rust_poker.Table.Steps.{
  writes, stays, starts, Plays, here, next, leaves, expires, clears, joins, Run, stop, step,
  Run_of_Plays,
}
use rust_poker.Table.View.{turn_id}
use rust_poker.Server.Commands.{Answer, is_word, returned, run_turn}
use rust_poker.Server.Commands.Laws.{run_turn-Reaches}
use rust_poker.Server.Web.{
  is_id, run_words, run_action, joining, join_table, watch, clear_showdown, start_if_ready,
}

module _ {G : Game} (insert : ℕ → Addr → Players → Players) where
  abbrev Runs : {A : Type 0} → Table G → Option (Table G × A) → Type 0
  Runs t o = OnSome (λ r. Run insert t 0 r.0) o

  plays-Runs :
      {A : Type 0} (t : Table G) (o : Option (Table G × A)) → OnSome (λ r. Plays t r.0) o → Runs t o
  plays-Runs t none h = tt
  plays-Runs t (some r) h = Run_of_Plays insert h

  leave-Runs : (now id : ℕ) (t : Table G) → Runs t (returned (remove_player now id t))
  leave-Runs now id t = elim (Option-cases (remove_player now id t)) [
    | inl e ↦ rw (e) tt
    | inr ((u, r), e) ↦ rw (e) (step {m = 0} (stop refl) (leaves now id r e) refl)
  ]

  run_words-Runs :
      (fuel now id : ℕ) (parts : List Text) (t : Table G) → Runs t (run_words fuel now id parts t)
  unfolding run_words
  run_words-Runs fuel now id parts t = elim (Bool-cases (is_word "LEAVE" parts)) [
    | inl c ↦ rw (run_words, c) (leave-Runs now id t)
    | inr c ↦ elim (Bool-cases (is_word "UPDATE" parts)) [
      | inl d ↦ rw (run_words, c, d) (stop refl)
      | inr d ↦ elim (Bool-cases (is_word "KEEP_PLAYING" parts)) [
        | inl e ↦ rw (run_words, c, d, e) (Run_of_Plays insert (next here (stays id refl)))
        | inr e ↦ elim (Bool-cases (is_id id (turn_id t))) [
          | inl f ↦
              rw (run_words, c, d, e, f)
                (plays-Runs t (run_turn fuel now id parts t) (run_turn-Reaches fuel now id parts t))
          | inr f ↦ rw (run_words, c, d, e, f) (stop refl)
        ]
      ]
    ]
  ]

  run_action-Runs :
      (fuel now id : ℕ) (command : Text) (t : Table G) → Runs t (run_action fuel now id command t)
  unfolding run_action
  run_action-Runs fuel now id command t = elim (Bool-cases (is_empty (trim command))) [
    | inl c ↦ rw (run_action, c) (stop refl)
    | inr c ↦ rw (run_action, c) (run_words-Runs fuel now id (split_whitespace (trim command)) t)
  ]

  -- A request to the table, or a part of a round of the thread that watches it, with the chips that
  -- it brings. A row of the database is read with no bet; a game starts when the pot has been paid out.
  pub data Request (t : Table G) (brought : ℕ) (u : Table G) : Type 0 where
    commands :
        (fuel now id : ℕ) (command : Text) (a : Answer)
        → run_action fuel now id command t ≡ some (u, a)
        → Request t brought u
    enters :
        (fetched : Option Player) (id : ℕ) (name : String) (wallet : Option ℕ) (a : Answer)
        → (joining fetched id name wallet).bet ≡ 0
        → (joining fetched id name wallet).wallet ≡ brought
        → join_table insert fetched id name wallet t ≡ some (u, a)
        → Request t brought u
    watches :
        (fuel now : ℕ) (ready : Bool) → watch fuel now t ≡ some (u, ready) → Request t brought u
    clears_up : (now : ℕ) → clear_showdown now t ≡ some u → Request t brought u
    begins :
        (fuel now : ℕ) (shuffle : List ℕ → List ℕ)
        → (is_running t ≡ false → t.pot ≡ 0)
        → start_if_ready fuel now shuffle t ≡ some u
        → Request t brought u

  join_table-Runs :
      (p : Player) (t : Table G)
      → p.bet ≡ 0
      → OnSome
          (λ r. Run insert t p.wallet r.0)
          (returned (add_player insert p (persist_player p t)))
  unfolding add_player
  join_table-Runs p t bet =
      let t' = persist_player p t in
      elim (Option-cases (add_player_with_optional_stream insert p none t')) [
        | inl e ↦ rw (e) tt
        | inr ((u, r), e) ↦ rw (e) (
            step {n = 0} {m = p.wallet} (Run_of_Plays insert (next here (writes p refl)))
              (joins p none r bet refl e) (omega arith))
      ]

  watch-Runs : (fuel now : ℕ) (t : Table G) → Runs t (watch fuel now t)
  unfolding watch
  watch-Runs fuel now t = elim (Option-cases (expire_timed_out_turn fuel now t)) [
    | inl e ↦ rw (watch, e) tt
    | inr ((u, who), e) ↦ rw (watch, e) (step {m = 0} (stop refl) (expires fuel now who e) refl)
  ]

  clear_showdown-Runs : (now : ℕ) (t : Table G) → OnSome (Run insert t 0) (clear_showdown now t)
  unfolding clear_showdown
  clear_showdown-Runs now t = elim (Bool-cases (is_some t.showdown)) [
    | inr c ↦ rw (clear_showdown, c) (stop refl)
    | inl c ↦ elim (Option-cases (remove_unconfirmed_players now t)) [
      | inl e ↦ rw (clear_showdown, c, e) tt
      | inr (u, e) ↦ rw (clear_showdown, c, e) (step {m = 0} (stop refl) (clears now e) refl)
    ]
  ]

  start_if_ready-Runs :
      (fuel now : ℕ) (shuffle : List ℕ → List ℕ) (t : Table G)
      → (is_running t ≡ false → t.pot ≡ 0)
      → OnSome (Run insert t 0) (start_if_ready fuel now shuffle t)
  unfolding start_if_ready
  start_if_ready-Runs fuel now shuffle t idle =
      elim (Bool-cases (leb 2 (get_num_players t) && not (is_running t))) [
        | inr c ↦ rw (start_if_ready, c) (stop refl)
        | inl c ↦ elim (Option-cases (start_game fuel now shuffle t)) [
          | inl e ↦ rw (start_if_ready, c, e) tt
          | inr (u, e) ↦
              rw (start_if_ready, c, e)
                (Run_of_Plays insert
                  (next here (starts fuel now shuffle (idle (ground (arith, c))) e)))
        ]
      ]

  -- The run of a request that brings nothing is one with any bound.
  pub Request-Run :
      {t u : Table G} {brought : ℕ}
      → Request t brought u
      → (n : ℕ) × (n ≤ brought) × Run insert t n u
  Request-Run (commands fuel now id command a e) = (
    0,
    omega arith,
    subst (OnSome (λ r. Run insert _ 0 r.0)) e (run_action-Runs fuel now id command _),
  )
  Request-Run {t} {u} (enters fetched id name wallet a bet w e) = (
    (joining fetched id name wallet).wallet,
    omega (arith, w),
    subst (OnSome (λ r. Run insert t (joining fetched id name wallet).wallet r.0)) e
        (unfold join_table in join_table-Runs (joining fetched id name wallet) t bet),
  )
  Request-Run (watches fuel now ready e) =
      (0, omega arith, subst (OnSome (λ r. Run insert _ 0 r.0)) e (watch-Runs fuel now _))
  Request-Run (clears_up now e) =
      (0, omega arith, subst (OnSome (Run insert _ 0)) e (clear_showdown-Runs now _))
  Request-Run (begins fuel now shuffle idle e) = (
    0,
    omega arith,
    subst (OnSome (Run insert _ 0)) e (start_if_ready-Runs fuel now shuffle _ idle),
  )
