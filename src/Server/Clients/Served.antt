-- ===== src/Server/Clients/Served.antt =====
-- Whole rounds of `handle_game_client` of Server/src/clienthandler.rs as steps of the table.
use rust_poker.Base.{
  ℕ, ◌≤◌, ◌≡◌, refl, subst, List, Option, none, some, Option-cases, OnSome, Bool, true, ◌&&◌,
  Bool-cases, inl, inr, is_empty, arith,
}
use rust_poker.Base.Text
use rust_poker.Base.Text.{Text, trim, split_whitespace}
use rust_poker.Base.Text.Chars.{to_string}
use rust_poker.Game.{Game}
use rust_poker.Player.{Player, Addr}
use rust_poker.Table.{Table, Players, ok, err, persist_player}
use rust_poker.Table.Rounds.{advance_turn, start_game}
use rust_poker.Table.Seats.{add_player_with_optional_stream}
use rust_poker.Table.Steps.{
  turns, ends, writes, starts, here, next, joins, Run, stop, step, Run_of_Plays,
}
use rust_poker.Server.Commands.{is_word, u64_max}
use rust_poker.Server.Web.{joining}
use rust_poker.Server.Clients.{
  Input, closed, nothing, broken, received, Client, Outcome, continues, is_turn, lost,
  debug_command, handle_join, own_stream,
}
use rust_poker.Server.Clients.Rounds.{command, request, round, join_request, is_failed}
use rust_poker.Server.Clients.Steps.{Ends, free, lost-Ends, joined_command-Ends}

-- The rows of the database have no bet and at most `w` chips.
abbrev pub IsRich : (ℕ → Option Player) → ℕ → Type 0
IsRich fetch w = (id : ℕ) → OnSome (λ p. (p.bet ≡ 0) × (p.wallet ≤ w)) (fetch id)

joining-IsRich :
    (w id : ℕ) (o : Option Player) (name : Text)
    → 1000 ≤ w
    → OnSome (λ p. (p.bet ≡ 0) × (p.wallet ≤ w)) o
    → ((joining o id (to_string name) none).bet ≡ 0)
      × ((joining o id (to_string name) none).wallet ≤ w)
joining-IsRich w id none name h r = (refl, h)
joining-IsRich w id (some p) name h r = r

module _ {G : Game} (insert : ℕ → Addr → Players → Players) (fetch : ℕ → Option Player) where
  handle_join-Ends :
      (w : ℕ) (writable : Bool) (id name : Text) (c : Client) (t : Table G)
      → 1000 ≤ w
      → IsRich fetch w
      → OnSome (Ends insert w t) (handle_join insert fetch writable id name c t)
  unfolding handle_join
  handle_join-Ends w writable id name c t h r = elim (Option-cases (Text.parse u64_max id)) [
    | inl e ↦ rw (handle_join, e) (free insert w (stop refl))
    | inr (k, e) ↦
        let p = joining (fetch k) k (to_string name) none in
        let rich = joining-IsRich w k (fetch k) name h (r k) in
        let t' = persist_player p t in
        let r0 : Run insert t 0 t' = Run_of_Plays insert (next here (writes p refl)) in
        elim (Option-cases (add_player_with_optional_stream insert p own_stream t')) [
          | inl f ↦ rw (handle_join, e, f) tt
          | inr ((u, ok x), f) ↦
              rw (handle_join, e, f)
                (
                  p.wallet,
                  rich.1,
                  step {n = 0} {m = p.wallet} r0 (joins p own_stream (ok x) rich.0 refl f)
                      (omega arith),
                )
          | inr ((u, err x), f) ↦
              rw (handle_join, e, f)
                (
                  p.wallet,
                  rich.1,
                  step {n = 0} {m = p.wallet} r0 (joins p own_stream (err x) rich.0 refl f)
                      (omega arith),
                )
        ]
  ]

  command-Ends :
      (w fuel now : ℕ) (writable on_turn : Bool) (parts : List Text) (c : Client) (t : Table G)
      → 1000 ≤ w
      → IsRich fetch w
      → OnSome (Ends insert w t) (command insert fetch fuel now writable on_turn parts c t)
  unfolding command
  command-Ends w fuel now writable on_turn parts c t h r =
      elim (Option-cases (join_request parts)) [
        | inr ((id, name), e) ↦ rw (command, e) (handle_join-Ends w writable id name c t h r)
        | inl e ↦ elim (Option-cases c.player_id) [
          | inl f ↦ rw (command, e, f) (free insert w (stop refl))
          | inr (id, f) ↦
              rw (command, e, f)
                (joined_command-Ends insert w fuel now writable on_turn id parts c t)
        ]
      ]

  started :
      (fuel now : ℕ) (shuffle : List ℕ → List ℕ) (t : Table G)
      → t.pot ≡ 0
      → OnSome (Run insert t 0) (start_game fuel now shuffle t)
  started fuel now shuffle t z = elim (Option-cases (start_game fuel now shuffle t)) [
    | inl e ↦ rw (e) tt
    | inr (u, e) ↦ rw (e) (Run_of_Plays insert (next here (starts fuel now shuffle z e)))
  ]

  skipped : (fuel now : ℕ) (t : Table G) → OnSome (Run insert t 0) (advance_turn fuel now t)
  skipped fuel now t = elim (Option-cases (advance_turn fuel now t)) [
    | inl e ↦ rw (e) tt
    | inr (u, e) ↦ rw (e) (Run_of_Plays insert (next here (turns fuel now e)))
  ]

  debug_command-Runs :
      (fuel now : ℕ) (shuffle : List ℕ → List ℕ) (writable : Bool) (parts : List Text) (c : Client)
      (t : Table G)
      → (is_word "DEBUG_START" parts ≡ true → t.pot ≡ 0)
      → OnSome
          (λ r. OnSome (Run insert t 0) r.1)
          (debug_command fuel now shuffle writable parts c t)
  unfolding debug_command
  debug_command-Runs fuel now shuffle writable parts c t idle =
      elim (Bool-cases (is_word "DEBUG" parts)) [
        | inl e ↦ rw (debug_command, e) (stop refl)
        | inr e ↦ elim (Bool-cases (is_word "DEBUG_PING" parts)) [
          | inl f ↦ rw (debug_command, e, f) (stop refl)
          | inr f ↦ elim (Bool-cases (is_word "DEBUG_UDP" parts)) [
            | inl g ↦ rw (debug_command, e, f, g) (stop refl)
            | inr g ↦ elim (Bool-cases (is_word "DEBUG_DECK" parts)) [
              | inl h ↦ rw (debug_command, e, f, g, h) (stop refl)
              | inr h ↦ elim (Bool-cases (is_word "DEBUG_CARDS" parts)) [
                | inl i ↦ rw (debug_command, e, f, g, h, i) (stop refl)
                | inr i ↦ elim (Bool-cases (is_word "DEBUG_START" parts)) [
                  | inl j ↦
                      rw (debug_command, e, f, g, h, i, j) (started fuel now shuffle t (idle j))
                  | inr j ↦ elim (Bool-cases (is_word "DEBUG_SKIP" parts)) [
                    | inl k ↦ rw (debug_command, e, f, g, h, i, j, k) (skipped fuel now t)
                    | inr k ↦ elim (Bool-cases (is_word "DEBUG_END" parts)) [
                      | inl l ↦
                          rw (debug_command, e, f, g, h, i, j, k, l)
                            (Run_of_Plays insert (next here (ends refl)))
                      | inr l ↦ rw (debug_command, e, f, g, h, i, j, k, l) tt
                    ]
                  ]
                ]
              ]
            ]
          ]
        ]
      ]

  request-Ends :
      (w : ℕ) (shuffle : List ℕ → List ℕ) (fuel now : ℕ) (writable on_turn : Bool)
      (parts : List Text) (c : Client) (t : Table G)
      → 1000 ≤ w
      → IsRich fetch w
      → (is_word "DEBUG_START" parts ≡ true → t.pot ≡ 0)
      → OnSome (Ends insert w t) (request insert fetch shuffle fuel now writable on_turn parts c t)
  unfolding request
  request-Ends w shuffle fuel now writable on_turn parts c t h r idle =
      let d = debug_command-Runs fuel now shuffle writable parts c t idle in
      elim (Bool-cases (is_empty parts)) [
        | inl e ↦ rw (request, e) (free insert w (stop refl))
        | inr e ↦ elim (Bool-cases (is_word "PONG" parts)) [
          | inl f ↦ rw (request, e, f) (free insert w (stop refl))
          | inr f ↦ elim (Option-cases (debug_command fuel now shuffle writable parts c t)) [
            | inl g ↦ rw (request, e, f, g) (command-Ends w fuel now writable on_turn parts c t h r)
            | inr ((c', none), g) ↦ rw (request, e, f, g) tt
            | inr ((c', some u), g) ↦
                rw (request, e, f, g)
                  (free insert w (subst (OnSome (λ r. OnSome (Run insert t 0) r.1)) g d))
          ]
        ]
      ]

  -- A debug command that starts a game finds the pot paid out.
  abbrev pub StartsIdle : Input → Table G → Type 0
  StartsIdle closed t = Unit
  StartsIdle nothing t = Unit
  StartsIdle broken t = Unit
  StartsIdle (received text) t =
      is_word "DEBUG_START" (split_whitespace (trim text)) ≡ true → t.pot ≡ 0

  -- One round of a client's thread, whatever the socket does and whatever is sent, ends, if it
  -- returns, with a table that the table's own operations reach from the one before, with at most `w`
  -- chips brought, if the rows of the database have no bets and at most `w` chips, `w` is at least the
  -- 1000 chips of a new player, and a game is started by a debug command only when the pot has been
  -- paid out.
  pub round-Ends :
      (w : ℕ) (shuffle : List ℕ → List ℕ) (fuel now : ℕ) (writable : Bool) (pinged : Option Bool)
      (input : Input) (c : Client) (t : Table G)
      → 1000 ≤ w
      → IsRich fetch w
      → StartsIdle input t
      → OnSome (Ends insert w t) (round insert fetch shuffle fuel now writable pinged input c t)
  unfolding round
  round-Ends w shuffle fuel now writable pinged input c t h r idle =
      let on_turn = is_turn c t in
      elim (Bool-cases (on_turn && is_failed pinged)) [
        | inl e ↦ rw (round, e) (lost-Ends insert w fuel now on_turn c t)
        | inr e ↦ rw (round, e) (by_input on_turn input idle)
      ]
    where
      by_input :
          (on_turn : Bool) (i : Input)
          → StartsIdle i t
          → OnSome (Ends insert w t) (elim i as (λ _. Option (Outcome G)) [
            | closed ↦ lost fuel now on_turn c t
            | broken ↦ lost fuel now on_turn c t
            | nothing ↦ some (continues c t)
            | received text ↦
                request insert fetch shuffle fuel now writable on_turn
                  (split_whitespace (trim text))
                  c
                  t
          ])
      by_input on_turn closed k = lost-Ends insert w fuel now on_turn c t
      by_input on_turn broken k = lost-Ends insert w fuel now on_turn c t
      by_input on_turn nothing k = free insert w (stop refl)
      by_input on_turn (received text) k =
          request-Ends w shuffle fuel now writable on_turn (split_whitespace (trim text)) c t h r k
