-- ===== src/Server/Manager/Ports.antt =====
-- The ports of the games of Server/src/servermanager.rs.
use rust_poker.Base.{
  ℕ, suc, ◌+◌, ◌-◌, ◌<◌, ◌≡◌, ◌≢◌, refl, sym, ap, ◌∙◌, List, [], ◌∷◌, none, some, true, false,
  Bool-cases, inl, inr, if◌then◌else◌, length, contains, All, All-imp, ◌^◌, arith,
}
use rust_poker.Base.Text.{Text, same_text}
use rust_poker.Server.Manager.{
  TableInfo, ServerManager, find, insert, remove, unbind, port_of, multicast_of, register_game,
  shutdown_game, names,
}

-- A name that no entry has.
abbrev pub IsNew : Text → List (Text × TableInfo) → Type 0
IsNew name m = All (λ k. same_text k name ≡ false) (names m)

length-insert :
    (name : Text) (info : TableInfo) (m : List (Text × TableInfo))
    → IsNew name m
    → length (insert name info m) ≡ suc (length m)
unfolding insert
length-insert name info [] h = refl
length-insert name info ((k, old) ∷ m) h = rw (h.0) (ap suc (length-insert name info m h.1))

-- The ports that are bound lie below the next one.
abbrev pub Fits : ServerManager → Type 0
Fits s = All (λ p. p < 10000 + length s.tables) s.bound

below-free : (n : ℕ) (ps : List ℕ) → All (λ p. p < n) ps → contains ps n ≡ false
below-free n [] h = refl
below-free n (p ∷ ps) h = ground (arith, h.0, below-free n ps h.1)

raise_bound : (n : ℕ) (p : ℕ) → p < n → p < suc n
raise_bound n p h = omega arith

-- A game that is added to a registry whose ports lie below the next one is registered, with that next
-- port, and leaves such a registry, if its name is new and the port is a 16-bit number.
pub register_game-Fits :
    (name : Text) (s : ServerManager)
    → Fits s
    → IsNew name s.tables
    → 10000 + length s.tables < 2 ^ 16
    → (u : ServerManager) × (register_game name s ≡ some u)
      × Fits u
      × (u.bound ≡ (10000 + length s.tables) ∷ s.bound)
unfolding register_game
register_game-Fits name s f n h =
    let count = length s.tables in
    let port : port_of count ≡ 10000 + count = omega arith in
    let free = below-free (10000 + count) s.bound f in
    let info : TableInfo = record { port = 10000 + count; multicast_addr = multicast_of count } in
    let longer = length-insert name info s.tables n in
    let e : suc (10000 + count) ≡ 10000 + suc count = omega arith in
    (
      record s { tables = insert name info s.tables; bound = (10000 + count) ∷ s.bound },
      rw (register_game, port, free) refl,
      rw (longer) (omega arith, All-imp (λ p k. omega (arith, k)) s.bound f),
      refl,
    )

length-remove :
    (name : Text) (m : List (Text × TableInfo)) (info : TableInfo)
    → find name m ≡ some info
    → length m ≡ suc (length (remove name m))
unfolding remove
length-remove name [] info e = absurd (ground (arith, e))
length-remove name ((k, old) ∷ m) info e = elim (Bool-cases (same_text k name)) [
  | inl c ↦ rw (remove, c) refl
  | inr c ↦
      rw (remove, c)
        (ap suc
          (length-remove name m info (sym (ap (λ v. if v then some old else find name m) c) ∙ e)))
]

contains-unbind :
    (port other : ℕ) (ps : List ℕ)
    → port ≢ other
    → contains ps other ≡ true
    → contains (unbind port ps) other ≡ true
unfolding unbind
contains-unbind port other [] n h = h
contains-unbind port other (p ∷ ps) n h = ground (arith, n, h, contains-unbind port other ps n)

-- Once a game has been shut down, while the game with the last port still runs, no further game can
-- be registered: its port is the last one again, and binding it panics.
pub register_game-after_shutdown :
    (name other : Text) (info : TableInfo) (s : ServerManager)
    → find name s.tables ≡ some info
    → contains s.bound (port_of (length s.tables - 1)) ≡ true
    → info.port ≢ port_of (length s.tables - 1)
    → register_game other (shutdown_game name s) ≡ none
unfolding register_game shutdown_game
register_game-after_shutdown name other info s e b n =
    let shorter : length (remove name s.tables) ≡ length s.tables - 1 =
      omega (arith, length-remove name s.tables info e) in
    let taken = contains-unbind info.port (port_of (length s.tables - 1)) s.bound n b in
    rw (shutdown_game, e, register_game, shorter, taken) refl
