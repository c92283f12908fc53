-- ===== src/Table/Money.antt =====
-- The chips of a table: the sum of its players' wallets, and how a write to one player changes it.
-- Server/src/lib.rs.
use rust_poker.Base.{
  ℕ, ◌+◌, ◌-◌, ◌^◌, ◌<◌, ◌≤◌, ◌≡◌, ◌≢◌, refl, sym, ap, subst, ◌∙◌, List, [], ◌∷◌, some, Bool-cases,
  if◌then◌else◌, ◌==◌, ==_refl, inl, inr, All, arith,
}
use rust_poker.Player.{Player, Addr}
use rust_poker.Store.{Store, set_player}
use rust_poker.Table.{Players, addresses, lookup, add64, sub64}

pub add64_lem : (a b : ℕ) → a + b < 2 ^ 64 → add64 a b ≡ a + b
add64_lem a b h = omega arith

pub sub64_lem : (a b : ℕ) → b ≤ a → a < 2 ^ 64 → sub64 a b ≡ a - b
sub64_lem a b h l = omega arith

abbrev pub Distinct : List Addr → Type 0
Distinct [] = Unit
Distinct (x ∷ xs) = All (λ y. y ≢ x) xs × Distinct xs

abbrev pub funds : Store → Players → ℕ
funds s [] = 0
funds s ((id, a) ∷ m) = (s.node a).player.wallet + funds s m

pub node-set_player_other :
    (s : Store) (a : Addr) (p : Player) (b : Addr) → b ≢ a → (set_player a p s).node b ≡ s.node b
unfolding set_player
node-set_player_other s a p b n = ground arith

pub player-set_player : (s : Store) (a : Addr) (p : Player) → ((set_player a p s).node a).player ≡ p
unfolding set_player
player-set_player s a p = rw (==_refl a)

pub some_injective : {a b : Addr} → some a ≡ some b → a ≡ b
some_injective e = ground arith

pub lookup-All :
    (P : Addr → Type 0) (id : ℕ) (m : Players) (a : Addr)
    → All P (addresses m)
    → lookup id m ≡ some a
    → P a
lookup-All P id [] a h e = absurd (ground arith)
lookup-All P id ((k, b) ∷ m) a h e = elim (Bool-cases (k == id)) [
  | inl c ↦ subst P (some_injective (sym (ap (λ v. if v then some b else lookup id m) c) ∙ e)) h.0
  | inr c ↦ lookup-All P id m a h.1 (sym (ap (λ v. if v then some b else lookup id m) c) ∙ e)
]

pub funds-elsewhere :
    (s : Store) (a : Addr) (p : Player) (m : Players)
    → All (λ y. y ≢ a) (addresses m)
    → funds (set_player a p s) m ≡ funds s m
funds-elsewhere s a p [] h = refl
funds-elsewhere s a p ((id, b) ∷ m) h =
    rw (node-set_player_other s a p b h.0, funds-elsewhere s a p m h.1)

-- A write to a player's wallet changes the sum by just that.
pub funds-set_player :
    (s : Store) (a : Addr) (p : Player) (id : ℕ) (m : Players)
    → Distinct (addresses m)
    → lookup id m ≡ some a
    → funds (set_player a p s) m + (s.node a).player.wallet ≡ funds s m + p.wallet
funds-set_player s a p id [] d e = absurd (ground arith)
funds-set_player s a p id ((k, b) ∷ m) d e = elim (Bool-cases (k == id)) [
  | inl c ↦
      let same : b ≡ a = some_injective (sym (ap (λ v. if v then some b else lookup id m) c) ∙ e) in
      let others : All (λ y. y ≢ a) (addresses m) =
        subst (λ x. All (λ y. y ≢ x) (addresses m)) same d.0 in
      rw (same, player-set_player s a p, funds-elsewhere s a p m others) (omega arith)
  | inr c ↦
      let later : lookup id m ≡ some a = sym (ap (λ v. if v then some b else lookup id m) c) ∙ e in
      let n : a ≢ b = lookup-All (λ y. y ≢ b) id m a d.0 later in
      rw (node-set_player_other s a p b (λ q. n (sym q)))
        (omega (arith, funds-set_player s a p id m d.1 later))
]

-- A player's wallet is no more than the sum.
pub lookup-funds :
    (s : Store) (id : ℕ) (m : Players) (a : Addr)
    → lookup id m ≡ some a
    → (s.node a).player.wallet ≤ funds s m
lookup-funds s id [] a e = absurd (ground arith)
lookup-funds s id ((k, b) ∷ m) a e = elim (Bool-cases (k == id)) [
  | inl c ↦
      let same : b ≡ a = some_injective (sym (ap (λ v. if v then some b else lookup id m) c) ∙ e) in
      rw (same) (omega arith)
  | inr c ↦
      let ih = lookup-funds s id m a (sym (ap (λ v. if v then some b else lookup id m) c) ∙ e) in
      omega (arith, ih)
]
