-- ===== src/Table/Rounds/DealIn.antt =====
-- The first loop of `start_game` of Server/src/lib.rs, around the full ring.
use rust_poker.Base.{
  ℕ, zero, suc, ◌<◌, ◌≡◌, ◌≢◌, refl, sym, ◌∙◌, ◌⊎◌, List, [], ◌∷◌, Option, none, some, Bool, true,
  false, not, ◌&&◌, Bool-cases, inl, inr, if◌then◌else◌, ◌==◌, ==_refl, ==_iff, ap, subst, length,
  All, arith,
}
use rust_poker.Player.{PlayerNode, Addr}
use rust_poker.Store.{Store, set_node}
use rust_poker.Table.Rounds.{dealt_in, deal_in}

-- From `a` the `nextf` pointers lead through `xs` to `b`.
abbrev pub FullLinks : Store → Addr → List Addr → Addr → Type 0
FullLinks s a [] b = (s.node a).nextf ≡ some b
FullLinks s a (x ∷ xs) b = ((s.node a).nextf ≡ some x) × FullLinks s x xs b

differ : (a b : ℕ) → a ≢ b → (a == b) ≡ false
differ a b n = ground arith

abbrev step : Addr → Store → Store
step a s = set_node a (dealt_in (s.node a)) s

step-nextf : (a b : Addr) (s : Store) → ((step a s).node b).nextf ≡ (s.node b).nextf
unfolding set_node dealt_in
step-nextf a b s = ground arith

step-dealt_in : (a b : Addr) (s : Store) → dealt_in ((step a s).node b) ≡ dealt_in (s.node b)
unfolding set_node dealt_in
step-dealt_in a b s = elim (Bool-cases (b == a)) [
  | inl c ↦ rw (c) (ap (λ x. dealt_in (s.node x)) (sym ((==_iff b a).0 c)))
  | inr c ↦ rw (c)
]

step-here : (a : Addr) (s : Store) → (step a s).node a ≡ dealt_in (s.node a)
unfolding set_node
step-here a s = rw (==_refl a)

step-FullLinks :
    (c : Addr) (s : Store) (a : Addr) (xs : List Addr) (b : Addr)
    → FullLinks s a xs b
    → FullLinks (step c s) a xs b
step-FullLinks c s a [] b l = step-nextf c a s ∙ l
step-FullLinks c s a (x ∷ xs) b l = (step-nextf c a s ∙ l.0, step-FullLinks c s x xs b l.1)

-- Each node is as it was, or as it is at the start of a game.
abbrev pub Dealt : Store → Store → Type 0
Dealt s s' = (b : Addr) → (s'.node b ≡ s.node b) ⊎ (s'.node b ≡ dealt_in (s.node b))

step-Dealt : (a : Addr) (s : Store) → Dealt s (step a s)
unfolding set_node
step-Dealt a s b = elim (Bool-cases (b == a)) [
  | inl c ↦ inr (rw (c) (ap (λ x. dealt_in (s.node x)) (sym ((==_iff b a).0 c))))
  | inr c ↦ inl (rw (c))
]

dealt_in-dealt_in : (n : PlayerNode) → dealt_in (dealt_in n) ≡ dealt_in n
unfolding dealt_in
dealt_in-dealt_in n = refl

-- What the rest of the loop leaves, after the step at `a`.
keep-here : (a : Addr) (s s' : Store) → Dealt (step a s) s' → s'.node a ≡ dealt_in (s.node a)
keep-here a s s' d = elim (d a) [
  | inl e ↦ e ∙ step-here a s
  | inr e ↦ e ∙ ap dealt_in (step-here a s) ∙ dealt_in-dealt_in (s.node a)
]

keep-Dealt : (a : Addr) (s s' : Store) → Dealt (step a s) s' → Dealt s s'
keep-Dealt a s s' d b = elim (d b) [
  | inl e ↦ elim (step-Dealt a s b) [ inl f ↦ inl (e ∙ f) | inr f ↦ inr (e ∙ f) ]
  | inr e ↦ inr (e ∙ step-dealt_in a b s)
]

keep-All :
    (a : Addr) (s s' : Store) (xs : List Addr)
    → All (λ x. s'.node x ≡ dealt_in ((step a s).node x)) xs
    → All (λ x. s'.node x ≡ dealt_in (s.node x)) xs
keep-All a s s' [] h = tt
keep-All a s s' (x ∷ xs) h = (h.0 ∙ step-dealt_in a x s, keep-All a s s' xs h.1)

abbrev pub DealsIn : Store → List Addr → Option Store → Type 0
DealsIn s xs o =
    (s' : Store) × (o ≡ some s') × All (λ x. s'.node x ≡ dealt_in (s.node x)) xs × Dealt s s'

after :
    (a : Addr) (s : Store) (xs : List Addr) (o : Option Store)
    → DealsIn (step a s) xs o
    → DealsIn s (a ∷ xs) o
after a s xs o (s', e, all, d) =
    (s', e, (keep-here a s s' d, keep-All a s s' xs all), keep-Dealt a s s' d)

deal_in-next :
    (fuel : ℕ) (head a b : Addr) (first : Bool) (s : Store)
    → (s.node a).nextf ≡ some b
    → deal_in (suc fuel) head a first s
      ≡ (if (b == head) && not first then some (step a s) else deal_in fuel head b false (step a s))
unfolding deal_in
deal_in-next fuel head a b first s e =
    let Next : Option Addr → Type 0 = λ o.
      (elim o as (λ _. Option Store) [
        | none ↦ some (step a s)
        | some c ↦
            if (c == head) && not first
            then some (step a s)
            else deal_in fuel head c false (step a s)
      ])
      ≡ (if (b == head) && not first
          then some (step a s)
          else deal_in fuel head b false (step a s)) in
    subst Next (sym e) refl

deal_in-later :
    (xs : List Addr) (fuel : ℕ) (head a : Addr) (s : Store)
    → length xs < fuel
    → FullLinks s a xs head
    → All (λ x. x ≢ head) xs
    → DealsIn s (a ∷ xs) (deal_in fuel head a false s)
deal_in-later xs zero head a s h l n = absurd (omega arith)
deal_in-later [] (suc fuel) head a s h l n =
    after a s [] _
      (step a s, deal_in-next fuel head a head false s l ∙ rw (==_refl head), tt, λ b. inl refl)
deal_in-later (x ∷ xs) (suc fuel) head a s h l n =
    let (s', e, all, kept) =
      deal_in-later xs fuel head x (step a s) (omega arith) (step-FullLinks a s x xs head l.1)
        n.1 in
    after a s (x ∷ xs) _
      (s', deal_in-next fuel head a x false s l.0 ∙ rw (differ x head n.0) e, all, kept)

pub deal_in-all :
    (s : Store) (head x : Addr) (xs : List Addr) (fuel : ℕ)
    → FullLinks s head (x ∷ xs) head
    → All (λ y. y ≢ head) (x ∷ xs)
    → length (x ∷ xs) < fuel
    → DealsIn s (head ∷ x ∷ xs) (deal_in fuel head head true s)
deal_in-all s head x xs zero l n h = absurd (omega arith)
deal_in-all s head x xs (suc fuel) l n h =
    let (s', e, all, kept) =
      deal_in-later xs fuel head x (step head s) (omega arith) (step-FullLinks head s x xs head l.1)
        n.1 in
    after head s (x ∷ xs) _
      (s', deal_in-next fuel head head x true s l.0 ∙ rw (differ x head n.0) e, all, kept)
