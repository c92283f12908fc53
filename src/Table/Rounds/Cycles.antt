-- ===== src/Table/Rounds/Cycles.antt =====
-- The full ring of Server/src/lib.rs from each of its players: `start_game` goes around it from the
-- head, and from the blind.
use mathlib.Core.List.{append_assoc, append-nil}
use rust_poker.Base.{
  suc, ◌≡◌, ◌≢◌, refl, sym, ◌∙◌, subst, List, [], ◌∷◌, ◌++◌, some, true, Bool-cases, inl, inr, ◌==◌,
  ==_iff, length, contains, All, All-append, arith,
}
use rust_poker.Player.{Addr}
use rust_poker.Store.{Store}
use rust_poker.Store.Links.{Links, Ring}
use rust_poker.Table.Money.{Distinct}
use rust_poker.Table.Rounds.DealIn.{FullLinks}
use rust_poker.Table.Seats.Laws.{Linked}

-- The full ring from `a` on, around the others and back.
pub record Cycle (s : Store) (a : Addr) (others : List Addr) : Type 0 where
  pub linked : FullLinks s a others a
  pub distinct : Distinct (a ∷ others)

-- Lists with the same elements.
abbrev pub Same : List Addr → List Addr → Type 1
Same l m = (P : Addr → Type 0) → (All P l → All P m) × (All P m → All P l)

All-split : (P : Addr → Type 0) (xs ys : List Addr) → All P (xs ++ ys) → All P xs × All P ys
All-split P [] ys h = (tt, h)
All-split P (x ∷ xs) ys h = let (p, q) = All-split P xs ys h.1 in ((h.0, p), q)

pub Same-snoc : (a : Addr) (xs : List Addr) → Same (a ∷ xs) (xs ++ a ∷ [])
Same-snoc a xs P = (
  λ h. All-append P xs (a ∷ []) h.1 (h.0, tt),
  λ h. let (p, q) = All-split P xs (a ∷ []) h in (q.0, p),
)

Distinct-snoc :
    (a : Addr) (xs : List Addr) → All (λ y. y ≢ a) xs → Distinct xs → Distinct (xs ++ a ∷ [])
Distinct-snoc a [] h d = (tt, tt)
Distinct-snoc a (x ∷ xs) h d =
    (All-append (λ y. y ≢ x) xs (a ∷ []) d.0 (λ e. h.0 (sym e), tt), Distinct-snoc a xs h.1 d.1)

FullLinks-snoc :
    (s : Store) (a x : Addr) (xs : List Addr) (b : Addr)
    → FullLinks s x xs a
    → (s.node a).nextf ≡ some b
    → FullLinks s x (xs ++ a ∷ []) b
FullLinks-snoc s a x [] b l e = (l, e)
FullLinks-snoc s a x (y ∷ ys) b l e = (l.0, FullLinks-snoc s a y ys b l.1 e)

-- The cycle from the next player on.
pub turned :
    (s : Store) (a x : Addr) (xs : List Addr) → Cycle s a (x ∷ xs) → Cycle s x (xs ++ a ∷ [])
turned s a x xs c = record {
  linked = FullLinks-snoc s a x xs x c.linked.1 c.linked.0;
  distinct = Distinct-snoc a (x ∷ xs) c.distinct.0 c.distinct.1;
}

pub length-snoc : (a : Addr) (xs : List Addr) → length (xs ++ a ∷ []) ≡ suc (length xs)
length-snoc a [] = refl
length-snoc a (x ∷ xs) = omega (arith, length-snoc a xs)

abbrev pub From : Store → List Addr → Addr → Type 1
From s l h = (xs : List Addr) × Cycle s h xs × (suc (length xs) ≡ length l) × Same l (h ∷ xs)

From-next :
    (s : Store) (a x : Addr) (xs : List Addr) (h : Addr)
    → From s (x ∷ (xs ++ a ∷ [])) h
    → From s (a ∷ x ∷ xs) h
From-next s a x xs h (ys, c, n, same) = (
  ys,
  c,
  omega (arith, n, length-snoc a xs),
  λ P. (
    λ p. (same P).0 ((Same-snoc a (x ∷ xs) P).0 p),
    λ p. (Same-snoc a (x ∷ xs) P).1 ((same P).1 p),
  ),
)

From-front :
    (s : Store) (a : Addr) (front back : List Addr) (h : Addr)
    → contains (a ∷ front) h ≡ true
    → Cycle s a (front ++ back)
    → From s (a ∷ (front ++ back)) h
From-front s a [] back h k c =
    let e : a ≡ h = ground (arith, k) in
    subst (λ b. From s (a ∷ back) b) e (back, c, refl, λ P. (λ p. p, λ p. p))
From-front s a (x ∷ xs) back h k c = elim (Bool-cases (a == h)) [
  | inl e ↦
      subst (λ b. From s (a ∷ x ∷ (xs ++ back)) b) ((==_iff a h).0 e)
        (x ∷ (xs ++ back), c, refl, λ P. (λ p. p, λ p. p))
  | inr e ↦
      let assoc = append_assoc xs back (a ∷ []) in
      let next : Cycle s x (xs ++ (back ++ a ∷ [])) =
        subst (Cycle s x) assoc (turned s a x (xs ++ back) c) in
      let there = From-front s x xs (back ++ a ∷ []) h (ground (arith, k, e)) next in
      From-next s a x (xs ++ back) h (subst (λ l. From s (x ∷ l) h) (sym assoc) there)
]

-- The cycle from any of its players on.
pub Cycle-From :
    (s : Store) (a : Addr) (rest : List Addr) (h : Addr)
    → contains (a ∷ rest) h ≡ true
    → Cycle s a rest
    → From s (a ∷ rest) h
Cycle-From s a rest h k c =
    subst (λ l. Cycle s a l → From s (a ∷ l) h) (append-nil rest) (From-front s a rest [] h k) c

-- A cycle whose players are in the game as they sit is a ring of active players.
pub Cycle-Ring :
    (s : Store) (a : Addr) (others : List Addr)
    → others ≢ []
    → Cycle s a others
    → All (λ y. (s.node y).next ≡ (s.node y).nextf) (a ∷ others)
    → Ring s a others
Cycle-Ring s a others n c h = record {
  linked = links a others a c.linked h;
  others = c.distinct.0;
  two = n;
}
  where
    links :
        (a : Addr) (xs : List Addr) (b : Addr)
        → FullLinks s a xs b
        → All (λ y. (s.node y).next ≡ (s.node y).nextf) (a ∷ xs)
        → Links s a xs b
    links a [] b l h = h.0 ∙ l
    links a (x ∷ xs) b l h = (h.0 ∙ l.0, links x xs b l.1 h.1)

-- What `rebuild_full_ring` links is such a cycle.
pub Linked-FullLinks :
    (s : Store) (first before a : Addr) (rest : List Addr)
    → Linked s first before a rest
    → FullLinks s a rest first
Linked-FullLinks s first before a [] l = l.0
Linked-FullLinks s first before a (b ∷ bs) l = (l.0.0, Linked-FullLinks s first a b bs l.1)
