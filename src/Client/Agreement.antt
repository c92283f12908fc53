-- ===== src/Client/Agreement.antt =====
-- What the client of Client/src/lib.rs sends is what the server, Server/src/clienthandler.rs, reads.
use mathlib.Core.List.{append_assoc}
use rust_poker.Base.{
  ℕ, ◌^◌, ◌≤◌, ◌<◌, ◌≡◌, ◌≢◌, refl, ap, ◌∙◌, List, [], ◌∷◌, ◌++◌, none, some, true, false, All,
  All-imp, is_empty, map, arith, ◌==◌,
}
use rust_poker.Base.Text.{Text, codes, is_whitespace, trim, split_whitespace, print}
use rust_poker.Base.Text.Numbers.{IsDigit, print-digits, parse-print}
use rust_poker.Base.Text.Words.{IsWord, split_whitespace-line}
use rust_poker.Game.FiveCardDraw
use rust_poker.Game.FiveCardDraw.{parse_all, replace_cards}
use rust_poker.Player.{PlayerNode}
use rust_poker.Client.Input.{raise_line, replace_line, join_line}
use rust_poker.Server.Commands.{raises, raise_amount, bet_of, u64_max}
use rust_poker.Server.Clients.Rounds.{join_request}

-- The words that the server takes from what is sent as a line.
abbrev pub words_sent : Text → List Text
words_sent line = split_whitespace (trim (line ++ b'\n' ∷ []))

digit_solid : (c : ℕ) → IsDigit c → is_whitespace c ≡ false
digit_solid c h = ground (arith, h)

not_empty : (s : Text) → s ≢ [] → is_empty s ≡ false
not_empty [] n = absurd (n refl)
not_empty (c ∷ s) n = refl

print-IsWord : (n : ℕ) → IsWord (print n)
print-IsWord n =
    let d = print-digits n in (not_empty (print n) d.0, All-imp digit_solid (print n) d.1)

-- A raise that the client sends is read as a raise by the same amount, if it fits into 64 bits.
pub bet_of-raise_line :
    (amount : ℕ) → amount < 2 ^ 64 → bet_of (words_sent (raise_line amount)) ≡ raises amount
unfolding raise_line bet_of
bet_of-raise_line amount h =
    ap bet_of (
      split_whitespace-line (codes "RAISE") (print amount ∷ []) (b'\n' ∷ [])
        ((refl, ground arith), (print-IsWord amount, tt)) (refl, tt))
    ∙ ap raise_amount (parse-print u64_max amount (omega arith) h)

numbers-IsWord : (ns : List ℕ) → All IsWord (map print ns)
numbers-IsWord [] = tt
numbers-IsWord (n ∷ ns) = (print-IsWord n, numbers-IsWord ns)

parse_all-print : (ns : List ℕ) → All (λ n. n ≤ 255) ns → parse_all (map print ns) ≡ some ns
unfolding parse_all
parse_all-print [] h = refl
parse_all-print (n ∷ ns) h =
    rw (parse_all, parse-print 255 n h.0 (omega (arith, h.0)), parse_all-print ns h.1) refl

replace_line-words :
    (ns : List ℕ) → words_sent (replace_line ns) ≡ codes "REPLACE_CARDS" ∷ map print ns
unfolding replace_line
replace_line-words [] =
    split_whitespace-line (codes "REPLACE_CARDS") [] (b' ' ∷ b'\n' ∷ []) ((refl, ground arith), tt)
      (refl, (refl, tt))
replace_line-words (n ∷ ns) =
    split_whitespace-line (codes "REPLACE_CARDS") (map print (n ∷ ns)) (b'\n' ∷ [])
      ((refl, ground arith), numbers-IsWord (n ∷ ns)) (refl, tt)

-- The cards that a client of five-card draw sends for replacement are the ones that the game
-- replaces in its drawing round, if they are bytes; none at all included.
pub client_action-replace_line :
    (node : PlayerNode) (discard : List ℕ) (g : FiveCardDraw.State)
    → g.round ≡ 1
    → All (λ c. c ≤ 255) discard
    → FiveCardDraw.client_action node (words_sent (replace_line discard)) g
      ≡ replace_cards node discard g
unfolding FiveCardDraw.client_action
client_action-replace_line node discard g r h =
    let second : (g.round == 1) ≡ true = ground (arith, r) in
    rw (replace_line-words discard, second, parse_all-print discard h) refl

-- The request to join is read with the client's id and name, if the name is one word; a name of two
-- words is no request to join.
pub join_request-join_line :
    (id wallet : ℕ) (name more : Text)
    → IsWord name
    → IsWord more
    → (join_request (words_sent (join_line id name wallet)) ≡ some (print id, name))
      × (join_request (words_sent (join_line id (name ++ b' ' ∷ more) wallet)) ≡ none)
unfolding join_line join_request
join_request-join_line id wallet name more n m = (
  ap join_request (
      split_whitespace-line (codes "JOIN") (print id ∷ name ∷ print wallet ∷ []) (b'\n' ∷ [])
        ((refl, ground arith), (print-IsWord id, (n, (print-IsWord wallet, tt)))) (refl, tt)),
  ap (λ s. join_request (words_sent (codes "JOIN " ++ (print id ++ b' ' ∷ s))))
        (append_assoc name (b' ' ∷ more) (b' ' ∷ print wallet))
      ∙ ap join_request (
          split_whitespace-line (codes "JOIN") (print id ∷ name ∷ more ∷ print wallet ∷ [])
            (b'\n' ∷ [])
            ((refl, ground arith), (print-IsWord id, (n, (m, (print-IsWord wallet, tt)))))
            (refl, tt)),
)
