-- ===== src/Client/Input.antt =====
-- The commands of Client/src/lib.rs and what is typed: `take_input` and `take_lobby_input`.
use rust_poker.Base.{
  ℕ, zero, suc, ◌-◌, ◌^◌, List, [], ◌∷◌, ◌++◌, Option, none, some, Bool, true, false, ◌&&◌, ◌||◌,
  if◌then◌else◌, ◌==◌, ltb, leb, map,
}
use rust_poker.Base.Text
use rust_poker.Base.Text.{Text, codes, same_text, trim, split_whitespace, print}
use rust_poker.Base.Text.Pieces.{join}
use rust_poker.Client.{Client, Json, send_command}

abbrev pub u64_max : ℕ
u64_max = 2 ^ 64 - 1

-- The lines of the commands.
unfoldable pub raise_line : ℕ → Text
raise_line amount = codes "RAISE " ++ print amount

unfoldable pub replace_line : List ℕ → Text
replace_line discard = codes "REPLACE_CARDS " ++ join b' ' (map print discard)

unfoldable pub join_line : ℕ → Text → ℕ → Text
join_line id name wallet = codes "JOIN " ++ (print id ++ b' ' ∷ (name ++ b' ' ∷ print wallet))

-- `to_uppercase` as far as the commands need it: a character that has another upper case than these
-- stands in no command.
abbrev pub upper : ℕ → ℕ
upper c =
    if leb b'a' c && leb c b'z'
    then c - 32
    else if c == 0x131
    then b'I'
    else if c == 0x17f
    then b'S'
    else c

-- `get` of a vector.
abbrev pub get : List ℕ → ℕ → Option ℕ
get [] i = none
get (c ∷ cs) zero = some c
get (c ∷ cs) (suc i) = get cs i

-- The cards at the indices that are typed; what is no index of a card is passed over.
unfoldable pub discarded : List ℕ → List Text → List ℕ
discarded hand [] = []
discarded hand (word ∷ words) = elim (Text.parse u64_max word) [
  | none ↦ discarded hand words
  | some i ↦ elim (get hand i) [
    | none ↦ discarded hand words
    | some card ↦ card ∷ discarded hand words
  ]
]

-- The amount of a raise: 50 if there is none or no number.
unfoldable pub raise_amount : List Text → ℕ
raise_amount [] = 50
raise_amount (word ∷ words) = elim (Text.parse u64_max word) [ none ↦ 50 | some amount ↦ amount ]

-- The arms of `take_input`.
pub data Choice : Type 0 where
  replaces raises checks goes_all_in folds asks prints leaves unknown : Choice

unfoldable pub choice : Text → Choice
choice word =
    let is = λ (s : Text). same_text word s in
    if is (codes "REPLACE") || is (codes "RE")
    then replaces
    else if is (codes "RAISE") || is (codes "R")
    then raises
    else if is (codes "CHECK") || is (codes "C")
    then checks
    else if is (codes "ALLIN") || is (codes "ALL_IN") || is (codes "A")
    then goes_all_in
    else if is (codes "FOLD") || is (codes "F")
    then folds
    else if is (codes "UPDATE") || is (codes "U")
    then asks
    else if is (codes "PRINT") || is (codes "P")
    then prints
    else if is (codes "LEAVE") || is (codes "L")
    then leaves
    else unknown

module _ (J : Json) where
  -- What is answered is only shown.
  abbrev pub sends : Text → Option Text → Client → Client
  sends command answer c = (send_command J command answer c).0

  unfoldable pub raise : ℕ → Option Text → Client → Client
  unfolding send_command
  raise amount answer c = if ltb c.my.wallet amount then c else sends (raise_line amount) answer c

  -- One round of `take_input`: the command line, the line of indices that a replacement asks for,
  -- and the server's answer. False: the loop ends.
  unfoldable pub take_input : Text → Text → Option Text → Client → Client × Bool
  unfolding raise_line replace_line discarded raise_amount choice raise send_command
  take_input line indices answer c = elim (split_whitespace (trim line)) [
    | [] ↦ (c, true)
    | word ∷ words ↦ elim (choice (map upper word)) [
      | replaces ↦
          let discard = discarded c.my.hand.cards (split_whitespace (trim indices)) in
          (sends (replace_line discard) answer c, true)
      | raises ↦ (raise (raise_amount words) answer c, true)
      | checks ↦ (sends (codes "CHECK") answer c, true)
      | goes_all_in ↦ (sends (codes "ALL_IN") answer c, true)
      | folds ↦ (sends (codes "FOLD") answer c, true)
      | asks ↦ (sends (codes "UPDATE") answer c, true)
      | prints ↦ (c, true)
      | leaves ↦ (sends (codes "LEAVE") answer c, false)
      | unknown ↦ (c, true)
    ]
  ]

  unfoldable pub join_game : Option Text → Client → Client
  unfolding join_line send_command
  join_game answer c = sends (join_line c.my.id (codes c.my.name) c.my.wallet) answer c
