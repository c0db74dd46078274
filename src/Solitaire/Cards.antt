-- ===== src/Solitaire/Cards.antt =====
-- solitaire/src/main.cpp: cards, piles and the state of the game. A card is a number below 52. A pile
-- is the list of its `count` cards with their `face_up` flags, the top card first.
use packages_repo_main.Prelude.{
  length, zero, ◌&&◌, leb, ◌||◌, [], suc, true, false, if◌then◌else◌, not, ◌==◌, ◌+◌, get_or, ◌∷◌,
  ◌/◌, List, Bool, ◌%◌, ℕ,
}

abbrev pub tableau_count : ℕ
tableau_count = 7

abbrev pub foundation_count : ℕ
foundation_count = 4

abbrev pub max_pile : ℕ
max_pile = 52

abbrev pub max_undo : ℕ
max_undo = 32

abbrev pub u32 : ℕ → ℕ
u32 n = n % 4294967296

pub data MovePlace : Type 0 where
  unknown waste_place foundation_place tableau_place : MovePlace

pub record Slot : Type 0 where
  pub card : ℕ
  pub face_up : Bool

abbrev pub Pile : Type 0
Pile = List Slot

pub record Game : Type 0 where
  pub stock : Pile
  pub waste : Pile
  pub foundations : List Pile
  pub tableau : List Pile
  pub moves : ℕ
  pub seed : ℕ

-- The messages, in the order of the source.
pub data Status : Type 0 where
  ready drew nothing_to_draw recycled no_waste_card waste_refused waste_to_column waste_empty :
      Status
  waste_no_foundation waste_home pile_empty top_face_down no_foundation card_home : Status
  bad_move no_such_run run_face_down not_descending run_refused run_moved : Status
  selected_waste selected_tableau selection_cleared no_legal_run no_foundation_move : Status
  try_move nothing_to_undo undid new_deal help_open help_closed unknown_command : Status
  line_cleared : Status

-- `undo` has the last saved game first.
pub record App : Type 0 where
  pub game : Game
  pub undo : List Game
  pub status : Status
  pub selected_place : MovePlace
  pub selected_pile : ℕ
  pub show_help : Bool
  pub quit : Bool

unfoldable pub set_status : App → Status → App
set_status app text = record app { status = text }

abbrev pub rank : ℕ → ℕ
rank card = card % 13 + 1

abbrev pub suit : ℕ → ℕ
suit card = card / 13

abbrev pub is_red : ℕ → Bool
is_red card = suit card == 0 || suit card == 1

abbrev pub same : Bool → Bool → Bool
same true b = b
same false b = not b

unfoldable pub pile_push : Pile → ℕ → Bool → Pile
pile_push pile card up =
    if leb max_pile (length pile) then pile else record { card = card; face_up = up } ∷ pile

-- What `pile_pop` leaves of the pile, and the card that it returns.
unfoldable pub pile_pop : Pile → Pile
pile_pop [] = []
pile_pop (s ∷ p) = p

unfoldable pub top_card : Pile → ℕ
top_card [] = 0
top_card (s ∷ p) = s.card

unfoldable pub top_is_up : Pile → Bool
top_is_up [] = false
top_is_up (s ∷ p) = s.face_up

unfoldable pub reveal_tail : Pile → Pile
reveal_tail [] = []
reveal_tail (s ∷ p) = record s { face_up = true } ∷ p

unfoldable pub can_place_on_tableau : ℕ → Pile → Bool
can_place_on_tableau moving [] = rank moving == 13
can_place_on_tableau moving (s ∷ p) =
    s.face_up && not (same (is_red moving) (is_red s.card)) && rank moving + 1 == rank s.card

unfoldable pub can_place_on_foundation : ℕ → Pile → Bool
can_place_on_foundation moving [] = rank moving == 1
can_place_on_foundation moving (s ∷ p) =
    suit moving == suit s.card && rank moving == rank s.card + 1

unfoldable pub is_no_pile : Pile → Bool
is_no_pile [] = true
is_no_pile (s ∷ p) = false

-- The card `count - 1` below the top.
unfoldable pub card_at : Pile → ℕ → ℕ
card_at [] k = 0
card_at (s ∷ p) zero = s.card
card_at (s ∷ p) (suc k) = card_at p k

abbrev pub column : Game → ℕ → Pile
column g i = get_or g.tableau i []

abbrev pub foundation : Game → ℕ → Pile
foundation g i = get_or g.foundations i []
