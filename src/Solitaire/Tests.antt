-- ===== src/Solitaire/Tests.antt =====
-- Runs of the game, and the theorems at them.
use packages_repo_main.Solitaire.Deal.Laid.{deal-IsGame}
use packages_repo_main.Solitaire.Best.{best_tableau_run_count-longest}
use packages_repo_main.Solitaire.Won.{act-undo, won-eq-nil}
use packages_repo_main.Text.{codes}
use packages_repo_main.Solitaire.Loop.{start-run-IsApp, start, run}
use packages_repo_main.Solitaire.Moves.{
  is_descending, all_up, tableau_to_tableau, commit, waste_to_foundation,
}
use packages_repo_main.Solitaire.Legal.{Move-IsGame}
use packages_repo_main.Solitaire.Deal.{deal, no_piles}
use packages_repo_main.Solitaire.Commands.{
  move_between, run_wordy, lower_char, token_to_pile, token_equals, handle_wordy_move, tokens,
}
use packages_repo_main.Solitaire.Session.{IsApp}
use packages_repo_main.Solitaire.Select.{
  undo_move, is_valid_tail_run, best_from, all_home, best_tableau_run_count, won,
}
use packages_repo_main.Solitaire.Refine.{
  Move-act, Makes, act-Step, Action, waste_foundation, Step, act,
}
use packages_repo_main.Solitaire.Rules.{up, waste_to_home, IsBuilt, Move, IsGame, IsColumn}
use packages_repo_main.Solitaire.Cards.{
  card_at, can_place_on_tableau, waste_home, unknown, column, foundation, ready, tableau_count, App,
  Game, Pile,
}
use packages_repo_main.Prelude.{
  ◌⊎◌, ap, zero, ◌+◌, false, arith, ◌*◌, refl, ◌<◌, true, ◌∷◌, suc, map, ◌≢◌, length, get_or, [],
  ◌≡◌, ◌≤◌, List, ℕ,
}

-- The cards of suit `i` up to the `n`-th on their foundation.
abbrev home_pile : ℕ → ℕ → Pile
home_pile i zero = []
home_pile i (suc n) = up (13 * i + n) ∷ home_pile i n

abbrev no_columns : List Pile
no_columns = no_piles tableau_count

-- All is won but for the king of hearts, which is on the waste.
abbrev last_card : Game
last_card = record {
  stock = [];
  waste = up 12 ∷ [];
  foundations = home_pile 0 12 ∷ home_pile 1 13 ∷ home_pile 2 13 ∷ home_pile 3 13 ∷ [];
  tableau = no_columns;
  moves = 99;
  seed = 1;
}

abbrev won_game : Game
won_game = record {
  stock = [];
  waste = [];
  foundations = home_pile 0 13 ∷ home_pile 1 13 ∷ home_pile 2 13 ∷ home_pile 3 13 ∷ [];
  tableau = no_columns;
  moves = 100;
  seed = 1;
}

abbrev app_of : Game → App
app_of g = record {
  game = g;
  undo = [];
  status = ready;
  selected_place = unknown;
  selected_pile = 0;
  show_help = false;
  quit = false;
}

no_columns-IsColumn : (i : ℕ) → IsColumn (get_or no_columns i [])
no_columns-IsColumn zero = record { top = tt; ordered = tt }
no_columns-IsColumn (suc zero) = record { top = tt; ordered = tt }
no_columns-IsColumn (suc (suc zero)) = record { top = tt; ordered = tt }
no_columns-IsColumn (suc (suc (suc zero))) = record { top = tt; ordered = tt }
no_columns-IsColumn (suc (suc (suc (suc zero)))) = record { top = tt; ordered = tt }
no_columns-IsColumn (suc (suc (suc (suc (suc zero))))) = record { top = tt; ordered = tt }
no_columns-IsColumn (suc (suc (suc (suc (suc (suc zero)))))) = record { top = tt; ordered = tt }
no_columns-IsColumn (suc (suc (suc (suc (suc (suc (suc i))))))) = record { top = tt; ordered = tt }

home_pile-IsBuilt : (i n : ℕ) → n ≤ 13 → (length (home_pile i n) ≡ n) × IsBuilt i (home_pile i n)
home_pile-IsBuilt i zero h = (refl, tt)
home_pile-IsBuilt i (suc n) h =
    let (size, rest) = home_pile-IsBuilt i n (omega (arith, h)) in
    (ap suc size, (omega (arith, size), omega (arith, size, h), rest))

last_card-IsGame : IsGame last_card
last_card-IsGame = record {
  complete = λ w. omega arith;
  four = refl;
  seven = refl;
  built = built;
  columns = no_columns-IsColumn;
  stock_down = tt;
  waste_up = (refl, tt);
}
  where
    built : (i : ℕ) → IsBuilt i (foundation last_card i)
    built zero = (home_pile-IsBuilt 0 12 (omega arith)).1
    built (suc zero) = (home_pile-IsBuilt 1 13 (omega arith)).1
    built (suc (suc zero)) = (home_pile-IsBuilt 2 13 (omega arith)).1
    built (suc (suc (suc zero))) = (home_pile-IsBuilt 3 13 (omega arith)).1
    built (suc (suc (suc (suc i)))) = tt

last-Move : Move last_card won_game
last-Move = waste_to_home (up 12) [] refl (refl, refl) refl

won_game-IsGame : IsGame won_game
won_game-IsGame = Move-IsGame last_card won_game last_card-IsGame last-Move

last_move_made :
    act waste_foundation (app_of last_card)
    ≡ commit (app_of last_card) (record won_game { moves = 99 }) waste_home
unfolding act waste_to_foundation
last_move_made = refl

won_game_is_won : won won_game ≡ true
unfolding won all_home
won_game_is_won = refl

won-eq-nil_example :
    (won_game.stock ≡ []) × (won_game.waste ≡ []) × ((i : ℕ) → column won_game i ≡ [])
won-eq-nil_example = won-eq-nil won_game won_game-IsGame won_game_is_won

act-Step_example : Step (app_of last_card) (act waste_foundation (app_of last_card))
act-Step_example = act-Step waste_foundation (app_of last_card) last_card-IsGame

Move-act_example : (a : Action) × Makes (act a (app_of last_card)) won_game
Move-act_example = Move-act (app_of last_card) won_game last_card-IsGame last-Move

act-undo_example :
    (((act waste_foundation (app_of last_card)).0 ≡ true)
      × ((undo_move (act waste_foundation (app_of last_card)).1).game ≡ last_card))
    ⊎ (((act waste_foundation (app_of last_card)).0 ≡ false)
        × ((act waste_foundation (app_of last_card)).1.game ≡ last_card)
        × ((act waste_foundation (app_of last_card)).1.undo ≡ []))
act-undo_example = act-undo waste_foundation (app_of last_card) last_card-IsGame

-- A queen of clubs on the king of hearts, with a face-down card under them, and empty columns.
abbrev two_columns : Game
two_columns = record last_card {
  tableau = (up 37 ∷ up 12 ∷ record { card = 3; face_up = false } ∷ []) ∷ [] ∷ [];
}

best_is_two : best_tableau_run_count two_columns 0 1 ≡ 2
unfolding best_tableau_run_count best_from is_valid_tail_run all_up is_descending
    can_place_on_tableau card_at
best_is_two = refl

best_tableau_run_count-longest_example :
    (best_tableau_run_count two_columns 0 1 ≢ 0
      → (tableau_to_tableau (app_of two_columns) 0 1 (best_tableau_run_count two_columns 0 1)).0
        ≡ true)
    × ((count : ℕ)
        → best_tableau_run_count two_columns 0 1 < count
        → (tableau_to_tableau (app_of two_columns) 0 1 count).0 ≡ false)
best_tableau_run_count-longest_example =
    best_tableau_run_count-longest (app_of two_columns) 0 1 (omega arith) (omega arith)
      (λ e. omega (arith, e))

deal-IsGame_example :
    IsGame (deal 7)
    × ((i : ℕ) → i < tableau_count → length (column (deal 7) i) ≡ i + 1)
    × (length (deal 7).stock ≡ 24)
deal-IsGame_example = deal-IsGame 7

-- `d`, `d`, then the commands `/move w 3` and `undo`.
abbrev typed : List (ℕ × ℕ)
typed = map (λ (c : ℕ). (5, c)) (codes "dd/move w 3\n/undo\n")

start-run-IsApp_example : IsApp (run (start 7) typed).app
start-run-IsApp_example = start-run-IsApp 7 typed

words :
    (tokens (codes "move run 4  to 2")
      ≡ codes "move" ∷ codes "run" ∷ codes "4" ∷ codes "to" ∷ codes "2" ∷ [])
    × (handle_wordy_move (app_of last_card) (codes "Waste" ∷ codes "to" ∷ codes "f" ∷ [])
        ≡ waste_to_foundation (app_of last_card))
unfolding tokens handle_wordy_move token_equals token_to_pile lower_char run_wordy move_between
words = (refl, refl)
