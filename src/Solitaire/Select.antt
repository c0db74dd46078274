-- ===== src/Solitaire/Select.antt =====
-- solitaire/src/main.cpp: the selection of a pile, the longest run that fits, the automatic move to a
-- foundation, and the undoing of a move.
use packages_repo_main.Solitaire.Deal.{deal}
use packages_repo_main.Solitaire.Moves.{
  save_undo, refuse, is_descending, waste_to_foundation, tableau_to_foundation, waste_to_tableau,
  tableau_to_tableau, all_up,
}
use packages_repo_main.Solitaire.Cards.{
  undid, selected_tableau, nothing_to_undo, pile_empty, column, tableau_place, selected_waste,
  selection_cleared, no_legal_run, tableau_count, waste_place, foundation_place, new_deal,
  no_foundation_move, waste_empty, Pile, card_at, is_no_pile, unknown, Game, can_place_on_tableau,
  set_status, App,
}
use packages_repo_main.Prelude.{
  [], zero, take, ◌&&◌, ◌-◌, ◌||◌, false, ◌∷◌, length, true, ◌==◌, suc, leb, if◌then◌else◌, List,
  Bool, ℕ,
}

unfoldable pub clear_selection : App → App
clear_selection app = record app { selected_place = unknown; selected_pile = 0 }

unfoldable pub select_waste : App → App
unfolding clear_selection set_status is_no_pile
select_waste app =
    if is_no_pile app.game.waste
    then set_status (clear_selection app) waste_empty
    else set_status (record app { selected_place = waste_place; selected_pile = 0 }) selected_waste

unfoldable pub select_tableau : App → ℕ → App
unfolding clear_selection set_status is_no_pile
select_tableau app pile =
    if leb tableau_count pile || is_no_pile (column app.game pile)
    then set_status (clear_selection app) pile_empty
    else set_status (record app { selected_place = tableau_place; selected_pile = pile })
        selected_tableau

-- `first` counts from the bottom of the pile.
unfoldable pub is_valid_tail_run : Pile → ℕ → Bool
unfolding all_up is_descending
is_valid_tail_run pile first =
    if leb (length pile) first
    then false
    else all_up (take (length pile - first) pile) && is_descending (take (length pile - first) pile)

-- The loop of `best_tableau_run_count`, from `count` down.
unfoldable pub best_from : Pile → Pile → ℕ → ℕ
unfolding is_valid_tail_run can_place_on_tableau card_at
best_from from to zero = 0
best_from from to (suc count) =
    if is_valid_tail_run from (length from - suc count)
      && can_place_on_tableau (card_at from count) to
    then suc count
    else best_from from to count

unfoldable pub best_tableau_run_count : Game → ℕ → ℕ → ℕ
unfolding best_from
best_tableau_run_count game src dest =
    if leb tableau_count src || leb tableau_count dest || src == dest
    then 0
    else best_from (column game src) (column game dest) (length (column game src))

-- The move of `execute_tableau_move`, and of the selection, where no count was given.
unfoldable pub move_best : App → ℕ → ℕ → Bool × App
unfolding best_tableau_run_count tableau_to_tableau refuse
move_best app src dest =
    if best_tableau_run_count app.game src dest == 0
    then refuse app no_legal_run
    else tableau_to_tableau app src dest (best_tableau_run_count app.game src dest)

unfoldable pub execute_tableau_move : App → ℕ → ℕ → ℕ → Bool → Bool × App
unfolding move_best
execute_tableau_move app src dest count count_set =
    if count_set then tableau_to_tableau app src dest count else move_best app src dest

abbrev pub cleared : Bool × App → Bool × App
cleared (moved, app) = (moved, clear_selection app)

-- The waste and the columns can be selected (`has_selection`); at other places nothing is.
unfoldable pub move_selection_to_tableau : App → ℕ → Bool × App
unfolding select_tableau waste_to_tableau move_best clear_selection refuse
move_selection_to_tableau app dest = elim app.selected_place [
  | unknown ↦ (true, select_tableau app dest)
  | foundation_place ↦ (true, select_tableau app dest)
  | waste_place ↦ cleared (waste_to_tableau app dest)
  | tableau_place ↦
      if app.selected_pile == dest
      then cleared (refuse app selection_cleared)
      else cleared (move_best app app.selected_pile dest)
]

-- The loop of `auto_foundation` over the last `left` columns.
unfoldable pub auto_from : ℕ → App → Bool × App
unfolding tableau_to_foundation refuse
auto_from zero app = refuse app no_foundation_move
auto_from (suc left) app =
    let (moved, app') = tableau_to_foundation app (tableau_count - suc left) in
    let rest = auto_from left app' in if moved then (true, app') else rest

unfoldable pub auto_foundation : App → Bool × App
unfolding waste_to_foundation auto_from
auto_foundation app =
    let (moved, app') = waste_to_foundation app in
    if moved then (true, app') else auto_from tableau_count app'

unfoldable pub move_selection_to_foundation : App → Bool × App
unfolding auto_foundation waste_to_foundation tableau_to_foundation clear_selection
move_selection_to_foundation app = elim app.selected_place [
  | unknown ↦ auto_foundation app
  | foundation_place ↦ auto_foundation app
  | waste_place ↦ cleared (waste_to_foundation app)
  | tableau_place ↦ cleared (tableau_to_foundation app app.selected_pile)
]

-- The key and the command `undo`.
unfoldable pub undo_move : App → App
unfolding set_status
undo_move app = elim app.undo [
  | [] ↦ set_status app nothing_to_undo
  | g ∷ gs ↦ set_status (record app { game = g; undo = gs }) undid
]

-- A new game; `seed` is what `initial_seed` reads from the clock.
unfoldable pub restart : ℕ → App → App
unfolding deal save_undo set_status
restart seed app = set_status (record (save_undo app) { game = deal seed }) new_deal

unfoldable pub all_home : List Pile → Bool
all_home [] = true
all_home (p ∷ ps) = length p == 13 && all_home ps

unfoldable pub won : Game → Bool
unfolding all_home
won g = all_home g.foundations
