-- ===== src/Solitaire/Keys.antt =====
-- Every key and every command keeps the game legal.
use packages_repo_main.Text.{codes, Bytes}
use packages_repo_main.Solitaire.Commands.{
  hide_help, strip_slash, token_is_any, tokens, read_tokens, MovePart, lower_char, handle_quick_key,
  handle_command, run_command, handle_wordy_move, run_wordy, move_between,
}
use packages_repo_main.Solitaire.Cards.{
  unknown_command, try_move, MovePlace, selection_cleared, unknown, waste_place, foundation_place,
  tableau_place,
}
use packages_repo_main.Solitaire.Session.{
  toggle_help-IsApp, restart-IsApp, undo_move-IsApp, hide_help-IsApp, act-IsApp,
  clear_selection-IsApp, set_status-IsApp, IsApp,
}
use packages_repo_main.Solitaire.Cards.{
  selected_tableau, pile_empty, column, no_legal_run, selected_waste, tableau_count, waste_empty,
  no_foundation_move, is_no_pile, Status, App,
}
use packages_repo_main.Solitaire.Refine.{
  drawing, column_column, column_foundation, waste_foundation, waste_column, act,
}
use packages_repo_main.Solitaire.Select.{
  clear_selection, move_selection_to_foundation, best_tableau_run_count, cleared,
  move_selection_to_tableau, auto_foundation, auto_from, execute_tableau_move, move_best,
  select_tableau, select_waste,
}
use packages_repo_main.Solitaire.Moves.{
  draw_stock, tableau_to_tableau, tableau_to_foundation, waste_to_foundation, waste_to_tableau,
  refuse,
}
use packages_repo_main.Prelude.{
  ◌&&◌, [], ◌∷◌, none, some, List, Option, zero, false, ◌-◌, ◌||◌, true, suc, ◌==◌, leb,
  if◌then◌else◌, Bool, ℕ,
}

-- A test with two results that are both good has a good result.
if-IsApp : (b : Bool) (x y : App) → IsApp x → IsApp y → IsApp (if b then x else y)
if-IsApp true x y h k = h
if-IsApp false x y h k = k

pair-IsApp : (b : Bool) (x y : Bool × App) → IsApp x.1 → IsApp y.1 → IsApp (if b then x else y).1
pair-IsApp true x y h k = h
pair-IsApp false x y h k = k

refuse-IsApp : (app : App) (text : Status) → IsApp app → IsApp (refuse app text).1
unfolding refuse
refuse-IsApp app text h = set_status-IsApp app text h

cleared-IsApp : (r : Bool × App) → IsApp r.1 → IsApp (cleared r).1
cleared-IsApp r h = clear_selection-IsApp r.1 h

select_waste-IsApp : (app : App) → IsApp app → IsApp (select_waste app)
unfolding select_waste
select_waste-IsApp app h =
    if-IsApp (is_no_pile app.game.waste) _ _
      (set_status-IsApp (clear_selection app) waste_empty (clear_selection-IsApp app h))
      (set_status-IsApp (record app { selected_place = waste_place; selected_pile = 0 })
        selected_waste (record { legal = h.legal; saved = h.saved; few = h.few }))

select_tableau-IsApp : (app : App) (pile : ℕ) → IsApp app → IsApp (select_tableau app pile)
unfolding select_tableau
select_tableau-IsApp app pile h =
    if-IsApp (leb tableau_count pile || is_no_pile (column app.game pile)) _ _
      (set_status-IsApp (clear_selection app) pile_empty (clear_selection-IsApp app h))
      (set_status-IsApp (record app { selected_place = tableau_place; selected_pile = pile })
        selected_tableau (record { legal = h.legal; saved = h.saved; few = h.few }))

waste_to_tableau-IsApp : (app : App) (dest : ℕ) → IsApp app → IsApp (waste_to_tableau app dest).1
unfolding act
waste_to_tableau-IsApp app dest h = act-IsApp (waste_column dest) app h

waste_to_foundation-IsApp : (app : App) → IsApp app → IsApp (waste_to_foundation app).1
unfolding act
waste_to_foundation-IsApp app h = act-IsApp waste_foundation app h

tableau_to_foundation-IsApp :
    (app : App) (src : ℕ) → IsApp app → IsApp (tableau_to_foundation app src).1
unfolding act
tableau_to_foundation-IsApp app src h = act-IsApp (column_foundation src) app h

tableau_to_tableau-IsApp :
    (app : App) (src dest count : ℕ) → IsApp app → IsApp (tableau_to_tableau app src dest count).1
unfolding act
tableau_to_tableau-IsApp app src dest count h = act-IsApp (column_column src dest count) app h

draw_stock-IsApp : (app : App) → IsApp app → IsApp (draw_stock app).1
unfolding act
draw_stock-IsApp app h = act-IsApp drawing app h

move_best-IsApp : (app : App) (src dest : ℕ) → IsApp app → IsApp (move_best app src dest).1
unfolding move_best
move_best-IsApp app src dest h =
    pair-IsApp (best_tableau_run_count app.game src dest == 0) _ _ (refuse-IsApp app no_legal_run h)
      (tableau_to_tableau-IsApp app src dest _ h)

execute_tableau_move-IsApp :
    (app : App) (src dest count : ℕ) (count_set : Bool)
    → IsApp app
    → IsApp (execute_tableau_move app src dest count count_set).1
unfolding execute_tableau_move
execute_tableau_move-IsApp app src dest count count_set h =
    pair-IsApp count_set _ _ (tableau_to_tableau-IsApp app src dest count h)
      (move_best-IsApp app src dest h)

pub auto_from-IsApp : (left : ℕ) (app : App) → IsApp app → IsApp (auto_from left app).1
unfolding auto_from
auto_from-IsApp zero app h = refuse-IsApp app no_foundation_move h
auto_from-IsApp (suc left) app h =
    let next = tableau_to_foundation-IsApp app (tableau_count - suc left) h in
    let r = tableau_to_foundation app (tableau_count - suc left) in
    pair-IsApp r.0 (true, r.1) (auto_from left r.1) next (auto_from-IsApp left r.1 next)

auto_foundation-IsApp : (app : App) → IsApp app → IsApp (auto_foundation app).1
unfolding auto_foundation
auto_foundation-IsApp app h =
    let next = waste_to_foundation-IsApp app h in
    let r = waste_to_foundation app in
    pair-IsApp r.0 (true, r.1) (auto_from tableau_count r.1) next
      (auto_from-IsApp tableau_count r.1 next)

move_selection_to_tableau-IsApp :
    (app : App) (dest : ℕ) → IsApp app → IsApp (move_selection_to_tableau app dest).1
unfolding move_selection_to_tableau
move_selection_to_tableau-IsApp app dest h =
    elim app.selected_place
      as (λ place.
        IsApp
          (elim place as (λ x. Bool × App) [
            | unknown ↦ (true, select_tableau app dest)
            | foundation_place ↦ (true, select_tableau app dest)
            | waste_place ↦ cleared (waste_to_tableau app dest)
            | tableau_place ↦
                if app.selected_pile == dest
                then cleared (refuse app selection_cleared)
                else cleared (move_best app app.selected_pile dest)
          ]).1) [
            | unknown ↦ select_tableau-IsApp app dest h
            | foundation_place ↦ select_tableau-IsApp app dest h
            | waste_place ↦
                cleared-IsApp (waste_to_tableau app dest) (waste_to_tableau-IsApp app dest h)
            | tableau_place ↦
                pair-IsApp (app.selected_pile == dest) _ _
                  (cleared-IsApp (refuse app selection_cleared)
                    (refuse-IsApp app selection_cleared h))
                  (cleared-IsApp (move_best app app.selected_pile dest)
                    (move_best-IsApp app app.selected_pile dest h))
          ]

move_selection_to_foundation-IsApp :
    (app : App) → IsApp app → IsApp (move_selection_to_foundation app).1
unfolding move_selection_to_foundation
move_selection_to_foundation-IsApp app h =
    elim app.selected_place
      as (λ place.
        IsApp
          (elim place as (λ x. Bool × App) [
            | unknown ↦ auto_foundation app
            | foundation_place ↦ auto_foundation app
            | waste_place ↦ cleared (waste_to_foundation app)
            | tableau_place ↦ cleared (tableau_to_foundation app app.selected_pile)
          ]).1) [
            | unknown ↦ auto_foundation-IsApp app h
            | foundation_place ↦ auto_foundation-IsApp app h
            | waste_place ↦
                cleared-IsApp (waste_to_foundation app) (waste_to_foundation-IsApp app h)
            | tableau_place ↦
                cleared-IsApp (tableau_to_foundation app app.selected_pile)
                  (tableau_to_foundation-IsApp app app.selected_pile h)
          ]

move_between-IsApp :
    (app : App) (p : MovePlace) (i : ℕ) (q : MovePlace) (j count : ℕ) (count_set : Bool)
    → IsApp app
    → IsApp (move_between app p i q j count count_set).1
unfolding move_between
move_between-IsApp app waste_place i foundation_place j c s h = waste_to_foundation-IsApp app h
move_between-IsApp app foundation_place i waste_place j c s h = waste_to_foundation-IsApp app h
move_between-IsApp app waste_place i tableau_place j c s h = waste_to_tableau-IsApp app j h
move_between-IsApp app tableau_place i foundation_place j c s h =
    tableau_to_foundation-IsApp app i h
move_between-IsApp app tableau_place i tableau_place j c s h =
    execute_tableau_move-IsApp app i j c s h
move_between-IsApp app unknown i q j c s h = refuse-IsApp app try_move h
move_between-IsApp app waste_place i unknown j c s h = refuse-IsApp app try_move h
move_between-IsApp app waste_place i waste_place j c s h = refuse-IsApp app try_move h
move_between-IsApp app foundation_place i unknown j c s h = refuse-IsApp app try_move h
move_between-IsApp app foundation_place i foundation_place j c s h = refuse-IsApp app try_move h
move_between-IsApp app foundation_place i tableau_place j c s h = refuse-IsApp app try_move h
move_between-IsApp app tableau_place i unknown j c s h = refuse-IsApp app try_move h
move_between-IsApp app tableau_place i waste_place j c s h = refuse-IsApp app try_move h

run_parts-IsApp :
    (app : App) (parts : List MovePart) (count : ℕ) (count_set : Bool)
    → IsApp app
    → IsApp (run_wordy app (record { parts = parts; count = count; count_set = count_set })).1
unfolding run_wordy
run_parts-IsApp app [] c s h = refuse-IsApp app try_move h
run_parts-IsApp app (p ∷ []) c s h = refuse-IsApp app try_move h
run_parts-IsApp app (p ∷ q ∷ ps) c s h = move_between-IsApp app p.place p.pile q.place q.pile c s h

handle_wordy_move-IsApp :
    (app : App) (args : List Bytes) → IsApp app → IsApp (handle_wordy_move app args).1
unfolding handle_wordy_move
handle_wordy_move-IsApp app args h =
    elim (read_tokens (record { parts = []; count = 0; count_set = false }) args)
      as (λ read.
        IsApp
          (elim read as (λ x. Bool × App) [
            | none ↦ (false, app)
            | some wordy ↦ run_wordy app wordy
          ]).1) [
            | none ↦ h
            | some wordy ↦ run_parts-IsApp app wordy.parts wordy.count wordy.count_set h
          ]

-- Every command that is typed keeps the game and the saved games legal.
pub run_command-IsApp :
    (seed : ℕ) (app : App) (command : Bytes) (args : List Bytes)
    → IsApp app
    → IsApp (run_command seed app command args)
unfolding run_command
run_command-IsApp seed app command args h =
    let hidden = hide_help-IsApp app h in
    if-IsApp (token_is_any command (codes "d" ∷ codes "draw" ∷ [])) _ _
      (draw_stock-IsApp (hide_help app) hidden)
      (if-IsApp (token_is_any command (codes "m" ∷ codes "move" ∷ [])) _ _
        (handle_wordy_move-IsApp (hide_help app) args hidden)
        (if-IsApp (token_is_any command (codes "f" ∷ codes "foundation" ∷ codes "auto" ∷ [])) _ _
          (auto_foundation-IsApp (hide_help app) hidden)
          (if-IsApp (token_is_any command (codes "u" ∷ codes "undo" ∷ [])) _ _
            (undo_move-IsApp (hide_help app) hidden)
            (if-IsApp (token_is_any command (codes "r" ∷ codes "restart" ∷ codes "new" ∷ [])) _ _
              (restart-IsApp seed (hide_help app) hidden)
              (if-IsApp (token_is_any command (codes "q" ∷ codes "quit" ∷ codes "exit" ∷ [])) _ _
                (record { legal = h.legal; saved = h.saved; few = h.few })
                (if-IsApp (token_is_any command (codes "?" ∷ codes "h" ∷ codes "help" ∷ [])) _ _
                  (toggle_help-IsApp app h) (set_status-IsApp app unknown_command h)))))))

pub handle_command-IsApp :
    (seed : ℕ) (app : App) (cmd : Bytes) → IsApp app → IsApp (handle_command seed app cmd)
unfolding handle_command
handle_command-IsApp seed app cmd h =
    let none_selected = clear_selection-IsApp app h in
    elim (tokens (strip_slash cmd))
      as (λ words. IsApp (elim words [
        | [] ↦ clear_selection app
        | command ∷ args ↦ run_command seed (clear_selection app) command args
      ])) [
        | [] ↦ none_selected
        | command ∷ args ↦ run_command-IsApp seed (clear_selection app) command args none_selected
      ]

-- What a key leads to, or the state as it was where the key is not bound.
abbrev pub after_key : App → Option App → App
after_key app none = app
after_key app (some app') = app'

opt-IsApp :
    (b : Bool) (app : App) (x y : Option App)
    → IsApp (after_key app x)
    → IsApp (after_key app y)
    → IsApp (after_key app (if b then x else y))
opt-IsApp true app x y h k = h
opt-IsApp false app x y h k = k

pub handle_quick_key-IsApp :
    (seed : ℕ) (app : App) (key : ℕ)
    → IsApp app
    → IsApp (after_key app (handle_quick_key seed app key))
unfolding handle_quick_key
handle_quick_key-IsApp seed app key h =
    let ch = lower_char key in
    let hidden = hide_help-IsApp app h in
    let none_selected = clear_selection-IsApp (hide_help app) hidden in
    opt-IsApp (leb b'1' ch && leb ch b'7') app _ _
      (move_selection_to_tableau-IsApp (hide_help app) (ch - b'1') hidden)
      (opt-IsApp (ch == b'w') app _ _ (select_waste-IsApp (hide_help app) hidden) (
        opt-IsApp (ch == b'd') app _ _ (draw_stock-IsApp _ none_selected) (
          opt-IsApp (ch == b'f' || ch == b'a') app _ _
            (move_selection_to_foundation-IsApp (hide_help app) hidden)
            (opt-IsApp (ch == b'u') app _ _ (undo_move-IsApp _ none_selected) (
              opt-IsApp (ch == b'r') app _ _ (restart-IsApp seed _ none_selected) (
                opt-IsApp (ch == b'?' || ch == b'h') app _ _
                  (toggle_help-IsApp _ (clear_selection-IsApp app h))
                  (opt-IsApp (ch == b'q') app _ _
                    (record { legal = h.legal; saved = h.saved; few = h.few }) h)))))))
