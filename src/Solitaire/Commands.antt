-- ===== src/Solitaire/Commands.antt =====
-- solitaire/src/main.cpp: the commands that are typed, and the keys.
use packages_repo_main.Prelude.Fallible.{◌>>=◌}
use packages_repo_main.Neupak.Lines.{extend_first}
use packages_repo_main.Solitaire.Select.{
  restart, execute_tableau_move, move_selection_to_foundation, undo_move, select_waste,
  auto_foundation, move_selection_to_tableau, clear_selection,
}
use packages_repo_main.Solitaire.Moves.{
  tableau_to_foundation, waste_to_tableau, draw_stock, refuse, waste_to_foundation,
}
use packages_repo_main.Solitaire.Cards.{
  foundation_place, unknown_command, waste_place, help_closed, tableau_place, help_open, try_move,
  set_status, App, MovePlace,
}
use packages_repo_main.Text.{codes, Bytes}
use packages_repo_main.Prelude.{
  ◌%◌, ◌+◌, ◌++◌, length, ◌*◌, ◌-◌, ltb, some, none, ◌&&◌, ◌||◌, not, [], Option, false, true, ◌∷◌,
  leb, ◌==◌, List, if◌then◌else◌, Bool, ℕ,
}

abbrev is_blank : ℕ → Bool
is_blank c = c == 32 || c == 9

unfoldable pub lower_char : ℕ → ℕ
lower_char ch = if leb b'A' ch && leb ch b'Z' then ch - b'A' + b'a' else ch

-- The text without the spaces before it.
unfoldable pub skip_blanks : Bytes → Bytes
skip_blanks [] = []
skip_blanks (c ∷ cs) = if is_blank c then skip_blanks cs else c ∷ cs

-- The tokens that `next_token` finds one after the other: what stands between spaces.
abbrev starts_blank : Bytes → Bool
starts_blank [] = true
starts_blank (c ∷ cs) = is_blank c

unfoldable pub tokens : Bytes → List Bytes
tokens [] = []
tokens (c ∷ cs) =
    let rest = tokens cs in
    if is_blank c then rest else if starts_blank cs then (c ∷ []) ∷ rest else extend_first c rest

unfoldable pub token_equals : Bytes → Bytes → Bool
unfolding lower_char
token_equals [] [] = true
token_equals [] (w ∷ ws) = false
token_equals (t ∷ ts) [] = false
token_equals (t ∷ ts) (w ∷ ws) = lower_char t == w && token_equals ts ws

unfoldable pub token_is_any : Bytes → List Bytes → Bool
unfolding token_equals
token_is_any token [] = false
token_is_any token (w ∷ ws) = token_equals token w || token_is_any token ws

unfoldable pub token_to_pile : Bytes → Option ℕ
token_to_pile [] = none
token_to_pile (c ∷ []) = if leb b'1' c && leb c b'7' then some (c - b'1') else none
token_to_pile (c ∷ d ∷ cs) = none

abbrev size_mod : ℕ
size_mod = 18446744073709551616

-- The loop over the digits; `size_t` wraps.
unfoldable pub count_from : ℕ → Bytes → Option ℕ
count_from value [] = some value
count_from value (c ∷ cs) =
    if leb b'0' c && leb c b'9' then count_from ((value * 10 + (c - b'0')) % size_mod) cs else none

unfoldable pub token_to_count : Bytes → Option ℕ
unfolding count_from
token_to_count [] = none
token_to_count (c ∷ cs) = if leb b'1' c && leb c b'9' then count_from 0 (c ∷ cs) else none

unfoldable pub is_skip_word : Bytes → Bool
unfolding token_is_any
is_skip_word token =
    token_is_any token (codes "to" ∷ codes "onto" ∷ codes "on" ∷ [])
    || token_is_any token (codes "from" ∷ codes "pile" ∷ codes "tableau" ∷ [])

pub record MovePart : Type 0 where
  pub place : MovePlace
  pub pile : ℕ

unfoldable pub parse_move_part : Bytes → Option MovePart
unfolding token_to_pile token_is_any
parse_move_part token = elim (token_to_pile token) [
  | some pile ↦ some (record { place = tableau_place; pile = pile })
  | none ↦
      if token_is_any token (codes "w" ∷ codes "waste" ∷ [])
      then some (record { place = waste_place; pile = 0 })
      else if token_is_any token (codes "f" ∷ codes "foundation" ∷ codes "foundations" ∷ [])
      then some (record { place = foundation_place; pile = 0 })
      else none
]

-- What the loop of `handle_wordy_move` has read: the parts, and the count if one was set.
pub record Wordy : Type 0 where
  pub parts : List MovePart
  pub count : ℕ
  pub count_set : Bool

unfoldable pub read_part : Wordy → Bytes → Option MovePart
unfolding parse_move_part
read_part wordy token = if ltb (length wordy.parts) 2 then parse_move_part token else none

unfoldable pub read_token : Wordy → Bytes → Option Wordy
unfolding is_skip_word token_is_any read_part token_to_count
read_token wordy token =
    if is_skip_word token || token_is_any token (codes "run" ∷ codes "cards" ∷ codes "card" ∷ [])
    then some wordy
    else elim (read_part wordy token) [
      | some part ↦ some (record wordy { parts = wordy.parts ++ part ∷ [] })
      | none ↦ elim (token_to_count token) [
        | some count ↦ some (record wordy { count = count; count_set = true })
        | none ↦ none
      ]
    ]

unfoldable pub read_tokens : Wordy → List Bytes → Option Wordy
unfolding read_token
read_tokens wordy [] = some wordy
read_tokens wordy (t ∷ ts) = do wordy' ← read_token wordy t; read_tokens wordy' ts

-- The move between two parts, or the hint.
unfoldable pub move_between : App → MovePlace → ℕ → MovePlace → ℕ → ℕ → Bool → Bool × App
unfolding waste_to_foundation waste_to_tableau tableau_to_foundation execute_tableau_move refuse
move_between app waste_place i foundation_place j count count_set = waste_to_foundation app
move_between app foundation_place i waste_place j count count_set = waste_to_foundation app
move_between app waste_place i tableau_place j count count_set = waste_to_tableau app j
move_between app tableau_place i foundation_place j count count_set = tableau_to_foundation app i
move_between app tableau_place i tableau_place j count count_set =
    (true, (execute_tableau_move app i j count count_set).1)
move_between app first i second j count count_set = refuse app try_move

unfoldable pub run_wordy : App → Wordy → Bool × App
unfolding move_between refuse
run_wordy app wordy = elim wordy.parts [
  | [] ↦ refuse app try_move
  | p ∷ ps ↦ elim ps [
    | [] ↦ refuse app try_move
    | q ∷ qs ↦ move_between app p.place p.pile q.place q.pile wordy.count wordy.count_set
  ]
]

-- An unknown word ends the command without a message.
unfoldable pub handle_wordy_move : App → List Bytes → Bool × App
unfolding read_tokens run_wordy
handle_wordy_move app args =
    elim (read_tokens (record { parts = []; count = 0; count_set = false }) args) [
      | none ↦ (false, app)
      | some wordy ↦ run_wordy app wordy
    ]

abbrev pub hide_help : App → App
hide_help app = record app { show_help = false }

unfoldable pub toggle_help : App → App
unfolding set_status
toggle_help app =
    set_status (record app { show_help = not app.show_help })
      (if not app.show_help then help_open else help_closed)

-- A command with its arguments.
unfoldable pub run_command : ℕ → App → Bytes → List Bytes → App
unfolding token_is_any draw_stock handle_wordy_move auto_foundation undo_move restart toggle_help
    set_status
run_command seed app command args =
    if token_is_any command (codes "d" ∷ codes "draw" ∷ [])
    then (draw_stock (hide_help app)).1
    else if token_is_any command (codes "m" ∷ codes "move" ∷ [])
    then (handle_wordy_move (hide_help app) args).1
    else if token_is_any command (codes "f" ∷ codes "foundation" ∷ codes "auto" ∷ [])
    then (auto_foundation (hide_help app)).1
    else if token_is_any command (codes "u" ∷ codes "undo" ∷ [])
    then undo_move (hide_help app)
    else if token_is_any command (codes "r" ∷ codes "restart" ∷ codes "new" ∷ [])
    then restart seed (hide_help app)
    else if token_is_any command (codes "q" ∷ codes "quit" ∷ codes "exit" ∷ [])
    then record app { quit = true }
    else if token_is_any command (codes "?" ∷ codes "h" ∷ codes "help" ∷ [])
    then toggle_help app
    else set_status app unknown_command

-- A slash or a colon before the command is left out.
unfoldable pub strip_slash : Bytes → Bytes
unfolding skip_blanks
strip_slash cmd = elim (skip_blanks cmd) [
  | [] ↦ []
  | c ∷ cs ↦ if c == b'/' || c == b':' then skip_blanks cs else c ∷ cs
]

unfoldable pub handle_command : ℕ → App → Bytes → App
unfolding clear_selection strip_slash tokens run_command
handle_command seed app cmd = elim (tokens (strip_slash cmd)) [
  | [] ↦ clear_selection app
  | command ∷ args ↦ run_command seed (clear_selection app) command args
]

-- The state after a key that is bound; `none` for the others.
unfoldable pub handle_quick_key : ℕ → App → ℕ → Option App
unfolding lower_char move_selection_to_tableau select_waste draw_stock move_selection_to_foundation
    undo_move restart toggle_help clear_selection
handle_quick_key seed app key =
    let ch = lower_char key in
    if leb b'1' ch && leb ch b'7'
    then some (move_selection_to_tableau (hide_help app) (ch - b'1')).1
    else if ch == b'w'
    then some (select_waste (hide_help app))
    else if ch == b'd'
    then some (draw_stock (clear_selection (hide_help app))).1
    else if ch == b'f' || ch == b'a'
    then some (move_selection_to_foundation (hide_help app)).1
    else if ch == b'u'
    then some (undo_move (clear_selection (hide_help app)))
    else if ch == b'r'
    then some (restart seed (clear_selection (hide_help app)))
    else if ch == b'?' || ch == b'h'
    then some (toggle_help (clear_selection app))
    else if ch == b'q'
    then some (record app { quit = true })
    else none
