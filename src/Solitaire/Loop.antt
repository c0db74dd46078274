-- ===== src/Solitaire/Loop.antt =====
-- solitaire/src/main.cpp, `main`: the characters that are typed, one after the other. What is drawn
-- after each is not modelled.
use packages_repo_main.Solitaire.Select.{clear_selection}
use packages_repo_main.Solitaire.Keys.{handle_quick_key-IsApp, handle_command-IsApp}
use packages_repo_main.Solitaire.Commands.{handle_command, handle_quick_key}
use packages_repo_main.Solitaire.Deal.Laid.{deal-IsGame}
use packages_repo_main.Solitaire.Session.{clear_selection-IsApp, set_status-IsApp, IsApp}
use packages_repo_main.Solitaire.Deal.{deal}
use packages_repo_main.Text.{Bytes}
use packages_repo_main.Solitaire.Cards.{line_cleared, set_status, unknown, ready, App}
use packages_repo_main.Prelude.{
  true, Bool, Option-cases, ◌++◌, none, false, ◌+◌, inr, some, ltb, arith, inl, ◌||◌, ◌&&◌,
  Bool-cases, [], ◌==◌, length, leb, ◌∷◌, List, if◌then◌else◌, ℕ,
}

abbrev pub command_size : ℕ
command_size = 80

-- The state of the program with the command line that is being typed.
pub record Console : Type 0 where
  pub app : App
  pub command : Bytes

unfoldable pub drop_last : Bytes → Bytes
drop_last [] = []
drop_last (c ∷ []) = []
drop_last (c ∷ d ∷ cs) = c ∷ drop_last (d ∷ cs)

-- A character that is no key, or that goes on with a command.
unfoldable pub type_char : Console → ℕ → Console
type_char con ch =
    if leb 32 ch && leb ch 126 && ltb (length con.command + 1) command_size
    then record con { command = con.command ++ ch ∷ [] }
    else con

unfoldable pub key_or_char : ℕ → Console → ℕ → Console
unfolding type_char
key_or_char seed con ch =
    if length con.command == 0
    then elim (handle_quick_key seed con.app ch) [
      | some app ↦ record con { app = app }
      | none ↦ type_char con ch
    ]
    else type_char con ch

-- One round of the loop; `seed` is what the clock shows.
unfoldable pub read_char : ℕ → Console → ℕ → Console
unfolding drop_last key_or_char
read_char seed con ch =
    if ch == 10 || ch == 13
    then record { app = handle_command seed con.app con.command; command = [] }
    else if ch == 8 || ch == 127
    then record con { command = drop_last con.command }
    else if ch == 27
    then record { app = set_status (clear_selection con.app) line_cleared; command = [] }
    else key_or_char seed con ch

-- The loop, over the characters with the time of each; it ends at `quit`.
unfoldable pub run : Console → List (ℕ × ℕ) → Console
unfolding read_char
run con [] = con
run con ((seed, ch) ∷ cs) =
    let rest = run (read_char seed con ch) cs in if con.app.quit then con else rest

unfoldable pub start : ℕ → Console
start seed = record {
  app = record {
    game = deal seed;
    undo = [];
    status = ready;
    selected_place = unknown;
    selected_pile = 0;
    show_help = false;
    quit = false;
  };
  command = [];
}

key_or_char-IsApp :
    (seed : ℕ) (con : Console) (ch : ℕ) → IsApp con.app → IsApp (key_or_char seed con ch).app
unfolding key_or_char type_char
key_or_char-IsApp seed con ch h =
    let typed = type_char-IsApp con ch h in
    elim (Bool-cases (length con.command == 0)) [
      | inr e ↦ rw e typed
      | inl e ↦ elim (Option-cases (handle_quick_key seed con.app ch)) [
        | inl k ↦ rw (e, k) typed
        | inr (app, k) ↦ rw (e, k) (rw k at (handle_quick_key-IsApp seed con.app ch h))
      ]
    ]
  where
    type_char-IsApp : (con : Console) (ch : ℕ) → IsApp con.app → IsApp (type_char con ch).app
    type_char-IsApp con ch h =
        elim (Bool-cases (leb 32 ch && leb ch 126 && ltb (length con.command + 1) command_size)) [
          | inl e ↦ rw e h
          | inr e ↦ rw e h
        ]

read_char-IsApp :
    (seed : ℕ) (con : Console) (ch : ℕ) → IsApp con.app → IsApp (read_char seed con ch).app
unfolding read_char
read_char-IsApp seed con ch h = elim (Bool-cases (ch == 10 || ch == 13)) [
  | inl e ↦ rw e (handle_command-IsApp seed con.app con.command h)
  | inr e ↦ elim (Bool-cases (ch == 8 || ch == 127)) [
    | inl f ↦ rw (e, f) h
    | inr f ↦ elim (Bool-cases (ch == 27)) [
      | inl k ↦
          rw (e, f, k)
            (set_status-IsApp (clear_selection con.app) line_cleared
              (clear_selection-IsApp con.app h))
      | inr k ↦ rw (e, f, k) (key_or_char-IsApp seed con ch h)
    ]
  ]
]

either-IsApp :
    (b : Bool) (x y : Console) → IsApp x.app → IsApp y.app → IsApp (if b then x else y).app
either-IsApp true x y h k = h
either-IsApp false x y h k = k

run-IsApp : (con : Console) (cs : List (ℕ × ℕ)) → IsApp con.app → IsApp (run con cs).app
unfolding run
run-IsApp con [] h = h
run-IsApp con ((seed, ch) ∷ cs) h =
    either-IsApp con.app.quit con (run (read_char seed con ch) cs) h
      (run-IsApp (read_char seed con ch) cs (read_char-IsApp seed con ch h))

-- Whatever is typed at whatever time, from the first deal on the game is legal: every card is there
-- once, the foundations are built from the ace on and the columns are in order. So is every game
-- that can be undone to, and at most 32 of these are kept.
pub start-run-IsApp : (seed : ℕ) (cs : List (ℕ × ℕ)) → IsApp (run (start seed) cs).app
unfolding start
start-run-IsApp seed cs =
    run-IsApp (start seed) cs
      (record { legal = (deal-IsGame seed).0; saved = tt; few = omega arith })
