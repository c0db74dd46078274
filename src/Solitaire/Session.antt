-- ===== src/Solitaire/Session.antt =====
-- What holds of the state of the program between two keys.
use packages_repo_main.Solitaire.Legal.{Move-IsGame}
use packages_repo_main.Solitaire.Deal.Laid.{deal-IsGame}
use packages_repo_main.Solitaire.Deal.{deal}
use packages_repo_main.Solitaire.Refine.{made, refused, act-Step, Step, act, Action}
use packages_repo_main.Solitaire.Rules.{counted, IsGame}
use packages_repo_main.Solitaire.Commands.{hide_help, toggle_help}
use packages_repo_main.Solitaire.Select.{undo_move, restart, clear_selection}
use packages_repo_main.Solitaire.Moves.{commit, refuse, save_undo}
use packages_repo_main.Solitaire.Cards.{
  undid, nothing_to_undo, max_undo, new_deal, Status, Game, set_status, App,
}
use packages_repo_main.Prelude.{
  subst, inr, length-take, arith, refl, inl, zero, [], ◌==◌, suc, ◌≤◌, ◌≡◌, Bool, Bool-cases, take,
  length, ◌∷◌, List, ℕ,
}

abbrev pub AllGames : List Game → Type 0
AllGames [] = Unit {0}
AllGames (g ∷ gs) = IsGame g × AllGames gs

-- The game and every saved game are legal, and no more are saved than there is room for.
pub record IsApp (app : App) : Type 0 where
  pub legal : IsGame app.game
  pub saved : AllGames app.undo
  pub few : length app.undo ≤ max_undo

AllGames-take : (n : ℕ) (gs : List Game) → AllGames gs → AllGames (take n gs)
AllGames-take zero gs a = tt
AllGames-take (suc n) [] a = tt
AllGames-take (suc n) (g ∷ gs) a = (a.0, AllGames-take n gs a.1)

-- Saving a game and going on with a legal one.
save_undo-IsApp :
    (app : App) (g : Game) → IsApp app → IsGame g → IsApp (record (save_undo app) { game = g })
unfolding save_undo
save_undo-IsApp app g h k = elim (Bool-cases (length app.undo == max_undo)) [
  | inl e ↦ rw e (record {
    legal = k;
    saved = (h.legal, AllGames-take 31 app.undo h.saved);
    few = ground (arith, length-take 31 app.undo);
  })
  | inr e ↦ rw e (record { legal = k; saved = (h.legal, h.saved); few = ground (arith, e, h.few) })
]

pub set_status-IsApp : (app : App) (text : Status) → IsApp app → IsApp (set_status app text)
unfolding set_status
set_status-IsApp app text h = record { legal = h.legal; saved = h.saved; few = h.few }

pub Step-IsApp : (app : App) (r : Bool × App) → IsApp app → Step app r → IsApp r.1
unfolding refuse commit
Step-IsApp app r h (refused text e) = rw e (set_status-IsApp app text h)
Step-IsApp app r h (made g text m e) =
    let k = Move-IsGame app.game (counted g) h.legal m in
    rw e (set_status-IsApp _ text (save_undo-IsApp app (counted g) h k))

pub act-IsApp : (a : Action) (app : App) → IsApp app → IsApp (act a app).1
act-IsApp a app h = Step-IsApp app (act a app) h (act-Step a app h.legal)

pub clear_selection-IsApp : (app : App) → IsApp app → IsApp (clear_selection app)
unfolding clear_selection
clear_selection-IsApp app h = record { legal = h.legal; saved = h.saved; few = h.few }

pub hide_help-IsApp : (app : App) → IsApp app → IsApp (hide_help app)
hide_help-IsApp app h = record { legal = h.legal; saved = h.saved; few = h.few }

pub toggle_help-IsApp : (app : App) → IsApp app → IsApp (toggle_help app)
unfolding toggle_help set_status
toggle_help-IsApp app h = record { legal = h.legal; saved = h.saved; few = h.few }

pub undo_move_nil : (app : App) → app.undo ≡ [] → undo_move app ≡ set_status app nothing_to_undo
unfolding undo_move
undo_move_nil app e = ground (arith, e)

pub undo_move_cons :
    (app : App) (g : Game) (gs : List Game)
    → app.undo ≡ g ∷ gs
    → undo_move app ≡ set_status (record app { game = g; undo = gs }) undid
unfolding undo_move
undo_move_cons app g gs e = ground (arith, e)

pub undo_move-IsApp : (app : App) → IsApp app → IsApp (undo_move app)
undo_move-IsApp app h = go app.undo refl
  where
    go : (gs : List Game) → app.undo ≡ gs → IsApp (undo_move app)
    go [] e = rw (undo_move_nil app e) (set_status-IsApp app nothing_to_undo h)
    go (g ∷ gs) e =
        let saved : AllGames (g ∷ gs) = subst AllGames e h.saved in
        let few : length (g ∷ gs) ≤ max_undo = subst (λ t. length t ≤ max_undo) e h.few in
        rw (undo_move_cons app g gs e) (
          set_status-IsApp (record app { game = g; undo = gs }) undid
            (record { legal = saved.0; saved = saved.1; few = omega (arith, few) }))

pub restart-IsApp : (seed : ℕ) (app : App) → IsApp app → IsApp (restart seed app)
unfolding restart
restart-IsApp seed app h =
    set_status-IsApp _ new_deal (save_undo-IsApp app (deal seed) h (deal-IsGame seed).0)
