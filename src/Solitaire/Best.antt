-- ===== src/Solitaire/Best.antt =====
-- The run that `best_tableau_run_count` finds is the longest that can be moved.
use packages_repo_main.Solitaire.Select.{best_tableau_run_count, best_from, is_valid_tail_run}
use packages_repo_main.Solitaire.Moves.{is_descending, commit, all_up, refuse, tableau_to_tableau}
use packages_repo_main.Solitaire.Cards.{
  column, tableau_count, card_at, can_place_on_tableau, App, Pile,
}
use packages_repo_main.Prelude.{
  subst, refl, zero, ◌∙◌, inr, inl, ltb, ◌==◌, Bool-cases, ◌||◌, false, arith, ◌<◌, leb, true, not,
  ◌≡◌, ◌&&◌, ◌≢◌, ◌-◌, take, length, ◌≤◌, suc, Bool, ℕ,
}

-- The tests of `tableau_to_tableau` on the run and the pile that it goes to.
abbrev accepts : Pile → Pile → ℕ → Bool
accepts from to count =
    all_up (take count from)
    && is_descending (take count from)
    && can_place_on_tableau (card_at from (count - 1)) to

moved-accepts :
    (app : App) (src dest count : ℕ)
    → (tableau_to_tableau app src dest count).0 ≡ (
        not (leb tableau_count src || leb tableau_count dest || src == dest)
        && not (count == 0 || ltb (length (column app.game src)) count)
        && accepts (column app.game src) (column app.game dest) count)
unfolding tableau_to_tableau refuse commit
moved-accepts app src dest count = ground arith

tail_run-accepts :
    (from to : Pile) (count : ℕ)
    → suc count ≤ length from
    → (is_valid_tail_run from (length from - suc count)
        && can_place_on_tableau (card_at from count) to)
      ≡ accepts from to (suc count)
unfolding is_valid_tail_run
tail_run-accepts from to count h =
    let size : length from - (length from - suc count) ≡ suc count = omega arith in
    let last : suc count - 1 ≡ count = omega arith in rw (size, last) (ground (arith, h))

best_from-longest :
    (from to : Pile) (k : ℕ)
    → k ≤ length from
    → (best_from from to k ≤ k)
      × (best_from from to k ≢ 0 → accepts from to (best_from from to k) ≡ true)
      × ((count : ℕ) → best_from from to k < count → count ≤ k → accepts from to count ≡ false)
unfolding best_from
best_from-longest from to zero h =
    (omega arith, λ n. absurd (n refl), λ count l m. absurd (omega (arith, l, m)))
best_from-longest from to (suc k) h =
    let (below, found, longest) = best_from-longest from to k (omega (arith, h)) in
    let test = tail_run-accepts from to k h in
    elim (Bool-cases (accepts from to (suc k))) [
      | inl e ↦ rw (test ∙ e) (omega arith, λ n. e, λ count l m. absurd (omega (arith, l, m)))
      | inr e ↦ rw (test ∙ e) (
        omega (arith, below),
        found,
        λ count l m. last from to k (best_from from to k) count l m e longest,
      )
    ]
  where
    last :
        (from to : Pile) (k n count : ℕ)
        → n < count
        → count ≤ suc k
        → accepts from to (suc k) ≡ false
        → ((c : ℕ) → n < c → c ≤ k → accepts from to c ≡ false)
        → accepts from to count ≡ false
    last from to k n count l m e longest = elim (Bool-cases (count == suc k)) [
      | inl q ↦
          let same : suc k ≡ count = ground (arith, q) in
          subst (λ c. accepts from to c ≡ false) same e
      | inr q ↦ longest count l (ground (arith, q, m))
    ]

best_tableau_run_count-from :
    (app : App) (src dest : ℕ)
    → src < tableau_count
    → dest < tableau_count
    → src ≢ dest
    → best_tableau_run_count app.game src dest
      ≡ best_from (column app.game src) (column app.game dest) (length (column app.game src))
unfolding best_tableau_run_count
best_tableau_run_count-from app src dest l m n = ground (arith, l, m, n)

refuses_longer :
    (app : App) (src dest count : ℕ)
    → (count ≤ length (column app.game src)
        → accepts (column app.game src) (column app.game dest) count ≡ false)
    → (tableau_to_tableau app src dest count).0 ≡ false
refuses_longer app src dest count refused =
    moved-accepts app src dest count
    ∙ elim (Bool-cases (ltb (length (column app.game src)) count)) [
      | inl e ↦ ground (arith, e)
      | inr e ↦ ground (arith, refused (ground (arith, e)))
    ]

-- The count that is found for two different columns moves, where it is not 0, and no longer run does.
pub best_tableau_run_count-longest :
    (app : App) (src dest : ℕ)
    → src < tableau_count
    → dest < tableau_count
    → src ≢ dest
    → (best_tableau_run_count app.game src dest ≢ 0
        → (tableau_to_tableau app src dest (best_tableau_run_count app.game src dest)).0 ≡ true)
      × ((count : ℕ)
          → best_tableau_run_count app.game src dest < count
          → (tableau_to_tableau app src dest count).0 ≡ false)
best_tableau_run_count-longest app src dest l m n =
    let from = column app.game src in
    let to = column app.game dest in
    let best = best_from from to (length from) in
    let (below, found, longest) = best_from-longest from to (length from) (omega arith) in
    rw (best_tableau_run_count-from app src dest l m n) (
      λ z. moved-accepts app src dest best ∙ accepted app src dest best l m n z below (found z),
      λ count k. refuses_longer app src dest count (longest count k),
    )
  where
    accepted :
        (app : App) (src dest best : ℕ)
        → src < tableau_count
        → dest < tableau_count
        → src ≢ dest
        → best ≢ 0
        → best ≤ length (column app.game src)
        → accepts (column app.game src) (column app.game dest) best ≡ true
        → (not (leb tableau_count src || leb tableau_count dest || src == dest)
            && not (best == 0 || ltb (length (column app.game src)) best)
            && accepts (column app.game src) (column app.game dest) best)
          ≡ true
    accepted app src dest best l m n z below found = ground (arith, l, m, n, z, below, found)
