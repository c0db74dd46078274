-- ===== src/Solitaire/Guards.antt =====
-- The tests and the loops of the moves, and the rules on piles that they decide.
use packages_repo_main.Solitaire.Rules.{
  onto, Descends, one, turned, FitsFoundation, FitsColumn, IsRun, up,
}
use packages_repo_main.Solitaire.Moves.{is_descending, all_up, push_run, recycle}
use packages_repo_main.Solitaire.Cards.{
  rank, max_pile, card_at, is_red, same, Slot, pile_push, can_place_on_foundation,
  can_place_on_tableau, Pile,
}
use packages_repo_main.Prelude.{
  subst, zero, refl, sym, ◌∙◌, ap, inr, ◌==◌, length-append, false, inl, suc, ◌++◌, arith, ◌≢◌, ◌∷◌,
  take, ◌&&◌, ◌≤◌, ◌↔◌, ◌⊎◌, ◌+◌, ◌<◌, true, [], length, ◌≡◌, not, Bool, ℕ,
}

pub Pile-cases : (p : Pile) → (p ≡ []) ⊎ ((s : Slot) × (rest : Pile) × (p ≡ s ∷ rest))
Pile-cases [] = inl refl
Pile-cases (s ∷ p) = inr (s, p, refl)

colours_differ : (a b : Bool) → (not (same a b) ≡ true) ↔ (a ≢ b)
colours_differ true true = ground arith
colours_differ true false = ground arith
colours_differ false true = ground arith
colours_differ false false = ground arith

pub can_place_on_tableau_iff :
    (c : ℕ) (p : Pile) → (can_place_on_tableau c p ≡ true) ↔ FitsColumn c p
unfolding can_place_on_tableau
can_place_on_tableau_iff c [] = ground arith
can_place_on_tableau_iff c (s ∷ p) = (
  λ h. (
    ground (arith, h),
    record {
      colour = (colours_differ (is_red c) (is_red s.card)).0 (ground (arith, h));
      next = ground (arith, h);
    },
  ),
  λ f. ground (arith, f.0, f.1.next, (colours_differ (is_red c) (is_red s.card)).1 f.1.colour),
)

pub can_place_on_foundation_iff :
    (c : ℕ) (p : Pile) → (can_place_on_foundation c p ≡ true) ↔ FitsFoundation c p
unfolding can_place_on_foundation
can_place_on_foundation_iff c [] = ground arith
can_place_on_foundation_iff c (s ∷ p) = ground arith

pub pile_push_fits :
    (p : Pile) (c : ℕ) (side : Bool)
    → length p < max_pile
    → pile_push p c side ≡ record { card = c; face_up = side } ∷ p
unfolding pile_push
pile_push_fits p c side h = ground arith

pub recycle-turned :
    (p stock : Pile) → length p + length stock ≤ max_pile → recycle p stock ≡ turned p stock
unfolding recycle
recycle-turned [] stock h = refl
recycle-turned (s ∷ p) stock h =
    let grown = record { card = s.card; face_up = false } ∷ stock in
    ap (recycle p) (pile_push_fits stock s.card false (omega arith))
    ∙ recycle-turned p grown (omega arith)

up-eq_self : (s : Slot) → s.face_up ≡ true → up s.card ≡ s
up-eq_self s e = ground (arith, e)

-- Pushing a run of face-up cards card by card puts it on top as it is.
pub push_run-append :
    (to run : Pile)
    → all_up run ≡ true
    → length run + length to ≤ max_pile
    → push_run to run ≡ run ++ to
unfolding push_run all_up
push_run-append to [] a h = refl
push_run-append to (s ∷ p) a h =
    let rest = push_run-append to p (ground (arith, a)) (omega arith) in
    rw (rest, pile_push_fits (p ++ to) s.card true (omega (arith, length-append p to)))
      (ap (λ t. t ∷ (p ++ to)) (up-eq_self s (ground (arith, a))))

Descends-test :
    (lower upper : ℕ)
    → (not (same (is_red upper) (is_red lower)) && rank upper == rank lower + 1 ≡ true)
      ↔ Descends lower upper
Descends-test lower upper = (
  λ h. record {
    colour = λ e. (colours_differ (is_red upper) (is_red lower)).0 (ground (arith, h)) (sym e);
    next = ground (arith, h);
  },
  λ d.
      ground
        (arith, d.next, (colours_differ (is_red upper) (is_red lower)).1 (λ e. d.colour (sym e))),
)

-- The tests of `tableau_to_tableau` on the `k + 1` topmost cards say that they are a run.
pub tests-IsRun :
    (p : Pile) (k : ℕ)
    → k < length p
    → all_up (take (suc k) p) ≡ true
    → is_descending (take (suc k) p) ≡ true
    → IsRun (card_at p k) (take (suc k) p)
unfolding all_up is_descending card_at
tests-IsRun [] k l a d = elim l [ ]
tests-IsRun (s ∷ p) zero l a d = one (ap (λ t. t ∷ []) (sym (up-eq_self s (ground (arith, a)))))
tests-IsRun (s ∷ []) (suc k) l a d = absurd (omega (arith, l))
tests-IsRun (s ∷ t ∷ p) (suc k) l a d =
    let s_up = up-eq_self s (ground (arith, a)) in
    let t_up = up-eq_self t (ground (arith, a)) in
    let deeper = tests-IsRun (t ∷ p) k (omega (arith, l)) (ground (arith, a)) (ground (arith, d)) in
    onto s.card t.card (take k p) (ground (s_up, t_up, arith))
      ((Descends-test s.card t.card).0 (ground (arith, d)))
      (subst (λ u. IsRun (card_at (t ∷ p) k) (u ∷ take k p)) (sym t_up) deeper)

-- A run passes the tests, and its deepest card is the last.
pub IsRun-tests :
    (deepest : ℕ) (run rest : Pile)
    → IsRun deepest run
    → (all_up run ≡ true)
      × (is_descending run ≡ true)
      × ((j : ℕ) × (length run ≡ suc j) × (card_at (run ++ rest) j ≡ deepest))
unfolding all_up is_descending card_at
IsRun-tests deepest run rest (one e) = rw e (refl, refl, (0, refl, refl))
IsRun-tests deepest run rest (onto c d p e s r) =
    let (a, b, (j, l, k)) = IsRun-tests deepest (up d ∷ p) rest r in
    rw e (ground (arith, a), ground (arith, b, (Descends-test c d).1 s), (suc j, ap suc l, k))
