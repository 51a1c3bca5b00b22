-- ===== src/Claims/Laws.antt =====
-- What allows a claim of src/asme/claims.py.
use agentic_skills_lifecycle.Prelude.{
  ◌≤◌, ◌≡◌, ◌↔◌, refl, subst, String, eq_iff, true, false, not, Option, none, some, List, [], ◌∷◌,
  arith, length, any, is_unique, str_sort,
}
use agentic_skills_lifecycle.Float.{float_ltb}
use agentic_skills_lifecycle.Claims.{
  ClaimClass, local_acceptance, paper_comparable_public, RunEvidence, BootstrapEvidence,
  strict_local_win, is_empty, texts_eq, evaluate_local, complete_runs, ids, bootstrap_reasons,
  public_reasons, evaluate_claim,
}

-- A run beats its baseline in validation and again in confirmation.
pub record IsWin (r : RunEvidence) : Type 0 where
  pub validation : float_ltb r.baseline_score r.validation_score ≡ true
  pub confirmation : float_ltb r.baseline_score r.confirmation_score ≡ true

-- Every complete run is a win.
abbrev pub AreWins : List RunEvidence → Type 0
AreWins [] = Unit {0}
AreWins (r ∷ rs) = (r.complete ≡ true → IsWin r) × AreWins rs

-- A paired and complete bootstrap of exactly these runs.
abbrev pub IsBound : List String → Option BootstrapEvidence → Type 0
IsBound expected none = ⊥
IsBound expected (some b) =
    (b.paired ≡ true) × (b.complete ≡ true) × (str_sort b.run_ids ≡ str_sort expected)

-- The evidence that each class of claims asks for.
abbrev pub IsSupported : ClaimClass → List RunEvidence → Option BootstrapEvidence → Type 0
IsSupported local_acceptance (r ∷ []) b = (r.complete ≡ true) × IsWin r
IsSupported local_acceptance _ b = ⊥
IsSupported paper_comparable_public runs b =
    (3 ≤ length (complete_runs runs))
    × (is_unique (ids (complete_runs runs)) ≡ true)
    × AreWins runs
    × IsBound (ids (complete_runs runs)) b

texts_eq-eq : (xs ys : List String) → texts_eq xs ys ≡ true → xs ≡ ys
unfolding texts_eq
texts_eq-eq [] [] h = refl
texts_eq-eq [] (y ∷ ys) h = cc
texts_eq-eq (x ∷ xs) [] h = cc
texts_eq-eq (x ∷ xs) (y ∷ ys) h =
    let first = (eq_iff x y).0 (ground arith) in let rest = texts_eq-eq xs ys (ground arith) in cc

texts_eq_refl : (xs : List String) → texts_eq xs xs ≡ true
unfolding texts_eq
texts_eq_refl [] = refl
texts_eq_refl (x ∷ xs) = ground (arith, eq_iff x x, texts_eq_refl xs)

wins-AreWins :
    (runs : List RunEvidence)
    → any (λ r. not (strict_local_win r)) (complete_runs runs) ≡ false
    → AreWins runs
unfolding complete_runs strict_local_win
wins-AreWins [] h = tt
wins-AreWins (r ∷ rs) h = (
  λ c. record { validation = ground arith; confirmation = ground arith },
  wins-AreWins rs (ground arith),
)

AreWins-wins :
    (runs : List RunEvidence)
    → AreWins runs
    → any (λ r. not (strict_local_win r)) (complete_runs runs) ≡ false
unfolding complete_runs strict_local_win
AreWins-wins [] h = refl
AreWins-wins (r ∷ rs) (h, hs) = ground (arith, AreWins-wins rs hs)

-- The reasons against a claim are those of its runs and those of its bootstrap.
bootstrap-IsBound :
    (expected : List String) (b : Option BootstrapEvidence)
    → is_empty (bootstrap_reasons (str_sort expected) b) ≡ true
    → IsBound expected b
unfolding bootstrap_reasons
bootstrap-IsBound expected none h = cc
bootstrap-IsBound expected (some b) h = (
  ground arith,
  ground arith,
  texts_eq-eq (str_sort b.run_ids) (str_sort expected) (ground arith),
)

IsBound-bootstrap :
    (expected : List String) (b : Option BootstrapEvidence)
    → IsBound expected b
    → bootstrap_reasons (str_sort expected) b ≡ []
unfolding bootstrap_reasons
IsBound-bootstrap expected none h = absurd h
IsBound-bootstrap expected (some b) (p, c, e) =
    let same =
      subst (λ z. texts_eq (str_sort b.run_ids) z ≡ true) e (texts_eq_refl (str_sort b.run_ids)) in
    ground arith

public-IsSupported :
    (runs : List RunEvidence) (b : Option BootstrapEvidence)
    → is_empty (public_reasons (complete_runs runs) b) ≡ true
    → IsSupported paper_comparable_public runs b
unfolding public_reasons
public-IsSupported runs b h = (
  ground arith,
  ground arith,
  wins-AreWins runs (ground arith),
  bootstrap-IsBound (ids (complete_runs runs)) b (ground arith),
)

IsSupported-public :
    (runs : List RunEvidence) (b : Option BootstrapEvidence)
    → IsSupported paper_comparable_public runs b
    → is_empty (public_reasons (complete_runs runs) b) ≡ true
unfolding public_reasons
IsSupported-public runs b (enough, distinct, wins, bound) =
    let none_lost = AreWins-wins runs wins in
    let paired = IsBound-bootstrap (ids (complete_runs runs)) b bound in ground arith

-- A claim is allowed exactly when its evidence supports it: a local acceptance by one complete run
-- that beats its baseline in validation and in confirmation; a paper-comparable claim by at least
-- three complete runs with distinct names, all of them such wins, and a complete paired bootstrap
-- of exactly these runs.
pub evaluate_claim-IsSupported :
    (c : ClaimClass) (runs : List RunEvidence) (b : Option BootstrapEvidence)
    → ((evaluate_claim c runs b).allowed ≡ true) ↔ IsSupported c runs b
unfolding evaluate_claim evaluate_local strict_local_win
evaluate_claim-IsSupported local_acceptance [] b = (λ h. cc, λ h. absurd h)
evaluate_claim-IsSupported local_acceptance (r ∷ []) b = (
  λ h. (ground arith, record { validation = ground arith; confirmation = ground arith }),
  λ h. ground arith,
)
evaluate_claim-IsSupported local_acceptance (r ∷ s ∷ rs) b = (λ h. cc, λ h. absurd h)
evaluate_claim-IsSupported paper_comparable_public runs b =
    (public-IsSupported runs b, IsSupported-public runs b)
