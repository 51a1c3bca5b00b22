-- ===== src/Lifecycle/BestScore.antt =====
-- The best score of a domain over any run (src/asme/lifecycle.py).
use agentic_skills_lifecycle.Prelude.{
  ◌≡◌, Bool, true, false, Option, none, some, subst, inl, inr, is_some,
}
use agentic_skills_lifecycle.Float.{Float, float_leb, leb_trans, leb_refl, ltb-leb}
use agentic_skills_lifecycle.Lifecycle.State.{DomainState}
use agentic_skills_lifecycle.Lifecycle.Outcomes.{Returns}
use agentic_skills_lifecycle.Lifecycle.Invariant.{IsWellFormed, is_in_range, is_win}
use agentic_skills_lifecycle.Lifecycle.Scored.{IsScored, transition-IsScored}
use agentic_skills_lifecycle.Lifecycle.Promotion.{MayPromote, transition-MayPromote}
use agentic_skills_lifecycle.Lifecycle.Reach.{Reach, here, next, Reach-IsWellFormed}

-- `a <= b` on recorded scores.
abbrev pub is_at_most : Option Float → Option Float → Bool
is_at_most (some a) (some b) = float_leb a b
is_at_most _ _ = false

is_at_most_refl :
    (a : Option Float) → is_in_range a ≡ true → is_some a ≡ true → is_at_most a a ≡ true
is_at_most_refl none u k = cc
is_at_most_refl (some a) u k = leb_refl a u

is_at_most_trans :
    (a b c : Option Float) → is_at_most a b ≡ true → is_at_most b c ≡ true → is_at_most a c ≡ true
is_at_most_trans none b c h k = cc
is_at_most_trans (some a) none c h k = cc
is_at_most_trans (some a) (some b) none h k = cc
is_at_most_trans (some a) (some b) (some c) h k = leb_trans a b c h k

is_at_most_of_win : (a b : Option Float) → is_win a b ≡ true → is_at_most a b ≡ true
is_at_most_of_win none b h = cc
is_at_most_of_win (some a) none h = cc
is_at_most_of_win (some a) (some b) h = ltb-leb a b h

MayPromote-at_most :
    (c r : DomainState)
    → IsWellFormed c
    → IsScored c
    → MayPromote c r
    → is_at_most c.best_score r.best_score ≡ true
MayPromote-at_most c r w q (inl same) =
    rw same.0 (is_at_most_refl c.best_score w.in_range (w.scored q))
MayPromote-at_most c r w q (inr p) = is_at_most_of_win c.best_score r.best_score p.beaten

-- Over any run of transitions that starts after the baseline, in a well-formed domain, the best
-- score never falls.
pub Reach-best_score :
    {a c : DomainState}
    → IsWellFormed a
    → IsScored a
    → Reach a c
    → IsScored c × (is_at_most a.best_score c.best_score ≡ true)
Reach-best_score {a} w q here = (q, is_at_most_refl a.best_score w.in_range (w.scored q))
Reach-best_score {a} w q (next {c} {r} name s t e) =
    let (qc, up) = Reach-best_score w q t in
    let wc = Reach-IsWellFormed w t in
    (
      subst (Returns IsScored) e (transition-IsScored c name s qc),
      is_at_most_trans a.best_score c.best_score r.best_score up (
          MayPromote-at_most c r wc qc
            (subst (Returns (MayPromote c)) e (transition-MayPromote c name s wc qc))),
    )
