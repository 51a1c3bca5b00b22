-- ===== src/Lifecycle/Reach.antt =====
-- The states that a domain can reach by calls of `transition` (src/asme/lifecycle.py), whatever the
-- operations and their inputs, refused calls included.
use agentic_skills_lifecycle.Prelude.{ℕ, ◌<◌, ◌≡◌, String, Bool, ok, subst}
use agentic_skills_lifecycle.Lifecycle.State.{DomainState, TransitionInput, new_domain}
use agentic_skills_lifecycle.Lifecycle.Transition.{transition}
use agentic_skills_lifecycle.Lifecycle.Invariant.{IsWellFormed}
use agentic_skills_lifecycle.Lifecycle.Outcomes.{Returns}
use agentic_skills_lifecycle.Lifecycle.Invariant.Setup.{new_domain-IsWellFormed}
use agentic_skills_lifecycle.Lifecycle.Invariant.Transition.{transition-IsWellFormed}

pub data Reach (start : DomainState) : DomainState → Type 0 where
  here : Reach start start
  next :
      {c r : DomainState} (name : String) (s : TransitionInput)
      → Reach start c
      → transition c name s ≡ ok r
      → Reach start r

pub Reach-IsWellFormed : {a c : DomainState} → IsWellFormed a → Reach a c → IsWellFormed c
Reach-IsWellFormed w here = w
Reach-IsWellFormed w (next {c} name s t e) =
    subst (Returns IsWellFormed) e (transition-IsWellFormed c name s (Reach-IsWellFormed w t))

-- Every state that a new domain with at least one iteration can reach is well-formed.
pub reachable-IsWellFormed :
    (domain_id seal : String) (n : ℕ) (confirm : Bool) (c : DomainState)
    → 0 < n
    → Reach (new_domain domain_id seal n confirm) c
    → IsWellFormed c
reachable-IsWellFormed domain_id seal n confirm c h r =
    Reach-IsWellFormed (new_domain-IsWellFormed domain_id seal n confirm h) r
