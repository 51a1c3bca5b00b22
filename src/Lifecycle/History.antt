-- ===== src/Lifecycle/History.antt =====
-- The revision and the history that `transition` (src/asme/lifecycle.py) keeps of a domain.
use agentic_skills_lifecycle.Prelude.{
  ℕ, ◌≡◌, refl, String, Bool, true, List, [], ◌∷◌, ◌++◌, ok, err, ◌>>=◌, length, length-append,
  Bool-cases, Option-cases, inl, inr, arith, subst,
}
use agentic_skills_lifecycle.Contract.{LifecycleState, uninitialized}
use agentic_skills_lifecycle.Lifecycle.State.{
  DomainState, TransitionInput, Event, Operation, Step, stay, move, Checked, new_domain,
  parse_operation,
}
use agentic_skills_lifecycle.Lifecycle.Transition.{
  is_enabled, branch, finish, apply_operation, transition,
}
use agentic_skills_lifecycle.Lifecycle.Outcomes.{Returns}
use agentic_skills_lifecycle.Lifecycle.Reach.{Reach, here, next}

-- The events lead from one state to the other, each from where the one before it ended, and each
-- by an operation that is enabled there.
abbrev pub IsChain : LifecycleState → List Event → LifecycleState → Type 0
IsChain q [] r = q ≡ r
IsChain q (e ∷ es) r = (e.from ≡ q) × (is_enabled e.operation e.from ≡ true) × IsChain e.to es r

pub record IsAccounted (c : DomainState) : Type 0 where
  pub counted : c.revision ≡ length c.history
  pub chained : IsChain uninitialized c.history c.state

IsChain-append :
    (q r t : LifecycleState) (o : Operation) (es : List Event)
    → IsChain q es r
    → is_enabled o r ≡ true
    → IsChain q (es ++ record { operation = o; from = r; to = t } ∷ []) t
IsChain-append q r t o [] h e = ground arith
IsChain-append q r t o (x ∷ es) h e = (h.0, h.1, IsChain-append x.to r t o es h.2 e)

finish-IsAccounted :
    (c : DomainState) (o : Operation) (m : Checked Step)
    → IsAccounted c
    → is_enabled o c.state ≡ true
    → Returns IsAccounted (m >>= λ r. ok (finish c o r))
unfolding finish
finish-IsAccounted c o (ok stay) a e = a
finish-IsAccounted c o (ok (move r)) a e = record {
  counted = omega (
    arith,
    a.counted,
    length-append {0} c.history (record { operation = o; from = c.state; to = r.state } ∷ []),
  );
  chained = IsChain-append uninitialized c.state r.state o c.history a.chained e;
}
finish-IsAccounted c o (err x) a e = tt

pub transition-IsAccounted :
    (c : DomainState) (name : String) (s : TransitionInput)
    → IsAccounted c
    → Returns IsAccounted (transition c name s)
unfolding transition apply_operation
transition-IsAccounted c name s a = elim (Option-cases (parse_operation name)) [
  | inl n ↦ rw n tt
  | inr (o, n) ↦ rw n (elim (Bool-cases (is_enabled o c.state)) [
    | inl e ↦ rw e (finish-IsAccounted c o (branch o c s) a e)
    | inr e ↦ rw e tt
  ])
]

-- Over any run of a new domain, the revision counts the events, and the events are an unbroken
-- chain of enabled operations from the initial state to the current one.
pub Reach-IsAccounted :
    (domain_id seal : String) (n : ℕ) (confirm : Bool) {c : DomainState}
    → Reach (new_domain domain_id seal n confirm) c
    → IsAccounted c
unfolding new_domain
Reach-IsAccounted domain_id seal n confirm here = record { counted = refl; chained = refl }
Reach-IsAccounted domain_id seal n confirm (next {c} name s t e) =
    subst (Returns IsAccounted) e
      (transition-IsAccounted c name s (Reach-IsAccounted domain_id seal n confirm t))
