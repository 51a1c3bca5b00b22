-- ===== src/Lifecycle/Outcomes.antt =====
-- What a branch of `transition` (src/asme/lifecycle.py) promises of the state that it moves to, and
-- the rule that carries the promise to the whole transition.
use agentic_skills_lifecycle.Prelude.{
  ℕ, ◌≡◌, refl, String, true, List, some, ok, err, ◌>>=◌, Bool-cases, Option-cases, inl, inr,
}
use agentic_skills_lifecycle.Lifecycle.State.{
  DomainState, TransitionInput, Event, Operation, Step, stay, move, Checked, parse_operation,
}
use agentic_skills_lifecycle.Lifecycle.Transition.{
  is_enabled, branch, finish, apply_operation, transition,
}

-- A refusal and `current` itself promise nothing.
abbrev pub Keeps : (DomainState → Type 0) → Checked Step → Type 0
Keeps P (ok (move r)) = P r
Keeps P (ok stay) = Unit
Keeps P (err e) = Unit

-- The same of a whole transition.
abbrev pub Returns : (DomainState → Type 0) → Checked DomainState → Type 0
Returns P (ok r) = P r
Returns P (err e) = Unit

-- The branch goes through, to a state with the property.
abbrev pub Moves : (DomainState → Type 0) → Checked Step → Type 0
Moves P (ok (move r)) = P r
Moves P (ok stay) = ⊥
Moves P (err e) = ⊥

-- A property that says nothing of the revision and of the history.
abbrev pub IsStable : (DomainState → Type 0) → Type 0
IsStable P =
    (r : DomainState) (n : ℕ) (es : List Event) → P r → P (record r { revision = n; history = es })

finish-Returns :
    (P : DomainState → Type 0) (c : DomainState) (o : Operation) (m : Checked Step)
    → IsStable P
    → P c
    → Keeps P m
    → Returns P (m >>= λ r. ok (finish c o r))
unfolding finish
finish-Returns P c o (ok stay) stable same k = same
finish-Returns P c o (ok (move r)) stable same k = stable r _ _ k
finish-Returns P c o (err e) stable same k = tt

apply_operation-Returns :
    (P : DomainState → Type 0) (c : DomainState) (s : TransitionInput)
    → IsStable P
    → P c
    → ((o : Operation) → is_enabled o c.state ≡ true → Keeps P (branch o c s))
    → (o : Operation) → Returns P (apply_operation o c s)
unfolding apply_operation
apply_operation-Returns P c s stable same kept o = elim (Bool-cases (is_enabled o c.state)) [
  | inl e ↦ rw e (finish-Returns P c o (branch o c s) stable same (kept o e))
  | inr e ↦ rw e tt
]

-- What holds of `current` and of every state that an enabled branch moves to holds of the result.
pub transition-Returns :
    (P : DomainState → Type 0) (c : DomainState) (s : TransitionInput)
    → IsStable P
    → P c
    → ((o : Operation) → is_enabled o c.state ≡ true → Keeps P (branch o c s))
    → (name : String) → Returns P (transition c name s)
unfolding transition
transition-Returns P c s stable same kept name = elim (Option-cases (parse_operation name)) [
  | inl e ↦ rw e tt
  | inr (o, e) ↦ rw e (apply_operation-Returns P c s stable same kept o)
]

-- The transition goes through, to a state with the property.
abbrev pub Succeeds : (DomainState → Type 0) → Checked DomainState → Type 0
Succeeds P (ok r) = P r
Succeeds P (err e) = ⊥

finish-Succeeds :
    (P : DomainState → Type 0) (c : DomainState) (o : Operation) (m : Checked Step)
    → IsStable P
    → Moves P m
    → Succeeds P (m >>= λ r. ok (finish c o r))
unfolding finish
finish-Succeeds P c o (ok stay) stable k = absurd k
finish-Succeeds P c o (ok (move r)) stable k = stable r _ _ k
finish-Succeeds P c o (err e) stable k = k

-- An enabled branch that goes through is a transition that succeeds.
pub transition-Succeeds :
    (P : DomainState → Type 0) (c : DomainState) (s : TransitionInput) (o : Operation)
    → IsStable P
    → is_enabled o c.state ≡ true
    → Moves P (branch o c s)
    → (name : String) → parse_operation name ≡ some o
    → Succeeds P (transition c name s)
unfolding transition apply_operation
transition-Succeeds P c s o stable enabled k name e =
    rw (e, enabled) (finish-Succeeds P c o (branch o c s) stable k)

finish-stays :
    (c : DomainState) (o : Operation) (m : Checked Step)
    → Keeps (λ r. ⊥) m
    → Returns (λ r. r ≡ c) (m >>= λ r. ok (finish c o r))
unfolding finish
finish-stays c o (ok stay) k = refl
finish-stays c o (ok (move r)) k = absurd k
finish-stays c o (err e) k = tt

-- A branch that never moves is a transition that is refused or returns `current` itself.
pub transition-stays :
    (c : DomainState) (s : TransitionInput) (name : String) (o : Operation)
    → parse_operation name ≡ some o
    → Keeps (λ r. ⊥) (branch o c s)
    → Returns (λ r. r ≡ c) (transition c name s)
unfolding transition apply_operation
transition-stays c s name o e k = rw e (elim (Bool-cases (is_enabled o c.state)) [
  | inl i ↦ rw i (finish-stays c o (branch o c s) k)
  | inr i ↦ rw i tt
])

-- A promise that follows from another.
pub Keeps-map :
    (P Q : DomainState → Type 0) (m : Checked Step)
    → ((r : DomainState) → P r → Q r)
    → Keeps P m
    → Keeps Q m
Keeps-map P Q (ok stay) f k = tt
Keeps-map P Q (ok (move r)) f k = f r k
Keeps-map P Q (err e) f k = tt
