-- ===== src/Lifecycle/Routes/Delivery.antt =====
-- The delivery of a domain over any run (src/asme/lifecycle.py): one route, one delivery, and an
-- export that consumes its evidence and can be repeated.
use agentic_skills_lifecycle.Prelude.{
  ℕ, ◌≤◌, ◌≡◌, refl, String, str_eq, Bool, true, false, some, List, [], ◌∷◌, opt_is, eq_iff, ap,
  ◌>>=◌, subst, length, if◌then◌else◌, Option, none, ok, err, >>=-eq-ok, ok-injective, arith, inl,
  inr, Bool-cases,
}
use agentic_skills_lifecycle.Contract.{LifecycleState, Route, validated, untested, done}
use agentic_skills_lifecycle.Lifecycle.Branches.Delivery.{same_route}
use agentic_skills_lifecycle.Lifecycle.State.{
  Step, move, stay, parse_operation, export, LedgerEntry, DomainState, TransitionInput, new_domain,
}
use agentic_skills_lifecycle.Lifecycle.Transition.{
  is_enabled, branch, finish, apply_operation, transition,
}
use agentic_skills_lifecycle.Lifecycle.Branches.{
  on_export, export_first, matching, is_single, on_route,
}
use agentic_skills_lifecycle.Lifecycle.Manifests.{consume_manifest}
use agentic_skills_lifecycle.Lifecycle.Outcomes.{Keeps, Returns, transition-Returns}
use agentic_skills_lifecycle.Lifecycle.Routes.Defs.{has_one, IsLatched}
use agentic_skills_lifecycle.Lifecycle.Routes.Branches.{branch-IsLatched, branch-HasRoute, HasRoute}
use agentic_skills_lifecycle.Lifecycle.Reach.{Reach, here, next}

pub transition-IsLatched :
    (c : DomainState) (name : String) (s : TransitionInput)
    → IsLatched c
    → Returns IsLatched (transition c name s)
transition-IsLatched c name s l =
    transition-Returns IsLatched c s (λ r n es k. ground arith) l
      (λ o e. branch-IsLatched o c s l e) name

Reach-IsLatched : {a c : DomainState} → IsLatched a → Reach a c → IsLatched c
Reach-IsLatched l here = l
Reach-IsLatched l (next {c} name s t e) =
    subst (Returns IsLatched) e (transition-IsLatched c name s (Reach-IsLatched l t))

new_domain-IsLatched :
    (domain_id seal : String) (n : ℕ) (confirm : Bool)
    → IsLatched (new_domain domain_id seal n confirm)
unfolding new_domain
new_domain-IsLatched domain_id seal n confirm = ground arith

at_most_one : (c : DomainState) → IsLatched c → length c.delivery_ledger ≤ 1
at_most_one c l = ground arith

-- Over any run of a new domain there is at most one delivery, on the latched route; an untested
-- delivery leaves no test phase and no test manifest, and an exported domain has consumed every
-- test manifest, of which there is at most one for each phase.
pub reachable-IsLatched :
    (domain_id seal : String) (n : ℕ) (confirm : Bool) {c : DomainState}
    → Reach (new_domain domain_id seal n confirm) c
    → IsLatched c × (length c.delivery_ledger ≤ 1)
reachable-IsLatched domain_id seal n confirm {c} t =
    let l = Reach-IsLatched (new_domain-IsLatched domain_id seal n confirm) t in
    (l, at_most_one c l)

still : (x : Route) (r : DomainState) → HasRoute (some x) r → r.route ≡ some x
still x r (inl e) = cc
still x r (inr e) = e

-- A route that is latched is the route of every later state.
pub Reach-route :
    {a c : DomainState} (x : Route) → IsLatched a → a.route ≡ some x → Reach a c → c.route ≡ some x
Reach-route x l q here = q
Reach-route x l q (next {c} {r} name s t e) =
    let old = Reach-route x l q t in
    let lc = Reach-IsLatched l t in
    still x r (
      subst (Returns (HasRoute (some x))) e (
        transition-Returns (HasRoute (some x)) c s (λ r n es k. k) (inr old)
          (λ o i. subst (λ y. Keeps (HasRoute y) (branch o c s)) old (branch-HasRoute o c s lc i))
          name))

the_entry : (es : List LedgerEntry) → has_one es ≡ true → (e : LedgerEntry) × (es ≡ e ∷ [])
the_entry [] h = cc
the_entry (e ∷ []) h = (e, refl)
the_entry (e ∷ x ∷ es) h = cc

-- A domain whose one delivery is the export of the given identity.
pub record IsExported (d : String) (c : DomainState) : Type 0 where
  pub finished : c.state ≡ done
  pub on_validated : c.route ≡ some validated
  pub step : opt_is c.validated_step "exported" ≡ true
  pub ledger :
      (e : LedgerEntry) × (c.delivery_ledger ≡ e ∷ [])
      × (e.delivery_id ≡ d)
      × (same_route e.route validated ≡ true)

export-done : (q : LifecycleState) → is_enabled export q ≡ true → q ≡ done
unfolding is_enabled
export-done done h = refl
export-done _ h = absurd (ground arith)

-- The domain after the first export, and after a repeated one.
export_first-IsExported :
    (c : DomainState) (d : String)
    → IsLatched c
    → c.state ≡ done
    → c.route ≡ some validated
    → opt_is c.validated_step "exported" ≡ false
    → Keeps (IsExported d) (export_first c d)
unfolding export_first consume_manifest
export_first-IsExported c d l q r n = ground arith

single_ledger :
    (c : DomainState) (d : String)
    → IsLatched c
    → c.state ≡ done
    → c.route ≡ some validated
    → opt_is c.validated_step "exported" ≡ true
    → is_single (λ e. same_route e.route validated) (matching d c.delivery_ledger) ≡ true
    → IsExported d c
unfolding matching
single_ledger c d l q r n h =
    let (e, one) = the_entry c.delivery_ledger (ground arith) in
    record {
      finished = q;
      on_validated = r;
      step = n;
      ledger = (e, one, ground (arith, eq_iff e.delivery_id d), ground arith);
    }

on_route-validated : (r : Option Route) → on_route r validated ≡ true → r ≡ some validated
on_route-validated (some validated) h = refl
on_route-validated (some untested) h = absurd (ground arith)
on_route-validated none h = absurd (ground arith)

finish-IsExported :
    (c x : DomainState) (d : String) → IsExported d x → IsExported d (finish c export (move x))
unfolding finish
finish-IsExported c x d k = record {
  finished = k.finished;
  on_validated = k.on_validated;
  step = k.step;
  ledger = k.ledger;
}

first-IsExported :
    (c : DomainState) (d : String) (r : Step)
    → Keeps (IsExported d) (export_first c d)
    → export_first c d ≡ ok r
    → IsExported d (finish c export r)
unfolding export_first consume_manifest
first-IsExported c d (move x) k e = finish-IsExported c x d (subst (Keeps (IsExported d)) e k)
first-IsExported c d stay k e = absurd (ground arith)

branch-IsExported :
    (c : DomainState) (s : TransitionInput) (d : String) (r : Step)
    → IsLatched c
    → is_enabled export c.state ≡ true
    → s.delivery_id ≡ some d
    → on_export c s ≡ ok r
    → IsExported d (finish c export r)
unfolding on_export finish
branch-IsExported c s d r l e i h =
    let q = export-done c.state e in
    let v = on_route-validated c.route (ground arith) in
    elim (Bool-cases (opt_is c.validated_step "exported")) [
      | inl x ↦
          subst (λ z. IsExported d (finish c export z)) (again x)
            (single_ledger c d l q v x (ground arith))
      | inr x ↦ first-IsExported c d r (export_first-IsExported c d l q v x) (ground arith)
    ]
  where
    again : opt_is c.validated_step "exported" ≡ true → stay ≡ r
    again x = ground arith

-- A valid export of an exported domain.
IsExported-again :
    (r : DomainState) (t : TransitionInput) (d e : String)
    → IsExported d r
    → t.valid ≡ some true
    → t.delivery_id ≡ some e
    → str_eq e "" ≡ false
    → transition r "export" t
      ≡ (if str_eq d e then ok r else err "validated export is already latched to another identity")
unfolding transition apply_operation parse_operation branch on_export matching is_enabled finish
IsExported-again r t d e k v j n =
    let (entry, one, same, route) = k.ledger in
    let p = k.finished in
    let q = k.on_validated in
    let w = k.step in
    let i = ap (λ z. str_eq z e) same in
    elim (Bool-cases (str_eq d e)) [ inl x ↦ ground arith | inr x ↦ ground arith ]

enabled-export :
    (c r : DomainState) (s : TransitionInput)
    → transition c "export" s ≡ ok r
    → (is_enabled export c.state ≡ true) × ((on_export c s >>= λ z. ok (finish c export z)) ≡ ok r)
unfolding transition apply_operation parse_operation branch
enabled-export c r s h = elim (Bool-cases (is_enabled export c.state)) [
  | inr x ↦ absurd (ground arith)
  | inl x ↦ (x, ground arith)
]

-- An export with an identity that returns a state makes it the one delivery of the domain: a
-- second valid `export` with the same identity returns the state unchanged, and one with another
-- identity is refused.
pub export-export :
    (c r : DomainState) (s t : TransitionInput) (d e : String)
    → IsLatched c
    → s.delivery_id ≡ some d
    → transition c "export" s ≡ ok r
    → t.valid ≡ some true
    → t.delivery_id ≡ some e
    → str_eq e "" ≡ false
    → transition r "export" t
      ≡ (if str_eq d e then ok r else err "validated export is already latched to another identity")
export-export c r s t d e l i h v j n =
    let (x, steps) = enabled-export c r s h in
    let (z, a, b) = >>=-eq-ok (on_export c s) (λ z. ok (finish c export z)) steps in
    IsExported-again r t d e
      (subst (IsExported d) (ok-injective b) (branch-IsExported c s d z l x i a)) v j n
