-- ===== src/Capability/Laws.antt =====
-- What a capability report of src/asme/contract.py may claim.
use agentic_skills_lifecycle.Prelude.{
  ◌≡◌, ◌⊎◌, ◌↔◌, inl, inr, refl, sym, ap, String, Bool, true, false, not, ◌&&◌, List, [], ◌∷◌, ok,
  is_ok, raise_if, >>=-eq-ok, ok-injective, str_mem, str_sort, str_distinct, is_subset, arith,
  Bool-cases,
}
use agentic_skills_lifecycle.Canonical.{require_identifier}
use agentic_skills_lifecycle.Contract.{
  IsolationLevel, enforced, procedural, none_level, unknown_level, TraceFidelity, paper_complete,
  observable_transcript, final_only, unknown_fidelity,
}
use agentic_skills_lifecycle.Capability.{
  CapabilityReport, Observation, fidelity_value, paper_events, is_enforced, is_paper, is_isolated,
  claims_only, checked_report, fidelity_of, conservative_report, conservative,
}

-- A report whose claims are covered by what was measured.
pub record IsTruthful (r : CapabilityReport) : Type 0 where
  pub paper_has_events :
      r.trace_fidelity ≡ paper_complete → is_subset paper_events r.captured_events ≡ true
  pub unseen_is_isolated :
      str_mem "unseen" r.claims_allowed ≡ true
      → (r.held_out_answer_isolation ≡ enforced) × (r.wiki_isolation ≡ enforced)
  pub sandboxed_is_isolated : str_mem "sandboxed" r.claims_allowed ≡ true → is_isolated r ≡ true
  pub otherwise_labelled : (is_isolated r ≡ true) ⊎ (str_mem "unsandboxed" r.claims_allowed ≡ true)
  pub measured :
      (f : TraceFidelity)
      → (str_mem (fidelity_value f) r.claims_allowed ≡ true) ↔ (f ≡ r.trace_fidelity)

is_enforced-eq : (l : IsolationLevel) → is_enforced l ≡ true → l ≡ enforced
is_enforced-eq enforced h = refl
is_enforced-eq procedural h = cc
is_enforced-eq none_level h = cc
is_enforced-eq unknown_level h = cc

-- A check that passed.
passed : (c : Bool) (m : String) (t : Unit {0}) → raise_if c m ≡ ok t → c ≡ false
passed c m t h = ground arith

-- What it says of its conditions.
module _ (a b : Bool) where
  when-cases : a ≡ true → (a && not b) ≡ false → b ≡ true
  when-cases p h = ground arith

  or-cases : b ≡ true → (not a && b) ≡ false → a ≡ true
  or-cases p h = ground arith

  either-cases : (not a && not b) ≡ false → (a ≡ true) ⊎ (b ≡ true)
  either-cases h = elim (Bool-cases a) [ inl e ↦ inl e | inr e ↦ inr (ground arith) ]

not-false : (a : Bool) → not a ≡ false → a ≡ true
not-false a h = ground arith

both-enforced :
    (x y : IsolationLevel)
    → (is_enforced x && is_enforced y) ≡ true
    → (x ≡ enforced) × (y ≡ enforced)
both-enforced x y h = (is_enforced-eq x (ground arith), is_enforced-eq y (ground arith))

claims_only-measured :
    (f t : TraceFidelity) (claims : List String)
    → claims_only (fidelity_value t) claims ≡ true
    → (str_mem (fidelity_value f) claims ≡ true) ↔ (f ≡ t)
unfolding claims_only fidelity_value
claims_only-measured paper_complete paper_complete claims h = (λ m. refl, λ e. ground arith)
claims_only-measured observable_transcript observable_transcript claims h =
    (λ m. refl, λ e. ground arith)
claims_only-measured final_only final_only claims h = (λ m. refl, λ e. ground arith)
claims_only-measured unknown_fidelity unknown_fidelity claims h = (λ m. refl, λ e. ground arith)
claims_only-measured f t claims h = (λ m. absurd (ground arith), λ e. absurd (ground arith))

-- A report that passes its checks is unchanged, and claims no more than it measured: a complete trace
-- has its four events, `unseen` needs the isolation of the answers and of the wiki, `sandboxed`
-- needs every isolation, a report without them all says `unsandboxed`, and of the fidelities it
-- claims the measured one and no other.
pub checked_report-IsTruthful :
    (r s : CapabilityReport) → checked_report r ≡ ok s → (s ≡ r) × IsTruthful r
unfolding checked_report
checked_report-IsTruthful r s h =
    let (id, a, h1) = >>=-eq-ok (require_identifier r.runtime_id "runtime_id") _ h in
    let (t, b, h2) =
      >>=-eq-ok
        (raise_if (is_paper r.trace_fidelity && not (is_subset paper_events r.captured_events))
          "paper_complete trace is missing events")
        _ h1 in
    let (u, c, h3) =
      >>=-eq-ok
        (raise_if
          (str_mem "unseen" r.claims_allowed
            && not (is_enforced r.held_out_answer_isolation && is_enforced r.wiki_isolation))
          "unseen requires enforced held-out and wiki isolation")
        _ h2 in
    let (v, d, h4) =
      >>=-eq-ok
        (raise_if (not (is_isolated r) && str_mem "sandboxed" r.claims_allowed)
          "sandboxed claim requires every isolation dimension enforced")
        _ h3 in
    let (w, e, h5) =
      >>=-eq-ok
        (raise_if (not (is_isolated r) && not (str_mem "unsandboxed" r.claims_allowed))
          "non-enforced isolation must allow the unsandboxed label")
        _ h4 in
    let (x, f, end) =
      >>=-eq-ok
        (raise_if (not (claims_only (fidelity_value r.trace_fidelity) r.claims_allowed))
          "claims_allowed must contain exactly the measured trace fidelity")
        _ h5 in
    let missing = is_subset paper_events r.captured_events in
    let answers = is_enforced r.held_out_answer_isolation && is_enforced r.wiki_isolation in
    let unseen = str_mem "unseen" r.claims_allowed in
    let sandboxed = str_mem "sandboxed" r.claims_allowed in
    let unsandboxed = str_mem "unsandboxed" r.claims_allowed in
    let whole = is_isolated r in
    let only = claims_only (fidelity_value r.trace_fidelity) r.claims_allowed in
    (
      sym (ok-injective end),
      record {
        paper_has_events = λ p. when-cases (is_paper r.trace_fidelity) missing (ap is_paper p) (
            passed (is_paper r.trace_fidelity && not missing)
              "paper_complete trace is missing events" t b);
        unseen_is_isolated = λ p. both-enforced r.held_out_answer_isolation r.wiki_isolation (
            when-cases unseen answers p (
              passed (unseen && not answers) "unseen requires enforced held-out and wiki isolation"
                u c));
        sandboxed_is_isolated = λ p. or-cases whole sandboxed p (
            passed (not whole && sandboxed)
              "sandboxed claim requires every isolation dimension enforced" v d);
        otherwise_labelled = either-cases whole unsandboxed (
            passed (not whole && not unsandboxed)
              "non-enforced isolation must allow the unsandboxed label" w e);
        measured = λ l. claims_only-measured l r.trace_fidelity r.claims_allowed (
            not-false only (
              passed (not only) "claims_allowed must contain exactly the measured trace fidelity" x
                f));
      },
    )

fidelity_of-conservative : (captured : List String) → is_paper (fidelity_of captured) ≡ false
unfolding fidelity_of
fidelity_of-conservative captured = ground arith

fidelity_claims-only :
    (f : TraceFidelity)
    → claims_only (fidelity_value f) (fidelity_value f ∷ "unsandboxed" ∷ []) ≡ true
unfolding claims_only fidelity_value
fidelity_claims-only paper_complete = refl
fidelity_claims-only observable_transcript = refl
fidelity_claims-only final_only = refl
fidelity_claims-only unknown_fidelity = refl

fidelity_value-apart :
    (f : TraceFidelity)
    → (str_mem "unseen" (fidelity_value f ∷ "unsandboxed" ∷ []) ≡ false)
      × (str_mem "sandboxed" (fidelity_value f ∷ "unsandboxed" ∷ []) ≡ false)
      × (str_mem "unsandboxed" (fidelity_value f ∷ "unsandboxed" ∷ []) ≡ true)
unfolding fidelity_value
fidelity_value-apart paper_complete = (refl, refl, refl)
fidelity_value-apart observable_transcript = (refl, refl, refl)
fidelity_value-apart final_only = (refl, refl, refl)
fidelity_value-apart unknown_fidelity = (refl, refl, refl)

-- A conservative report of an identified runtime always passes the checks of a report, and claims
-- neither `unseen` nor `sandboxed`.
pub conservative-checked :
    (o : Observation)
    → is_ok (require_identifier o.runtime_id "runtime_id") ≡ true
    → (conservative o ≡ ok (conservative_report o))
      × (str_mem "unseen" (conservative_report o).claims_allowed ≡ false)
      × (str_mem "sandboxed" (conservative_report o).claims_allowed ≡ false)
unfolding conservative checked_report conservative_report is_isolated
conservative-checked o h =
    let f = fidelity_of (str_sort (str_distinct o.captured_events)) in
    let p = fidelity_of-conservative (str_sort (str_distinct o.captured_events)) in
    let c = fidelity_claims-only f in let (a, b, d) = fidelity_value-apart f in (ground arith, a, b)
