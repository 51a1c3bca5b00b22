-- ===== src/Wiki/Laws/Quotes.antt =====
-- The evidence of a page that `_validate_pattern_attestation` of src/asme/wiki.py accepts.
use agentic_skills_lifecycle.Prelude.{
  ℕ, ◌≡◌, ◌⊎◌, inl, inr, sym, subst, String, str_eq, Bool, true, false, not, Option, none, some,
  List, [], ◌∷◌, Result, ok, ◌>>◌, raise_if, codes, codes_eq-eq, is_within, is_blank, any, str_mem,
  arith, >>=-eq-ok, ok-injective, Option-cases, Bool-cases,
}
use agentic_skills_lifecycle.Json.{
  Json, null, boolean, natural, negative, number, text, object, array, Items, no_items, item,
  Fields, get_field,
}
use agentic_skills_lifecycle.Wiki.Traces.{TraceView}
use agentic_skills_lifecycle.Wiki.Patch.{mapping, text_of, has_exactly}
use agentic_skills_lifecycle.Wiki.Page.{Evidence}
use agentic_skills_lifecycle.Wiki.Attestation.{
  find_trace, quoted_span, quoted_trace, evidence_of, quoted_command, quoted_commands, quoted_of,
  same_evidence, are_distinct, remove_evidence, same_bag, kind_has_traces, is_kind,
  attestation_fields, trace_disposition, validate_pattern_attestation,
}

-- A trace of the sample.
abbrev pub Among : TraceView → List TraceView → Type 0
Among t [] = ⊥
Among t (x ∷ xs) = (x ≡ t) ⊎ Among t xs

-- The evidence quotes a trace of the sample: its span is not blank and stands in what the trace
-- holds, and its outcome is the trace's.
pub record IsQuoted (traces : List TraceView) (e : Evidence) : Type 0 where
  pub from : TraceView
  pub span : String
  pub among : Among from traces
  pub nonblank : is_blank span ≡ false
  pub stands : is_within (codes span) from.content ≡ true
  pub is : e ≡ evidence_of from span

abbrev pub AreQuoted : List TraceView → List Evidence → Type 0
AreQuoted traces [] = Unit {0}
AreQuoted traces (e ∷ es) = IsQuoted traces e × AreQuoted traces es

find_trace-Among :
    (id : String) (traces : List TraceView) (t : TraceView)
    → find_trace id traces ≡ some t
    → Among t traces
unfolding find_trace
find_trace-Among id [] t h = cc
find_trace-Among id (x ∷ xs) t h = elim (Bool-cases (str_eq x.task_id id)) [
  | inl e ↦ inl (ground arith)
  | inr n ↦ inr (find_trace-Among id xs t (ground arith))
]

quoted_trace-Among :
    (v : Option Json) (traces : List TraceView) (t : TraceView)
    → quoted_trace v traces ≡ some t
    → Among t traces
unfolding quoted_trace
quoted_trace-Among v traces t h = elim (Option-cases (text_of v)) [
  | inl n ↦ absurd (ground arith)
  | inr (id, e) ↦ find_trace-Among id traces t (ground arith)
]

quoted_span-stands :
    (v : Option Json) (t : TraceView) (s : String)
    → quoted_span v t ≡ some s
    → (is_blank s ≡ false) × (is_within (codes s) t.content ≡ true)
unfolding quoted_span
quoted_span-stands v t s h = elim (Option-cases (text_of v)) [
  | inl n ↦ absurd (ground arith)
  | inr (u, e) ↦
      let same = the_span u e in
      subst (λ z. (is_blank z ≡ false) × (is_within (codes z) t.content ≡ true)) same
        (ground arith, ground arith)
]
  where
    the_span : (u : String) → text_of v ≡ some u → u ≡ s
    the_span u e = ground arith

quoted_command-IsQuoted :
    (traces : List TraceView) (raw : Json) (e : Evidence)
    → quoted_command traces raw ≡ ok e
    → IsQuoted traces e
unfolding quoted_command
quoted_command-IsQuoted traces raw e h =
    let (m, _, h1) = >>=-eq-ok (mapping (some raw) "quoted_commands") _ h in
    elim (Option-cases (quoted_trace (get_field "trace" m) traces)) [
      | inl n ↦ absurd (ground arith)
      | inr (t, n) ↦ elim (Option-cases (quoted_span (get_field "span" m) t)) [
        | inl k ↦ absurd (ground arith)
        | inr (s, k) ↦
            let (solid, there) = quoted_span-stands (get_field "span" m) t s k in
            let same = sym (ok-injective {E = String} (ground arith)) in
            record {
              from = t;
              span = s;
              among = quoted_trace-Among (get_field "trace" m) traces t n;
              nonblank = solid;
              stands = there;
              is = same;
            }
      ]
    ]

quoted_commands-AreQuoted :
    (traces : List TraceView) (raws : Items) (es : List Evidence)
    → quoted_commands traces raws ≡ ok es
    → AreQuoted traces es
unfolding quoted_commands
quoted_commands-AreQuoted traces no_items es h = subst (AreQuoted traces) (ok-injective h) tt
quoted_commands-AreQuoted traces (item raw rest) es h =
    let (x, a, more) = >>=-eq-ok (quoted_command traces raw) _ h in
    let (xs, b, end) = >>=-eq-ok (quoted_commands traces rest) (λ us. ok (x ∷ us)) more in
    subst (AreQuoted traces) (ok-injective end)
      (quoted_command-IsQuoted traces raw x a, quoted_commands-AreQuoted traces rest xs b)

quoted_of-AreQuoted :
    (traces : List TraceView) (v : Option Json) (es : List Evidence)
    → quoted_of traces v ≡ ok es
    → AreQuoted traces es
unfolding quoted_of
quoted_of-AreQuoted traces (some (array (item raw rest))) es h =
    quoted_commands-AreQuoted traces (item raw rest) es h
quoted_of-AreQuoted traces (some (array no_items)) es h = cc
quoted_of-AreQuoted traces none es h = cc
quoted_of-AreQuoted traces (some null) es h = cc
quoted_of-AreQuoted traces (some (boolean b)) es h = cc
quoted_of-AreQuoted traces (some (natural n)) es h = cc
quoted_of-AreQuoted traces (some (negative n)) es h = cc
quoted_of-AreQuoted traces (some (number n)) es h = cc
quoted_of-AreQuoted traces (some (text t)) es h = cc
quoted_of-AreQuoted traces (some (object m)) es h = cc

same_evidence-eq : (a b : Evidence) → same_evidence a b ≡ true → a ≡ b
same_evidence-eq a b h =
    let x = codes_eq-eq a.trace b.trace (ground arith) in
    let y = codes_eq-eq a.outcome b.outcome (ground arith) in
    let z = codes_eq-eq a.span b.span (ground arith) in cc

-- A tuple that is removed from some list leaves the others.
remove_evidence-AreQuoted :
    (traces : List TraceView) (e : Evidence) (es rest : List Evidence)
    → remove_evidence e es ≡ some rest
    → IsQuoted traces e
    → AreQuoted traces rest
    → AreQuoted traces es
unfolding remove_evidence
remove_evidence-AreQuoted traces e [] rest h q qs = cc
remove_evidence-AreQuoted traces e (x ∷ xs) rest h q qs = elim (Bool-cases (same_evidence e x)) [
  | inl t ↦ (
    subst (IsQuoted traces) (same_evidence-eq e x t) q,
    subst (AreQuoted traces) (sym (the_rest t)) qs,
  )
  | inr f ↦ elim (Option-cases (remove_evidence e xs)) [
    | inl n ↦ absurd (ground arith)
    | inr (ys, n) ↦
        let (here, there) = subst (AreQuoted traces) (sym (longer ys f n)) qs in
        (here, remove_evidence-AreQuoted traces e xs ys n q there)
  ]
]
  where
    the_rest : same_evidence e x ≡ true → xs ≡ rest
    the_rest t = ground arith

    longer :
        (ys : List Evidence)
        → same_evidence e x ≡ false
        → remove_evidence e xs ≡ some ys
        → x ∷ ys ≡ rest
    longer ys f n = ground arith

same_bag-AreQuoted :
    (traces : List TraceView) (quoted evidence : List Evidence)
    → same_bag quoted evidence ≡ true
    → AreQuoted traces quoted
    → AreQuoted traces evidence
unfolding same_bag
same_bag-AreQuoted traces [] [] h q = tt
same_bag-AreQuoted traces [] (y ∷ ys) h q = cc
same_bag-AreQuoted traces (x ∷ xs) ys h (q, qs) = elim (Option-cases (remove_evidence x ys)) [
  | inl n ↦ absurd (ground arith)
  | inr (rest, n) ↦
      remove_evidence-AreQuoted traces x ys rest n q
        (same_bag-AreQuoted traces xs rest (ground arith) qs)
]

-- The evidence of a page whose attestation is accepted quotes the sample: each line names a trace of
-- the sample and its outcome, and its span is not blank and stands in that trace.
pub validate_pattern_attestation-AreQuoted :
    (name : String) (m : Fields) (kind : List ℕ) (evidence : List Evidence)
    (traces : List TraceView) (created : Bool)
    → validate_pattern_attestation name m kind evidence traces created ≡ ok tt
    → AreQuoted traces evidence
unfolding validate_pattern_attestation
validate_pattern_attestation-AreQuoted name m kind evidence traces created h =
    let (_, _, h1) =
      >>=-eq-ok
        (raise_if (not (has_exactly m attestation_fields))
          "pattern attestation fields are incomplete")
        _ h in
    let (_, _, h2) =
      >>=-eq-ok
        (raise_if (not (is_kind (get_field "pattern_kind" m) kind))
          "page and attested pattern_kind differ")
        _ h1 in
    let (failures, _, h3) =
      >>=-eq-ok (trace_disposition (get_field "failure_traces" m) "failure" traces) _ h2 in
    let (successes, _, h4) =
      >>=-eq-ok (trace_disposition (get_field "success_traces" m) "success" traces) _ h3 in
    let (_, _, h5) =
      >>=-eq-ok
        (raise_if (any (λ i. str_mem i successes) failures)
          "failure and success trace lists overlap")
        _ h4 in
    let (_, _, h6) =
      >>=-eq-ok
        (raise_if (not (kind_has_traces kind failures successes))
          "pattern lacks traces of its kind")
        _ h5 in
    let (quoted, q, h7) = >>=-eq-ok (quoted_of traces (get_field "quoted_commands" m)) _ h6 in
    let (_, _, h8) =
      >>=-eq-ok (raise_if (not (are_distinct quoted)) "quoted_commands contains duplicate tuples") _
        h7 in
    same_bag-AreQuoted traces quoted evidence (bag_of (same_bag quoted evidence) _ _ h8)
      (quoted_of-AreQuoted traces (get_field "quoted_commands" m) quoted q)
  where
    bag_of :
        (b : Bool) (message : String) (rest : Result String (Unit {0}))
        → (raise_if (not b) message >> rest) ≡ ok tt
        → b ≡ true
    bag_of b message rest q = ground arith
