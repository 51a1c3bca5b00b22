-- ===== src/Wiki/Laws/Sampling.antt =====
-- The bounds of `sample_traces` in src/asme/wiki.py.
use agentic_skills_lifecycle.Prelude.{
  ◌+◌, ◌≤◌, ◌≡◌, ◌∙◌, refl, ap, subst, String, str_append, Bool, true, not, ◌&&◌, List, [], ◌∷◌,
  ◌++◌, ok, ◌>>=◌, ◌>>◌, raise_if, str_len, ◌==◌, length, all, select, take, length-take, all-take,
  arith, >>=-eq-ok, ok-injective, length-select,
}
use agentic_skills_lifecycle.Canonical.{require_identifier}
use agentic_skills_lifecycle.Wiki.Traces.{
  TraceView, failure_limit, success_limit, trace_char_limit, insert_trace, sort_traces, view_of,
  views_of, failures_of, successes_of, sample_traces,
}

-- A view is within the limit of characters and bound to its source.
pub record IsBounded (v : TraceView) : Type 0 where
  pub content : length v.content ≤ 15000
  pub source : str_len v.source_hash ≡ 64

abbrev pub AreBounded : List TraceView → Type 0
AreBounded [] = Unit {0}
AreBounded (v ∷ vs) = IsBounded v × AreBounded vs

module _ (p : TraceView → Bool) where
  all-insert_trace :
      (t : TraceView) (xs : List TraceView) → all p (insert_trace t xs) ≡ (p t && all p xs)
  unfolding insert_trace
  all-insert_trace t [] = refl
  all-insert_trace t (x ∷ xs) = ground (arith, all-insert_trace t xs)

  all-sort_traces : (xs : List TraceView) → all p (sort_traces xs) ≡ all p xs
  unfolding sort_traces
  all-sort_traces [] = refl
  all-sort_traces (x ∷ xs) = ground (arith, all-insert_trace x (sort_traces xs), all-sort_traces xs)

  all-select : (xs : List TraceView) → all p (select p xs) ≡ true
  all-select [] = refl
  all-select (x ∷ xs) = ground (arith, all-select xs)

abbrev pub is_failure : TraceView → Bool
is_failure t = not t.passed

abbrev pub is_success : TraceView → Bool
is_success t = t.passed

none_selected :
    (p : TraceView → Bool) (xs : List TraceView) → all (λ t. not (p t)) xs ≡ true → select p xs ≡ []
none_selected p [] h = refl
none_selected p (x ∷ xs) h = ground (arith, none_selected p xs)

view_of-IsBounded : (r v : TraceView) → view_of r ≡ ok v → IsBounded v × (v.passed ≡ r.passed)
unfolding view_of
view_of-IsBounded r v h =
    let (id, i, rest) = >>=-eq-ok (require_identifier r.task_id "trace.task_id") _ h in
    let e = the_view id rest in
    (
      record {
        content = subst (λ z. length z.content ≤ 15000) e (length-take trace_char_limit r.content);
        source = ground arith;
      },
      ground arith,
    )
  where
    the_view :
        (id : String)
        → (raise_if
              (not (str_len r.source_hash == 64))
              (str_append "trace " (str_append id " has no bound source hash"))
            >> ok (record r { content = take trace_char_limit r.content }))
          ≡ ok v
        → record r { content = take trace_char_limit r.content } ≡ v
    the_view id q = ground arith

-- The views of some records: each is bounded, and has the outcome of its record.
views_of-counts :
    (rs vs : List TraceView)
    → views_of rs ≡ ok vs
    → AreBounded vs
      × (length (select is_failure vs) ≡ length (select is_failure rs))
      × (length (select is_success vs) ≡ length (select is_success rs))
unfolding views_of
views_of-counts [] vs h =
    let e = ok-injective h in
    subst
      (λ z. AreBounded z × (length (select is_failure z) ≡ 0) × (length (select is_success z) ≡ 0))
      e (tt, refl, refl)
views_of-counts (r ∷ rs) vs h =
    let (v, seen, rest) = >>=-eq-ok (view_of r) (λ w. views_of rs >>= λ ws. ok (w ∷ ws)) h in
    let (ws, more, end) = >>=-eq-ok (views_of rs) (λ us. ok (v ∷ us)) rest in
    let (bounded, passed) = view_of-IsBounded r v seen in
    let (others, failures, successes) = views_of-counts rs ws more in
    subst
      (λ z.
        AreBounded z
        × (length (select is_failure z) ≡ length (select is_failure (r ∷ rs)))
        × (length (select is_success z) ≡ length (select is_success (r ∷ rs))))
      (ok-injective end) ((bounded, others), ground arith, ground arith)

-- The traces of one outcome that are chosen, and none of the other outcome.
failures-are : (records : List TraceView) → all is_failure (failures_of records) ≡ true
unfolding failures_of
failures-are records =
    all-take is_failure failure_limit (sort_traces (select (λ r. not r.passed) records)) (
      all-sort_traces is_failure (select (λ r. not r.passed) records)
      ∙ all-select is_failure records)

successes-are : (records : List TraceView) → all is_success (successes_of records) ≡ true
unfolding successes_of
successes-are records =
    all-take is_success success_limit (sort_traces (select (λ r. r.passed) records))
      (all-sort_traces is_success (select (λ r. r.passed) records) ∙ all-select is_success records)

count-append :
    (p : TraceView → Bool) (xs ys : List TraceView)
    → length (select p (xs ++ ys)) ≡ length (select p xs) + length (select p ys)
count-append p [] ys = omega arith
count-append p (x ∷ xs) ys = ground (arith, count-append p xs ys)

count_none :
    (p : TraceView → Bool) (xs : List TraceView)
    → all (λ t. not (p t)) xs ≡ true
    → length (select p xs) ≡ 0
count_none p xs h = ap (λ z. length z) (none_selected p xs h)

limit_failures : (rs : List TraceView) → length (failures_of rs) ≤ 5
unfolding failures_of
limit_failures rs = length-take failure_limit (sort_traces (select (λ r. not r.passed) rs))

limit_successes : (rs : List TraceView) → length (successes_of rs) ≤ 3
unfolding successes_of
limit_successes rs = length-take success_limit (sort_traces (select (λ r. r.passed) rs))

-- A sample has at most five failures and three successes, and each of its views has at most 15,000
-- characters and a source hash of 64.
pub sample_traces-AreBounded :
    (records vs : List TraceView)
    → sample_traces records ≡ ok vs
    → AreBounded vs × (length (select is_failure vs) ≤ 5) × (length (select is_success vs) ≤ 3)
unfolding sample_traces
sample_traces-AreBounded records vs h =
    let (bounded, failures, successes) =
      views_of-counts (failures_of records ++ successes_of records) vs h in
    let few_failures = length-select is_failure (failures_of records) in
    let few_successes = length-select is_success (successes_of records) in
    let no_success = count_none is_success (failures_of records) (failures-are records) in
    let no_failure =
      count_none is_failure (successes_of records)
        (opposite (successes_of records) (successes-are records)) in
    let a = count-append is_failure (failures_of records) (successes_of records) in
    let b = count-append is_success (failures_of records) (successes_of records) in
    let c = limit_failures records in
    let d = limit_successes records in (bounded, omega arith, omega arith)
  where
    opposite :
        (xs : List TraceView) → all is_success xs ≡ true → all (λ t. not (is_failure t)) xs ≡ true
    opposite [] q = refl
    opposite (x ∷ xs) q = ground (arith, opposite xs (ground arith))
