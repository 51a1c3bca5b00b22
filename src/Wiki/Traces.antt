-- ===== src/Wiki/Traces.antt =====
-- `sample_traces` of src/asme/wiki.py. The fields of a record have the types of a `TraceView`.
use agentic_skills_lifecycle.Prelude.{
  ℕ, String, str_append, Bool, not, List, [], ◌∷◌, ◌++◌, Result, ok, ◌>>=◌, ◌>>◌, raise_if, str_len,
  str_leb, ◌==◌, select, take, if◌then◌else◌,
}
use agentic_skills_lifecycle.Canonical.{require_identifier}

pub record TraceView : Type 0 where
  pub task_id : String
  pub passed : Bool
  pub content : List ℕ
  pub source_hash : String

abbrev pub failure_limit : ℕ
failure_limit = 5

abbrev pub success_limit : ℕ
success_limit = 3

abbrev pub trace_char_limit : ℕ
trace_char_limit = 15000

-- `sorted(records, key=lambda x: x.get("task_id"))`
unfoldable pub insert_trace : TraceView → List TraceView → List TraceView
insert_trace t [] = t ∷ []
insert_trace t (x ∷ xs) = if str_leb t.task_id x.task_id then t ∷ x ∷ xs else x ∷ insert_trace t xs

unfoldable pub sort_traces : List TraceView → List TraceView
unfolding insert_trace
sort_traces [] = []
sort_traces (x ∷ xs) = insert_trace x (sort_traces xs)

-- One round of the loop: the view of a record.
unfoldable pub view_of : TraceView → Result String TraceView
view_of r = do
  task_id ← require_identifier r.task_id "trace.task_id"
  raise_if (not (str_len r.source_hash == 64))
      (str_append "trace " (str_append task_id " has no bound source hash"))
  ok (record r { content = take trace_char_limit r.content })

unfoldable pub views_of : List TraceView → Result String (List TraceView)
unfolding view_of
views_of [] = ok []
views_of (r ∷ rs) = do v ← view_of r; vs ← views_of rs; ok (v ∷ vs)

unfoldable pub failures_of : List TraceView → List TraceView
unfolding sort_traces
failures_of records = take failure_limit (sort_traces (select (λ r. not r.passed) records))

unfoldable pub successes_of : List TraceView → List TraceView
unfolding sort_traces
successes_of records = take success_limit (sort_traces (select (λ r. r.passed) records))

-- `sample_traces`
unfoldable pub sample_traces : List TraceView → Result String (List TraceView)
unfolding failures_of successes_of views_of
sample_traces records = views_of (failures_of records ++ successes_of records)
