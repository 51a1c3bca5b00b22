-- ===== src/Proposal/Decision.antt =====
-- `validate_proposal` of src/asme/proposal.py. `json.loads` is a parameter, on the code points of a
-- text. A value of `action` that Python cannot hash is a `TypeError` of the code.
pub mod Laws
use agentic_skills_lifecycle.Prelude.{
  ℕ, String, str_append, str_eq, codes, Bool, true, false, not, ◌&&◌, ◌||◌, Option, none, some,
  List, [], ◌∷◌, ◌++◌, Result, ok, err, ◌>>=◌, ◌>>◌, raise_if, any, length, ltb, starts_with,
  is_subset, Dict, lookup, keys, Bytes, if◌then◌else◌, opt_is, is_some, is_blank,
}
use agentic_skills_lifecycle.Json.{
  Json, text, array, object, Items, no_items, item, Fields, no_fields, field, get_field,
}
use agentic_skills_lifecycle.Wiki.Patch.{text_of, has_exactly}
use agentic_skills_lifecycle.Snapshot.{FileDigests, Snapshot, content_map, from_mapping}
use agentic_skills_lifecycle.Proposal.Origins.{
  identifier_of, trace_ids_of, origin_ids_of, same_texts, sorted_set, purpose_origin_observations,
}
use agentic_skills_lifecycle.Proposal.Edits.{create_files, apply_patches}

pub data Choice : Type 0 where
  no_action create patch : Choice

pub record ValidatedProposal : Type 0 where
  pub action : Choice
  pub context_hash : String
  pub reason : String
  pub trace_ids : List String
  pub origin_observation_ids : List String
  pub skill_name : Option String
  pub snapshot : Snapshot

-- The keyword arguments of `validate_proposal`.
pub record Proposer : Type 0 where
  pub context : Bytes
  pub available_trace_ids : List String
  pub available_origin_observation_ids : List String
  pub active_snapshot : Snapshot
  pub forbidden_markers : List String

unfoldable pub choice_of : Option Json → Result String Choice
choice_of (some (array xs)) = err "TypeError: unhashable type: 'list'"
choice_of (some (object m)) = err "TypeError: unhashable type: 'dict'"
choice_of v = elim (text_of v) [
  | none ↦ err "proposal action must be create, patch, or no_action"
  | some s ↦
      if str_eq s "no_action"
      then ok no_action
      else if str_eq s "create"
      then ok create
      else if str_eq s "patch"
      then ok patch
      else err "proposal action must be create, patch, or no_action"
]

abbrev common_fields : List String
common_fields = "action" ∷ "context_hash" ∷ "reason" ∷ "trace_ids" ∷ []

abbrev pub required_fields : Choice → List String
required_fields no_action = common_fields
required_fields create = "skill_name" ∷ "files" ∷ common_fields
required_fields patch = "skill_name" ∷ "patches" ∷ common_fields

unfoldable pub has_fields : Choice → Fields → Bool
has_fields no_action raw = has_exactly raw (required_fields no_action)
has_fields choice raw =
    has_exactly raw (required_fields choice)
    || has_exactly raw ("origin_observation_ids" ∷ required_fields choice)

abbrev pub changes : Choice → Bool
changes no_action = false
changes _ = true

-- `any(path.startswith(prefix) for path in contents)`
unfoldable pub has_skill : String → Dict Bytes → Bool
has_skill prefix contents = any (λ p. starts_with (codes prefix) (codes p)) (keys contents)

-- The files of a new skill, and the patches of one that is there.
unfoldable pub files_of : Option Json → Result String Fields
files_of (some (object (field member content rest))) = ok (field member content rest)
files_of _ = err "create proposal requires a non-empty files object"

unfoldable pub patches_of : Option Json → Result String Items
patches_of (some (array (item raw rest))) = ok (item raw rest)
patches_of _ = err "patch proposal requires a non-empty patch list"

-- The files of the snapshot after a proposal that creates a skill, or patches one.
unfoldable pub edited : Choice → String → Fields → Dict Bytes → Result String (Dict Bytes)
unfolding has_skill files_of patches_of
edited no_action prefix raw contents = ok contents
edited create prefix raw contents = do
  raise_if (has_skill prefix contents) "create proposal targets an existing skill"
  files ← files_of (get_field "files" raw)
  raise_if (not (is_some (get_field "SKILL.md" files))) "created skill must include SKILL.md"
  create_files prefix files contents
edited patch prefix raw contents = do
  raise_if (not (has_skill prefix contents)) "patch proposal targets a missing skill"
  patches ← patches_of (get_field "patches" raw)
  apply_patches prefix patches contents

unfoldable pub reason_of : Option Json → Result String String
reason_of (some (text s)) = if is_blank s then err "proposal reason cannot be blank" else ok s
reason_of _ = err "proposal reason cannot be blank"

abbrev pub skill_prefix : String → String
skill_prefix name = str_append name "/"

unfoldable pub skill_of : Option Json → Result String String
skill_of none = err "proposal skill_name must match ^[a-z0-9][a-z0-9._-]{0,127}$"
skill_of (some v) = identifier_of v "proposal skill_name"

module _ (g : FileDigests) (loads : List ℕ → Option Json) where
  -- The candidate of a changed proposal, and the origins that its PURPOSE.md cites.
  unfoldable pub candidate_of :
      Proposer → Choice → Fields → String → List String → Result String (Snapshot × List String)
  unfolding edited
  candidate_of p choice raw name origins = do
    let prefix = skill_prefix name
    let contents = content_map p.active_snapshot
    let purpose = str_append prefix "PURPOSE.md"
    existing ← purpose_origin_observations loads (lookup purpose contents)
    raise_if (not (is_subset existing p.available_origin_observation_ids))
        "existing PURPOSE cites unavailable seed observations"
    next ← edited choice prefix raw contents
    candidate ← from_mapping g next p.forbidden_markers
    raise_if (str_eq candidate.snapshot_hash p.active_snapshot.snapshot_hash)
        "changed proposal produced no snapshot change"
    actual ← purpose_origin_observations loads (lookup purpose (content_map candidate))
    raise_if (not (same_texts actual (sorted_set (existing ++ origins))))
        "skill PURPOSE.md origin_observations differ from cited seed provenance"
    ok (candidate, sorted_set (existing ++ origins))

  -- A proposal that changes a skill, once its common fields are checked.
  unfoldable pub changed :
      Proposer → Choice → Fields → String → List String → Result String ValidatedProposal
  unfolding candidate_of skill_of
  changed p choice raw reason trace_ids = do
    name ← skill_of (get_field "skill_name" raw)
    origins ←
        origin_ids_of (get_field "origin_observation_ids" raw) p.available_origin_observation_ids
    (candidate, expected) ← candidate_of p choice raw name origins
    ok (record {
      action = choice;
      context_hash = g.sha256 p.context;
      reason = reason;
      trace_ids = trace_ids;
      origin_observation_ids = expected;
      skill_name = some name;
      snapshot = candidate;
    })

  -- The last step, once the common fields are checked.
  unfoldable pub decided :
      Proposer → Choice → Fields → String → List String → Result String ValidatedProposal
  unfolding changed
  decided p no_action raw reason ids = ok (record {
    action = no_action;
    context_hash = g.sha256 p.context;
    reason = reason;
    trace_ids = ids;
    origin_observation_ids = [];
    skill_name = none;
    snapshot = p.active_snapshot;
  })
  decided p choice raw reason ids = changed p choice raw reason ids

  -- `validate_proposal` of an object.
  unfoldable pub validate_object : Proposer → Fields → Result String ValidatedProposal
  unfolding choice_of has_fields reason_of decided
  validate_object p raw = do
    choice ← choice_of (get_field "action" raw)
    raise_if (not (has_fields choice raw)) "proposal fields differ from the selected action schema"
    raise_if (not (opt_is (text_of (get_field "context_hash" raw)) (g.sha256 p.context)))
        "proposal context hash does not match proposer input"
    reason ← reason_of (get_field "reason" raw)
    ids ← trace_ids_of (get_field "trace_ids" raw) p.available_trace_ids
    raise_if (changes choice && ltb (length ids) 4)
        "changed proposal requires at least four unique train traces"
    decided p choice raw reason ids

  -- `validate_proposal`
  unfoldable pub validate_proposal : Proposer → List ℕ → Result String ValidatedProposal
  unfolding validate_object
  validate_proposal p value = elim (loads value) [
    | none ↦ err "proposal output is malformed JSON"
    | some (object raw) ↦ validate_object p raw
    | some _ ↦ err "proposal output must be a JSON object"
  ]
