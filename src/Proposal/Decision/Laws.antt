-- ===== src/Proposal/Decision/Laws.antt =====
-- What a proposal of src/asme/proposal.py that is accepted may change.
use agentic_skills_lifecycle.Prelude.{
  ℕ, ◌≡◌, ◌∙◌, ◌⊎◌, ◌≤◌, inl, inr, refl, sym, ap, subst, String, str_append, str_eq, eq_iff,
  is_some, codes, true, false, not, ◌&&◌, Option, none, some, List, [], ◌∷◌, ◌++◌, map, ok,
  raise_if, >>=-eq-ok, ok-injective, any, length, Dict, lookup, put_key, lookup-put_key, sort_keys,
  lookup-sort_keys, Bytes, is_within, encode, arith, Bool-cases, Option-cases, ◌==◌, count_of,
  replace_first, str_mem, is_unique, is_subset, is_subset_iff, ltb, opt_is, if◌then◌else◌,
}
use agentic_skills_lifecycle.Canonical.{safe_member_name}
use agentic_skills_lifecycle.Json.{
  Json, array, object, Items, no_items, item, Fields, no_fields, field, get_field,
}
use agentic_skills_lifecycle.Wiki.Patch.{text_of, has_exactly, nonempty_text}
use agentic_skills_lifecycle.Snapshot.{
  FileDigests, SnapshotFile, Snapshot, content_map, material, markers_of, checked_snapshot,
  snapshot_file, snapshot_files, from_mapping,
}
use agentic_skills_lifecycle.Proposal.Origins.{
  trace_ids_of, identifiers_of, origin_ids_of, same_texts, sorted_set, purpose_origin_observations,
}
use agentic_skills_lifecycle.Proposal.Edits.{
  created_text, create_file, create_files, member_of, file_text, replacement_of, apply_patch,
  apply_patches,
}
use agentic_skills_lifecycle.Proposal.Decision.{
  Choice, no_action, create, patch, ValidatedProposal, Proposer, files_of, patches_of, edited,
  has_skill, skill_prefix, candidate_of, changed, decided, skill_of, changes, choice_of, has_fields,
  reason_of, validate_object, validate_proposal,
}

-- A path that is not below a prefix.
abbrev pub IsOutside : String → String → Type 0
IsOutside prefix k = (member : String) → str_eq (str_append prefix member) k ≡ false

safe_member_name-same : (value name : String) → safe_member_name value ≡ ok name → name ≡ value
unfolding safe_member_name
safe_member_name-same value name h = ground arith

-- A file that is put below a prefix.
put_below :
    (prefix member path k : String) (c : Bytes) (m : Dict Bytes)
    → safe_member_name (str_append prefix member) ≡ ok path
    → IsOutside prefix k
    → lookup k (put_key path c m) ≡ lookup k m
put_below prefix member path k c m h o =
    let same = safe_member_name-same (str_append prefix member) path h in
    let apart = ap (λ z. str_eq z k) same ∙ o member in
    lookup-put_key path k c m ∙ ap (λ b. if b then some c else lookup k m) apart

create_file-outside :
    (prefix member k : String) (content : Json) (m n : Dict Bytes)
    → IsOutside prefix k
    → create_file prefix member content m ≡ ok n
    → lookup k n ≡ lookup k m
unfolding create_file
create_file-outside prefix member k content m n o h =
    let (relative, a, f) = >>=-eq-ok (safe_member_name member) _ h in
    let (s, b, e) = >>=-eq-ok (created_text relative content) _ f in
    let (path, c, end) = >>=-eq-ok (safe_member_name (str_append prefix relative)) _ e in
    ap (lookup k) (sym (ok-injective end))
    ∙ put_below prefix relative path k (encode (codes s)) m c o

create_files-outside :
    (prefix k : String) (files : Fields) (m n : Dict Bytes)
    → IsOutside prefix k
    → create_files prefix files m ≡ ok n
    → lookup k n ≡ lookup k m
unfolding create_files
create_files-outside prefix k no_fields m n o h = ap (lookup k) (sym (ok-injective h))
create_files-outside prefix k (field member content rest) m n o h =
    let (next, a, b) =
      >>=-eq-ok (create_file prefix member content m) (create_files prefix rest) h in
    create_files-outside prefix k rest next n o b
    ∙ create_file-outside prefix member k content m next o a

apply_patch-outside :
    (prefix k : String) (raw : Json) (m n : Dict Bytes)
    → IsOutside prefix k
    → apply_patch prefix raw m ≡ ok n
    → lookup k n ≡ lookup k m
unfolding apply_patch
apply_patch-outside prefix k (object raw) m n o h =
    let names = "path" ∷ "target" ∷ "replacement" ∷ [] in
    let (t, a, f) =
      >>=-eq-ok
        (raise_if (not (has_exactly raw names))
          "proposal patch must contain path, target, and replacement")
        _ h in
    let (member, b, e) = >>=-eq-ok (member_of (get_field "path" raw)) _ f in
    let (path, c, d) = >>=-eq-ok (safe_member_name (str_append prefix member)) _ e in
    let (target, x, y) =
      >>=-eq-ok (nonempty_text (get_field "target" raw) "proposal patch target cannot be empty") _
        d in
    let (replacement, z, u) = >>=-eq-ok (replacement_of (get_field "replacement" raw)) _ y in
    let (old, v, w) = >>=-eq-ok (file_text path m) _ u in
    let (once, p, end) =
      >>=-eq-ok
        (raise_if (not (count_of target old == 1)) "proposal patch target must match exactly once")
        _ w in
    ap (lookup k) (sym (ok-injective end))
    ∙ put_below prefix member path k (encode (replace_first target replacement old)) m c o
apply_patch-outside prefix k Json.null m n o h = absurd (ground arith)
apply_patch-outside prefix k (Json.boolean b) m n o h = absurd (ground arith)
apply_patch-outside prefix k (Json.natural b) m n o h = absurd (ground arith)
apply_patch-outside prefix k (Json.negative b) m n o h = absurd (ground arith)
apply_patch-outside prefix k (Json.number b) m n o h = absurd (ground arith)
apply_patch-outside prefix k (Json.text b) m n o h = absurd (ground arith)
apply_patch-outside prefix k (Json.array b) m n o h = absurd (ground arith)

apply_patches-outside :
    (prefix k : String) (items : Items) (m n : Dict Bytes)
    → IsOutside prefix k
    → apply_patches prefix items m ≡ ok n
    → lookup k n ≡ lookup k m
unfolding apply_patches
apply_patches-outside prefix k no_items m n o h = ap (lookup k) (sym (ok-injective h))
apply_patches-outside prefix k (item raw rest) m n o h =
    let (next, a, b) = >>=-eq-ok (apply_patch prefix raw m) (apply_patches prefix rest) h in
    apply_patches-outside prefix k rest next n o b ∙ apply_patch-outside prefix k raw m next o a

module _ (g : FileDigests) where
  snapshot_file-same :
      (markers : List Bytes) (path : String) (c : Bytes) (f : SnapshotFile)
      → snapshot_file g markers path c ≡ ok f
      → (f.path ≡ path) × (f.content ≡ c) × (any (λ m. is_within m c) markers ≡ false)
  unfolding snapshot_file safe_member_name
  snapshot_file-same markers path c f h = ground arith

  -- The files of a snapshot are those of the mapping, and hold no marker.
  snapshot_files-same :
      (markers : List Bytes) (k : String) (m : Dict Bytes) (fs : List SnapshotFile)
      → snapshot_files g markers m ≡ ok fs
      → (lookup k (map (λ f. (f.path, f.content)) fs) ≡ lookup k m)
        × ((c : Bytes) → lookup k m ≡ some c → any (λ x. is_within x c) markers ≡ false)
  unfolding snapshot_files lookup
  snapshot_files-same markers k [] fs h = (
    ap (λ z. lookup k (map (λ f. (f.path, f.content)) z)) (sym (ok-injective h)),
    λ c e. absurd (ground arith),
  )
  snapshot_files-same markers k ((path, content) ∷ rest) fs h =
      let (f, a, x) = >>=-eq-ok (snapshot_file g markers path content) _ h in
      let (others, b, end) = >>=-eq-ok (snapshot_files g markers rest) _ x in
      let (p, c, clean) = snapshot_file-same markers path content f a in
      let (tail, marks) = snapshot_files-same markers k rest others b in
      let same = ok-injective end in
      (
        ap (λ z. lookup k (map (λ f. (f.path, f.content)) z)) (sym same) ∙ ground arith,
        λ d e. elim (Bool-cases (str_eq path k)) [
          | inl q ↦ ground arith
          | inr q ↦ marks d (ground arith)
        ],
      )

  checked_snapshot-same : (s t : Snapshot) → checked_snapshot g s ≡ ok t → t ≡ s
  unfolding checked_snapshot
  checked_snapshot-same s t h = ground arith

  -- The files of a snapshot that is made of a mapping.
  from_mapping-same :
      (m : Dict Bytes) (markers : List String) (k : String) (s : Snapshot)
      → from_mapping g m markers ≡ ok s
      → (lookup k (content_map s) ≡ lookup k m)
        × ((c : Bytes)
            → lookup k (content_map s) ≡ some c
            → any (λ x. is_within x c) (markers_of markers) ≡ false)
  unfolding from_mapping content_map
  from_mapping-same m markers k s h =
      let (files, a, end) = >>=-eq-ok (snapshot_files g (markers_of markers) (sort_keys m)) _ h in
      let (same, clean) = snapshot_files-same (markers_of markers) k (sort_keys m) files a in
      let built =
        checked_snapshot-same (record { snapshot_hash = g.sha256 (material files); files = files })
          s end in
      let there = ap (λ z. lookup k (map (λ f. (f.path, f.content)) z.files)) built in
      (there ∙ same ∙ lookup-sort_keys k m, λ c e. clean c (sym same ∙ sym there ∙ e))

edited-outside :
    (choice : Choice) (prefix k : String) (raw : Fields) (m n : Dict Bytes)
    → IsOutside prefix k
    → edited choice prefix raw m ≡ ok n
    → lookup k n ≡ lookup k m
unfolding edited
edited-outside no_action prefix k raw m n o h = ap (lookup k) (sym (ok-injective h))
edited-outside create prefix k raw m n o h =
    let (t, a, e) =
      >>=-eq-ok (raise_if (has_skill prefix m) "create proposal targets an existing skill") _ h in
    let (files, b, f) = >>=-eq-ok (files_of (get_field "files" raw)) _ e in
    let (u, c, end) =
      >>=-eq-ok
        (raise_if (not (is_some (get_field "SKILL.md" files)))
          "created skill must include SKILL.md")
        _ f in
    create_files-outside prefix k files m n o end
edited-outside patch prefix k raw m n o h =
    let (t, a, e) =
      >>=-eq-ok (raise_if (not (has_skill prefix m)) "patch proposal targets a missing skill") _
        h in
    let (patches, b, end) = >>=-eq-ok (patches_of (get_field "patches" raw)) _ e in
    apply_patches-outside prefix k patches m n o end

same_texts-eq : (xs ys : List String) → same_texts xs ys ≡ true → xs ≡ ys
same_texts-eq [] [] h = refl
same_texts-eq [] (y ∷ ys) h = cc
same_texts-eq (x ∷ xs) [] h = cc
same_texts-eq (x ∷ xs) (y ∷ ys) h = ground (arith, same_texts-eq xs ys, eq_iff x y)

trace_ids_of-AreKnown :
    (v : Option Json) (available ids : List String)
    → trace_ids_of v available ≡ ok ids
    → (is_unique ids ≡ true) × (is_subset ids available ≡ true)
unfolding trace_ids_of
trace_ids_of-AreKnown (some (array items)) available ids h =
    let (found, a, e) = >>=-eq-ok (identifiers_of items "proposal trace_id") _ h in ground arith
trace_ids_of-AreKnown none available ids h = absurd (ground arith)
trace_ids_of-AreKnown (some Json.null) available ids h = absurd (ground arith)
trace_ids_of-AreKnown (some (Json.boolean b)) available ids h = absurd (ground arith)
trace_ids_of-AreKnown (some (Json.natural b)) available ids h = absurd (ground arith)
trace_ids_of-AreKnown (some (Json.negative b)) available ids h = absurd (ground arith)
trace_ids_of-AreKnown (some (Json.number b)) available ids h = absurd (ground arith)
trace_ids_of-AreKnown (some (Json.text b)) available ids h = absurd (ground arith)
trace_ids_of-AreKnown (some (Json.object b)) available ids h = absurd (ground arith)

module _ (g : FileDigests) (loads : List ℕ → Option Json) where
  -- What a changed snapshot has to do with the one before it.
  pub record IsConfined (p : Proposer) (name : String) (s : Snapshot) (origins : List String)
      : Type 0 where
    pub differs : str_eq s.snapshot_hash p.active_snapshot.snapshot_hash ≡ false
    pub untouched :
        (k : String)
        → IsOutside (skill_prefix name) k
        → lookup k (content_map s) ≡ lookup k (content_map p.active_snapshot)
    pub unmarked :
        (k : String) (c : Bytes)
        → lookup k (content_map s) ≡ some c
        → any (λ x. is_within x c) (markers_of p.forbidden_markers) ≡ false
    pub cited :
        purpose_origin_observations loads
          (lookup (str_append (skill_prefix name) "PURPOSE.md") (content_map s))
        ≡ ok origins

  candidate_of-IsConfined :
      (p : Proposer) (choice : Choice) (raw : Fields) (name : String) (origins : List String)
      (x : Snapshot × List String)
      → candidate_of g loads p choice raw name origins ≡ ok x
      → IsConfined p name x.0 x.1
  unfolding candidate_of
  candidate_of-IsConfined p choice raw name origins x h =
      let prefix = skill_prefix name in
      let contents = content_map p.active_snapshot in
      let purpose = str_append prefix "PURPOSE.md" in
      let (existing, a, h1) =
        >>=-eq-ok (purpose_origin_observations loads (lookup purpose contents)) _ h in
      let (t, b, h2) =
        >>=-eq-ok
          (raise_if (not (is_subset existing p.available_origin_observation_ids))
            "existing PURPOSE cites unavailable seed observations")
          _ h1 in
      let (next, c, h3) = >>=-eq-ok (edited choice prefix raw contents) _ h2 in
      let (candidate, d, h4) = >>=-eq-ok (from_mapping g next p.forbidden_markers) _ h3 in
      let (u, e, h5) =
        >>=-eq-ok
          (raise_if (str_eq candidate.snapshot_hash p.active_snapshot.snapshot_hash)
            "changed proposal produced no snapshot change")
          _ h4 in
      let (actual, f, h6) =
        >>=-eq-ok (purpose_origin_observations loads (lookup purpose (content_map candidate))) _
          h5 in
      let (v, i, end) =
        >>=-eq-ok
          (raise_if (not (same_texts actual (sorted_set (existing ++ origins))))
            "skill PURPOSE.md origin_observations differ from cited seed provenance")
          _ h6 in
      let same = ok-injective end in
      subst (λ z. IsConfined p name z.0 z.1) same
        (record {
          differs = ground arith;
          untouched = λ k o.
              (from_mapping-same g next p.forbidden_markers k candidate d).0
              ∙ edited-outside choice prefix k raw contents next o c;
          unmarked = λ k c' q. (from_mapping-same g next p.forbidden_markers k candidate d).1 c' q;
          cited =
              f
              ∙ ap (λ z. ok z)
                  (same_texts-eq actual (sorted_set (existing ++ origins)) (ground arith));
        })

  -- An accepted proposal changes nothing, or one skill.
  abbrev pub IsDecided : Proposer → ValidatedProposal → Type 0
  IsDecided p v =
      ((v.action ≡ no_action) × (v.snapshot ≡ p.active_snapshot))
      ⊎ ((name : String) × (v.skill_name ≡ some name)
          × (4 ≤ length v.trace_ids)
          × IsConfined p name v.snapshot v.origin_observation_ids)

  changed-IsDecided :
      (p : Proposer) (choice : Choice) (raw : Fields) (reason : String) (ids : List String)
      (v : ValidatedProposal)
      → 4 ≤ length ids
      → changed g loads p choice raw reason ids ≡ ok v
      → (v.trace_ids ≡ ids) × IsDecided p v
  unfolding changed
  changed-IsDecided p choice raw reason ids v l h =
      let (name, a, e) = >>=-eq-ok (skill_of (get_field "skill_name" raw)) _ h in
      let (origins, b, f) =
        >>=-eq-ok
          (origin_ids_of (get_field "origin_observation_ids" raw)
            p.available_origin_observation_ids)
          _ e in
      let (x, c, end) = >>=-eq-ok (candidate_of g loads p choice raw name origins) _ f in
      let confined = candidate_of-IsConfined p choice raw name origins x c in
      subst (λ z. (z.trace_ids ≡ ids) × IsDecided p z) (ok-injective end)
        (refl, inr (name, refl, l, confined))

  decided-IsDecided :
      (p : Proposer) (choice : Choice) (raw : Fields) (reason : String) (ids : List String)
      (v : ValidatedProposal)
      → (changes choice && ltb (length ids) 4) ≡ false
      → decided g loads p choice raw reason ids ≡ ok v
      → (v.trace_ids ≡ ids) × IsDecided p v
  unfolding decided
  decided-IsDecided p no_action raw reason ids v l h =
      subst (λ z. (z.trace_ids ≡ ids) × IsDecided p z) (ok-injective h) (refl, inl (refl, refl))
  decided-IsDecided p create raw reason ids v l h =
      changed-IsDecided p create raw reason ids v (ground arith) h
  decided-IsDecided p patch raw reason ids v l h =
      changed-IsDecided p patch raw reason ids v (ground arith) h

  validate_object-IsAccepted :
      (p : Proposer) (raw : Fields) (v : ValidatedProposal)
      → validate_object g loads p raw ≡ ok v
      → (is_unique v.trace_ids ≡ true)
        × ((s : String) → str_mem s v.trace_ids ≡ true → str_mem s p.available_trace_ids ≡ true)
        × IsDecided p v
  unfolding validate_object
  validate_object-IsAccepted p raw v h =
      let (choice, a, h1) = >>=-eq-ok (choice_of (get_field "action" raw)) _ h in
      let (t, b, h2) =
        >>=-eq-ok
          (raise_if (not (has_fields choice raw))
            "proposal fields differ from the selected action schema")
          _ h1 in
      let (u, c, h3) =
        >>=-eq-ok
          (raise_if (not (opt_is (text_of (get_field "context_hash" raw)) (g.sha256 p.context)))
            "proposal context hash does not match proposer input")
          _ h2 in
      let (reason, d, h4) = >>=-eq-ok (reason_of (get_field "reason" raw)) _ h3 in
      let (ids, e, h5) =
        >>=-eq-ok (trace_ids_of (get_field "trace_ids" raw) p.available_trace_ids) _ h4 in
      let (w, f, end) =
        >>=-eq-ok
          (raise_if (changes choice && ltb (length ids) 4)
            "changed proposal requires at least four unique train traces")
          _ h5 in
      let (unique, subset) =
        trace_ids_of-AreKnown (get_field "trace_ids" raw) p.available_trace_ids ids e in
      let (same, decision) = decided-IsDecided p choice raw reason ids v (ground arith) end in
      (
        ap is_unique same ∙ unique,
        λ s i.
            (is_subset_iff ids p.available_trace_ids).0 subset s
              (subst (λ z. str_mem s z ≡ true) same i),
        decision,
      )

  -- An accepted proposal cites traces that are available, none of them twice, and either takes no
  -- action and keeps the active snapshot, or cites at least four traces and changes one skill: the
  -- snapshot has another hash, every path that is not below the folder of the skill has the content
  -- that it had, no file holds a forbidden marker, and the skill's PURPOSE.md lists the
  -- observations that the proposal reports.
  pub validate_proposal-IsAccepted :
      (p : Proposer) (value : List ℕ) (v : ValidatedProposal)
      → validate_proposal g loads p value ≡ ok v
      → (is_unique v.trace_ids ≡ true)
        × ((s : String) → str_mem s v.trace_ids ≡ true → str_mem s p.available_trace_ids ≡ true)
        × IsDecided p v
  unfolding validate_proposal
  validate_proposal-IsAccepted p value v h = elim (Option-cases (loads value)) [
    | inl n ↦ absurd (ground arith)
    | inr (object raw, e) ↦ validate_object-IsAccepted p raw v (ground arith)
    | inr (_, e) ↦ absurd (ground arith)
  ]
