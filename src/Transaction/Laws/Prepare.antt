-- ===== src/Transaction/Laws/Prepare.antt =====
-- What `execute` of src/asme/transaction.py does to the disk before its record is built.
use agentic_skills_lifecycle.Prelude.{
  Option-cases, str_append, ◌≡◌, ◌∙◌, inl, inr, refl, sym, ap, String, Option, some, List, [], ◌∷◌,
  ◌++◌, ok, arith, Dict,
}
use agentic_skills_lifecycle.Transaction.Records.{
  PlannedWrite, PlannedDeletion, PlannedRead, PlannedAbsence, TransactionRecord,
}
use agentic_skills_lifecycle.Transaction.Disk.{
  Digests, Key, Disk, DiskState, Action, ◌>>=◌, ◌>>◌, lift, gets,
}
use agentic_skills_lifecycle.Transaction.Validate.{write_keys, delete_keys}
use agentic_skills_lifecycle.Transaction.Tree.{Tree, missing, regular, look}
use agentic_skills_lifecycle.Transaction.Materialize.{target}
use agentic_skills_lifecycle.Transaction.Materialize.{Engine}
use agentic_skills_lifecycle.Transaction.Replay.{read_state}
use agentic_skills_lifecycle.Transaction.Request.{
  Request, PlanDigests, normalized_hashes, validate_dependency_bindings, validate_hash_map,
  validate_value_preconditions,
}
use agentic_skills_lifecycle.Transaction.Preconditions.{
  check_key, check_keys, check_before, check_write, check_writes, check_file, check_deletion,
  check_deletions, check_read, check_reads, check_tree, check_trees, check_absence, check_absences,
  validate_plan_preconditions,
}
use agentic_skills_lifecycle.Transaction.Execute.{
  build_record, plan_record, check_current, prepare, fingerprints, touched_roots,
}
use agentic_skills_lifecycle.Transaction.Laws.Actions.{outcome-cases, bind-ok, bind-err, bind-cases}

-- A call that leaves the disk as it is.
abbrev pub IsReader : {A : Type 0} → Action A → Type 0
IsReader m = (d : Disk) → (m d).1 ≡ d

-- A call whose value, where it returns one, has a property.
abbrev pub HasReturns : {A : Type 0} → (A → Type 0) → Action A → Type 0
HasReturns {A = A} P m = (d d' : Disk) (a : A) → m d ≡ (ok a, d') → P a

bind-IsReader :
    {A B : Type 0} (m : Action A) (f : A → Action B)
    → IsReader m
    → ((a : A) → IsReader (f a))
    → IsReader (m >>= f)
bind-IsReader m f h k d = elim (outcome-cases (m d)) [
  | inl (a, e, q) ↦ ap (λ z. z.1) (bind-ok m f d e a q) ∙ k a e ∙ sym (ap (λ z. z.1) q) ∙ h d
  | inr (c, e, q) ↦ ap (λ z. z.1) (bind-err m f d e c q) ∙ sym (ap (λ z. z.1) q) ∙ h d
]

then-IsReader :
    {B : Type 0} (m : Action (Unit {0})) (k : Action B)
    → IsReader m
    → IsReader k
    → IsReader (m >> k)
then-IsReader m k h j = bind-IsReader m (λ t. k) h (λ t. j)

bind-HasReturns :
    {A B : Type 0} (P : B → Type 0) (m : Action A) (f : A → Action B)
    → ((a : A) → HasReturns P (f a))
    → HasReturns P (m >>= f)
bind-HasReturns P m f k d d' b h = elim (bind-cases m f d d' (ok b) h) [
  | inl (a, e, q, rest) ↦ k a e d' b rest
  | inr (c, q, x) ↦ absurd (ground arith)
]

then-HasReturns :
    {B : Type 0} (P : B → Type 0) (m : Action (Unit {0})) (k : Action B)
    → HasReturns P k
    → HasReturns P (m >> k)
then-HasReturns P m k h = bind-HasReturns P m (λ t. k) (λ t. h)

-- A check that returned, and the steps after it.
pub bind-reads :
    {A B : Type 0} (m : Action A) (f : A → Action B) (d d' : Disk) (b : B)
    → IsReader m
    → (m >>= f) d ≡ (ok b, d')
    → (a : A) × (m d ≡ (ok a, d)) × (f a d ≡ (ok b, d'))
bind-reads m f d d' b r h = elim (bind-cases m f d d' (ok b) h) [
  | inl (a, e, q, rest) ↦
      let same = sym (ap (λ z. z.1) q) ∙ r d in
      (a, q ∙ ap (λ z. (ok a, z)) same, ap (f a) (sym same) ∙ rest)
  | inr (c, q, x) ↦ absurd (ground arith)
]

pub then-reads :
    {B : Type 0} (m : Action (Unit {0})) (k : Action B) (d d' : Disk) (b : B)
    → IsReader m
    → (m >> k) d ≡ (ok b, d')
    → (m d ≡ (ok tt, d)) × (k d ≡ (ok b, d'))
then-reads m k d d' b r h = let (t, a, rest) = bind-reads m (λ t. k) d d' b r h in (a, rest)

module _ (g : Digests) (plan : PlanDigests) (engine : Engine) where
  target-IsReader : (root member : String) → IsReader (target g engine root member)
  unfolding target
  target-IsReader root member d = ground arith

  check_key-IsReader : (seen : List Key) (k : Key) → IsReader (check_key g plan engine seen k)
  unfolding check_key
  check_key-IsReader seen k d = ground arith

  pub check_keys-IsReader : (seen ks : List Key) → IsReader (check_keys g plan engine seen ks)
  unfolding check_keys
  check_keys-IsReader seen [] d = refl
  check_keys-IsReader seen (k ∷ ks) d =
      then-IsReader (check_key g plan engine seen k) (check_keys g plan engine (k ∷ seen) ks)
        (check_key-IsReader seen k) (check_keys-IsReader (k ∷ seen) ks) d

  -- A check of what stands at a path.
  looked-IsReader :
      {B : Type 0} (root member : String) (f : Tree → Action B)
      → ((n : Tree) → IsReader (f n))
      → IsReader (target g engine root member >>= (λ k. gets (λ d. look k d.tree) >>= f))
  looked-IsReader root member f h =
      bind-IsReader (target g engine root member) (λ k. gets (λ d. look k d.tree) >>= f)
        (target-IsReader root member) (λ k d. h (look k d.tree) d)

  check_before-IsReader : (w : PlannedWrite) (n : Tree) → IsReader (check_before g plan engine w n)
  unfolding check_before
  check_before-IsReader w missing d = refl
  check_before-IsReader w (regular old) d = refl
  check_before-IsReader w _ d = refl

  check_file-IsReader : (a b c : String) (n : Tree) → IsReader (check_file g plan engine a b c n)
  unfolding check_file
  check_file-IsReader a b c (regular old) d = refl
  check_file-IsReader a b c _ d = refl

  pub check_write-IsReader : (w : PlannedWrite) → IsReader (check_write g plan engine w)
  unfolding check_write
  check_write-IsReader w =
      looked-IsReader w.root w.path (check_before g plan engine w) (check_before-IsReader w)

  pub check_writes-IsReader : (ws : List PlannedWrite) → IsReader (check_writes g plan engine ws)
  unfolding check_writes
  check_writes-IsReader [] d = refl
  check_writes-IsReader (w ∷ ws) d =
      then-IsReader (check_write g plan engine w) (check_writes g plan engine ws)
        (check_write-IsReader w) (check_writes-IsReader ws) d

  pub check_deletion-IsReader : (x : PlannedDeletion) → IsReader (check_deletion g plan engine x)
  unfolding check_deletion
  check_deletion-IsReader x =
      let missing = str_append "planned deletion target is missing or unsafe: " x.path in
      let drifted = str_append "planned deletion precondition failed: " x.path in
      looked-IsReader x.root x.path (check_file g plan engine x.expected_sha256 missing drifted)
        (check_file-IsReader x.expected_sha256 missing drifted)

  pub check_deletions-IsReader :
      (xs : List PlannedDeletion) → IsReader (check_deletions g plan engine xs)
  unfolding check_deletions
  check_deletions-IsReader [] d = refl
  check_deletions-IsReader (x ∷ xs) d =
      then-IsReader (check_deletion g plan engine x) (check_deletions g plan engine xs)
        (check_deletion-IsReader x) (check_deletions-IsReader xs) d

  check_read-IsReader : (x : PlannedRead) → IsReader (check_read g plan engine x)
  unfolding check_read target
  check_read-IsReader x d = ground (arith, check_file-IsReader x.expected_sha256)

  check_tree-IsReader : (x : PlannedRead) → IsReader (check_tree g plan engine x)
  unfolding check_tree target
  check_tree-IsReader x d = ground arith

  check_absence-IsReader : (x : PlannedAbsence) → IsReader (check_absence g plan engine x)
  unfolding check_absence target
  check_absence-IsReader x d = ground arith

  check_reads-IsReader : (xs : List PlannedRead) → IsReader (check_reads g plan engine xs)
  unfolding check_reads
  check_reads-IsReader [] d = refl
  check_reads-IsReader (x ∷ xs) d =
      then-IsReader (check_read g plan engine x) (check_reads g plan engine xs)
        (check_read-IsReader x) (check_reads-IsReader xs) d

  check_trees-IsReader : (xs : List PlannedRead) → IsReader (check_trees g plan engine xs)
  unfolding check_trees
  check_trees-IsReader [] d = refl
  check_trees-IsReader (x ∷ xs) d =
      then-IsReader (check_tree g plan engine x) (check_trees g plan engine xs)
        (check_tree-IsReader x) (check_trees-IsReader xs) d

  check_absences-IsReader : (xs : List PlannedAbsence) → IsReader (check_absences g plan engine xs)
  unfolding check_absences
  check_absences-IsReader [] d = refl
  check_absences-IsReader (x ∷ xs) d =
      then-IsReader (check_absence g plan engine x) (check_absences g plan engine xs)
        (check_absence-IsReader x) (check_absences-IsReader xs) d

  pub validate_plan_preconditions-IsReader :
      (q : Request) → IsReader (validate_plan_preconditions g plan engine q)
  unfolding validate_plan_preconditions
  validate_plan_preconditions-IsReader q =
      let ws = check_writes g plan engine q.writes in
      let ds = check_deletions g plan engine q.deletions in
      let rs = check_reads g plan engine q.reads in
      let ts = check_trees g plan engine q.tree_reads in
      let as' = check_absences g plan engine q.absences in
      let ks = write_keys q.writes ++ delete_keys q.deletions in
      then-IsReader (check_keys g plan engine [] ks) (ws >> (ds >> (rs >> (ts >> as'))))
        (check_keys-IsReader [] ks)
        (then-IsReader ws (ds >> (rs >> (ts >> as'))) (check_writes-IsReader q.writes) (
          then-IsReader ds (rs >> (ts >> as')) (check_deletions-IsReader q.deletions) (
            then-IsReader rs (ts >> as') (check_reads-IsReader q.reads) (
              then-IsReader ts as' (check_trees-IsReader q.tree_reads)
                (check_absences-IsReader q.absences)))))

  pub read_state-IsReader : IsReader (read_state g engine)
  unfolding read_state
  read_state-IsReader d = ground arith

  plan_record-IsReader :
      (q : Request) (hashes : Dict String) → IsReader (plan_record g plan engine q hashes)
  unfolding plan_record
  plan_record-IsReader q hashes =
      let bindings = lift (validate_dependency_bindings g plan q hashes) in
      let shape = lift (validate_hash_map g plan hashes) in
      let values = lift (validate_value_preconditions g plan q.values hashes) in
      let checks = validate_plan_preconditions g plan engine q in
      let built = lift (build_record g plan engine q hashes) in
      then-IsReader bindings (shape >> (values >> (checks >> built))) (λ d. refl)
        (then-IsReader shape (values >> (checks >> built)) (λ d. refl)
          (then-IsReader values (checks >> built) (λ d. refl)
            (then-IsReader checks built (validate_plan_preconditions-IsReader q) (λ d. refl))))

  pub check_current-IsReader :
      (q : Request) (s : Option DiskState) → IsReader (check_current g plan engine q s)
  unfolding check_current
  check_current-IsReader q s d = ground arith

  -- What `execute` does before its record is validated leaves the disk as it is.
  pub prepare-IsReader : (q : Request) (s : Option DiskState) → IsReader (prepare g plan engine q s)
  unfolding prepare
  prepare-IsReader q s =
      let hashes = lift (normalized_hashes g plan q) in
      then-IsReader (check_current g plan engine q s) (hashes >>= plan_record g plan engine q)
        (check_current-IsReader q s)
        (bind-IsReader hashes (plan_record g plan engine q) (λ d. refl) (plan_record-IsReader q))

  -- What a record takes over from its request.
  pub record IsRecordOf (q : Request) (r : TransactionRecord) : Type 0 where
    pub own_domain : r.domain_id ≡ engine.domain_id
    pub own_reads : r.reads ≡ q.reads
    pub own_tree_reads : r.tree_reads ≡ q.tree_reads
    pub own_absences : r.absences ≡ q.absences
    pub own_writes : r.writes ≡ q.writes
    pub own_deletions : r.deletions ≡ q.deletions
    pub own_roots : fingerprints engine.roots (touched_roots q) ≡ some r.target_roots

  build_record-IsRecordOf :
      (q : Request) (hashes : Dict String) (r : TransactionRecord)
      → build_record g plan engine q hashes ≡ ok r
      → IsRecordOf q r
  unfolding build_record
  build_record-IsRecordOf q hashes r h =
      elim (Option-cases (fingerprints engine.roots (touched_roots q))) [
        | inl n ↦ absurd (ground arith)
        | inr (t, e) ↦ ground arith
      ]

  plan_record-IsRecordOf :
      (q : Request) (hashes : Dict String)
      → HasReturns (IsRecordOf q) (plan_record g plan engine q hashes)
  unfolding plan_record
  plan_record-IsRecordOf q hashes =
      let bindings = lift (validate_dependency_bindings g plan q hashes) in
      let shape = lift (validate_hash_map g plan hashes) in
      let values = lift (validate_value_preconditions g plan q.values hashes) in
      let checks = validate_plan_preconditions g plan engine q in
      let built = lift (build_record g plan engine q hashes) in
      then-HasReturns (IsRecordOf q) bindings (shape >> (values >> (checks >> built))) (
        then-HasReturns (IsRecordOf q) shape (values >> (checks >> built)) (
          then-HasReturns (IsRecordOf q) values (checks >> built) (
            then-HasReturns (IsRecordOf q) checks built
              (λ d d' r h. build_record-IsRecordOf q hashes r (ap (λ z. z.0) h)))))

  pub prepare-IsRecordOf :
      (q : Request) (s : Option DiskState) → HasReturns (IsRecordOf q) (prepare g plan engine q s)
  unfolding prepare
  prepare-IsRecordOf q s =
      let hashes = lift (normalized_hashes g plan q) in
      then-HasReturns (IsRecordOf q) (check_current g plan engine q s)
        (hashes >>= plan_record g plan engine q)
        (bind-HasReturns (IsRecordOf q) hashes (plan_record g plan engine q)
          (plan_record-IsRecordOf q))
