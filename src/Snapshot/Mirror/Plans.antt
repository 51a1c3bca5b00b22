-- ===== src/Snapshot/Mirror/Plans.antt =====
-- The plan of `mirror_rebuild_plan` of src/asme/snapshot.py, path by path.
use agentic_skills_lifecycle.Prelude.{
  ◌≡◌, ◌∙◌, inl, inr, refl, sym, ap, String, str_eq, eq_iff, true, false, Option, none, some, List,
  [], ◌∷◌, ok, ◌>>=◌, >>=-eq-ok, ok-injective, opt_is, str_mem, Dict, keys, lookup, has_key,
  put_key, sort_keys, is_unique, is_unique-put_key, is_unique-sort_keys, lookup-sort_keys, arith,
  Bool-cases, if◌then◌else◌,
}
use agentic_skills_lifecycle.Transaction.Records.{PlannedWrite, PlannedDeletion}
use agentic_skills_lifecycle.Snapshot.{FileDigests, SnapshotFile, Snapshot, planned_write}
use agentic_skills_lifecycle.Snapshot.Mirror.{
  Directory, scan_mirror, expected_from, expected_files, planned_deletion, rebuild_writes,
  rebuild_deletions, mirror_rebuild_plan,
}

-- The first write of a path, and the first deletion.
abbrev pub find_write : String → List PlannedWrite → Option PlannedWrite
find_write k [] = none
find_write k (w ∷ ws) = if str_eq w.path k then some w else find_write k ws

abbrev pub find_deletion : String → List PlannedDeletion → Option PlannedDeletion
find_deletion k [] = none
find_deletion k (x ∷ xs) = if str_eq x.path k then some x else find_deletion k xs

-- The deletion that a path needs: of a file of the mirror that is not one of the snapshot, with the
-- hash that it has.
abbrev pub deletion_for :
    String → String → Dict SnapshotFile → Option String → Option PlannedDeletion
deletion_for root k expected none = none
deletion_for root k expected (some h) =
    if has_key k expected
    then none
    else some (record { root = root; path = k; expected_sha256 = h })

deletion_for-expected :
    (root k : String) (expected : Dict SnapshotFile) (o : Option String)
    → has_key k expected ≡ true
    → deletion_for root k expected o ≡ none
deletion_for-expected root k expected none h = refl
deletion_for-expected root k expected (some d) h = ground arith

planned_deletion-eq :
    (root path digest : String) (x : PlannedDeletion)
    → planned_deletion root path digest ≡ ok x
    → record { root = root; path = path; expected_sha256 = digest } ≡ x
unfolding planned_deletion
planned_deletion-eq root path digest x h = ground arith

rebuild_deletions-find :
    (root k : String) (expected : Dict SnapshotFile) (m : Dict String) (xs : List PlannedDeletion)
    → rebuild_deletions root expected m ≡ ok xs
    → find_deletion k xs ≡ deletion_for root k expected (lookup k m)
unfolding rebuild_deletions lookup
rebuild_deletions-find root k expected [] xs h = ap (find_deletion k) (sym (ok-injective h))
rebuild_deletions-find root k expected ((path, digest) ∷ rest) xs h =
    elim (Bool-cases (has_key path expected)) [
      | inl e ↦
          let tail = rebuild_deletions-find root k expected rest xs (ground arith) in
          elim (Bool-cases (str_eq path k)) [
            | inl q ↦
                let same = ap (λ z. has_key z expected) (sym ((eq_iff path k).0 q)) ∙ e in
                tail
                ∙ deletion_for-expected root k expected (lookup k rest) same
                ∙ sym (
                    deletion_for-expected root k expected
                      (if str_eq path k then some digest else lookup k rest) same)
            | inr q ↦
                tail
                ∙ ap (λ b. deletion_for root k expected (if b then some digest else lookup k rest))
                    (sym q)
          ]
      | inr n ↦
          let next =
            λ (x : PlannedDeletion). rebuild_deletions root expected rest >>= λ ys. ok (x ∷ ys) in
          let (x, a, more) = >>=-eq-ok (planned_deletion root path digest) next (
            ap
              (λ b. elim b [
                | true ↦ rebuild_deletions root expected rest
                | false ↦ planned_deletion root path digest >>= next
              ])
              (sym n)
            ∙ h) in
          let (ys, b, end) =
            >>=-eq-ok (rebuild_deletions root expected rest) (λ ys. ok (x ∷ ys)) more in
          let here =
            ap (find_deletion k) (sym (ok-injective end))
            ∙ ap (λ z. if str_eq z.path k then some z else find_deletion k ys)
                (sym (planned_deletion-eq root path digest x a)) in
          elim (Bool-cases (str_eq path k)) [
            | inl q ↦
                let p = (eq_iff path k).0 q in
                let same = ap (λ z. has_key z expected) (sym p) ∙ n in
                here
                ∙ ap
                    (λ b.
                      if b
                      then some (record { root = root; path = path; expected_sha256 = digest })
                      else find_deletion k ys)
                    q
                ∙ ap (λ z. some (record { root = root; path = z; expected_sha256 = digest })) p
                ∙ ap
                    (λ b.
                      if b
                      then none
                      else some (record { root = root; path = k; expected_sha256 = digest }))
                    (sym same)
                ∙ ap (λ b. deletion_for root k expected (if b then some digest else lookup k rest))
                    (sym q)
            | inr q ↦
                here
                ∙ ap
                    (λ b.
                      if b
                      then some (record { root = root; path = path; expected_sha256 = digest })
                      else find_deletion k ys)
                    q
                ∙ rebuild_deletions-find root k expected rest ys b
                ∙ ap (λ b. deletion_for root k expected (if b then some digest else lookup k rest))
                    (sym q)
          ]
    ]

expected_from-is_unique :
    (m : Dict SnapshotFile) (fs : List SnapshotFile)
    → is_unique (keys m) ≡ true
    → is_unique (keys (expected_from m fs)) ≡ true
unfolding expected_from
expected_from-is_unique m [] u = u
expected_from-is_unique m (f ∷ fs) u =
    expected_from-is_unique (put_key f.path f m) fs (is_unique-put_key f.path f m u)

lookup-absent :
    (k : String) (m : Dict SnapshotFile) → str_mem k (keys m) ≡ false → lookup k m ≡ none
unfolding lookup
lookup-absent k [] h = refl
lookup-absent k ((j, f) ∷ m) h = ground (arith, lookup-absent k m)

module _ (g : FileDigests) where
  -- A write of the bytes of a file over what the mirror has at its path.
  abbrev write_of : String → String → SnapshotFile → Option String → PlannedWrite
  write_of root path f before = record {
    root = root;
    path = path;
    content_base64 = g.encode_base64 f.content;
    content_sha256 = g.sha256 f.content;
    expected_before_sha256 = before;
    mode = 384;
    allow_existing_identical = false;
  }

  -- The write that a path needs: of a file of the snapshot that the mirror does not have with its
  -- hash, over the one that the mirror has.
  abbrev pub write_for : String → String → Option SnapshotFile → Option String → Option PlannedWrite
  write_for root k none before = none
  write_for root k (some f) before =
      if opt_is before f.sha256 then none else some (write_of root k f before)

  planned_write-eq :
      (root path : String) (f : SnapshotFile) (before : Option String) (w : PlannedWrite)
      → planned_write g root path f.content before 384 false ≡ ok w
      → write_of root path f before ≡ w
  unfolding planned_write
  planned_write-eq root path f before w h = ground arith

  rebuild_writes-find :
      (root k : String) (actual : Dict String) (m : Dict SnapshotFile) (ws : List PlannedWrite)
      → rebuild_writes g root actual m ≡ ok ws
      → is_unique (keys m) ≡ true
      → find_write k ws ≡ write_for root k (lookup k m) (lookup k actual)
  unfolding rebuild_writes lookup
  rebuild_writes-find root k actual [] ws h u = ap (find_write k) (sym (ok-injective h))
  rebuild_writes-find root k actual ((path, f) ∷ rest) ws h u =
      elim (Bool-cases (opt_is (lookup path actual) f.sha256)) [
        | inl e ↦
            let tail = rebuild_writes-find root k actual rest ws (ground arith) (ground arith) in
            elim (Bool-cases (str_eq path k)) [
              | inl q ↦
                  let p = (eq_iff path k).0 q in
                  let gone =
                    lookup-absent k rest (ap (λ z. str_mem z (keys rest)) (sym p) ∙ ground arith) in
                  tail
                  ∙ ap (λ z. write_for root k z (lookup k actual)) gone
                  ∙ ap (λ b. if b then none else some (write_of root k f (lookup k actual)))
                      (sym (ap (λ z. opt_is (lookup z actual) f.sha256) (sym p) ∙ e))
                  ∙ ap
                      (λ b.
                        write_for root k (if b then some f else lookup k rest) (lookup k actual))
                      (sym q)
              | inr q ↦
                  tail
                  ∙ ap
                      (λ b.
                        write_for root k (if b then some f else lookup k rest) (lookup k actual))
                      (sym q)
            ]
        | inr n ↦
            let write = planned_write g root path f.content (lookup path actual) 384 false in
            let next =
              λ (w : PlannedWrite). rebuild_writes g root actual rest >>= λ vs. ok (w ∷ vs) in
            let (w, a, more) = >>=-eq-ok write next (
              ap (λ b. elim b [ true ↦ rebuild_writes g root actual rest | false ↦ write >>= next ])
                (sym n)
              ∙ h) in
            let (vs, b, end) =
              >>=-eq-ok (rebuild_writes g root actual rest) (λ vs. ok (w ∷ vs)) more in
            let here =
              ap (find_write k) (sym (ok-injective end))
              ∙ ap (λ z. if str_eq z.path k then some z else find_write k vs)
                  (sym (planned_write-eq root path f (lookup path actual) w a)) in
            elim (Bool-cases (str_eq path k)) [
              | inl q ↦
                  let p = (eq_iff path k).0 q in
                  here
                  ∙ ap
                      (λ b.
                        if b
                        then some (write_of root path f (lookup path actual))
                        else find_write k vs)
                      q
                  ∙ ap (λ z. some (write_of root z f (lookup z actual))) p
                  ∙ ap (λ b. if b then none else some (write_of root k f (lookup k actual)))
                      (sym (ap (λ z. opt_is (lookup z actual) f.sha256) (sym p) ∙ n))
                  ∙ ap
                      (λ b.
                        write_for root k (if b then some f else lookup k rest) (lookup k actual))
                      (sym q)
              | inr q ↦
                  here
                  ∙ ap
                      (λ b.
                        if b
                        then some (write_of root path f (lookup path actual))
                        else find_write k vs)
                      q
                  ∙ rebuild_writes-find root k actual rest vs b (ground arith)
                  ∙ ap
                      (λ b.
                        write_for root k (if b then some f else lookup k rest) (lookup k actual))
                      (sym q)
            ]
      ]

  -- What the plan of a mirror has at each path. Its first write there is that of the snapshot's
  -- file, with the hash that the mirror has there as the expected one; it has one exactly where the
  -- snapshot has a file and the mirror does not have the file's hash. Its first deletion there is of
  -- the mirror's file, with its hash as the expected one; it has one exactly where the mirror has a
  -- file and the snapshot has none. Both are below the given root. Whether the engine can make the
  -- plan is not stated.
  pub mirror_rebuild_plan-plans :
      (mirror : Directory) (s : Snapshot) (root : String) (ws : List PlannedWrite)
      (xs : List PlannedDeletion)
      → mirror_rebuild_plan g mirror s root ≡ ok (ws, xs)
      → (actual : Dict String) × (scan_mirror mirror ≡ ok actual)
        × ((k : String)
            → (find_write k ws ≡ write_for root k (lookup k (expected_files s)) (lookup k actual))
              × (find_deletion k xs ≡ deletion_for root k (expected_files s) (lookup k actual)))
  unfolding mirror_rebuild_plan expected_files
  mirror_rebuild_plan-plans mirror s root ws xs h =
      let expected = expected_files s in
      let plan_of = λ (actual : Dict String).
        rebuild_writes g root actual (sort_keys expected) >>= λ writes.
        rebuild_deletions root expected (sort_keys actual) >>= λ deletions.
        ok (writes, deletions) in
      let (actual, a, rest) = >>=-eq-ok (scan_mirror mirror) plan_of h in
      let (vs, b, more) =
        >>=-eq-ok (rebuild_writes g root actual (sort_keys expected))
          (λ writes. rebuild_deletions root expected (sort_keys actual) >>= λ deletions.
            ok (writes, deletions))
          rest in
      let (ys, c, end) =
        >>=-eq-ok (rebuild_deletions root expected (sort_keys actual))
          (λ deletions. ok (vs, deletions)) more in
      let same = ok-injective end in
      let unique = is_unique-sort_keys expected (expected_from-is_unique [] s.files refl) in
      (
        actual,
        a,
        λ k. (
          ap (λ z. find_write k z.0) (sym same)
              ∙ rebuild_writes-find root k actual (sort_keys expected) vs b unique
              ∙ ap (λ z. write_for root k z (lookup k actual)) (lookup-sort_keys k expected),
          ap (λ z. find_deletion k z.1) (sym same)
              ∙ rebuild_deletions-find root k expected (sort_keys actual) ys c
              ∙ ap (deletion_for root k expected) (lookup-sort_keys k actual),
        ),
      )
