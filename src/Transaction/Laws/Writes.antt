-- ===== src/Transaction/Laws/Writes.antt =====
-- One planned effect of src/asme/transaction.py, repeated or after another one.
use agentic_skills_lifecycle.Prelude.{
  ◌≡◌, ◌∙◌, refl, sym, ap, inl, inr, String, ◌⊎◌, ◌≢◌, Bool-cases, str_append, str_eq, Bool, true,
  false, not, ◌||◌, Option, none, some, Result, ok, err, is_ok, arith, Option-cases, is_some,
  opt_is, subst,
}
use agentic_skills_lifecycle.Transaction.Records.{PlannedWrite, PlannedDeletion}
use agentic_skills_lifecycle.Canonical.{safe_member_name}
use agentic_skills_lifecycle.Transaction.Tree.{
  Location, Tree, missing, linked, special, regular, directory, look, has_link, is_open, write_at,
  same_path, bytes_of, is_prefix,
}
use agentic_skills_lifecycle.Transaction.Disk.{
  Digests, Disk, Failure, crashed, contract, corruption, system, CrashPoint,
}
use agentic_skills_lifecycle.Transaction.Materialize.{
  Engine, root_names, is_root, parts_of, is_empty, state_path, locate, target, content,
  ensure_safe_parent, write_file, write_over, materialize_write,
}
use agentic_skills_lifecycle.Transaction.Laws.Trees.{
  has_link-write_at, bytes-write_at, look-write_at, is_free,
}

module _ (g : Digests) (engine : Engine) where
  -- A regular file with the given hash.
  abbrev pub has_hash : String → Option String → Bool
  has_hash h none = false
  has_hash h (some c) = str_eq (g.sha256 c) h

  -- Where a write or a deletion takes place, and the bytes of the regular file there.
  abbrev pub write_path : PlannedWrite → Location
  write_path w = locate g engine w.root w.path

  abbrev pub delete_path : PlannedDeletion → Location
  delete_path x = locate g engine x.root x.path

  abbrev pub bytes_at : Location → Disk → Option String
  bytes_at k d = bytes_of (look k d.tree)

  -- The output of a write is there, and its path and its content pass their checks.
  pub record IsWritten (w : PlannedWrite) (d : Disk) : Type 0 where
    pub reachable : is_ok (target g engine w.root w.path d).0 ≡ true
    pub readable : is_ok (content g w) ≡ true
    pub hashed : has_hash w.content_sha256 (bytes_at (write_path w) d) ≡ true

  pub record IsRemoved (x : PlannedDeletion) (d : Disk) : Type 0 where
    pub reachable : is_ok (target g engine x.root x.path d).0 ≡ true
    pub gone : look (delete_path x) d.tree ≡ missing

  -- Two disks that differ in the regular files and the directories at most.
  pub record SameControl (d e : Disk) : Type 0 where
    pub same_state : e.state_file ≡ d.state_file
    pub same_intent : e.intent_file ≡ d.intent_file
    pub same_links : (k : Location) → has_link k e.tree ≡ has_link k d.tree

  pub SameControl-refl : (d : Disk) → SameControl d d
  SameControl-refl d = record { same_state = refl; same_intent = refl; same_links = λ k. refl }

  -- A failure that is no crash of the process.
  abbrev pub IsError : Failure → Type 0
  IsError e = (q : CrashPoint) → e ≢ crashed q

  pub target-cases :
      (root member : String) (d : Disk)
      → (target g engine root member d ≡ (ok (locate g engine root member), d))
        ⊎ ((e : Failure) × (target g engine root member d ≡ (err e, d)) × IsError e)
  unfolding target
  target-cases root member d = elim (Bool-cases (is_ok (safe_member_name member))) [
    | inr a ↦ inr (contract "unsafe archive member", ground arith, λ q h. ground arith)
    | inl a ↦ elim (Bool-cases (is_root g engine root (root_names engine.roots))) [
      | inr b ↦ inr (
        corruption (str_append "transaction references unknown root: " root),
        ground arith,
        λ q h. ground arith,
      )
      | inl b ↦ elim (Bool-cases (has_link (locate g engine root member) d.tree)) [
        | inl c ↦ inr (contract "symlink component forbidden", ground arith, λ q h. ground arith)
        | inr c ↦ inl (ground arith)
      ]
    ]
  ]

  pub content-cases :
      (w : PlannedWrite)
      → ((c : String) × (content g w ≡ ok c) × (str_eq (g.sha256 c) w.content_sha256 ≡ true))
        ⊎ ((e : Failure) × (content g w ≡ err e) × IsError e)
  unfolding content
  content-cases w = elim (Option-cases (g.decode_base64 w.content_base64)) [
    | inl n ↦
        inr (corruption "planned write contains invalid base64", ground arith, λ q h. ground arith)
    | inr (c, n) ↦ elim (Bool-cases (str_eq (g.sha256 c) w.content_sha256)) [
      | inl b ↦ inl (c, ground arith, b)
      | inr b ↦
          inr (corruption "planned write content hash mismatch", ground arith, λ q h. ground arith)
    ]
  ]

  ensure-cases :
      (root member : String) (d : Disk)
      → ((ensure_safe_parent g engine root member d ≡ (ok tt, d))
          × (is_open (locate g engine root member) d.tree ≡ true))
        ⊎ ((e : Failure) × (ensure_safe_parent g engine root member d ≡ (err e, d)) × IsError e)
  unfolding ensure_safe_parent
  ensure-cases root member d = elim (Bool-cases (is_empty (parts_of member))) [
    | inl a ↦ inr (system "ValueError", ground arith, λ q h. ground arith)
    | inr a ↦ elim (Bool-cases (is_open (engine.place root) d.tree)) [
      | inr b ↦ inr (system "OSError", ground arith, λ q h. ground arith)
      | inl b ↦
          elim (Bool-cases (
            not (is_open (locate g engine root member) d.tree)
            || is_prefix (state_path g engine) (locate g engine root member))) [
              | inl c ↦ inr (
                corruption "symlink or non-directory parent forbidden",
                ground arith,
                λ q h. ground arith,
              )
              | inr c ↦ inl (ground arith, ground arith)
            ]
    ]
  ]

  pub target-links :
      (root member : String) (d e : Disk)
      → ((k : Location) → has_link k e.tree ≡ has_link k d.tree)
      → is_ok (target g engine root member d).0 ≡ true
      → is_ok (target g engine root member e).0 ≡ true
  unfolding target
  target-links root member d e l h = let s = l (locate g engine root member) in ground arith

  -- The disk with the output of a write.
  abbrev pub with_output : PlannedWrite → String → Disk → Disk
  with_output w c d = record d { tree = write_at (write_path w) c d.tree }

  -- How a write goes: the output is there, or it is made, or the write is refused.
  abbrev pub Outcome : PlannedWrite → Disk → Result Failure (Unit {0}) × Disk → Type 0
  Outcome w d r =
      ((r ≡ (ok tt, d)) × IsWritten w d)
      ⊎ ((c : String) × (r ≡ (ok tt, with_output w c d)) × IsWritten w (with_output w c d))
      ⊎ ((e : Failure) × (r ≡ (err e, d)) × IsError e)

  write_file-Outcome :
      (w : PlannedWrite) (c : String) (d : Disk)
      → is_ok (target g engine w.root w.path d).0 ≡ true
      → content g w ≡ ok c
      → str_eq (g.sha256 c) w.content_sha256 ≡ true
      → is_free (look (write_path w) d.tree) ≡ true
      → Outcome w d (write_file g engine w (write_path w) c d)
  unfolding write_file
  write_file-Outcome w c d t r h f = elim (ensure-cases w.root w.path d) [
    | inr (e, a, n) ↦ inr (inr (e, ground arith, n))
    | inl (a, o) ↦
        let made = look-write_at (write_path w) c d.tree o f in
        inr (
          inl (
            c,
            ground arith,
            record {
              reachable =
                  target-links w.root w.path d (with_output w c d)
                    (λ k. has_link-write_at k (write_path w) c d.tree) t;
              readable = ap is_ok r;
              hashed = ap (λ z. has_hash w.content_sha256 (bytes_of z)) made ∙ h;
            },
          ))
  ]

  write_over-Outcome :
      (w : PlannedWrite) (c : String) (d : Disk) (n : Tree)
      → look (write_path w) d.tree ≡ n
      → is_ok (target g engine w.root w.path d).0 ≡ true
      → content g w ≡ ok c
      → str_eq (g.sha256 c) w.content_sha256 ≡ true
      → Outcome w d (write_over g engine w (write_path w) c n d)
  unfolding write_over
  write_over-Outcome w c d missing n t r h = elim (Bool-cases (is_some w.expected_before_sha256)) [
    | inl a ↦ inr (
        inr (
          corruption (str_append "planned replacement disappeared after intent: " w.path),
          ground arith,
          λ q z. ground arith,
        ))
    | inr a ↦ subst (Outcome w d) (ground arith) (write_file-Outcome w c d t r h (ap is_free n))
  ]
  write_over-Outcome w c d (regular old) n t r h =
      elim (Bool-cases (str_eq (g.sha256 old) w.content_sha256)) [
        | inl a ↦ inl (
          ground arith,
          record {
            reachable = t;
            readable = ap is_ok r;
            hashed = ap (λ z. has_hash w.content_sha256 (bytes_of z)) n ∙ a;
          },
        )
        | inr a ↦ elim (Bool-cases (opt_is w.expected_before_sha256 (g.sha256 old))) [
          | inr b ↦ inr (
              inr (
                corruption (str_append "planned output drifted after intent: " w.path),
                ground arith,
                λ q z. ground arith,
              ))
          | inl b ↦
              subst (Outcome w d) (ground arith) (write_file-Outcome w c d t r h (ap is_free n))
        ]
      ]
  write_over-Outcome w c d _ n t r h = inr (
      inr (
        corruption (str_append "planned output is not a regular file: " w.path),
        refl,
        λ q z. ground arith,
      ))

  pub materialize_write-Outcome :
      (w : PlannedWrite) (d : Disk) → Outcome w d (materialize_write g engine w d)
  unfolding materialize_write
  materialize_write-Outcome w d = elim (target-cases w.root w.path d) [
    | inr (e, a, n) ↦ inr (inr (e, ground arith, n))
    | inl a ↦ elim (content-cases w) [
      | inr (e, b, n) ↦ inr (inr (e, ground arith, n))
      | inl (c, b, h) ↦
          subst (Outcome w d) (ground arith)
            (write_over-Outcome w c d (look (write_path w) d.tree) refl (ap (λ z. is_ok z.0) a) b h)
    ]
  ]

  -- A write that succeeds is there afterwards.
  pub materialize_write-IsWritten :
      (w : PlannedWrite) (d d' : Disk)
      → materialize_write g engine w d ≡ (ok tt, d')
      → IsWritten w d'
  materialize_write-IsWritten w d d' h = elim (materialize_write-Outcome w d) [
    | inl (a, x) ↦ subst (IsWritten w) (ap (λ z. z.1) (sym a ∙ h)) x
    | inr (inl (c, a, x)) ↦ subst (IsWritten w) (ap (λ z. z.1) (sym a ∙ h)) x
    | inr (inr (e, a, n)) ↦ absurd (ground arith)
  ]

  -- A write crashes by itself nowhere.
  pub materialize_write-quiet :
      (w : PlannedWrite) (d d' : Disk) (q : CrashPoint)
      → materialize_write g engine w d ≢ (err (crashed q), d')
  materialize_write-quiet w d d' q h = elim (materialize_write-Outcome w d) [
    | inl (a, x) ↦ absurd (ground arith)
    | inr (inl (c, a, x)) ↦ absurd (ground arith)
    | inr (inr (e, a, n)) ↦ n q (ground arith)
  ]

  -- What is there is not written again.
  pub IsWritten-again :
      (w : PlannedWrite) (d : Disk) → IsWritten w d → materialize_write g engine w d ≡ (ok tt, d)
  unfolding materialize_write write_over
  IsWritten-again w d h = elim (target-cases w.root w.path d) [
    | inr (e, a, n) ↦ let r = h.reachable in absurd (ground arith)
    | inl a ↦ elim (content-cases w) [
      | inr (e, b, n) ↦ let r = h.readable in absurd (ground arith)
      | inl (c, b, s) ↦ go c a b (look (write_path w) d.tree) refl
    ]
  ]
    where
      go :
          (c : String)
          → target g engine w.root w.path d ≡ (ok (write_path w), d)
          → content g w ≡ ok c
          → (n : Tree) → look (write_path w) d.tree ≡ n
          → materialize_write g engine w d ≡ (ok tt, d)
      go c a b (regular old) n =
          let s = ap (λ z. has_hash w.content_sha256 (bytes_of z)) (sym n) ∙ h.hashed in
          ground arith
      go c a b missing n =
          let s = ap (λ z. has_hash w.content_sha256 (bytes_of z)) (sym n) ∙ h.hashed in
          absurd (ground arith)
      go c a b linked n =
          let s = ap (λ z. has_hash w.content_sha256 (bytes_of z)) (sym n) ∙ h.hashed in
          absurd (ground arith)
      go c a b special n =
          let s = ap (λ z. has_hash w.content_sha256 (bytes_of z)) (sym n) ∙ h.hashed in
          absurd (ground arith)
      go c a b (directory f) n =
          let s = ap (λ z. has_hash w.content_sha256 (bytes_of z)) (sym n) ∙ h.hashed in
          absurd (ground arith)

  -- A write touches no regular file but its own.
  pub materialize_write-files :
      (w : PlannedWrite) (d d' : Disk) (r : Result Failure (Unit {0})) (k : Location)
      → materialize_write g engine w d ≡ (r, d')
      → SameControl d d' × (same_path (write_path w) k ≡ false → bytes_at k d' ≡ bytes_at k d)
  materialize_write-files w d d' r k h = elim (materialize_write-Outcome w d) [
    | inl (a, x) ↦ unchanged d' (ap (λ z. z.1) (sym a ∙ h))
    | inr (inr (e, a, n)) ↦ unchanged d' (ap (λ z. z.1) (sym a ∙ h))
    | inr (inl (c, a, x)) ↦
        subst
          (λ z.
            SameControl d z × (same_path (write_path w) k ≡ false → bytes_at k z ≡ bytes_at k d))
          (ap (λ z. z.1) (sym a ∙ h))
          (
            record {
              same_state = refl;
              same_intent = refl;
              same_links = λ j. has_link-write_at j (write_path w) c d.tree;
            },
            bytes-write_at k (write_path w) c d.tree,
          )
  ]
    where
      unchanged :
          (e : Disk)
          → d ≡ e
          → SameControl d e × (same_path (write_path w) k ≡ false → bytes_at k e ≡ bytes_at k d)
      unchanged e p =
          subst
            (λ z.
              SameControl d z × (same_path (write_path w) k ≡ false → bytes_at k z ≡ bytes_at k d))
            p (SameControl-refl d, λ n. refl)

  -- What is there stays, where its own file does.
  pub IsWritten-kept :
      (w : PlannedWrite) (d d' : Disk)
      → SameControl d d'
      → bytes_at (write_path w) d' ≡ bytes_at (write_path w) d
      → IsWritten w d
      → IsWritten w d'
  IsWritten-kept w d d' s f h = record {
    reachable = target-links w.root w.path d d' s.same_links h.reachable;
    readable = h.readable;
    hashed = ap (has_hash w.content_sha256) f ∙ h.hashed;
  }
