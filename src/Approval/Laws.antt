-- ===== src/Approval/Laws.antt =====
-- When an approval of src/asme/contract.py can be used.
use agentic_skills_lifecycle.Prelude.{
  ℕ, ◌≡◌, ◌∙◌, ◌≤◌, ◌<◌, inl, inr, refl, sym, ap, String, str_eq, eq_iff, true, false, Option, none,
  some, [], ◌∷◌, ok, err, Dict, raise_if, >>=-eq-ok, lookup, opt_is-eq, Bool-cases, Option-cases,
  arith,
}
use agentic_skills_lifecycle.Approval.{
  Stamp, malformed, naive, moment, ApprovalRecord, Use, agrees, same_dict, same_option,
  aware_datetime, current_moment, checked_approval, validate_for, consume,
}

agrees-lookup :
    (k v : String) (m n : Dict String)
    → agrees m n ≡ true
    → lookup k m ≡ some v
    → lookup k n ≡ some v
unfolding agrees lookup
agrees-lookup k v [] n h e = absurd (ground arith)
agrees-lookup k v ((j, w) ∷ m) n h e = elim (Bool-cases (str_eq j k)) [
  | inl q ↦
      let same = (eq_iff j k).0 q in
      let there = opt_is-eq (lookup j n) w (ground arith) in
      ap (λ z. lookup z n) (sym same) ∙ there ∙ ground arith
  | inr q ↦ agrees-lookup k v m n (ground arith) (ground arith)
]

-- Equal mappings have the same values.
same_dict-lookup : (k : String) (m n : Dict String) → same_dict m n ≡ true → lookup k m ≡ lookup k n
unfolding same_dict
same_dict-lookup k m n h = elim (Option-cases (lookup k m)) [
  | inr (v, e) ↦ e ∙ sym (agrees-lookup k v m n (ground arith) e)
  | inl e ↦ elim (Option-cases (lookup k n)) [
    | inl f ↦ e ∙ sym f
    | inr (w, f) ↦ absurd (ground (arith, agrees-lookup k w n m))
  ]
]

same_option-eq : (a b : Option String) → same_option a b ≡ true → a ≡ b
same_option-eq none none h = refl
same_option-eq none (some b) h = cc
same_option-eq (some a) none h = cc
same_option-eq (some a) (some b) h = ground (arith, eq_iff a b)

module _ (parse : String → Stamp) where
  -- An approval that covers a use: it was not consumed, it names the phase, the same artifacts with
  -- the same hashes, the runtime and the destination, and the time is in its period.
  pub record Covers (r : ApprovalRecord) (u : Use) : Type 0 where
    pub approved : ℕ
    pub expires : ℕ
    pub now : ℕ
    pub fresh : r.consumed ≡ false
    pub same_phase : r.phase ≡ u.phase
    pub same_artifacts :
        (name : String) → lookup name r.artifact_hashes ≡ lookup name u.artifact_hashes
    pub same_runtime : r.runtime_id ≡ u.runtime_id
    pub same_destination : r.destination ≡ u.destination
    pub starts : parse r.approved_at ≡ moment approved
    pub ends : parse r.expires_at ≡ moment expires
    pub at : u.now ≡ moment now
    pub active : approved ≤ now
    pub current : now < expires

  validate_for-cases :
      (r : ApprovalRecord) (u : Use) (a b c : Stamp)
      → parse r.approved_at ≡ a
      → parse r.expires_at ≡ b
      → u.now ≡ c
      → validate_for parse r u ≡ ok tt
      → Covers r u
  unfolding validate_for aware_datetime current_moment
  validate_for-cases r u (moment a) (moment b) (moment c) x y z h = record {
    approved = a;
    expires = b;
    now = c;
    fresh = ground arith;
    same_phase = (eq_iff r.phase u.phase).0 (ground arith);
    same_artifacts =
        λ name. same_dict-lookup name r.artifact_hashes u.artifact_hashes (ground arith);
    same_runtime = same_option-eq r.runtime_id u.runtime_id (ground arith);
    same_destination = same_option-eq r.destination u.destination (ground arith);
    starts = x;
    ends = y;
    at = z;
    active = ground arith;
    current = ground arith;
  }
  validate_for-cases r u a b malformed x y z h = absurd (ground arith)
  validate_for-cases r u a b naive x y z h = absurd (ground arith)
  validate_for-cases r u malformed b (moment c) x y z h = absurd (ground arith)
  validate_for-cases r u naive b (moment c) x y z h = absurd (ground arith)
  validate_for-cases r u (moment a) malformed (moment c) x y z h = absurd (ground arith)
  validate_for-cases r u (moment a) naive (moment c) x y z h = absurd (ground arith)

  -- An approval that passes for a use covers it.
  pub validate_for-Covers :
      (r : ApprovalRecord) (u : Use) → validate_for parse r u ≡ ok tt → Covers r u
  validate_for-Covers r u h =
      validate_for-cases r u (parse r.approved_at) (parse r.expires_at) u.now refl refl refl h

  checked_approval-same : (r s : ApprovalRecord) → checked_approval parse r ≡ ok s → s ≡ r
  unfolding checked_approval
  checked_approval-same r s h = ground arith

  consumed-refused :
      (s : ApprovalRecord) (u : Use)
      → s.consumed ≡ true
      → (validate_for parse s u ≡ err "approval record has already been consumed")
        × (consume parse s ≡ err "approval record has already been consumed")
  unfolding validate_for consume
  consumed-refused s u c = (ground arith, ground arith)

  -- An approval that is consumed was not consumed before and changes in nothing else; it then passes
  -- for no use, and cannot be consumed again.
  pub consume-once :
      (r s : ApprovalRecord) (u : Use)
      → consume parse r ≡ ok s
      → (r.consumed ≡ false)
        × (s ≡ record r { consumed = true })
        × (validate_for parse s u ≡ err "approval record has already been consumed")
        × (consume parse s ≡ err "approval record has already been consumed")
  unfolding consume
  consume-once r s u h =
      let (t, a, e) =
        >>=-eq-ok (raise_if r.consumed "approval record has already been consumed") _ h in
      let same = checked_approval-same (record r { consumed = true }) s e in
      let (x, y) = consumed-refused s u (ap (λ z. z.consumed) same) in (ground arith, same, x, y)
