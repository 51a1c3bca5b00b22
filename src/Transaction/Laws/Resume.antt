-- ===== src/Transaction/Laws/Resume.antt =====
-- `_replay`, `recover` and the end of `execute` of src/asme/transaction.py: what a crash leaves and
-- what recovery makes of it.
use agentic_skills_lifecycle.Prelude.{
  ◌≡◌, ◌≢◌, ◌∙◌, inl, inr, refl, sym, ap, subst, String, not, Option, none, List, [], ◌∷◌, Result,
  ok, err, arith,
}
use agentic_skills_lifecycle.Transaction.Records.{PlannedWrite, TransactionRecord}
use agentic_skills_lifecycle.Transaction.Disk.{
  Digests, Disk, Failure, crashed, CrashPoint, Action, ◌>>=◌, ◌>>◌, lift, raise_when, corruption,
  Intent, IntentFile, no_intent, damaged, envelope,
}
use agentic_skills_lifecycle.Transaction.Validate.{check_contents, validate, from_json}
use agentic_skills_lifecycle.Transaction.Materialize.{content}
use agentic_skills_lifecycle.Transaction.Materialize.{Engine}
use agentic_skills_lifecycle.Transaction.Replay.{
  make_outputs, publish, clear_intent, read_state, read_initialization_intent, checked_intent,
  check_roots, is_pending, replay,
}
use agentic_skills_lifecycle.Transaction.Laws.Actions.{interrupted, then-ok, then-cases, then-same}
use agentic_skills_lifecycle.Transaction.Laws.Locations.{AreSeparate}
use agentic_skills_lifecycle.Transaction.Laws.Recovery.{
  make_outputs-again, make_outputs-SameControl,
}

err-injective : {A : Type 0} {a b : Failure} → ◌≡◌ {A = Result Failure A} (err a) (err b) → a ≡ b
err-injective {a = a} h = ap (λ z. elim z as (λ w. Failure) [ ok x ↦ a | err e ↦ e ]) h

module _ (g : Digests) where
  check_contents-raises :
      (ws : List PlannedWrite) (q : CrashPoint) → check_contents g ws ≢ err (crashed q)
  unfolding check_contents content
  check_contents-raises [] q h = ground arith
  check_contents-raises (w ∷ ws) q h = ground (arith, check_contents-raises ws q)

  validate-raises : (r : TransactionRecord) (q : CrashPoint) → validate g r ≢ err (crashed q)
  unfolding validate
  validate-raises r q h = ground (arith, check_contents-raises r.writes q)

  from_json-raises : (r : TransactionRecord) (q : CrashPoint) → from_json g r ≢ err (crashed q)
  unfolding from_json
  from_json-raises r q h = ground (arith, validate-raises r q)

module _ (g : Digests) (engine : Engine) (r : TransactionRecord) where
  -- The checks that `_replay` makes before its outputs.
  abbrev pub checks : Action (Unit {0})
  checks = do
    lift (validate g r)
    lift (check_roots g engine r.target_roots)
    s ← read_state g engine
    raise_when (not (is_pending g engine r s))
        (corruption "authoritative state does not contain the replay record")

  checked_intent-raises :
      (i : Intent) (q : CrashPoint) → checked_intent g engine i ≢ err (crashed q)
  unfolding checked_intent
  checked_intent-raises i q h = ground (arith, from_json-raises g i.transaction q)

  publish-raises : (q : CrashPoint) (d d' : Disk) → publish g engine r d ≢ (err (crashed q), d')
  unfolding publish read_initialization_intent clear_intent
  publish-raises q d d' h = go d.intent_file refl
    where
      go : (f : IntentFile) → d.intent_file ≡ f → ⊥
      go no_intent e = ground arith
      go damaged e = ground arith
      go (envelope i) e = ground (arith, checked_intent-raises i q)

  -- `_replay` is its checks, its outputs and its publication.
  pub replay-parts :
      (at : Option CrashPoint) (d : Disk)
      → replay g engine at r d ≡ (checks >> (make_outputs g engine at r >> publish g engine r)) d
  unfolding replay read_state
  replay-parts at d = ground arith

  -- The checks read the state file only.
  checks-same :
      (d e : Disk) (x : Result Failure (Unit {0}))
      → e.state_file ≡ d.state_file
      → checks d ≡ (x, d)
      → checks e ≡ (x, e)
  unfolding read_state
  checks-same d e x s h = ground arith

  pub checks-disk : (d d' : Disk) (x : Result Failure (Unit {0})) → checks d ≡ (x, d') → d' ≡ d
  unfolding read_state
  checks-disk d d' x h = ground arith

  check_roots-raises :
      (roots : List (String × String)) (q : CrashPoint)
      → check_roots g engine roots ≢ err (crashed q)
  unfolding check_roots
  check_roots-raises [] q h = ground arith
  check_roots-raises ((name, fingerprint) ∷ rest) q h = ground (arith, check_roots-raises rest q)

  checks-raises : (d d' : Disk) (q : CrashPoint) → checks d ≢ (err (crashed q), d')
  unfolding read_state
  checks-raises d d' q h =
      ground (arith, validate-raises g r q, check_roots-raises r.target_roots q)

  -- How a replay that crashed went.
  pub replay-crashed :
      (at : Option CrashPoint) (d d' : Disk) (q : CrashPoint)
      → replay g engine at r d ≡ (err (crashed q), d')
      → (checks d ≡ (ok tt, d)) × (make_outputs g engine at r d ≡ (err (crashed q), d'))
  replay-crashed at d d' q h =
      let outputs = make_outputs g engine at r in
      elim (then-cases checks (outputs >> publish g engine r) d d' (err (crashed q))
        (sym (replay-parts at d) ∙ h)) [
          | inr (c, a, e) ↦
              absurd (checks-raises d d' q (a ∙ ap (λ z. (err z, d')) (sym (err-injective e))))
          | inl (e, a, rest) ↦
              let same = checks-disk d e (ok tt) a in
              elim (then-cases outputs (publish g engine r) e d' (err (crashed q)) rest) [
                | inl (f, b, end) ↦ absurd (publish-raises q f d' end)
                | inr (c, b, x) ↦ (
                  a ∙ ap (λ z. (ok tt, z)) same,
                  subst (λ z. outputs z ≡ (err (crashed q), d')) same
                      (b ∙ ap (λ z. (err z, d')) (sym (err-injective x))),
                )
              ]
        ]

  -- A replay that crashed, replayed again, returns what it returns without the crash and leaves
  -- the same disk.
  pub replay-again :
      (at : Option CrashPoint) (d d' : Disk) (q : CrashPoint)
      → AreSeparate g engine r.writes r.deletions
      → replay g engine at r d ≡ (err (crashed q), d')
      → replay g engine none r d' ≡ replay g engine none r d
  replay-again at d d' q p h =
      let outputs = make_outputs g engine none r in
      let (a, b) = replay-crashed at d d' q h in
      let (same, files) =
        make_outputs-SameControl g engine r at d d' (err (crashed q)) [] (interrupted q) b in
      replay-parts none d'
      ∙ then-ok checks (outputs >> publish g engine r) d' d'
          (checks-same d d' (ok tt) same.same_state a)
      ∙ then-same outputs (publish g engine r) d' d
          (make_outputs-again g engine r at d d' (err (crashed q)) p (interrupted q) b)
      ∙ sym (then-ok checks (outputs >> publish g engine r) d d a)
      ∙ sym (replay-parts none d)
