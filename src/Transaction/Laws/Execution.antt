-- ===== src/Transaction/Laws/Execution.antt =====
-- A transaction of src/asme/transaction.py from its intent to its end: `_record_intent`, `_replay`
-- and `recover`.
use agentic_skills_lifecycle.Prelude.{
  ◌≡◌, ◌∙◌, inl, inr, refl, sym, ap, false, Option, none, List, [], ◌∷◌, ok, arith, eq_refl,
}
use agentic_skills_lifecycle.Transaction.Records.{
  PlannedWrite, PlannedDeletion, TransactionRecord, StateDoc,
}
use agentic_skills_lifecycle.Transaction.Disk.{
  Digests, Disk, DiskState, holds, CrashPoint, ◌>>◌, Intent, IntentFile, no_intent, damaged,
  envelope,
}
use agentic_skills_lifecycle.Transaction.Validate.{from_json}
use agentic_skills_lifecycle.Transaction.Tree.{Location, has_link, look, bytes_of}
use agentic_skills_lifecycle.Transaction.Materialize.{Engine}
use agentic_skills_lifecycle.Transaction.Replay.{
  committed, make_outputs, publish, clear_intent, read_state, read_initialization_intent, replay,
}
use agentic_skills_lifecycle.Transaction.Recover.{
  with_txn, resume, recover_idle, recover_from, recover,
}
use agentic_skills_lifecycle.Transaction.Laws.Actions.{returned, then-cases}
use agentic_skills_lifecycle.Transaction.Laws.Writes.{
  has_hash, write_path, delete_path, bytes_at, target-links,
}
use agentic_skills_lifecycle.Transaction.Laws.Locations.{
  path_mem, AreSeparate, write_paths, delete_paths,
}
use agentic_skills_lifecycle.Transaction.Laws.Outputs.{AreWritten, AreRemoved}
use agentic_skills_lifecycle.Transaction.Laws.Recovery.{
  make_outputs-cases, run-AreMade, make_outputs-SameControl,
}
use agentic_skills_lifecycle.Transaction.Laws.Resume.{checks, checks-disk, replay-parts}

module _ (g : Digests) (engine : Engine) where
  -- The outputs depend on the governed files only.
  AreWritten-moved :
      (ws : List PlannedWrite) (d e : Disk)
      → e.tree ≡ d.tree
      → AreWritten g engine ws d
      → AreWritten g engine ws e
  AreWritten-moved [] d e f h = tt
  AreWritten-moved (w ∷ ws) d e f (h, hs) = (
    record {
      reachable = target-links g engine w.root w.path d e (λ k. ap (has_link k) f) h.reachable;
      readable = h.readable;
      hashed =
          ap (λ t. has_hash g engine w.content_sha256 (bytes_of (look (write_path g engine w) t))) f
          ∙ h.hashed;
    },
    AreWritten-moved ws d e f hs,
  )

  AreRemoved-moved :
      (xs : List PlannedDeletion) (d e : Disk)
      → e.tree ≡ d.tree
      → AreRemoved g engine xs d
      → AreRemoved g engine xs e
  AreRemoved-moved [] d e f h = tt
  AreRemoved-moved (x ∷ xs) d e f (h, hs) = (
    record {
      reachable = target-links g engine x.root x.path d e (λ k. ap (has_link k) f) h.reachable;
      gone = ap (look (delete_path g engine x)) f ∙ h.gone;
    },
    AreRemoved-moved xs d e f hs,
  )

module _ (g : Digests) (engine : Engine) (r : TransactionRecord) where
  -- A disk after a transaction: its outputs are there, its deletions are gone, no other regular file
  -- is changed, and the next state is committed.
  pub record IsCommitted (d d' : Disk) : Type 0 where
    pub written : AreWritten g engine r.writes d'
    pub removed : AreRemoved g engine r.deletions d'
    pub untouched :
        (k : Location)
        → path_mem k (write_paths g engine r.writes) ≡ false
        → path_mem k (delete_paths g engine r.deletions) ≡ false
        → bytes_at g engine k d' ≡ bytes_at g engine k d
    pub state : d'.state_file ≡ holds (committed g engine r)
    pub idle : d'.intent_file ≡ no_intent

  -- What the publication leaves of a disk.
  publish-leaves :
      (d d' : Disk) (s : DiskState)
      → publish g engine r d ≡ (ok s, d')
      → (s ≡ committed g engine r)
        × (d'.state_file ≡ holds (committed g engine r))
        × (d'.intent_file ≡ no_intent)
        × (d'.tree ≡ d.tree)
  unfolding publish read_initialization_intent clear_intent
  publish-leaves d d' s h = go d.intent_file refl
    where
      go :
          (f : IntentFile)
          → d.intent_file ≡ f
          → (s ≡ committed g engine r)
            × (d'.state_file ≡ holds (committed g engine r))
            × (d'.intent_file ≡ no_intent)
            × (d'.tree ≡ d.tree)
      go no_intent e = ground arith
      go damaged e = absurd (ground arith)
      go (envelope i) e = ground arith

  -- `recover` of a disk with a pending transaction replays it.
  pub recover-pending :
      (d : Disk) (current : StateDoc) (i : Option Intent)
      → d.state_file ≡ holds (with_txn current r)
      → read_initialization_intent g engine d ≡ (ok i, d)
      → from_json g r ≡ ok r
      → r.domain_id ≡ engine.domain_id
      → recover g engine none d ≡ replay g engine none r d
  unfolding recover recover_from resume read_state
  recover-pending d current i s e f n = ground (arith, eq_refl engine.domain_id)

  -- `recover` of a disk without one leaves it.
  pub recover-committed :
      (at : Option CrashPoint) (d : Disk)
      → d.state_file ≡ holds (committed g engine r)
      → d.intent_file ≡ no_intent
      → recover g engine at d ≡ (ok (committed g engine r), d)
  unfolding recover recover_from recover_idle read_state read_initialization_intent
  recover-committed at d s e = ground arith

  -- The three parts of a replay that ends.
  committed-now :
      (at : Option CrashPoint) (d e f d' : Disk) (s : DiskState)
      → AreSeparate g engine r.writes r.deletions
      → checks g engine r d ≡ (ok tt, e)
      → make_outputs g engine at r e ≡ (ok tt, f)
      → publish g engine r f ≡ (ok s, d')
      → e ≡ d
      → (s ≡ committed g engine r) × IsCommitted d d'
  committed-now at d e f d' s p a b end same =
      let (state, file, intent, files) = publish-leaves f d' s end in
      elim (make_outputs-cases g engine r at e f (ok tt) (returned tt) b) [
        | inl (c, x, q) ↦ absurd (ground arith)
        | inr (m, x, y) ↦
            let (written, removed) = run-AreMade g engine r at e m f p x y in
            (
              state,
              record {
                written = AreWritten-moved g engine r.writes f d' files written;
                removed = AreRemoved-moved g engine r.deletions f d' files removed;
                untouched = λ k i j.
                    ap (λ z. bytes_of (look k z)) files
                    ∙ (make_outputs-SameControl g engine r at e f (ok tt) k (returned tt) b).1 i j
                    ∙ ap (bytes_at g engine k) same;
                state = file;
                idle = intent;
              },
            )
      ]

  -- A replay of a record whose effects are at different files, none of them the state file, that
  -- returns a state returns the next state of its record, and the disk it leaves has every write of
  -- the record, none of its deletions, the bytes of every other regular file as before and no new
  -- one, the next state without a pending transaction, and no initialization intent.
  pub replay-IsCommitted :
      (at : Option CrashPoint) (d d' : Disk) (s : DiskState)
      → AreSeparate g engine r.writes r.deletions
      → replay g engine at r d ≡ (ok s, d')
      → (s ≡ committed g engine r) × IsCommitted d d'
  replay-IsCommitted at d d' s p h =
      let outputs = make_outputs g engine at r in
      elim (then-cases (checks g engine r) (outputs >> publish g engine r) d d' (ok s)
        (sym (replay-parts g engine r at d) ∙ h)) [
          | inr (c, a, q) ↦ absurd (ground arith)
          | inl (e, a, rest) ↦
              let same = checks-disk g engine r d e (ok tt) a in
              elim (then-cases outputs (publish g engine r) e d' (ok s) rest) [
                | inr (c, b, q) ↦ absurd (ground arith)
                | inl (f, b, end) ↦ committed-now at d e f d' s p a b end same
              ]
        ]
