-- ===== src/Transaction/Laws/Actions.antt =====
-- The steps of the engine one after another, and the crash points of src/asme/transaction.py.
use agentic_skills_lifecycle.Prelude.{
  ℕ, ◌+◌, ◌/◌, ◌≡◌, ◌∙◌, ◌⊎◌, inl, inr, refl, sym, ap, Bool, true, false, ◌&&◌, Option, none, some,
  Result, ok, err, ltb, ◌==◌, if◌then◌else◌, arith, Bool-cases,
}
use agentic_skills_lifecycle.Transaction.Disk.{
  Digests, Disk, Failure, crashed, CrashPoint, first_output, mid_output, last_output, output,
  same_point, Action, ◌>>=◌, ◌>>◌, pure,
}
use agentic_skills_lifecycle.Transaction.Materialize.{Engine}
use agentic_skills_lifecycle.Transaction.Replay.{crash, output_crashes}

-- What a call returns where a run can go on after it: a value, or a crash of the process.
pub data IsStopped {A : Type 0} : Result Failure A → Type 0 where
  returned : (a : A) → IsStopped (ok a)
  interrupted : (p : CrashPoint) → IsStopped (err (crashed p))

pub outcome-cases :
    {A : Type 0} (x : Result Failure A × Disk)
    → ((a : A) × (d : Disk) × (x ≡ (ok a, d))) ⊎ ((e : Failure) × (d : Disk) × (x ≡ (err e, d)))
outcome-cases (ok a, d) = inl (a, d, refl)
outcome-cases (err e, d) = inr (e, d, refl)

pub bind-ok :
    {A B : Type 0} (m : Action A) (f : A → Action B) (d d' : Disk) (a : A)
    → m d ≡ (ok a, d')
    → (m >>= f) d ≡ f a d'
bind-ok m f d d' a h = ap (λ x. elim x.0 [ ok b ↦ f b x.1 | err e ↦ (err e, x.1) ]) h

pub bind-err :
    {A B : Type 0} (m : Action A) (f : A → Action B) (d d' : Disk) (e : Failure)
    → m d ≡ (err e, d')
    → (m >>= f) d ≡ (err e, d')
bind-err m f d d' e h = ap (λ x. elim x.0 [ ok b ↦ f b x.1 | err c ↦ (err c, x.1) ]) h

-- How a call that ran two steps went.
pub bind-cases :
    {A B : Type 0} (m : Action A) (f : A → Action B) (d d' : Disk) (r : Result Failure B)
    → (m >>= f) d ≡ (r, d')
    → ((a : A) × (e : Disk) × (m d ≡ (ok a, e)) × (f a e ≡ (r, d')))
      ⊎ ((c : Failure) × (m d ≡ (err c, d')) × (r ≡ err c))
bind-cases m f d d' r h = elim (outcome-cases (m d)) [
  | inl (a, e, q) ↦ inl (a, e, q, sym (bind-ok m f d e a q) ∙ h)
  | inr (c, e, q) ↦
      let both = sym h ∙ bind-err m f d e c q in
      inr (c, q ∙ ap (λ x. (err c, x.1)) (sym both), ap (λ x. x.0) both)
]

-- The same for a step whose value is not used.
pub then-ok :
    {B : Type 0} (m : Action (Unit {0})) (k : Action B) (d d' : Disk)
    → m d ≡ (ok tt, d')
    → (m >> k) d ≡ k d'
then-ok m k d d' h = bind-ok m (λ t. k) d d' tt h

pub then-err :
    {B : Type 0} (m : Action (Unit {0})) (k : Action B) (d d' : Disk) (e : Failure)
    → m d ≡ (err e, d')
    → (m >> k) d ≡ (err e, d')
then-err m k d d' e h = bind-err m (λ t. k) d d' e h

pub then-same :
    {B : Type 0} (m : Action (Unit {0})) (k : Action B) (d e : Disk)
    → m d ≡ m e
    → (m >> k) d ≡ (m >> k) e
then-same m k d e h = ap (λ x. elim x.0 [ ok b ↦ k x.1 | err c ↦ (err c, x.1) ]) h

pub then-cases :
    {B : Type 0} (m : Action (Unit {0})) (k : Action B) (d d' : Disk) (r : Result Failure B)
    → (m >> k) d ≡ (r, d')
    → ((e : Disk) × (m d ≡ (ok tt, e)) × (k e ≡ (r, d')))
      ⊎ ((c : Failure) × (m d ≡ (err c, d')) × (r ≡ err c))
then-cases m k d d' r h = elim (bind-cases m (λ t. k) d d' r h) [
  | inl (t, e, q, rest) ↦ inl (e, q, rest)
  | inr x ↦ inr x
]

-- A step that leaves the disk and raises nothing but a crash.
abbrev pub IsQuiet : Action (Unit {0}) → Disk → Type 0
IsQuiet m d = (m d ≡ (ok tt, d)) ⊎ ((p : CrashPoint) × (m d ≡ (err (crashed p), d)))

IsQuiet-then : (m k : Action (Unit {0})) (d : Disk) → IsQuiet m d → IsQuiet k d → IsQuiet (m >> k) d
IsQuiet-then m k d (inl a) (inl b) = inl (then-ok m k d d a ∙ b)
IsQuiet-then m k d (inl a) (inr (p, b)) = inr (p, then-ok m k d d a ∙ b)
IsQuiet-then m k d (inr (p, a)) b = inr (p, then-err m k d d (crashed p) a)

IsQuiet-if :
    (b : Bool) (m : Action (Unit {0})) (d : Disk)
    → IsQuiet m d
    → IsQuiet (if b then m else pure tt) d
IsQuiet-if true m d h = h
IsQuiet-if false m d h = inl refl

module _ (g : Digests) (engine : Engine) where
  pub crash-IsQuiet :
      (at : Option CrashPoint) (p : CrashPoint) (d : Disk) → IsQuiet (crash g engine at p) d
  unfolding crash
  crash-IsQuiet none p d = inl refl
  crash-IsQuiet (some q) p d = elim (Bool-cases (same_point q p)) [
    | inl t ↦ inr (p, ground arith)
    | inr f ↦ inl (ground arith)
  ]

  -- Without a requested crash the outputs are not interrupted.
  pub output_crashes-none :
      (total point : ℕ) (d : Disk) → output_crashes g engine none total point d ≡ (ok tt, d)
  unfolding output_crashes crash
  output_crashes-none total point d = ground arith

  pub output_crashes-IsQuiet :
      (at : Option CrashPoint) (total point : ℕ) (d : Disk)
      → IsQuiet (output_crashes g engine at total point) d
  unfolding output_crashes
  output_crashes-IsQuiet at total point d =
      let last = if point == total then crash g engine at last_output else pure tt in
      let mid =
        if ltb 2 total && point == (total + 1) / 2 then crash g engine at mid_output else pure tt in
      let each = crash g engine at (output point) in
      IsQuiet-then (if point == 1 then crash g engine at first_output else pure tt)
        (mid >> (last >> each)) d
        (IsQuiet-if (point == 1) (crash g engine at first_output) d
          (crash-IsQuiet at first_output d))
        (IsQuiet-then mid (last >> each) d
          (IsQuiet-if (ltb 2 total && point == (total + 1) / 2) (crash g engine at mid_output) d
            (crash-IsQuiet at mid_output d))
          (IsQuiet-then last each d
            (IsQuiet-if (point == total) (crash g engine at last_output) d
              (crash-IsQuiet at last_output d))
            (crash-IsQuiet at (output point) d)))
