-- ===== src/Lifecycle/Routes/Phases.antt =====
-- The lists of test phases and test manifests under the updates of src/asme/lifecycle.py.
use agentic_skills_lifecycle.Prelude.{
  ◌≡◌, refl, String, str_eq, Bool, true, false, ◌&&◌, ◌||◌, Option, none, some, List, [], ◌∷◌, ◌++◌,
  str_mem, str_sort, str_insert, str_mem-sort, str_mem-append, eq_iff, all, arith,
}
use agentic_skills_lifecycle.Lifecycle.State.{Consumed, TestManifest}
use agentic_skills_lifecycle.Lifecycle.Manifests.{is_consumed}
use agentic_skills_lifecycle.Lifecycle.Branches.{
  has_phase, is_both_phases, phases, is_test_phase, phase_manifest,
}
use agentic_skills_lifecycle.Lifecycle.Routes.Defs.{are_prepared, are_one_each, are_consumed}

pub has_phase-phases :
    (p : String) (ms : List TestManifest) → has_phase p ms ≡ str_mem p (phases ms)
unfolding has_phase
has_phase-phases p [] = refl
has_phase-phases p (m ∷ ms) = ground (arith, has_phase-phases p ms)

has_phase-append :
    (p : String) (ms : List TestManifest) (m : TestManifest)
    → has_phase p (ms ++ m ∷ []) ≡ (has_phase p ms || str_eq m.phase p)
unfolding has_phase
has_phase-append p [] m = ground arith
has_phase-append p (x ∷ ms) m = ground (arith, has_phase-append p ms m)

-- A prepared phase is one of the two.
pub is_test_phase_of_mem :
    (p : String) (ps : List String)
    → all is_test_phase ps ≡ true
    → str_mem p ps ≡ true
    → is_test_phase p ≡ true
is_test_phase_of_mem p [] a h = cc
is_test_phase_of_mem p (x ∷ ps) a h = ground (arith, eq_iff x p, is_test_phase_of_mem p ps)

all-append :
    (ps qs : List String)
    → all is_test_phase ps ≡ true
    → all is_test_phase qs ≡ true
    → all is_test_phase (ps ++ qs) ≡ true
all-append [] qs a b = b
all-append (x ∷ ps) qs a b = ground (arith, all-append ps qs)

all-insert :
    (p : String) (ps : List String)
    → all is_test_phase (str_insert p ps) ≡ (is_test_phase p && all is_test_phase ps)
unfolding str_insert
all-insert p [] = refl
all-insert p (x ∷ ps) = ground (arith, all-insert p ps)

all-sort : (ps : List String) → all is_test_phase (str_sort ps) ≡ all is_test_phase ps
unfolding str_sort
all-sort [] = refl
all-sort (x ∷ ps) = ground (arith, all-insert x (str_sort ps), all-sort ps)

-- Preparing one of the two phases leaves only those two.
pub all-sort-append :
    (ps : List String) (p : String)
    → all is_test_phase ps ≡ true
    → is_test_phase p ≡ true
    → all is_test_phase (str_sort (ps ++ p ∷ [])) ≡ true
all-sort-append ps p a h = rw (all-sort (ps ++ p ∷ [])) (all-append ps (p ∷ []) a (ground arith))

-- Both phases are among the two.
pub has_phase_of_both :
    (p : String) (ms : List TestManifest)
    → is_both_phases (phases ms) ≡ true
    → is_test_phase p ≡ true
    → has_phase p ms ≡ true
unfolding is_both_phases
has_phase_of_both p ms b h =
    ground (arith, has_phase-phases p ms, eq_iff p "test-baseline", eq_iff p "test-final")

pub are_prepared-append :
    (ms : List TestManifest) (m : TestManifest) (ps : List String)
    → are_prepared ms ps ≡ true
    → str_mem m.phase ps ≡ true
    → are_prepared (ms ++ m ∷ []) ps ≡ true
are_prepared-append [] m ps a h = ground arith
are_prepared-append (x ∷ ms) m ps a h = ground (arith, are_prepared-append ms m ps)

-- Preparing one more phase keeps the prepared ones.
pub are_prepared-sort :
    (ms : List TestManifest) (ps : List String) (p : String)
    → are_prepared ms ps ≡ true
    → are_prepared ms (str_sort (ps ++ p ∷ [])) ≡ true
are_prepared-sort [] ps p a = refl
are_prepared-sort (x ∷ ms) ps p a = ground (
  arith,
  are_prepared-sort ms ps p,
  str_mem-sort x.phase (ps ++ p ∷ []),
  str_mem-append x.phase ps (p ∷ []),
)

pub are_one_each-append :
    (ms : List TestManifest) (m : TestManifest)
    → are_one_each ms ≡ true
    → has_phase m.phase ms ≡ false
    → are_one_each (ms ++ m ∷ []) ≡ true
unfolding has_phase
are_one_each-append [] m a h = refl
are_one_each-append (x ∷ ms) m a h = ground (
  arith,
  are_one_each-append ms m,
  has_phase-append x.phase ms m,
  eq_iff m.phase x.phase,
  eq_iff x.phase m.phase,
)

phase_manifest-none :
    (p : String) (ms : List TestManifest) → has_phase p ms ≡ false → phase_manifest p ms ≡ none
unfolding has_phase phase_manifest
phase_manifest-none p [] h = refl
phase_manifest-none p (x ∷ ms) h = ground (arith, phase_manifest-none p ms)

-- The manifest, if there is one, is consumed.
abbrev is_spent : Option String → List Consumed → Bool
is_spent none cs = true
is_spent (some h) cs = is_consumed h cs

-- With one manifest for each phase, the two that `export` consumes are all.
pub are_consumed_of_both :
    (ms : List TestManifest) (cs : List Consumed)
    → are_one_each ms ≡ true
    → all is_test_phase (phases ms) ≡ true
    → is_spent (phase_manifest "test-baseline" ms) cs ≡ true
    → is_spent (phase_manifest "test-final" ms) cs ≡ true
    → are_consumed ms cs ≡ true
unfolding phase_manifest
are_consumed_of_both [] cs o a b f = refl
are_consumed_of_both (m ∷ ms) cs o a b f = ground (
  arith,
  are_consumed_of_both ms cs,
  phase_manifest-none "test-baseline" ms,
  phase_manifest-none "test-final" ms,
  eq_iff m.phase "test-baseline",
  eq_iff m.phase "test-final",
)
