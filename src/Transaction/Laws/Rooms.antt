-- ===== src/Transaction/Laws/Rooms.antt =====
-- The places that the writes of src/asme/transaction.py need: `_ensure_safe_parent` for one write after
-- another.
use agentic_skills_lifecycle.Prelude.{
  ◌≡◌, refl, Bool, true, false, not, ◌&&◌, ◌||◌, List, [], ◌∷◌, ◌++◌, arith, String,
}
use agentic_skills_lifecycle.Transaction.Records.{PlannedWrite}
use agentic_skills_lifecycle.Transaction.Tree.{Location, is_open, same_path, is_prefix}
use agentic_skills_lifecycle.Transaction.Disk.{Digests, Disk}
use agentic_skills_lifecycle.Transaction.Materialize.{
  Engine, state_path, parts_of, is_empty, locate,
}
use agentic_skills_lifecycle.Transaction.Laws.Trees.{is_open-write_at}
use agentic_skills_lifecycle.Transaction.Laws.Writes.{write_path, with_output}
use agentic_skills_lifecycle.Transaction.Laws.Locations.{write_paths}

-- A path that holds one of the paths, or that one of them holds.
abbrev pub is_nested : Location → List Location → Bool
is_nested p [] = false
is_nested p (q ∷ qs) = is_prefix p q || is_prefix q p || is_nested p qs

-- No path is on the way to another one.
abbrev pub are_parallel : List Location → Bool
are_parallel [] = true
are_parallel (p ∷ ps) = not (is_nested p ps) && are_parallel ps

pub is_prefix-same_path : (p q : Location) → is_prefix p q ≡ false → same_path p q ≡ false
is_prefix-same_path [] q h = absurd (ground arith)
is_prefix-same_path (a ∷ p) [] h = refl
is_prefix-same_path (a ∷ p) (b ∷ q) h = ground (arith, is_prefix-same_path p q)

is_prefix-append : (p q r : Location) → is_prefix p (q ++ r) ≡ false → is_prefix p q ≡ false
is_prefix-append [] q r h = h
is_prefix-append (a ∷ p) [] r h = refl
is_prefix-append (a ∷ p) (b ∷ q) r h = ground (arith, is_prefix-append p q r)

module _ (g : Digests) (engine : Engine) where
  -- What stands on the way to a write is a directory, or is missing and can be made one, and is
  -- not the state file.
  pub record HasRoom (w : PlannedWrite) (d : Disk) : Type 0 where
    pub proper : is_empty (parts_of w.path) ≡ false
    pub rooted : is_open (engine.place w.root) d.tree ≡ true
    pub way : is_open (write_path g engine w) d.tree ≡ true
    pub aside : is_prefix (state_path g engine) (write_path g engine w) ≡ false

  abbrev pub HaveRoom : List PlannedWrite → Disk → Type 0
  HaveRoom [] d = Unit {0}
  HaveRoom (w ∷ ws) d = HasRoom w d × HaveRoom ws d

  -- Every write of a list can take its place, and none takes another's.
  pub record AreClear (ws : List PlannedWrite) (d : Disk) : Type 0 where
    pub rooms : HaveRoom ws d
    pub parallel : are_parallel (write_paths g engine ws) ≡ true

  pub HasRoom-kept :
      (v w : PlannedWrite) (c : String) (d : Disk)
      → is_prefix (write_path g engine v) (write_path g engine w) ≡ false
      → HasRoom w d
      → HasRoom w (with_output g engine v c d)
  unfolding locate
  HasRoom-kept v w c d n h = record {
    proper = h.proper;
    rooted =
        is_open-write_at (engine.place w.root) (write_path g engine v) c d.tree h.rooted
          (is_prefix-append (write_path g engine v) (engine.place w.root) (parts_of w.path) n);
    way = is_open-write_at (write_path g engine w) (write_path g engine v) c d.tree h.way n;
    aside = h.aside;
  }
