-- ===== src/Transaction/Tree.antt =====
-- The files that src/asme/transaction.py governs, as one tree of directories: the roots may lie inside
-- one another, so a path of it is the segments from the top of the file system. A step that finds
-- a file where it needs a directory leaves the tree; the engine has refused it before.
use agentic_skills_lifecycle.Prelude.{
  ℕ, String, Bool, true, false, ◌&&◌, Option, none, some, List, [], ◌∷◌, codes_eq, if◌then◌else◌,
}

abbrev pub Location : Type 0
Location = List (List ℕ)

pub data Tree : Type 0 where
  missing linked special : Tree
  regular : String → Tree
  directory : (List ℕ → Tree) → Tree

-- What stands at a path, where no link is on the way.
unfoldable pub look : Location → Tree → Tree
look [] t = t
look (s ∷ ss) (directory f) = look ss (f s)
look (s ∷ ss) _ = missing

-- `_reject_existing_symlink_components` refuses the path.
unfoldable pub has_link : Location → Tree → Bool
has_link path linked = true
has_link (s ∷ ss) (directory f) = has_link ss (f s)
has_link _ _ = false

-- What stands on the way to a path is a directory, or is missing and can be made one.
unfoldable pub is_open : Location → Tree → Bool
is_open [] t = true
is_open (s ∷ ss) missing = true
is_open (s ∷ ss) (directory f) = is_open ss (f s)
is_open (s ∷ ss) _ = false

-- A regular file is written at a path, with the directories on its way.
unfoldable pub write_at : Location → String → Tree → Tree
write_at [] c missing = regular c
write_at [] c (regular old) = regular c
write_at [] c t = t
write_at (s ∷ ss) c missing =
    directory (λ k. if codes_eq s k then write_at ss c missing else missing)
write_at (s ∷ ss) c (directory f) =
    directory (λ k. if codes_eq s k then write_at ss c (f k) else f k)
write_at (s ∷ ss) c t = t

-- A regular file is removed.
unfoldable pub remove_at : Location → Tree → Tree
remove_at [] (regular old) = missing
remove_at [] t = t
remove_at (s ∷ ss) (directory f) = directory (λ k. if codes_eq s k then remove_at ss (f k) else f k)
remove_at (s ∷ ss) t = t

abbrev pub same_path : Location → Location → Bool
same_path [] [] = true
same_path (a ∷ as') (b ∷ bs) = codes_eq a b && same_path as' bs
same_path _ _ = false

-- `target.is_relative_to(other)`, of the other and the target.
abbrev pub is_prefix : Location → Location → Bool
is_prefix [] q = true
is_prefix (a ∷ as') [] = false
is_prefix (a ∷ as') (b ∷ bs) = codes_eq a b && is_prefix as' bs

-- The bytes of a regular file.
abbrev pub bytes_of : Tree → Option String
bytes_of (regular c) = some c
bytes_of _ = none
