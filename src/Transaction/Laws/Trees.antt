-- ===== src/Transaction/Laws/Trees.antt =====
-- What writing and removing a file leaves of the tree that src/asme/transaction.py governs.
use agentic_skills_lifecycle.Prelude.{
  ℕ, ◌≡◌, ◌∙◌, inl, inr, refl, sym, ap, subst, String, Bool, true, false, List, [], ◌∷◌, codes_eq,
  codes_eq-eq, codes_eq_refl, if◌then◌else◌, arith, Bool-cases,
}
use agentic_skills_lifecycle.Transaction.Tree.{
  Location, Tree, missing, linked, special, regular, directory, look, has_link, is_open, write_at,
  remove_at, same_path, is_prefix, bytes_of,
}

codes_eq_sym : (a b : List ℕ) → codes_eq a b ≡ codes_eq b a
codes_eq_sym a b = elim (Bool-cases (codes_eq a b)) [
  | inl e ↦
      let p = codes_eq-eq a b e in e ∙ sym (subst (λ z. codes_eq z a ≡ true) p (codes_eq_refl a))
  | inr e ↦ elim (Bool-cases (codes_eq b a)) [
    | inr f ↦ e ∙ sym f
    | inl f ↦
        let p = codes_eq-eq b a f in
        absurd (ground (arith, subst (λ z. codes_eq z b ≡ true) p (codes_eq_refl b)))
  ]
]

pub same_path_sym : (p q : Location) → same_path p q ≡ same_path q p
same_path_sym [] [] = refl
same_path_sym [] (b ∷ q) = refl
same_path_sym (a ∷ p) [] = refl
same_path_sym (a ∷ p) (b ∷ q) = ground (arith, codes_eq_sym a b, same_path_sym p q)

pub same_path_refl : (p : Location) → same_path p p ≡ true
same_path_refl [] = refl
same_path_refl (a ∷ p) = ground (arith, codes_eq_refl a, same_path_refl p)

has_link_missing : (q : Location) → has_link q missing ≡ false
unfolding has_link
has_link_missing [] = refl
has_link_missing (s ∷ q) = refl

look_missing : (q : Location) → look q missing ≡ missing
unfolding look
look_missing [] = refl
look_missing (s ∷ q) = refl

is_open_missing : (q : Location) → is_open q missing ≡ true
unfolding is_open
is_open_missing [] = refl
is_open_missing (s ∷ q) = refl

pub has_link-write_at :
    (q p : Location) (c : String) (t : Tree) → has_link q (write_at p c t) ≡ has_link q t
unfolding has_link write_at
has_link-write_at q [] c missing = ground arith
has_link-write_at q [] c linked = refl
has_link-write_at q [] c special = refl
has_link-write_at q [] c (regular o) = ground arith
has_link-write_at q [] c (directory f) = refl
has_link-write_at [] (s ∷ p) c missing = refl
has_link-write_at (k ∷ q) (s ∷ p) c missing = elim (Bool-cases (codes_eq s k)) [
  | inl e ↦
      ap (λ b. has_link q (if b then write_at p c missing else missing)) e
      ∙ has_link-write_at q p c missing
      ∙ has_link_missing q
  | inr e ↦
      ap (λ b. has_link q (if b then write_at p c missing else missing)) e ∙ has_link_missing q
]
has_link-write_at q (s ∷ p) c linked = refl
has_link-write_at q (s ∷ p) c special = refl
has_link-write_at q (s ∷ p) c (regular o) = refl
has_link-write_at [] (s ∷ p) c (directory f) = refl
has_link-write_at (k ∷ q) (s ∷ p) c (directory f) = elim (Bool-cases (codes_eq s k)) [
  | inl e ↦
      ap (λ b. has_link q (if b then write_at p c (f k) else f k)) e ∙ has_link-write_at q p c (f k)
  | inr e ↦ ap (λ b. has_link q (if b then write_at p c (f k) else f k)) e
]

-- The other regular files are as before.
pub bytes-write_at :
    (q p : Location) (c : String) (t : Tree)
    → same_path p q ≡ false
    → bytes_of (look q (write_at p c t)) ≡ bytes_of (look q t)
unfolding look write_at
bytes-write_at [] [] c t n = absurd (ground arith)
bytes-write_at (k ∷ q) [] c missing n = refl
bytes-write_at (k ∷ q) [] c linked n = refl
bytes-write_at (k ∷ q) [] c special n = refl
bytes-write_at (k ∷ q) [] c (regular o) n = refl
bytes-write_at (k ∷ q) [] c (directory f) n = refl
bytes-write_at [] (s ∷ p) c missing n = refl
bytes-write_at (k ∷ q) (s ∷ p) c missing n = elim (Bool-cases (codes_eq s k)) [
  | inl e ↦
      ap (λ b. bytes_of (look q (if b then write_at p c missing else missing))) e
      ∙ bytes-write_at q p c missing (ground arith)
      ∙ ap bytes_of (look_missing q)
  | inr e ↦
      ap (λ b. bytes_of (look q (if b then write_at p c missing else missing))) e
      ∙ ap bytes_of (look_missing q)
]
bytes-write_at q (s ∷ p) c linked n = refl
bytes-write_at q (s ∷ p) c special n = refl
bytes-write_at q (s ∷ p) c (regular o) n = refl
bytes-write_at [] (s ∷ p) c (directory f) n = refl
bytes-write_at (k ∷ q) (s ∷ p) c (directory f) n = elim (Bool-cases (codes_eq s k)) [
  | inl e ↦
      ap (λ b. bytes_of (look q (if b then write_at p c (f k) else f k))) e
      ∙ bytes-write_at q p c (f k) (ground arith)
  | inr e ↦ ap (λ b. bytes_of (look q (if b then write_at p c (f k) else f k))) e
]

-- Where a file can be written.
abbrev pub is_free : Tree → Bool
is_free missing = true
is_free (regular c) = true
is_free _ = false

pub look-write_at :
    (p : Location) (c : String) (t : Tree)
    → is_open p t ≡ true
    → is_free (look p t) ≡ true
    → look p (write_at p c t) ≡ regular c
unfolding look write_at is_open
look-write_at [] c missing o f = refl
look-write_at [] c linked o f = absurd (ground arith)
look-write_at [] c special o f = absurd (ground arith)
look-write_at [] c (regular x) o f = refl
look-write_at [] c (directory g) o f = absurd (ground arith)
look-write_at (s ∷ p) c missing o f =
    ap (λ b. look p (if b then write_at p c missing else missing)) (codes_eq_refl s)
    ∙ look-write_at p c missing (is_open_missing p) (ap is_free (look_missing p))
look-write_at (s ∷ p) c linked o f = absurd (ground arith)
look-write_at (s ∷ p) c special o f = absurd (ground arith)
look-write_at (s ∷ p) c (regular x) o f = absurd (ground arith)
look-write_at (s ∷ p) c (directory g) o f =
    ap (λ b. look p (if b then write_at p c (g s) else g s)) (codes_eq_refl s)
    ∙ look-write_at p c (g s) o f

-- A missing path that is not on the way stays missing.
pub missing-write_at :
    (q p : Location) (c : String) (t : Tree)
    → look q t ≡ missing
    → is_prefix q p ≡ false
    → look q (write_at p c t) ≡ missing
unfolding look write_at
missing-write_at [] p c t m n = absurd (ground arith)
missing-write_at (k ∷ q) [] c missing m n = refl
missing-write_at (k ∷ q) [] c linked m n = refl
missing-write_at (k ∷ q) [] c special m n = refl
missing-write_at (k ∷ q) [] c (regular x) m n = refl
missing-write_at (k ∷ q) [] c (directory g) m n = m
missing-write_at (k ∷ q) (s ∷ p) c missing m n = elim (Bool-cases (codes_eq s k)) [
  | inl e ↦
      ap (λ b. look q (if b then write_at p c missing else missing)) e
      ∙ missing-write_at q p c missing (look_missing q) (ground (arith, codes_eq_sym s k))
  | inr e ↦ ap (λ b. look q (if b then write_at p c missing else missing)) e ∙ look_missing q
]
missing-write_at (k ∷ q) (s ∷ p) c linked m n = refl
missing-write_at (k ∷ q) (s ∷ p) c special m n = refl
missing-write_at (k ∷ q) (s ∷ p) c (regular x) m n = refl
missing-write_at (k ∷ q) (s ∷ p) c (directory g) m n = elim (Bool-cases (codes_eq s k)) [
  | inl e ↦
      ap (λ b. look q (if b then write_at p c (g k) else g k)) e
      ∙ missing-write_at q p c (g k) m (ground (arith, codes_eq_sym s k))
  | inr e ↦ ap (λ b. look q (if b then write_at p c (g k) else g k)) e ∙ m
]

-- The way to a path that the file is not on stays open.
pub is_open-write_at :
    (q p : Location) (c : String) (t : Tree)
    → is_open q t ≡ true
    → is_prefix p q ≡ false
    → is_open q (write_at p c t) ≡ true
unfolding is_open write_at
is_open-write_at q [] c t o n = absurd (ground arith)
is_open-write_at [] (s ∷ p) c missing o n = refl
is_open-write_at [] (s ∷ p) c linked o n = refl
is_open-write_at [] (s ∷ p) c special o n = refl
is_open-write_at [] (s ∷ p) c (regular x) o n = refl
is_open-write_at [] (s ∷ p) c (directory g) o n = refl
is_open-write_at (k ∷ q) (s ∷ p) c missing o n = elim (Bool-cases (codes_eq s k)) [
  | inl e ↦
      ap (λ b. is_open q (if b then write_at p c missing else missing)) e
      ∙ is_open-write_at q p c missing (is_open_missing q) (ground arith)
  | inr e ↦ ap (λ b. is_open q (if b then write_at p c missing else missing)) e ∙ is_open_missing q
]
is_open-write_at (k ∷ q) (s ∷ p) c linked o n = absurd (ground arith)
is_open-write_at (k ∷ q) (s ∷ p) c special o n = absurd (ground arith)
is_open-write_at (k ∷ q) (s ∷ p) c (regular x) o n = absurd (ground arith)
is_open-write_at (k ∷ q) (s ∷ p) c (directory g) o n = elim (Bool-cases (codes_eq s k)) [
  | inl e ↦
      ap (λ b. is_open q (if b then write_at p c (g k) else g k)) e
      ∙ is_open-write_at q p c (g k) o (ground arith)
  | inr e ↦ ap (λ b. is_open q (if b then write_at p c (g k) else g k)) e ∙ o
]

pub has_link-remove_at : (q p : Location) (t : Tree) → has_link q (remove_at p t) ≡ has_link q t
unfolding has_link remove_at
has_link-remove_at q [] missing = refl
has_link-remove_at q [] linked = refl
has_link-remove_at q [] special = refl
has_link-remove_at q [] (regular o) = ground arith
has_link-remove_at q [] (directory f) = refl
has_link-remove_at q (s ∷ p) missing = refl
has_link-remove_at q (s ∷ p) linked = refl
has_link-remove_at q (s ∷ p) special = refl
has_link-remove_at q (s ∷ p) (regular o) = refl
has_link-remove_at [] (s ∷ p) (directory f) = refl
has_link-remove_at (k ∷ q) (s ∷ p) (directory f) = elim (Bool-cases (codes_eq s k)) [
  | inl e ↦
      ap (λ b. has_link q (if b then remove_at p (f k) else f k)) e ∙ has_link-remove_at q p (f k)
  | inr e ↦ ap (λ b. has_link q (if b then remove_at p (f k) else f k)) e
]

pub bytes-remove_at :
    (q p : Location) (t : Tree)
    → same_path p q ≡ false
    → bytes_of (look q (remove_at p t)) ≡ bytes_of (look q t)
unfolding look remove_at
bytes-remove_at [] [] t n = absurd (ground arith)
bytes-remove_at (k ∷ q) [] missing n = refl
bytes-remove_at (k ∷ q) [] linked n = refl
bytes-remove_at (k ∷ q) [] special n = refl
bytes-remove_at (k ∷ q) [] (regular o) n = refl
bytes-remove_at (k ∷ q) [] (directory f) n = refl
bytes-remove_at q (s ∷ p) missing n = refl
bytes-remove_at q (s ∷ p) linked n = refl
bytes-remove_at q (s ∷ p) special n = refl
bytes-remove_at q (s ∷ p) (regular o) n = refl
bytes-remove_at [] (s ∷ p) (directory f) n = refl
bytes-remove_at (k ∷ q) (s ∷ p) (directory f) n = elim (Bool-cases (codes_eq s k)) [
  | inl e ↦
      ap (λ b. bytes_of (look q (if b then remove_at p (f k) else f k))) e
      ∙ bytes-remove_at q p (f k) (ground arith)
  | inr e ↦ ap (λ b. bytes_of (look q (if b then remove_at p (f k) else f k))) e
]

-- What is missing stays missing.
pub missing-remove_at :
    (q p : Location) (t : Tree) → look q t ≡ missing → look q (remove_at p t) ≡ missing
unfolding look remove_at
missing-remove_at q [] missing m = m
missing-remove_at q [] linked m = m
missing-remove_at q [] special m = m
missing-remove_at q [] (regular o) m = look_missing q
missing-remove_at q [] (directory f) m = m
missing-remove_at q (s ∷ p) missing m = m
missing-remove_at q (s ∷ p) linked m = m
missing-remove_at q (s ∷ p) special m = m
missing-remove_at q (s ∷ p) (regular o) m = m
missing-remove_at [] (s ∷ p) (directory f) m = absurd (ground arith)
missing-remove_at (k ∷ q) (s ∷ p) (directory f) m = elim (Bool-cases (codes_eq s k)) [
  | inl e ↦
      ap (λ b. look q (if b then remove_at p (f k) else f k)) e ∙ missing-remove_at q p (f k) m
  | inr e ↦ ap (λ b. look q (if b then remove_at p (f k) else f k)) e ∙ m
]

pub look-remove_at :
    (p : Location) (c : String) (t : Tree) → look p t ≡ regular c → look p (remove_at p t) ≡ missing
unfolding look remove_at
look-remove_at [] c (regular o) h = refl
look-remove_at [] c missing h = absurd (ground arith)
look-remove_at [] c linked h = absurd (ground arith)
look-remove_at [] c special h = absurd (ground arith)
look-remove_at [] c (directory f) h = absurd (ground arith)
look-remove_at (s ∷ p) c missing h = absurd (ground arith)
look-remove_at (s ∷ p) c linked h = absurd (ground arith)
look-remove_at (s ∷ p) c special h = absurd (ground arith)
look-remove_at (s ∷ p) c (regular o) h = absurd (ground arith)
look-remove_at (s ∷ p) c (directory f) h =
    ap (λ b. look p (if b then remove_at p (f s) else f s)) (codes_eq_refl s)
    ∙ look-remove_at p c (f s) h

-- The same file, by its path.
pub same_path-eq : (p q : Location) → same_path p q ≡ true → p ≡ q
same_path-eq [] [] h = refl
same_path-eq [] (b ∷ q) h = cc
same_path-eq (a ∷ p) [] h = cc
same_path-eq (a ∷ p) (b ∷ q) h = ground (arith, codes_eq-eq a b, same_path-eq p q)
