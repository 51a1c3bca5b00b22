-- ===== src/Snapshot/Framing.antt =====
-- The bytes that name a snapshot determine its files: `_snapshot_material` of src/asme/snapshot.py.
use agentic_skills_lifecycle.Prelude.{
  ℕ, zero, suc, ◌*◌, ◌/◌, ◌%◌, ◌^◌, ◌<◌, ◌↔◌, ◌≡◌, ◌∙◌, refl, sym, ap, codes, List, [], ◌∷◌, ◌++◌,
  map, arith, length, length-append, append_assoc, Bytes, encode, encode_char, big_endian,
}
use agentic_skills_lifecycle.Snapshot.{SnapshotFile, framed, material}

module _ {A : Type 0} where
  abbrev tail_of : List A → List A
  tail_of [] = []
  tail_of (x ∷ xs) = xs

  -- Two texts of the same length before two rests.
  append-injective :
      (xs ys r s : List A) → length xs ≡ length ys → xs ++ r ≡ ys ++ s → (xs ≡ ys) × (r ≡ s)
  append-injective [] [] r s l h = (refl, h)
  append-injective [] (y ∷ ys) r s l h = absurd (ground arith)
  append-injective (x ∷ xs) [] r s l h = absurd (ground arith)
  append-injective (x ∷ xs) (y ∷ ys) r s l h =
      let (a, b) = append-injective xs ys r s (ground arith) (ap tail_of h) in (ground arith, b)

-- The numbers of so many bytes.
abbrev power : ℕ → ℕ
power zero = 1
power (suc k) = 256 * power k

length-big_endian : (k n : ℕ) → length (big_endian k n) ≡ k
unfolding big_endian
length-big_endian zero n = refl
length-big_endian (suc k) n =
    length-append (big_endian k (n / 256)) (n % 256 ∷ [])
    ∙ ground (arith, length-big_endian k (n / 256))

div_lt : (n p : ℕ) → n < 256 * p → n / 256 < p
div_lt n p h = omega arith

big_endian-injective :
    (k m n : ℕ) → m < power k → n < power k → big_endian k m ≡ big_endian k n → m ≡ n
unfolding big_endian
big_endian-injective zero m n a b h = omega arith
big_endian-injective (suc k) m n a b h =
    let (x, y) =
      append-injective (big_endian k (m / 256)) (big_endian k (n / 256)) (m % 256 ∷ [])
        (n % 256 ∷ []) (length-big_endian k (m / 256) ∙ sym (length-big_endian k (n / 256))) h in
    let q =
      big_endian-injective k (m / 256) (n / 256) (div_lt m (power k) a) (div_lt n (power k) b) x in
    ground arith

-- A frame before a rest.
framed-injective :
    (a b r s : Bytes)
    → length a < power 8
    → length b < power 8
    → framed a ++ r ≡ framed b ++ s
    → (a ≡ b) × (r ≡ s)
unfolding framed
framed-injective a b r s l m h =
    let (x, y) =
      append-injective (big_endian 8 (length a)) (big_endian 8 (length b)) (a ++ r) (b ++ s)
        (length-big_endian 8 (length a) ∙ sym (length-big_endian 8 (length b)))
        (sym (append_assoc (big_endian 8 (length a)) a r)
          ∙ h
          ∙ append_assoc (big_endian 8 (length b)) b s) in
    append-injective a b r s (big_endian-injective 8 (length a) (length b) l m x) y

-- Two characters before two rests.
encode_char-injective :
    (c d : ℕ) (r s : Bytes)
    → c < 0x110000
    → d < 0x110000
    → encode_char c ++ r ≡ encode_char d ++ s
    → (c ≡ d) × (r ≡ s)
unfolding encode_char
encode_char-injective c d r s a b h = ground arith

-- The characters of a text are Unicode code points.
abbrev pub AreCodePoints : List ℕ → Type 0
AreCodePoints [] = Unit {0}
AreCodePoints (c ∷ cs) = (c < 0x110000) × AreCodePoints cs

encode_char-cons : (c : ℕ) (r : Bytes) → encode_char c ++ r ≡ [] → ⊥
unfolding encode_char
encode_char-cons c r h = ground arith

encode-injective :
    (cs ds : List ℕ) → AreCodePoints cs → AreCodePoints ds → encode cs ≡ encode ds → cs ≡ ds
unfolding encode
encode-injective [] [] a b h = refl
encode-injective [] (d ∷ ds) a b h = absurd (encode_char-cons d (encode ds) (sym h))
encode-injective (c ∷ cs) [] a b h = absurd (encode_char-cons c (encode cs) h)
encode-injective (c ∷ cs) (d ∷ ds) (x, a) (y, b) h =
    let (p, q) = encode_char-injective c d (encode cs) (encode ds) x y h in
    let tail = encode-injective cs ds a b q in ground arith

-- The files whose lengths `to_bytes(8, "big")` can write.
pub record CanFrame (f : SnapshotFile) : Type 0 where
  pub points : AreCodePoints (codes f.path)
  pub short_path : length (encode (codes f.path)) < 256 ^ 8
  pub short_content : length f.content < 256 ^ 8

abbrev pub AreFramable : List SnapshotFile → Type 0
AreFramable [] = Unit {0}
AreFramable (f ∷ fs) = CanFrame f × AreFramable fs

-- The paths of files, by code points, with their contents.
abbrev pub contents : List SnapshotFile → List (List ℕ × Bytes)
contents files = map (λ f. (codes f.path, f.content)) files

framed-cons : (a r : Bytes) → framed a ++ r ≡ [] → ⊥
unfolding framed
framed-cons a r h =
    let n = length-big_endian 8 (length a) in
    let m = length-append (big_endian 8 (length a) ++ a) r in
    let k = length-append (big_endian 8 (length a)) a in let z = ap length h in ground arith

material-step :
    (a b : SnapshotFile) (r s : Bytes)
    → CanFrame a
    → CanFrame b
    → framed (encode (codes a.path)) ++ framed a.content ++ r
      ≡ framed (encode (codes b.path)) ++ framed b.content ++ s
    → (codes a.path ≡ codes b.path) × (a.content ≡ b.content) × (r ≡ s)
material-step a b r s x y h =
    let (p, rest) =
      framed-injective (encode (codes a.path)) (encode (codes b.path)) (framed a.content ++ r)
        (framed b.content ++ s) x.short_path y.short_path
        (sym (append_assoc (framed (encode (codes a.path))) (framed a.content) r)
          ∙ h
          ∙ append_assoc (framed (encode (codes b.path))) (framed b.content) s) in
    let (c, q) = framed-injective a.content b.content r s x.short_content y.short_content rest in
    (encode-injective (codes a.path) (codes b.path) x.points y.points p, c, q)

abbrev first_path : List (List ℕ × Bytes) → List ℕ
first_path [] = []
first_path ((path, content) ∷ rest) = path

abbrev first_content : List (List ℕ × Bytes) → Bytes
first_content [] = []
first_content ((path, content) ∷ rest) = content

contents-material :
    (fs hs : List SnapshotFile) → contents fs ≡ contents hs → material fs ≡ material hs
unfolding material
contents-material [] [] h = refl
contents-material [] (b ∷ hs) h = absurd (ground arith)
contents-material (a ∷ fs) [] h = absurd (ground arith)
contents-material (a ∷ fs) (b ∷ hs) h =
    let path = ap first_path h in
    let content = ap first_content h in
    let tail = contents-material fs hs (ap tail_of h) in ground arith

material-cons : (a : SnapshotFile) (fs : List SnapshotFile) → material (a ∷ fs) ≡ [] → ⊥
unfolding material
material-cons a fs h =
    framed-cons (encode (codes a.path)) (framed a.content ++ material fs)
      (sym (append_assoc (framed (encode (codes a.path))) (framed a.content) (material fs)) ∙ h)

material-injective :
    (fs hs : List SnapshotFile)
    → AreFramable fs
    → AreFramable hs
    → material fs ≡ material hs
    → contents fs ≡ contents hs
unfolding material
material-injective [] [] x y h = refl
material-injective [] (b ∷ hs) x y h = absurd (material-cons b hs (sym h))
material-injective (a ∷ fs) [] x y h = absurd (material-cons a fs h)
material-injective (a ∷ fs) (b ∷ hs) (x, xs) (y, ys) h =
    let (p, c, rest) = material-step a b (material fs) (material hs) x y h in
    let tail = material-injective fs hs xs ys rest in ground arith

-- Two snapshots are hashed from the same bytes exactly when their files have the same paths and the
-- same contents in the same order. The lengths of the paths and of the contents are those that
-- eight bytes can write.
pub material-contents :
    (fs hs : List SnapshotFile)
    → AreFramable fs
    → AreFramable hs
    → (material fs ≡ material hs) ↔ (contents fs ≡ contents hs)
material-contents fs hs a b = (material-injective fs hs a b, contents-material fs hs)
