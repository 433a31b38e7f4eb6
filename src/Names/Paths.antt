-- ===== src/Names/Paths.antt =====
-- Paths as lists of components: `/a/b` is the path of `a` and `b`.
use esconf.Prelude.{
  Text, strrchr, has_double_slash, ℕ, ◌≡◌, refl, true, false, none, some, List, [], ◌∷◌, ◌++◌, All,
  arith,
}
use esconf.Platform.{Lacks, joined}
use esconf.Names.{prop_name_is_valid}
use mathlib.Core.List.{append-nil, append_assoc}

-- A component is not empty and has no slash in it.
abbrev pub IsComponent : Text → Type 0
IsComponent [] = ⊥
IsComponent (c ∷ s) = Lacks b'/' (c ∷ s)

-- Each component with a slash in front.
abbrev pub path : List Text → Text
path = joined b'/'

-- Where a byte does not stand, `strrchr` finds nothing.
strrchr-Lacks : (d : ℕ) (s : Text) → Lacks d s → strrchr d s ≡ none
unfolding strrchr
strrchr-Lacks d [] h = refl
strrchr-Lacks d (c ∷ s) h = rw (strrchr-Lacks d s h.1, strrchr) (ground arith)

-- The last slash is the one that nothing behind it repeats.
pub strrchr-append : (d : ℕ) (s t : Text) → Lacks d t → strrchr d (s ++ d ∷ t) ≡ some (s, t)
unfolding strrchr
strrchr-append d [] t h = rw (strrchr-Lacks d t h, strrchr) (ground arith)
strrchr-append d (c ∷ s) t h = rw (strrchr-append d s t h, strrchr) refl

-- A path never has two slashes in a row.
has_double_slash-append-path :
    (s : Text) (ps : List Text)
    → Lacks b'/' s
    → All IsComponent ps
    → has_double_slash (s ++ path ps) ≡ false
unfolding has_double_slash
has_double_slash-append-path [] [] h k = refl
has_double_slash-append-path [] ([] ∷ ps) h k = elim k.0 [ ]
has_double_slash-append-path (c ∷ []) ([] ∷ ps) h k = elim k.0 [ ]
has_double_slash-append-path [] ((c ∷ p) ∷ ps) h k =
    ground (arith, has_double_slash-append-path (c ∷ p) ps k.0 k.1)
has_double_slash-append-path (c ∷ []) [] h k = refl
has_double_slash-append-path (c ∷ []) ((d ∷ p) ∷ ps) h k =
    ground (arith, has_double_slash-append-path [] ((d ∷ p) ∷ ps) tt k)
has_double_slash-append-path (c ∷ d ∷ s) ps h k =
    ground (arith, has_double_slash-append-path (d ∷ s) ps h.1 k)

-- A path of at least one component is a valid property name.
pub prop_name_is_valid-path :
    (p : Text) (ps : List Text)
    → All IsComponent (p ∷ ps)
    → prop_name_is_valid (path (p ∷ ps)) ≡ true
unfolding prop_name_is_valid
prop_name_is_valid-path [] ps h = elim h.0 [ ]
prop_name_is_valid-path (c ∷ p) ps h =
    ground (arith, has_double_slash-append-path [] ((c ∷ p) ∷ ps) tt h)

-- The path of a child is the path of its parent, a slash and its name.
pub path-append : (ps : List Text) (p : Text) → path (ps ++ p ∷ []) ≡ path ps ++ b'/' ∷ p
path-append [] p = rw append-nil
path-append (q ∷ ps) p = rw (path-append ps p, append_assoc)
