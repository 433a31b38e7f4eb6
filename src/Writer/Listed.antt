-- ===== src/Writer/Listed.antt =====
-- The channels that the back end lists.
use esconf.Prelude.{
  Text, bytes, streq, streq_iff, streq_refl, ℕ, length, length-append, ◌>>=◌, ◌==◌, Bool,
  Bool-cases, Option-cases, false, ◌||◌, ◌&&◌, ◌≡◌, refl, ap, sym, ◌∙◌, inl, inr, Option, none,
  some, List, [], ◌∷◌, ◌++◌, if◌then◌else◌, arith,
}
use esconf.Platform.{Platform, Disk}
use esconf.Perchannel.{Xbpx}
use esconf.Writer.Flush.{without_suffix, is_listed, list_names, list_dirs, list_channels}

-- Is there a file `<channel>.xml` in one of the directories that can be read?
abbrev pub is_stored : Platform → Disk → Text → List Text → Bool
is_stored p disk channel_name [] = false
is_stored p disk channel_name (dir ∷ dirs) =
    elim (p.read_dir disk dir) [
      | none ↦ false
      | some names ↦ is_listed (channel_name ++ bytes ".xml") names
    ]
    || is_stored p disk channel_name dirs

abbrev has_stem : Text → Option Text → Bool
has_stem name none = false
has_stem name (some stem) = streq name stem

streq_comm : (a b : Text) → streq a b ≡ streq b a
unfolding streq
streq_comm [] [] = refl
streq_comm [] (d ∷ b) = refl
streq_comm (c ∷ a) [] = refl
streq_comm (c ∷ a) (d ∷ b) = ground (arith, streq_comm a b)

streq_nil_r : (name : Text) → false ≡ streq (name ++ bytes ".xml") []
unfolding streq
streq_nil_r [] = refl
streq_nil_r (d ∷ name) = refl

streq_cons : (d : ℕ) (name : Text) → streq (d ∷ name) [] ≡ false
unfolding streq
streq_cons d name = refl

streq_cons_cons : (d c : ℕ) (a b : Text) → streq (d ∷ a) (c ∷ b) ≡ (d == c && streq a b)
unfolding streq
streq_cons_cons d c a b = refl

has_stem-nil : (c : ℕ) (o : Option Text) → has_stem [] (o >>= λ stem. some (c ∷ stem)) ≡ false
unfolding streq
has_stem-nil c none = refl
has_stem-nil c (some stem) = refl

has_stem-cons :
    (c d : ℕ) (name : Text) (o : Option Text)
    → has_stem (d ∷ name) (o >>= λ stem. some (c ∷ stem)) ≡ (d == c && has_stem name o)
unfolding streq
has_stem-cons c d name none = ground arith
has_stem-cons c d name (some stem) = refl

-- A longer name is not the suffix.
streq-longer :
    (d : ℕ) (name file : Text)
    → file ≡ bytes ".xml"
    → streq (d ∷ (name ++ bytes ".xml")) file ≡ false
streq-longer d name file e = elim (Bool-cases (streq (d ∷ (name ++ bytes ".xml")) file)) [
  | inl same ↦ absurd (
      omega (
        arith,
        ap length ((streq_iff (d ∷ (name ++ bytes ".xml")) file).0 same ∙ e),
        length-append name (bytes ".xml"),
      ))
  | inr different ↦ different
]

without_suffix-streq :
    (name file : Text) → has_stem name (without_suffix file) ≡ streq (name ++ bytes ".xml") file
unfolding without_suffix
without_suffix-streq [] [] = streq_nil_r []
without_suffix-streq (d ∷ name) [] = streq_nil_r (d ∷ name)
without_suffix-streq [] (c ∷ file) = elim (Bool-cases (streq (c ∷ file) (bytes ".xml"))) [
  | inl same ↦ rw same (
      rw ((streq_iff (c ∷ file) (bytes ".xml")).0 same)
        (streq_refl [] ∙ sym (streq_refl (bytes ".xml"))))
  | inr different ↦ rw different (
      has_stem-nil c (without_suffix file) ∙ sym (streq_comm (bytes ".xml") (c ∷ file) ∙ different))
]
without_suffix-streq (d ∷ name) (c ∷ file) = elim (Bool-cases (streq (c ∷ file) (bytes ".xml"))) [
  | inl same ↦ rw same (
      streq_cons d name
      ∙ sym (streq-longer d name (c ∷ file) ((streq_iff (c ∷ file) (bytes ".xml")).0 same)))
  | inr different ↦ rw different (
      has_stem-cons c d name (without_suffix file)
      ∙ rw (without_suffix-streq name file) (sym (streq_cons_cons d c (name ++ bytes ".xml") file)))
]

is_listed-added :
    (channel_name stem : Text) (channels : List Text)
    → is_listed channel_name (if is_listed stem channels then channels else stem ∷ channels)
      ≡ (streq channel_name stem || is_listed channel_name channels)
is_listed-added channel_name stem channels = elim (Bool-cases (is_listed stem channels)) [
  | inl there ↦ rw there (elim (Bool-cases (streq channel_name stem)) [
    | inl same ↦ ground (arith, same, rw (sym ((streq_iff channel_name stem).0 same)) at there)
    | inr different ↦ ground (arith, different)
  ])
  | inr new ↦ rw new (ground (arith, streq_comm stem channel_name))
]

-- One round of the loops.
list_names-none :
    (name : Text) (names channels : List Text)
    → without_suffix name ≡ none
    → list_names (name ∷ names) channels ≡ list_names names channels
unfolding list_names
list_names-none name names channels e = rw (e, list_names) refl

list_names-some :
    (name stem : Text) (names channels : List Text)
    → without_suffix name ≡ some stem
    → list_names (name ∷ names) channels
      ≡ list_names names (if is_listed stem channels then channels else stem ∷ channels)
unfolding list_names
list_names-some name stem names channels e = rw (e, list_names) refl

list_dirs-none :
    (p : Platform) (disk : Disk) (dir : Text) (dirs channels : List Text)
    → p.read_dir disk dir ≡ none
    → list_dirs p disk (dir ∷ dirs) channels ≡ list_dirs p disk dirs channels
unfolding list_dirs
list_dirs-none p disk dir dirs channels e = rw (e, list_dirs) refl

list_dirs-some :
    (p : Platform) (disk : Disk) (dir : Text) (names dirs channels : List Text)
    → p.read_dir disk dir ≡ some names
    → list_dirs p disk (dir ∷ dirs) channels ≡ list_dirs p disk dirs (list_names names channels)
unfolding list_dirs
list_dirs-some p disk dir names dirs channels e = rw (e, list_dirs) refl

-- The names of a directory.
list_names-listed :
    (channel_name : Text) (names channels : List Text)
    → is_listed channel_name (list_names names channels)
      ≡ (is_listed (channel_name ++ bytes ".xml") names || is_listed channel_name channels)
unfolding list_names
list_names-listed channel_name [] channels = refl
list_names-listed channel_name (name ∷ names) channels = elim (Option-cases (without_suffix name)) [
  | inl e ↦ rw (list_names-none name names channels e) (
      ground (
        arith,
        list_names-listed channel_name names channels,
        streq_comm name (channel_name ++ bytes ".xml"),
        rw e at (without_suffix-streq channel_name name),
      ))
  | inr (stem, e) ↦ rw (list_names-some name stem names channels e) (
      ground (
        arith,
        list_names-listed channel_name names
            (if is_listed stem channels then channels else stem ∷ channels),
        is_listed-added channel_name stem channels,
        streq_comm name (channel_name ++ bytes ".xml"),
        rw e at (without_suffix-streq channel_name name),
      ))
]

list_dirs-listed :
    (p : Platform) (disk : Disk) (channel_name : Text) (dirs channels : List Text)
    → is_listed channel_name (list_dirs p disk dirs channels)
      ≡ (is_stored p disk channel_name dirs || is_listed channel_name channels)
unfolding list_dirs
list_dirs-listed p disk channel_name [] channels = refl
list_dirs-listed p disk channel_name (dir ∷ dirs) channels =
    elim (Option-cases (p.read_dir disk dir)) [
      | inl e ↦
          rw (list_dirs-none p disk dir dirs channels e)
            (ground (arith, e, list_dirs-listed p disk channel_name dirs channels))
      | inr (names, e) ↦ rw (list_dirs-some p disk dir names dirs channels e) (
          ground (
            arith,
            e,
            list_dirs-listed p disk channel_name dirs (list_names names channels),
            list_names-listed channel_name names channels,
          ))
    ]

-- Distinct channels.
abbrev pub IsUnique : List Text → Type 0
IsUnique [] = Unit
IsUnique (name ∷ names) = (is_listed name names ≡ false) × IsUnique names

IsUnique-added :
    (stem : Text) (channels : List Text)
    → IsUnique channels
    → IsUnique (if is_listed stem channels then channels else stem ∷ channels)
IsUnique-added stem channels h = elim (Bool-cases (is_listed stem channels)) [
  | inl there ↦ rw there h
  | inr new ↦ rw new (new, h)
]

list_names-IsUnique :
    (names channels : List Text) → IsUnique channels → IsUnique (list_names names channels)
unfolding list_names
list_names-IsUnique [] channels h = h
list_names-IsUnique (name ∷ names) channels h = elim (Option-cases (without_suffix name)) [
  | inl e ↦ rw (list_names-none name names channels e) (list_names-IsUnique names channels h)
  | inr (stem, e) ↦ rw (list_names-some name stem names channels e) (
      list_names-IsUnique names (if is_listed stem channels then channels else stem ∷ channels)
        (IsUnique-added stem channels h))
]

list_dirs-IsUnique :
    (p : Platform) (disk : Disk) (dirs channels : List Text)
    → IsUnique channels
    → IsUnique (list_dirs p disk dirs channels)
unfolding list_dirs
list_dirs-IsUnique p disk [] channels h = h
list_dirs-IsUnique p disk (dir ∷ dirs) channels h = elim (Option-cases (p.read_dir disk dir)) [
  | inl e ↦
      rw (list_dirs-none p disk dir dirs channels e) (list_dirs-IsUnique p disk dirs channels h)
  | inr (names, e) ↦ rw (list_dirs-some p disk dir names dirs channels e) (
      list_dirs-IsUnique p disk dirs (list_names names channels)
        (list_names-IsUnique names channels h))
]

pub list_channels-listed :
    (p : Platform) (channel_name : Text) (x : Xbpx)
    → IsUnique (list_channels p [] x)
      × (is_listed channel_name (list_channels p [] x)
          ≡ is_stored p x.disk channel_name
              (p.lookup_all x.disk (bytes "expidus1/esconf/expidus-perchannel-xml/")))
unfolding list_channels
list_channels-listed p channel_name x = (
  list_dirs-IsUnique p x.disk
      (p.lookup_all x.disk (bytes "expidus1/esconf/expidus-perchannel-xml/")) [] tt,
  ground (
    arith,
    list_dirs-listed p x.disk channel_name
        (p.lookup_all x.disk (bytes "expidus1/esconf/expidus-perchannel-xml/")) [],
  ),
)
