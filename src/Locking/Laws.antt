-- ===== src/Locking/Laws.antt =====
-- Whom a `locked` or `unlocked` attribute names.
use esconf.Prelude.{
  Text, HashTable, lookup, lookup-insert, insert, streq, streq_iff, ==_iff, ℕ, ◌==◌, ◌<◌, ◌≤◌, ◌≡◌,
  ◌≢◌, ◌↔◌, ◌⊎◌, inl, inr, refl, ap, sym, ◌∙◌, Bool, Bool-cases, Option-cases, true, Option, none,
  some, List, [], ◌∷◌, ◌++◌, All, arith,
}
use esconf.Platform.{Platform, IsSplitter, Lacks, joined}
use esconf.Locking.{
  GroupCache, add_groups, is_member, is_in, ensure_group_cache, user_is_in_group, token_matches,
  some_token_matches, user_is_in_list,
}

-- A predicate on one of the elements.
abbrev pub Any : (Text → Type 0) → List Text → Type 0
Any P [] = ⊥
Any P (x ∷ xs) = P x ⊎ Any P xs

-- No entry of the group file has that name.
abbrev pub NoneNamed : Text → List (Text × List Text) → Type 0
NoneNamed group [] = Unit
NoneNamed group ((name, members) ∷ groups) = (name ≢ group) × NoneNamed group groups

-- The last entry of that name in the group file has the user.
abbrev pub IsMemberOf : List (Text × List Text) → Text → Text → Type 0
IsMemberOf [] group user = ⊥
IsMemberOf ((name, members) ∷ groups) group user =
    IsMemberOf groups group user
    ⊎ ((name ≡ group) × NoneNamed group groups × Any (λ m. m ≡ user) members)

-- A token names a user by name, or after `@` by a group that has the user for a member.
abbrev pub IsNamedBy : Text → List (Text × List Text) → Text → Type 0
IsNamedBy user groups [] = ⊥
IsNamedBy user groups (c ∷ token) =
    ((c ≢ b'@') × (user ≡ c ∷ token)) ⊎ ((c ≡ b'@') × IsMemberOf groups token user)

-- The cache has the members of the groups.
abbrev pub Holds : HashTable (List Text) → List (Text × List Text) → Type 0
Holds cache groups =
    (group user : Text)
    → ((members : List Text) × (lookup group cache ≡ some members) × Any (λ m. m ≡ user) members)
      ↔ IsMemberOf groups group user

-- The groups that the next call goes by: those of the group file, if this is newer than the cache, cannot
-- be asked, or if there is no cache; and else those that the cache has.
abbrev pub InForce : Platform → GroupCache → List (Text × List Text) → Type 0
InForce p s groups =
    ((groups ≡ p.groups)
      × ((p.etc_group_stat ≡ none)
          ⊎ (s.group_cache ≡ none)
          ⊎ ((st_mtime : ℕ) × (p.etc_group_stat ≡ some st_mtime) × (s.etc_group_mtime < st_mtime))))
    ⊎ ((st_mtime : ℕ) × (cache : HashTable (List Text)) × (p.etc_group_stat ≡ some st_mtime)
        × (st_mtime ≤ s.etc_group_mtime)
        × (s.group_cache ≡ some cache)
        × Holds cache groups)

is_member_iff :
    (user : Text) (members : List Text)
    → (is_member user members ≡ true) ↔ Any (λ m. m ≡ user) members
unfolding is_member
is_member_iff user [] = ground arith
is_member_iff user (m ∷ members) = ground (arith, streq_iff m user, is_member_iff user members)

some-inj : (a b : List Text) → some a ≡ some b → a ≡ b
some-inj a b h = ap (λ o. elim o as (λ x. List Text) [ none ↦ a | some x ↦ x ]) h

is_in_iff :
    (user : Text) (o : Option (List Text))
    → (is_in user o ≡ true)
      ↔ ((members : List Text) × (o ≡ some members) × Any (λ m. m ≡ user) members)
is_in_iff user none =
    (λ h. absurd (ground (arith, h)), λ (members, e, x). absurd (ground (arith, e)))
is_in_iff user (some members) = (
  λ h. (members, refl, (is_member_iff user members).0 h),
  λ (others, e, x). (is_member_iff user members).1 (rw (some-inj members others e) x),
)

-- The loop over the group file.
add_groups_iff :
    (groups : List (Text × List Text)) (cache : HashTable (List Text)) (group user : Text)
    → (is_in user (lookup group (add_groups cache groups)) ≡ true) ↔ (
        IsMemberOf groups group user
        ⊎ (NoneNamed group groups × (is_in user (lookup group cache) ≡ true)))
unfolding add_groups
add_groups_iff [] cache group user =
    (λ h. inr (tt, h), λ h. elim h [ inl x ↦ absurd x | inr (n, x) ↦ x ])
add_groups_iff ((name, members) ∷ groups) cache group user =
    let ih = add_groups_iff groups (insert name members cache) group user in
    elim (Bool-cases (streq name group)) [
      | inl same ↦
          let e = (streq_iff name group).0 same in
          let at : is_in user (lookup group (insert name members cache)) ≡ is_member user members =
            rw (lookup-insert name group members cache, same) refl in
          (
            λ h. elim (ih.0 h) [
              | inl m ↦ inl (inl m)
              | inr (last, x) ↦ inl (inr (e, last, (is_member_iff user members).0 (sym at ∙ x)))
            ],
            λ h. ih.1 (elim h [
              | inl m ↦ elim m [
                | inl later ↦ inl later
                | inr (_, last, x) ↦ inr (last, at ∙ (is_member_iff user members).1 x)
              ]
              | inr ((other, last), x) ↦ absurd (other e)
            ]),
          )
      | inr different ↦
          let n : name ≢ group =
            λ e. absurd (ground (arith, different, (streq_iff name group).1 e)) in
          let at : is_in user (lookup group (insert name members cache))
              ≡ is_in user (lookup group cache) =
            rw (lookup-insert name group members cache, different) refl in
          (
            λ h. elim (ih.0 h) [
              | inl m ↦ inl (inl m)
              | inr (last, x) ↦ inr ((n, last), sym at ∙ x)
            ],
            λ h. ih.1 (elim h [
              | inl m ↦ elim m [ inl later ↦ inl later | inr (e, last, x) ↦ absurd (n e) ]
              | inr ((other, last), x) ↦ inr (last, at ∙ x)
            ]),
          )
    ]

add_groups-Holds : (groups : List (Text × List Text)) → Holds (add_groups [] groups) groups
unfolding lookup
add_groups-Holds groups group user =
    let loop = add_groups_iff groups [] group user in
    let found = is_in_iff user (lookup group (add_groups [] groups)) in
    (
      λ h. elim (loop.0 (found.1 h)) [ inl m ↦ m | inr (last, x) ↦ absurd (ground (arith, x)) ],
      λ m. found.0 (loop.1 (inl m)),
    )

-- What a call finds in the cache, and what the next one goes by.
abbrev IsEnsured : Platform → GroupCache → List (Text × List Text) → Type 0
IsEnsured p s groups =
    InForce p s groups
    × (cache : HashTable (List Text)) × (s.group_cache ≡ some cache)
    × Holds cache groups

ensure_group_cache-kept :
    (p : Platform) (s : GroupCache) (st_mtime : ℕ) (cache : HashTable (List Text))
    → p.etc_group_stat ≡ some st_mtime
    → st_mtime ≤ s.etc_group_mtime
    → s.group_cache ≡ some cache
    → ((ensure_group_cache p s).etc_group_mtime ≡ s.etc_group_mtime)
      × ((ensure_group_cache p s).group_cache ≡ some cache)
unfolding ensure_group_cache
ensure_group_cache-kept p s st_mtime cache at old cached =
    (ground (arith, at, old), ground (arith, at, old, cached))

ensure_group_cache-built :
    (p : Platform) (s : GroupCache)
    → ((p.etc_group_stat ≡ none)
        ⊎ (s.group_cache ≡ none)
        ⊎ ((st_mtime : ℕ) × (p.etc_group_stat ≡ some st_mtime) × (s.etc_group_mtime < st_mtime)))
    → (ensure_group_cache p s).group_cache ≡ some (add_groups [] p.groups)
unfolding ensure_group_cache
ensure_group_cache-built p s (inl unasked) = ground (arith, unasked)
ensure_group_cache-built p s (inr (inl missing)) = ground (arith, missing)
ensure_group_cache-built p s (inr (inr (st_mtime, at, newer))) = ground (arith, at, newer)

ensure_group_cache-mtime :
    (p : Platform) (s : GroupCache) (st_mtime : ℕ)
    → p.etc_group_stat ≡ some st_mtime
    → st_mtime ≤ (ensure_group_cache p s).etc_group_mtime
unfolding ensure_group_cache
ensure_group_cache-mtime p s st_mtime at = ground (arith, at)

ensure_group_cache-IsEnsured :
    (p : Platform) (s : GroupCache) (groups : List (Text × List Text))
    → InForce p s groups
    → IsEnsured p (ensure_group_cache p s) groups
ensure_group_cache-IsEnsured p s groups (inr (st_mtime, cache, at, old, cached, holds)) =
    let (mtime, kept) = ensure_group_cache-kept p s st_mtime cache at old cached in
    (
      inr (st_mtime, cache, at, ensure_group_cache-mtime p s st_mtime at, kept, holds),
      cache,
      kept,
      holds,
    )
ensure_group_cache-IsEnsured p s groups (inl (e, why)) =
    let built = ensure_group_cache-built p s why in
    let holds : Holds (add_groups [] p.groups) groups = rw e (add_groups-Holds p.groups) in
    (
      elim (Option-cases p.etc_group_stat) [
        | inl unasked ↦ inl (e, inl unasked)
        | inr (st_mtime, at) ↦ inr (
          st_mtime,
          add_groups [] p.groups,
          at,
          ensure_group_cache-mtime p s st_mtime at,
          built,
          holds,
        )
      ],
      add_groups [] p.groups,
      built,
      holds,
    )

-- One call, with the groups that are in force.
abbrev IsAnswer : Platform → List (Text × List Text) → Type 0 → Bool × GroupCache → Type 0
IsAnswer p groups Q (answer, s) = ((answer ≡ true) ↔ Q) × InForce p s groups

user_is_in_group-IsAnswer :
    (p : Platform) (user group : Text) (groups : List (Text × List Text)) (s : GroupCache)
    → InForce p s groups
    → IsAnswer p groups (IsMemberOf groups group user) (user_is_in_group p user group s)
unfolding user_is_in_group
user_is_in_group-IsAnswer p user group groups s h =
    let (force, cache, cached, holds) = ensure_group_cache-IsEnsured p s groups h in
    let found = is_in_iff user (lookup group cache) in
    (
      rw cached (λ x. (holds group user).0 (found.0 x), λ m. found.1 ((holds group user).1 m)),
      force,
    )

token_matches-IsAnswer :
    (p : Platform) (user token : Text) (groups : List (Text × List Text)) (s : GroupCache)
    → InForce p s groups
    → IsAnswer p groups (IsNamedBy user groups token) (token_matches p user token s)
unfolding token_matches
token_matches-IsAnswer p user [] groups s h = (ground arith, h)
token_matches-IsAnswer p user (c ∷ token) groups s h = elim (Bool-cases (c == b'@')) [
  | inl at ↦
      let (answer, force) = user_is_in_group-IsAnswer p user token groups s h in
      rw at (ground (arith, ==_iff c b'@', at, answer), force)
  | inr other ↦ rw other (ground (arith, ==_iff c b'@', other, streq_iff user (c ∷ token)), h)
]

some_token_matches-IsAnswer :
    (p : Platform) (user : Text) (tokens : List Text) (groups : List (Text × List Text))
    (s : GroupCache)
    → InForce p s groups
    → IsAnswer p groups (Any (IsNamedBy user groups) tokens) (some_token_matches p user tokens s)
unfolding some_token_matches
some_token_matches-IsAnswer p user [] groups s h = (ground arith, h)
some_token_matches-IsAnswer p user (t ∷ tokens) groups s h =
    let (answer, force) = token_matches-IsAnswer p user t groups s h in
    let (others, force') =
      some_token_matches-IsAnswer p user tokens groups (token_matches p user t s).1 force in
    elim (Bool-cases (token_matches p user t s).0) [
      | inl matches ↦ rw matches (ground (arith, matches, answer), force)
      | inr fails ↦ rw fails (ground (arith, fails, answer, others), force')
    ]

-- For the groups in force, which are those of the group file if this is newer than the cache,
-- cannot be asked, or if there is no cache, and else those that the cache has:
-- esconf_user_is_in_list of tokens joined by ; is TRUE exactly if one of the tokens is the user's
-- name, not beginning with @, or @ and the name of a group whose last entry has the user; and
-- behind it the same groups are in force.
pub user_is_in_list_iff :
    (p : Platform) (t : Text) (tokens : List Text) (groups : List (Text × List Text))
    (s : GroupCache)
    → IsSplitter p
    → Lacks b';' t
    → All (Lacks b';') tokens
    → t ++ joined b';' tokens ≢ []
    → InForce p s groups
    → let (answer, s') = user_is_in_list p (t ++ joined b';' tokens) s in
      ((answer ≡ true) ↔ Any (IsNamedBy p.user_name groups) (t ∷ tokens)) × InForce p s' groups
unfolding user_is_in_list
user_is_in_list_iff p t tokens groups s splits h k ne force =
    rw (splits.strsplit-joined b';' t tokens h k ne)
      (some_token_matches-IsAnswer p p.user_name (t ∷ tokens) groups s force)
