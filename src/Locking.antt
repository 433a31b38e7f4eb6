-- ===== src/Locking.antt =====
-- esconfd/esconf-locking-utils.c: is the user named by a `locked` or `unlocked` attribute? The static
-- variables are a state that the functions pass on.
pub mod Laws
use esconf.Prelude.{
  Text, HashTable, lookup, insert, streq, ℕ, ltb, ◌==◌, Bool, true, false, not, ◌||◌, is_some,
  Option, none, some, ◌>>=◌, List, [], ◌∷◌, if◌then◌else◌,
}
use esconf.Platform.{Platform}

-- `etc_group_mtime` and `group_cache`
pub record GroupCache : Type 0 where
  pub etc_group_mtime : ℕ
  pub group_cache : Option (HashTable (List Text))

-- The loop over `getgrent`, where a group that comes again replaces the first one.
unfoldable pub add_groups : HashTable (List Text) → List (Text × List Text) → HashTable (List Text)
add_groups cache [] = cache
add_groups cache ((group, members) ∷ groups) = add_groups (insert group members cache) groups

unfoldable pub is_member : Text → List Text → Bool
is_member user [] = false
is_member user (m ∷ members) = streq m user || is_member user members

-- `needs_rebuild`, and the time that is kept.
abbrev pub needs_rebuild : Option ℕ → ℕ → Bool
needs_rebuild none mtime = true
needs_rebuild (some st_mtime) mtime = ltb mtime st_mtime

abbrev pub mtime_kept : Option ℕ → ℕ → ℕ
mtime_kept none mtime = mtime
mtime_kept (some st_mtime) mtime = if ltb mtime st_mtime then st_mtime else mtime

abbrev pub is_in : Text → Option (List Text) → Bool
is_in user none = false
is_in user (some members) = is_member user members

module _ (p : Platform) where
  -- `esconf_ensure_group_cache`: the cache is built anew where the file is newer, cannot be asked, or
  -- where there is no cache.
  unfoldable pub ensure_group_cache : GroupCache → GroupCache
  ensure_group_cache s = record {
    etc_group_mtime = mtime_kept p.etc_group_stat s.etc_group_mtime;
    group_cache =
        if needs_rebuild p.etc_group_stat s.etc_group_mtime || not (is_some s.group_cache)
        then some (add_groups [] p.groups)
        else s.group_cache;
  }

  -- `esconf_user_is_in_group`
  unfoldable pub user_is_in_group : Text → Text → GroupCache → Bool × GroupCache
  user_is_in_group user group s =
      let s' = ensure_group_cache s in (is_in user (s'.group_cache >>= lookup group), s')

  -- Does one token name the user, or after `@` a group of the user?
  unfoldable pub token_matches : Text → Text → GroupCache → Bool × GroupCache
  token_matches user [] s = (false, s)
  token_matches user (c ∷ token) s =
      if c == b'@' then user_is_in_group user token s else (streq user (c ∷ token), s)

  -- The loop over the tokens, up to the first one that matches.
  unfoldable pub some_token_matches : Text → List Text → GroupCache → Bool × GroupCache
  some_token_matches user [] s = (false, s)
  some_token_matches user (t ∷ tokens) s =
      let first = token_matches user t s in
      let rest = some_token_matches user tokens first.1 in if first.0 then first else rest

  -- `esconf_user_is_in_list`
  unfoldable pub user_is_in_list : Text → GroupCache → Bool × GroupCache
  user_is_in_list list s = some_token_matches p.user_name (p.strsplit b';' list) s

  -- The answer to the parser. A call leaves a cache for which every later call has the same answers, while
  -- the group file is as it is, so each call of the parser may start from the same one.
  abbrev pub is_user_in_list : Text → Bool
  is_user_in_list list =
      (user_is_in_list list
        (record { etc_group_mtime = p.etc_group_mtime; group_cache = p.group_cache })).0
