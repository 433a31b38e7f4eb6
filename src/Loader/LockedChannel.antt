-- ===== src/Loader/LockedChannel.antt =====
-- The files of a channel that a system file locks.
use mathlib.Core.Path.{subst}
use mathlib.Core.List.{reverse}
use esconf.Prelude.{
  Text, ◌≡◌, refl, ap, sym, ◌∙◌, Bool, true, false, not, Option, none, some, ◌>>=◌, List, [], ◌∷◌,
  ◌++◌, arith, if◌then◌else◌, inl, inr,
}
use esconf.Platform.{Platform, Disk}
use esconf.Loader.{Channel, new_channel}
use esconf.Loader.Files.{
  is_user_file, merge_file, merge_system_files, merge_user_file, build_channel,
}
use esconf.Loader.RunLock.{merge_file-lock}

abbrev lock_of : Bool → Option Channel → Bool
lock_of b none = b
lock_of b (some c) = c.locked

-- A step of a chain that ends with a channel has one itself.
bind-some :
    (o : Option Channel) (f : Channel → Option Channel) {c : Channel}
    → (o >>= f) ≡ some c
    → (m : Channel) × (o ≡ some m) × (f m ≡ some c)
bind-some none f h = absurd (ground arith)
bind-some (some m) f h = (m, refl, h)

module _ (p : Platform) (disk : Disk) where
  merge_system_files-cons :
      (user_file : Option Text) (filename : Text) (filenames : List Text) (channel : Channel)
      → merge_system_files p disk user_file (filename ∷ filenames) channel ≡ (
          if is_user_file user_file filename
          then merge_system_files p disk user_file filenames channel
          else (merge_file p disk filename true channel
              >>= merge_system_files p disk user_file filenames))
  unfolding merge_system_files
  merge_system_files-cons user_file filename filenames channel =
      go (is_user_file user_file filename)
    where
      go :
          (b : Bool)
          → (elim b as (λ x. Option Channel) [
            | true ↦ merge_system_files p disk user_file filenames channel
            | false ↦
                merge_file p disk filename true channel
                >>= merge_system_files p disk user_file filenames
          ])
            ≡ (if b
                then merge_system_files p disk user_file filenames channel
                else (merge_file p disk filename true channel
                    >>= merge_system_files p disk user_file filenames))
      go true = refl
      go false = refl

  -- No later system file withdraws a lock.
  merge_system_files-lock :
      (user_file : Option Text) (filenames : List Text) (channel channel' : Channel)
      → channel.locked ≡ true
      → merge_system_files p disk user_file filenames channel ≡ some channel'
      → channel'.locked ≡ true
  unfolding merge_system_files
  merge_system_files-lock user_file [] channel channel' h e =
      ground (arith, h, ap (lock_of true) {x = some channel} {y = some channel'} e)
  merge_system_files-lock user_file (f ∷ filenames) channel channel' h e =
      go (is_user_file user_file f)
        (sym (merge_system_files-cons user_file f filenames channel) ∙ e)
        (λ c. merge_system_files-lock user_file filenames c channel')
    where
      go :
          (b : Bool)
          → (if b
              then merge_system_files p disk user_file filenames channel
              else (merge_file p disk f true channel
                  >>= merge_system_files p disk user_file filenames))
            ≡ some channel'
          → ((c : Channel)
              → c.locked ≡ true
              → merge_system_files p disk user_file filenames c ≡ some channel'
              → channel'.locked ≡ true)
          → channel'.locked ≡ true
      go true x ih = ih channel h x
      go false x ih =
          let (c, merged, rest) = bind-some (merge_file p disk f true channel) _ x in
          ih c (merge_file-lock p true true disk f channel c (inl refl) h merged) rest

  merge_system_files-append :
      (user_file : Option Text) (fs gs : List Text) (channel : Channel)
      → merge_system_files p disk user_file (fs ++ gs) channel ≡ (
          merge_system_files p disk user_file fs channel >>= merge_system_files p disk user_file gs)
  merge_system_files-append user_file [] gs channel = unfold merge_system_files in refl
  merge_system_files-append user_file (f ∷ fs) gs channel =
      rw
        (
          merge_system_files-cons user_file f (fs ++ gs) channel,
          merge_system_files-cons user_file f fs channel,
        )
        (go (is_user_file user_file f) (λ c. merge_system_files-append user_file fs gs c))
    where
      merged :
          (o : Option Channel)
          → ((c : Channel)
              → merge_system_files p disk user_file (fs ++ gs) c ≡ (
                  merge_system_files p disk user_file fs c
                  >>= merge_system_files p disk user_file gs))
          → (o >>= merge_system_files p disk user_file (fs ++ gs)) ≡ (
              (o >>= merge_system_files p disk user_file fs)
              >>= merge_system_files p disk user_file gs)
      merged none ih = refl
      merged (some c) ih = ih c

      go :
          (b : Bool)
          → ((c : Channel)
              → merge_system_files p disk user_file (fs ++ gs) c ≡ (
                  merge_system_files p disk user_file fs c
                  >>= merge_system_files p disk user_file gs))
          → (if b
              then merge_system_files p disk user_file (fs ++ gs) channel
              else (merge_file p disk f true channel
                  >>= merge_system_files p disk user_file (fs ++ gs)))
            ≡ ((if b
                  then merge_system_files p disk user_file fs channel
                  else (merge_file p disk f true channel
                      >>= merge_system_files p disk user_file fs))
                >>= merge_system_files p disk user_file gs)
      go true ih = ih channel
      go false ih = merged (merge_file p disk f true channel) ih

  merge_user_file-locked :
      (user_file : Option Text) (channel channel' : Channel)
      → merge_user_file p disk user_file channel ≡ some channel'
      → channel'.locked ≡ true
      → some channel ≡ some channel'
  unfolding merge_user_file
  merge_user_file-locked none channel channel' e h = e
  merge_user_file-locked (some user_file) channel channel' e h = go channel.locked refl e
    where
      go :
          (b : Bool)
          → channel.locked ≡ b
          → (if not b then merge_file p disk user_file false channel else some channel)
            ≡ some channel'
          → some channel ≡ some channel'
      go true k x = x
      go false k x =
          let unlocked =
            merge_file-lock p false false disk user_file channel channel' (inr refl) k x in
          absurd (ground (arith, unlocked, h))

  merge_system_files-joined :
      (user_file : Option Text) (fs gs : List Text) (c channel locked : Channel)
      → merge_system_files p disk user_file fs c ≡ some locked
      → merge_system_files p disk user_file (fs ++ gs) c ≡ some channel
      → merge_system_files p disk user_file gs locked ≡ some channel
  merge_system_files-joined user_file fs gs c channel locked first all =
      let step : (merge_system_files p disk user_file fs c
            >>= merge_system_files p disk user_file gs)
          ≡ some channel =
        sym (merge_system_files-append user_file fs gs c) ∙ all in
      (rw first at step)

  -- If the channel that the loader builds is locked, the system's files alone make it: what the
  -- user's file holds has no part in it.
  pub build_channel-locked :
      (user_file : Option Text) (filenames : List Text) (channel : Channel)
      → build_channel p disk user_file filenames ≡ some channel
      → channel.locked ≡ true
      → merge_system_files p disk user_file (reverse filenames) new_channel ≡ some channel
  unfolding build_channel
  build_channel-locked user_file filenames channel e h =
      let (c, system, user) =
        bind-some (merge_system_files p disk user_file (reverse filenames) new_channel) _ e in
      system ∙ merge_user_file-locked user_file c channel user h

  -- Where some of the system's files, the least important ones, give a locked channel, the channel
  -- that the loader builds is locked too, and is what the other system files make of that one.
  pub build_channel-locked_by :
      (user_file : Option Text) (filenames fs gs : List Text) (locked channel : Channel)
      → reverse filenames ≡ fs ++ gs
      → merge_system_files p disk user_file fs new_channel ≡ some locked
      → locked.locked ≡ true
      → build_channel p disk user_file filenames ≡ some channel
      → (channel.locked ≡ true) × (merge_system_files p disk user_file gs locked ≡ some channel)
  unfolding build_channel merge_user_file
  build_channel-locked_by user_file filenames fs gs locked channel order first h e =
      let (c, system, user) =
        bind-some (merge_system_files p disk user_file (reverse filenames) new_channel) _ e in
      let all : merge_system_files p disk user_file gs locked ≡ some c =
        merge_system_files-joined user_file fs gs new_channel c locked first (
          subst (λ names. merge_system_files p disk user_file names new_channel ≡ some c) order
            system) in
      let kept = merge_system_files-lock user_file gs locked c h all in
      let same = user_is_passed user_file c channel kept user in
      (ground (arith, kept, ap (lock_of true) same), all ∙ same)
    where
      user_is_passed :
          (user_file : Option Text) (c channel : Channel)
          → c.locked ≡ true
          → merge_user_file p disk user_file c ≡ some channel
          → some c ≡ some channel
      user_is_passed none c channel k x = x
      user_is_passed (some f) c channel k x = go c.locked k x
        where
          go :
              (b : Bool)
              → b ≡ true
              → (if not b then merge_file p disk f false c else some c) ≡ some channel
              → some c ≡ some channel
          go true e x = x
          go false e x = absurd (ground arith)
