-- ===== src/Perchannel/NameCase.antt =====
-- A channel stands in the table under its name in lower case, but the table is asked for the name as
-- the caller wrote it.
use esconf.Prelude.{
  Text, lookup, lookup-insert, streq_iff, ◌≡◌, ◌≢◌, refl, ap, sym, ◌∙◌, true, Option, none, some,
  arith, Bool-cases, inl, inr,
}
use esconf.Platform.{Platform}
use esconf.Error.{channel_not_found, Reply, err, crash}
use esconf.Value.{GValue, gvalue_is_equal}
use esconf.Tree.{Property, Node, lookup_prop}
use esconf.Tree.Traverse.{value_to_get}
use esconf.Loader.{Channel, new_channel}
use esconf.Loader.Files.{Loaded, not_found, loaded, read_channel}
use esconf.Perchannel.{Xbpx, Opened, opened, signal, put_channel, schedule_save, create_channel}
use esconf.Perchannel.SetLaws.{set_found, set_in-found, load_result, open_channel-unseen}
use esconf.Perchannel.Operations.{
  with_properties, commit, set_in, create_missing, open_or_create, set_opened, set, get_in,
  get_opened, get,
}

-- `name` is still not a key of the table, and the files are the same.
abbrev IsUnseen : Text → Xbpx → Xbpx → Type 0
IsUnseen name x x' = (lookup name x'.channels ≡ none) × (x'.disk ≡ x.disk)

put_channel-IsUnseen :
    (name key : Text) (channel : Channel) (x : Xbpx)
    → key ≢ name
    → lookup name x.channels ≡ none
    → IsUnseen name x (put_channel key channel x)
put_channel-IsUnseen name key channel x other h =
    (ground (arith, lookup-insert key name channel x.channels, streq_iff key name), refl)

signal-IsUnseen :
    (name channel_name property : Text) (x : Xbpx)
    → lookup name x.channels ≡ none
    → IsUnseen name x (signal channel_name property x)
signal-IsUnseen name channel_name property x h = elim (Bool-cases x.notify) [
  | inl e ↦ rw e (h, refl)
  | inr e ↦ rw e (h, refl)
]

-- What `set` goes on with: where the disk has no file, a new channel.
abbrev create_result : Platform → Text → Xbpx → Loaded → Opened × Xbpx
create_result p channel_name x not_found =
    let key = p.ascii_strdown channel_name in
    (opened key new_channel, put_channel key new_channel x)
create_result p channel_name x l = load_result p channel_name x l

module _ (p : Platform) (name : Text) (x : Xbpx) where
  commit-IsUnseen :
      (key property : Text) (tree : Node) (channel : Channel) (y : Xbpx)
      → key ≢ name
      → IsUnseen name x y
      → IsUnseen name x (commit p key name property tree channel y).1
  unfolding schedule_save
  commit-IsUnseen key property tree channel y other (h, same) =
      let (h', same') = signal-IsUnseen name name property y h in
      let (h'', same'') =
        put_channel-IsUnseen name key (record (with_properties tree channel) { dirty = true })
          (signal name property y) other h' in
      (h'', same' ∙ same)

  set_in-IsUnseen :
      (key property : Text) (value : GValue) (channel : Channel) (y : Xbpx)
      → key ≢ name
      → IsUnseen name x y
      → IsUnseen name x (set_in p key name property value channel y).1
  set_in-IsUnseen key property value channel y other h =
      rw (set_in-found p key name property value channel y)
        (go (lookup_prop p channel.properties property))
    where
      go :
          (o : Option Property)
          → IsUnseen name x (set_found p key name property value channel y o).1
      go none = commit-IsUnseen key property _ channel y other h
      go (some q) = (elim (Bool-cases q.locked) [
        | inl locked ↦ rw locked h
        | inr free ↦ rw free (elim (Bool-cases (gvalue_is_equal p (value_to_get q) value)) [
          | inl same ↦ rw same h
          | inr differs ↦ rw differs (commit-IsUnseen key property _ channel y other h)
        ])
      ])

  module _ (mixed : p.ascii_strdown name ≢ name) (unseen : lookup name x.channels ≡ none) where
    open_or_create-unseen :
        open_or_create p name x ≡ create_result p name x (read_channel p x.disk name)
    unfolding open_or_create create_channel
    open_or_create-unseen =
        rw (open_channel-unseen p name x unseen) (go (read_channel p x.disk name))
      where
        go :
            (l : Loaded) → create_missing p name (load_result p name x l) ≡ create_result p name x l
        go not_found = rw (unseen, create_channel)
        go Loaded.crash = refl
        go (loaded channel) = refl

    set-IsUnseen :
        (property : Text) (value : GValue) → IsUnseen name x (set p name property value x).1
    unfolding set
    set-IsUnseen property value = rw open_or_create-unseen (go (read_channel p x.disk name))
      where
        go :
            (l : Loaded)
            → IsUnseen name x (set_opened p name property value (create_result p name x l)).1
        go not_found =
            set_in-IsUnseen (p.ascii_strdown name) property value new_channel _ mixed
              (put_channel-IsUnseen name (p.ascii_strdown name) new_channel x mixed unseen)
        go Loaded.crash = (unseen, refl)
        go (loaded channel) =
            set_in-IsUnseen (p.ascii_strdown name) property value channel _ mixed
              (put_channel-IsUnseen name (p.ascii_strdown name) channel x mixed unseen)

-- The reply of a `get` that asks the disk.
abbrev reply_from_disk : Platform → Text → Loaded → Reply GValue
reply_from_disk p property not_found = err channel_not_found
reply_from_disk p property Loaded.crash = crash
reply_from_disk p property (loaded channel) = get_in p property channel

get-unseen :
    (p : Platform) (name property : Text) (x : Xbpx)
    → lookup name x.channels ≡ none
    → (get p name property x).0 ≡ reply_from_disk p property (read_channel p x.disk name)
unfolding get
get-unseen p name property x h =
    rw (open_channel-unseen p name x h) (go (read_channel p x.disk name))
  where
    go :
        (l : Loaded)
        → (get_opened p property (load_result p name x l)).0 ≡ reply_from_disk p property l
    go not_found = refl
    go Loaded.crash = refl
    go (loaded channel) = refl

-- For a channel name that is not in lower case and not a key of the table, a `set` of any property is
-- lost: a `get` of any property behind it gives what it would have given without it, from the disk.
pub get-set_mixed_case :
    (p : Platform) (name property asked : Text) (value : GValue) (x : Xbpx)
    → p.ascii_strdown name ≢ name
    → lookup name x.channels ≡ none
    → (get p name asked ((set p name property value x).1)).0 ≡ (get p name asked x).0
get-set_mixed_case p name property asked value x mixed unseen =
    let (h, same) = set-IsUnseen p name x mixed unseen property value in
    get-unseen p name asked ((set p name property value x).1) h
    ∙ ap (λ d. reply_from_disk p asked (read_channel p d name)) same
    ∙ sym (get-unseen p name asked x unseen)
