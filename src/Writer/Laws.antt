-- ===== src/Writer/Laws.antt =====
-- What a flush leaves in the table of channels and on the disk.
use esconf.Prelude.{
  Text, bytes, ◌++◌, ◌∙◌, streq, streq_iff, lookup, lookup-insert, HashTable, Bool, Bool-cases,
  Option-cases, true, false, ◌||◌, ◌≡◌, refl, ap, sym, ◌⊎◌, inl, inr, Option, none, some, List, [],
  ◌∷◌, if◌then◌else◌, arith,
}
use esconf.Platform.{Platform}
use esconf.Error.{EsconfError, channel_not_found, err}
use esconf.Tree.{children}
use esconf.Loader.{Channel}
use esconf.Perchannel.{Xbpx, put_channel}
use esconf.Writer.Flush.{
  save_file, prolog, flushed, write_channel, flush_opened, flush_found, flush_channel, get_dirty,
  first_error, flush_all, flush,
}

-- No channel of that name waits for a flush.
abbrev pub IsClean : Text → Xbpx → Type 0
IsClean key x = (channel : Channel) → lookup key x.channels ≡ some channel → channel.dirty ≡ false

flush_channel-missing :
    (p : Platform) (key : Text) (x : Xbpx)
    → lookup key x.channels ≡ none
    → flush_channel p key x ≡ (err channel_not_found, x)
unfolding flush_channel
flush_channel-missing p key x missing = rw (missing, flush_channel) refl

pub flush_channel-found :
    (p : Platform) (key : Text) (channel : Channel) (x : Xbpx)
    → lookup key x.channels ≡ some channel
    → flush_channel p key x ≡ flush_found p key channel x
unfolding flush_channel
flush_channel-found p key channel x found = rw (found, flush_channel) refl

put_channel-IsClean :
    (key other : Text) (done : Channel) (x : Xbpx)
    → done.dirty ≡ false
    → (streq key other ≡ true) ⊎ IsClean other x
    → IsClean other (put_channel key done x)
put_channel-IsClean key other done x ready clean c e = elim clean [
  | inl same ↦ dirty_of (ground (arith, lookup-insert key other done x.channels, same, e))
  | inr was ↦ ground (arith, lookup-insert key other done x.channels, was c, e)
]
  where
    dirty_of : done ≡ c → c.dirty ≡ false
    dirty_of same = ap (λ (d : Channel). d.dirty) (sym same) ∙ ready

-- A flush of one channel, whatever becomes of it, leaves this channel clean, and others as they are.
flush_found-IsClean :
    (p : Platform) (key other : Text) (channel : Channel) (x : Xbpx)
    → (streq key other ≡ true) ⊎ IsClean other x
    → IsClean other (flush_found p key channel x).1
unfolding flush_found flush_opened
flush_found-IsClean p key other channel x clean =
    elim (Bool-cases (p.open_file x.disk (save_file key x ++ bytes ".new") (prolog key)).0) [
      | inl opened ↦ rw opened (
          put_channel-IsClean key other
            (flushed (write_channel p key (children channel.properties)).1 channel) x refl clean)
      | inr failed ↦
          rw failed (put_channel-IsClean key other (record channel { dirty = false }) x refl clean)
    ]

flush_channel-IsClean :
    (p : Platform) (key other : Text) (x : Xbpx)
    → (streq key other ≡ true) ⊎ IsClean other x
    → IsClean other (flush_channel p key x).1
flush_channel-IsClean p key other x clean = elim (Option-cases (lookup key x.channels)) [
  | inl missing ↦ rw (flush_channel-missing p key x missing) (elim clean [
    | inl same ↦
        λ c e. absurd (ground (arith, missing, rw (sym ((streq_iff key other).0 same)) at e))
    | inr was ↦ was
  ])
  | inr (channel, found) ↦
      rw (flush_channel-found p key channel x found)
        (flush_found-IsClean p key other channel x clean)
]

-- Is a key among others?
abbrev among : Text → List Text → Bool
among other [] = false
among other (key ∷ keys) = streq key other || among other keys

flush_all-IsClean :
    (p : Platform) (other : Text) (keys : List Text) (error : Option EsconfError) (x : Xbpx)
    → (among other keys ≡ true) ⊎ IsClean other x
    → IsClean other (flush_all p keys error x).1
unfolding flush_all
flush_all-IsClean p other [] error x clean = elim clean [
  | inl h ↦ absurd (ground (arith, h))
  | inr was ↦ was
]
flush_all-IsClean p other (key ∷ keys) error x clean =
    flush_all-IsClean p other keys (first_error error (flush_channel p key x).0)
      (flush_channel p key x).1
      (elim (Bool-cases (streq key other)) [
        | inl same ↦ inr (flush_channel-IsClean p key other x (inl same))
        | inr different ↦ elim clean [
          | inl h ↦ inl (ground (arith, h, different))
          | inr was ↦ inr (flush_channel-IsClean p key other x (inr was))
        ]
      ])

among-get_dirty_kept :
    (other : Text) (channels : HashTable Channel) (dirty : List Text)
    → among other dirty ≡ true
    → among other (get_dirty channels dirty) ≡ true
unfolding get_dirty
among-get_dirty_kept other [] dirty h = h
among-get_dirty_kept other ((key, channel) ∷ channels) dirty h =
    among-get_dirty_kept other channels (if channel.dirty then key ∷ dirty else dirty)
      (ground (arith, h))

among-get_dirty :
    (other : Text) (channel : Channel) (channels : HashTable Channel) (dirty : List Text)
    → lookup other channels ≡ some channel
    → channel.dirty ≡ true
    → among other (get_dirty channels dirty) ≡ true
unfolding get_dirty lookup
among-get_dirty other channel [] dirty e h = absurd (ground (arith, e))
among-get_dirty other channel ((key, first) ∷ channels) dirty e h =
    elim (Bool-cases (streq key other)) [
      | inl same ↦
          among-get_dirty_kept other channels (if first.dirty then key ∷ dirty else dirty)
            (ground (arith, e, h, same))
      | inr different ↦
          among-get_dirty other channel channels (if first.dirty then key ∷ dirty else dirty)
            (ground (arith, e, different)) h
    ]

-- Behind a flush no channel waits for another one, also none that could not be written.
pub flush-IsClean :
    (p : Platform) (key : Text) (channel : Channel) (x : Xbpx)
    → lookup key (flush p x).1.channels ≡ some channel
    → channel.dirty ≡ false
unfolding flush
flush-IsClean p key channel x =
    flush_all-IsClean p key (get_dirty x.channels []) none x
      (elim (Option-cases (lookup key x.channels)) [
        | inl missing ↦ inr (λ c e. absurd (ground (arith, missing, e)))
        | inr (c, found) ↦ elim (Bool-cases c.dirty) [
          | inl waits ↦ inl (among-get_dirty key c x.channels [] found waits)
          | inr clean ↦ inr (λ d e. ground (arith, found, e, clean))
        ]
      ])
      channel
