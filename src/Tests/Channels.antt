-- ===== src/Tests/Channels.antt =====
-- The operations of the back end, at a state with the channel `ch`, and on a disk.
use esconf.Prelude.{
  Text, bytes, lookup, streq, ◌≡◌, refl, true, false, if◌then◌else◌, some, [], ◌∷◌, All, arith, pos,
}
use esconf.Error.{ok}
use esconf.Value.{GValue, int, boolean, gvalue_is_equal}
use esconf.Names.Paths.{path, IsComponent}
use esconf.Tree.Walk.{same_parts}
use esconf.Tree.Unlink.{values_at}
use esconf.Loader.{Channel}
use esconf.Perchannel.{Xbpx}
use esconf.Perchannel.Operations.{set, get}
use esconf.Perchannel.Reset.{reset}
use esconf.Perchannel.SetLaws.{IsSetOutcome, set-IsSetOutcome}
use esconf.Perchannel.GetSet.{IsKept, reply_of, get-set, get-set_other}
use esconf.Perchannel.ResetLaws.{get-reset}
use esconf.Perchannel.NameCase.{get-set_mixed_case}
use esconf.Tree.Walk.{entry_at}
use esconf.Tree.Replace.{is_below}
use esconf.Perchannel.RecursiveReset.{get-reset_recursive}
use esconf.Tests.Platforms.{test_platform, test_platform-IsSplitter}
use esconf.Tests.Trees.{tree, tree-IsDistinct, a-IsComponent, b-IsComponent, c-IsComponent, a_b}

abbrev pub ch : Text
ch = bytes "ch"

abbrev pub channel : Channel
channel = record { properties = tree; locked = false; dirty = false }

abbrev pub state : Xbpx
state = record {
  channels = (ch, channel) ∷ [];
  config_save_path = bytes "/home/me/.config/expidus1/esconf/expidus-perchannel-xml";
  save_scheduled = false;
  notify = true;
  disk = [];
  signals = [];
}

pub state-channel : lookup ch state.channels ≡ some channel
unfolding lookup streq
state-channel = refl

pub a_b-IsComponent : All IsComponent a_b
a_b-IsComponent = (a-IsComponent, (b-IsComponent, tt))

-- The property `/a` is locked.
set-IsSet_example :
    IsSetOutcome test_platform ch
      (bytes "a" ∷ [])
      (int (pos 6))
      channel
      state
      (set test_platform ch (path (bytes "a" ∷ [])) (int (pos 6)) state)
set-IsSet_example =
    set-IsSetOutcome test_platform test_platform-IsSplitter ch (bytes "a") [] (int (pos 6)) channel
      state (a-IsComponent, tt) (omega arith) state-channel

get-set_example :
    (v : GValue) × (get test_platform ch
        (path a_b)
        ((set test_platform ch (path a_b) (boolean false) state).1)
      ≡ (ok v, (set test_platform ch (path a_b) (boolean false) state).1))
    × IsKept test_platform (boolean false) (get test_platform ch (path a_b) state).0 v
unfolding set esconf.Perchannel.Operations.open_or_create esconf.Perchannel.open_channel lookup
    streq esconf.Perchannel.Operations.set_in esconf.Tree.lookup_prop esconf.Tree.lookup_node
    esconf.Names.prop_name_is_valid esconf.Tree.lookup_parts esconf.Tree.find_child gvalue_is_equal
get-set_example =
    get-set test_platform test_platform-IsSplitter ch (bytes "a") (bytes "b" ∷ []) (boolean false)
      channel state a_b-IsComponent (omega arith) refl state-channel refl

get-set_other_example :
    (get test_platform ch
      (path a_b)
      ((set test_platform ch (path (bytes "c" ∷ [])) (boolean false) state).1)).0
    ≡ (get test_platform ch (path a_b) state).0
get-set_other_example =
    get-set_other test_platform test_platform-IsSplitter ch (bytes "c") (bytes "a") []
      (bytes "b" ∷ []) (boolean false) channel state (c-IsComponent, tt) a_b-IsComponent
      (omega arith) (λ e. ground arith) state-channel

get-reset_example :
    (get test_platform ch
      (path (bytes "a" ∷ []))
      ((reset test_platform ch (path a_b) false state).1)).0
    ≡ (if same_parts a_b (bytes "a" ∷ [])
        then reply_of (values_at (bytes "a" ∷ []) tree).1
        else (get test_platform ch (path (bytes "a" ∷ [])) state).0)
get-reset_example =
    get-reset test_platform test_platform-IsSplitter ch (bytes "a") (bytes "a") (bytes "b" ∷ []) []
      channel state a_b-IsComponent (a-IsComponent, tt) tree-IsDistinct state-channel

get-set_mixed_case_example :
    (get test_platform
      (bytes "Ch")
      (path a_b)
      ((set test_platform (bytes "Ch") (path a_b) (int (pos 1)) state).1)).0
    ≡ (get test_platform (bytes "Ch") (path a_b) state).0
unfolding lookup streq
get-set_mixed_case_example =
    get-set_mixed_case test_platform (bytes "Ch") (path a_b) (path a_b) (int (pos 1)) state
      (λ e. ground arith) refl

get-reset_recursive_example :
    (get test_platform ch
      (path a_b)
      ((reset test_platform ch (path (bytes "a" ∷ [])) true state).1)).0
    ≡ (if is_below (bytes "a" ∷ []) a_b
        then reply_of (entry_at a_b tree).1
        else (get test_platform ch (path a_b) state).0)
get-reset_recursive_example =
    get-reset_recursive test_platform test_platform-IsSplitter ch (bytes "a") (bytes "a") []
      (bytes "b" ∷ []) channel state (a-IsComponent, tt) a_b-IsComponent tree-IsDistinct
      state-channel
