-- ===== src/Loader.antt =====
-- The parser of the channel files in esconfd/esconf-backend-perchannel-xml.c: its state, and the
-- handlers that GMarkup calls for the elements.
pub mod Attributes
pub mod PropertyElem
pub mod ChannelElem
pub mod ValueElem
pub mod Elements
pub mod Files
pub mod Locks
pub mod RunLock
pub mod LockedChannel
use esconf.Prelude.{Text, Bool, false, Option, none, [], ◌++◌, take}
use esconf.Value.{unset}
use esconf.Tree.{Node, node, nil, new_property}
use esconf.Prelude.{bytes}

-- `EsconfChannel`
pub record Channel : Type 0 where
  pub properties : Node
  pub locked : Bool
  pub dirty : Bool

-- A new channel, whose tree is the root, named "/".
abbrev pub root_node : Node
root_node = node (new_property (bytes "/") unset false) nil

abbrev pub new_channel : Channel
new_channel = record { properties = root_node; locked = false; dirty = false }

-- `XmlParserElem`
pub data XmlParserElem : Type 0 where
  elem_none elem_channel elem_property elem_value : XmlParserElem

-- `XmlParserState`. `list_value` is NULL exactly when `list_property` is, and points at the value
-- of that property: at the system's value in a system file, else at the user's.
pub record XmlParserState : Type 0 where
  pub channel : Channel
  pub is_system_file : Bool
  pub cur_elem : XmlParserElem
  pub cur_path : Text
  pub list_property : Option Text

-- What a handler does: parsing goes on, it stops on an error, or the process ends on a NULL pointer
-- or a failed assertion. What an error leaves in the channel stays there.
pub data Outcome : Type 0 where
  running failed : XmlParserState → Outcome
  crashed : Outcome

-- `g_strlcat(dst, src, MAX_PROP_PATH)`
abbrev pub strlcat : Text → Text → Text
strlcat dst src = take 4095 (dst ++ src)
