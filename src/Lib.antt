-- ===== src/Lib.antt =====
-- esconf, the configuration storage system: a model of its daemon's store and of its
-- clients, and what they guarantee.
--
-- The program has a daemon, esconfd, and a client library, which keeps a cache of each channel. The
-- daemon's methods are served by back ends; the one that is built in keeps each channel as a tree of
-- properties, which it reads from XML files, the system's first and the user's last, and writes back to
-- the user's file. A property has a value of the user's, a value of the system's, and a lock.
--
-- The parts, with the files that model them:
--
-- Value            common/esconf-gvaluefuncs.c and the getters of common/esconf-types.c: types by
--                  name, `gvalue_is_equal`. Value/Parse reads a value from its text, with the C
--                  library's strtol and strtoul in Value/Parse/Numbers, and Value/Parse/Print writes it.
--                  Value/Variant has the conversions from and to the variants of the bus, with
--                  g_dbus_gvalue_to_gvariant as an argument, whose documented rules are
--                  `IsDbusConversion`.
-- Names            the two checks on names of esconfd/esconf-backend.c, and PROP_NAME_IS_VALID.
-- Tree             the tree of properties of esconfd/esconf-backend-perchannel-xml.c. A GNode is
--                  `node`; a pointer to a node is the list of the names on the way to it, and a write
--                  through the pointer is `modify`. Tree/Walk reads a tree as a map from paths to
--                  entries, and the other children say what the operations do to that map.
--                  Tree/Traverse has the traversals of whole subtrees.
-- Error            the errors of esconf/esconf-errors.h and common/esconf-errors.c.
-- Locking          esconfd/esconf-locking-utils.c, with its static variables as a state; Locking/Laws says
--                  whom a list names.
-- Loader           the parser of the channel files in the same back end: one child for the attribute
--                  loops, one for each element, one for the element stack and one for the files.
-- Perchannel       the back end's state and operations. `Xbpx` is the object with the disk and with
--                  the signals that it has emitted; an operation takes the state and gives a reply and
--                  the state that it leaves.
-- Writer           the writer of the channel files in the same back end; Writer/Flush has flush, its
--                  timer and list_channels. Writer/Xml has an XML document as a tree of elements, with
--                  the text of the layout that the writer uses; `Reports` and `Escapes` are the
--                  documented behaviour of GMarkup on such a text, and `IsFileSystem` that of the
--                  file functions. Writer/Document relates the writer to the document, Writer/Reported
--                  to its events, and Writer/Reading, Entering and Arrays the events to the parser.
-- Backend          the checks of esconfd/esconf-backend.c in front of a back end's operations, over a
--                  record of them; Backend/Laws fills the record with the per-channel XML back end.
-- Daemon           the method handlers of esconfd/esconf-daemon.c over the list of back ends. Daemon/Bus
--                  has what they exchange with the bus: the variants, the list of channels, the
--                  signals and the flush at the end. Daemon/Served is the daemon over the per-channel
--                  XML back end, from the variant that a client sets to the one that it reads.
-- Cache            esconf/esconf-cache.c, the client's cache of a channel. `Client` is the cache with
--                  the old items by their pointers and the number of replies that are to come for
--                  each. Cache/Change has what shows a change before the daemon has answered: set,
--                  the handler of the replies, and the cache's end; Cache/Signals and Cache/Evict have
--                  the rest. Cache/Safety has the invariant, a step relation, and its reachable states;
--                  Cache/Optimistic an abstract transaction of one property, which the cache
--                  implements.
-- Channel          the property base, the typed getters and setters, reset and the signal of
--                  esconf/esconf-channel.c, over the cache; Channel/ReadBack has what a client reads of
--                  a value that it has set.
-- Platform         what the program takes from GLib, libexpidus1util, the user database and the
--                  file system, as a record that the definitions take as an argument. `IsSplitter`
--                  and `IsAscii` are the documented laws of g_strsplit and of the 64-bit conversions
--                  that theorems ask for.
-- Prelude          bytes, strings, integers and hash tables that the parts share.
-- Tests            the theorems at concrete inputs, with a concrete platform.
--
-- Numbers are native natural numbers, and a text is a list of bytes without the final zero. `strlcpy`
-- cuts at 4095 bytes as MAX_PROP_PATH says; theorems on paths ask that the path fits. The nested calls
-- of esconf_proptree_add_property are bounded by one more than the length of the name: each call is for
-- a shorter name. A NULL pointer that is read and an assertion that fails are the reply `crash`. Memory
-- that is freed, the result of `merge_file`, which its caller does not read, and translated messages are
-- left out.
--
-- Not modelled: the client channel's arrays, structs and singleton objects, the bindings, the
-- command line tool and the GSettings adapter. The daemon's bus connection and process set-up are glue
-- around GLib.
pub mod Prelude
pub mod Platform
pub mod Value
pub mod Names
pub mod Tree
pub mod Error
pub mod Locking
pub mod Loader
pub mod Perchannel
pub mod Writer
pub mod Backend
pub mod Cache
pub mod Channel
pub mod Daemon
pub mod Tests
