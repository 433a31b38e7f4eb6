-- ===== src/Tests/Files.antt =====
-- The files of a channel, on a disk with a system file that locks the channel and a user's file.
use esconf.Prelude.{
  Text, bytes, lookup, streq, ◌≡◌, refl, Bool, true, false, Option, none, some, List, [], ◌∷◌,
}
use esconf.Platform.{Disk}
use mathlib.Core.List.{reverse}
use esconf.Loader.{Channel, root_node, new_channel}
use esconf.Loader.Files.{merge_system_files, build_channel}
use esconf.Loader.LockedChannel.{build_channel-locked, build_channel-locked_by}
use esconf.Tests.Platforms.{test_platform, etc_file, home_file}
use esconf.Loader.Files.{config_file}
use esconf.Perchannel.{Xbpx}
use esconf.Perchannel.Operations.{get, is_property_locked}
use esconf.Value.{int, string}
use esconf.Error.{ok}
use esconf.Prelude.{pos}

abbrev system_file : Text
system_file = bytes "s"

abbrev user_file : Text
user_file = bytes "u"

abbrev disk : Disk
disk = (system_file, bytes "locked") ∷ (user_file, bytes "user") ∷ []

abbrev locked_channel : Channel
locked_channel = record { properties = root_node; locked = true; dirty = false }

merged : build_channel test_platform disk (some user_file) (system_file ∷ []) ≡ some locked_channel
unfolding build_channel esconf.Loader.Files.merge_user_file merge_system_files streq
    esconf.Loader.Files.merge_file lookup esconf.Loader.Elements.run_parser
    esconf.Loader.Elements.handle_markup esconf.Loader.Elements.start_in
    esconf.Loader.Elements.end_in esconf.Loader.ChannelElem.handle_channel
    esconf.Loader.Attributes.scan_attributes esconf.Loader.Attributes.channel_attribute
    esconf.Loader.ChannelElem.handle_channel_attributes esconf.Loader.ChannelElem.major_version
    esconf.Loader.ChannelElem.lock_channel esconf.Loader.ChannelElem.locked_state
    esconf.Locking.user_is_in_list esconf.Locking.some_token_matches esconf.Locking.token_matches
    esconf.Locking.user_is_in_group esconf.Locking.add_groups esconf.Locking.ensure_group_cache
    esconf.Locking.is_member esconf.Prelude.insert
merged = refl

merged_first :
    merge_system_files test_platform disk (some user_file) (system_file ∷ []) new_channel
    ≡ some locked_channel
unfolding merge_system_files streq esconf.Loader.Files.merge_file lookup
    esconf.Loader.Elements.run_parser esconf.Loader.Elements.handle_markup
    esconf.Loader.Elements.start_in esconf.Loader.Elements.end_in
    esconf.Loader.ChannelElem.handle_channel esconf.Loader.Attributes.scan_attributes
    esconf.Loader.Attributes.channel_attribute esconf.Loader.ChannelElem.handle_channel_attributes
    esconf.Loader.ChannelElem.major_version esconf.Loader.ChannelElem.lock_channel
    esconf.Loader.ChannelElem.locked_state esconf.Locking.user_is_in_list
    esconf.Locking.some_token_matches esconf.Locking.token_matches esconf.Locking.user_is_in_group
    esconf.Locking.add_groups esconf.Locking.ensure_group_cache esconf.Locking.is_member
    esconf.Prelude.insert
merged_first = refl

build_channel-locked_example :
    merge_system_files test_platform disk (some user_file) (reverse (system_file ∷ [])) new_channel
    ≡ some locked_channel
build_channel-locked_example =
    build_channel-locked test_platform disk (some user_file) (system_file ∷ []) locked_channel
      merged refl

build_channel-locked_by_example :
    (locked_channel.locked ≡ true)
    × (merge_system_files test_platform disk (some user_file) [] locked_channel
        ≡ some locked_channel)
build_channel-locked_by_example =
    build_channel-locked_by test_platform disk (some user_file) (system_file ∷ [])
      (system_file ∷ []) [] locked_channel locked_channel refl merged_first refl merged

-- A state with the system's file and the user's file of the channel on the disk, and no channel yet.
abbrev files_state : Xbpx
files_state = record {
  channels = [];
  config_save_path = bytes "/home/me/.config/expidus1/esconf/expidus-perchannel-xml";
  save_scheduled = false;
  notify = true;
  disk =
      (etc_file (config_file (bytes "ch")), bytes "system")
      ∷ (home_file (config_file (bytes "ch")), bytes "user")
      ∷ [];
  signals = [];
}

system_value_is_read :
    (get test_platform (bytes "ch") (bytes "/a") files_state).0 ≡ ok (int (pos 5))
unfolding esconf.Loader.Attributes.channel_attribute esconf.Loader.Attributes.property_attribute
    esconf.Loader.Attributes.value_attribute esconf.Loader.Attributes.scan_attributes
    esconf.Loader.ChannelElem.major_version esconf.Loader.ChannelElem.locked_state
    esconf.Loader.ChannelElem.lock_channel esconf.Loader.ChannelElem.handle_channel_attributes
    esconf.Loader.ChannelElem.handle_channel esconf.Loader.PropertyElem.edit_prop
    esconf.Loader.PropertyElem.add_empty esconf.Loader.PropertyElem.prepare
    esconf.Loader.PropertyElem.property_lock esconf.Loader.PropertyElem.reset_quietly
    esconf.Loader.PropertyElem.read_value esconf.Loader.PropertyElem.read_type
    esconf.Loader.PropertyElem.read_locks esconf.Loader.PropertyElem.handle_property_attributes
    esconf.Loader.PropertyElem.handle_property esconf.Loader.ValueElem.append_value
    esconf.Loader.ValueElem.add_value esconf.Loader.ValueElem.handle_value
    esconf.Loader.Elements.start_in_property esconf.Loader.Elements.start_in
    esconf.Loader.Elements.end_in esconf.Loader.Elements.handle_markup
    esconf.Loader.Elements.run_parser esconf.Loader.Files.merge_file
    esconf.Loader.Files.merge_system_files esconf.Loader.Files.merge_user_file
    esconf.Loader.Files.build_channel esconf.Loader.Files.read_channel esconf.Locking.add_groups
    esconf.Locking.ensure_group_cache esconf.Locking.is_member esconf.Locking.user_is_in_group
    esconf.Locking.token_matches esconf.Locking.some_token_matches esconf.Locking.user_is_in_list
    esconf.Perchannel.schedule_save esconf.Perchannel.load_channel esconf.Perchannel.open_channel
    esconf.Perchannel.create_channel esconf.Perchannel.Operations.set_in
    esconf.Perchannel.Operations.open_or_create esconf.Perchannel.Operations.set
    esconf.Perchannel.Operations.shown_value esconf.Perchannel.Operations.get
    esconf.Perchannel.Operations.exists esconf.Perchannel.Operations.is_property_locked
    esconf.Perchannel.Operations.get_all_in esconf.Perchannel.Operations.get_all
    esconf.Tree.find_child esconf.Tree.lookup_parts esconf.Tree.modify_child esconf.Tree.modify
    esconf.Tree.append_data esconf.Tree.unlink_child esconf.Tree.unlink_node
    esconf.Tree.prune_parents esconf.Tree.lookup_node esconf.Tree.lookup_prop
    esconf.Tree.append_below esconf.Tree.is_missing esconf.Tree.add_fuel esconf.Tree.add_property
    esconf.Tree.proptree_reset esconf.Names.is_name_char esconf.Names.is_property_char
    esconf.Names.check_property esconf.Names.check_root esconf.Names.property_is_valid
    esconf.Names.check_channel esconf.Names.channel_is_valid esconf.Names.prop_name_is_valid
    esconf.Prelude.insert esconf.Prelude.lookup esconf.Prelude.streq esconf.Prelude.strrchr
    esconf.Prelude.has_double_slash esconf.Value.gtype_from_string
    esconf.Value.Parse.gvalue_from_string esconf.Value.Parse.parse_text
    esconf.Value.Parse.handle_boolean esconf.Value.Parse.handle_strtol esconf.Value.Parse.handle_int
    esconf.Value.Parse.strtol esconf.Value.Parse.scan_signed esconf.Value.Parse.skip_space
    esconf.Value.Parse.is_space esconf.Value.Parse.scan_number esconf.Value.Parse.clamp_long
    esconf.Value.Parse.scan_digits esconf.Value.Parse.digit_value
system_value_is_read = refl

user_value_is_read :
    (get test_platform (bytes "ch") (bytes "/c") files_state).0 ≡ ok (string (some (bytes "hi")))
unfolding esconf.Loader.Attributes.channel_attribute esconf.Loader.Attributes.property_attribute
    esconf.Loader.Attributes.value_attribute esconf.Loader.Attributes.scan_attributes
    esconf.Loader.ChannelElem.major_version esconf.Loader.ChannelElem.locked_state
    esconf.Loader.ChannelElem.lock_channel esconf.Loader.ChannelElem.handle_channel_attributes
    esconf.Loader.ChannelElem.handle_channel esconf.Loader.PropertyElem.edit_prop
    esconf.Loader.PropertyElem.add_empty esconf.Loader.PropertyElem.prepare
    esconf.Loader.PropertyElem.property_lock esconf.Loader.PropertyElem.reset_quietly
    esconf.Loader.PropertyElem.read_value esconf.Loader.PropertyElem.read_type
    esconf.Loader.PropertyElem.read_locks esconf.Loader.PropertyElem.handle_property_attributes
    esconf.Loader.PropertyElem.handle_property esconf.Loader.ValueElem.append_value
    esconf.Loader.ValueElem.add_value esconf.Loader.ValueElem.handle_value
    esconf.Loader.Elements.start_in_property esconf.Loader.Elements.start_in
    esconf.Loader.Elements.end_in esconf.Loader.Elements.handle_markup
    esconf.Loader.Elements.run_parser esconf.Loader.Files.merge_file
    esconf.Loader.Files.merge_system_files esconf.Loader.Files.merge_user_file
    esconf.Loader.Files.build_channel esconf.Loader.Files.read_channel esconf.Locking.add_groups
    esconf.Locking.ensure_group_cache esconf.Locking.is_member esconf.Locking.user_is_in_group
    esconf.Locking.token_matches esconf.Locking.some_token_matches esconf.Locking.user_is_in_list
    esconf.Perchannel.schedule_save esconf.Perchannel.load_channel esconf.Perchannel.open_channel
    esconf.Perchannel.create_channel esconf.Perchannel.Operations.set_in
    esconf.Perchannel.Operations.open_or_create esconf.Perchannel.Operations.set
    esconf.Perchannel.Operations.shown_value esconf.Perchannel.Operations.get
    esconf.Perchannel.Operations.exists esconf.Perchannel.Operations.is_property_locked
    esconf.Perchannel.Operations.get_all_in esconf.Perchannel.Operations.get_all
    esconf.Tree.find_child esconf.Tree.lookup_parts esconf.Tree.modify_child esconf.Tree.modify
    esconf.Tree.append_data esconf.Tree.unlink_child esconf.Tree.unlink_node
    esconf.Tree.prune_parents esconf.Tree.lookup_node esconf.Tree.lookup_prop
    esconf.Tree.append_below esconf.Tree.is_missing esconf.Tree.add_fuel esconf.Tree.add_property
    esconf.Tree.proptree_reset esconf.Names.is_name_char esconf.Names.is_property_char
    esconf.Names.check_property esconf.Names.check_root esconf.Names.property_is_valid
    esconf.Names.check_channel esconf.Names.channel_is_valid esconf.Names.prop_name_is_valid
    esconf.Prelude.insert esconf.Prelude.lookup esconf.Prelude.streq esconf.Prelude.strrchr
    esconf.Prelude.has_double_slash esconf.Value.gtype_from_string
    esconf.Value.Parse.gvalue_from_string esconf.Value.Parse.parse_text
    esconf.Value.Parse.handle_boolean esconf.Value.Parse.handle_strtol esconf.Value.Parse.handle_int
    esconf.Value.Parse.strtol esconf.Value.Parse.scan_signed esconf.Value.Parse.skip_space
    esconf.Value.Parse.is_space esconf.Value.Parse.scan_number esconf.Value.Parse.clamp_long
    esconf.Value.Parse.scan_digits esconf.Value.Parse.digit_value
user_value_is_read = refl

lock_is_read : (is_property_locked test_platform (bytes "ch") (bytes "/a") files_state).0 ≡ ok true
unfolding esconf.Loader.Attributes.channel_attribute esconf.Loader.Attributes.property_attribute
    esconf.Loader.Attributes.value_attribute esconf.Loader.Attributes.scan_attributes
    esconf.Loader.ChannelElem.major_version esconf.Loader.ChannelElem.locked_state
    esconf.Loader.ChannelElem.lock_channel esconf.Loader.ChannelElem.handle_channel_attributes
    esconf.Loader.ChannelElem.handle_channel esconf.Loader.PropertyElem.edit_prop
    esconf.Loader.PropertyElem.add_empty esconf.Loader.PropertyElem.prepare
    esconf.Loader.PropertyElem.property_lock esconf.Loader.PropertyElem.reset_quietly
    esconf.Loader.PropertyElem.read_value esconf.Loader.PropertyElem.read_type
    esconf.Loader.PropertyElem.read_locks esconf.Loader.PropertyElem.handle_property_attributes
    esconf.Loader.PropertyElem.handle_property esconf.Loader.ValueElem.append_value
    esconf.Loader.ValueElem.add_value esconf.Loader.ValueElem.handle_value
    esconf.Loader.Elements.start_in_property esconf.Loader.Elements.start_in
    esconf.Loader.Elements.end_in esconf.Loader.Elements.handle_markup
    esconf.Loader.Elements.run_parser esconf.Loader.Files.merge_file
    esconf.Loader.Files.merge_system_files esconf.Loader.Files.merge_user_file
    esconf.Loader.Files.build_channel esconf.Loader.Files.read_channel esconf.Locking.add_groups
    esconf.Locking.ensure_group_cache esconf.Locking.is_member esconf.Locking.user_is_in_group
    esconf.Locking.token_matches esconf.Locking.some_token_matches esconf.Locking.user_is_in_list
    esconf.Perchannel.schedule_save esconf.Perchannel.load_channel esconf.Perchannel.open_channel
    esconf.Perchannel.create_channel esconf.Perchannel.Operations.set_in
    esconf.Perchannel.Operations.open_or_create esconf.Perchannel.Operations.set
    esconf.Perchannel.Operations.shown_value esconf.Perchannel.Operations.get
    esconf.Perchannel.Operations.exists esconf.Perchannel.Operations.is_property_locked
    esconf.Perchannel.Operations.get_all_in esconf.Perchannel.Operations.get_all
    esconf.Tree.find_child esconf.Tree.lookup_parts esconf.Tree.modify_child esconf.Tree.modify
    esconf.Tree.append_data esconf.Tree.unlink_child esconf.Tree.unlink_node
    esconf.Tree.prune_parents esconf.Tree.lookup_node esconf.Tree.lookup_prop
    esconf.Tree.append_below esconf.Tree.is_missing esconf.Tree.add_fuel esconf.Tree.add_property
    esconf.Tree.proptree_reset esconf.Names.is_name_char esconf.Names.is_property_char
    esconf.Names.check_property esconf.Names.check_root esconf.Names.property_is_valid
    esconf.Names.check_channel esconf.Names.channel_is_valid esconf.Names.prop_name_is_valid
    esconf.Prelude.insert esconf.Prelude.lookup esconf.Prelude.streq esconf.Prelude.strrchr
    esconf.Prelude.has_double_slash esconf.Value.gtype_from_string
    esconf.Value.Parse.gvalue_from_string esconf.Value.Parse.parse_text
    esconf.Value.Parse.handle_boolean esconf.Value.Parse.handle_strtol esconf.Value.Parse.handle_int
    esconf.Value.Parse.strtol esconf.Value.Parse.scan_signed esconf.Value.Parse.skip_space
    esconf.Value.Parse.is_space esconf.Value.Parse.scan_number esconf.Value.Parse.clamp_long
    esconf.Value.Parse.scan_digits esconf.Value.Parse.digit_value
lock_is_read = refl
