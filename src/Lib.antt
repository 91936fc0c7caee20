-- ===== src/Lib.antt =====
-- Sweetcomb: a plugin of sysrepo that configures VPP through its object model VOM.
--
-- sysrepo calls the plugin with the changes of a transaction and with requests for state data. The
-- plugin's code is under src/plugins. Its parts, and the files that model them:
--
-- - sc_plugins.c, the entry points sr_plugin_init_cb, sr_plugin_cleanup_cb and
--   sr_plugin_health_check_cb in Plugins.antt, and get_vpp_pid, which they use, in Procfs.antt. They
--   start the parts below by way of sc_init.h and sc_init.c, the lists of init and exit functions:
--   Init.antt.
-- - sys_util.h and sys_util.cpp, used by the callbacks: utils::netmask_to_plen in Netmask.antt,
--   utils::prefix in Prefix.antt, the macros foreach_change and ARG_CHECK in
--   Sysrepo.antt.
-- - ietf/ietf_interface.cpp: interface_builder and the commit in Interface.antt,
--   ietf_interface_create_cb in Interface/Config.antt, the callback for addresses in Address.antt,
--   the two callbacks for state in Oper/Interfaces.antt and Oper/Statistics.antt.
-- - ietf/ietf_nat.cpp: nat_static_builder, static_mapping_table and nat_mapping_table_config_cb in
--   Nat.antt, nat_cap_state_cb in Oper/Statistics.antt.
-- - openconfig/openconfig_interfaces.cpp: the configuration callback in Openconfig.antt, that for
--   state in Oper/Openconfig.antt.
-- - the init functions of these three plugins, which subscribe their callbacks: Subscriptions.antt.
-- - the callbacks together, as sysrepo calls them one after the other on VOM's database and
--   static_mapping_table: System.antt, and whole transactions, each in all its phases, in
--   System/Transactions.antt.
-- - what the four configuration callbacks free: Resources.antt and the files below it.
-- - vpp-oper/interface.cpp, the request for a dump of VPP's interfaces: Oper/Dump.antt.
--
-- A function of the code is a function of the same name; where a C++ loop has a body with a switch,
-- the body, each case and what follows the loop are functions of their own. A callback takes VOM's
-- database as a state and returns it with the return code in an Outcome: a value, an exception, or
-- undefined behaviour (a null pointer that is read, another member of a union than the one stored, a
-- write past the end of an array). A pointer that may be null is an Option. A variable that the code
-- does not initialise is an argument of the callback, in the records Garbage and NatGarbage.
--
-- A transaction of any number of edits is read against a model that has no change, no builder and no
-- loop: of the interfaces in Interface/Config/Sequence.antt, of the addresses in
-- Address/Sequence.antt, of the mapping table in Nat/Sequence.antt; a file Replay.antt beside each
-- relates it to the callback.
--
-- The code that the repository does not contain is a parameter: the record Vom has the operations of
-- VOM, boost's addresses and inet_pton; Xpath and Session those of sysrepo, with the changes that the
-- iterator yields as a list; Host those that the entry points call; FileSystem what /proc holds;
-- the registered functions are given by what a call of one does, and Subscriptions.antt has those of
-- the three plugins. Laws on them are records of hypotheses (InterfaceLaws, NatLaws, BindingLaws,
-- FrameLaws, StoresOctets, IsLocal, IsLocalExit, IsMonotone), which Tests.antt
-- and the files below it fill with small concrete instances.
--
-- Fuel and bounds: the loop of netmask_to_plen gets 33 rounds, one for each of 32 bits and one for
-- the last test; printing a number n has n rounds for its digits. Waiting for VPP has no bound in the
-- code: connect_loop takes any amount of fuel, and one more round than there are failures is enough.
-- Numbers of the wire are natural numbers; uint8_t and unsigned short wrap where the code
-- computes with them. The octets that inet_pton stores are read on a little-endian host.
--
-- Not modelled: logging; the sending of a request for a dump, whose result is an argument; the exit
-- functions of the plugins, which are empty; and the YANG models, build files, scripts, samples and
-- tests.
pub mod Prelude
pub mod Outcome
pub mod Sysrepo
pub mod Vom
pub mod Interface
pub mod Netmask
pub mod Address
pub mod Prefix
pub mod Nat
pub mod Init
pub mod Procfs
pub mod Plugins
pub mod Openconfig
pub mod Oper
pub mod Subscriptions
mod Tests
pub mod System
pub mod Resources
