-- ===== src/Lib.antt =====
-- A model of tsn, a daemon that publishes a machine's bridges, interfaces, LLDP neighbours and
-- hardware through sysrepo, with theorems about it.
--
-- How the program works. main (src/main.c) opens a session of sysrepo, deletes what the last run
-- left, collects the interfaces (src/interface.c) and writes them to the running and then to the
-- operational datastore, adds the chassis (src/hardware.c), the addresses and the bridges with their
-- VLANs (src/bridge.c), subscribes a callback, and then refreshes the addresses and the speeds
-- every second. The callback, which sysrepo calls, makes the trees of counters and states
-- (src/interface.c) and of LLDP neighbours (src/lldp.c). src/utils.c holds the conversions that
-- these share, src/dbus_util.c one query over D-Bus.
--
-- How it is modelled. A run is a function from the trace of the calls made so far to a result with a
-- longer trace (Runtime): it returns, or stops at a null pointer, or in exit. An environment answers
-- each call into sysrepo, libyang, libnl, libdbus, the kernel or the shell, and may let every such
-- call fail. libxml2, cJSON, the clock and the containers under lib/ are records of operations that
-- the definitions take as parameters; the containers come with the laws that their documentation
-- promises (Runtime/Containers). A session of sysrepo is such a record too, with the laws of what it
-- holds and commits (Runtime/Session). Structures are records and enums are data types with the
-- source's members; int is an integer, the unsigned types are natural numbers whose wrap-around is
-- written out; a string is the list of its bytes.
--
--   Base       numbers, lists, C strings (strstr, atoi, strcmp) and printf's decimals
--   Utils      src/utils.c: Mac, Netmask, Age and Clock
--   Runtime    runs and traces; Streams for the loop over fgets, Netlink for the frame of the five
--              functions that read a cache of links, Records for what a trace shows, Session for what a
--              session of sysrepo holds, Maps and Trees for loops that fill a map or make a tree,
--              Always for what a run keeps however it ends, Footprint for the calls that it may make,
--              Leaks for what it leaves open
--   Bridge     src/bridge.c: Vlan for the JSON of a bridge, Collect, Save, and Publish for both
--   Interface  src/interface.c: Collect, Speed, Ips (the addresses, in structures that are shared by
--              pointer), Save, Names (the static set of names; its Threads are the moves of the two
--              threads that read it), Providers (the two providers) and Destroy (what is freed)
--   Lldp       src/lldp.c: Props for the attributes of a node, ReadChassis, ReadPort and Parse (with
--              Elements for the parts) for the structures, Destroy for their release,
--              Publish and Provider for the nodes made, Node for the lldp_node_t that is not used yet
--   Hardware   src/hardware.c: Texts for what is done with texts, Versions for where they come from,
--              Save for what is written
--   Dbus       src/dbus_util.c
--   Main       src/main.c; Loop and Startup for its rounds and its run, Publish for the interfaces,
--              Program for the phases of a run, Served and Callback for the callback, Footprint and
--              Descriptors for what whole runs keep
--   Repo       src/repo.c, which nothing calls
--              A file Footprint beside a part has the calls which that part makes.
--   Tests      a small world, and the theorems at concrete inputs
--
-- Fuel. The loop of netmask_prefix has 33 rounds for a word of 32 bits; the loops over fgets and read
-- have one round more than there are bytes, and each round takes a byte. The loop of main ends by a
-- flag that nothing in the program sets, so its number of rounds is a parameter.
--
-- Undefined behaviour. Reading memory behind the end of a string is a fault in the model. The one
-- product of signed numbers that may overflow wraps around.
--
-- Not modelled: the containers and the log under lib/, logging, allocation, the release of memory
-- other than that of a neighbour, an interface and an lldp_node_t, and the interleaving of the threads
-- that sysrepo calls the providers from with the main loop and, but for the set of names, with one
-- another.
pub mod Base
pub mod Utils
pub mod Runtime
pub mod Bridge
pub mod Interface
pub mod Lldp
pub mod Hardware
pub mod Dbus
pub mod Main
pub mod Repo
pub mod Tests
