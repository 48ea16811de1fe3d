-- ===== src/Main/Callback.antt =====
-- main.c, provider_cb: what the callback of sysrepo does to the program's own sessions.
use tsn.Base.{Bool, ◌||◌}
use tsn.Runtime.{Call}
use tsn.Runtime.Containers.{Containers}
use tsn.Runtime.Footprint.{makes_nodes, holds_context}
use tsn.Lldp.Provider.Footprint.{runs_lldpcli}
use tsn.Interface.Names.{Names}
use tsn.Interface.Names.Footprint.{reads_links}

-- The calls that the callback may make.
abbrev pub is_reading : Call → Bool
is_reading c = reads_links c || (makes_nodes c || (holds_context c || runs_lldpcli c))
