-- ===== src/Server/RallyGroups/Runs.antt =====
-- The numbers of the groups and of their members, in all runs of the calls.
use wos_sfc.Prelude.{string_eq, nat_eq}
use wos_sfc.Server.BusyLock.{BusyLock}
