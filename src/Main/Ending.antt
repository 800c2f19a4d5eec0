-- ===== src/Main/Ending.antt =====
-- On a system where iptables and ip do what they say, the run of a node ends when its service does and
-- leaves nothing behind.
use hashshashin.Config.{Config}
use hashshashin.Shell.{Shell}
use hashshashin.Routing.Kernel.{Kernel}
use hashshashin.Routing.Ending.{Firewall}
