-- ===== src/Boot.antt =====
-- replica/cmd/main.go and gateway/cmd/main.go: what the two programs start with, from their environment.
--
-- A variable that is not set is "". The server, the signals and the logger are left out.
pub mod Serves
use smol_raft.Prelude.{String, Option, none, some, List, str_eq, if◌then◌else◌}
use smol_raft.Node.{Node, Config, ConfigError, validate, new_node, stop}
use smol_raft.Tracker.{Tracker, new_tracker}
use smol_raft.Hub.{Hub, new_hub}
use smol_raft.Addrs.{split_addrs, split_replica_addrs}

pub record Env : Type 0 where
  pub node_id : String
  pub port : String
  pub peer_addrs : String
  pub gateway_addr : String

abbrev pub or_default : String → String → String
or_default value s = if str_eq s "" then value else s

unfoldable pub configure : Env → Config
configure env = record {
  node_id = env.node_id;
  peer_addrs = split_addrs env.peer_addrs;
  gateway_addr = env.gateway_addr;
}

-- The program ends with an error, or serves a port with a node.
pub data Booted : Type 0 where
  invalid : ConfigError → Booted
  serving : String → Node → Booted

unfoldable pub boot : Env → Booted
boot env = elim (validate (configure env)) [
  | some e ↦ invalid e
  | none ↦ serving (or_default "9001" env.port) (new_node (configure env))
]

pub record GatewayEnv : Type 0 where
  pub port : String
  pub replica_addrs : String

-- `none` is the fatal error that REPLICA_ADDRS is required.
unfoldable pub boot_gateway : GatewayEnv → Option (String × Tracker × Hub)
boot_gateway env =
    if str_eq env.replica_addrs ""
    then none
    else some
        (or_default "8080" env.port, new_tracker (split_replica_addrs env.replica_addrs), new_hub)
