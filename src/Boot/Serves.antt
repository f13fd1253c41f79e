-- ===== src/Boot/Serves.antt =====
-- When the programs start, and with what.
use smol_raft.Prelude.{
  ◌≡◌, ◌≢◌, sym, ap, ◌∙◌, String, false, Bool-cases, inl, inr, none, some, List, ◌∷◌, All, arith,
  str_eq, str_eq_iff,
}
use smol_raft.Node.{Config, validate, new_node}
use smol_raft.Tracker.{new_tracker}
use smol_raft.Hub.{new_hub}
use smol_raft.Addrs.{split_addrs, split_replica_addrs}
use smol_raft.Addrs.Parses.{
  IsAddr, join_commas, split_addrs-join, split_replica_addrs-same, joined_filled,
}
use smol_raft.Boot.{Env, or_default, configure, serving, boot, GatewayEnv, boot_gateway}

filled-eq : (s : String) → s ≢ "" → str_eq s "" ≡ false
filled-eq s n = elim (Bool-cases (str_eq s "")) [
  | inl t ↦ absurd (n ((str_eq_iff s "").0 t))
  | inr f ↦ f
]

validate_named :
    (id gateway p : String) (ps : List String)
    → id ≢ ""
    → gateway ≢ ""
    → validate (record { node_id = id; peer_addrs = p ∷ ps; gateway_addr = gateway }) ≡ none
unfolding validate
validate_named id gateway p ps n g = rw (filled-eq id n, filled-eq gateway g) (ground arith)

boot_valid :
    (env : Env) (c : Config)
    → configure env ≡ c
    → validate c ≡ none
    → boot env ≡ serving (or_default "9001" env.port) (new_node c)
unfolding boot
boot_valid env c same ok =
    let valid : validate (configure env) ≡ none = ap validate same ∙ ok in
    rw (valid, boot) (ap (λ k. serving (or_default "9001" env.port) (new_node k)) same)

-- A replica and a gateway whose environment lists the same addresses, with commas between them, and
-- names the replica and the gateway: the replica serves with a new node that has them as its peers,
-- and the gateway with a tracker that asks them.
pub boot_serves :
    (env : Env) (genv : GatewayEnv) (p : String) (ps : List String)
    → All IsAddr (p ∷ ps)
    → env.peer_addrs ≡ join_commas (p ∷ ps)
    → genv.replica_addrs ≡ join_commas (p ∷ ps)
    → env.node_id ≢ ""
    → env.gateway_addr ≢ ""
    → (boot env
        ≡ serving (or_default "9001" env.port) (
            new_node (record {
              node_id = env.node_id;
              peer_addrs = p ∷ ps;
              gateway_addr = env.gateway_addr;
            })))
      × (boot_gateway genv ≡ some (or_default "8080" genv.port, new_tracker (p ∷ ps), new_hub))
unfolding configure boot_gateway
boot_serves env genv p ps addrs peers replicas named gateway =
    let mine : split_addrs env.peer_addrs ≡ p ∷ ps =
      ap split_addrs peers ∙ split_addrs-join (p ∷ ps) addrs in
    let theirs : split_replica_addrs genv.replica_addrs ≡ p ∷ ps =
      ap split_replica_addrs replicas
      ∙ split_replica_addrs-same (join_commas (p ∷ ps))
      ∙ split_addrs-join (p ∷ ps) addrs in
    (
      boot_valid env _
          (ap
            (λ as'. record {
              node_id = env.node_id;
              peer_addrs = as';
              gateway_addr = env.gateway_addr;
            })
            mine)
          (validate_named env.node_id env.gateway_addr p ps named gateway),
      rw (
        theirs,
        filled-eq genv.replica_addrs (λ e. joined_filled p ps addrs.0.filled (sym replicas ∙ e)),
      ),
    )
