-- ===== src/Tests/BootTests.antt =====
-- replica/cmd/main.go and gateway/cmd/main.go with two addresses.
use smol_raft.Prelude.{◌≡◌, ◌≢◌, refl, Bool, false, str_eq, String, some, [], ◌∷◌, All, str_eq_iff}
use smol_raft.Node.{new_node}
use smol_raft.Tracker.{new_tracker}
use smol_raft.Hub.{new_hub}
use smol_raft.Addrs.{
  split_addrs, split_commas, non_blank, trim_space, trim_left, trim_right, is_space,
}
use smol_raft.Addrs.Parses.{IsAddr, split_addrs-IsAddr}
use smol_raft.Boot.{Env, boot, serving, GatewayEnv, boot_gateway}
use smol_raft.Boot.Serves.{boot_serves}

two : split_addrs " b:1, ,c:2,\t" ≡ "b:1" ∷ "c:2" ∷ []
unfolding split_addrs split_commas non_blank trim_space trim_left trim_right is_space
two = refl

split_addrs-IsAddr_example : All IsAddr (split_addrs " b:1, ,c:2,\t")
split_addrs-IsAddr_example = split_addrs-IsAddr " b:1, ,c:2,\t"

filled : (s : String) → ◌≡◌ {A = Bool} (str_eq s "") false → s ≢ ""
filled s h e = cc ((str_eq_iff s "").1 e)

b_IsAddr : IsAddr "b:1"
unfolding trim_space trim_left trim_right is_space
b_IsAddr = record { filled = filled "b:1" refl; lacks = (refl, (refl, (refl, tt))); trimmed = refl }

c_IsAddr : IsAddr "c:2"
unfolding trim_space trim_left trim_right is_space
c_IsAddr = record { filled = filled "c:2" refl; lacks = (refl, (refl, (refl, tt))); trimmed = refl }

abbrev env : Env
env = record { node_id = "n1"; port = ""; peer_addrs = "b:1,c:2"; gateway_addr = "gw:8080" }

abbrev genv : GatewayEnv
genv = record { port = "80"; replica_addrs = "b:1,c:2" }

boot_serves_example :
    (boot env
      ≡ serving "9001" (
          new_node
            (record { node_id = "n1"; peer_addrs = "b:1" ∷ "c:2" ∷ []; gateway_addr = "gw:8080" })))
    × (boot_gateway genv ≡ some ("80", new_tracker ("b:1" ∷ "c:2" ∷ []), new_hub))
boot_serves_example =
    boot_serves env genv "b:1" ("c:2" ∷ []) (b_IsAddr, (c_IsAddr, tt)) refl refl (filled "n1" refl)
      (filled "gw:8080" refl)
