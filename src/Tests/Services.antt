-- ===== src/Tests/Services.antt =====
-- Examples for api/api.go and config/config.go.
use bydb.Api.Defs.{NodeHost, Membership, add_replica, get_membership, crud}
use bydb.Api.Laws.{IsHighest, crud-calls, crud_refuses}
use bydb.Base.{
  ℕ, true, ◌+◌, ◌%◌, ◌^◌, ◌≡◌, refl, Text, codes, List, [], ◌∷◌, none, some, arith, ◌≢◌,
}
use bydb.Command.Grammar.{Request, join_node, print, IsRequest}
use bydb.Config.{Config, default_raft, Flags, node_address, node_address_lem, initial_node_map}
use bydb.Response.{success}
use bydb.Tests.Fixtures.{decode}

abbrev membership : Membership
membership = record {
  nodes = (1, codes "h1") ∷ (4, codes "h4") ∷ (2, codes "h2") ∷ [];
  config_change_id = 11;
}

abbrev node_host : NodeHost
node_host = record {
  propose = λ raw. some 200;
  read = λ raw. some (success raw);
  membership = some membership;
  adds = λ id address change. true;
  deletes = λ id change. true;
}

crud-calls_example :
    (h : ℕ) × IsHighest h membership.nodes
    × ((crud node_host 7 decode (codes "JOIN_NODE h5")).calls
        ≡ get_membership ∷ add_replica ((h + 1) % 2 ^ 64) (codes "h5") 11 ∷ [])
crud-calls_example =
    crud-calls node_host 7 decode (join_node (codes "h5")) (λ e. cc, (refl, (refl, tt)))

not_a_request : (r : Request) → IsRequest decode r → codes "?" ≢ print r
not_a_request (Request.get p i) h e = cc
not_a_request (Request.del p i s n) h e = cc
not_a_request (Request.put s b n d) h e = cc
not_a_request (Request.post b d) h e = cc
not_a_request (Request.search p q) h e = cc
not_a_request (Request.create_part p) h e = cc
not_a_request (Request.delete_part p) h e = cc
not_a_request (Request.join_node i) h e = cc
not_a_request (Request.remove_node i) h e = cc

crud_refuses_example :
    ((crud node_host 7 decode (codes "?")).calls ≡ [])
    × ((crud node_host 7 decode (codes "?")).reply
        ≡ some (record { code = 400; document = codes "bad request format"; duration = 0 }))
crud_refuses_example = crud_refuses node_host 7 decode (codes "?") not_a_request

abbrev config_of : ℕ → Text → List Text → Config
config_of id address nodes = record {
  replica_id = id;
  address = address;
  grpc_address = codes "localhost:64001";
  initial_nodes = nodes;
  raft = default_raft;
}

abbrev node_2 : Config
node_2 = config_of 2 [] (codes "h1" ∷ codes "h2" ∷ [])

node_address_lem_example : node_address node_2 ≡ some (codes "h2")
unfolding initial_node_map
node_address_lem_example = node_address_lem node_2 (omega arith) (omega arith)

-- The command line names the replica 3; the file names the replica 8 and an address.
abbrev flags : Flags
flags = record { replica_id = some 3; address = none; grpc_address = none }

abbrev loaded : Config
loaded = config_of 3 (codes "h8") []
