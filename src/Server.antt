-- ===== src/Server.antt =====
-- `main` of server.go up to the start of the replica: what it hands to the Raft node host and to the
-- gRPC API. `first_run` is what `isFirstRun` gives, which asks three times for the same directory.
use bydb.Base.{
  ℕ, ◌<◌, ◌^◌, Bool, true, false, not, ◌&&◌, ◌≡◌, refl, ◌⊎◌, inl, inr, ap, sym, ◌∙◌, some_inj,
  Bool-cases, Text, codes, [], ◌∷◌, ◌++◌, Option, none, some, length, leb, if◌then◌else◌, arith,
}
use bydb.Base.Decimal.{print_uint}
use bydb.Config.{Config, NodeMap, is_init_node, initial_node_map, node_address, node_address_lem}
use bydb.Dir.{raft_path}

-- What `StartOnDiskReplica`, `NewNodeHost` and `Start` are given.
pub record Plan : Type 0 where
  pub initial_members : NodeMap
  pub join : Bool
  pub replica_id : ℕ
  pub shard_id : ℕ
  pub election_rtt : ℕ
  pub heartbeat_rtt : ℕ
  pub check_quorum : Bool
  pub snapshot_entries : ℕ
  pub compaction_overhead : ℕ
  pub node_host_dir : Text
  pub rtt_millisecond : ℕ
  pub raft_address : Text
  pub grpc_address : Text

abbrev pub no_members : NodeMap
no_members id = none

unfoldable pub joins : Bool → Config → Bool
joins first_run c = first_run && not (is_init_node c)

unfoldable pub members : Bool → Config → NodeMap
members first_run c =
    if first_run && not (joins first_run c) then initial_node_map c else no_members

-- `dir.SetPrefix(fmt.Sprintf("test-run/node-%d", replicaID))`
unfoldable pub node_prefix : ℕ → Text
node_prefix id = codes "test-run/node-" ++ print_uint id

module _ (join_path : Text → Text → Text) where
  abbrev pub plan_for : Bool → Config → Text → Text → Plan
  plan_for first_run c address grpc = record {
    initial_members = members first_run c;
    join = joins first_run c;
    replica_id = c.replica_id;
    shard_id = c.raft.shard_id;
    election_rtt = c.raft.election_rtt;
    heartbeat_rtt = c.raft.heartbeat_rtt;
    check_quorum = true;
    snapshot_entries = c.raft.snapshot_entries;
    compaction_overhead = c.raft.compaction_overhead;
    node_host_dir = raft_path join_path (node_prefix c.replica_id);
    rtt_millisecond = c.raft.rtt_millisecond;
    raft_address = address;
    grpc_address = grpc;
  }

  -- The panics on an id with no host and on an empty address.
  abbrev with_addresses : Bool → Config → Option Text → Text → Option Plan
  with_addresses first_run c none grpc = none
  with_addresses first_run c (some []) grpc = none
  with_addresses first_run c (some (x ∷ xs)) [] = none
  with_addresses first_run c (some (x ∷ xs)) (y ∷ ys) =
      some (plan_for first_run c (x ∷ xs) (y ∷ ys))

  unfoldable pub plan : Bool → Config → Option Plan
  plan first_run c = with_addresses first_run c (node_address c) c.grpc_address

  -- How a node comes up: on a later run with neither a join nor members; on its first run, above the
  -- initial nodes, by a join with no members; on its first run, as an initial node, with members that
  -- give its own id the address that it listens on.
  abbrev pub IsStart : Bool → Config → Plan → Type 0
  IsStart first_run c p =
      ((first_run ≡ false) × (p.join ≡ false) × (p.initial_members ≡ no_members))
      ⊎ ((first_run ≡ true)
          × (length c.initial_nodes < c.replica_id)
          × (p.join ≡ true)
          × (p.initial_members ≡ no_members))
      ⊎ ((first_run ≡ true)
          × (p.join ≡ false)
          × (p.initial_members c.replica_id ≡ some p.raft_address))

  plan-address :
      (first_run : Bool) (c : Config) (p : Plan)
      → plan first_run c ≡ some p
      → (node_address c ≡ some p.raft_address)
        × (p.join ≡ joins first_run c)
        × (p.initial_members ≡ members first_run c)
  unfolding plan
  plan-address first_run c p h = read (node_address c) c.grpc_address refl h
    where
      read :
          (a : Option Text) (g : Text)
          → node_address c ≡ a
          → with_addresses first_run c a g ≡ some p
          → (node_address c ≡ some p.raft_address)
            × (p.join ≡ joins first_run c)
            × (p.initial_members ≡ members first_run c)
      read none g e h = cc
      read (some []) g e h = cc
      read (some (x ∷ xs)) [] e h = cc
      read (some (x ∷ xs)) (y ∷ ys) e h =
          let eq = some_inj h in
          (
            e ∙ ap (λ (q : Plan). some q.raft_address) eq,
            sym (ap (λ (q : Plan). q.join) eq),
            sym (ap (λ (q : Plan). q.initial_members) eq),
          )

  -- A node whose plan is made comes up in one of the three ways, for a replica id that is a uint64 and
  -- fewer than 2^63 initial nodes.
  pub plan-IsStart :
      (first_run : Bool) (c : Config) (p : Plan)
      → c.replica_id < 2 ^ 64
      → length c.initial_nodes < 2 ^ 63
      → plan first_run c ≡ some p
      → IsStart first_run c p
  unfolding joins members is_init_node
  plan-IsStart false c p small few h = let (a, j, m) = plan-address false c p h in inl (refl, j, m)
  plan-IsStart true c p small few h =
      let (a, j, m) = plan-address true c p h in
      elim (Bool-cases (leb c.replica_id (length c.initial_nodes))) [
        | inl within ↦
            let named : initial_node_map c c.replica_id ≡ some p.raft_address =
              ground (arith, node_address_lem c small few) in
            inr (
              inr (
                refl,
                rw within at j,
                ap (λ (f : NodeMap). f c.replica_id) (rw within at m) ∙ named,
              ))
        | inr above ↦ inr (inl (refl, ground arith, rw above at j, rw above at m))
      ]
