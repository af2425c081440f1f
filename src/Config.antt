-- ===== src/Config.antt =====
-- config/config.go: the configuration record and what it says of a node. `LoadConfig` reads flags and a
-- file, and is modelled from the values that these give.
use bydb.Base.{
  ◌∙◌, sym, Bool-cases, inl, inr, ℕ, zero, suc, ◌+◌, ◌-◌, ◌≤◌, ◌<◌, ◌%◌, ◌^◌, Bool, ◌≡◌, Text,
  codes, List, [], ◌∷◌, Option, none, some, length, get_elem?, leb, ◌==◌, if◌then◌else◌, arith,
  refl,
}

pub record RaftConfig : Type 0 where
  pub shard_id : ℕ
  pub snapshot_entries : ℕ
  pub compaction_overhead : ℕ
  pub election_rtt : ℕ
  pub heartbeat_rtt : ℕ
  pub rtt_millisecond : ℕ

pub record Config : Type 0 where
  pub replica_id : ℕ
  pub address : Text
  pub grpc_address : Text
  pub initial_nodes : List Text
  pub raft : RaftConfig

unfoldable pub is_init_node : Config → Bool
is_init_node s = leb s.replica_id (length s.initial_nodes)

-- A map from replica ids to hosts, as a function.
abbrev pub NodeMap : Type 0
NodeMap = ℕ → Option Text

-- The loop of `InitialNodeMap` from an index on; ids wrap as a uint64 does.
unfoldable pub add_hosts : ℕ → List Text → NodeMap → NodeMap
add_hosts idx [] ret = ret
add_hosts idx (host ∷ hosts) ret =
    add_hosts (idx + 1) hosts (λ id. if id == (idx + 1) % 2 ^ 64 then some host else ret id)

unfoldable pub initial_node_map : Config → NodeMap
unfolding add_hosts
initial_node_map s = add_hosts 0 s.initial_nodes (λ id. none)

-- `s.InitialNodes[int(s.ReplicaId-1)]`: uint64 subtraction, then the int of the same bits; `none` is the panic of an
-- index out of range, which a negative index is too.
abbrev pub index_before : ℕ → ℕ
index_before id = (id + 2 ^ 64 - 1) % 2 ^ 64

unfoldable pub node_address : Config → Option Text
unfolding is_init_node
node_address s =
    if is_init_node s then get_elem? s.initial_nodes (index_before s.replica_id) else some s.address

abbrev pub default_raft : RaftConfig
default_raft = record {
  shard_id = 128;
  snapshot_entries = 1000;
  compaction_overhead = 200;
  election_rtt = 10;
  heartbeat_rtt = 1;
  rtt_millisecond = 200;
}

-- The defaults of `LoadConfig`.
unfoldable pub default_config : Config
default_config = record {
  replica_id = 0;
  address = [];
  grpc_address = codes "localhost:64001";
  initial_nodes = [];
  raft = default_raft;
}

-- `LoadConfig`: flags, then the file, then the flags again. A pass over the flags sets what the command line names, and
-- the file's bytes are decoded over what is there; `none` is an error.
pub record Flags : Type 0 where
  pub replica_id : Option ℕ
  pub address : Option Text
  pub grpc_address : Option Text

abbrev pub given {ℓ} : {A : Type ℓ} → Option A → A → A
given none a = a
given (some b) a = b

unfoldable pub parse_flags : Flags → Config → Config
parse_flags f c = record c {
  replica_id = given f.replica_id c.replica_id;
  address = given f.address c.address;
  grpc_address = given f.grpc_address c.grpc_address;
}

unfoldable pub load_config : Flags → Option Text → (Text → Config → Option Config) → Option Config
unfolding parse_flags
load_config flags none unmarshal = none
load_config flags (some raw) unmarshal = elim (unmarshal raw (parse_flags flags default_config)) [
  | none ↦ none
  | some c ↦ some (parse_flags flags c)
]

add_hosts-outside :
    (idx : ℕ) (hosts : List Text) (ret : NodeMap) (id : ℕ)
    → idx + length hosts < 2 ^ 64
    → id ≤ idx
    → add_hosts idx hosts ret id ≡ ret id
unfolding add_hosts
add_hosts-outside idx [] ret id h k = refl
add_hosts-outside idx (host ∷ hosts) ret id h k =
    add_hosts-outside (idx + 1) hosts _ id (omega arith) (omega arith) ∙ ground arith

add_hosts-at :
    (idx : ℕ) (hosts : List Text) (ret : NodeMap) (i : ℕ)
    → idx + length hosts < 2 ^ 64
    → i < length hosts
    → add_hosts idx hosts ret (idx + i + 1) ≡ get_elem? hosts i
unfolding add_hosts
add_hosts-at idx [] ret i h k = absurd (omega arith)
add_hosts-at idx (host ∷ hosts) ret zero h k =
    add_hosts-outside (idx + 1) hosts _ (idx + 0 + 1) (omega arith) (omega arith) ∙ ground arith
add_hosts-at idx (host ∷ hosts) ret (suc i) h k =
    let e : idx + suc i + 1 ≡ idx + 1 + i + 1 = omega arith in
    rw e (add_hosts-at (idx + 1) hosts _ i (omega arith) (omega arith))

get_elem?-outside : (hosts : List Text) (i : ℕ) → length hosts ≤ i → get_elem? hosts i ≡ none
get_elem?-outside [] i h = refl
get_elem?-outside (host ∷ hosts) zero h = absurd (omega arith)
get_elem?-outside (host ∷ hosts) (suc i) h = get_elem?-outside hosts i (omega arith)

-- What `NodeAddress` returns for every id: the host that the map of the initial nodes gives to an id
-- from 1 to their number, the configured address for an id above it, and a panic for the id 0.
pub node_address_lem :
    (s : Config)
    → s.replica_id < 2 ^ 64
    → length s.initial_nodes < 2 ^ 63
    → node_address s ≡ (
        if s.replica_id == 0
        then none
        else if leb s.replica_id (length s.initial_nodes)
        then initial_node_map s s.replica_id
        else some s.address)
unfolding node_address initial_node_map
node_address_lem s small few = elim (Bool-cases (s.replica_id == 0)) [
  | inl zero' ↦
      rw zero' (ground (arith, get_elem?-outside s.initial_nodes (index_before s.replica_id)))
  | inr other ↦ rw other (elim (Bool-cases (leb s.replica_id (length s.initial_nodes))) [
    | inl within ↦ rw within (named (s.replica_id - 1) (ground arith) (ground arith))
    | inr beyond ↦ rw beyond
  ])
]
  where
    named :
        (i : ℕ)
        → s.replica_id ≡ 0 + i + 1
        → i < length s.initial_nodes
        → get_elem? s.initial_nodes (index_before s.replica_id)
          ≡ add_hosts 0 s.initial_nodes (λ id. none) s.replica_id
    named i e h =
        let same : index_before s.replica_id ≡ i = omega arith in
        rw (same, e) (sym (add_hosts-at 0 s.initial_nodes (λ id. none) i (omega arith) h))

-- A flag that the command line names wins over the file.
pub load_config-flags :
    (flags : Flags) (raw : Text) (unmarshal : Text → Config → Option Config) (read c : Config)
    → unmarshal raw (parse_flags flags default_config) ≡ some read
    → load_config flags (some raw) unmarshal ≡ some c
    → (c.replica_id ≡ given flags.replica_id read.replica_id)
      × (c.address ≡ given flags.address read.address)
      × (c.grpc_address ≡ given flags.grpc_address read.grpc_address)
      × (c.initial_nodes ≡ read.initial_nodes)
      × (c.raft ≡ read.raft)
unfolding load_config
load_config-flags flags raw unmarshal read c e h = ground arith
