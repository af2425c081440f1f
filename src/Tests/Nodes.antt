-- ===== src/Tests/Nodes.antt =====
-- Examples for server.go and zipper/zipper.go.
use bydb.Base.{true, ◌≡◌, refl, Text, codes, [], ◌∷◌, some, text_eq, arith}
use bydb.Bolt.Model.{lookup, without}
use bydb.Config.{Config, default_raft, node_address, is_init_node}
use bydb.Files.{overlay}
use bydb.Files.Model.{Files, assoc_files, write}
use bydb.Server.{plan, plan_for, IsStart, plan-IsStart}
use bydb.Zipper.{regular, directory, Archive, extract, extract_all, untar}

-- The second of two initial nodes.
abbrev second : Config
second = record {
  replica_id = 2;
  address = [];
  grpc_address = codes "localhost:64002";
  initial_nodes = codes "h1" ∷ codes "h2" ∷ [];
  raft = default_raft;
}

abbrev joined : Text → Text → Text
joined d n = n

plan-IsStart_example :
    IsStart joined true second (plan_for joined true second (codes "h2") (codes "localhost:64002"))
plan-IsStart_example =
    plan-IsStart joined true second
      (plan_for joined true second (codes "h2") (codes "localhost:64002")) (omega arith)
      (omega arith) (unfold plan node_address is_init_node in refl)

-- An archive with a directory and one file, which is shorter than the file on disk.
abbrev archive : Archive
archive = record {
  headers =
      some (record { name = codes "block"; typeflag = directory; body = some [] })
      ∷ some (record { name = codes "m"; typeflag = regular; body = some (codes "new") })
      ∷ [];
  complete = true;
}

abbrev old_files : Files
old_files = (codes "d/m", codes "older") ∷ []

abbrev new_files : Files
new_files = (codes "d/m", codes "newer") ∷ []

untar-archive : untar assoc_files (codes "d") old_files (some archive) ≡ (new_files, true)
unfolding untar extract_all extract write without lookup overlay text_eq
untar-archive = refl
