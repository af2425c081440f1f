-- ===== src/Machine/Recovery.antt =====
-- What a node opens behind `RecoverFromSnapshot` of statemachine/statemachine.go: its files hold the index
-- of the machine that prepared the snapshot.
use bydb.Base.{
  ℕ, ◌≤◌, Bool, true, false, ◌≡◌, ◌≢◌, refl, sym, ap, ◌∙◌, Text, codes, List, [], ◌∷◌, ◌++◌, Option,
  some, text_eq_iff, length, some_inj, if◌then◌else◌, All, arith,
}
use bydb.Bolt.Defs.{Bolt}
use bydb.Dir.{data_path, meta_db_path}
use bydb.Files.{FileSystem, or_empty}
use bydb.Zipper.{Header, Archive, untar}
use bydb.Zipper.Names.{separator, occurs}
use bydb.Zipper.RoundTrip.{IsElsewhere, file_at, untar-tar}
use bydb.Zipper.Tar.{Visit, Writer, tar, archive_of}
use bydb.Machine.Durable.{open-eq-done}
use bydb.Machine.Snapshot.{
  Prepared, Recovered, target_path, into_file, without_file, prepare_snapshot, save_snapshot,
  recovered, recover_from_snapshot,
}
use bydb.Shard.Defs.{Shard, done}
use bydb.Machine.Sync.{get_last_update_index, stored_index, read_index, open_machine}
use bydb.Machine.Update.{Machine}

-- Without an error, `RecoverFromSnapshot` leaves the files of `Untar`.
recovered-files :
    (B : Bolt) (F : FileSystem) (prefix : Text) (m m' : Machine B.Db) (r : F.Fs × Bool) (fs' : F.Fs)
    → recovered B F prefix m r ≡ record { files = fs'; machine = m'; fine = true }
    → r ≡ (fs', true)
unfolding get_last_update_index
recovered-files B F prefix m m' (fs, false) fs' e = cc
recovered-files B F prefix m m' (fs, true) fs' e =
    ap (λ (r : Recovered F.Fs B.Db). (r.files, true)) e

module _ (B : Bolt) (F : FileSystem) (w : Writer) (pack : List Header → Text) (prefix : Text)
    (visits : List Visit) where
  -- What is known of a machine and its files once a snapshot has been prepared.
  record IsPrepared (fs : F.Fs) (m m' : Machine B.Db) (key : Text) : Type 0 where
    opened : (F.open_or_create fs key).1 ≡ true
    packed : (tar F w (data_path F.join prefix) (F.open_or_create fs key).0 visits).1 ≡ true
    index : m'.last_index ≡ (read_index B (stored_index B m.meta_db)).0
    named : key ≡ target_path B F prefix m'.last_index

  -- Whether `Tar` has no error on opened files.
  abbrev took : F.Fs × Bool → Bool
  took r = (tar F w (data_path F.join prefix) r.0 visits).1

  into_file-IsPrepared :
      (m m' m'' : Machine B.Db) (fs fs' : F.Fs) (path key : Text) (r : F.Fs × Bool)
      → F.open_or_create fs path ≡ r
      → path ≡ target_path B F prefix m'.last_index
      → m'.last_index ≡ (read_index B (stored_index B m.meta_db)).0
      → into_file B F prefix w pack visits m' path r
        ≡ record { files = fs'; machine = m''; key = some key; fine = true }
      → IsPrepared fs m m'' key
  into_file-IsPrepared m m' m'' fs fs' path key (fs1, false) o n i e = cc
  into_file-IsPrepared m m' m'' fs fs' path key (fs1, true) o n i e =
      let same_key : path ≡ key = some_inj (ap (λ (p : Prepared F.Fs B.Db). p.key) e) in
      let same : m' ≡ m'' = ap (λ (p : Prepared F.Fs B.Db). p.machine) e in
      let packed : took (fs1, true) ≡ true = ap (λ (p : Prepared F.Fs B.Db). p.fine) e in
      record {
        opened =
            ap (λ q. (F.open_or_create fs q).1) (sym same_key) ∙ ap (λ (r : F.Fs × Bool). r.1) o;
        packed = ap (λ q. took (F.open_or_create fs q)) (sym same_key) ∙ ap took o ∙ packed;
        index = ap (λ (k : Machine B.Db). k.last_index) (sym same) ∙ i;
        named =
            sym same_key ∙ n ∙ ap (λ (k : Machine B.Db). target_path B F prefix k.last_index) same;
      }

  prepare_snapshot-IsPrepared :
      (fs fs' : F.Fs) (m m' : Machine B.Db) (key : Text)
      → prepare_snapshot B F prefix w pack visits fs m
        ≡ record { files = fs'; machine = m'; key = some key; fine = true }
      → IsPrepared fs m m' key
  unfolding prepare_snapshot get_last_update_index
  prepare_snapshot-IsPrepared fs fs' m m' key e = by_read (get_last_update_index B m) refl e
    where
      by_read :
          (r : Machine B.Db × ℕ × Bool)
          → get_last_update_index B m ≡ r
          → (if r.2
              then into_file B F prefix w pack visits r.0
                  (target_path B F prefix r.1)
                  (F.open_or_create fs (target_path B F prefix r.1))
              else without_file B F prefix w pack visits fs r.0)
            ≡ record { files = fs'; machine = m'; key = some key; fine = true }
          → IsPrepared fs m m' key
      by_read (m1, i, false) x y = cc
      by_read (m1, i, true) x y =
          let read : (read_index B (stored_index B m.meta_db)).0 ≡ m1.last_index =
            ap (λ (r : Machine B.Db × ℕ × Bool). r.0.last_index) x in
          let given : i ≡ m1.last_index =
            ap (λ (r : Machine B.Db × ℕ × Bool). r.1) (sym x) ∙ read in
          into_file-IsPrepared m m1 m' fs fs' (target_path B F prefix i) key _ refl
            (ap (target_path B F prefix) given) (sym read) y

-- The meta database's file, from the data of a node.
abbrev pub meta_name : Text
meta_name = codes "meta.bolt"

module _ (B : Bolt) (F : FileSystem) (meta_in : Option Text → B.Db) (w : Writer)
    (pack : List Header → Text) (unpack : Text → Option Archive) where
  opened-content :
      (fs : F.Fs) (key q t : Text) (r : F.Fs × Bool)
      → F.open_or_create fs key ≡ r
      → r.1 ≡ true
      → F.content fs q ≡ some t
      → F.content r.0 q ≡ some t
  opened-content fs key q t (fs', fine) x o c =
      let left = F.content-open_or_create fs fs' key q (x ∙ ap (λ b. (fs', b)) o) in
      ground (arith, text_eq_iff key q)

  paired : (hs : List Header) (r : List Header × Bool) → r.0 ≡ hs → r.1 ≡ true → r ≡ (hs, true)
  paired hs (hs', fine) x y = ap (λ h. (h, fine)) x ∙ ap (λ b. (hs, b)) y

  -- The stored index goes with a snapshot from a node to another that opens again. A function says what
  -- a meta database shows of its file, and the sender's shows what its file holds. That file lies below
  -- the sender's data path, which does not occur again in its name, and no other archived file
  -- leads to the receiver's meta file. If the snapshot is prepared without an error, the saved text
  -- is read back as the archive that was written, the receiver's meta file is not longer than the
  -- sender's, the recovery has no error, and a machine then opens from the receiver's files, then the
  -- snapshot's file is named by the sender's index, and the receiver opens with that index.
  pub recover-prepare :
      (sender receiver : Text) (visits before after : List Visit) (hs : List Header)
      (fs fs1 fs2 fs3 : F.Fs) (m m1 m2 m3 m4 : Machine B.Db) (key t zip : Text)
      (open_shard : ℕ → Option (Shard B.Db)) (i : ℕ) (fine : Bool)
      → visits ≡ before ++ file_at (data_path F.join sender) meta_name ∷ after
      → m.meta_db ≡ meta_in (F.content fs (meta_db_path F.join sender))
      → F.content fs (meta_db_path F.join sender) ≡ some t
      → meta_db_path F.join sender ≡ data_path F.join sender ++ separator ∷ meta_name
      → data_path F.join sender ≢ []
      → occurs (data_path F.join sender) (separator ∷ meta_name) ≡ false
      → All (IsElsewhere F w (data_path F.join sender) (data_path F.join receiver) meta_name) before
      → All (IsElsewhere F w (data_path F.join sender) (data_path F.join receiver) meta_name) after
      → prepare_snapshot B F sender w pack visits fs m
        ≡ record { files = fs1; machine = m1; key = some key; fine = true }
      → (tar F w (data_path F.join sender) (F.open_or_create fs key).0 visits).0 ≡ hs
      → save_snapshot B F sender fs1 key ≡ some zip
      → unpack zip ≡ some (archive_of hs)
      → length (or_empty (F.content fs2 (meta_db_path F.join receiver))) ≤ length t
      → recover_from_snapshot B F receiver fs2 m2 (unpack zip)
        ≡ record { files = fs3; machine = m3; fine = true }
      → open_machine B open_shard (some (meta_in (F.content fs3 (meta_db_path F.join receiver))))
        ≡ done (m4, i, fine)
      → (key ≡ target_path B F sender m1.last_index)
        × (i ≡ m1.last_index)
        × (m4.last_index ≡ m1.last_index)
  unfolding recover_from_snapshot meta_db_path
  recover-prepare sender receiver visits before after hs fs fs1 fs2 fs3 m m1 m2 m3 m4 key t zip
        open_shard i fine walk shown held below ne once hb ha prepared wrote saved read short back
        again =
      let p = prepare_snapshot-IsPrepared B F w pack sender visits fs fs1 m m1 key prepared in
      let unpacked =
        recovered-files B F receiver m2 m3 (untar F (data_path F.join receiver) fs2 (unpack zip))
          fs3 back in
      let there = opened-content fs key (meta_db_path F.join sender) t _ refl p.opened held in
      let here : F.content fs3 (meta_db_path F.join receiver) ≡ some t =
        (untar-tar F w (data_path F.join sender) (data_path F.join receiver) _ fs2 fs3 before after
            hs meta_name t ne once hb ha (ap (F.content _) (sym below) ∙ there)
            (ap (tar F w (data_path F.join sender) _) (sym walk) ∙ paired hs _ wrote p.packed)
            (ap (untar F (data_path F.join receiver) fs2) (sym read) ∙ unpacked)).1
          short in
      let opened = open-eq-done B open_shard _ m4 i fine again in
      let index : i ≡ m1.last_index =
        ap (λ (r : ℕ × Bool). r.0) (sym opened.2)
        ∙ ap (λ c. (read_index B (stored_index B (meta_in c))).0) (here ∙ sym held)
        ∙ ap (λ d. (read_index B (stored_index B d)).0) (sym shown)
        ∙ sym p.index in
      (p.named, index, opened.1 ∙ index)
