-- ===== src/Api/Laws.antt =====
-- What `Crud` does with a request, and the replica id that it gives to a new node.
use bydb.Base.{
  subst, sym, elem, map, true, ℕ, ◌+◌, ◌≤◌, ◌%◌, ◌^◌, ◌≡◌, ◌≢◌, inl, inr, refl, Text, codes, List,
  [], ◌∷◌, Option, none, some, All, ltb, if◌then◌else◌, arith, Option-cases,
}
use bydb.Base.Decimal.{Parsed, value, syntax_error, range_error, parse_uint}
use bydb.Document.{Document}
use bydb.Command.Grammar.{Request, get, search, join_node, remove_node, print, IsRequest, denoted}
use bydb.Command.Sound.{parse_command_sound}
use bydb.Command.RoundTrip.{parse_command-print}
use bydb.Command.Types.{Command, Result, ok, err}
use bydb.Command.Formats.{parse_command}
use bydb.Api.Defs.{
  NodeHost, Membership, Call, sync_propose, sync_read, get_membership, add_replica, delete_replica,
  Handled, max_id, remove_parsed, dispatch, crud,
}

-- A number is the highest id of some nodes, or 0 if there are none.
abbrev pub IsHighest : ℕ → List (ℕ × Text) → Type 0
IsHighest h nodes =
    All (λ (n : ℕ × Text). n.0 ≤ h) nodes × (elem h (0 ∷ map (λ (n : ℕ × Text). n.0) nodes) ≡ true)

max_id_lem :
    (m : ℕ) (nodes : List (ℕ × Text))
    → (m ≤ max_id m nodes)
      × All (λ (n : ℕ × Text). n.0 ≤ max_id m nodes) nodes
      × (elem (max_id m nodes) (m ∷ map (λ (n : ℕ × Text). n.0) nodes) ≡ true)
unfolding max_id
max_id_lem m [] = (omega arith, tt, ground arith)
max_id_lem m ((idx, host) ∷ nodes) =
    let (low, all, here) = max_id_lem (if ltb m idx then idx else m) nodes in
    (ground arith, (ground arith, all), ground arith)

-- The calls that a request is to make to the node host.
abbrev pub AreCallsToAdd : Text → Option Membership → List Call → Type 0
AreCallsToAdd address none calls = calls ≡ get_membership ∷ []
AreCallsToAdd address (some m) calls =
    (h : ℕ) × IsHighest h m.nodes
    × (calls ≡ get_membership ∷ add_replica ((h + 1) % 2 ^ 64) address m.config_change_id ∷ [])

abbrev pub calls_to_delete : Parsed → Option Membership → List Call
calls_to_delete (value id) (some m) = delete_replica id m.config_change_id ∷ []
calls_to_delete _ _ = []

abbrev pub AreCalls : NodeHost → Request → List Call → Type 0
AreCalls nh (get p i) calls = calls ≡ sync_read (print (get p i)) ∷ []
AreCalls nh (search p q) calls = calls ≡ sync_read (print (search p q)) ∷ []
AreCalls nh (join_node id) calls = AreCallsToAdd id nh.membership calls
AreCalls nh (remove_node id) calls =
    calls ≡ get_membership ∷ calls_to_delete (parse_uint id) nh.membership
AreCalls nh r calls = calls ≡ sync_propose (print r) ∷ []

module _ (nh : NodeHost) (duration : ℕ) (unmarshal : Text → Option Document) where
  pub crud-dispatch :
      (raw : Text) {cmd : Command}
      → parse_command unmarshal raw ≡ ok cmd
      → crud nh duration unmarshal raw ≡ dispatch nh duration cmd.type cmd raw
  unfolding crud
  crud-dispatch raw h = rw (h, crud)

  dispatch-AreCalls :
      (r : Request)
      → AreCalls nh r (dispatch nh duration (denoted r).type (denoted r) (print r)).calls
  unfolding dispatch
  dispatch-AreCalls (join_node id) = elim (Option-cases nh.membership) [
    | inl e ↦ rw e refl
    | inr (m, e) ↦
        let (low, all, here) = max_id_lem 0 m.nodes in rw e (max_id 0 m.nodes, (all, here), refl)
  ]
  dispatch-AreCalls (remove_node id) = elim (Option-cases nh.membership) [
    | inl e ↦ rw e (unread (parse_uint id))
    | inr (m, e) ↦ rw e (removed m (parse_uint id))
  ]
    where
      unread :
          (p : Parsed)
          → ◌≡◌ {A = List Call} (get_membership ∷ []) (get_membership ∷ calls_to_delete p none)
      unread (value n) = refl
      unread syntax_error = refl
      unread range_error = refl

      removed :
          (m : Membership) (p : Parsed)
          → (remove_parsed nh duration m p).calls ≡ get_membership ∷ calls_to_delete p (some m)
      removed m (value n) = refl
      removed m syntax_error = refl
      removed m range_error = refl
  dispatch-AreCalls _ = refl

  -- A well-written request makes these calls and no others: an altering one is proposed once, as it was
  -- written, a read is read once, a new node is added under the highest id of the membership (0 if
  -- it has no nodes) plus one, as a uint64, and a node is removed by its id if that is a uint64; the
  -- last two make no call behind an error of the membership.
  pub crud-calls :
      (r : Request)
      → IsRequest unmarshal r
      → AreCalls nh r (crud nh duration unmarshal (print r)).calls
  crud-calls r h =
      subst (λ (x : Handled). AreCalls nh r x.calls)
        (sym (crud-dispatch (print r) (parse_command-print unmarshal r h))) (dispatch-AreCalls r)

  -- A text that is no well-written request is answered with the code 400, and no call is made.
  pub crud_refuses :
      (raw : Text)
      → ((r : Request) → IsRequest unmarshal r → raw ≢ print r)
      → ((crud nh duration unmarshal raw).calls ≡ [])
        × ((crud nh duration unmarshal raw).reply
            ≡ some (record { code = 400; document = codes "bad request format"; duration = 0 }))
  crud_refuses raw h = refused (parse_command unmarshal raw) refl
    where
      refused :
          (p : Result Command)
          → parse_command unmarshal raw ≡ p
          → ((crud nh duration unmarshal raw).calls ≡ [])
            × ((crud nh duration unmarshal raw).reply
                ≡ some (record { code = 400; document = codes "bad request format"; duration = 0 }))
      refused (err x) e = unfold crud in (rw (e, crud), rw (e, crud))
      refused (ok cmd) e =
          let m = parse_command_sound unmarshal raw e in absurd (h m.request m.valid m.written)
