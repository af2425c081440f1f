-- ===== src/Shard/Buckets.antt =====
-- Which partitions a shard's store has once commands have been applied.
use bydb.Base.{Bool, true, false, ◌≡◌, inl, inr, Option-cases, text_eq_iff, if◌then◌else◌, arith}
use bydb.Bleve.{Bleve}
use bydb.Bolt.Defs.{Bolt}
use bydb.Command.Types.{CommandType, put, del, post, create_part, delete_part, Command, full_id}
use bydb.Machine.Entry.{concerns}
use bydb.Machine.Queue.{is_part_type}
use bydb.Shard.Defs.{done, Working, apply_command}

-- Whether the partition is there behind a command that concerns it.
abbrev pub there_by : CommandType → Bool → Bool
there_by create_part exists = true
there_by put exists = true
there_by post exists = true
there_by del exists = true
there_by delete_part exists = false
there_by _ exists = exists

module _ (B : Bolt) (V : Bleve) where
  pub apply_command-has_bucket :
      (t : CommandType) (c q : Command) (w w' : Working B V)
      → c.is_part ≡ is_part_type t
      → apply_command B V t w c ≡ done w'
      → B.has_bucket w'.0 q.part
        ≡ (if concerns q c then there_by t (B.has_bucket w.0 q.part) else B.has_bucket w.0 q.part)
  unfolding apply_command concerns
  apply_command-has_bucket put c q (d, ops) w' k h =
      elim (Option-cases (B.put d c.part (full_id c) c.bytes_doc)) [
        | inl e ↦ absurd (ground arith)
        | inr (d', e) ↦ ground (
          arith,
          B.has_bucket-put d d' c.part (full_id c) c.bytes_doc q.part,
          text_eq_iff q.part c.part,
        )
      ]
  apply_command-has_bucket post c q (d, ops) w' k h =
      elim (Option-cases (B.put d c.part (full_id c) c.bytes_doc)) [
        | inl e ↦ absurd (ground arith)
        | inr (d', e) ↦ ground (
          arith,
          B.has_bucket-put d d' c.part (full_id c) c.bytes_doc q.part,
          text_eq_iff q.part c.part,
        )
      ]
  apply_command-has_bucket del c q (d, ops) w' k h =
      elim (Option-cases (B.delete d c.part (full_id c))) [
        | inl e ↦ absurd (ground arith)
        | inr (d', e) ↦
            ground
              (arith, B.has_bucket-delete d d' c.part (full_id c) q.part, text_eq_iff q.part c.part)
      ]
  apply_command-has_bucket create_part c q (d, ops) w' k h =
      elim (Option-cases (B.create_bucket d c.part)) [
        | inl e ↦ absurd (ground arith)
        | inr (d', e) ↦ ground (
          arith,
          B.has_bucket-create d d' c.part q.part,
          text_eq_iff c.part q.part,
          text_eq_iff q.part c.part,
        )
      ]
  apply_command-has_bucket delete_part c q (d, ops) w' k h = ground (
    arith,
    B.has_bucket-delete_bucket d c.part q.part,
    text_eq_iff c.part q.part,
    text_eq_iff q.part c.part,
  )
  apply_command-has_bucket _ c q (d, ops) w' k h = ground arith
