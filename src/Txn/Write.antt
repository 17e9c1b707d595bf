-- ===== src/Txn/Write.antt =====
-- The outermost `logdb_txn_commit` as a change of the sections: all of the data or none of it.
use logdb.Prelude.{
  ℕ, ◌+◌, ◌-◌, ◌≤◌, ◌<◌, ◌≡◌, refl, sym, ap, subst, ◌∙◌, ◌⊎◌, inl, inr, ℤ, succeeded, failed, true,
  List, [], ◌++◌, ◌==◌, if◌then◌else◌, arith, u16, length, take, length-take, take-length, ◌≢◌,
}
use mathlib.Core.Path.{ap₂}
use native.Mathlib.Decide.{dec_lt}
use logdb.File.{File, write_at}
use logdb.File.Laws.{length-read_at}
use logdb.Io.{Fd}
use logdb.Log.Layout.{section_size, log_offset, connection_offset, encode16}
use logdb.Connection.{Conn}
use logdb.Heap.{Heap, Result, answered}
use logdb.Sections.{stored, HasShorts}
use logdb.Sections.Growth.{stored-grown, stored-none, HasShorts-grown}
use logdb.Sections.Laws.{stored-data, stored-entry, stored-full, stored-some}
use logdb.Lease.{Lease}
use logdb.Lease.Choose.{Choice, IsLog}
use logdb.Txn.{Sent}
use logdb.Txn.Send.{IsSent}
use logdb.Txn.Publish.{Published}

-- What a section of the new files holds, if these bytes went to the end of section `index`. An
-- entry of 2^16 is stored as 0.
abbrev pub extended : ℕ → ℕ → List ℕ → List ℕ → ℕ → List ℕ
extended index offset bytes old j =
    if j == index then (if offset + length bytes == section_size then [] else old ++ bytes) else old

-- What the call leaves of the sections: all of the bytes at the end of one, or everything as it
-- was.
pub record Committed (bytes : List ℕ) (c : Conn) (code : ℤ) (c' : Conn) : Type 0 where
  pub index : ℕ
  pub offset : ℕ
  -- the section was valid up to the offset before
  pub behind : length (stored c.db.file c.log.file index) ≡ offset
  pub inside : offset + length bytes ≤ section_size
  pub outcome :
      (code ≡ succeeded)
        × ((j : ℕ)
            → stored c'.db.file c'.log.file j
              ≡ extended index offset bytes (stored c.db.file c.log.file j) j)
        × ((c.nosync ≡ true) ⊎ (c'.db.synced ≡ c'.db.file))
      ⊎ (code ≡ failed)
        × ((j : ℕ) → stored c'.db.file c'.log.file j ≡ stored c.db.file c.log.file j)

-- The call returns, the heap as before.
pub record Commits (bytes : List ℕ) (c : Conn) (h : Heap) (r : Result (ℤ × Conn)) : Type 0 where
  pub code : ℤ
  pub conn : Conn
  pub returns : r ≡ answered (code, conn) h
  pub committed : Committed bytes c code conn

-- The files after the lease was granted and data were written through it.
module _ (n : ℕ) (bytes : List ℕ) (c c1 : Conn) (lease : Lease)
    (choice : Choice n n (length bytes) c.log lease.index lease.offset c1.log) (few : n < 65536)
    (shorts : HasShorts c.log.file) (is : IsLog n c.log) (same_db : c1.db ≡ c.db) where
  pub shorts1 : HasShorts c1.log.file
  shorts1 = HasShorts-grown c.log.file c1.log.file choice.grown shorts

  pub offset-short : lease.offset < section_size
  offset-short = shorts1.short lease.index lease.offset choice.space.entry

  pub room : lease.offset + length bytes ≤ section_size
  room = omega (arith, offset-short, choice.space.room)

  pub index-small : lease.index < 65536
  index-small = elim choice.last [
    | inl (below, _, _, _) ↦ omega (arith, below)
    | inr (same, _, _) ↦ omega (arith, same)
  ]

  pub before : (j : ℕ) → stored c1.db.file c1.log.file j ≡ stored c.db.file c.log.file j
  before j =
      ap (λ (d : Fd). stored d.file c1.log.file j) same_db
      ∙ stored-grown c.db.file c.log.file c1.log.file j (choice.grown j)

  -- The lease starts behind the valid bytes.
  behind_valid : length (stored c.db.file c.log.file lease.index) ≡ lease.offset
  behind_valid =
      ap length (
        sym (before lease.index)
        ∙ stored-some c1.db.file c1.log.file lease.index choice.space.entry)
      ∙ length-read_at (connection_offset lease.index) lease.offset c1.db.file

  -- Data written behind the valid bytes are not seen.
  data_unseen :
      (part : List ℕ)
      → lease.offset + length part ≤ section_size
      → (j : ℕ)
      → stored
          (write_at (connection_offset lease.index + lease.offset) part c1.db.file)
          c1.log.file
          j
        ≡ stored c.db.file c.log.file j
  data_unseen part shorter j = elim (dec_lt j 65536) [
    | yes hj ↦
        stored-data lease.index lease.offset part c1.db.file c1.log.file shorts1 choice.space.entry
          index-small shorter j hj
        ∙ before j
    | no far ↦
        stored-grown _ c.log.file c1.log.file j (choice.grown j)
        ∙ outside _ j far
        ∙ sym (outside c.db.file j far)
  ]
    where
      outside : (f : File) (j : ℕ) → ¬ (j < 65536) → stored f c.log.file j ≡ []
      outside f j far = stored-none f c.log.file n j is.size (omega (arith, few, far))

  unseen :
      (left : ℕ) (db : Fd)
      → left ≤ length bytes
      → db.file
        ≡ write_at
            (connection_offset lease.index + lease.offset)
            (take (length bytes - left) bytes)
            c1.db.file
      → (j : ℕ) → stored db.file c1.log.file j ≡ stored c.db.file c.log.file j
  unseen left db within file j =
      ap (λ f. stored f c1.log.file j) file
      ∙ data_unseen (take (length bytes - left) bytes)
          (omega (arith, room, length-take (length bytes - left) bytes)) j

  -- The new entry makes them seen.
  pub seen :
      (db : Fd) (log : File)
      → db.file ≡ write_at (connection_offset lease.index + lease.offset) bytes c1.db.file
      → log
        ≡ write_at
            (log_offset lease.index)
            (encode16 (u16 (lease.offset + length bytes)))
            c1.log.file
      → (j : ℕ)
      → stored db.file log j
        ≡ extended lease.index lease.offset bytes (stored c.db.file c.log.file j) j
  seen db log file entry j =
      ap₂ (λ f g. stored f g j) file entry ∙ shown (dec_lt total section_size)
    where
      total : ℕ
      total = lease.offset + length bytes

      written : File
      written = write_at (connection_offset lease.index + lease.offset) bytes c1.db.file

      shown :
          Dec (total < section_size)
          → stored written (write_at (log_offset lease.index) (encode16 (u16 total)) c1.log.file) j
            ≡ extended lease.index lease.offset bytes (stored c.db.file c.log.file j) j
      shown (yes below) =
          ap (λ k. stored written (write_at (log_offset lease.index) (encode16 k) c1.log.file) j)
            (omega (arith, below))
          ∙ stored-entry lease.index lease.offset bytes c1.db.file c1.log.file choice.space.entry
              choice.inside below j
          ∙ ground (arith, before j, data_unseen bytes room j, below)
      shown (no above) =
          ap (λ l. stored written (write_at (log_offset lease.index) l c1.log.file) j)
            (full_entry total (omega (arith, room, above)))
          ∙ stored-full lease.index lease.offset bytes c1.db.file c1.log.file choice.inside j
          ∙ ground (arith, data_unseen bytes room j, room, above)
        where
          full_entry : (k : ℕ) → k ≡ section_size → encode16 (u16 k) ≡ encode16 section_size
          full_entry k e = rw e refl

  module _ (s : Sent) (sent : IsSent bytes lease c1.db s) where
    -- The outcome was not published.
    pub unpublished :
        (c' : Conn)
        → c'.db.file ≡ s.db.file
        → c'.log.file ≡ c1.log.file
        → Committed bytes c failed c'
    unpublished c' same_data same_log = record {
      index = lease.index;
      offset = lease.offset;
      behind = behind_valid;
      inside = room;
      outcome = inr (
        refl,
        λ j.
            ap₂ (λ f g. stored f g j) same_data same_log
            ∙ unseen sent.left s.db sent.written.within sent.written.file j,
      );
    }

    -- All data were written, and `publish` has run.
    pub published :
        (code : ℤ) (c' : Conn)
        → s.done ≡ true
        → Published s.lease (record c1 { db = s.db }) code c'
        → c1.nosync ≡ c.nosync
        → (code ≡ succeeded) ⊎ (c'.log.file ≡ c1.log.file)
        → Committed bytes c code c'
    published code c' done p same_flag quietly = elim p.outcome [
      | inl (works, entry, durable) ↦ record {
        index = lease.index;
        offset = lease.offset;
        behind = behind_valid;
        inside = room;
        outcome = inl (
          works,
          (λ j.
              ap (λ f. stored f c'.log.file j) p.db
              ∙ seen s.db c'.log.file whole (entry ∙ at_end) j),
          elim durable [
            | inl fast ↦ inl (sym same_flag ∙ fast)
            | inr synced ↦ inr (synced ∙ sym p.db)
          ],
        );
      }
      | inr (inl (fails, same_log)) ↦
          subst (λ z. Committed bytes c z c') (sym fails) (unpublished c' p.db same_log)
      | inr (inr (fails, _, _)) ↦ elim quietly [
        | inl works ↦ absurd (not_both code works fails)
        | inr same_log ↦
            subst (λ z. Committed bytes c z c') (sym fails) (unpublished c' p.db same_log)
      ]
    ]
      where
        not_both : (k : ℤ) → k ≡ succeeded → k ≢ failed
        not_both k e f = ground (arith, e, f)

        none_left : length bytes - sent.left ≡ length bytes
        none_left = ground (arith, sent.complete, done)

        whole : s.db.file ≡ write_at (connection_offset lease.index + lease.offset) bytes c1.db.file
        whole =
            sent.written.file
            ∙ ap (λ l. write_at (connection_offset lease.index + lease.offset) l c1.db.file)
                (ap (λ k. take k bytes) none_left ∙ take-length bytes)

        end : s.lease.offset ≡ lease.offset + length bytes
        end = sent.written.offset ∙ ap (λ k. lease.offset + k) none_left

        at_end :
            write_at (log_offset s.lease.index) (encode16 (u16 s.lease.offset)) c1.log.file
            ≡ write_at
                (log_offset lease.index)
                (encode16 (u16 (lease.offset + length bytes)))
                c1.log.file
        at_end =
            ap₂ (λ i o. write_at (log_offset i) (encode16 (u16 o)) c1.log.file) sent.written.index
              end
