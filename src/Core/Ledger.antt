-- ===== src/Core/Ledger.antt =====
-- src/threshold/core/ledger.py: JsonlLedger over the bytes of its file. The file is `none` while it
-- does not exist. What the file system adds is an argument: whether the directory and the file pass
-- the privacy checks, and how a write ends. `sha256` is the hexadecimal digest and `dumps` the
-- canonical JSON of an entry in UTF-8; an entry of more than 256 KiB is refused.
pub mod Repair
pub mod Appends
pub mod Prepared
mod Examples
use threshold_node.Base.{
  eqb, if◌then◌else◌, length, take, drop, Result, ok, err, ℕ, zero, suc, ◌+◌, ◌-◌, ◌/◌, ◌%◌, ◌^◌,
  min, String, Bool, true, false, ◌&&◌, ◌||◌, Option, none, some, List, [], ◌∷◌, ◌++◌, ◌==◌,
}

abbrev pub max_entry_bytes : ℕ
max_entry_bytes = 262144

abbrev pub checkpoint_tail_bytes : ℕ
checkpoint_tail_bytes = 65536

abbrev pub newline : ℕ
newline = 10

pub record LedgerCheckpoint : Type 0 where
  pub offset : ℕ
  pub tail_sha256 : String

-- `OSError` and `ValueError`
pub data LedgerError : Type 0 where
  os_error value_error : LedgerError

-- How a write and its two fsyncs end: done, or failed after `k` bytes with a rollback that succeeds
-- or fails too.
pub data WriteEnd : Type 0 where
  written : WriteEnd
  failed : ℕ → Bool → WriteEnd

-- `chunk.rfind(b"\n")`
unfoldable pub rfind_newline : List ℕ → Option ℕ
rfind_newline [] = none
rfind_newline (c ∷ r) = elim (rfind_newline r) [
  | some i ↦ some (suc i)
  | none ↦ if eqb c newline then some 0 else none
]

-- `data.find(b"\n")`
unfoldable pub find_newline : List ℕ → Option ℕ
find_newline [] = none
find_newline (c ∷ r) =
    let rest = find_newline r in
    if eqb c newline then some 0 else (elim rest [ none ↦ none | some i ↦ some (suc i) ])

-- Whether the byte at `i` is a newline: `os.pread(descriptor, 1, i) == b"\n"`.
unfoldable pub newline_at : ℕ → List ℕ → Bool
newline_at i [] = false
newline_at zero (c ∷ r) = eqb c newline
newline_at (suc i) (c ∷ r) = newline_at i r

-- The branches of `_repair_incomplete_tail` once the chunk from `start` on has been searched.
truncated : ℕ → List ℕ → Option ℕ → Option (List ℕ)
unfolding newline_at
truncated start bytes (some i) = some (take (start + i + 1) bytes)
truncated start bytes none =
    if eqb start 0
    then some []
    else (if newline_at (start - 1) bytes then some (take start bytes) else none)

-- `_repair_incomplete_tail` for a recovery limit, whose excess is `none`; the truncation and its fsync
-- succeed.
unfoldable pub repair_within : ℕ → List ℕ → Option (List ℕ)
unfolding truncated rfind_newline newline_at
repair_within limit bytes =
    let size = length bytes in
    if eqb size 0 || newline_at (size - 1) bytes
    then some bytes
    else (let start = size - min size limit in
        truncated start bytes (rfind_newline (drop start bytes)))

unfoldable pub repair_incomplete_tail : List ℕ → Option (List ℕ)
repair_incomplete_tail bytes = repair_within max_entry_bytes bytes

-- The bytes that a write leaves, and whether it raised.
unfoldable pub append_bytes : WriteEnd → List ℕ → List ℕ → Bool × List ℕ
append_bytes written old new = (true, old ++ new)
append_bytes (failed k true) old new = (false, old)
append_bytes (failed k false) old new = (false, old ++ take k new)

-- `offset.to_bytes(8, "big")`
big_endian : ℕ → ℕ → List ℕ
big_endian zero n = []
big_endian (suc k) n = (n / 256 ^ k % 256) ∷ big_endian k n

module _ (sha256 : List ℕ → String) where
  -- `_checkpoint_digest` of the file's first `offset` bytes.
  unfoldable pub checkpoint_digest : ℕ → List ℕ → String
  unfolding big_endian
  checkpoint_digest offset bytes =
      let n = min offset checkpoint_tail_bytes in
      sha256 (big_endian 8 offset ++ take n (drop (offset - n) bytes))

  unfoldable pub checkpoint_of : List ℕ → LedgerCheckpoint
  checkpoint_of bytes = record {
    offset = length bytes;
    tail_sha256 = checkpoint_digest (length bytes) bytes;
  }

  -- `_checkpoint_matches`
  unfoldable pub checkpoint_matches : LedgerCheckpoint → List ℕ → Bool
  checkpoint_matches c bytes =
      eqb (length bytes) c.offset && (checkpoint_digest (length bytes) bytes == c.tail_sha256)

abbrev pub contents : Option (List ℕ) → List ℕ
contents none = []
contents (some bytes) = bytes

-- A call returns its outcome and the file that it leaves.
abbrev pub Outcome : Type 0 → Type 0
Outcome A = Result LedgerError A × Option (List ℕ)

-- The outcome of a write on a file that was repaired to `bytes`.
write_end : Bool × List ℕ → Outcome (Unit {0})
write_end (true, bytes) = (ok tt, some bytes)
write_end (false, bytes) = (err os_error, some bytes)

append_after : WriteEnd → List ℕ → Option (List ℕ) → Option (List ℕ) → Outcome (Unit {0})
unfolding append_bytes write_end
append_after end encoded file none = (err os_error, some (contents file))
append_after end encoded file (some bytes) = write_end (append_bytes end bytes encoded)

-- The guarded part of `append`: `safe` says that directory and file are private.
unfoldable pub append_encoded : Bool → WriteEnd → List ℕ → Option (List ℕ) → Outcome (Unit {0})
unfolding append_after
append_encoded safe end encoded file =
    if safe
    then append_after end encoded file (repair_incomplete_tail (contents file))
    else (err os_error, file)
