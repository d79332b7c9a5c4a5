-- ===== src/Transaction.antt =====
-- Compaction as a transaction over files, src/store_transaction.c, with the files it reads, writes
-- and copies, src/store_files.c. Paths are relative to the root of the store, and memory lasts.
pub mod Compact
pub mod Disk
pub mod Recover
pub mod Retry
use asterism_asper.Base.{
  ℕ, zero, suc, ◌+◌, ◌-◌, ◌*◌, Bool, true, false, ◌&&◌, ◌||◌, not, List, [], ◌∷◌, ◌++◌, Option,
  none, some, ltb, leb, ◌==◌, if◌then◌else◌, length, char_at, take, drop, Result, ok, err, Error,
}
use asterism_asper.Base.Int.{pos}
use asterism_asper.Base.Text.{codes, str_eq}
use asterism_asper.EventFrame.{Event, EventKind, kind_number, hex_digest, frame_write}
use asterism_asper.EventFrame.Read.{Reading, has_zero, frame_read}
use asterism_asper.Journal.{eq_ℤ}
use asterism_asper.Sha256.{sha256}
use asterism_asper.Util.Strings.{slug_valid, lower_hex_digits}
use asterism_asper.Uuid.{uuid_v4}

-- What the files under the root hold. Files that a call only uses for itself are left out.
abbrev pub Disk : Type 0
Disk = List ℕ → Option (List ℕ)

abbrev pub put : Disk → List ℕ → Option (List ℕ) → Disk
put disk path bytes = λ q. if str_eq q path then bytes else disk q

-- What the system answers to the calls of one operation: all succeed, one fails before the hash is
-- compared, one fails before the new file shows, or the directory is not synced behind it.
pub data Reply : Type 0 where
  done : Reply
  refused unsynced uncertain : Error → Reply

-- The replacement of a file by a new one.
unfoldable pub replaced : {A : Type 0} → Reply → Disk → List ℕ → List ℕ → A → Result A × Disk
replaced Reply.done disk path bytes a = (ok a, put disk path (some bytes))
replaced (Reply.refused e) disk path bytes a = (err e, disk)
replaced (Reply.unsynced e) disk path bytes a = (err e, disk)
replaced (Reply.uncertain e) disk path bytes a = (err e, put disk path (some bytes))

-- `os_remove_file` of a file that is there: its removal fails, or the sync of the directory does.
unfoldable pub removed : Reply → Disk → List ℕ → Result (Unit {0}) × Disk
removed Reply.done disk path = (ok tt, put disk path none)
removed (Reply.refused e) disk path = (err Error.io, disk)
removed (Reply.unsynced e) disk path = (err Error.io, disk)
removed (Reply.uncertain e) disk path = (err e, put disk path none)

unfoldable pub remove_file : Reply → Disk → List ℕ → Result (Unit {0}) × Disk
remove_file reply disk path = elim (disk path) [
  | none ↦ (err Error.not_found, disk)
  | some bytes ↦ removed reply disk path
]

-- `ASPER_STORE_FILE_MAX` and `ASPER_SECTION_MAX`.
abbrev pub file_max : ℕ
file_max = 512 * 1024 * 1024

abbrev pub section_max : ℕ
section_max = 16 * 1024 * 1024

-- `expected && strcmp(expected, hash)`.
abbrev pub differs : Option (List ℕ) → List ℕ → Bool
differs none hash = false
differs (some expected) hash = not (str_eq expected hash)

-- `asper_store_file_copy` of bytes that could be opened. The result holds the hash.
unfoldable pub copy_bytes :
    Reply → Disk → List ℕ → Option (List ℕ) → Option (List ℕ) → Result (List ℕ) × Disk
copy_bytes (Reply.refused e) disk bytes dst expected = (err e, disk)
copy_bytes reply disk bytes none expected = (
  if differs expected (hex_digest (sha256 bytes))
      then err Error.parse
      else ok (hex_digest (sha256 bytes)),
  disk,
)
copy_bytes reply disk bytes (some path) expected =
    if differs expected (hex_digest (sha256 bytes))
    then (err Error.parse, disk)
    else replaced reply disk path bytes (hex_digest (sha256 bytes))

-- `asper_store_file_copy`, and without a destination the comparison alone.
unfoldable pub file_copy :
    Reply → Disk → List ℕ → Option (List ℕ) → Option (List ℕ) → Result (List ℕ) × Disk
file_copy reply disk src dst expected = elim (disk src) [
  | none ↦ (err Error.not_found, disk)
  | some bytes ↦
      if ltb file_max (length bytes)
      then (err Error.limit, disk)
      else copy_bytes reply disk bytes dst expected
]

-- The frame of a checked file.
abbrev pub whole_frame : Event → List ℕ → ℕ → Bool
whole_frame e rest limit =
    (e.sequence == 1)
    && eq_ℤ e.at (pos 0)
    && eq_ℤ e.pinned (pos 0)
    && (kind_number e.kind == 5)
    && (length e.object_ref == 0)
    && (length rest == 0)
    && leb (length e.text) limit

-- `asper_store_file_read` of a checked file.
unfoldable pub checked_read : Reading → Option (List ℕ) → ℕ → Result (List ℕ)
checked_read io file limit = if ltb file_max limit then err Error.invalid else elim file [
  | none ↦ err Error.not_found
  | some bytes ↦
      if ltb (limit + 512) (length bytes) then err Error.limit else elim (frame_read io bytes) [
        | err Error.not_found ↦ err Error.parse
        | err code ↦ err code
        | ok (e, rest) ↦
            if not (whole_frame e rest limit) || io.failed then err Error.parse else ok e.text
      ]
]

-- `asper_store_file_write` of a checked file. `random` are the bytes of its UUID.
unfoldable pub checked_write : Reply → List ℕ → Disk → List ℕ → List ℕ → Result (Unit {0}) × Disk
checked_write reply random disk path text =
    if ltb section_max (length text)
    then (err Error.limit, disk)
    else if has_zero text
    then (err Error.invalid, disk)
    else (let (code, bytes) = frame_write none (record {
      id = uuid_v4 random;
      sequence = 1;
      at = pos 0;
      kind = EventKind.diagnostic;
      text = text;
      object_ref = [];
      pinned = pos 0;
    }) in
        elim code [ err e ↦ (err e, disk) | ok u ↦ replaced reply disk path bytes tt ])

abbrev pub marker : List ℕ
marker = codes "compact.pending"

abbrev pub max_files : ℕ
max_files = 4096

-- `backup_path`.
abbrev pub backup_path : List ℕ → List ℕ
backup_path target = target ++ codes ".compact.bak"

-- `relative_valid`.
unfoldable pub relative_valid : List ℕ → Bool
relative_valid rel =
    str_eq rel (codes "identity.xcdn")
    || str_eq rel (codes "context.xcdn")
    || str_eq rel (codes "journal.xcdn")
    || (str_eq (take 9 rel) (codes "projects/")
        && ltb 14 (length rel)
        && str_eq (drop (length rel - 5) rel) (codes ".xcdn")
        && slug_valid (take (length rel - 14) (drop 9 rel)))

-- `entry`.
pub record Entry : Type 0 where
  pub rel : List ℕ
  pub hash : List ℕ
  pub existed : Bool

-- The line up to the newline, and the text behind it.
unfoldable pub split_line : List ℕ → Option (List ℕ × List ℕ)
split_line [] = none
split_line (c ∷ s) = elim (c == 0x0a) [
  | true ↦ some ([], s)
  | false ↦ elim (split_line s) [ none ↦ none | some (line, rest) ↦ some (c ∷ line, rest) ]
]

-- The entry that a line stands for, before its tests.
unfoldable pub line_entry : List ℕ → Option Entry
line_entry line =
    if (char_at line 0 == b'E')
      && leb 68 (length line)
      && (char_at line 1 == 0x20)
      && (char_at line 66 == 0x20)
    then some (record { rel = drop 67 line; hash = take 64 (drop 2 line); existed = true })
    else if str_eq (take 4 line) (codes "M - ")
    then some (record { rel = drop 4 line; hash = []; existed = false })
    else none

unfoldable pub is_listed : List ℕ → List Entry → Bool
is_listed rel [] = false
is_listed rel (r ∷ rows) = str_eq r.rel rel || is_listed rel rows

abbrev pub entry_fits : Entry → List Entry → Bool
entry_fits r rows = lower_hex_digits r.hash && relative_valid r.rel && not (is_listed r.rel rows)

-- The loop of `parse`. Every line takes a byte at least.
unfoldable pub parse_loop : ℕ → List ℕ → List Entry → Result (List Entry)
parse_loop fuel [] rows = if length rows == 0 then err Error.parse else ok rows
parse_loop zero (c ∷ text) rows = err Error.parse
parse_loop (suc fuel) (c ∷ text) rows = elim (split_line (c ∷ text)) [
  | none ↦ err Error.parse
  | some (line, rest) ↦
      if length rows == max_files then err Error.parse else elim (line_entry line) [
        | none ↦ err Error.parse
        | some r ↦ elim (entry_fits r rows) [
          | false ↦ err Error.parse
          | true ↦ parse_loop fuel rest (rows ++ r ∷ [])
        ]
      ]
]

unfoldable pub parse : List ℕ → Result (List Entry)
parse text = parse_loop (length text) text []
