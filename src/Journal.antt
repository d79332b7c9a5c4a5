-- ===== src/Journal.antt =====
-- The journal of operations, src/journal.c: checked frames that are appended, withdrawn on a failed
-- write, and replayed when the store opens.
pub mod Frames
pub mod Replay
pub mod Fuel
pub mod Run
pub mod Calls
pub mod Cuts
pub mod Recovery
use asterism_asper.Base.{
  ℕ, zero, suc, ◌+◌, ◌-◌, ◌*◌, Bool, true, false, ◌&&◌, ◌||◌, not, List, [], ◌∷◌, ◌++◌, Option,
  none, some, ltb, ◌==◌, if◌then◌else◌, length, take, Result, ok, err, Error, fail_if, is_ok, ◌>>=◌,
  ◌>>◌,
}
use asterism_asper.Base.Int.{ℤ, pos, ltb_ℤ}
use asterism_asper.Base.Text.{codes}
use asterism_asper.EventFrame.{Event, EventKind, kind_number, event_bytes, frame_write}
use asterism_asper.EventFrame.Read.{Reading, frame_read}
use asterism_asper.Uuid.{uuid_v4}

-- `ASPER_EVENT_LOG_BYTES`.
abbrev pub log_bytes : ℕ
log_bytes = 512 * 1024 * 1024

-- The operations, and their text: `asper_op_serialize`, and what `replay_frame` does with
-- `xcdn_parse` and `asper_op_from_node`. Any functions, that need not belong together.
pub record OpCodec (O : Type 0) : Type 0 where
  pub serialize : O → Result (List ℕ)
  pub decode : List ℕ → Result O
  pub at : O → ℤ

-- The journal's part of `asper_store`. `stream` tells that `journal_fp` is no null pointer, and `file`
-- is what the file at `journal_path` holds with all that its stream took. The C code has no fields
-- `handed` and `durable`. So many of these bytes the system has taken over from the stream, and so
-- many were there when the last sync succeeded: where the process ends, a beginning of the file is
-- left that has the first at least, and where the machine stops, one that has the second.
pub record Journal : Type 0 where
  pub stream : Bool
  pub poisoned : Bool
  pub ops : ℕ
  pub fault : ℕ
  pub file : List ℕ
  pub handed : ℕ
  pub durable : ℕ

-- What the system answers during one append. `written` is what `asper_event_frame_write` asks for.
pub record Answers : Type 0 where
  pub seeked : Bool
  pub written : Option ℕ
  pub flushed : Bool
  pub synced : Result (Unit {0})
  pub truncated : Bool
  pub reopened : Bool
  pub reopen_synced : Bool
  pub random : List ℕ

-- `poison_locked`, and `asper_store_poison`.
abbrev pub store_poison : Journal → Journal
store_poison j = record j { poisoned = true; stream = false }

-- The journal whose bytes a sync has put on the disk.
abbrev pub on_disk : Journal → Journal
on_disk j = record j { handed = length j.file; durable = length j.file }

-- `rollback`. A truncation that fails leaves the file, and what is cut off was not durable.
unfoldable pub rollback : Answers → Journal → ℕ → Journal
rollback io j offset =
    let cut = record j { stream = false; file = take offset j.file } in
    if io.truncated
    then (if io.reopened && io.reopen_synced
        then on_disk (record cut { stream = true })
        else store_poison cut)
    else store_poison j

-- The bytes of a frame, or with the first fault a beginning of it.
abbrev pub put_frame : Answers → ℕ → Event → Result (Unit {0}) × List ℕ
put_frame io fault e =
    if fault == 1 then (err Error.io, codes "AEV2 ") else frame_write io.written e

-- `asper_journal_append` behind `asper_event_frame_write`. `before` is the journal at `offset`.
unfoldable pub settle :
    Answers → Bool → ℕ → Journal → Result (Unit {0}) × List ℕ → Result (Unit {0}) × Journal
settle io sync fault before (err code, bytes) =
    (err code, rollback io (record before { file = before.file ++ bytes }) (length before.file))
settle io sync fault before (ok done, bytes) =
    let after = record before { file = before.file ++ bytes } in
    if not io.flushed || (fault == 2)
    then (err Error.io, rollback io after (length before.file))
    else if sync
    then (if fault == 3 then (err Error.io, store_poison after) else elim io.synced [
      | err code ↦ (err code, store_poison after)
      | ok synced ↦ (ok tt, on_disk (record after { ops = after.ops + 1 }))
    ])
    else (ok tt, record after { ops = after.ops + 1; handed = length after.file })

-- The event of an operation.
abbrev pub op_event : List ℕ → ℕ → ℤ → List ℕ → Event
op_event random sequence at text = record {
  id = uuid_v4 random;
  sequence = sequence;
  at = at;
  kind = EventKind.diagnostic;
  text = text;
  object_ref = [];
  pinned = pos 0;
}

-- `asper_journal_append` with the text of the operation. `sync` is `force_sync`, or the setting that
-- syncs always.
unfoldable pub append_text : Answers → Bool → Journal → ℤ → List ℕ → Result (Unit {0}) × Journal
append_text io sync j at text =
    if j.poisoned || not j.stream
    then (err Error.io, j)
    else if not io.seeked
    then (err Error.io, j)
    else if ltb event_bytes (length text) || ltb log_bytes (length j.file + length text + 512)
    then (err Error.limit, j)
    else settle io sync j.fault (record j { fault = 0 })
        (put_frame io j.fault (op_event io.random (j.ops + 1) at text))

unfoldable pub journal_append :
    {O : Type 0} → OpCodec O → Answers → Bool → Journal → O → Result (Unit {0}) × Journal
journal_append codec io sync j op = elim (codec.serialize op) [
  | err code ↦ (err code, j)
  | ok text ↦ append_text io sync j (codec.at op) text
]

-- `asper_journal_sync`.
unfoldable pub journal_sync : Result (Unit {0}) → Journal → Result (Unit {0}) × Journal
journal_sync synced j =
    let code =
      if j.poisoned || not j.stream
      then err Error.io
      else if j.fault == 3
      then err Error.io
      else synced in
    let after = record j { fault = 0 } in
    (code, if is_ok code then on_disk after else store_poison after)

-- `op.at != event->at`.
abbrev pub eq_ℤ : ℤ → ℤ → Bool
eq_ℤ a b = not (ltb_ℤ a b) && not (ltb_ℤ b a)

abbrev pub parse_error {ℓ} : {A : Type ℓ} → Result A → Result A
parse_error (ok a) = ok a
parse_error (err Error.nomem) = err Error.nomem
parse_error (err Error.io) = err Error.parse
parse_error (err Error.parse) = err Error.parse
parse_error (err Error.config) = err Error.parse
parse_error (err Error.model) = err Error.parse
parse_error (err Error.not_found) = err Error.parse
parse_error (err Error.locked) = err Error.parse
parse_error (err Error.invalid) = err Error.parse
parse_error (err Error.busy) = err Error.parse
parse_error (err Error.timeout) = err Error.parse
parse_error (err Error.cancelled) = err Error.parse
parse_error (err Error.limit) = err Error.parse
parse_error (err Error.unsupported) = err Error.parse

-- What the calls of a replay answer. `size` is `os_file_size`, and `told` is a `ftell` that is not
-- negative.
pub record ReplayAnswers : Type 0 where
  pub size : Result (Unit {0})
  pub opened : Bool
  pub reading : Reading
  pub told : Bool
  pub closed : Bool
  pub truncated : Result (Unit {0})
  pub reopened : Bool
  pub synced : Result (Unit {0})
  pub reclosed : Bool

-- Where the loop of a replay stands: the store, the operations so far and the bytes they take.
pub record Progress (S : Type 0) : Type 0 where
  pub store : S
  pub count : ℕ
  pub good : ℕ
  pub torn : Bool

module _ {O S : Type 0} (codec : OpCodec O) (apply : S → O → Result S) where
  -- `replay_frame`. `apply` is `asper_store_apply`.
  unfoldable pub replay_frame : S → Event → ℕ → Result S
  replay_frame s event sequence =
      if not (event.sequence == sequence)
        || not (kind_number event.kind == 5)
        || not (eq_ℤ event.pinned (pos 0))
        || not (length event.object_ref == 0)
      then err Error.parse
      else parse_error (do
        op ← codec.decode event.text
        fail_if (not (eq_ℤ (codec.at op) event.at)) Error.parse
        apply s op)

  -- What a round of the loop does with a frame.
  abbrev pub replay_next : ReplayAnswers → Progress S → Event → Result S
  replay_next io p event = do
    s ← replay_frame p.store event (p.count + 1)
    fail_if (not io.told) Error.io
    ok s

  -- The loop of `asper_journal_replay` over the bytes from `good` on; `none` means that the fuel has
  -- run out.
  unfoldable pub replay_loop :
      ReplayAnswers → ℕ → Progress S → List ℕ → Option (Result (Progress S))
  replay_loop io fuel p [] = some (ok p)
  replay_loop io zero p (b ∷ bytes) = none
  replay_loop io (suc fuel) p (b ∷ bytes) = elim (frame_read io.reading (b ∷ bytes)) [
    | err Error.not_found ↦ some (ok (record p { torn = true }))
    | err code ↦ some (err code)
    | ok (event, rest) ↦ elim (replay_next io p event) [
      | err code ↦ some (err code)
      | ok s ↦
          replay_loop io fuel
            (record p {
              store = s;
              count = p.count + 1;
              good = p.good + (length (b ∷ bytes) - length rest);
            })
            rest
    ]
  ]

  -- The repair of a torn tail behind `os_truncate`.
  abbrev pub repaired : ReplayAnswers → Result (Unit {0})
  repaired io = do fail_if (not io.reopened) Error.io; io.synced; fail_if (not io.reclosed) Error.io

  -- `asper_journal_replay` behind its loop.
  abbrev pub replay_end : ReplayAnswers → List ℕ → Result (Progress S) → Result (S × ℕ) × List ℕ
  replay_end io file (err code) = (err code, file)
  replay_end io file (ok p) =
      if not io.closed
      then (err Error.io, file)
      else if not p.torn
      then (ok (p.store, p.count), file)
      else elim io.truncated [
        | err code ↦ (err code, file)
        | ok cut ↦ (repaired io >>= λ t. ok (p.store, p.count), take p.good file)
      ]

  -- `asper_journal_replay`: the store and the count, with the file as it is left. As many rounds as
  -- the file has bytes are allowed, and `none` means that they were too few.
  unfoldable pub journal_replay : ReplayAnswers → S → List ℕ → Option (Result (S × ℕ) × List ℕ)
  journal_replay io s file = elim io.size [
    | err Error.not_found ↦ some (ok (s, 0), file)
    | err code ↦ some (err code, file)
    | ok size ↦
        if ltb log_bytes (length file)
        then some (err Error.limit, file)
        else if not io.opened
        then some (err Error.io, file)
        else elim (replay_loop io (length file)
            (record { store = s; count = 0; good = 0; torn = false }) file) [
              | none ↦ none
              | some r ↦ some (replay_end io file r)
            ]
  ]
