-- ===== src/Examples/Journals.antt =====
-- Two operations, a journal that takes them, and the theorems on frames and journals at these.
use asterism_asper.Base.{
  ap, ◌+◌, ◌≤◌, ok_inj, subst, IsBytes, ℕ, zero, suc, ◌≡◌, refl, Bool, true, false, List, [], ◌∷◌,
  ◌++◌, none, some, Result, ok, err, Error, arith, length, take, replicate, IsText,
}
use asterism_asper.Base.Int.{pos}
use asterism_asper.Base.Text.{codes, str_eq}
use asterism_asper.Uuid.{is_some}
use asterism_asper.Util.Utf8.{
  utf8_count, utf8_loop, utf8_next, rejected, continuation, lead_bits, sequence_length,
}
use asterism_asper.EventFrame.{frame_write, frame_bytes, Event}
use asterism_asper.EventFrame.Read.{frame_read, Reading}
use asterism_asper.EventFrame.RoundTrip.{IsEvent, frame_write_lem, frame_read-frame_write}
use asterism_asper.EventFrame.Torn.{frame_read-torn}
use asterism_asper.Journal.{log_bytes}
use asterism_asper.Journal.{
  journal_sync, journal_replay, OpCodec, Journal, Answers, ReplayAnswers, op_event, journal_append,
  append_text, settle, journal_replay,
}
use asterism_asper.Journal.Frames.{IsEntry, long-frame_bytes, length-frame_bytes}
use asterism_asper.Journal.Replay.{IsAnswered, applied, replay_op}
use asterism_asper.Journal.Run.{IsJournal, IsCall}
use asterism_asper.Journal.Calls.{
  IsRun, Call, run_calls, fresh_journal, op_event-IsEvent, run_calls-IsJournal,
}
use asterism_asper.Journal.Fuel.{replay_ends}
use asterism_asper.Journal.Recovery.{fresh-IsJournal, synced_run, Restored, recovery, restart}

-- Two operations, by their names.
abbrev switch_text : Bool → List ℕ
switch_text true = codes "on"
switch_text false = codes "off"

abbrev switch : OpCodec Bool
switch = record {
  serialize = λ b. ok (switch_text b);
  decode = λ text. ok (str_eq text (codes "on"));
  at = λ b. pos 7;
}

-- The store keeps what was applied.
abbrev remember : List Bool → Bool → Result (List Bool)
remember s b = ok (b ∷ s)

abbrev all_well : Answers
all_well = record {
  seeked = true;
  written = none;
  flushed = true;
  synced = ok tt;
  truncated = true;
  reopened = true;
  reopen_synced = true;
  random = replicate 16 9;
}

-- The stream takes three bytes of the frame.
abbrev short_write : Answers
short_write = record all_well { written = some 3 }

abbrev good_reading : Reading
good_reading = record { failed = false; granted = true }

abbrev good_replay : ReplayAnswers
good_replay = record {
  size = ok tt;
  opened = true;
  reading = good_reading;
  told = true;
  closed = true;
  truncated = ok tt;
  reopened = true;
  synced = ok tt;
  reclosed = true;
}

good_replay-IsAnswered : IsAnswered good_replay
good_replay-IsAnswered = record {
  size = refl;
  opened = refl;
  granted = refl;
  read = refl;
  told = refl;
  closed = refl;
  truncated = refl;
  reopened = refl;
  synced = refl;
  reclosed = refl;
}

switch_text-IsText :
    (b : Bool) → IsText (switch_text b) × (is_some (utf8_count (switch_text b)) ≡ true)
unfolding utf8_count utf8_loop utf8_next rejected continuation lead_bits sequence_length
switch_text-IsText true = (((omega arith, omega arith), ((omega arith, omega arith), tt)), refl)
switch_text-IsText false = (
  ((omega arith, omega arith), ((omega arith, omega arith), ((omega arith, omega arith), tt))),
  refl,
)

nines : (n : ℕ) → IsBytes (replicate n 9)
nines zero = tt
nines (suc n) = (omega arith, nines n)

switch-IsCall : (io : Answers) (b : Bool) → io.random ≡ replicate 16 9 → IsCall switch io b
switch-IsCall io b e = record {
  random = rw e (nines 16);
  random_size = rw e refl;
  at = omega arith;
  text = λ text s.
      subst (λ l. IsText l × (is_some (utf8_count l) ≡ true)) (ok_inj s) (switch_text-IsText b);
}

-- The event of the second operation, behind one.
abbrev second_event : Event
second_event = op_event (replicate 16 9) 2 (pos 7) (codes "off")

second_event-IsEvent : IsEvent second_event
second_event-IsEvent =
    op_event-IsEvent switch all_well false 1 (codes "off") (switch-IsCall all_well false refl) refl
      (omega arith) (omega arith)

frame_read-frame_write_example :
    (bytes : List ℕ) × (frame_write none second_event ≡ (ok tt, bytes))
    × (frame_read good_reading (bytes ++ codes "AEV2 3") ≡ ok (second_event, codes "AEV2 3"))
frame_read-frame_write_example =
    frame_read-frame_write good_reading second_event (codes "AEV2 3") second_event-IsEvent refl

frame_read-torn_example :
    frame_read good_reading (take 100 (frame_bytes second_event)) ≡ err Error.not_found
frame_read-torn_example =
    frame_read-torn good_reading second_event 100 second_event-IsEvent refl refl
      (omega (arith, long-frame_bytes second_event))

-- One operation is acknowledged, one is withdrawn, and a sync succeeds.
abbrev three_calls : List (Call Bool)
three_calls =
    Call.append all_well true true ∷ Call.sync (ok tt) ∷ Call.append short_write true false ∷ []

three_calls-IsRun : IsRun switch three_calls
three_calls-IsRun = (switch-IsCall all_well true refl, (switch-IsCall short_write false refl, tt))

run_calls-IsJournal_example :
    IsJournal switch 0
      ([] ++ (run_calls switch fresh_journal three_calls).0)
      (run_calls switch fresh_journal three_calls).1
run_calls-IsJournal_example =
    run_calls-IsJournal switch 0 [] fresh_journal three_calls (fresh-IsJournal switch)
      three_calls-IsRun

second_event-IsEntry : IsEntry switch 1 false second_event
second_event-IsEntry = record {
  event = second_event-IsEvent;
  sequence = refl;
  kind = refl;
  pinned = refl;
  object = refl;
  text = refl;
  at = refl;
}

both_applied : applied switch remember [] (true ∷ false ∷ []) ≡ ok (false ∷ true ∷ [])
unfolding applied replay_op str_eq
both_applied = refl

-- The first event, and the journal that holds it.
abbrev first_event : Event
first_event = op_event (replicate 16 9) 1 (pos 7) (codes "on")

first_event-IsEvent : IsEvent first_event
first_event-IsEvent =
    op_event-IsEvent switch all_well true 0 (codes "on") (switch-IsCall all_well true refl) refl
      (omega arith) (omega arith)

-- One append that is not synced.
abbrev one_call : List (Call Bool)
one_call = Call.append all_well false true ∷ []

one_call-IsRun : IsRun switch one_call
one_call-IsRun = (switch-IsCall all_well true refl, tt)

abbrev one_frame : ℕ → Journal
one_frame durable = record {
  stream = true;
  poisoned = false;
  ops = 1;
  fault = 0;
  file = frame_bytes first_event;
  handed = length (frame_bytes first_event);
  durable = durable;
}

ran : run_calls switch fresh_journal one_call ≡ (true ∷ [], one_frame 0)
unfolding run_calls journal_append append_text settle
ran = rw (frame_write_lem first_event first_event-IsEvent).0 refl

ran_synced :
    synced_run switch one_call (ok tt) []
    ≡ (true ∷ [], [], one_frame (length (frame_bytes first_event)))
unfolding synced_run run_calls journal_sync
ran_synced =
    ap
      (λ (r : List Bool × Journal).
        let (late, last) = run_calls switch (journal_sync (ok tt) r.1).1 [] in (r.0, late, last))
      ran

sync_done : (journal_sync (ok tt) (run_calls switch fresh_journal one_call).1).0 ≡ ok tt
unfolding journal_sync
sync_done = ap (λ (r : List Bool × Journal). (journal_sync (ok tt) r.1).0) ran

room : length (frame_bytes first_event) + length (frame_bytes second_event) ≤ log_bytes
room = omega (
  arith,
  (length-frame_bytes first_event first_event-IsEvent).1,
  (length-frame_bytes second_event second_event-IsEvent).1,
)

-- The machine stops when thirty bytes of the second frame are on the disk.
abbrev left : ℕ
left = length (frame_bytes first_event) + 30

recovery_example :
    Restored switch remember good_replay []
      (length (synced_run switch one_call (ok tt) []).0)
      (((synced_run switch one_call (ok tt) []).0 ++ (synced_run switch one_call (ok tt) []).1)
        ++ false ∷ [])
      (take left ((synced_run switch one_call (ok tt) []).2.file ++ frame_bytes second_event))
recovery_example =
    recovery switch remember good_replay one_call [] (ok tt) [] (false ∷ true ∷ []) false
      second_event left good_replay-IsAnswered one_call-IsRun tt sync_done (rw ran_synced refl)
      (rw ran_synced both_applied) (rw ran_synced second_event-IsEntry)
      (rw ran_synced (omega arith)) (rw ran_synced room)

-- The program stops with thirty bytes of the second frame in the file.
restart_example :
    Restored switch remember good_replay []
      (length (run_calls switch fresh_journal one_call).0)
      ((run_calls switch fresh_journal one_call).0 ++ false ∷ [])
      (take left ((run_calls switch fresh_journal one_call).1.file ++ frame_bytes second_event))
restart_example =
    restart switch remember good_replay one_call [] (false ∷ true ∷ []) false second_event left
      good_replay-IsAnswered one_call-IsRun (rw ran refl) (rw ran both_applied)
      (rw ran second_event-IsEntry) (rw ran (omega arith)) (rw ran room)

-- Six bytes that are no whole frame.
replay_ends_example :
    (r : Result (List Bool × ℕ) × List ℕ) × (journal_replay switch remember good_replay []
        (codes "AEV2 1")
      ≡ some r)
replay_ends_example = replay_ends switch remember good_replay [] (codes "AEV2 1")
