-- ===== src/Journal/Calls.antt =====
-- Runs of appends and syncs on the journal of src/journal.c, whatever the system answers.
use mathlib.Core.List.{append_assoc, append-nil}
use asterism_asper.Base.{
  ℕ, ◌+◌, ◌≤◌, ◌≡◌, refl, sym, ap, ◌∙◌, Bool, true, false, ◌||◌, not, List, [], ◌∷◌, ◌++◌, ltb,
  ◌==◌, if◌then◌else◌, inl, inr, length, length-append, arith, Result, ok, err, Error, is_ok, subst,
  Bool-cases, Result-cases,
}
use asterism_asper.Uuid.RoundTrip.{uuid_v4-valid}
use asterism_asper.EventFrame.{Event, event_bytes}
use asterism_asper.EventFrame.Read.{object_accepted}
use asterism_asper.EventFrame.RoundTrip.{IsEvent}
use asterism_asper.Journal.{
  OpCodec, Journal, Answers, log_bytes, store_poison, on_disk, put_frame, settle, op_event,
  append_text, journal_append, journal_sync,
}
use asterism_asper.Journal.Frames.{
  all_frames, length-IsLog, length-frame_bytes, length-all_frames, length-take_frames,
}
use asterism_asper.Journal.Run.{IsJournal, IsClean, Outcome, IsCall, settle-Outcome}

-- A call of the journal: an append, or a sync with what `os_fsync` answers.
pub data Call (O : Type 0) : Type 0 where
  append : Answers → Bool → O → Call O
  sync : Result (Unit {0}) → Call O

abbrev pub if_ok {ℓ} : {A : Type ℓ} → Result (Unit {0}) → A → List A → List A
if_ok (ok done) a as' = a ∷ as'
if_ok (err code) a as' = as'

-- The operations that were acknowledged, and the journal after the calls.
unfoldable pub run_calls : {O : Type 0} → OpCodec O → Journal → List (Call O) → List O × Journal
run_calls codec j [] = ([], j)
run_calls codec j (append io always op ∷ calls) =
    let (code, next) = journal_append codec io always j op in
    let (acked, last) = run_calls codec next calls in (if_ok code op acked, last)
run_calls codec j (sync synced ∷ calls) = run_calls codec (journal_sync synced j).1 calls

-- A journal that was just created.
abbrev pub fresh_journal : Journal
fresh_journal = record {
  stream = true;
  poisoned = false;
  ops = 0;
  fault = 0;
  file = [];
  handed = 0;
  durable = 0;
}

in_guard :
    (text file : ℕ)
    → (ltb event_bytes text || ltb log_bytes (file + text + 512)) ≡ false
    → (text ≤ event_bytes) × (file + text + 512 ≤ log_bytes)
in_guard text file h = (ground (arith, h), ground (arith, h))

module _ {O : Type 0} (codec : OpCodec O) where
  pub op_event-IsEvent :
      (io : Answers) (op : O) (n : ℕ) (text : List ℕ)
      → IsCall codec io op
      → codec.serialize op ≡ ok text
      → n ≤ log_bytes
      → length text ≤ event_bytes
      → IsEvent (op_event io.random (n + 1) (codec.at op) text)
  unfolding object_accepted
  op_event-IsEvent io op n text c s h k =
      let (bytes, utf8) = c.text text s in
      record {
        sizes = record {
          sequence_pos = omega arith;
          sequence_small = omega arith;
          at_small = c.at;
          pinned_flag = (0, omega arith, refl);
          id_valid = uuid_v4-valid io.random c.random c.random_size;
          object_size = refl;
          text_size = k;
        };
        object = refl;
        text = bytes;
        utf8 = utf8;
      }

  -- What the calls of a run ask.
  abbrev pub IsRun : List (Call O) → Type 0
  IsRun [] = Unit
  IsRun (append io always op ∷ calls) = IsCall codec io op × IsRun calls
  IsRun (sync synced ∷ calls) = IsRun calls

  on_disk-IsJournal :
      (known more : ℕ) (ops : List O) (j : Journal)
      → more ≤ length ops
      → IsJournal codec known ops j
      → IsJournal codec more ops (on_disk (record j { fault = 0 }))
  on_disk-IsJournal known more ops j few w = record {
    events = w.events;
    log = w.log;
    tail = w.tail;
    file = w.file;
    bound = w.bound;
    some_known = few;
    durable = omega (
      arith,
      length-take_frames more w.events,
      ap (λ f. length f) w.file,
      length-append (all_frames w.events) w.tail,
    );
    state = elim w.state [
      | inl (healthy, empty, count, handed) ↦ inl (
        healthy,
        empty,
        count,
        omega (arith, ap (λ f. length f) w.file, length-append (all_frames w.events) w.tail),
      )
      | inr (poisoned, closed, cut) ↦ inr (poisoned, closed, cut)
    ];
  }

module _ {O : Type 0} (codec : OpCodec O) (known : ℕ) where
  -- The part of an append that has passed its guards.
  guarded :
      (io : Answers) (always : Bool) (ops : List O) (events : List Event) (j : Journal) (op : O)
      (text : List ℕ)
      → IsClean codec known ops events j
      → IsCall codec io op
      → codec.serialize op ≡ ok text
      → (ltb event_bytes (length text) || ltb log_bytes (length j.file + length text + 512)) ≡ false
      → Outcome codec known ops op (
          settle io always j.fault
            (record j { fault = 0 })
            (put_frame io j.fault (op_event io.random (j.ops + 1) (codec.at op) text)))
  guarded io always ops events j op text w c s h =
      let (small, room) = in_guard (length text) (length j.file) h in
      let e : Event = op_event io.random (j.ops + 1) (codec.at op) text in
      let few : j.ops ≤ log_bytes = omega (
        arith,
        w.count,
        length-IsLog codec 0 ops events w.log,
        length-all_frames codec 0 ops events w.log,
        ap (λ f. length f) w.file,
        room,
      ) in
      let event : IsEvent e = op_event-IsEvent codec io op j.ops text c s few small in
      settle-Outcome codec known io always j.fault ops events (record j { fault = 0 }) op e
        (record {
          log = w.log;
          file = w.file;
          bound = w.bound;
          some_known = w.some_known;
          durable = w.durable;
          handed = w.handed;
          healthy = w.healthy;
          count = w.count;
        })
        (record {
          entry = record {
            event = event;
            sequence = ap (λ n. n + 1) w.count;
            kind = refl;
            pinned = refl;
            object = refl;
            text = s;
            at = refl;
          };
          room = omega (arith, (length-frame_bytes e event).1, room);
        })

  healthy_IsClean :
      (ops : List O) (j : Journal) (w : IsJournal codec known ops j)
      → (j.poisoned || not j.stream) ≡ false
      → IsClean codec known ops w.events j
  healthy_IsClean ops j w h = elim w.state [
    | inl (healthy, empty, count, handed) ↦ record {
      handed = handed;
      log = w.log;
      file = w.file ∙ ap (λ t. all_frames w.events ++ t) empty ∙ append-nil (all_frames w.events);
      bound = w.bound;
      some_known = w.some_known;
      durable = w.durable;
      healthy = healthy;
      count = count;
    }
    | inr (poisoned, closed, cut) ↦ absurd (ground (arith, h, poisoned))
  ]

  append_text-Outcome :
      (io : Answers) (always : Bool) (ops : List O) (j : Journal) (op : O) (text : List ℕ)
      → IsJournal codec known ops j
      → IsCall codec io op
      → codec.serialize op ≡ ok text
      → Outcome codec known ops op (append_text io always j (codec.at op) text)
  unfolding append_text
  append_text-Outcome io always ops j op text w c s =
      elim (Bool-cases (j.poisoned || not j.stream)) [
        | inl shut ↦ rw (append_text, shut) (inr (Error.io, refl, w))
        | inr healthy ↦ elim (Bool-cases io.seeked) [
          | inr lost ↦ rw (append_text, healthy, lost) (inr (Error.io, refl, w))
          | inl found ↦
              elim (Bool-cases (
                ltb event_bytes (length text)
                || ltb log_bytes (length j.file + length text + 512))) [
                  | inl large ↦ rw (append_text, healthy, found, large) (inr (Error.limit, refl, w))
                  | inr fits ↦
                      simp (append_text, healthy, found, fits)
                        (guarded io always ops w.events j op text (healthy_IsClean ops j w healthy)
                          c s fits)
                ]
        ]
      ]

  -- One append, whatever the system answers: where it is acknowledged the journal has the operation
  -- behind the others, and where it is refused it has the others alone.
  pub journal_append-Outcome :
      (io : Answers) (always : Bool) (ops : List O) (j : Journal) (op : O)
      → IsJournal codec known ops j
      → IsCall codec io op
      → Outcome codec known ops op (journal_append codec io always j op)
  unfolding journal_append
  journal_append-Outcome io always ops j op w c = elim (Result-cases (codec.serialize op)) [
    | inl (code, e) ↦ rw (journal_append, e) (inr (code, refl, w))
    | inr (text, e) ↦ rw (journal_append, e) (append_text-Outcome io always ops j op text w c e)
  ]

  shut_IsJournal :
      (ops : List O) (j : Journal)
      → IsJournal codec known ops j
      → IsJournal codec known ops (store_poison (record j { fault = 0 }))
  shut_IsJournal ops j w = record {
    events = w.events;
    log = w.log;
    tail = w.tail;
    file = w.file;
    bound = w.bound;
    some_known = w.some_known;
    durable = w.durable;
    state = elim w.state [
      | inl (healthy, empty, count, handed) ↦ inr (refl, refl, inl empty)
      | inr (poisoned, closed, cut) ↦ inr (refl, refl, cut)
    ];
  }

  -- A sync that is acknowledged has put every operation on the disk.
  pub synced-IsJournal :
      (synced : Result (Unit {0})) (ops : List O) (j : Journal)
      → IsJournal codec known ops j
      → (journal_sync synced j).0 ≡ ok tt
      → IsJournal codec (length ops) ops (journal_sync synced j).1
  unfolding journal_sync
  synced-IsJournal synced ops j w good =
      subst
        (λ b.
          IsJournal codec (length ops) ops
            (if b then on_disk (record j { fault = 0 }) else store_poison (record j { fault = 0 })))
        (sym (ap (λ r. is_ok r) good))
        (on_disk-IsJournal codec known (length ops) ops j (omega arith) w)

  journal_sync-IsJournal :
      (synced : Result (Unit {0})) (ops : List O) (j : Journal)
      → IsJournal codec known ops j
      → IsJournal codec known ops (journal_sync synced j).1
  unfolding journal_sync
  journal_sync-IsJournal synced ops j w =
      let code =
        if j.poisoned || not j.stream
        then err Error.io
        else if j.fault == 3
        then err Error.io
        else synced in
      elim (Bool-cases (is_ok code)) [
        | inl good ↦
            subst
              (λ b. IsJournal codec known ops (
                if b
                then on_disk (record j { fault = 0 })
                else store_poison (record j { fault = 0 })))
              (sym good) (on_disk-IsJournal codec known known ops j w.some_known w)
        | inr bad ↦
            subst
              (λ b. IsJournal codec known ops (
                if b
                then on_disk (record j { fault = 0 })
                else store_poison (record j { fault = 0 })))
              (sym bad) (shut_IsJournal ops j w)
      ]

  -- The rest of a run behind an append with either outcome.
  after_append :
      (ops : List O) (op : O) (calls : List (Call O)) (r : Result (Unit {0}) × Journal)
      → Outcome codec known ops op r
      → ((more : List O) (next : Journal)
          → IsJournal codec known more next
          → IsJournal codec known
              (more ++ (run_calls codec next calls).0)
              (run_calls codec next calls).1)
      → IsJournal codec known
          (ops ++ if_ok r.0 op (run_calls codec r.1 calls).0)
          (run_calls codec r.1 calls).1
  after_append ops op calls (code, next) (inl (e, w)) go =
      rw (e, ← append_assoc ops (op ∷ []) (run_calls codec next calls).0)
        (go (ops ++ op ∷ []) next w)
  after_append ops op calls (code, next) (inr (why, e, w)) go = rw e (go ops next w)

  -- Runs of appends and syncs, whatever the system answers and wherever faults strike: the journal
  -- holds the frames of exactly the operations it had and those acknowledged since, in this order,
  -- and as many of the first ones as were on the disk still are.
  -- Nothing stands behind the frames unless the journal is poisoned, and then a beginning of the
  -- frame of one more operation at most. The random bytes are sixteen, the texts of the operations
  -- are UTF-8 and their times are 64-bit numbers.
  pub run_calls-IsJournal :
      (ops : List O) (j : Journal) (calls : List (Call O))
      → IsJournal codec known ops j
      → IsRun codec calls
      → IsJournal codec known (ops ++ (run_calls codec j calls).0) (run_calls codec j calls).1
  unfolding run_calls
  run_calls-IsJournal ops j [] w r = rw (append-nil ops) w
  run_calls-IsJournal ops j (append io always op ∷ calls) w (c, r) =
      after_append ops op calls (journal_append codec io always j op)
        (journal_append-Outcome io always ops j op w c)
        (λ more next v. run_calls-IsJournal more next calls v r)
  run_calls-IsJournal ops j (sync synced ∷ calls) w r =
      run_calls-IsJournal ops (journal_sync synced j).1 calls
        (journal_sync-IsJournal synced ops j w) r
