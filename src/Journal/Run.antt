-- ===== src/Journal/Run.antt =====
-- What the journal of src/journal.c holds, and one append to it.
use mathlib.Core.List.{append-nil}
use asterism_asper.Base.{
  ℕ, ◌+◌, ◌≤◌, ◌≡◌, refl, sym, ap, ◌∙◌, Bool, true, false, ◌||◌, ◌&&◌, not, List, [], ◌∷◌, ◌++◌,
  ◌==◌, ◌⊎◌, inl, inr, length, length-append, length-take, arith, Result, ok, err, Error, subst,
  take, take-short, take-append, take-all, Bool-cases, Result-cases, Option-cases, IsBytes, IsText,
}
use asterism_asper.Json.Numbers.{IsSmall}
use asterism_asper.Uuid.{is_some}
use asterism_asper.Util.Utf8.{utf8_count}
use asterism_asper.EventFrame.{Event, frame_bytes, frame_line, prefix}
use asterism_asper.EventFrame.RoundTrip.{IsEvent, frame_write_lem}
use asterism_asper.Journal.{
  OpCodec, Journal, Answers, log_bytes, store_poison, on_disk, rollback, put_frame, settle,
}
use asterism_asper.Journal.Frames.{
  IsEntry, IsLog, all_frames, all_frames-append, IsLog-append, length-IsLog, length-take_frames,
}

module _ {O : Type 0} (codec : OpCodec O) where
  -- What an append asks of its operation and of the random bytes of its event.
  pub record IsCall (io : Answers) (op : O) : Type 0 where
    pub random : IsBytes io.random
    pub random_size : length io.random ≡ 16
    pub at : IsSmall (codec.at op)
    pub text :
        (text : List ℕ)
        → codec.serialize op ≡ ok text
        → IsText text × (is_some (utf8_count text) ≡ true)

  -- A beginning of the frame of one more operation, or nothing.
  abbrev pub IsCut : ℕ → List ℕ → Type 0
  IsCut n tail =
      (tail ≡ [])
      ⊎ ((op : O) × (e : Event) × (k : ℕ) × IsEntry codec n op e × (tail ≡ take k (frame_bytes e)))

  -- An operation with its event, and room for its frame.
  pub record IsNext (ops : List O) (j : Journal) (op : O) (e : Event) : Type 0 where
    pub entry : IsEntry codec (length ops) op e
    pub room : length j.file + length (frame_bytes e) ≤ log_bytes

  whole-IsCut :
      (ops : List O) (j : Journal) (op : O) (e : Event)
      → IsNext ops j op e
      → IsCut (length ops) (frame_bytes e)
  whole-IsCut ops j op e n = inr (
    op,
    e,
    length (frame_bytes e),
    n.entry,
    sym (take-all (length (frame_bytes e)) (frame_bytes e) (omega arith)),
  )

-- The stream takes the frame, or a beginning of it.
put_frame-cases :
    (io : Answers) (fault : ℕ) (e : Event)
    → IsEvent e
    → (put_frame io fault e ≡ (ok tt, frame_bytes e))
      ⊎ ((k : ℕ) × (put_frame io fault e ≡ (err Error.io, take k (frame_bytes e))))
unfolding frame_bytes frame_line prefix
put_frame-cases io fault e w = elim (Bool-cases (fault == 1)) [
  | inl first ↦ inr (5, rw first refl)
  | inr other ↦ elim (Option-cases io.written) [
    | inl whole ↦ inl (rw (other, whole) (frame_write_lem e w).0)
    | inr (k, part) ↦ inr (k, rw (other, part) ((frame_write_lem e w).1 k))
  ]
]

module _ {O : Type 0} (codec : OpCodec O) (known : ℕ) where
  -- The journal holds the frames of exactly these operations, and those of the first `known` ones are
  -- on the disk. When it is poisoned a beginning of one more frame may stand behind them.
  pub record IsJournal (ops : List O) (j : Journal) : Type 0 where
    pub events : List Event
    pub log : IsLog codec 0 ops events
    pub tail : List ℕ
    pub file : j.file ≡ all_frames events ++ tail
    pub bound : length j.file ≤ log_bytes
    pub some_known : known ≤ length ops
    pub durable : length (all_frames (take known events)) ≤ j.durable
    pub state :
        ((j.poisoned ≡ false)
          × (tail ≡ [])
          × (j.ops ≡ length ops)
          × (length (all_frames events) ≤ j.handed))
        ⊎ ((j.poisoned ≡ true) × (j.stream ≡ false) × IsCut codec (length ops) tail)

  -- One append: acknowledged and in the journal, or refused and not among its operations.
  abbrev pub Outcome : List O → O → Result (Unit {0}) × Journal → Type 0
  Outcome ops op r =
      ((r.0 ≡ ok tt) × IsJournal (ops ++ op ∷ []) r.1)
      ⊎ ((code : Error) × (r.0 ≡ err code) × IsJournal ops r.1)

  -- A journal that is not poisoned, in short.
  pub record IsClean (ops : List O) (events : List Event) (j : Journal) : Type 0 where
    pub log : IsLog codec 0 ops events
    pub file : j.file ≡ all_frames events
    pub bound : length j.file ≤ log_bytes
    pub some_known : known ≤ length ops
    pub durable : length (all_frames (take known events)) ≤ j.durable
    pub handed : length (all_frames events) ≤ j.handed
    pub healthy : j.poisoned ≡ false
    pub count : j.ops ≡ length ops

  clean-IsJournal :
      (ops : List O) (events : List Event) (j : Journal) → IsClean ops events j → IsJournal ops j
  clean-IsJournal ops events j w = record {
    events = events;
    log = w.log;
    tail = [];
    file = w.file ∙ sym (append-nil (all_frames events));
    bound = w.bound;
    some_known = w.some_known;
    durable = w.durable;
    state = inl (w.healthy, refl, w.count, w.handed);
  }

  poison-IsJournal :
      (ops : List O) (events : List Event) (j : Journal) (bytes : List ℕ)
      → IsClean ops events j
      → IsCut codec (length ops) bytes
      → length (j.file ++ bytes) ≤ log_bytes
      → IsJournal ops (store_poison (record j { file = j.file ++ bytes }))
  poison-IsJournal ops events j bytes w cut b = record {
    events = events;
    log = w.log;
    tail = bytes;
    file = ap (λ f. f ++ bytes) w.file;
    bound = b;
    some_known = w.some_known;
    durable = w.durable;
    state = inr (refl, refl, cut);
  }

  rollback-IsJournal :
      (io : Answers) (ops : List O) (events : List Event) (j : Journal) (bytes : List ℕ)
      → IsClean ops events j
      → IsCut codec (length ops) bytes
      → length (j.file ++ bytes) ≤ log_bytes
      → IsJournal ops (rollback io (record j { file = j.file ++ bytes }) (length j.file))
  unfolding rollback
  rollback-IsJournal io ops events j bytes w cut b = elim (Bool-cases io.truncated) [
    | inr kept ↦ rw (rollback, kept) (poison-IsJournal ops events j bytes w cut b)
    | inl gone ↦
        let back : take (length j.file) (j.file ++ bytes) ≡ j.file = take-append j.file bytes in
        elim (Bool-cases (io.reopened && io.reopen_synced)) [
          | inl again ↦
              rw (rollback, gone, again, back)
                (clean-IsJournal ops events (on_disk (record j { stream = true })) (record {
                  log = w.log;
                  file = w.file;
                  bound = w.bound;
                  some_known = w.some_known;
                  durable =
                      omega (arith, length-take_frames known events, ap (λ f. length f) w.file);
                  handed = omega (arith, ap (λ f. length f) w.file);
                  healthy = w.healthy;
                  count = w.count;
                }))
          | inr lost ↦
              rw (rollback, gone, lost, back)
                (record {
                  events = events;
                  log = w.log;
                  tail = [];
                  file = w.file ∙ sym (append-nil (all_frames events));
                  bound = w.bound;
                  some_known = w.some_known;
                  durable = w.durable;
                  state = inr (refl, refl, inl refl);
                })
        ]
  ]

  -- `d` bytes are durable behind the append: those that were, or all.
  appended-IsJournal :
      (ops : List O) (events : List Event) (j : Journal) (op : O) (e : Event) (d : ℕ)
      → IsClean ops events j
      → IsNext codec ops j op e
      → length (all_frames (take known events)) ≤ d
      → IsJournal (ops ++ op ∷ []) (record j {
        file = j.file ++ frame_bytes e;
        ops = j.ops + 1;
        handed = length (j.file ++ frame_bytes e);
        durable = d;
      })
  appended-IsJournal ops events j op e d w n more =
      let few : known ≤ length events =
        omega (arith, w.some_known, length-IsLog codec 0 ops events w.log) in
      let file : j.file ++ frame_bytes e ≡ all_frames (events ++ e ∷ []) =
        ap (λ f. f ++ frame_bytes e) w.file
        ∙ sym (
            all_frames-append events (e ∷ [])
            ∙ ap (λ f. all_frames events ++ f) (append-nil (frame_bytes e))) in
      clean-IsJournal (ops ++ op ∷ []) (events ++ e ∷ []) _ (record {
        log =
            IsLog-append codec 0 ops events op e w.log
              (subst (λ m. IsEntry codec m op e) (omega arith) n.entry);
        file = file;
        handed = omega (arith, ap (λ f. length f) file);
        bound = omega (arith, n.room, length-append j.file (frame_bytes e));
        some_known = omega (arith, w.some_known, length-append ops (op ∷ []));
        durable = rw (take-short known events (e ∷ []) few) more;
        healthy = w.healthy;
        count = omega (arith, w.count, length-append ops (op ∷ []));
      })

  settle-ok :
      (io : Answers) (sync : Bool) (fault : ℕ) (ops : List O) (events : List Event) (j : Journal)
      (op : O) (e : Event)
      → IsClean ops events j
      → IsNext codec ops j op e
      → Outcome ops op (settle io sync fault j (ok tt, frame_bytes e))
  unfolding settle
  settle-ok io sync fault ops events j op e w n =
      let cut = whole-IsCut codec ops j op e n in
      let fits : length (j.file ++ frame_bytes e) ≤ log_bytes =
        omega (arith, n.room, length-append j.file (frame_bytes e)) in
      let undone = rollback-IsJournal io ops events j (frame_bytes e) w cut fits in
      let closed = poison-IsJournal ops events j (frame_bytes e) w cut fits in
      let done = appended-IsJournal ops events j op e j.durable w n w.durable in
      let all_known : length (all_frames (take known events)) ≤ length (j.file ++ frame_bytes e) =
        omega (
          arith,
          length-take_frames known events,
          ap (λ f. length f) w.file,
          length-append j.file (frame_bytes e),
        ) in
      let synced_now = appended-IsJournal ops events j op e _ w n all_known in
      elim (Bool-cases (not io.flushed || (fault == 2))) [
        | inl lost ↦ rw (settle, lost) (inr (Error.io, refl, undone))
        | inr flushed ↦ elim (Bool-cases sync) [
          | inr later ↦ rw (settle, flushed, later) (inl (refl, done))
          | inl now ↦ elim (Bool-cases (fault == 3)) [
            | inl failed ↦ rw (settle, flushed, now, failed) (inr (Error.io, refl, closed))
            | inr asked ↦ elim (Result-cases io.synced) [
              | inl (code, e) ↦ rw (settle, flushed, now, asked, e) (inr (code, refl, closed))
              | inr (u, e) ↦ rw (settle, flushed, now, asked, e) (inl (refl, synced_now))
            ]
          ]
        ]
      ]

  settle-err :
      (io : Answers) (sync : Bool) (fault : ℕ) (ops : List O) (events : List Event) (j : Journal)
      (op : O) (bytes : List ℕ) (code : Error)
      → IsClean ops events j
      → IsCut codec (length ops) bytes
      → length (j.file ++ bytes) ≤ log_bytes
      → Outcome ops op (settle io sync fault j (err code, bytes))
  unfolding settle
  settle-err io sync fault ops events j op bytes code w cut b =
      inr (code, refl, rollback-IsJournal io ops events j bytes w cut b)

  pub settle-Outcome :
      (io : Answers) (sync : Bool) (fault : ℕ) (ops : List O) (events : List Event) (j : Journal)
      (op : O) (e : Event)
      → IsClean ops events j
      → IsNext codec ops j op e
      → Outcome ops op (settle io sync fault j (put_frame io fault e))
  settle-Outcome io sync fault ops events j op e w n =
      elim (put_frame-cases io fault e n.entry.event) [
        | inl whole ↦
            subst (λ p. Outcome ops op (settle io sync fault j p)) (sym whole)
              (settle-ok io sync fault ops events j op e w n)
        | inr (k, part) ↦
            let fits : length (j.file ++ take k (frame_bytes e)) ≤ log_bytes = omega (
              arith,
              n.room,
              length-append j.file (take k (frame_bytes e)),
              length-take k (frame_bytes e),
            ) in
            subst (λ p. Outcome ops op (settle io sync fault j p)) (sym part)
              (settle-err io sync fault ops events j op (take k (frame_bytes e)) Error.io w
                (inr (op, e, k, n.entry, refl)) fits)
      ]
