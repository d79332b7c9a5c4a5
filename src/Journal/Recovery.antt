-- ===== src/Journal/Recovery.antt =====
-- A stop in the middle of an append, and the replay behind it: src/journal.c from end to end.
use mathlib.Core.List.{append-nil}
use asterism_asper.Base.{
  some, zero, suc, ◌∷◌, ℕ, ◌+◌, ◌≤◌, ◌≡◌, refl, sym, ap, ◌∙◌, false, List, [], ◌++◌, inl, inr,
  length, length-append, length-take, arith, Result, ok, take, take-short, subst, ◌>>=◌, >>=-eq-ok,
}
use asterism_asper.EventFrame.{Event, frame_bytes}
use asterism_asper.Journal.{
  OpCodec, Journal, ReplayAnswers, log_bytes, journal_replay, journal_sync,
}
use asterism_asper.Journal.Frames.{
  IsEntry, IsLog, IsLog-append, all_frames, all_frames-append, length-IsLog, length-take_frames,
}
use asterism_asper.Journal.Cuts.{IsLog-take, frames-take}
use asterism_asper.Journal.Replay.{applied, replay_op, IsAnswered, replay-log}
use asterism_asper.Journal.Run.{IsJournal}
use asterism_asper.Journal.Calls.{
  Call, run_calls, fresh_journal, IsRun, run_calls-IsJournal, synced-IsJournal,
}

pub fresh-IsJournal : {O : Type 0} (codec : OpCodec O) → IsJournal codec 0 [] fresh_journal
fresh-IsJournal codec = record {
  events = [];
  log = tt;
  tail = [];
  file = refl;
  bound = omega arith;
  some_known = omega arith;
  durable = omega arith;
  state = inl (refl, refl, refl, omega arith);
}

-- The operations acknowledged before a sync and behind it, and the journal in the end.
unfoldable pub synced_run :
    {O : Type 0}
    → OpCodec O
    → List (Call O)
    → Result (Unit {0})
    → List (Call O)
    → List O × List O × Journal
synced_run codec before synced after =
    let (early, j) = run_calls codec fresh_journal before in
    let (late, last) = run_calls codec (journal_sync synced j).1 after in (early, late, last)

module _ {O S : Type 0} (codec : OpCodec O) (apply : S → O → Result S) where
  applied-take :
      (m : ℕ) (s t : S) (ops : List O)
      → applied codec apply s ops ≡ ok t
      → (u : S) × (applied codec apply s (take m ops) ≡ ok u)
  unfolding applied
  applied-take zero s t ops a = (s, refl)
  applied-take (suc m) s t [] a = (s, refl)
  applied-take (suc m) s t (op ∷ ops) a =
      let (next, first, then_on) =
        >>=-eq-ok (replay_op codec apply s op) (λ x. applied codec apply x ops) a in
      let (u, e) = applied-take m next t ops then_on in (u, rw (first, ◌>>=◌) e)

  -- What a replay comes to that restores the first `m` of the operations, with `known` of them at
  -- least, and leaves their frames in the file.
  abbrev pub Restored : ReplayAnswers → S → ℕ → List O → List ℕ → Type 0
  Restored io s known ops file =
      (m : ℕ) × (u : S) × (es : List Event) × (known ≤ m)
      × (m ≤ length ops)
      × (applied codec apply s (take m ops) ≡ ok u)
      × IsLog codec 0 (take m ops) es
      × (journal_replay codec apply io s file ≡ some (ok (u, m), all_frames es))

  replay-cut :
      (io : ReplayAnswers) (s t : S) (known k : ℕ) (ops : List O) (es : List Event)
      → IsAnswered io
      → IsLog codec 0 ops es
      → applied codec apply s ops ≡ ok t
      → known ≤ length ops
      → length (all_frames (take known es)) ≤ k
      → length (all_frames es) ≤ log_bytes
      → Restored io s known ops (take k (all_frames es))
  replay-cut io s t known k ops es w l a fits h b =
      let same = length-IsLog codec 0 ops es l in
      let (m, tail, (cut, size, more, torn)) =
        frames-take codec io.reading k known 0 ops es w.read w.granted l (omega (arith, same)) h in
      let (u, e) = applied-take m s t ops a in
      let log = IsLog-take codec m 0 ops es l in
      let count : length (take m ops) ≡ m = omega (arith, length-take m ops, same, size) in
      let bound : length (all_frames (take m es) ++ tail) ≤ log_bytes =
        omega (arith, ap (λ f. length f) cut, length-take k (all_frames es), b) in
      (
        m,
        u,
        take m es,
        more,
        omega (arith, size, same),
        e,
        log,
        ap (λ f. journal_replay codec apply io s f) cut
            ∙ replay-log codec apply io s u (take m ops) (take m es) tail w log e torn bound
            ∙ ap (λ n. some (ok (u, n), all_frames (take m es))) count,
      )

  -- A journal that is not poisoned, with one more frame behind it.
  replay-IsJournal :
      (io : ReplayAnswers) (s t : S) (known kept k : ℕ) (ops : List O) (j : Journal) (op : O)
      (e : Event) (w : IsJournal codec known ops j)
      → IsAnswered io
      → j.poisoned ≡ false
      → applied codec apply s (ops ++ op ∷ []) ≡ ok t
      → IsEntry codec (length ops) op e
      → kept ≤ length ops
      → length (all_frames (take kept w.events)) ≤ k
      → length j.file + length (frame_bytes e) ≤ log_bytes
      → Restored io s kept (ops ++ op ∷ []) (take k (j.file ++ frame_bytes e))
  replay-IsJournal io s t known kept k ops j op e w c p a n some_kept h b =
      let file : j.file ≡ all_frames w.events = elim w.state [
        | inl (healthy, empty, count, handed) ↦
            w.file ∙ ap (λ t. all_frames w.events ++ t) empty ∙ append-nil (all_frames w.events)
        | inr (poisoned, closed, cut) ↦ absurd (ground (arith, p, poisoned))
      ] in
      let all : j.file ++ frame_bytes e ≡ all_frames (w.events ++ e ∷ []) =
        ap (λ f. f ++ frame_bytes e) file
        ∙ sym (
            all_frames-append w.events (e ∷ [])
            ∙ ap (λ f. all_frames w.events ++ f) (append-nil (frame_bytes e))) in
      let log : IsLog codec 0 (ops ++ op ∷ []) (w.events ++ e ∷ []) =
        IsLog-append codec 0 ops w.events op e w.log
          (subst (λ m. IsEntry codec m op e) (omega arith) n) in
      let few : kept ≤ length w.events = omega (arith, length-IsLog codec 0 ops w.events w.log) in
      rw all (
        replay-cut io s t kept k (ops ++ op ∷ []) (w.events ++ e ∷ []) c log a
          (omega (arith, length-append ops (op ∷ [])))
          (rw (take-short kept w.events (e ∷ []) few) h)
          (omega (arith, b, ap (λ f. length f) all, length-append j.file (frame_bytes e))))

  -- Whatever the journal holds has gone to the system, unless it is poisoned.
  IsJournal-handed :
      (known : ℕ) (ops : List O) (j : Journal) (w : IsJournal codec known ops j)
      → j.poisoned ≡ false
      → length (all_frames w.events) ≤ j.handed
  IsJournal-handed known ops j w p = elim w.state [
    | inl (healthy, empty, count, handed) ↦ handed
    | inr (poisoned, closed, cut) ↦ absurd (ground (arith, p, poisoned))
  ]

  -- The machine stops, and the operations acknowledged before a sync that succeeded come back. A
  -- journal starts empty, takes a run of appends and syncs, a sync that succeeds, and a second run,
  -- and is not poisoned in the end. While the frame of one more operation is written, the machine stops: of
  -- the file with this frame a beginning of `k` bytes is left that has at least the bytes that were
  -- durable. Then the replay restores the store with a beginning of the operations acknowledged, and
  -- of the one under way behind them, applied in their order. It has all operations acknowledged
  -- before the sync, the count is theirs, and the file is left with exactly their frames.
  -- The calls have sixteen random bytes, UTF-8 texts and 64-bit times, the operations as they are read
  -- back from their own texts apply to the store, the calls to the system at the replay succeed, and
  -- the file is within its bound.
  pub recovery :
      (io : ReplayAnswers) (before after : List (Call O)) (synced : Result (Unit {0})) (s t : S)
      (op : O) (e : Event) (k : ℕ)
      → IsAnswered io
      → IsRun codec before
      → IsRun codec after
      → (journal_sync synced (run_calls codec fresh_journal before).1).0 ≡ ok tt
      → (synced_run codec before synced after).2.poisoned ≡ false
      → applied codec apply s (
          ((synced_run codec before synced after).0 ++ (synced_run codec before synced after).1)
          ++ op ∷ [])
        ≡ ok t
      → IsEntry codec
          (length
            ((synced_run codec before synced after).0 ++ (synced_run codec before synced after).1))
          op
          e
      → (synced_run codec before synced after).2.durable ≤ k
      → length (synced_run codec before synced after).2.file + length (frame_bytes e) ≤ log_bytes
      → Restored io s
          (length (synced_run codec before synced after).0)
          (((synced_run codec before synced after).0 ++ (synced_run codec before synced after).1)
            ++ op ∷ [])
          (take k ((synced_run codec before synced after).2.file ++ frame_bytes e))
  unfolding synced_run
  recovery io before after synced s t op e k c r q good p a n h b =
      let early = (run_calls codec fresh_journal before).0 in
      let first = run_calls-IsJournal codec 0 [] fresh_journal before (fresh-IsJournal codec) r in
      let middle = synced-IsJournal codec 0 synced early _ first good in
      let last = run_calls-IsJournal codec (length early) early _ after middle q in
      replay-IsJournal io s t (length early) (length early) k _ _ op e last c p a n last.some_known
        (omega (arith, last.durable, h)) b

  -- The process stops, and every acknowledged operation comes back. A journal starts empty, takes any
  -- run of appends and syncs, whether or not it was ever synced, and is not poisoned in the end. While
  -- the frame of one more operation is written the process stops: of the file with this frame a
  -- beginning of `k` bytes is left that has at least the bytes that the stream had handed to the
  -- system. Then the replay restores the store with all operations acknowledged applied in their
  -- order, and the one under way behind them or not, the count is theirs, and the file is left with
  -- exactly their frames. The calls have sixteen random bytes, UTF-8 texts and 64-bit times, the
  -- operations as they are read back from their own texts apply to the store, the calls to the system
  -- at the replay succeed, and the file is within its bound.
  pub restart :
      (io : ReplayAnswers) (calls : List (Call O)) (s t : S) (op : O) (e : Event) (k : ℕ)
      → IsAnswered io
      → IsRun codec calls
      → (run_calls codec fresh_journal calls).1.poisoned ≡ false
      → applied codec apply s ((run_calls codec fresh_journal calls).0 ++ op ∷ []) ≡ ok t
      → IsEntry codec (length (run_calls codec fresh_journal calls).0) op e
      → (run_calls codec fresh_journal calls).1.handed ≤ k
      → length (run_calls codec fresh_journal calls).1.file + length (frame_bytes e) ≤ log_bytes
      → Restored io s
          (length (run_calls codec fresh_journal calls).0)
          ((run_calls codec fresh_journal calls).0 ++ op ∷ [])
          (take k ((run_calls codec fresh_journal calls).1.file ++ frame_bytes e))
  restart io calls s t op e k c r p a n h b =
      let ops = (run_calls codec fresh_journal calls).0 in
      let w = run_calls-IsJournal codec 0 [] fresh_journal calls (fresh-IsJournal codec) r in
      replay-IsJournal io s t 0 (length ops) k ops _ op e w c p a n (omega arith)
        (omega (
          arith,
          length-take_frames (length ops) w.events,
          IsJournal-handed 0 ops (run_calls codec fresh_journal calls).1 w p,
          h,
        ))
        b
