-- ===== src/Journal/Replay.antt =====
-- Replaying what a journal holds: `asper_journal_replay` of src/journal.c.
use mathlib.Core.List.{append_assoc, append-nil}
use asterism_asper.Base.{
  not, some, ℕ, zero, suc, ◌+◌, ◌-◌, ◌≤◌, ◌<◌, ◌≡◌, refl, ap, ◌∙◌, Bool, true, false, List, [], ◌∷◌,
  ◌++◌, ltb, ◌==◌, length, length-append, arith, Result, ok, err, Error, fail_if, ◌>>=◌, ◌>>◌,
  >>=-eq-ok, ok_inj, take-append,
}
use asterism_asper.Base.Int.{ℤ}
use asterism_asper.EventFrame.{Event, frame_bytes}
use asterism_asper.EventFrame.Read.{frame_read}
use asterism_asper.EventFrame.RoundTrip.{frame_read-frame_bytes}
use asterism_asper.Journal.{
  OpCodec, ReplayAnswers, Progress, parse_error, log_bytes, eq_ℤ, replay_frame, replay_loop,
  journal_replay,
}
use asterism_asper.Journal.Frames.{IsEntry, IsLog, all_frames, length-IsLog, length-frame_bytes}

eq_ℤ_refl : (a : ℤ) → eq_ℤ a a ≡ true
eq_ℤ_refl a = ground arith

within : (n : ℕ) → n ≤ log_bytes → ltb log_bytes n ≡ false
within n h = ground arith

same_number : (n : ℕ) → (n == n) ≡ true
same_number n = ground arith

-- The calls of a replay that all succeed, with what is known of the file.
pub record IsAnswered (io : ReplayAnswers) : Type 0 where
  pub size : io.size ≡ ok tt
  pub opened : io.opened ≡ true
  pub granted : io.reading.granted ≡ true
  pub read : io.reading.failed ≡ false
  pub told : io.told ≡ true
  pub closed : io.closed ≡ true
  pub truncated : io.truncated ≡ ok tt
  pub reopened : io.reopened ≡ true
  pub synced : io.synced ≡ ok tt
  pub reclosed : io.reclosed ≡ true

module _ {O S : Type 0} (codec : OpCodec O) (apply : S → O → Result S) where
  -- An operation read back from its own text, and applied.
  unfoldable pub replay_op : S → O → Result S
  replay_op s op = do
    text ← codec.serialize op
    read ← codec.decode text
    fail_if (not (eq_ℤ (codec.at read) (codec.at op))) Error.parse
    apply s read

  -- The operations read back and applied in order.
  unfoldable pub applied : S → List O → Result S
  applied s [] = ok s
  applied s (op ∷ ops) = replay_op s op >>= λ next. applied next ops

  replay_frame-entry :
      (s t : S) (e : Event) (n : ℕ) (op : O)
      → IsEntry codec n op e
      → replay_op s op ≡ ok t
      → replay_frame codec apply s e (n + 1) ≡ ok t
  unfolding replay_frame replay_op
  replay_frame-entry s t e n op w a =
      rw (replay_frame, w.sequence, same_number (n + 1), w.kind, w.pinned, w.object, w.at)
        (ap (λ r. parse_error r) (rw (w.text, ◌>>=◌) at a))

  replay_loop-ok :
      (io : ReplayAnswers) (fuel : ℕ) (p : Progress S) (bytes rest : List ℕ) (e : Event) (t : S)
      → frame_read io.reading bytes ≡ ok (e, rest)
      → 0 < length bytes
      → io.told ≡ true
      → replay_frame codec apply p.store e (p.count + 1) ≡ ok t
      → replay_loop codec apply io (suc fuel) p bytes
        ≡ replay_loop codec apply io fuel
            (record p {
              store = t;
              count = p.count + 1;
              good = p.good + (length bytes - length rest);
            })
            rest
  unfolding replay_loop
  replay_loop-ok io fuel p [] rest e t h l k a = absurd (omega arith)
  replay_loop-ok io fuel p (b ∷ bytes) rest e t h l k a =
      rw (replay_loop, h, a, ◌>>=◌, k, ◌>>◌, fail_if) refl

  abbrev pub some_bytes : List ℕ → Bool
  some_bytes [] = false
  some_bytes (b ∷ bytes) = true

  -- A tail that ends the file in a frame ends the loop.
  replay_loop-torn :
      (io : ReplayAnswers) (fuel : ℕ) (p : Progress S) (tail : List ℕ)
      → frame_read io.reading tail ≡ err Error.not_found
      → length tail ≤ fuel
      → p.torn ≡ false
      → replay_loop codec apply io fuel p tail ≡ some (ok (record p { torn = some_bytes tail }))
  unfolding replay_loop
  replay_loop-torn io zero p [] h l f = ap (λ b. some (ok (record p { torn = b }))) f
  replay_loop-torn io (suc fuel) p [] h l f = ap (λ b. some (ok (record p { torn = b }))) f
  replay_loop-torn io zero p (b ∷ tail) h l f = absurd (omega arith)
  replay_loop-torn io (suc fuel) p (b ∷ tail) h l f = rw (replay_loop, h) refl

  abbrev progress : S → ℕ → ℕ → Bool → Progress S
  progress s count good torn = record { store = s; count = count; good = good; torn = torn }

  progress_eq :
      {s t : S} {a b c d : ℕ} {torn : Bool}
      → s ≡ t
      → a ≡ b
      → c ≡ d
      → progress s a c torn ≡ progress t b d torn
  progress_eq e f g = rw (e, f, g) refl

  -- Where the loop stands behind the frames of a log.
  abbrev pub behind : Progress S → S → List Event → List ℕ → Progress S
  behind p t es tail = record p {
    store = t;
    count = p.count + length es;
    good = p.good + length (all_frames es);
    torn = some_bytes tail;
  }

  replay_loop-log :
      (io : ReplayAnswers) (fuel : ℕ) (p : Progress S) (ops : List O) (es : List Event)
      (tail : List ℕ) (t : S)
      → io.told ≡ true
      → io.reading.granted ≡ true
      → IsLog codec p.count ops es
      → applied p.store ops ≡ ok t
      → frame_read io.reading tail ≡ err Error.not_found
      → length (all_frames es ++ tail) ≤ fuel
      → p.torn ≡ false
      → replay_loop codec apply io fuel p (all_frames es ++ tail) ≡ some (ok (behind p t es tail))
  unfolding applied
  replay_loop-log io fuel p [] [] tail t k g l a h n f =
      replay_loop-torn io fuel p tail h n f
      ∙ ap (λ q. some (ok q)) (progress_eq (ok_inj a) (omega arith) (omega arith))
  replay_loop-log io fuel p [] (e ∷ es) tail t k g l a h n f = absurd l
  replay_loop-log io fuel p (op ∷ ops) [] tail t k g l a h n f = absurd l
  replay_loop-log io zero p (op ∷ ops) (e ∷ es) tail t k g (w, l) a h n f = absurd (
      omega (
        arith,
        (length-frame_bytes e w.event).0,
        length-append (frame_bytes e ++ all_frames es) tail,
        length-append (frame_bytes e) (all_frames es),
      ))
  replay_loop-log io (suc fuel) p (op ∷ ops) (e ∷ es) tail t k g (w, l) a h n f =
      let (s, first, then_on) = >>=-eq-ok (replay_op p.store op) (λ s. applied s ops) a in
      let rest : List ℕ = all_frames es ++ tail in
      let split : (frame_bytes e ++ all_frames es) ++ tail ≡ frame_bytes e ++ rest =
        append_assoc (frame_bytes e) (all_frames es) tail in
      let sizes : length (frame_bytes e ++ rest) ≡ length (frame_bytes e) + length rest =
        length-append (frame_bytes e) rest in
      let some_length : 0 < length (frame_bytes e) =
        omega (arith, (length-frame_bytes e w.event).0) in
      let round =
        replay_loop-ok io fuel p (frame_bytes e ++ rest) rest e s
          (frame_read-frame_bytes io.reading e rest w.event g) (omega (arith, sizes)) k
          (replay_frame-entry p.store s e p.count op w first) in
      let next : Progress S = record p {
        store = s;
        count = p.count + 1;
        good = p.good + (length (frame_bytes e ++ rest) - length rest);
      } in
      let fits : length rest ≤ fuel =
        omega (arith, n, ap (λ b. length b) split, sizes, some_length) in
      ap (λ b. replay_loop codec apply io (suc fuel) p b) split
      ∙ round
      ∙ replay_loop-log io fuel next ops es tail t k g l then_on h fits f
      ∙ ap (λ q. some (ok q))
          (progress_eq refl (omega arith)
            (omega (arith, sizes, length-append (frame_bytes e) (all_frames es))))

  -- A tail that the reader takes for an incomplete frame, or no tail.
  abbrev IsTail : ReplayAnswers → List ℕ → Type 0
  IsTail io tail = frame_read io.reading tail ≡ err Error.not_found

  replay-tail :
      (io : ReplayAnswers) (s t : S) (count : ℕ) (front tail : List ℕ)
      → IsAnswered io
      → length (front ++ tail) ≤ log_bytes
      → replay_loop codec apply io (length (front ++ tail)) (progress s 0 0 false) (front ++ tail)
        ≡ some (ok (progress t count (length front) (some_bytes tail)))
      → journal_replay codec apply io s (front ++ tail) ≡ some (ok (t, count), front)
  unfolding journal_replay
  replay-tail io s t count front [] w h e =
      let fits : ltb log_bytes (length (front ++ [])) ≡ false = within (length (front ++ [])) h in
      rw (journal_replay, w.size, fits, e, w.opened, w.closed, append-nil front) refl
  replay-tail io s t count front (b ∷ tail) w h e =
      let fits : ltb log_bytes (length (front ++ b ∷ tail)) ≡ false =
        within (length (front ++ b ∷ tail)) h in
      rw
        (
          journal_replay,
          w.size,
          fits,
          e,
          w.opened,
          w.closed,
          w.truncated,
          w.reopened,
          fail_if,
          ◌>>◌,
          ◌>>=◌,
          w.synced,
          ◌>>=◌,
          w.reclosed,
          take-append front (b ∷ tail),
        )
        refl

  -- Replaying the frames of a list of operations, with an incomplete frame behind them or none,
  -- applies exactly these operations in their order and leaves exactly their frames in the file.
  -- The operations read back apply to the store, the file is within its bound, and the calls to the
  -- system succeed.
  pub replay-log :
      (io : ReplayAnswers) (s t : S) (ops : List O) (es : List Event) (tail : List ℕ)
      → IsAnswered io
      → IsLog codec 0 ops es
      → applied s ops ≡ ok t
      → IsTail io tail
      → length (all_frames es ++ tail) ≤ log_bytes
      → journal_replay codec apply io s (all_frames es ++ tail)
        ≡ some (ok (t, length ops), all_frames es)
  replay-log io s t ops es tail w l a h b =
      replay-tail io s t (length ops) (all_frames es) tail w b (
        replay_loop-log io (length (all_frames es ++ tail)) (progress s 0 0 false) ops es tail t
          w.told w.granted l a h (omega arith) refl
        ∙ ap (λ q. some (ok q))
            (progress_eq refl (omega (arith, length-IsLog codec 0 ops es l)) (omega arith)))
