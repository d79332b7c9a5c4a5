-- ===== src/Journal/Fuel.antt =====
-- The rounds of a replay are finite, for the loop of `asper_journal_replay` of src/journal.c.
use asterism_asper.Base.{
  some, ℕ, zero, suc, ◌+◌, ◌≤◌, ◌<◌, ◌≡◌, refl, ap, Bool, true, false, ◌&&◌, ◌||◌, not, List, [],
  ◌∷◌, ltb, ◌==◌, if◌then◌else◌, length, length-drop, arith, Bool-cases, Result-cases, inl, inr,
  take, drop, Result, ok, err, Error, fail_if, >>=-eq-ok, ok_inj,
}
use asterism_asper.Base.Text.{codes, str_eq, until_zero}
use asterism_asper.Uuid.{is_some}
use asterism_asper.Util.Utf8.{utf8_count}
use asterism_asper.EventFrame.{Event, payload_digest}
use asterism_asper.EventFrame.Read.{
  Reading, Fields, gets, has_newline, head_line, fields, checked_line, frame_head, object_accepted,
  has_zero, payload_end, payload, frame_read,
}
use asterism_asper.Journal.{
  OpCodec, ReplayAnswers, Progress, log_bytes, replay_next, replay_loop, journal_replay,
}

length-gets :
    (n : ℕ) (bytes : List ℕ) → length (gets n bytes).0 + length (gets n bytes).1 ≡ length bytes
unfolding gets
length-gets zero bytes = omega arith
length-gets (suc n) [] = refl
length-gets (suc n) (b ∷ bytes) = elim (Bool-cases (b == 0x0a)) [
  | inl stop ↦ rw stop (omega arith)
  | inr more ↦ rw more (omega (arith, length-gets n bytes))
]

-- A test that ends in an error was not met.
passed {ℓ} :
    {A : Type ℓ} (b : Bool) (e : Error) (r : Result A) {a : A}
    → (if b then err e else r) ≡ ok a
    → (b ≡ false) × (r ≡ ok a)
passed true e r h = cc
passed false e r h = (refl, h)

newline_case {ℓ} :
    {A : Type ℓ} (b c d : Bool) (x : A) (e f g : Error) {a : A}
    → (if b then ok x else if c then err e else if d then err f else err g) ≡ ok a
    → x ≡ a
newline_case true c d x e f g h = ok_inj h
newline_case false true d x e f g h = cc
newline_case false false true x e f g h = cc
newline_case false false false x e f g h = cc

some_length : (n : ℕ) → (n == 0) ≡ false → 0 < n
some_length n h = ground (arith, h)

head_line-shorter :
    (io : Reading) (bytes line rest : List ℕ)
    → head_line io bytes ≡ ok (line, rest)
    → length rest < length bytes
unfolding head_line
head_line-shorter io bytes line rest h =
    let (more, h') = passed (length (gets 351 bytes).0 == 0) _ _ h in
    let same =
      newline_case (has_newline (until_zero (gets 351 bytes).0)) ((gets 351 bytes).2 && io.failed)
        ((gets 351 bytes).2
          && str_eq (take 5 (until_zero (gets 351 bytes).0))
              (take (length (until_zero (gets 351 bytes).0)) (codes "AEV2 ")))
        (until_zero (gets 351 bytes).0, (gets 351 bytes).1) Error.io Error.not_found Error.parse
        h' in
    omega (
      arith,
      length-gets 351 bytes,
      some_length (length (gets 351 bytes).0) more,
      ap (λ p. length p.1) same,
    )

frame_head-shorter :
    (io : Reading) (bytes : List ℕ) (f : Fields) (hash rest : List ℕ)
    → frame_head io bytes ≡ ok (f, hash, rest)
    → length rest < length bytes
unfolding frame_head
frame_head-shorter io bytes f hash rest h =
    let ((line, behind), e1, h1) = >>=-eq-ok (head_line io bytes) _ h in
    let (u, e2, h2) =
      >>=-eq-ok (fail_if (not (str_eq (take 5 line) (codes "AEV2 "))) Error.parse) _ h1 in
    let (g, e3, h3) = >>=-eq-ok (fields (drop 5 line)) _ h2 in
    let (c, e4, h4) = >>=-eq-ok (checked_line line g) _ h3 in
    omega (arith, head_line-shorter io bytes line behind e1, ap (λ p. length p.2) (ok_inj h4))

payload_end-shorter :
    (io : Reading) (e : Event) (head hash bytes : List ℕ) {out : Event × List ℕ}
    → payload_end io e head hash bytes ≡ ok out
    → length out.1 ≤ length bytes
unfolding payload_end
payload_end-shorter io e head hash [] h = cc
payload_end-shorter io e head hash (term ∷ rest) h =
    let (a, h1) =
      passed (not (term == 0x0a) || has_zero e.text || not (is_some (utf8_count e.text))) _ _ h in
    let (b, h2) = passed (not (str_eq hash (payload_digest head e))) _ _ h1 in
    omega (arith, ap (λ p. length p.1) (ok_inj h2))

payload-shorter :
    (io : Reading) (f : Fields) (hash bytes : List ℕ) {out : Event × List ℕ}
    → payload io f hash bytes ≡ ok out
    → length out.1 ≤ length bytes
unfolding payload
payload-shorter io f hash bytes h =
    let object = take f.object_bytes bytes in
    let behind = drop f.object_bytes bytes in
    let (a, h1) = passed (ltb (length object) f.object_bytes) _ _ h in
    let (b, h2) = passed (not (object_accepted object)) _ _ h1 in
    let (c, h3) = passed (not io.granted) _ _ h2 in
    let (d, h4) = passed (ltb (length (take f.text_bytes behind)) f.text_bytes) _ _ h3 in
    omega (
      arith,
      payload_end-shorter io _ _ hash (drop f.text_bytes behind) h4,
      length-drop f.text_bytes behind,
      length-drop f.object_bytes bytes,
    )

frame_read-shorter :
    (io : Reading) (bytes : List ℕ) (e : Event) (rest : List ℕ)
    → frame_read io bytes ≡ ok (e, rest)
    → length rest < length bytes
unfolding frame_read
frame_read-shorter io bytes e rest h =
    let ((f, hash, behind), e1, h1) = >>=-eq-ok (frame_head io bytes) _ h in
    omega (arith, frame_head-shorter io bytes f hash behind e1, payload-shorter io f hash behind h1)

module _ {O S : Type 0} (codec : OpCodec O) (apply : S → O → Result S) where
  -- An error of the reader ends the loop: the end of the file as well as any other.
  stopped :
      (io : ReplayAnswers) (fuel : ℕ) (p : Progress S) (b : ℕ) (bytes : List ℕ) (code : Error)
      → frame_read io.reading (b ∷ bytes) ≡ err code
      → (r : Result (Progress S)) × (replay_loop codec apply io (suc fuel) p (b ∷ bytes) ≡ some r)
  unfolding replay_loop
  stopped io fuel p b bytes Error.nomem e = rw (replay_loop, e) (_, refl)
  stopped io fuel p b bytes Error.io e = rw (replay_loop, e) (_, refl)
  stopped io fuel p b bytes Error.parse e = rw (replay_loop, e) (_, refl)
  stopped io fuel p b bytes Error.config e = rw (replay_loop, e) (_, refl)
  stopped io fuel p b bytes Error.model e = rw (replay_loop, e) (_, refl)
  stopped io fuel p b bytes Error.not_found e = rw (replay_loop, e) (_, refl)
  stopped io fuel p b bytes Error.locked e = rw (replay_loop, e) (_, refl)
  stopped io fuel p b bytes Error.invalid e = rw (replay_loop, e) (_, refl)
  stopped io fuel p b bytes Error.busy e = rw (replay_loop, e) (_, refl)
  stopped io fuel p b bytes Error.timeout e = rw (replay_loop, e) (_, refl)
  stopped io fuel p b bytes Error.cancelled e = rw (replay_loop, e) (_, refl)
  stopped io fuel p b bytes Error.limit e = rw (replay_loop, e) (_, refl)
  stopped io fuel p b bytes Error.unsupported e = rw (replay_loop, e) (_, refl)

  no_size :
      (io : ReplayAnswers) (s : S) (file : List ℕ) (code : Error)
      → io.size ≡ err code
      → (r : Result (S × ℕ) × List ℕ) × (journal_replay codec apply io s file ≡ some r)
  unfolding journal_replay
  no_size io s file Error.nomem e = rw (journal_replay, e) (_, refl)
  no_size io s file Error.io e = rw (journal_replay, e) (_, refl)
  no_size io s file Error.parse e = rw (journal_replay, e) (_, refl)
  no_size io s file Error.config e = rw (journal_replay, e) (_, refl)
  no_size io s file Error.model e = rw (journal_replay, e) (_, refl)
  no_size io s file Error.not_found e = rw (journal_replay, e) (_, refl)
  no_size io s file Error.locked e = rw (journal_replay, e) (_, refl)
  no_size io s file Error.invalid e = rw (journal_replay, e) (_, refl)
  no_size io s file Error.busy e = rw (journal_replay, e) (_, refl)
  no_size io s file Error.timeout e = rw (journal_replay, e) (_, refl)
  no_size io s file Error.cancelled e = rw (journal_replay, e) (_, refl)
  no_size io s file Error.limit e = rw (journal_replay, e) (_, refl)
  no_size io s file Error.unsupported e = rw (journal_replay, e) (_, refl)

  -- As many rounds as there are bytes end the loop, since each frame that is read takes some.
  replay_loop_ends :
      (io : ReplayAnswers) (fuel : ℕ) (p : Progress S) (bytes : List ℕ)
      → length bytes ≤ fuel
      → (r : Result (Progress S)) × (replay_loop codec apply io fuel p bytes ≡ some r)
  unfolding replay_loop
  replay_loop_ends io zero p [] h = (ok p, refl)
  replay_loop_ends io (suc fuel) p [] h = (ok p, refl)
  replay_loop_ends io zero p (b ∷ bytes) h = absurd (omega arith)
  replay_loop_ends io (suc fuel) p (b ∷ bytes) h =
      elim (Result-cases (frame_read io.reading (b ∷ bytes))) [
        | inl (code, e) ↦ stopped io fuel p b bytes code e
        | inr ((event, rest), e) ↦
            let less : length rest < length (b ∷ bytes) =
              frame_read-shorter io.reading (b ∷ bytes) event rest e in
            elim (Result-cases (replay_next codec apply io p event)) [
              | inl (code, f) ↦ rw (replay_loop, e, f) (_, refl)
              | inr (s, f) ↦ rw (replay_loop, e, f) (replay_loop_ends io fuel _ rest (omega arith))
            ]
      ]

  -- A replay ends for every file, whole, torn or damaged, whatever the system answers and however the
  -- operations are read and applied: as many rounds of its loop as the file has bytes are enough.
  pub replay_ends :
      (io : ReplayAnswers) (s : S) (file : List ℕ)
      → (r : Result (S × ℕ) × List ℕ) × (journal_replay codec apply io s file ≡ some r)
  unfolding journal_replay
  replay_ends io s file =
      let (r, e) =
        replay_loop_ends io (length file) (record { store = s; count = 0; good = 0; torn = false })
          file (omega arith) in
      elim (Result-cases io.size) [
        | inl (code, none_there) ↦ no_size io s file code none_there
        | inr (size, known) ↦ elim (Bool-cases (ltb log_bytes (length file))) [
          | inl large ↦ rw (journal_replay, known, large) (_, refl)
          | inr fits ↦ elim (Bool-cases io.opened) [
            | inr shut ↦ rw (journal_replay, known, fits, shut) (_, refl)
            | inl opened ↦ rw (journal_replay, known, fits, e, opened) (_, refl)
          ]
        ]
      ]
