-- ===== src/Journal/Cuts.antt =====
-- What a beginning of the frames of a journal holds, for the replay of src/journal.c.
use mathlib.Core.List.{append_assoc}
use asterism_asper.Base.{
  true, zero, suc, ◌-◌, ◌∷◌, Bool-cases, ltb, ℕ, ◌+◌, ◌≤◌, ◌<◌, ◌≡◌, refl, sym, ap, ◌∙◌, false,
  List, [], ◌++◌, inl, inr, length, length-append, arith, err, Error, take, take-nil, take-short,
  take-long,
}
use asterism_asper.EventFrame.{Event, frame_bytes}
use asterism_asper.EventFrame.Read.{Reading, frame_read, frame_head, head_line, gets}
use asterism_asper.EventFrame.Torn.{frame_read-torn}
use asterism_asper.Journal.{OpCodec}
use asterism_asper.Journal.Frames.{IsLog, all_frames}

frame_read-nil : (io : Reading) → io.failed ≡ false → frame_read io [] ≡ err Error.not_found
unfolding frame_read frame_head head_line gets
frame_read-nil io h = rw h refl

-- A cut in the first frame leaves none, and one behind it leaves those that it left before.
none_known :
    (k known : ℕ) (e : Event) (es : List Event)
    → k < length (frame_bytes e)
    → length (all_frames (take known (e ∷ es))) ≤ k
    → known ≤ 0
none_known k zero e es few h = omega arith
none_known k (suc known) e es few h =
    absurd (omega (arith, length-append (frame_bytes e) (all_frames (take known es))))

rest_known :
    (k known : ℕ) (e : Event) (es : List Event)
    → length (frame_bytes e) ≤ k
    → length (all_frames (take known (e ∷ es))) ≤ k
    → length (all_frames (take (known - 1) es)) ≤ k - length (frame_bytes e)
rest_known k zero e es enough h = omega arith
rest_known k (suc known) e es enough h =
    let less : suc known - 1 ≡ known = omega arith in
    omega (
      arith,
      length-append (frame_bytes e) (all_frames (take known es)),
      ap (λ n. length (all_frames (take n es))) less,
    )

module _ {O : Type 0} (codec : OpCodec O) where
  pub IsLog-take :
      (m n : ℕ) (ops : List O) (es : List Event)
      → IsLog codec n ops es
      → IsLog codec n (take m ops) (take m es)
  IsLog-take zero n ops es l = tt
  IsLog-take (suc m) n [] [] l = tt
  IsLog-take (suc m) n [] (e ∷ es) l = absurd l
  IsLog-take (suc m) n (op ∷ ops) [] l = absurd l
  IsLog-take (suc m) n (op ∷ ops) (e ∷ es) (h, l) = (h, IsLog-take m (n + 1) ops es l)

  -- A beginning of frames is some whole frames and a tail that counts as torn, and has all the
  -- frames that fit.
  abbrev pub IsCutAt : Reading → ℕ → ℕ → List Event → ℕ → List ℕ → Type 0
  IsCutAt io k known es m tail =
      (take k (all_frames es) ≡ all_frames (take m es) ++ tail)
      × (m ≤ length es)
      × (known ≤ m)
      × (frame_read io tail ≡ err Error.not_found)

  pub frames-take :
      (io : Reading) (k known n : ℕ) (ops : List O) (es : List Event)
      → io.failed ≡ false
      → io.granted ≡ true
      → IsLog codec n ops es
      → known ≤ length es
      → length (all_frames (take known es)) ≤ k
      → (m : ℕ) × (tail : List ℕ) × IsCutAt io k known es m tail
  frames-take io k known n [] [] f g l fits h =
      (0, [], (take-nil k, omega arith, omega arith, frame_read-nil io f))
  frames-take io k known n [] (e ∷ es) f g l fits h = absurd l
  frames-take io k known n (op ∷ ops) [] f g l fits h = absurd l
  frames-take io k known n (op ∷ ops) (e ∷ es) f g (w, l) fits h =
      elim (Bool-cases (ltb k (length (frame_bytes e)))) [
        | inl short ↦
            let few : k < length (frame_bytes e) = ground (arith, short) in
            (
              0,
              take k (frame_bytes e),
              (
                take-short k (frame_bytes e) (all_frames es) (omega (arith, few)),
                omega arith,
                none_known k known e es few h,
                frame_read-torn io e k w.event g f few,
              ),
            )
        | inr long ↦
            let enough : length (frame_bytes e) ≤ k = ground (arith, long) in
            let (m, tail, (cut, size, more, torn)) =
              frames-take io (k - length (frame_bytes e)) (known - 1) (n + 1) ops es f g l
                (omega (arith, fits)) (rest_known k known e es enough h) in
            (
              suc m,
              tail,
              (
                take-long (frame_bytes e) (all_frames es) k enough
                    ∙ ap (λ b. frame_bytes e ++ b) cut
                    ∙ sym (append_assoc (frame_bytes e) (all_frames (take m es)) tail),
                omega (arith, size),
                omega (arith, more),
                torn,
              ),
            )
      ]
