-- ===== src/Journal/Frames.antt =====
-- What a journal holds: the frames of its operations, for src/journal.c.
use mathlib.Core.List.{append_assoc}
use asterism_asper.Base.{
  take, zero, ℕ, suc, ◌+◌, ◌≤◌, ◌<◌, ◌≡◌, refl, sym, ap, ◌∙◌, List, [], ◌∷◌, ◌++◌, length,
  length-append, arith, ok, subst,
}
use asterism_asper.Base.Int.{pos}
use asterism_asper.EventFrame.{
  Event, EventKind, frame_bytes, frame_line, own_prefix, payload_digest,
}
use asterism_asper.EventFrame.Head.{frame_line-IsPlain, own_hash, length-own_hash}
use asterism_asper.EventFrame.RoundTrip.{
  IsEvent, own_line, body, payload_digest-hash, frame_bytes-body,
}
use asterism_asper.Journal.{OpCodec}

-- The frame `e` of the operation `op`, with `n` operations before it.
pub record IsEntry {O : Type 0} (codec : OpCodec O) (n : ℕ) (op : O) (e : Event) : Type 0 where
  pub event : IsEvent e
  pub sequence : e.sequence ≡ n + 1
  pub kind : e.kind ≡ EventKind.diagnostic
  pub pinned : e.pinned ≡ pos 0
  pub object : e.object_ref ≡ []
  pub text : codec.serialize op ≡ ok e.text
  pub at : e.at ≡ codec.at op

-- The events of a list of operations, with `n` operations before them.
abbrev pub IsLog : {O : Type 0} → OpCodec O → ℕ → List O → List Event → Type 0
IsLog codec n [] [] = Unit
IsLog codec n [] (e ∷ es) = ⊥
IsLog codec n (op ∷ ops) [] = ⊥
IsLog codec n (op ∷ ops) (e ∷ es) = IsEntry codec n op e × IsLog codec (n + 1) ops es

abbrev pub all_frames : List Event → List ℕ
all_frames [] = []
all_frames (e ∷ es) = frame_bytes e ++ all_frames es

pub all_frames-append :
    (es fs : List Event) → all_frames (es ++ fs) ≡ all_frames es ++ all_frames fs
all_frames-append [] fs = refl
all_frames-append (e ∷ es) fs =
    ap (λ l. frame_bytes e ++ l) (all_frames-append es fs)
    ∙ sym (append_assoc (frame_bytes e) (all_frames es) (all_frames fs))

-- The first frames are no longer than all of them.
pub length-take_frames :
    (n : ℕ) (es : List Event) → length (all_frames (take n es)) ≤ length (all_frames es)
length-take_frames zero es = omega arith
length-take_frames (suc n) [] = omega arith
length-take_frames (suc n) (e ∷ es) = omega (
  arith,
  length-take_frames n es,
  length-append (frame_bytes e) (all_frames es),
  length-append (frame_bytes e) (all_frames (take n es)),
)

pub IsLog-append :
    {O : Type 0} (codec : OpCodec O) (n : ℕ) (ops : List O) (es : List Event) (op : O) (e : Event)
    → IsLog codec n ops es
    → IsEntry codec (n + length ops) op e
    → IsLog codec n (ops ++ op ∷ []) (es ++ e ∷ [])
IsLog-append codec n [] [] op e l k = (subst (λ m. IsEntry codec m op e) (omega arith) k, tt)
IsLog-append codec n [] (f ∷ es) op e l k = absurd l
IsLog-append codec n (q ∷ ops) [] op e l k = absurd l
IsLog-append codec n (q ∷ ops) (f ∷ es) op e (h, l) k = (
  h,
  IsLog-append codec (n + 1) ops es op e l (subst (λ m. IsEntry codec m op e) (omega arith) k),
)

pub length-IsLog :
    {O : Type 0} (codec : OpCodec O) (n : ℕ) (ops : List O) (es : List Event)
    → IsLog codec n ops es
    → length ops ≡ length es
length-IsLog codec n [] [] l = refl
length-IsLog codec n [] (e ∷ es) l = absurd l
length-IsLog codec n (op ∷ ops) [] l = absurd l
length-IsLog codec n (op ∷ ops) (e ∷ es) (h, l) = ap suc (length-IsLog codec (n + 1) ops es l)

-- A frame has some bytes, and at most 512 more than its text where it has no object reference.
pub length-frame_bytes :
    (e : Event)
    → IsEvent e
    → (length e.object_ref < length (frame_bytes e))
      × (length (frame_bytes e) ≤ length e.text + length e.object_ref + 512)
length-frame_bytes e w =
    let (plain, size) = payload_digest-hash (own_prefix e) e in
    let (line, short) =
      frame_line-IsPlain e (length e.object_ref) (length e.text) (payload_digest (own_prefix e) e)
        w.sizes plain size in
    let total : length (frame_bytes e)
        ≡ length (own_line e) + suc (length e.object_ref + (length e.text + 1)) =
      ap (λ b. length b) (frame_bytes-body e)
      ∙ omega (
        arith,
        length-append (own_line e) (0x0a ∷ body e []),
        length-append e.object_ref (e.text ++ 0x0a ∷ []),
        length-append e.text (0x0a ∷ []),
      ) in
    (omega (arith, total), omega (arith, total, short))

-- The two hashes stand in every frame.
pub long-frame_bytes : (e : Event) → 130 < length (frame_bytes e)
unfolding frame_line
long-frame_bytes e =
    let own = own_hash e (length e.object_ref) (length e.text) in
    let hash = payload_digest (own_prefix e) e in
    omega (
      arith,
      ap (λ b. length b) (frame_bytes-body e),
      length-append (own_line e) (0x0a ∷ body e []),
      length-append (own_prefix e) (0x20 ∷ (own ++ 0x20 ∷ hash)),
      length-append own (0x20 ∷ hash),
      length-own_hash e (length e.object_ref) (length e.text),
      (payload_digest-hash (own_prefix e) e).1,
    )

pub length-all_frames :
    {O : Type 0} (codec : OpCodec O) (n : ℕ) (ops : List O) (es : List Event)
    → IsLog codec n ops es
    → length es ≤ length (all_frames es)
length-all_frames codec n [] [] l = omega arith
length-all_frames codec n [] (e ∷ es) l = absurd l
length-all_frames codec n (op ∷ ops) [] l = absurd l
length-all_frames codec n (op ∷ ops) (e ∷ es) (h, l) = omega (
  arith,
  (length-frame_bytes e h.event).0,
  length-append (frame_bytes e) (all_frames es),
  length-all_frames codec (n + 1) ops es l,
)
