-- ===== src/EventFrame/RoundTrip.antt =====
-- The frames of src/event_frame.c, written and then read.
use mathlib.Core.List.{append_assoc}
use asterism_asper.Base.{
  ℕ, ◌≤◌, ◌<◌, ◌≡◌, refl, ap, ◌∙◌, true, false, ◌||◌, List, [], ◌∷◌, ◌++◌, none, some, ltb, leb,
  length, arith, take, drop, ok, err, Error, take-append, drop-append, All, IsText,
}
use asterism_asper.Base.Text.{str_eq_refl}
use asterism_asper.Sha256.{sha256_init, sha256_update}
use asterism_asper.Uuid.{is_some}
use asterism_asper.Util.Utf8.{utf8_count}
use asterism_asper.EventFrame.{
  Event, prefix, own_prefix, payload_digest, frame_line, frame_bytes, frame_write, event_bytes,
}
use asterism_asper.EventFrame.Read.{
  Reading, Fields, head_line, frame_head, object_accepted, has_zero, payload_end, payload,
  frame_read,
}
use asterism_asper.EventFrame.Line.{
  IsPlain, IsFields, hex_digest-IsPlain, length-hex_digest, sha256_final-IsBytes, length-prefix,
}
use asterism_asper.EventFrame.Head.{behind_fields, prefix-bare, frame_head-line, frame_head-err}
use asterism_asper.EventFrame.Fields.{read_fields}

-- An event that the format holds.
pub record IsEvent (e : Event) : Type 0 where
  pub sizes : IsFields e (length e.object_ref) (length e.text)
  pub object : object_accepted e.object_ref ≡ true
  pub text : IsText e.text
  pub utf8 : is_some (utf8_count e.text) ≡ true

pub has_zero-text : (s : List ℕ) → IsText s → has_zero s ≡ false
unfolding has_zero
has_zero-text [] h = refl
has_zero-text (c ∷ s) (p, h) = ground (arith, p, has_zero-text s h)

pub not_less : (n : ℕ) → ltb n n ≡ false
not_less n = ground arith

abbrev pub body : Event → List ℕ → List ℕ
body e rest = e.object_ref ++ (e.text ++ 0x0a ∷ rest)

abbrev pub own_fields : Event → List ℕ → Fields
own_fields e behind = read_fields e (length e.object_ref) (length e.text) behind

payload-steps :
    (io : Reading) (f : Fields) (hash bytes : List ℕ)
    → ltb (length (take f.object_bytes bytes)) f.object_bytes ≡ false
    → object_accepted (take f.object_bytes bytes) ≡ true
    → io.granted ≡ true
    → ltb (length (take f.text_bytes (drop f.object_bytes bytes))) f.text_bytes ≡ false
    → payload io f hash bytes
      ≡ payload_end io
          (record f.event {
            object_ref = take f.object_bytes bytes;
            text = take f.text_bytes (drop f.object_bytes bytes);
          })
          (prefix f.event f.object_bytes f.text_bytes)
          hash
          (drop f.text_bytes (drop f.object_bytes bytes))
unfolding payload
payload-steps io f hash bytes a b c d = rw (payload, a, b, c, d) refl

payload_end-body :
    (io : Reading) (e : Event) (rest : List ℕ)
    → IsEvent e
    → payload_end io e (own_prefix e) (payload_digest (own_prefix e) e) (0x0a ∷ rest) ≡ ok (e, rest)
unfolding payload_end
payload_end-body io e rest w =
    rw (payload_end, has_zero-text e.text w.text, w.utf8, str_eq_refl) refl

-- The payload of a frame, cut anywhere behind the object reference.
pub payload-object :
    (io : Reading) (e : Event) (behind bytes : List ℕ)
    → IsEvent e
    → io.granted ≡ true
    → ltb (length (take (length e.text) bytes)) (length e.text) ≡ false
    → payload io (own_fields e behind) (payload_digest (own_prefix e) e) (e.object_ref ++ bytes)
      ≡ payload_end io
          (record e { text = take (length e.text) bytes })
          (own_prefix e)
          (payload_digest (own_prefix e) e)
          (drop (length e.text) bytes)
payload-object io e behind bytes w g enough =
    let object : take (length e.object_ref) (e.object_ref ++ bytes) ≡ e.object_ref =
      take-append e.object_ref bytes in
    let cut : drop (length e.object_ref) (e.object_ref ++ bytes) ≡ bytes =
      drop-append e.object_ref bytes in
    payload-steps io (own_fields e behind) (payload_digest (own_prefix e) e) (e.object_ref ++ bytes)
      (rw object (not_less (length e.object_ref))) (rw object w.object) g (rw cut enough)
    ∙ rw (object, cut, prefix-bare e (length e.object_ref) (length e.text)) refl

payload-body :
    (io : Reading) (e : Event) (behind rest : List ℕ)
    → IsEvent e
    → io.granted ≡ true
    → payload io (own_fields e behind) (payload_digest (own_prefix e) e) (body e rest)
      ≡ ok (e, rest)
payload-body io e behind rest w g =
    let text : take (length e.text) (e.text ++ 0x0a ∷ rest) ≡ e.text =
      take-append e.text (0x0a ∷ rest) in
    payload-object io e behind (e.text ++ 0x0a ∷ rest) w g (rw text (not_less (length e.text)))
    ∙ rw (text, drop-append e.text (0x0a ∷ rest)) (payload_end-body io e rest w)

pub payload_digest-hash :
    (head : List ℕ) (e : Event)
    → All IsPlain (payload_digest head e) × (length (payload_digest head e) ≡ 64)
unfolding payload_digest
payload_digest-hash head e =
    let (bytes, size) =
      sha256_final-IsBytes
        (sha256_update (sha256_update (sha256_update sha256_init head) e.object_ref) e.text) in
    (hex_digest-IsPlain _ bytes, omega (arith, length-hex_digest _, size))

abbrev pub own_line : Event → List ℕ
own_line e = frame_line (own_prefix e) (payload_digest (own_prefix e) e)

pub head-own_line :
    (io : Reading) (e : Event) (rest : List ℕ)
    → IsEvent e
    → frame_head io (own_line e ++ 0x0a ∷ rest)
      ≡ ok (
        own_fields e (
            behind_fields e
              (length e.object_ref)
              (length e.text)
              (payload_digest (own_prefix e) e)),
        payload_digest (own_prefix e) e,
        rest,
      )
head-own_line io e rest w =
    let (plain, size) = payload_digest-hash (own_prefix e) e in
    frame_head-line io e (length e.object_ref) (length e.text) (payload_digest (own_prefix e) e)
      rest w.sizes plain size

pub frame_read-steps :
    (io : Reading) (bytes hash rest : List ℕ) (f : Fields)
    → frame_head io bytes ≡ ok (f, hash, rest)
    → frame_read io bytes ≡ payload io f hash rest
unfolding frame_read
frame_read-steps io bytes hash rest f e = rw (frame_read, e) refl

pub frame_bytes-append :
    (e : Event) (rest : List ℕ) → frame_bytes e ++ rest ≡ own_line e ++ 0x0a ∷ body e rest
unfolding frame_bytes
frame_bytes-append e rest = rw (frame_bytes, append_assoc, append_assoc, append_assoc) refl

pub frame_bytes-body : (e : Event) → frame_bytes e ≡ own_line e ++ 0x0a ∷ body e []
unfolding frame_bytes
frame_bytes-body e = refl

writable :
    (text head : ℕ)
    → text ≤ event_bytes
    → head < 192
    → (ltb event_bytes text || leb 192 head) ≡ false
writable text head h k = ground arith

-- An event of the format is written whole where the stream takes it, and as a part of its frame
-- where a call of the stream fails.
pub frame_write_lem :
    (e : Event)
    → IsEvent e
    → (frame_write none e ≡ (ok tt, frame_bytes e))
      × ((put : ℕ) → frame_write (some put) e ≡ (err Error.io, take put (frame_bytes e)))
unfolding frame_write
frame_write_lem e w =
    let fits =
      writable (length e.text) (length (own_prefix e)) w.sizes.text_size
        (length-prefix e (length e.object_ref) (length e.text) w.sizes) in
    (rw (frame_write, fits) refl, λ put. rw (frame_write, fits) refl)

pub frame_read-frame_bytes :
    (io : Reading) (e : Event) (rest : List ℕ)
    → IsEvent e
    → io.granted ≡ true
    → frame_read io (frame_bytes e ++ rest) ≡ ok (e, rest)
frame_read-frame_bytes io e rest w g =
    ap (frame_read io) (frame_bytes-append e rest)
    ∙ frame_read-steps io _ (payload_digest (own_prefix e) e) (body e rest) _
        (head-own_line io e (body e rest) w)
    ∙ payload-body io e _ rest w g

-- What is written of an event of the format to a stream that takes it is read back as that event,
-- whatever stands behind the frame, and the bytes behind it are left. Memory for the text is granted.
pub frame_read-frame_write :
    (io : Reading) (e : Event) (rest : List ℕ)
    → IsEvent e
    → io.granted ≡ true
    → (bytes : List ℕ) × (frame_write none e ≡ (ok tt, bytes))
      × (frame_read io (bytes ++ rest) ≡ ok (e, rest))
frame_read-frame_write io e rest w g =
    (frame_bytes e, (frame_write_lem e w).0, frame_read-frame_bytes io e rest w g)

pub frame_read-err :
    (io : Reading) (bytes : List ℕ) (code : Error)
    → head_line io bytes ≡ err code
    → frame_read io bytes ≡ err code
unfolding frame_read
frame_read-err io bytes code e = rw (frame_read, frame_head-err io bytes code e) refl
