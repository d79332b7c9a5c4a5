-- ===== src/EventFrame.antt =====
-- The frame of an event as it is written, src/event_frame.c: a line of fields with its own hash,
-- then the object reference, the text and a newline under a second hash.
pub mod Read
pub mod Numbers
pub mod Line
pub mod Fields
pub mod Head
pub mod RoundTrip
pub mod Torn
use asterism_asper.Base.{
  ℕ, zero, suc, ◌+◌, ◌-◌, ◌*◌, ◌^◌, Bool, true, false, ◌&&◌, ◌||◌, not, List, [], ◌∷◌, ◌++◌, Option,
  none, some, ltb, leb, ◌==◌, if◌then◌else◌, length, char_at, take, drop, bit_and, ◌>>>◌, Result,
  ok, err, Error, fail_if, ◌>>=◌, ◌>>◌,
}
use asterism_asper.Base.Int.{ℤ, pos}
use asterism_asper.Base.Text.{codes, str_eq, until_zero}
use asterism_asper.Json.Parse.{isdig, digit_run, decimal, strtoll}
use asterism_asper.Json.Write.{digits_before, print_int}
use asterism_asper.Sha256.{sha256_init, sha256_update, sha256_final, sha256}
use asterism_asper.Uuid.{hex_char, hex_val, is_some, uuid_valid}
use asterism_asper.Util.Utf8.{utf8_count}

-- `ASPER_EVENT_BYTES`.
abbrev pub event_bytes : ℕ
event_bytes = 16 * 1024 * 1024

-- `asper_event_kind`, with its numbers.
pub data EventKind : Type 0 where
  user assistant decision tool_call tool_result diagnostic checkpoint artifact : EventKind

abbrev pub kind_number : EventKind → ℕ
kind_number EventKind.user = 0
kind_number EventKind.assistant = 1
kind_number EventKind.decision = 2
kind_number EventKind.tool_call = 3
kind_number EventKind.tool_result = 4
kind_number EventKind.diagnostic = 5
kind_number EventKind.checkpoint = 6
kind_number EventKind.artifact = 7

-- `(asper_event_kind)value`, for a value up to `ASPER_EVENT_ARTIFACT`.
abbrev pub kind_from : ℕ → EventKind
kind_from value =
    if value == 0
    then EventKind.user
    else if value == 1
    then EventKind.assistant
    else if value == 2
    then EventKind.decision
    else if value == 3
    then EventKind.tool_call
    else if value == 4
    then EventKind.tool_result
    else if value == 5
    then EventKind.diagnostic
    else if value == 6
    then EventKind.checkpoint
    else EventKind.artifact

-- `asper_event`. A text is the list of its bytes.
pub record Event : Type 0 where
  pub id : List ℕ
  pub sequence : ℕ
  pub at : ℤ
  pub kind : EventKind
  pub text : List ℕ
  pub object_ref : List ℕ
  pub pinned : ℤ

-- `%llu` and `%zu`.
abbrev pub print_unsigned : ℕ → List ℕ
print_unsigned n = digits_before 20 n []

-- `prefix`, by what stands behind its first word.
unfoldable pub prefix_fields : Event → ℕ → ℕ → List ℕ
prefix_fields e obj text =
    print_unsigned e.sequence
    ++ 0x20
      ∷ (print_int e.at
          ++ 0x20
            ∷ (print_unsigned (kind_number e.kind)
                ++ 0x20
                  ∷ (print_int e.pinned
                      ++ 0x20
                        ∷ (e.id ++ 0x20 ∷ (print_unsigned obj ++ 0x20 ∷ print_unsigned text)))))

unfoldable pub prefix : Event → ℕ → ℕ → List ℕ
prefix e obj text = codes "AEV2 " ++ prefix_fields e obj text

unfoldable pub hex_digest : List ℕ → List ℕ
hex_digest [] = []
hex_digest (b ∷ bs) = hex_char (b >>> 4) ∷ hex_char (bit_and b 15) ∷ hex_digest bs

-- `digest`: the head, the object reference and the text.
unfoldable pub payload_digest : List ℕ → Event → List ℕ
payload_digest head e = hex_digest (
    sha256_final
      (sha256_update (sha256_update (sha256_update sha256_init head) e.object_ref) e.text))

abbrev pub own_prefix : Event → List ℕ
own_prefix e = prefix e (length e.object_ref) (length e.text)

-- The line of the frame without its newline, and all that `asper_event_frame_write` writes.
unfoldable pub frame_line : List ℕ → List ℕ → List ℕ
frame_line head hash = head ++ 0x20 ∷ (hex_digest (sha256 head) ++ 0x20 ∷ hash)

unfoldable pub frame_bytes : Event → List ℕ
frame_bytes e =
    frame_line (own_prefix e) (payload_digest (own_prefix e) e)
    ++ 0x0a ∷ (e.object_ref ++ (e.text ++ 0x0a ∷ []))

-- `asper_event_frame_write`, with the bytes that it puts out. The argument is what the calls of the
-- stream answer: `none` where they succeed, and where one fails the bytes put out by then.
unfoldable pub frame_write : Option ℕ → Event → Result (Unit {0}) × List ℕ
frame_write failure e =
    if ltb event_bytes (length e.text) || leb 192 (length (own_prefix e))
    then (err Error.invalid, [])
    else elim failure [
      | none ↦ (ok tt, frame_bytes e)
      | some put ↦ (err Error.io, take put (frame_bytes e))
    ]
