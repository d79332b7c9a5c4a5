-- ===== src/EventFrame/Read.antt =====
-- Reading a frame: `asper_event_frame_head` and `asper_event_frame_read` of src/event_frame.c.
use asterism_asper.Base.{
  ℕ, zero, suc, ◌+◌, ◌-◌, ◌^◌, Bool, true, false, ◌&&◌, ◌||◌, not, List, [], ◌∷◌, none, some, ltb,
  leb, ◌==◌, if◌then◌else◌, length, char_at, take, drop, Result, ok, err, Error, fail_if, ◌>>=◌,
  ◌>>◌,
}
use asterism_asper.Base.Int.{ℤ, pos}
use asterism_asper.Base.Text.{codes, str_eq, until_zero}
use asterism_asper.Json.Parse.{isdig, digit_run, decimal, strtoll}
use asterism_asper.Sha256.{sha256}
use asterism_asper.Uuid.{hex_val, is_some, uuid_valid}
use asterism_asper.Util.Utf8.{utf8_count}
use asterism_asper.EventFrame.{event_bytes, kind_from, Event, prefix, hex_digest, payload_digest}

-- `number`: an unsigned number up to `max` and the space behind it.
unfoldable pub number : List ℕ → ℕ → Result (ℕ × List ℕ)
number p max =
    let (digits, end) = digit_run p in
    if not (isdig (char_at p 0))
    then err Error.parse
    else if ltb (2 ^ 64 - 1) (decimal 0 digits)
        || ltb max (decimal 0 digits)
        || not (char_at end 0 == 0x20)
    then err Error.parse
    else ok (decimal 0 digits, drop 1 end)

-- The token of `strtoll`: a sign, and digits.
unfoldable pub signed_run : List ℕ → List ℕ × List ℕ
signed_run p =
    let (digits, end) = digit_run (drop 1 p) in
    if char_at p 0 == 0x2d then (0x2d ∷ digits, end) else digit_run p

-- The time of `asper_event_frame_head`.
unfoldable pub signed_number : List ℕ → Result (ℤ × List ℕ)
signed_number p =
    let (token, end) = signed_run p in
    if not (char_at p 0 == 0x2d) && not (isdig (char_at p 0))
    then err Error.parse
    else elim (strtoll token) [
      | none ↦ err Error.parse
      | some value ↦
          if ((char_at p 0 == 0x2d) && (length token == 1)) || not (char_at end 0 == 0x20)
          then err Error.parse
          else ok (value, drop 1 end)
    ]

-- What `FILE` answers when the bytes end, and whether `malloc` grants the text.
pub record Reading : Type 0 where
  pub failed : Bool
  pub granted : Bool

-- `fgets` of up to `n` bytes: the bytes, those behind them, and whether it met the end.
unfoldable pub gets : ℕ → List ℕ → List ℕ × List ℕ × Bool
gets zero bytes = ([], bytes, false)
gets (suc n) [] = ([], [], true)
gets (suc n) (b ∷ bytes) =
    let (line, rest, ended) = gets n bytes in
    if b == 0x0a then (b ∷ [], bytes, false) else (b ∷ line, rest, ended)

-- `strchr(line, '\n')`.
unfoldable pub has_newline : List ℕ → Bool
has_newline [] = false
has_newline (c ∷ s) = (c == 0x0a) || has_newline s

-- The line that `asper_event_frame_head` starts from.
unfoldable pub head_line : Reading → List ℕ → Result (List ℕ × List ℕ)
head_line io bytes =
    let (raw, rest, ended) = gets 351 bytes in
    let line = until_zero raw in
    if length raw == 0
    then err (if io.failed then Error.io else Error.not_found)
    else if has_newline line
    then ok (line, rest)
    else if ended && io.failed
    then err Error.io
    else if ended && str_eq (take 5 line) (take (length line) (codes "AEV2 "))
    then err Error.not_found
    else err Error.parse

-- What the fields of a line hold: the event without object reference and text, the two lengths, and
-- the text behind the fields.
pub record Fields : Type 0 where
  pub event : Event
  pub object_bytes : ℕ
  pub text_bytes : ℕ
  pub behind : List ℕ

unfoldable pub id_field : List ℕ → Result (List ℕ × List ℕ)
id_field p =
    if ltb (length p) 37 || not (char_at p 36 == 0x20)
    then err Error.parse
    else if not (uuid_valid (take 36 p))
    then err Error.parse
    else ok (take 36 p, drop 37 p)

unfoldable pub fields : List ℕ → Result Fields
fields p = do
  (sequence, p1) ← number p (2 ^ 64 - 1)
  fail_if (sequence == 0) Error.parse
  (at, p2) ← signed_number p1
  (kind, p3) ← number p2 7
  (pinned, p4) ← number p3 1
  (id, p5) ← id_field p4
  (obj, p6) ← number p5 71
  fail_if (not (obj == 0) && not (obj == 71)) Error.parse
  (text, p7) ← number p6 event_bytes
  ok (record {
    event = record {
      id = id;
      sequence = sequence;
      at = at;
      kind = kind_from kind;
      text = [];
      object_ref = [];
      pinned = pos pinned;
    };
    object_bytes = obj;
    text_bytes = text;
    behind = p7;
  })

-- The tests of `asper_event_frame_head` on a line whose fields are read.
unfoldable pub checked_line : List ℕ → Fields → Result (Fields × List ℕ)
checked_line line f =
    let p = f.behind in
    let head = prefix f.event f.object_bytes f.text_bytes in
    let len = length head in
    if not (length p == 130) || not (char_at p 64 == 0x20) || not (char_at p 129 == 0x0a)
    then err Error.parse
    else if leb 192 len
        || not (length line - length p + 129 == len + 130)
        || not (str_eq (take len line) head)
        || not (char_at line len == 0x20)
    then err Error.parse
    else if not (str_eq (hex_digest (sha256 head)) (take 64 p))
    then err Error.parse
    else ok (f, take 64 (drop 65 p))

-- `asper_event_frame_head`: the fields, the hash of the payload, and the bytes behind the line.
unfoldable pub frame_head : Reading → List ℕ → Result (Fields × List ℕ × List ℕ)
frame_head io bytes = do
  (line, rest) ← head_line io bytes
  fail_if (not (str_eq (take 5 line) (codes "AEV2 "))) Error.parse
  f ← fields (drop 5 line)
  (g, hash) ← checked_line line f
  ok (g, hash, rest)

-- `isxdigit` of each byte.
unfoldable pub all_hex : List ℕ → Bool
all_hex [] = true
all_hex (c ∷ s) = is_some (hex_val c) && all_hex s

unfoldable pub object_accepted : List ℕ → Bool
object_accepted object =
    (length object == 0) || (str_eq (take 7 object) (codes "sha256:") && all_hex (drop 7 object))

-- `memchr(text, 0, n)`.
unfoldable pub has_zero : List ℕ → Bool
has_zero [] = false
has_zero (c ∷ s) = (c == 0) || has_zero s

-- The end of the payload: the newline, the tests of the text and the hash.
unfoldable pub payload_end : Reading → Event → List ℕ → List ℕ → List ℕ → Result (Event × List ℕ)
payload_end io e head hash [] = err (if io.failed then Error.io else Error.not_found)
payload_end io e head hash (term ∷ rest) =
    if not (term == 0x0a) || has_zero e.text || not (is_some (utf8_count e.text))
    then err Error.parse
    else if not (str_eq hash (payload_digest head e))
    then err Error.parse
    else ok (e, rest)

-- `asper_event_frame_read` behind the head.
unfoldable pub payload : Reading → Fields → List ℕ → List ℕ → Result (Event × List ℕ)
payload io f hash bytes =
    let torn = if io.failed then Error.io else Error.not_found in
    let object = take f.object_bytes bytes in
    let behind = drop f.object_bytes bytes in
    let text = take f.text_bytes behind in
    if ltb (length object) f.object_bytes
    then err torn
    else if not (object_accepted object)
    then err Error.parse
    else if not io.granted
    then err Error.nomem
    else if ltb (length text) f.text_bytes
    then err torn
    else payload_end io (record f.event { object_ref = object; text = text })
        (prefix f.event f.object_bytes f.text_bytes) hash (drop f.text_bytes behind)

-- `asper_event_frame_read`, with the bytes behind the frame.
unfoldable pub frame_read : Reading → List ℕ → Result (Event × List ℕ)
frame_read io bytes = do (f, hash, rest) ← frame_head io bytes; payload io f hash rest
