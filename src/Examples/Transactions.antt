-- ===== src/Examples/Transactions.antt =====
-- A compaction that stopped halfway, and its recovery.
use asterism_asper.Base.{
  ℕ, zero, suc, ◌*◌, ◌+◌, ◌≤◌, ◌≡◌, ◌≢◌, refl, sym, ap, ◌∙◌, ltb, Bool, true, false, ◌&&◌, List, [],
  ◌∷◌, ◌++◌, none, some, if◌then◌else◌, length, replicate, arith, inl, inr, ok, Error, IsText,
  IsBytes,
}
use asterism_asper.Base.Int.{pos}
use asterism_asper.Base.Text.{codes, str_eq}
use mathlib.Core.List.{append-nil}
use asterism_asper.Sha256.{sha256}
use asterism_asper.Sha256.Tests.{sha256_abc}
use asterism_asper.Uuid.{uuid_v4, hex_char, is_some}
use asterism_asper.Uuid.RoundTrip.{uuid_v4-valid}
use asterism_asper.Util.Strings.{lower_hex_digits}
use asterism_asper.Util.Utf8.{
  utf8_count, utf8_loop, utf8_next, rejected, continuation, lead_bits, sequence_length,
}
use asterism_asper.EventFrame.{Event, EventKind, hex_digest, frame_bytes}
use asterism_asper.EventFrame.Read.{Reading, frame_read, object_accepted}
use asterism_asper.EventFrame.RoundTrip.{IsEvent, frame_read-frame_bytes}
use asterism_asper.Journal.Frames.{length-frame_bytes}
use asterism_asper.Transaction.{
  Disk, Reply, Entry, marker, relative_valid, parse, parse_loop, split_line, line_entry, is_listed,
  checked_read,
}
use asterism_asper.Transaction.Compact.{Recovering, marker_rows, compact_recover}
use asterism_asper.Transaction.Recover.{IsPending, IsDone}
use asterism_asper.Transaction.Retry.{IsGood, recover_all, recovery_ends}

abbrev identity : List ℕ
identity = codes "identity.xcdn"

abbrev context : List ℕ
context = codes "context.xcdn"

abbrev abc_hash : List ℕ
abc_hash = codes "ba7816bf8f01cfea414140de5dae2223b00361a396177a9cb410ff61f20015ad"

abc_hash_lem : hex_digest (sha256 (codes "abc")) ≡ abc_hash
unfolding hex_digest hex_char
abc_hash_lem = ap hex_digest sha256_abc

-- One file that existed, and one that did not.
abbrev two_rows : List Entry
two_rows =
    record { rel = identity; hash = abc_hash; existed = true }
    ∷ record { rel = context; hash = []; existed = false }
    ∷ []

abbrev marker_text : List ℕ
marker_text =
    codes "E " ++ (abc_hash ++ 0x20 ∷ (identity ++ 0x0a ∷ codes "M - context.xcdn")) ++ 0x0a ∷ []

parsed : parse marker_text ≡ ok two_rows
unfolding parse parse_loop split_line line_entry relative_valid is_listed lower_hex_digits str_eq
parsed = refl

all_char : List ℕ → Bool
all_char [] = true
all_char (c ∷ s) = ltb 0 c && ltb c 256 && all_char s

all_char-IsText : (s : List ℕ) → all_char s ≡ true → IsText s
unfolding all_char
all_char-IsText [] e = tt
all_char-IsText (c ∷ s) e =
    ((ground (arith, e), ground (arith, e)), all_char-IsText s (ground (arith, e)))

marker_text-IsText : IsText marker_text
unfolding all_char
marker_text-IsText = all_char-IsText marker_text refl

marker_text_utf8 : is_some (utf8_count marker_text) ≡ true
unfolding utf8_count utf8_loop utf8_next rejected continuation lead_bits sequence_length
marker_text_utf8 = refl

abbrev marker_event : Event
marker_event = record {
  id = uuid_v4 (replicate 16 9);
  sequence = 1;
  at = pos 0;
  kind = EventKind.diagnostic;
  text = marker_text;
  object_ref = [];
  pinned = pos 0;
}

nines : (n : ℕ) → IsBytes (replicate n 9)
nines zero = tt
nines (suc n) = (omega arith, nines n)

marker_event-IsEvent : IsEvent marker_event
unfolding object_accepted
marker_event-IsEvent = record {
  sizes = record {
    sequence_pos = omega arith;
    sequence_small = omega arith;
    at_small = omega arith;
    pinned_flag = (0, omega arith, refl);
    id_valid = uuid_v4-valid (replicate 16 9) (nines 16) refl;
    object_size = refl;
    text_size = omega arith;
  };
  object = refl;
  text = marker_text-IsText;
  utf8 = marker_text_utf8;
}

abbrev good_reading : Reading
good_reading = record { failed = false; granted = true }

small_file : (n : ℕ) → n ≤ 1000 → ltb (1024 * 1024 + 512) n ≡ false
small_file n h = ground arith

read_back : frame_read good_reading (frame_bytes marker_event) ≡ ok (marker_event, [])
read_back =
    ap (frame_read good_reading) (sym (append-nil (frame_bytes marker_event)))
    ∙ frame_read-frame_bytes good_reading marker_event [] marker_event-IsEvent refl

listed : marker_rows good_reading (some (frame_bytes marker_event)) ≡ ok two_rows
unfolding marker_rows checked_read
listed =
    let fits : ltb (1024 * 1024 + 512) (length (frame_bytes marker_event)) ≡ false =
      small_file (length (frame_bytes marker_event))
        (omega (arith, (length-frame_bytes marker_event marker_event-IsEvent).1)) in
    rw (marker_rows, checked_read, fits, read_back, parsed) refl

-- What the store held, and the disk in the middle of the transaction.
abbrev before : Disk
before = λ q. if str_eq q identity then some (codes "abc") else none

abbrev halfway : Disk
halfway = λ q.
    if str_eq q marker
    then some (frame_bytes marker_event)
    else if str_eq q identity
    then some (codes "ab")
    else if str_eq q (codes "identity.xcdn.compact.bak")
    then some (codes "abc")
    else if str_eq q context
    then some (codes "new")
    else none

abbrev all_done : Recovering
all_done = record {
  reading = good_reading;
  compared = λ rel. Reply.done;
  restored = λ rel. Reply.done;
  unmarked = Reply.done;
  cleaned = λ rel. Reply.done;
}

-- A recovery whose second entry fails.
abbrev half_done : Recovering
half_done = record all_done {
  restored = λ rel. if str_eq rel context then Reply.refused Error.io else Reply.done;
}

all_done-IsGood : IsGood all_done
all_done-IsGood = record { compared = λ rel. refl; restored = λ rel. refl; unmarked = refl }

two_names : context ≢ identity
unfolding str_eq
two_names e = let differ : true ≡ false = ap (str_eq context) e in cc

halfway-IsPending : IsPending before good_reading two_rows halfway
unfolding relative_valid str_eq
halfway-IsPending = record {
  bytes = frame_bytes marker_event;
  here = refl;
  listed = listed;
  named = (refl, (two_names, tt), (refl, tt, tt));
  kept = (inl (refl, (codes "abc", refl, refl, omega arith, abc_hash_lem)), (inr (refl, refl), tt));
}

recovery_ends_example :
    ((compact_recover all_done (recover_all (half_done ∷ []) halfway)).0 ≡ ok tt)
    × IsDone before two_rows (compact_recover all_done (recover_all (half_done ∷ []) halfway)).1
recovery_ends_example =
    recovery_ends before (half_done ∷ []) all_done two_rows halfway (refl, tt) all_done-IsGood
      halfway-IsPending
