-- ===== src/Examples/Queues.antt =====
-- Two turns of one conversation, a queue that holds them, and its theorems at these.
use asterism_asper.Base.{
  ℕ, ◌≡◌, refl, true, false, List, [], ◌∷◌, none, some, ok, arith, err, Error,
}
use asterism_asper.Base.Int.{pos}
use asterism_asper.Base.Text.{codes}
use asterism_asper.Record.{zero_evidence}
use asterism_asper.Util.Strings.{str_blank, all_space, is_ascii_space}
use asterism_asper.Uuid.{uuid_valid, valid_loop, is_dash_at, hex_val}
use asterism_asper.Util.Utf8.{
  utf8_count, utf8_loop, utf8_next, rejected, continuation, lead_bits, sequence_length,
}
use asterism_asper.TurnQueue.{
  object_meta, Role, Turn, Queue, Outside, push_turn, take_turns, restore_turns, queue_release,
  enqueue_turn, bytes_out, bytes_back, has_room, batch_count, run_length,
}
use asterism_asper.TurnQueue.Bounds.{IsValid, restore-IsValid, release-IsValid}
use asterism_asper.TurnQueue.Order.{
  Step, Reach, take-IsBatchOf, restore-take, Reach-IsValid, IsBatchOf,
}
use asterism_asper.TurnQueue.Enqueue.{enqueue-IsValid}

abbrev pub said : List ℕ → Turn ℕ
said s = record {
  role = Role.user;
  text = some s;
  at = pos 5;
  scope = codes "chat";
  project = [];
  evidence = zero_evidence 0;
  source_id = [];
}

abbrev pub empty_queue : Queue ℕ
empty_queue = record {
  event_queue_max = pos 3;
  turn_batch = pos 2;
  turns = [];
  turns_cap = 0;
  turns_bytes = 0;
  turns_inflight = 0;
  turns_inflight_bytes = 0;
  last_turn_at = pos 0;
}

abbrev pub waiting : Queue ℕ
waiting = record empty_queue {
  turns = said (codes "hi") ∷ said (codes "you") ∷ [];
  turns_cap = 16;
  turns_bytes = 7;
}

abbrev pub half_out : Queue ℕ
half_out = record empty_queue {
  turns = said (codes "you") ∷ [];
  turns_cap = 16;
  turns_bytes = 4;
  turns_inflight = 1;
  turns_inflight_bytes = 3;
}

empty_queue-IsValid : IsValid empty_queue []
empty_queue-IsValid = record {
  counted = omega arith;
  slots = omega arith;
  cap_small = omega arith;
  inflight = refl;
  bytes = refl;
  inflight_bytes = refl;
  total = omega arith;
  texts = tt;
  flight_texts = tt;
}

waiting-IsValid : IsValid waiting []
waiting-IsValid = record {
  counted = omega arith;
  slots = omega arith;
  cap_small = omega arith;
  inflight = refl;
  bytes = refl;
  inflight_bytes = refl;
  total = omega arith;
  texts = (refl, (refl, tt));
  flight_texts = tt;
}

half_out-IsValid : IsValid half_out (said (codes "hi") ∷ [])
half_out-IsValid = record {
  counted = omega arith;
  slots = omega arith;
  cap_small = omega arith;
  inflight = refl;
  bytes = refl;
  inflight_bytes = refl;
  total = omega arith;
  texts = (refl, tt);
  flight_texts = (refl, tt);
}

abbrev hi : Turn ℕ
hi = said (codes "hi")

abbrev you : Turn ℕ
you = said (codes "you")

-- `half_out` with "ok" behind "you".
abbrev longer : Queue ℕ
longer = record half_out {
  turns = you ∷ said (codes "ok") ∷ [];
  turns_bytes = 7;
  last_turn_at = pos 5;
}

restore-IsValid_example :
    (q' : Queue ℕ) × (restore_turns (hi ∷ []) half_out ≡ some q')
    × IsValid q' []
    × (q'.turns ≡ hi ∷ you ∷ [])
restore-IsValid_example = restore-IsValid (hi ∷ []) [] half_out half_out-IsValid

release-IsValid_example :
    IsValid (queue_release (hi ∷ []) half_out) []
    × ((queue_release (hi ∷ []) half_out).turns ≡ you ∷ [])
release-IsValid_example = release-IsValid (hi ∷ []) [] half_out half_out-IsValid

take-IsBatchOf_example :
    (batch : List (Turn ℕ)) × (q' : Queue ℕ) × (take_turns true false waiting ≡ ok (batch, q'))
    × IsValid q' batch
    × IsBatchOf waiting batch q'
take-IsBatchOf_example = take-IsBatchOf false waiting waiting-IsValid

-- One turn at a time leaves the other waiting.
abbrev one_by_one : Queue ℕ
one_by_one = record waiting { turn_batch = pos 1 }

abbrev one_out : Queue ℕ
one_out = record half_out { turn_batch = pos 1 }

abbrev one_longer : Queue ℕ
one_longer = record longer { turn_batch = pos 1 }

one_by_one-IsValid : IsValid one_by_one []
one_by_one-IsValid = record {
  counted = omega arith;
  slots = omega arith;
  cap_small = omega arith;
  inflight = refl;
  bytes = refl;
  inflight_bytes = refl;
  total = omega arith;
  texts = (refl, (refl, tt));
  flight_texts = tt;
}

take-one_out : take_turns true false one_by_one ≡ ok (hi ∷ [], one_out)
unfolding take_turns batch_count run_length bytes_out
take-one_out = refl

push-one_longer : push_turn true (said (codes "ok")) 3 one_out ≡ ok one_longer
unfolding push_turn has_room
push-one_longer = refl

restore-take_example :
    (q₃ : Queue ℕ) × (restore_turns (hi ∷ []) one_longer ≡ some q₃)
    × (q₃.turns ≡ hi ∷ you ∷ said (codes "ok") ∷ [])
restore-take_example =
    restore-take false one_by_one (said (codes "ok")) one_by_one-IsValid refl (hi ∷ []) one_out
      one_longer take-one_out push-one_longer

-- A batch is taken and given back.
abbrev given_back : Queue ℕ
given_back = record one_by_one { turns_inflight = 0 }

restore-given_back : restore_turns (hi ∷ []) one_out ≡ some given_back
unfolding restore_turns bytes_back
restore-given_back = refl

taken_and_given : Reach one_by_one given_back []
taken_and_given =
    Reach.next (Reach.next (Reach.start refl) (Step.take_batch true false refl take-one_out))
      (Step.give_back [] (hi ∷ []) refl restore-given_back)

Reach-IsValid_example : IsValid given_back []
Reach-IsValid_example = Reach-IsValid one_by_one-IsValid taken_and_given

-- A producer without an object.
abbrev no_objects : Outside
no_objects = record { object_read = λ ref. err Error.not_found; parse_turn = λ text. none }

abbrev chat_id : List ℕ
chat_id = codes "0b0c8a5e-5b0a-4c55-9d3a-2f6f0a7b1c9d"

abbrev asked : Turn ℕ
asked = record {
  role = Role.user;
  text = some (codes "ok");
  at = pos 9;
  scope = codes "chat";
  project = [];
  evidence = record (zero_evidence 0) { observed_at = pos 9; provenance = codes "scope:chat" };
  source_id = chat_id;
}

abbrev asked_queue : Queue ℕ
asked_queue = record half_out { turns = you ∷ asked ∷ []; turns_bytes = 7; last_turn_at = pos 9 }

enqueue-asked :
    enqueue_turn no_objects 0 true true Role.user
      (some (codes "ok"))
      (pos 9)
      chat_id
      (codes "chat")
      []
      waiting
      half_out
    ≡ ok asked_queue
unfolding enqueue_turn str_blank all_space is_ascii_space uuid_valid valid_loop is_dash_at hex_val
    utf8_count utf8_loop utf8_next rejected continuation lead_bits sequence_length object_meta
    push_turn has_room
enqueue-asked = refl

enqueue-IsValid_example :
    IsValid asked_queue (hi ∷ [])
    × (t : Turn ℕ) × (t.text ≡ some (codes "ok"))
    × (asked_queue.turns ≡ you ∷ t ∷ [])
enqueue-IsValid_example =
    enqueue-IsValid no_objects 0 true true Role.user (codes "ok") (pos 9) chat_id (codes "chat") []
      waiting half_out asked_queue (hi ∷ []) half_out-IsValid enqueue-asked
