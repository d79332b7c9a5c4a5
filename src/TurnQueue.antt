-- ===== src/TurnQueue.antt =====
-- The bounded FIFO of turns that wait for curation: src/turn_queue.c, and `take_turns`,
-- `restore_turns` and `drop_all_turns` of src/curator.c. The state is what `ev_mu` guards; each
-- function is one critical section, but for `asper_enqueue_turn`, which looks at the room before it
-- reads the object and again when it writes. A batch that a worker holds is a list of its own.
pub mod Bounds
pub mod Order
pub mod Enqueue
use asterism_asper.Base.{
  ℕ, zero, suc, ◌+◌, ◌-◌, ◌*◌, ◌%◌, ◌^◌, Bool, true, false, not, ◌&&◌, ◌||◌, List, [], ◌∷◌, ◌++◌,
  Option, none, some, ltb, leb, ◌==◌, if◌then◌else◌, length, take, drop, Result, ok, err, Error,
  ◌>>=◌, ◌>>◌, fail_if,
}
use asterism_asper.Base.Int.{ℤ, pos, negsuc}
use asterism_asper.Base.Text.{str_eq, truncated, codes}
use asterism_asper.Record.{Evidence, zero_evidence}
use asterism_asper.Util.Strings.{str_blank}
use asterism_asper.Util.Utf8.{utf8_count}
use asterism_asper.Uuid.{uuid_valid}

pub data Role : Type 0 where
  user assistant other : Role

-- `asper_turn`. A null `text` marks a slot whose text has been handed back.
pub record Turn (D : Type 0) : Type 0 where
  pub role : Role
  pub text : Option (List ℕ)
  pub at : ℤ
  pub scope : List ℕ
  pub project : List ℕ
  pub evidence : Evidence D
  pub source_id : List ℕ

abbrev pub queue_events : ℕ
queue_events = 4096

abbrev pub queue_bytes : ℕ
queue_bytes = 32 * 1024 * 1024

abbrev pub curation_batch_max : ℕ
curation_batch_max = 256

-- The fields of `asper_ctx` behind `ev_mu`, and the two settings that bound them.
pub record Queue (D : Type 0) : Type 0 where
  pub event_queue_max : ℤ
  pub turn_batch : ℤ
  pub turns : List (Turn D)
  pub turns_cap : ℕ
  pub turns_bytes : ℕ
  pub turns_inflight : ℕ
  pub turns_inflight_bytes : ℕ
  pub last_turn_at : ℤ

-- A difference and a sum of `size_t`.
abbrev pub sub64 : ℕ → ℕ → ℕ
sub64 a b = (a + 2 ^ 64 - b) % 2 ^ 64

abbrev pub add64 : ℕ → ℕ → ℕ
add64 a b = (a + b) % 2 ^ 64

abbrev pub min_of : ℕ → ℕ → ℕ
min_of a b = if ltb b a then b else a

-- `asper_turn_queue_limit`.
abbrev pub clamp_limit : ℤ → ℕ
clamp_limit (pos n) = if ltb n 1 then 1 else min_of n queue_events
clamp_limit (negsuc n) = 1

module _ {D : Type 0} where
  abbrev pub queue_limit : Queue D → ℕ
  queue_limit q = clamp_limit q.event_queue_max

  -- `strlen(text) + 1`, and 0 for a null text.
  abbrev pub turn_bytes : Turn D → ℕ
  turn_bytes t = elim t.text [ none ↦ 0 | some s ↦ length s + 1 ]

  -- The test of `room_for` and of `asper_enqueue_turn`.
  unfoldable pub has_room : Queue D → ℕ → Bool
  has_room q bytes =
      ltb (add64 (length q.turns) q.turns_inflight) (queue_limit q)
      && leb bytes (sub64 (sub64 queue_bytes q.turns_bytes) q.turns_inflight_bytes)

  -- `asper_turn_queue_room`.
  pub queue_room : Queue D → Bool
  queue_room q = has_room q 1

  -- One round of `asper_turn_queue_release`.
  abbrev pub release_one : Turn D → Queue D → Queue D
  release_one t q = elim t.text [
    | none ↦ q
    | some s ↦ record q {
      turns_inflight = sub64 q.turns_inflight 1;
      turns_inflight_bytes = sub64 q.turns_inflight_bytes (length s + 1);
    }
  ]

  pub queue_release : List (Turn D) → Queue D → Queue D
  queue_release [] q = q
  queue_release (t ∷ ts) q = queue_release ts (release_one t q)

  -- The queue with a turn written behind the others.
  abbrev pub pushed : Turn D → ℕ → ℕ → Queue D → Queue D
  pushed t bytes cap q = record q {
    turns = q.turns ++ t ∷ [];
    turns_cap = cap;
    turns_bytes = add64 q.turns_bytes bytes;
    last_turn_at = t.at;
  }

  abbrev pub grown_cap : Queue D → ℕ
  grown_cap q = min_of (if q.turns_cap == 0 then 16 else q.turns_cap * 2) queue_events

  -- The last part of `asper_enqueue_turn`, under the lock. `granted` is what `realloc` answers.
  unfoldable pub push_turn : Bool → Turn D → ℕ → Queue D → Result (Queue D)
  push_turn granted t bytes q =
      if not (has_room q bytes)
      then err Error.busy
      else if add64 (length q.turns) q.turns_inflight == q.turns_cap
      then (if granted then ok (pushed t bytes (grown_cap q) q) else err Error.nomem)
      else ok (pushed t bytes q.turns_cap q)

  -- `take`: how many turns a batch may hold, before turns of other conversations cut it.
  abbrev pub batch_size : Bool → Queue D → ℕ
  batch_size force q =
      let n = length q.turns in
      let wanted : ℕ = elim q.turn_batch [
        | negsuc b ↦ n
        | pos b ↦ if not force && ltb 0 b && ltb b n then b else n
      ] in
      min_of wanted curation_batch_max

  -- Whether two turns belong to one conversation, workspace and revision.
  pub same_run : Turn D → Turn D → Bool
  same_run a b =
      str_eq a.scope b.scope
      && str_eq a.project b.project
      && str_eq a.evidence.workspace b.evidence.workspace
      && str_eq a.evidence.commit b.evidence.commit

  -- The loop that stops at the first turn unlike `first`: how many of the next `n` go along.
  unfoldable pub run_length : Turn D → ℕ → List (Turn D) → ℕ
  run_length first zero ts = 0
  run_length first (suc n) [] = 0
  run_length first (suc n) (t ∷ ts) = if same_run first t then suc (run_length first n ts) else 0

  unfoldable pub batch_count : ℕ → List (Turn D) → ℕ
  batch_count zero ts = 0
  batch_count (suc n) [] = 0
  batch_count (suc n) (t ∷ ts) = suc (run_length t n ts)

  -- The byte counters of a batch that goes into flight, and of one that comes back.
  unfoldable pub bytes_out : List (Turn D) → Queue D → Queue D
  bytes_out [] q = q
  bytes_out (t ∷ ts) q = bytes_out ts (record q {
    turns_bytes = sub64 q.turns_bytes (turn_bytes t);
    turns_inflight_bytes = add64 q.turns_inflight_bytes (turn_bytes t);
  })

  unfoldable pub bytes_back : List (Turn D) → Queue D → Queue D
  bytes_back [] q = q
  bytes_back (t ∷ ts) q = bytes_back ts (record q {
    turns_bytes = add64 q.turns_bytes (turn_bytes t);
    turns_inflight_bytes = sub64 q.turns_inflight_bytes (turn_bytes t);
  })

  -- `take_turns`: the batch and the queue without it. `granted` is what `malloc` answers.
  unfoldable pub take_turns : Bool → Bool → Queue D → Result (List (Turn D) × Queue D)
  take_turns granted force q =
      let n = batch_count (batch_size force q) q.turns in
      let batch = take n q.turns in
      let q' = bytes_out batch q in
      if batch_size force q == 0
      then ok ([], q)
      else if granted
      then ok
          (batch, record q' { turns = drop n q.turns; turns_inflight = add64 q.turns_inflight n })
      else err Error.nomem

  -- `restore_turns`: the batch goes back to the head, unless its slots are gone.
  unfoldable pub restore_turns : List (Turn D) → Queue D → Option (Queue D)
  restore_turns [] q = some q
  restore_turns (t ∷ ts) q =
      let n = length (t ∷ ts) in
      let room = sub64 q.turns_cap (length q.turns) in
      if ltb q.turns_inflight n || ltb q.turns_cap (length q.turns) || ltb room n
      then none
      else some (
          bytes_back (t ∷ ts)
            (record q { turns = (t ∷ ts) ++ q.turns; turns_inflight = sub64 q.turns_inflight n }))

  -- `drop_all_turns`: how many were dropped, and the empty queue.
  pub drop_all_turns : Queue D → ℕ × Queue D
  drop_all_turns q = (length q.turns, record q { turns = []; turns_bytes = 0 })

-- The xCDN document of an object that is a single "turn" value: whether the value is an object, and
-- its members by name, where `none` is a value other than a string.
pub record TurnDocument : Type 0 where
  pub is_object : Bool
  pub member : List ℕ → Option (Option (List ℕ))

-- One round of the loop over the three keys: a string member that fits its buffer is copied.
pub copy_member : TurnDocument → List ℕ → ℕ → List ℕ → Result (List ℕ)
copy_member doc key size old = elim (doc.member key) [
  | none ↦ ok old
  | some none ↦ err Error.parse
  | some (some s) ↦ if leb size (length s) then err Error.parse else ok s
]

-- What `asper_enqueue_turn` calls outside the queue: the object store, and the xCDN parser with the
-- test for a single value tagged "turn".
pub record Outside : Type 0 where
  pub object_read : List ℕ → Result (List ℕ)
  pub parse_turn : List ℕ → Option TurnDocument

-- The tests of the role and of the encoding.
abbrev pub is_other : Role → Bool
is_other Role.other = true
is_other _ = false

abbrev pub is_malformed : List ℕ → Bool
is_malformed s = elim (utf8_count s) [ none ↦ true | some n ↦ false ]

-- The three members that a turn takes from its object.
pub document_meta : {D : Type 0} → TurnDocument → Turn D → Result (Turn D)
document_meta doc meta = do
  fail_if (not doc.is_object) Error.parse
  let e = meta.evidence
  w ← copy_member doc (codes "workspace") 1024 e.workspace
  c ← copy_member doc (codes "commit") 65 e.commit
  p ← copy_member doc (codes "project") 65 meta.project
  ok (record meta { project = p; evidence = record e { workspace = w; commit = c } })

module _ {D : Type 0} (outside : Outside) where
  -- The metadata of a turn from its object.
  unfoldable pub object_meta : Turn D → List ℕ → Result (Turn D)
  object_meta meta object_ref = if length object_ref == 0 then ok meta else do
    text ← outside.object_read object_ref
    elim (outside.parse_turn text) [ none ↦ ok meta | some doc ↦ document_meta doc meta ]

  -- `asper_enqueue_turn`. `copied` and `granted` are what `asper_strdup` and `realloc` answer, and
  -- `z` is the double of zero bits. `seen` is the queue at the first look at the room, `q` the one
  -- at the second. A null text is `none`, a null scope or reference is empty.
  unfoldable pub enqueue_turn :
      D
      → Bool
      → Bool
      → Role
      → Option (List ℕ)
      → ℤ
      → List ℕ
      → List ℕ
      → List ℕ
      → Queue D
      → Queue D
      → Result (Queue D)
  enqueue_turn z copied granted role text now source_id scope object_ref seen q =
      let given : List ℕ = elim text [ none ↦ [] | some s ↦ s ] in
      let bytes = length given + 1 in
      let meta : Turn D = record {
        role = role;
        text = some given;
        at = now;
        scope = truncated 65 scope;
        project = [];
        evidence = record (zero_evidence z) {
          observed_at = now;
          provenance = truncated 256 (codes "scope:" ++ truncated 65 scope);
        };
        source_id = source_id;
      } in
      do
        fail_if (is_other role) Error.invalid
        fail_if (str_blank text) Error.invalid
        fail_if (is_malformed given) Error.invalid
        fail_if (not (uuid_valid source_id)) Error.invalid
        fail_if (ltb queue_bytes bytes) Error.limit
        fail_if (not (has_room seen bytes)) Error.busy
        turn ← object_meta meta object_ref
        fail_if (not copied) Error.nomem
        push_turn granted turn bytes q
