-- ===== src/TurnQueue/Bounds.antt =====
-- The counters of the turn queue never wrap, and its bounds include the turns in flight.
use asterism_asper.Base.{
  ℕ, ◌+◌, ◌≤◌, ◌<◌, ◌≡◌, refl, sym, ap, subst, ◌∙◌, Bool, true, false, List, [], ◌∷◌, ◌++◌, none,
  some, arith, length, take, drop, ok, length-append, take-append-drop, All, length-take,
  length-drop,
}
use asterism_asper.Base.Int.{ℤ, pos, negsuc}
use asterism_asper.TurnQueue.{
  Turn, Queue, queue_events, queue_bytes, sub64, add64, clamp_limit, queue_limit, turn_bytes,
  has_room, pushed, release_one, queue_release, push_turn, bytes_out, bytes_back, restore_turns,
  drop_all_turns,
}

pub limit_bounds : (n : ℤ) → (1 ≤ clamp_limit n) × (clamp_limit n ≤ queue_events)
limit_bounds (pos n) = ground arith
limit_bounds (negsuc n) = ground arith

module _ {D : Type 0} where
  abbrev pub sum_bytes : List (Turn D) → ℕ
  sum_bytes [] = 0
  sum_bytes (t ∷ ts) = turn_bytes t + sum_bytes ts

  abbrev pub has_text : Turn D → Bool
  has_text t = elim t.text [ none ↦ false | some s ↦ true ]

  abbrev pub WithText : List (Turn D) → Type 0
  WithText = All (λ t. has_text t ≡ true)

  -- The queue together with the turns `flight` that a worker holds.
  pub record IsValid (q : Queue D) (flight : List (Turn D)) : Type 0 where
    pub counted : length q.turns + length flight ≤ queue_limit q
    pub slots : length q.turns + length flight ≤ q.turns_cap
    pub cap_small : q.turns_cap ≤ queue_events
    pub inflight : q.turns_inflight ≡ length flight
    pub bytes : q.turns_bytes ≡ sum_bytes q.turns
    pub inflight_bytes : q.turns_inflight_bytes ≡ sum_bytes flight
    pub total : sum_bytes q.turns + sum_bytes flight ≤ queue_bytes
    pub texts : WithText q.turns
    pub flight_texts : WithText flight

  pub sum_bytes-append :
      (xs ys : List (Turn D)) → sum_bytes (xs ++ ys) ≡ sum_bytes xs + sum_bytes ys
  sum_bytes-append [] ys = omega arith
  sum_bytes-append (x ∷ xs) ys = omega (arith, sum_bytes-append xs ys)

  pub WithText-append : (xs ys : List (Turn D)) → WithText xs → WithText ys → WithText (xs ++ ys)
  WithText-append [] ys h k = k
  WithText-append (x ∷ xs) ys h k = (h.0, WithText-append xs ys h.1 k)

  pub WithText-split : (xs ys : List (Turn D)) → WithText (xs ++ ys) → WithText xs × WithText ys
  WithText-split [] ys h = (tt, h)
  WithText-split (x ∷ xs) ys h = let (p, q) = WithText-split xs ys h.1 in ((h.0, p), q)

  -- With the invariant the wrapping differences are plain ones: room is what the bounds leave.
  pub has_room_fits :
      (q : Queue D) (flight : List (Turn D)) (bytes : ℕ)
      → IsValid q flight
      → has_room q bytes ≡ true
      → (length q.turns + length flight < queue_limit q)
        × (sum_bytes q.turns + sum_bytes flight + bytes ≤ queue_bytes)
  unfolding has_room
  has_room_fits q flight bytes v h = ground (arith, limit_bounds q.event_queue_max)

  pushed-IsValid :
      (t : Turn D) (cap : ℕ) (q : Queue D) (flight : List (Turn D))
      → has_text t ≡ true
      → IsValid q flight
      → length q.turns + length flight < queue_limit q
      → sum_bytes q.turns + sum_bytes flight + turn_bytes t ≤ queue_bytes
      → length q.turns + length flight < cap
      → cap ≤ queue_events
      → IsValid (pushed t (turn_bytes t) cap q) flight
  pushed-IsValid t cap q flight h v room fits more small = record {
    counted = omega (arith, length-append q.turns (t ∷ []));
    slots = omega (arith, length-append q.turns (t ∷ []));
    cap_small = small;
    inflight = v.inflight;
    bytes = omega (arith, sum_bytes-append q.turns (t ∷ []), v.bytes);
    inflight_bytes = v.inflight_bytes;
    total = omega (arith, sum_bytes-append q.turns (t ∷ []));
    texts = WithText-append q.turns (t ∷ []) v.texts (h, tt);
    flight_texts = v.flight_texts;
  }

  -- What a successful push has tested, and the capacity that it leaves.
  push-eq-ok :
      (granted : Bool) (t : Turn D) (bytes : ℕ) (q q' : Queue D) (flight : List (Turn D))
      → IsValid q flight
      → push_turn granted t bytes q ≡ ok q'
      → (cap : ℕ) × (has_room q bytes ≡ true)
        × (q' ≡ pushed t bytes cap q)
        × (length q.turns + length flight < queue_limit q → length q.turns + length flight < cap)
        × (cap ≤ queue_events)
  unfolding push_turn
  push-eq-ok granted t bytes q q' flight v e = (
    q'.turns_cap,
    ground arith,
    ground arith,
    λ free. ground (arith, limit_bounds q.event_queue_max),
    ground (arith, limit_bounds q.event_queue_max),
  )

  -- In a valid queue, a push that succeeds of a turn with a text, counted at its size, keeps the
  -- invariant and puts the turn last.
  pub push-IsValid :
      (granted : Bool) (t : Turn D) (q q' : Queue D) (flight : List (Turn D))
      → has_text t ≡ true
      → IsValid q flight
      → push_turn granted t (turn_bytes t) q ≡ ok q'
      → IsValid q' flight × (q'.turns ≡ q.turns ++ t ∷ [])
  push-IsValid granted t q q' flight h v e =
      let (cap, room, same, grows, small) = push-eq-ok granted t (turn_bytes t) q q' flight v e in
      let (free, fits) = has_room_fits q flight (turn_bytes t) v room in
      rw same (pushed-IsValid t cap q flight h v free fits (grows free) small, refl)

  -- The byte counters of a batch move from one side to the other, with no wrap.
  record Moves (q q' : Queue D) (out back : ℕ) : Type 0 where
    same_turns : q'.turns ≡ q.turns
    same_cap : q'.turns_cap ≡ q.turns_cap
    same_max : q'.event_queue_max ≡ q.event_queue_max
    same_inflight : q'.turns_inflight ≡ q.turns_inflight
    moved : q'.turns_bytes + out ≡ q.turns_bytes + back
    moved_inflight : q'.turns_inflight_bytes + back ≡ q.turns_inflight_bytes + out

  bytes_out-Moves :
      (ts : List (Turn D)) (q : Queue D)
      → sum_bytes ts ≤ q.turns_bytes
      → q.turns_bytes + q.turns_inflight_bytes ≤ queue_bytes
      → Moves q (bytes_out ts q) (sum_bytes ts) 0
  unfolding bytes_out
  bytes_out-Moves [] q h k = ground arith
  bytes_out-Moves (t ∷ ts) q h k =
      let q₁ : Queue D = record q {
        turns_bytes = sub64 q.turns_bytes (turn_bytes t);
        turns_inflight_bytes = add64 q.turns_inflight_bytes (turn_bytes t);
      } in
      let m = bytes_out-Moves ts q₁ (omega arith) (omega arith) in
      record {
        same_turns = m.same_turns;
        same_cap = m.same_cap;
        same_max = m.same_max;
        same_inflight = m.same_inflight;
        moved = omega (arith, m.moved);
        moved_inflight = omega (arith, m.moved_inflight);
      }

  bytes_back-Moves :
      (ts : List (Turn D)) (q : Queue D)
      → sum_bytes ts ≤ q.turns_inflight_bytes
      → q.turns_bytes + q.turns_inflight_bytes ≤ queue_bytes
      → Moves q (bytes_back ts q) 0 (sum_bytes ts)
  unfolding bytes_back
  bytes_back-Moves [] q h k = ground arith
  bytes_back-Moves (t ∷ ts) q h k =
      let q₁ : Queue D = record q {
        turns_bytes = add64 q.turns_bytes (turn_bytes t);
        turns_inflight_bytes = sub64 q.turns_inflight_bytes (turn_bytes t);
      } in
      let m = bytes_back-Moves ts q₁ (omega arith) (omega arith) in
      record {
        same_turns = m.same_turns;
        same_cap = m.same_cap;
        same_max = m.same_max;
        same_inflight = m.same_inflight;
        moved = omega (arith, m.moved);
        moved_inflight = omega (arith, m.moved_inflight);
      }

  release_one-IsValid :
      (t : Turn D) (rest : List (Turn D)) (q : Queue D)
      → IsValid q (t ∷ rest)
      → IsValid (release_one t q) rest × ((release_one t q).turns ≡ q.turns)
  release_one-IsValid t rest q v = (
    record {
      counted = ground arith;
      slots = ground arith;
      cap_small = ground arith;
      inflight = ground arith;
      bytes = ground arith;
      inflight_bytes = ground arith;
      total = ground arith;
      texts = ground arith;
      flight_texts = v.flight_texts.1;
    },
    ground arith,
  )

  -- In a valid queue, handing back a batch that is in flight keeps the invariant with the batch
  -- gone: its slots and bytes are free. The waiting turns stay as they are.
  pub release-IsValid :
      (ts rest : List (Turn D)) (q : Queue D)
      → IsValid q (ts ++ rest)
      → IsValid (queue_release ts q) rest × ((queue_release ts q).turns ≡ q.turns)
  unfolding queue_release
  release-IsValid [] rest q v = (v, refl)
  release-IsValid (t ∷ ts) rest q v =
      let (one, same) = release_one-IsValid t (ts ++ rest) q v in
      let (all, kept) = release-IsValid ts rest (release_one t q) one in (all, kept ∙ same)

  -- The queue of `restore_turns` before its byte counters are settled.
  abbrev pub put_back : List (Turn D) → Queue D → Queue D
  put_back ts q = record q {
    turns = ts ++ q.turns;
    turns_inflight = sub64 q.turns_inflight (length ts);
  }

  restored-IsValid :
      (ts rest : List (Turn D)) (q r : Queue D)
      → IsValid q (ts ++ rest)
      → Moves (put_back ts q) r 0 (sum_bytes ts)
      → IsValid r rest
  restored-IsValid ts rest q r v m =
      let n = ap length m.same_turns in
      let counts = length-append ts rest in
      let counts' = length-append ts q.turns in
      let sums = sum_bytes-append ts rest in
      let sums' = sum_bytes-append ts q.turns in
      let all = ap sum_bytes m.same_turns in
      let split = WithText-split ts rest v.flight_texts in
      record {
        counted = rw m.same_max (omega (arith, n, counts, v.counted));
        slots = omega (arith, n, counts, v.slots, m.same_cap);
        cap_small = omega (arith, v.cap_small, m.same_cap);
        inflight =
            omega (
              arith,
              counts,
              v.inflight,
              v.counted,
              m.same_inflight,
              limit_bounds q.event_queue_max,
            );
        bytes = omega (arith, all, sums, v.bytes, m.moved);
        inflight_bytes = omega (arith, sums, v.inflight_bytes, m.moved_inflight);
        total = omega (arith, all, sums, v.total);
        texts = subst WithText (sym m.same_turns) (WithText-append ts q.turns split.0 v.texts);
        flight_texts = split.1;
      }

  -- In a valid queue, putting back turns that a worker holds always succeeds, since their slots
  -- were kept for them. It keeps the invariant, and the turns stand in their order in front of
  -- those that arrived since.
  pub restore-IsValid :
      (ts rest : List (Turn D)) (q : Queue D)
      → IsValid q (ts ++ rest)
      → (q' : Queue D) × (restore_turns ts q ≡ some q')
        × IsValid q' rest
        × (q'.turns ≡ ts ++ q.turns)
  unfolding restore_turns
  restore-IsValid [] rest q v = (q, refl, v, refl)
  restore-IsValid (t ∷ ts) rest q v =
      let batch = t ∷ ts in
      let count = length-append batch rest in
      let sums = sum_bytes-append batch rest in
      let m =
        bytes_back-Moves batch (put_back batch q) (omega (arith, sums, v.inflight_bytes))
          (omega (arith, v.bytes)) in
      (
        bytes_back batch (put_back batch q),
        ground (arith, count),
        restored-IsValid batch rest q (bytes_back batch (put_back batch q)) v m,
        m.same_turns,
      )

  -- A queue of which the first `n` turns have gone into flight.
  abbrev pub taken : ℕ → Queue D → Queue D
  taken n q = record (bytes_out (take n q.turns) q) {
    turns = drop n q.turns;
    turns_inflight = add64 q.turns_inflight n;
  }

  pub taken-IsValid :
      (n : ℕ) (q : Queue D)
      → n ≤ length q.turns
      → IsValid q []
      → IsValid (taken n q) (take n q.turns)
  taken-IsValid n q h v =
      let ts = take n q.turns in
      let whole = take-append-drop n q.turns in
      let sums = sum_bytes-append ts (drop n q.turns) in
      let sums' = ap sum_bytes whole in
      let m = bytes_out-Moves ts q (omega (arith, sums, v.bytes)) (omega arith) in
      let counts = length-take n q.turns in
      let counts' = length-drop n q.turns in
      let split = WithText-split ts (drop n q.turns) (subst WithText (sym whole) v.texts) in
      record {
        counted = rw m.same_max (omega (arith, counts, v.counted));
        slots = omega (arith, counts, v.slots, m.same_cap);
        cap_small = omega (arith, v.cap_small, m.same_cap);
        inflight = omega (arith, counts, v.inflight, v.counted, limit_bounds q.event_queue_max);
        bytes = omega (arith, sums, v.bytes, m.moved);
        inflight_bytes = omega (arith, sums, v.inflight_bytes, m.moved_inflight);
        total = omega (arith, sums, v.total);
        texts = split.1;
        flight_texts = split.0;
      }

  -- The order of the turns in flight does not matter.
  pub IsValid-swap :
      (xs ys : List (Turn D)) (q : Queue D) → IsValid q (xs ++ ys) → IsValid q (ys ++ xs)
  IsValid-swap xs ys q v =
      let l = length-append xs ys in
      let l' = length-append ys xs in
      let s = sum_bytes-append xs ys in
      let s' = sum_bytes-append ys xs in
      let (p, r) = WithText-split xs ys v.flight_texts in
      record {
        counted = omega (arith, v.counted);
        slots = omega (arith, v.slots);
        cap_small = v.cap_small;
        inflight = omega (arith, v.inflight);
        bytes = v.bytes;
        inflight_bytes = omega (arith, v.inflight_bytes);
        total = omega (arith, v.total);
        texts = v.texts;
        flight_texts = WithText-append ys xs r p;
      }

  pub drop_all-IsValid :
      (q : Queue D) (flight : List (Turn D))
      → IsValid q flight
      → IsValid (drop_all_turns q).1 flight
  unfolding drop_all_turns
  drop_all-IsValid q flight v = record {
    counted = omega (arith, v.counted);
    slots = omega (arith, v.slots);
    cap_small = v.cap_small;
    inflight = v.inflight;
    bytes = refl;
    inflight_bytes = v.inflight_bytes;
    total = omega (arith, v.total);
    texts = tt;
    flight_texts = v.flight_texts;
  }
