-- ===== src/TurnQueue/Order.antt =====
-- What `take_turns` hands out, and every sequence of operations of producers and the worker.
use asterism_asper.Base.{
  ℕ, zero, suc, ◌≤◌, ◌<◌, ◌≡◌, refl, sym, ap, subst, ◌∙◌, Bool, true, false, List, [], ◌∷◌, ◌++◌,
  some, arith, ◌==◌, length, Bool-cases, inl, inr, take, ok, ok_inj, some_inj, take-append-drop,
  length-take, All,
}
use mathlib.Core.List.{append-nil, append_assoc}
use asterism_asper.TurnQueue.{
  Turn, Queue, curation_batch_max, turn_bytes, push_turn, same_run, run_length, batch_size,
  batch_count, take_turns, restore_turns, drop_all_turns, queue_release,
}
use asterism_asper.TurnQueue.Bounds.{
  has_text, IsValid, IsValid-swap, drop_all-IsValid, push-IsValid, restore-IsValid, release-IsValid,
  taken, taken-IsValid,
}

module _ {D : Type 0} where
  -- All turns of a batch belong to the run of its first turn.
  abbrev pub IsOneRun : List (Turn D) → Type 0
  IsOneRun [] = Unit
  IsOneRun (t ∷ ts) = All (λ u. same_run t u ≡ true) ts

  run_length-le : (t : Turn D) (n : ℕ) (ts : List (Turn D)) → run_length t n ts ≤ length ts
  unfolding run_length
  run_length-le t zero ts = omega arith
  run_length-le t (suc n) [] = omega arith
  run_length-le t (suc n) (u ∷ ts) = ground (arith, run_length-le t n ts)

  run_length-le_count : (t : Turn D) (n : ℕ) (ts : List (Turn D)) → run_length t n ts ≤ n
  unfolding run_length
  run_length-le_count t zero ts = omega arith
  run_length-le_count t (suc n) [] = omega arith
  run_length-le_count t (suc n) (u ∷ ts) = ground (arith, run_length-le_count t n ts)

  batch_count-le :
      (n : ℕ) (ts : List (Turn D)) → (batch_count n ts ≤ length ts) × (batch_count n ts ≤ n)
  unfolding batch_count
  batch_count-le zero ts = omega arith
  batch_count-le (suc n) [] = omega arith
  batch_count-le (suc n) (t ∷ ts) = omega (arith, run_length-le t n ts, run_length-le_count t n ts)

  run-All :
      (t : Turn D) (n : ℕ) (ts : List (Turn D))
      → All (λ u. same_run t u ≡ true) (take (run_length t n ts) ts)
  unfolding run_length
  run-All t zero ts = tt
  run-All t (suc n) [] = tt
  run-All t (suc n) (u ∷ ts) = elim (Bool-cases (same_run t u)) [
    | inl same ↦ rw same (same, run-All t n ts)
    | inr differs ↦ rw differs tt
  ]

  batch-IsOneRun : (n : ℕ) (ts : List (Turn D)) → IsOneRun (take (batch_count n ts) ts)
  unfolding batch_count
  batch-IsOneRun zero ts = tt
  batch-IsOneRun (suc n) [] = tt
  batch-IsOneRun (suc n) (t ∷ ts) = run-All t n ts

  batch_count_pos : (n : ℕ) (ts : List (Turn D)) → 0 < n → 0 < length ts → 0 < batch_count n ts
  unfolding batch_count
  batch_count_pos zero ts h k = h
  batch_count_pos (suc n) [] h k = k
  batch_count_pos (suc n) (t ∷ ts) h k = omega arith

  batch_size_bounds :
      (force : Bool) (q : Queue D)
      → (batch_size force q ≤ curation_batch_max) × (0 < length q.turns → 0 < batch_size force q)
  batch_size_bounds force q = (ground arith, λ h. ground arith)

  -- What a batch is: a front part of the queue of one run, at most 256 turns long, that is empty
  -- only if the queue is.
  pub record IsBatchOf (q : Queue D) (batch : List (Turn D)) (q' : Queue D) : Type 0 where
    pub front : batch ++ q'.turns ≡ q.turns
    pub one_run : IsOneRun batch
    pub bounded : length batch ≤ curation_batch_max
    pub progress : 0 < length q.turns → 0 < length batch

  -- Where memory lasts, taking turns from a valid queue with nothing in flight succeeds, keeps the
  -- invariant with the batch in flight, and splits the queue in two: a front part of one
  -- conversation, of at most 256 turns and empty only if the queue is, and the rest.
  pub take-IsBatchOf :
      (force : Bool) (q : Queue D)
      → IsValid q []
      → (batch : List (Turn D)) × (q' : Queue D) × (take_turns true force q ≡ ok (batch, q'))
        × IsValid q' batch
        × IsBatchOf q batch q'
  unfolding take_turns
  take-IsBatchOf force q v = elim (Bool-cases (batch_size force q == 0)) [
    | inl empty ↦ (
      [],
      q,
      rw empty,
      v,
      record {
        front = refl;
        one_run = tt;
        bounded = omega arith;
        progress = λ h. absurd (ground (arith, (batch_size_bounds force q).1 h));
      },
    )
    | inr some' ↦
        let n = batch_count (batch_size force q) q.turns in
        (
          take n q.turns,
          taken n q,
          rw some',
          taken-IsValid n q (batch_count-le (batch_size force q) q.turns).0 v,
          record {
            front = take-append-drop n q.turns;
            one_run = batch-IsOneRun (batch_size force q) q.turns;
            bounded = omega (
              arith,
              length-take n q.turns,
              batch_count-le (batch_size force q) q.turns,
              batch_size_bounds force q,
            );
            progress = λ h. omega (
              arith,
              length-take n q.turns,
              batch_count_pos (batch_size force q) q.turns ((batch_size_bounds force q).1 h) h,
            );
          },
        )
  ]

  granted_anyway :
      (granted force : Bool) (q : Queue D) (r : List (Turn D) × Queue D)
      → take_turns granted force q ≡ ok r
      → take_turns true force q ≡ ok r
  unfolding take_turns
  granted_anyway true force q r e = e
  granted_anyway false force q r e = elim (Bool-cases (batch_size force q == 0)) [
    | inl empty ↦ rw empty (rw empty at e)
    | inr some' ↦ absurd (cc (rw some' at e))
  ]

  -- The same for any run of `take_turns` that succeeds.
  pub take-eq-ok :
      (granted force : Bool) (q : Queue D) (batch : List (Turn D)) (q' : Queue D)
      → IsValid q []
      → take_turns granted force q ≡ ok (batch, q')
      → IsValid q' batch × IsBatchOf q batch q'
  take-eq-ok granted force q batch q' v e =
      let (b, r, run, valid, is_batch) = take-IsBatchOf force q v in
      let same : ok (b, r) ≡ ok (batch, q') =
        sym run ∙ granted_anyway granted force q (batch, q') e in
      subst (λ p. IsValid p.1 p.0 × IsBatchOf q p.0 p.1) (ok_inj same) (valid, is_batch)

  -- A batch taken from a valid queue with nothing in flight, and put back after one more turn with
  -- a text has arrived, restores the order of the queue, with the new turn behind.
  pub restore-take :
      (force : Bool) (q : Queue D) (t : Turn D)
      → IsValid q []
      → has_text t ≡ true
      → (batch : List (Turn D)) (q₁ q₂ : Queue D) → take_turns true force q ≡ ok (batch, q₁)
      → push_turn true t (turn_bytes t) q₁ ≡ ok q₂
      → (q₃ : Queue D) × (restore_turns batch q₂ ≡ some q₃) × (q₃.turns ≡ q.turns ++ t ∷ [])
  restore-take force q t v h batch q₁ q₂ e₁ e₂ =
      let (valid₁, b) = take-eq-ok true force q batch q₁ v e₁ in
      let (valid₂, behind) = push-IsValid true t q₁ q₂ batch h valid₁ e₂ in
      let (q₃, run, valid₃, whole) =
        restore-IsValid batch [] q₂ (subst (λ f. IsValid q₂ f) (sym (append-nil batch)) valid₂) in
      (
        q₃,
        run,
        whole
            ∙ ap (λ ts. batch ++ ts) behind
            ∙ sym (append_assoc batch q₁.turns (t ∷ []))
            ∙ ap (λ ts. ts ++ t ∷ []) b.front,
      )

  -- The operations of producers and of the one worker, on the queue and on the turns in flight.
  pub data Step : Queue D → List (Turn D) → Queue D → List (Turn D) → Type 0 where
    enqueue :
        (granted : Bool) (t : Turn D) {q q' : Queue D} {flight : List (Turn D)}
        → has_text t ≡ true
        → push_turn granted t (turn_bytes t) q ≡ ok q'
        → Step q flight q' flight
    take_batch :
        (granted force : Bool) {q q' : Queue D} {idle batch : List (Turn D)}
        → idle ≡ []
        → take_turns granted force q ≡ ok (batch, q')
        → Step q idle q' batch
    give_back :
        (kept back : List (Turn D)) {q q' : Queue D} {flight : List (Turn D)}
        → flight ≡ kept ++ back
        → restore_turns back q ≡ some q'
        → Step q flight q' kept
    release :
        {q : Queue D} {flight none_left : List (Turn D)}
        → none_left ≡ []
        → Step q flight (queue_release flight q) none_left
    drop_all : {q : Queue D} {flight : List (Turn D)} → Step q flight (drop_all_turns q).1 flight

  pub data Reach (q₀ : Queue D) : Queue D → List (Turn D) → Type 0 where
    start : {idle : List (Turn D)} → idle ≡ [] → Reach q₀ q₀ idle
    next : {q q' : Queue D} {f f' : List (Turn D)} → Reach q₀ q f → Step q f q' f' → Reach q₀ q' f'

  restore-eq-some :
      (kept back : List (Turn D)) (q q' : Queue D)
      → IsValid q (kept ++ back)
      → restore_turns back q ≡ some q'
      → IsValid q' kept
  restore-eq-some kept back q q' v e =
      let (q₁, run, valid, _) = restore-IsValid back kept q (IsValid-swap kept back q v) in
      subst (λ r. IsValid r kept) (some_inj (sym run ∙ e)) valid

  pub Step-IsValid :
      {q : Queue D} {f : List (Turn D)} {q' : Queue D} {f' : List (Turn D)}
      → Step q f q' f'
      → IsValid q f
      → IsValid q' f'
  Step-IsValid (enqueue granted t {q = q} {q' = q'} {flight = flight} h e) v =
      (push-IsValid granted t q q' flight h v e).0
  Step-IsValid (take_batch granted force {q = q} {q' = q'} {batch = batch} i e) v =
      (take-eq-ok granted force q batch q' (subst (λ f. IsValid q f) i v) e).0
  Step-IsValid (give_back kept back {q = q} {q' = q'} i e) v =
      restore-eq-some kept back q q' (subst (λ f. IsValid q f) i v) e
  Step-IsValid (release {q = q} {flight = flight} i) v =
      subst (λ f. IsValid (queue_release flight q) f) (sym i)
        (release-IsValid flight [] q (subst (λ f. IsValid q f) (sym (append-nil flight)) v)).0
  Step-IsValid (drop_all {q = q} {flight = flight}) v = drop_all-IsValid q flight v

  -- Every state reached from a valid queue with nothing in flight is valid: the waiting turns and
  -- those in flight together stay within the limit on events and the 32 MiB of bytes, and every
  -- counter is exact.
  pub Reach-IsValid :
      {q₀ q : Queue D} {f : List (Turn D)} → IsValid q₀ [] → Reach q₀ q f → IsValid q f
  Reach-IsValid {q₀ = q₀} v (start i) = subst (λ f. IsValid q₀ f) (sym i) v
  Reach-IsValid v (next r s) = Step-IsValid s (Reach-IsValid v r)
