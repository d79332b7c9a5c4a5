-- ===== src/TurnQueue/Enqueue.antt =====
-- What a producer gets from `asper_enqueue_turn`, from its arguments to the queue.
use asterism_asper.Base.{
  ℕ, ◌+◌, ◌≡◌, refl, sym, ap, ◌∙◌, Bool, true, List, [], ◌∷◌, ◌++◌, some, ◌==◌, not, ltb, length,
  ok, ok_inj, Error, fail_if, >>=-eq-ok, Bool-cases, inl, inr, Option-cases,
}
use asterism_asper.Base.Int.{ℤ}
use asterism_asper.TurnQueue.{
  Role, Turn, Queue, Outside, TurnDocument, turn_bytes, document_meta, copy_member, object_meta,
  enqueue_turn, push_turn, queue_bytes, is_other, is_malformed, has_room,
}
use asterism_asper.Util.Strings.{str_blank}
use asterism_asper.Uuid.{uuid_valid}
use asterism_asper.TurnQueue.Bounds.{has_text, IsValid, push-IsValid}

module _ {D : Type 0} where
  document_meta-text :
      (doc : TurnDocument) (meta t : Turn D) → document_meta doc meta ≡ ok t → t.text ≡ meta.text
  unfolding document_meta
  document_meta-text doc meta t e =
      let (_, _, e₁) = >>=-eq-ok (fail_if (not doc.is_object) Error.parse) _ e in
      let (_, _, e₂) = >>=-eq-ok (copy_member doc _ 1024 _) _ e₁ in
      let (_, _, e₃) = >>=-eq-ok (copy_member doc _ 65 _) _ e₂ in
      let (_, _, e₄) = >>=-eq-ok (copy_member doc _ 65 _) _ e₃ in
      ap (λ (u : Turn D). u.text) (sym (ok_inj e₄))

  pushed_text :
      (granted : Bool) (t : Turn D) (text : List ℕ) (q q' : Queue D) (flight : List (Turn D))
      → t.text ≡ some text
      → IsValid q flight
      → push_turn granted t (length text + 1) q ≡ ok q'
      → IsValid q' flight × (q'.turns ≡ q.turns ++ t ∷ [])
  pushed_text granted t text q q' flight same v e =
      let size : turn_bytes t ≡ length text + 1 = rw (turn_bytes, same) refl in
      let spoken : has_text t ≡ true = rw (has_text, same) refl in
      push-IsValid granted t q q' flight spoken v (ap (λ n. push_turn granted t n q) size ∙ e)

module _ {D : Type 0} (outside : Outside) where
  object_meta-text :
      (meta t : Turn D) (ref : List ℕ) → object_meta outside meta ref ≡ ok t → t.text ≡ meta.text
  unfolding object_meta
  object_meta-text meta t ref e = elim (Bool-cases (length ref == 0)) [
    | inl empty ↦ ap (λ (u : Turn D). u.text) (sym (ok_inj (rw empty at e)))
    | inr given ↦
        let (text, _, e₁) = >>=-eq-ok (outside.object_read ref) _ (rw given at e) in
        elim (Option-cases (outside.parse_turn text)) [
          | inl other ↦ ap (λ (u : Turn D). u.text) (sym (ok_inj (rw other at e₁)))
          | inr (doc, found) ↦ document_meta-text doc meta t (rw found at e₁)
        ]
  ]

  -- In a valid queue, a turn that `asper_enqueue_turn` accepts stands at the end with the caller's
  -- text, and the invariant of the queue and the turns in flight is kept.
  pub enqueue-IsValid :
      (z : D) (copied granted : Bool) (role : Role) (text : List ℕ) (now : ℤ)
      (source_id scope ref : List ℕ) (seen q q' : Queue D) (flight : List (Turn D))
      → IsValid q flight
      → enqueue_turn outside z copied granted role (some text) now source_id scope ref seen q
        ≡ ok q'
      → IsValid q' flight × (t : Turn D) × (t.text ≡ some text) × (q'.turns ≡ q.turns ++ t ∷ [])
  unfolding enqueue_turn
  enqueue-IsValid z copied granted role text now source_id scope ref seen q q' flight v e =
      let (_, _, e₁) = >>=-eq-ok (fail_if (is_other role) Error.invalid) _ e in
      let (_, _, e₂) = >>=-eq-ok (fail_if (str_blank (some text)) Error.invalid) _ e₁ in
      let (_, _, e₃) = >>=-eq-ok (fail_if (is_malformed text) Error.invalid) _ e₂ in
      let (_, _, e₄) = >>=-eq-ok (fail_if (not (uuid_valid source_id)) Error.invalid) _ e₃ in
      let (_, _, e₅) = >>=-eq-ok (fail_if (ltb queue_bytes (length text + 1)) Error.limit) _ e₄ in
      let (_, _, e₆) =
        >>=-eq-ok (fail_if (not (has_room seen (length text + 1))) Error.busy) _ e₅ in
      let (t, run, e₇) = >>=-eq-ok (object_meta outside _ ref) _ e₆ in
      let (_, _, e₈) = >>=-eq-ok (fail_if (not copied) Error.nomem) _ e₇ in
      let same : t.text ≡ some text = object_meta-text _ t ref run in
      let (valid, behind) = pushed_text granted t text q q' flight same v e₈ in
      (valid, t, same, behind)
