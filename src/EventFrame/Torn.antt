-- ===== src/EventFrame/Torn.antt =====
-- The frames of src/event_frame.c, cut and then read.
use asterism_asper.Base.{
  ℕ, zero, suc, ◌+◌, ◌-◌, ◌≤◌, ◌<◌, ◌≡◌, refl, ap, ◌∙◌, true, false, List, [], ◌∷◌, ◌++◌, ltb, leb,
  ◌==◌, length, length-append, length-take, arith, Bool-cases, inl, inr, take, drop, err, Error,
  take-append, drop-append, take-nil, take-short, take-long, take-all, drop-all, All-take,
}
use asterism_asper.Base.Text.{codes, str_eq, until_zero}
use asterism_asper.EventFrame.{Event, prefix, own_prefix, payload_digest, frame_line, frame_bytes}
use asterism_asper.EventFrame.Read.{
  Fields, object_accepted, gets, has_newline, Reading, head_line, payload_end, payload, frame_read,
}
use asterism_asper.EventFrame.Line.{IsPlain, gets-torn, has_newline-plain, until_zero-plain}
use asterism_asper.EventFrame.Head.{frame_line-IsPlain}
use asterism_asper.EventFrame.RoundTrip.{
  IsEvent, body, own_fields, own_line, payload_digest-hash, head-own_line, frame_bytes-body,
  frame_read-steps, frame_read-err, payload-object, not_less,
}

-- A cut of the first word is a beginning of it.
magic_cut :
    (k : ℕ) (s : List ℕ)
    → str_eq
        (take 5 (take k (codes "AEV2 " ++ s)))
        (take (length (take k (codes "AEV2 " ++ s))) (codes "AEV2 "))
      ≡ true
unfolding str_eq
magic_cut zero s = refl
magic_cut (suc zero) s = refl
magic_cut (suc (suc zero)) s = refl
magic_cut (suc (suc (suc zero))) s = refl
magic_cut (suc (suc (suc (suc zero)))) s = refl
magic_cut (suc (suc (suc (suc (suc k))))) s = rw take-nil refl

magic_line :
    (e : Event) (k : ℕ)
    → str_eq (take 5 (take k (own_line e))) (take (length (take k (own_line e))) (codes "AEV2 "))
      ≡ true
unfolding frame_line prefix
magic_line e k = magic_cut k _

plain_cut :
    (io : Reading) (s : List ℕ)
    → io.failed ≡ false
    → gets 351 s ≡ (s, [], true)
    → until_zero s ≡ s
    → has_newline s ≡ false
    → str_eq (take 5 s) (take (length s) (codes "AEV2 ")) ≡ true
    → head_line io s ≡ err Error.not_found
unfolding head_line
plain_cut io s f g u n m = elim (Bool-cases (length s == 0)) [
  | inl empty ↦ rw (head_line, g, empty, f) refl
  | inr more ↦ rw (head_line, g, more, u, n, f, m) refl
]

head_line-cut :
    (io : Reading) (e : Event) (k : ℕ)
    → IsEvent e
    → io.failed ≡ false
    → head_line io (take k (own_line e)) ≡ err Error.not_found
head_line-cut io e k w f =
    let (hash_plain, size) = payload_digest-hash (own_prefix e) e in
    let (plain, short) =
      frame_line-IsPlain e (length e.object_ref) (length e.text) (payload_digest (own_prefix e) e)
        w.sizes hash_plain size in
    let cut = All-take IsPlain k (own_line e) plain in
    plain_cut io (take k (own_line e)) f
      (gets-torn 351 (take k (own_line e)) cut (omega (arith, length-take k (own_line e), short)))
      (until_zero-plain (take k (own_line e)) cut) (has_newline-plain (take k (own_line e)) cut)
      (magic_line e k)

-- A cut that holds fewer bytes than are wanted.
cut_short : (n j : ℕ) (xs : List ℕ) → j < n → ltb (length (take n (take j xs))) n ≡ true
cut_short n j xs h =
    let less : length (take n (take j xs)) < n =
      omega (arith, length-take n (take j xs), length-take j xs) in
    ground (arith, less)

payload-no_object :
    (io : Reading) (f : Fields) (hash bytes : List ℕ)
    → io.failed ≡ false
    → ltb (length (take f.object_bytes bytes)) f.object_bytes ≡ true
    → payload io f hash bytes ≡ err Error.not_found
unfolding payload
payload-no_object io f hash bytes e a = rw (payload, a, e) refl

payload-no_text :
    (io : Reading) (f : Fields) (hash bytes : List ℕ)
    → io.failed ≡ false
    → ltb (length (take f.object_bytes bytes)) f.object_bytes ≡ false
    → object_accepted (take f.object_bytes bytes) ≡ true
    → io.granted ≡ true
    → ltb (length (take f.text_bytes (drop f.object_bytes bytes))) f.text_bytes ≡ true
    → payload io f hash bytes ≡ err Error.not_found
unfolding payload
payload-no_text io f hash bytes e a b c d = rw (payload, a, b, c, d, e) refl

no_end :
    (io : Reading) (e : Event) (head hash : List ℕ)
    → io.failed ≡ false
    → payload_end io e head hash [] ≡ err Error.not_found
unfolding payload_end
no_end io e head hash f = rw (payload_end, f) refl

-- Behind the object reference the cut leaves too little text, or all of it and no newline.
payload-cut_text :
    (io : Reading) (e : Event) (behind : List ℕ) (j : ℕ)
    → IsEvent e
    → io.granted ≡ true
    → io.failed ≡ false
    → j ≤ length e.text
    → payload io
        (own_fields e behind)
        (payload_digest (own_prefix e) e)
        (e.object_ref ++ take j (e.text ++ 0x0a ∷ []))
      ≡ err Error.not_found
payload-cut_text io e behind j w g f h = elim (Bool-cases (ltb j (length e.text))) [
  | inl less ↦
      let lt : j < length e.text = ground (arith, less) in
      let bytes = take j (e.text ++ 0x0a ∷ []) in
      let object : take (length e.object_ref) (e.object_ref ++ bytes) ≡ e.object_ref =
        take-append e.object_ref bytes in
      payload-no_text io (own_fields e behind) (payload_digest (own_prefix e) e)
        (e.object_ref ++ bytes) f (rw object (not_less (length e.object_ref))) (rw object w.object)
        g
        (rw (drop-append e.object_ref bytes) (cut_short (length e.text) j (e.text ++ 0x0a ∷ []) lt))
  | inr all ↦
      let same : j ≡ length e.text = ground (arith, all) in
      let text : take j (e.text ++ 0x0a ∷ []) ≡ e.text =
        ap (λ n. take n (e.text ++ 0x0a ∷ [])) same ∙ take-append e.text (0x0a ∷ []) in
      let whole : take (length e.text) e.text ≡ e.text =
        take-all (length e.text) e.text (omega arith) in
      let none_left : drop (length e.text) e.text ≡ [] = drop-all e.text in
      ap
        (λ b.
          payload io (own_fields e behind) (payload_digest (own_prefix e) e) (e.object_ref ++ b))
        text
      ∙ payload-object io e behind e.text w g (rw whole (not_less (length e.text)))
      ∙ rw none_left (no_end io _ (own_prefix e) (payload_digest (own_prefix e) e) f)
]

payload-cut :
    (io : Reading) (e : Event) (behind : List ℕ) (j : ℕ)
    → IsEvent e
    → io.granted ≡ true
    → io.failed ≡ false
    → j < length (body e [])
    → payload io (own_fields e behind) (payload_digest (own_prefix e) e) (take j (body e []))
      ≡ err Error.not_found
payload-cut io e behind j w g f h = elim (Bool-cases (ltb j (length e.object_ref))) [
  | inl less ↦
      let lt : j < length e.object_ref = ground (arith, less) in
      payload-no_object io (own_fields e behind) (payload_digest (own_prefix e) e)
        (take j (body e [])) f (cut_short (length e.object_ref) j (body e []) lt)
  | inr more ↦
      let le : length e.object_ref ≤ j = ground (arith, more) in
      ap (λ b. payload io (own_fields e behind) (payload_digest (own_prefix e) e) b)
        (take-long e.object_ref (e.text ++ 0x0a ∷ []) j le)
      ∙ payload-cut_text io e behind (j - length e.object_ref) w g f (
          omega (
            arith,
            h,
            length-append e.object_ref (e.text ++ 0x0a ∷ []),
            length-append e.text (0x0a ∷ []),
          ))
]

the_rest : (k n : ℕ) → n < k → k - n ≡ suc (k - n - 1)
the_rest k n h = omega arith

-- Every proper beginning of the frame of an event reads as an incomplete frame, and so as the end
-- of the file and never as damage. The file gives no read error, and memory is granted.
pub frame_read-torn :
    (io : Reading) (e : Event) (k : ℕ)
    → IsEvent e
    → io.granted ≡ true
    → io.failed ≡ false
    → k < length (frame_bytes e)
    → frame_read io (take k (frame_bytes e)) ≡ err Error.not_found
frame_read-torn io e k w g f h =
    let line = own_line e in
    let total : k < length line + suc (length (body e [])) =
      omega
        (arith, length-append line (0x0a ∷ body e []), ap (λ b. length b) (frame_bytes-body e)) in
    ap (λ b. frame_read io (take k b)) (frame_bytes-body e)
    ∙ elim (Bool-cases (leb k (length line))) [
      | inl in_line ↦
          let le : k ≤ length line = ground (arith, in_line) in
          ap (frame_read io) (take-short k line (0x0a ∷ body e []) le)
          ∙ frame_read-err io (take k line) Error.not_found (head_line-cut io e k w f)
      | inr behind ↦
          let j = k - length line - 1 in
          let less : length line < k = ground (arith, behind) in
          let cut : take k (line ++ 0x0a ∷ body e []) ≡ line ++ 0x0a ∷ take j (body e []) =
            take-long line (0x0a ∷ body e []) k (omega arith)
            ∙ ap (λ n. line ++ take n (0x0a ∷ body e [])) (the_rest k (length line) less) in
          ap (frame_read io) cut
          ∙ frame_read-steps io _ (payload_digest (own_prefix e) e) (take j (body e [])) _
              (head-own_line io e (take j (body e [])) w)
          ∙ payload-cut io e _ j w g f (omega arith)
    ]
