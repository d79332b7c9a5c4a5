-- ===== src/EventFrame/Head.antt =====
-- Reading the line of a frame that was written: `asper_event_frame_head` of src/event_frame.c.
use mathlib.Core.List.{append_assoc}
use asterism_asper.Base.{
  ℕ, suc, ◌+◌, ◌-◌, ◌<◌, ◌≡◌, refl, ap, ◌∙◌, true, false, List, [], ◌∷◌, ◌++◌, leb, ◌==◌, length,
  length-append, arith, char_at, take, drop, subst, ok, err, Error, fail_if, ◌>>=◌, ◌>>◌,
  take-append, get_or-append, drop-append_suc, All, All-append,
}
use asterism_asper.Base.Text.{codes, str_eq, str_eq_refl}
use asterism_asper.Sha256.{sha256, sha256_init, sha256_update}
use asterism_asper.EventFrame.{Event, prefix, prefix_fields, hex_digest, frame_line}
use asterism_asper.EventFrame.Read.{Reading, head_line, Fields, fields, checked_line, frame_head}
use asterism_asper.EventFrame.Line.{
  IsPlain, IsFields, gets-line, until_zero-line, has_newline-line, length-prefix, prefix-IsPlain,
  hex_digest-IsPlain, length-hex_digest, sha256_final-IsBytes,
}
use asterism_asper.EventFrame.Fields.{bare, read_fields, prefix_fields-shape, fields-shape}

pub prefix-bare : (e : Event) (obj text : ℕ) → prefix (bare e) obj text ≡ prefix e obj text
unfolding prefix prefix_fields
prefix-bare e obj text = refl

-- What stands behind the fields: the two hashes and the newline.
abbrev hashes : List ℕ → List ℕ → List ℕ
hashes own hash = own ++ 0x20 ∷ (hash ++ 0x0a ∷ [])

record IsHashes (own hash : List ℕ) : Type 0 where
  size : length (hashes own hash) ≡ 130
  space : char_at (hashes own hash) 64 ≡ 0x20
  newline : char_at (hashes own hash) 129 ≡ 0x0a
  front : take 64 (hashes own hash) ≡ own
  back : take 64 (drop 65 (hashes own hash)) ≡ hash

two-IsHashes : (own hash : List ℕ) → length own ≡ 64 → length hash ≡ 64 → IsHashes own hash
two-IsHashes own hash h k = record {
  size =
      omega (
        arith,
        length-append own (0x20 ∷ (hash ++ 0x0a ∷ [])),
        length-append hash (0x0a ∷ []),
        h,
        k,
      );
  space =
      subst (λ n. char_at (hashes own hash) n ≡ 0x20) h
        (get_or-append own 0x20 (hash ++ 0x0a ∷ []) 0);
  newline =
      let whole : length (own ++ 0x20 ∷ hash) ≡ 129 =
        omega (arith, length-append own (0x20 ∷ hash), h, k) in
      subst (λ l. char_at l 129 ≡ 0x0a) (append_assoc own (0x20 ∷ hash) (0x0a ∷ []))
        (subst (λ n. char_at ((own ++ 0x20 ∷ hash) ++ 0x0a ∷ []) n ≡ 0x0a) whole
          (get_or-append (own ++ 0x20 ∷ hash) 0x0a [] 0));
  front =
      subst (λ n. take n (hashes own hash) ≡ own) h (take-append own (0x20 ∷ (hash ++ 0x0a ∷ [])));
  back =
      let behind : drop 65 (hashes own hash) ≡ hash ++ 0x0a ∷ [] =
        subst (λ n. drop (suc n) (hashes own hash) ≡ hash ++ 0x0a ∷ []) h
          (drop-append_suc own 0x20 (hash ++ 0x0a ∷ [])) in
      ap (λ l. take 64 l) behind
      ∙ subst (λ n. take n (hash ++ 0x0a ∷ []) ≡ hash) k (take-append hash (0x0a ∷ []));
}

in_buffer : (n : ℕ) → n < 192 → leb 192 n ≡ false
in_buffer n h = ground arith

all_used : (line head : ℕ) → line ≡ head + 131 → (line - 130 + 129 == head + 130) ≡ true
all_used line head e = ground arith

checked_line-hashes :
    (e : Event) (obj text : ℕ) (own hash : List ℕ)
    → IsHashes own hash
    → length (prefix e obj text) < 192
    → hex_digest (sha256 (prefix e obj text)) ≡ own
    → checked_line
        (prefix e obj text ++ 0x20 ∷ hashes own hash)
        (read_fields e obj text (hashes own hash))
      ≡ ok (read_fields e obj text (hashes own hash), hash)
unfolding checked_line
checked_line-hashes e obj text own hash s short eq =
    let head : List ℕ = prefix e obj text in
    let line : List ℕ = head ++ 0x20 ∷ hashes own hash in
    let bounded : leb 192 (length head) ≡ false = in_buffer (length head) short in
    let used : (length line - 130 + 129 == length head + 130) ≡ true =
      all_used (length line) (length head)
        (omega (arith, length-append head (0x20 ∷ hashes own hash), s.size)) in
    let front : take (length head) line ≡ head = take-append head (0x20 ∷ hashes own hash) in
    let space : char_at line (length head) ≡ 0x20 = get_or-append head 0x20 (hashes own hash) 0 in
    rw
      (
        checked_line,
        s.size,
        s.space,
        s.newline,
        prefix-bare e obj text,
        bounded,
        used,
        front,
        str_eq_refl head,
        space,
        eq,
        s.front,
        str_eq_refl own,
        s.back,
      )
      refl

not_empty : (line : List ℕ) → (length (line ++ 0x0a ∷ []) == 0) ≡ false
not_empty line = ground (arith, length-append line (0x0a ∷ []))

gets_round :
    (io : Reading) (line rest : List ℕ)
    → All IsPlain line
    → length line < 351
    → head_line io (line ++ 0x0a ∷ rest) ≡ ok (line ++ 0x0a ∷ [], rest)
unfolding head_line
gets_round io line rest p h =
    let some_bytes : (length (line ++ 0x0a ∷ []) == 0) ≡ false = not_empty line in
    rw
      (
        head_line,
        gets-line 351 line rest p h,
        some_bytes,
        until_zero-line line p,
        has_newline-line line,
      )
      refl

frame_head-steps :
    (io : Reading) (bytes line rest hash : List ℕ) (f : Fields)
    → head_line io bytes ≡ ok (line, rest)
    → str_eq (take 5 line) (codes "AEV2 ") ≡ true
    → fields (drop 5 line) ≡ ok f
    → checked_line line f ≡ ok (f, hash)
    → frame_head io bytes ≡ ok (f, hash, rest)
unfolding frame_head
frame_head-steps io bytes line rest hash f h magic_read read checked =
    rw (frame_head, h, ◌>>=◌, magic_read, fail_if, ◌>>◌, ◌>>=◌, read, ◌>>=◌, checked) refl

abbrev pub own_hash : Event → ℕ → ℕ → List ℕ
own_hash e obj text = hex_digest (sha256 (prefix e obj text))

pub length-own_hash : (e : Event) (obj text : ℕ) → length (own_hash e obj text) ≡ 64
length-own_hash e obj text = omega (
  arith,
  length-hex_digest (sha256 (prefix e obj text)),
  (sha256_final-IsBytes (sha256_update sha256_init (prefix e obj text))).1,
)

pub frame_line-IsPlain :
    (e : Event) (obj text : ℕ) (hash : List ℕ)
    → IsFields e obj text
    → All IsPlain hash
    → length hash ≡ 64
    → All IsPlain (frame_line (prefix e obj text) hash)
      × (length (frame_line (prefix e obj text) hash) < 351)
unfolding frame_line
frame_line-IsPlain e obj text hash w p k =
    let head = prefix e obj text in
    let own = own_hash e obj text in
    let own_plain : All IsPlain own =
      hex_digest-IsPlain (sha256 head) (sha256_final-IsBytes (sha256_update sha256_init head)).0 in
    let short = length-prefix e obj text w in
    (
      All-append IsPlain head (0x20 ∷ (own ++ 0x20 ∷ hash)) (prefix-IsPlain e obj text w) (
        (omega arith, omega arith),
        All-append IsPlain own (0x20 ∷ hash) own_plain ((omega arith, omega arith), p),
      ),
      omega (
        arith,
        length-append head (0x20 ∷ (own ++ 0x20 ∷ hash)),
        length-append own (0x20 ∷ hash),
        length-own_hash e obj text,
        k,
        short,
      ),
    )

-- The text behind the fields of a line.
abbrev pub behind_fields : Event → ℕ → ℕ → List ℕ → List ℕ
behind_fields e obj text hash = hashes (own_hash e obj text) hash

line-hashes :
    (e : Event) (obj text : ℕ) (hash : List ℕ)
    → frame_line (prefix e obj text) hash ++ 0x0a ∷ []
      ≡ prefix e obj text ++ 0x20 ∷ behind_fields e obj text hash
unfolding frame_line
line-hashes e obj text hash = rw (frame_line, append_assoc, append_assoc) refl

magic_read :
    (e : Event) (obj text : ℕ) (behind : List ℕ)
    → (str_eq (take 5 (prefix e obj text ++ behind)) (codes "AEV2 ") ≡ true)
      × (drop 5 (prefix e obj text ++ behind) ≡ prefix_fields e obj text ++ behind)
unfolding prefix
magic_read e obj text behind = (str_eq_refl (codes "AEV2 "), refl)

-- A line that was written is read back, whatever is behind it.
pub frame_head-line :
    (io : Reading) (e : Event) (obj text : ℕ) (hash rest : List ℕ)
    → IsFields e obj text
    → All IsPlain hash
    → length hash ≡ 64
    → frame_head io (frame_line (prefix e obj text) hash ++ 0x0a ∷ rest)
      ≡ ok (read_fields e obj text (behind_fields e obj text hash), hash, rest)
frame_head-line io e obj text hash rest w p k =
    let line = frame_line (prefix e obj text) hash in
    let behind = behind_fields e obj text hash in
    let (plain, short) = frame_line-IsPlain e obj text hash w p k in
    let (magic, cut) = magic_read e obj text (0x20 ∷ behind) in
    let read : head_line io (line ++ 0x0a ∷ rest) ≡ ok (prefix e obj text ++ 0x20 ∷ behind, rest) =
      gets_round io line rest plain short ∙ ap (λ l. ok (l, rest)) (line-hashes e obj text hash) in
    frame_head-steps io (line ++ 0x0a ∷ rest) (prefix e obj text ++ 0x20 ∷ behind) rest hash
      (read_fields e obj text behind) read magic
      (ap fields (cut ∙ prefix_fields-shape e obj text behind) ∙ fields-shape e obj text behind w)
      (checked_line-hashes e obj text (own_hash e obj text) hash
        (two-IsHashes (own_hash e obj text) hash (length-own_hash e obj text) k)
        (length-prefix e obj text w) refl)

pub frame_head-err :
    (io : Reading) (bytes : List ℕ) (code : Error)
    → head_line io bytes ≡ err code
    → frame_head io bytes ≡ err code
unfolding frame_head
frame_head-err io bytes code e = rw (frame_head, e) refl
