-- ===== src/EventFrame/Fields.antt =====
-- Reading the fields of a line that was written: `asper_event_frame_head` of src/event_frame.c.
use mathlib.Core.List.{append_assoc}
use asterism_asper.Base.{
  ℕ, suc, ◌-◌, ◌^◌, ◌≤◌, ◌<◌, ◌≡◌, refl, true, false, not, ◌&&◌, List, [], ◌∷◌, ◌++◌, ltb, ◌==◌,
  length, length-append, arith, char_at, take, drop, subst, ok, fail_if, ◌>>=◌, ◌>>◌, take-append,
  get_or-append, drop-append_suc,
}
use asterism_asper.Json.Write.{print_int}
use asterism_asper.Uuid.{uuid_valid}
use asterism_asper.EventFrame.{Event, kind_number, event_bytes, print_unsigned, prefix_fields}
use asterism_asper.EventFrame.Read.{Fields, id_field, number, signed_number, fields}
use asterism_asper.EventFrame.Numbers.{
  number-print_unsigned, signed_number-print_int, kind_from-number, kind_bound,
}
use asterism_asper.EventFrame.Line.{IsFields, uuid_valid-IsPlain}

-- An event that holds the metadata only.
abbrev pub bare : Event → Event
bare e = record e { text = []; object_ref = [] }

abbrev pub read_fields : Event → ℕ → ℕ → List ℕ → Fields
read_fields e obj text behind = record {
  event = bare e;
  object_bytes = obj;
  text_bytes = text;
  behind = behind;
}

id_field-id :
    (id rest : List ℕ) → uuid_valid id ≡ true → id_field (id ++ 0x20 ∷ rest) ≡ ok (id, rest)
unfolding id_field
id_field-id id rest e =
    let (plain, size) = uuid_valid-IsPlain id e in
    let long : ltb (length (id ++ 0x20 ∷ rest)) 37 ≡ false =
      ground (arith, length-append id (0x20 ∷ rest), size) in
    let space : char_at (id ++ 0x20 ∷ rest) 36 ≡ 0x20 =
      subst (λ n. char_at (id ++ 0x20 ∷ rest) n ≡ 0x20) size (get_or-append id 0x20 rest 0) in
    let front : take 36 (id ++ 0x20 ∷ rest) ≡ id =
      subst (λ n. take n (id ++ 0x20 ∷ rest) ≡ id) size (take-append id (0x20 ∷ rest)) in
    let back : drop 37 (id ++ 0x20 ∷ rest) ≡ rest =
      subst (λ n. drop (suc n) (id ++ 0x20 ∷ rest) ≡ rest) size (drop-append_suc id 0x20 rest) in
    rw (id_field, long, space, front, e, back) refl

-- The fields, one behind the other.
pub shape : Event → ℕ → ℕ → List ℕ → List ℕ
shape e obj text behind =
    print_unsigned e.sequence
    ++ 0x20
      ∷ (print_int e.at
          ++ 0x20
            ∷ (print_unsigned (kind_number e.kind)
                ++ 0x20
                  ∷ (print_int e.pinned
                      ++ 0x20
                        ∷ (e.id
                            ++ 0x20
                              ∷ (print_unsigned obj
                                  ++ 0x20 ∷ (print_unsigned text ++ 0x20 ∷ behind))))))

pub prefix_fields-shape :
    (e : Event) (obj text : ℕ) (behind : List ℕ)
    → prefix_fields e obj text ++ 0x20 ∷ behind ≡ shape e obj text behind
unfolding prefix_fields shape
prefix_fields-shape e obj text behind =
    rw
      (
        prefix_fields, shape, append_assoc, append_assoc, append_assoc, append_assoc, append_assoc,
        append_assoc,
      )
      refl

pub fields-shape :
    (e : Event) (obj text : ℕ) (behind : List ℕ)
    → IsFields e obj text
    → fields (shape e obj text behind) ≡ ok (read_fields e obj text behind)
unfolding fields shape print_int
fields-shape e obj text behind w =
    let (b, flag, eq) = w.pinned_flag in
    let some_sequence : (e.sequence == 0) ≡ false = ground (arith, w.sequence_pos) in
    let size : obj ≤ 71 = ground (arith, w.object_size) in
    let sizes : (not (obj == 0) && not (obj == 71)) ≡ false = ground (arith, w.object_size) in
    let unsigned : (n max : ℕ)
        → n < 2 ^ 64
        → n ≤ max
        → (rest : List ℕ) → number (print_unsigned n ++ 0x20 ∷ rest) max ≡ ok (n, rest) =
      λ n max h k rest. number-print_unsigned n max rest h k in
    let sequence_read =
      unsigned e.sequence (2 ^ 64 - 1) w.sequence_small (omega (arith, w.sequence_small)) in
    let at_read : (rest : List ℕ)
        → signed_number (print_int e.at ++ 0x20 ∷ rest) ≡ ok (e.at, rest) =
      λ rest. signed_number-print_int e.at rest w.at_small in
    let kind_read =
      unsigned (kind_number e.kind) 7 (omega (arith, kind_bound e.kind)) (kind_bound e.kind) in
    let pinned_read = unsigned b 1 (omega arith) flag in
    let id_read : (rest : List ℕ) → id_field (e.id ++ 0x20 ∷ rest) ≡ ok (e.id, rest) =
      λ rest. id_field-id e.id rest w.id_valid in
    let obj_read = unsigned obj 71 (omega arith) size in
    let text_read = unsigned text event_bytes (omega (arith, w.text_size)) w.text_size in
    rw
      (
        fields, shape, sequence_read, ◌>>=◌, some_sequence, fail_if, ◌>>◌, ◌>>=◌, at_read, ◌>>=◌,
        kind_read, ◌>>=◌, eq, print_int, pinned_read, ◌>>=◌, id_read, ◌>>=◌, obj_read, ◌>>=◌, sizes,
        fail_if, ◌>>◌, ◌>>=◌, text_read, ◌>>=◌, kind_from-number,
      )
      refl
