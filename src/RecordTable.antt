-- ===== src/RecordTable.antt =====
-- The record table of src/record_table.c: the records in order, and an open-addressing map from
-- record id to place. A slot holds the place plus one, and 0 where it is empty.
pub mod Slots
pub mod Map
pub mod Find
pub mod Append
pub mod Add
pub mod Remove
pub mod Write
use asterism_asper.Base.{
  ℕ, zero, suc, ◌+◌, ◌-◌, ◌*◌, Bool, true, false, not, ◌||◌, ◌&&◌, List, [], ◌∷◌, ◌++◌, Option,
  none, some, ltb, leb, ◌==◌, if◌then◌else◌, length, get_or, get_elem?, set, take, drop, replicate,
  bit_and, Result, ok, err, Error, ◌<<◌,
}
use asterism_asper.Base.Text.{str_eq, codes}
use asterism_asper.Record.{Record, Section, Source}
use asterism_asper.Util.Hash.{fnv1a64}

abbrev pub record_limit : ℕ
record_limit = 65536

-- `asper_record_clone`, where memory lasts.
abbrev pub record_clone : {D : Type 0} → Record D → Record D
record_clone r = record r { emb_row = none }

unfoldable pub source_name : Source → List ℕ
source_name Source.seed = codes "seed"
source_name Source.manual = codes "manual"
source_name Source.curator = codes "curator"

unfoldable pub source_parse : List ℕ → Option Source
source_parse s =
    if str_eq s (codes "seed")
    then some Source.seed
    else if str_eq s (codes "manual")
    then some Source.manual
    else if str_eq s (codes "curator")
    then some Source.curator
    else none

unfoldable pub section_name : Section → List ℕ
section_name Section.identity = codes "identity"
section_name Section.context = codes "context"
section_name Section.project = codes "project"
section_name Section.any = codes "any"

unfoldable pub section_parse : List ℕ → Option Section
section_parse s =
    if str_eq s (codes "identity")
    then some Section.identity
    else if str_eq s (codes "context")
    then some Section.context
    else if str_eq s (codes "project")
    then some Section.project
    else none

-- `struct asper_idmap`; `cap` is the length of `slots`.
pub record IdMap : Type 0 where
  pub slots : List ℕ
  pub used : ℕ

-- `asper_table`. A null `idmap` is `none`.
pub record Table (D : Type 0) : Type 0 where
  pub recs : List (Record D)
  pub cap : ℕ
  pub idmap : Option IdMap

-- `& (cap - 1)`, for the first slot of an id and for the slot after a slot.
abbrev pub home : ℕ → List ℕ → ℕ
home cap id = bit_and (fnv1a64 id) (cap - 1)

abbrev pub next_slot : ℕ → ℕ → ℕ
next_slot cap pos = bit_and (pos + 1) (cap - 1)

-- The loop of `idmap_insert`. There is an empty slot, so that `cap` rounds are enough.
pub free_slot : ℕ → List ℕ → ℕ → ℕ
free_slot zero slots pos = pos
free_slot (suc rounds) slots pos = elim (get_or slots pos 0) [
  | zero ↦ pos
  | suc place ↦ free_slot rounds slots (next_slot (length slots) pos)
]

pub idmap_insert : IdMap → List ℕ → ℕ → IdMap
idmap_insert m id place =
    let cap = length m.slots in
    let pos = free_slot cap m.slots (home cap id) in
    record { slots = set m.slots pos (suc place); used = suc m.used }

-- The loop `while (cap < mincap * 2) cap <<= 1;`.
pub map_cap : ℕ → ℕ → ℕ → ℕ
map_cap zero cap need = cap
map_cap (suc rounds) cap need = map_cap rounds (if ltb cap need then cap * 2 else cap) need

-- Whether an insertion rebuilds the map first.
abbrev pub crowded : Option IdMap → Bool
crowded none = true
crowded (some m) = ltb (length m.slots * 7) ((m.used + 1) * 10)

module _ {D : Type 0} where
  pub insert_all : List (Record D) → ℕ → IdMap → IdMap
  insert_all [] place m = m
  insert_all (r ∷ rs) place m = insert_all rs (suc place) (idmap_insert m r.id place)

  -- `table_rehash`, where memory lasts. Sixty doublings pass every `size_t` that a table can need.
  pub rehashed : Table D → ℕ → Table D
  rehashed t mincap =
      let empty : IdMap = record { slots = replicate (map_cap 60 16 (mincap * 2)) 0; used = 0 } in
      record t { idmap = some (insert_all t.recs 0 empty) }

  -- The degraded path of `table_find`.
  pub scan : List (Record D) → List ℕ → Option ℕ
  scan [] id = none
  scan (r ∷ rs) id =
      let rest = scan rs id in
      if str_eq r.id id then some 0 else elim rest [ none ↦ none | some i ↦ some (suc i) ]

  -- The loop of `table_find` over the slots.
  pub find_slot : ℕ → List (Record D) → List ℕ → List ℕ → ℕ → Option ℕ
  find_slot zero recs slots id pos = none
  find_slot (suc rounds) recs slots id pos = elim (get_or slots pos 0) [
    | zero ↦ none
    | suc place ↦ elim (get_elem? recs place) [
      | none ↦ none
      | some r ↦ elim (str_eq r.id id) [
        | true ↦ some place
        | false ↦ find_slot rounds recs slots id (next_slot (length slots) pos)
      ]
    ]
  ]

  -- `table_find`; `none` is the place `(size_t)-1`.
  unfoldable pub table_find : Table D → List ℕ → Option ℕ
  table_find t id = if (length id == 0) || (length t.recs == 0) then none else elim t.idmap [
    | none ↦ scan t.recs id
    | some m ↦
        let cap = length m.slots in
        if ltb 0 cap then find_slot cap t.recs m.slots id (home cap id) else scan t.recs id
  ]

  pub table_get : Table D → List ℕ → Option (Record D)
  table_get t id = elim (table_find t id) [ none ↦ none | some i ↦ get_elem? t.recs i ]

  -- An assignment through the pointer that `asper_table_get` answers for an id.
  pub table_write : Table D → List ℕ → Record D → Table D
  table_write t id r = elim (table_find t id) [
    | none ↦ t
    | some i ↦ record t { recs = set t.recs i r }
  ]

  -- The last part of `asper_table_add`: the record takes the next place.
  abbrev pub appended : Table D → Record D → Table D
  appended t r = record t {
    recs = t.recs ++ r ∷ [];
    idmap = elim t.idmap [ none ↦ none | some m ↦ some (idmap_insert m r.id (length t.recs)) ];
  }

  abbrev pub grown : Table D → Table D
  grown t =
      if length t.recs == t.cap then record t { cap = if t.cap == 0 then 32 else t.cap * 2 } else t

  -- `asper_table_add`. `granted` and `mapped` are what `realloc` and the two `calloc` answer.
  unfoldable pub table_add : Bool → Bool → Table D → Record D → Result (Unit {0}) × Table D
  table_add granted mapped t r =
      let n = length t.recs in
      let t' = grown t in
      if length r.id == 0 then (err Error.invalid, t) else elim (table_find t r.id) [
        | some i ↦ (err Error.invalid, t)
        | none ↦
            if leb record_limit n
            then (err Error.limit, t)
            else if (n == t.cap) && not granted
            then (err Error.nomem, t)
            else if crowded t.idmap
            then (if mapped
                then (ok tt, appended (rehashed t' (n + 1)) r)
                else (err Error.nomem, t'))
            else (ok tt, appended t' r)
      ]

  abbrev pub without : List (Record D) → ℕ → List (Record D)
  without recs i = take i recs ++ drop (suc i) recs

  -- `asper_table_remove`. Where the rehash fails, the table goes on without a map.
  pub table_remove : Bool → Table D → List ℕ → Bool × Table D
  table_remove mapped t id = elim (table_find t id) [
    | none ↦ (false, t)
    | some i ↦
        let t' : Table D = record t { recs = without t.recs i } in
        let n = length t'.recs in
        (true, if mapped then rehashed t' (if n == 0 then 1 else n) else record t' { idmap = none })
  ]
