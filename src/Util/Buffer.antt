-- ===== src/Util/Buffer.antt =====
-- The growable buffer of src/util.c. `none` of an operation is the error ASPER_ERR_NOMEM.
use asterism_asper.Base.{
  ℕ, zero, suc, ◌+◌, ◌-◌, ◌*◌, ◌/◌, ◌^◌, Bool, List, [], ◌++◌, ltb, leb, ◌==◌, if◌then◌else◌,
  length, Result, ok, err, Error,
}

-- SIZE_MAX of a 64-bit target.
abbrev pub size_max : ℕ
size_max = 2 ^ 64 - 1

-- `data` up to `len`; `cap` is 0 while `data` is null.
pub record Buf : Type 0 where
  pub text : List ℕ
  pub cap : ℕ

abbrev pub len : Buf → ℕ
len b = length b.text

pub buf_init : Buf
buf_init = record { text = []; cap = 0 }

-- The doubling loop. Doubling reaches any need below 2 ^ 64 in 64 rounds.
pub grow_cap : ℕ → ℕ → ℕ → ℕ
grow_cap zero cap need = cap
grow_cap (suc fuel) cap need =
    let more = grow_cap fuel (cap * 2) need in
    if ltb cap need then (if ltb (size_max / 2) cap then need else more) else cap

-- `buf_reserve`; `granted` is what `realloc` answers.
pub buf_reserve : Bool → Buf → ℕ → Result Buf
buf_reserve granted b extra =
    let need = len b + extra + 1 in
    if ltb (size_max - len b - 1) extra
    then err Error.nomem
    else if leb need b.cap
    then ok b
    else if granted
    then ok (record b { cap = grow_cap 64 (if b.cap == 0 then 64 else b.cap) need })
    else err Error.nomem

-- `asper_buf_append` of bytes that are not null.
pub buf_append : Bool → Buf → List ℕ → Result Buf
buf_append granted b s = elim (buf_reserve granted b (length s)) [
  | err e ↦ err e
  | ok b' ↦ ok (record b' { text = b'.text ++ s })
]
