-- ===== src/Json/Writable/Cost.antt =====
-- The parser of mcp/json.c has rounds enough: twice the length of the text.
use asterism_asper.Base.{
  ℕ, suc, ◌+◌, ◌*◌, ◌≤◌, Bool, List, [], ◌∷◌, ◌++◌, if◌then◌else◌, length, arith, length-append,
}
use asterism_asper.Json.Text.{w_string}
use asterism_asper.Json.Value.{Value, Items, Members}
use asterism_asper.Json.Write.{Printing, w_value, w_items, w_members, w_nl_indent}
use asterism_asper.Json.Writable.{cost, cost_items, cost_members}

module _ {D : Type 0} (printing : Printing D) (pretty : Bool) where
  mutual
    unfolding cost w_value w_string

    cost_value_le :
        (v : Value D) (level : ℕ) → cost v ≤ length (w_value printing pretty level v) * 2 + 1
    cost_value_le Value.null level = omega arith
    cost_value_le (Value.boolean b) level = omega arith
    cost_value_le (Value.number n) level = omega arith
    cost_value_le (Value.string s) level = omega arith
    cost_value_le (Value.array Items.nil) level = omega arith
    cost_value_le (Value.array (Items.cons x xs)) level = omega (
      arith,
      length-append (w_nl_indent pretty (suc level))
          (w_value printing pretty (suc level) x ++ w_items printing pretty level xs),
      length-append (w_value printing pretty (suc level) x) (w_items printing pretty level xs),
      cost_value_le x (suc level),
      cost_items_le xs level,
    )
    cost_value_le (Value.object Members.end) level = omega arith
    cost_value_le (Value.object (Members.member k x ms)) level =
        let sep : List ℕ = if pretty then 0x3a ∷ 0x20 ∷ [] else 0x3a ∷ [] in
        let v : List ℕ = w_value printing pretty (suc level) x in
        let tail : List ℕ = w_members printing pretty level ms in
        omega (
          arith,
          length-append (w_nl_indent pretty (suc level)) (w_string k ++ (sep ++ (v ++ tail))),
          length-append (w_string k) (sep ++ (v ++ tail)),
          length-append sep (v ++ tail),
          length-append v tail,
          cost_value_le x (suc level),
          cost_members_le ms level,
        )

    cost_items_le :
        (xs : Items D) (level : ℕ) → cost_items xs ≤ length (w_items printing pretty level xs) * 2
    cost_items_le Items.nil level = omega arith
    cost_items_le (Items.cons x xs) level = omega (
      arith,
      length-append (w_nl_indent pretty (suc level))
          (w_value printing pretty (suc level) x ++ w_items printing pretty level xs),
      length-append (w_value printing pretty (suc level) x) (w_items printing pretty level xs),
      cost_value_le x (suc level),
      cost_items_le xs level,
    )

    cost_members_le :
        (ms : Members D) (level : ℕ)
        → cost_members ms ≤ length (w_members printing pretty level ms) * 2
    cost_members_le Members.end level = omega arith
    cost_members_le (Members.member k x ms) level =
        let sep : List ℕ = if pretty then 0x3a ∷ 0x20 ∷ [] else 0x3a ∷ [] in
        let v : List ℕ = w_value printing pretty (suc level) x in
        let tail : List ℕ = w_members printing pretty level ms in
        omega (
          arith,
          length-append (w_nl_indent pretty (suc level)) (w_string k ++ (sep ++ (v ++ tail))),
          length-append (w_string k) (sep ++ (v ++ tail)),
          length-append sep (v ++ tail),
          length-append v tail,
          cost_value_le x (suc level),
          cost_members_le ms level,
        )

  pub cost_le :
      (v : Value D) (level : ℕ) → cost v ≤ length (w_value printing pretty level v) * 2 + 2
  cost_le v level = omega (arith, cost_value_le v level)
