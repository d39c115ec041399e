-- ===== src/Array/Sort/Integers.antt =====
-- The default comparison of `sort`, `ObjCmp`, on an array of integers.
use sqnim.Array.Sort.Order.{IsOrder}
use sqnim.Prelude.Int.{ℤ, pos, negsuc, ltb_ℤ, eqb_ℤ, ◌≤ℤ◌}
use sqnim.Prelude.{refl, Option, none, some, arith, if◌then◌else◌}
use sqnim.Value.Compare.{Result, ok, err, obj_cmp}
use sqnim.Value.Float.{FloatOps}
use sqnim.Value.{Value, integer}

module _ (ops : FloatOps) (meta : Value ops.F → Value ops.F → Option (Result (Value ops.F))) where
  -- `_sort_compare` with no compare function
  unfoldable pub sort_compare : Value ops.F → Value ops.F → Option ℤ
  sort_compare a b = elim (obj_cmp ops meta a b) [ err e ↦ none | ok r ↦ some r ]

  abbrev pub compare_integers : ℤ → ℤ → Option ℤ
  compare_integers a b = sort_compare (integer a) (integer b)

  -- Between integers the default comparison of the sort is an order, that of the integers.
  pub compare_integers-IsOrder : IsOrder compare_integers ◌≤ℤ◌
  unfolding sort_compare obj_cmp
  compare_integers-IsOrder = record {
    defined = λ a b. (if eqb_ℤ a b then pos 0 else if ltb_ℤ a b then negsuc 0 else pos 1, refl);
    low = λ a b r h s. ground arith;
    high = λ a b r h s. ground arith;
    self = λ a r h. ground arith;
    le_trans = λ a b c p q. omega arith;
  }
