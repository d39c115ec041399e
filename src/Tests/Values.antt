-- ===== src/Tests/Values.antt =====
-- Values: comparison and arithmetic.
use sqnim.Prelude.Int.{pos, negsuc}
use sqnim.Prelude.{◌≡◌, ◌≢◌, ◌↔◌, List, [], ◌∷◌, arith, ℕ}
use sqnim.Tests.Samples.{sample_ops, sample_ieee, no_meta, sample_env}
use sqnim.Value.Arith.Division.{arith_int-div-cases, exec_div_int-cases}
use sqnim.Value.Arith.Exact.{exec_arith-mod_never_throws}
use sqnim.Value.Arith.{
  ok as fine, err, fault, div, mod_op, arith_int, exec_div_int, exec_arith, quot, continues, throws,
  division_by_zero, integer_overflow, int_min, long_min, modulo_by_zero,
}
use sqnim.Value.Compare.Mixed.{obj_cmp-null_both_greater}
use sqnim.Value.Compare.{ok, obj_cmp}
use sqnim.Value.{null_value, integer, string}

abbrev ab : List ℕ
ab = 97 ∷ 98 ∷ []

abbrev b : List ℕ
b = 98 ∷ []

abbrev ba : List ℕ
ba = 98 ∷ 97 ∷ []

arith_int-div-cases_example :
    ((arith_int div int_min (negsuc 0) ≡ err division_by_zero) ↔ (negsuc 0 ≡ pos 0))
    × ((arith_int div int_min (negsuc 0) ≡ err integer_overflow)
        ↔ ((int_min ≡ int_min) × (negsuc 0 ≡ negsuc 0)))
    × ((arith_int div int_min (negsuc 0) ≡ fault) ↔ ((int_min ≡ long_min) × (negsuc 0 ≡ negsuc 0)))
arith_int-div-cases_example = arith_int-div-cases int_min (negsuc 0) (omega arith) (omega arith)

exec_div_int-cases_example :
    ((exec_div_int (pos 7) (pos 2) ≡ err division_by_zero) ↔ (pos 2 ≡ pos 0))
    × ((exec_div_int (pos 7) (pos 2) ≡ fault) ↔ ((pos 7 ≡ long_min) × (pos 2 ≡ negsuc 0)))
    × ((exec_div_int (pos 7) (pos 2) ≡ fine (quot (pos 7) (pos 2)))
        ↔ ((pos 2 ≢ pos 0) × ¬ ((pos 7 ≡ long_min) × (pos 2 ≡ negsuc 0))))
exec_div_int-cases_example = exec_div_int-cases (pos 7) (pos 2) (omega arith) (omega arith)

exec_arith-mod_never_throws_example :
    (exec_arith sample_ops sample_env div null_value (integer (pos 5)) (integer (pos 0))
      ≡ throws division_by_zero)
    × (exec_arith sample_ops sample_env mod_op null_value (string ab) (integer (pos 0))
        ≢ throws modulo_by_zero)
    × (exec_arith sample_ops sample_env mod_op null_value (integer (pos 5)) (integer (pos 0))
        ≡ continues null_value)
exec_arith-mod_never_throws_example =
    exec_arith-mod_never_throws sample_ops sample_env null_value (string ab) (integer (pos 0))
      (pos 5) modulo_by_zero

obj_cmp-null_both_greater_example :
    (obj_cmp sample_ops no_meta null_value (integer (negsuc 4)) ≡ ok (pos 1))
    × (obj_cmp sample_ops no_meta (integer (negsuc 4)) null_value ≡ ok (pos 1))
obj_cmp-null_both_greater_example =
    obj_cmp-null_both_greater sample_ops no_meta sample_ieee 4 (omega arith)
