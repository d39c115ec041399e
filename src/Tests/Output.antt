-- ===== src/Tests/Output.antt =====
-- The output hooks.
use sqnim.Hooks.{
  World, calls, null_call, silent, setprintfunc, base_print, base_error, base_print-setprintfunc,
  base_error-one_hook,
}
use sqnim.Prelude.{ℕ, ◌≡◌, refl, List, [], ◌∷◌, some, none, arith}

-- hooks are numbered, and the only format is the one that gives its argument
abbrev format : List ℕ → List ℕ → List ℕ
format s arg = arg

abbrev world : World ℕ
world = record {
  print_hook = none;
  error_hook = none;
  machines = λ v. record { print = none; error = none };
}

abbrev hi : List ℕ
hi = 104 ∷ 105 ∷ []

base_print-setprintfunc_example :
    (base_print format (setprintfunc format 0 (some 1) (some 2) world) 0 (some hi)
      ≡ some (calls 1 0 hi))
    × (base_error format (setprintfunc format 0 (some 1) (some 2) world) 0 (some hi)
        ≡ some (calls 2 0 hi))
base_print-setprintfunc_example = base_print-setprintfunc format world 0 1 2 hi refl (omega arith)

base_error-one_hook_example :
    (base_error format (setprintfunc format 0 (some 1) none world) 0 (some hi) ≡ some null_call)
    × (base_error format (setprintfunc format 0 none (some 1) world) 0 (some hi) ≡ some silent)
base_error-one_hook_example = base_error-one_hook format world 0 1 hi refl (omega arith)
