-- ===== src/StringTable/Hash.antt =====
-- The fuel of the loop of `_hashstr`.
use sqnim.Prelude.{ℕ, zero, suc, ◌-◌, ◌≤◌, ◌<◌, ◌≡◌, List, arith}
use sqnim.StringTable.{hash_loop, hash_step}

-- A round more than the characters that are left changes nothing.
pub hash_loop-enough :
    (f step : ℕ) (s : List ℕ) (l1 h : ℕ)
    → 0 < step
    → l1 ≤ f
    → hash_loop (suc f) step s l1 h ≡ hash_loop f step s l1 h
unfolding hash_loop
hash_loop-enough zero step s l1 h pos le = ground arith
hash_loop-enough (suc f) step s l1 h pos le =
    ground (arith, hash_loop-enough f step s (l1 - step) (hash_step s l1 h) pos)
