-- ===== src/Hooks.antt =====
-- The output hooks that sqnim adds to the engine (src/private/util.cpp), and the places of the
-- engine that print through them: `sq_setprintfunc` (sqapi.cpp), `base_print` and `base_error`
-- (sqbaselib.cpp). `vsprintf` is the C library's, a parameter.
use sqnim.Prelude.{
  ℕ, ◌<◌, ◌≡◌, Option, none, some, List, [], ◌∷◌, ltb, ◌==◌, if◌then◌else◌, length, arith,
}

-- the C functions that a machine's `_printfunc` and `_errorfunc` can point to
pub data Callback : Type 0 where
  printfunc printexfunc errorexfunc : Callback

-- `P` is the type of the hooks that the client passes
pub data Effect (P : Type 0) : Type 0 where
  silent : Effect P
  prints : List ℕ → Effect P
  calls : P → ℕ → List ℕ → Effect P
  -- a call through a null pointer, and a text that passes the end of `buf`
  null_call buffer_overflow : Effect P

pub record Machine : Type 0 where
  pub print : Option Callback
  pub error : Option Callback

-- `gPrintfunc` and `gErrfunc`, one pair for the process, and the shared state of each machine
pub record World (P : Type 0) : Type 0 where
  pub print_hook : Option P
  pub error_hook : Option P
  pub machines : ℕ → Machine

-- what the two closure queries read of a closure's function
pub record FunctionProto : Type 0 where
  pub source_name : List ℕ
  pub line_infos : List ℕ

unfoldable pub closure_srcname : FunctionProto → List ℕ
closure_srcname f = f.source_name

-- the line of the first entry; `none` is a read of an empty table
unfoldable pub closure_line : FunctionProto → Option ℕ
closure_line f = elim f.line_infos [ [] ↦ none | line ∷ rest ↦ some line ]

abbrev pub percent_s : List ℕ
percent_s = 37 ∷ 115 ∷ []

abbrev pub buffer_size : ℕ
buffer_size = 1024

module _ {P : Type 0} (vsprintf : List ℕ → List ℕ → List ℕ) where
  unfoldable pub print_ex : World P → ℕ → List ℕ → List ℕ → Effect P
  print_ex w v s arg = elim w.print_hook [
    | none ↦ silent
    | some p ↦
        if ltb (length (vsprintf s arg)) buffer_size
        then calls p v (vsprintf s arg)
        else buffer_overflow
  ]

  unfoldable pub error_ex : World P → ℕ → List ℕ → List ℕ → Effect P
  error_ex w v s arg = elim w.print_hook [
    | none ↦ silent
    | some p ↦
        if ltb (length (vsprintf s arg)) buffer_size
        then elim w.error_hook [ none ↦ null_call | some e ↦ calls e v (vsprintf s arg) ]
        else buffer_overflow
  ]

  unfoldable pub run_callback : Callback → World P → ℕ → List ℕ → List ℕ → Effect P
  unfolding print_ex error_ex
  run_callback printfunc w v s arg = prints (vsprintf s arg)
  run_callback printexfunc w v s arg = print_ex w v s arg
  run_callback errorexfunc w v s arg = error_ex w v s arg

  unfoldable pub sq_setprintfunc : ℕ → Option Callback → Option Callback → World P → World P
  sq_setprintfunc v print error w = record w {
    machines = λ u. if u == v then record { print = print; error = error } else w.machines u;
  }

  unfoldable pub setprintfunc : ℕ → Option P → Option P → World P → World P
  unfolding sq_setprintfunc
  setprintfunc v print error w =
      record (sq_setprintfunc v (some printexfunc) (some errorexfunc) w) {
        print_hook = print;
        error_hook = error;
      }

  -- `str` is the text that `sq_tostring` leaves, `none` if that raises, and so is the result
  unfoldable pub base_print : World P → ℕ → Option (List ℕ) → Option (Effect P)
  unfolding run_callback
  base_print w v str = elim str [
    | none ↦ none
    | some s ↦ elim (w.machines v).print [
      | none ↦ some silent
      | some c ↦ some (run_callback c w v percent_s s)
    ]
  ]

  unfoldable pub base_error : World P → ℕ → Option (List ℕ) → Option (Effect P)
  unfolding run_callback
  base_error w v str = elim str [
    | none ↦ none
    | some s ↦ elim (w.machines v).error [
      | none ↦ some silent
      | some c ↦ some (run_callback c w v percent_s s)
    ]
  ]

  -- With both hooks set for a machine, its `print` and `error` pass a text that the C library
  -- formats unchanged, and that fits the buffer, to their own hook, with the machine.
  pub base_print-setprintfunc :
      (w : World P) (v : ℕ) (p e : P) (s : List ℕ)
      → vsprintf percent_s s ≡ s
      → length s < buffer_size
      → (base_print (setprintfunc v (some p) (some e) w) v (some s) ≡ some (calls p v s))
        × (base_error (setprintfunc v (some p) (some e) w) v (some s) ≡ some (calls e v s))
  unfolding base_print base_error setprintfunc
  base_print-setprintfunc w v p e s f h = (ground arith, ground arith)

  -- The hooks are shared by all machines: after a second machine is given hooks, the first prints
  -- to those of the second.
  pub base_print-shared_hooks :
      (w : World P) (u v : ℕ) (p e p' e' : P) (s : List ℕ)
      → vsprintf percent_s s ≡ s
      → length s < buffer_size
      → base_print
          (setprintfunc u (some p') (some e') (setprintfunc v (some p) (some e) w))
          v
          (some s)
        ≡ some (calls p' v s)
  unfolding base_print setprintfunc
  base_print-shared_hooks w u v p e p' e' s f h = ground arith

  -- The error callback looks at the hook for printing: with only that one set an error is a call
  -- through a null pointer, and with only the error hook set an error is dropped. The text is one
  -- that formatting leaves as it is, and fits the buffer.
  pub base_error-one_hook :
      (w : World P) (v : ℕ) (p : P) (s : List ℕ)
      → vsprintf percent_s s ≡ s
      → length s < buffer_size
      → (base_error (setprintfunc v (some p) none w) v (some s) ≡ some null_call)
        × (base_error (setprintfunc v none (some p) w) v (some s) ≡ some silent)
  unfolding base_error setprintfunc
  base_error-one_hook w v p s f h = (ground arith, ground arith)
