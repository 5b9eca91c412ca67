-- ===== src/Syscall/Processes.antt =====
-- The process that src/main.rs starts with `test_fn`: it calls `write` over and over.
use leaf_os.Common.{
  Bool, true, ℕ, zero, suc, ◌+◌, ◌≤◌, ◌≡◌, refl, sym, subst, ap, ◌∙◌, Option, some, List, [], ◌∷◌,
  ◌++◌, ◌>>=◌, bytes, arith,
}
use leaf_os.Shell.{Console, print}
use leaf_os.Shell.Total.{IsValid, print-Continues}
use leaf_os.Syscall.{load, string_from, Machine, stdout_fd, read_bytes, do_syscall_3}
use leaf_os.Syscall.Laws.{write_operands, do_syscall_3-write}

-- `n` rounds of the loop of `test_fn`, with its text at `msg`.
pub test_fn : (ℕ → ℕ) → ℕ → ℕ → Machine → Option Machine
test_fn text msg zero k = some k
test_fn text msg (suc n) k = do
  (k', result) ← do_syscall_3 text k 1 stdout_fd msg 8
  test_fn text msg n k'

-- The console after a text was printed `n` times.
pub print_times : ℕ → List ℕ → Console → Option Console
print_times zero text c = some c
print_times (suc n) text c = do c' ← print c text; print_times n text c'

-- A round of `test_fn`.
record Round (text : ℕ → ℕ) (msg : ℕ) (k : Machine) : Type 0 where
  out : Machine
  returns : do_syscall_3 text k 1 stdout_fd msg 8 ≡ some (out, 1)
  line : print k.console (bytes "TESTeee!\n") ≡ some out.console
  valid : IsValid out.console
  same_rsp : out.rsp ≡ k.rsp
  same_heap : out.heap ≡ k.heap
  above : (a : ℕ) → k.rsp ≤ a → out.memory a ≡ k.memory a

round :
    (text : ℕ → ℕ) (msg args : ℕ) (k : Machine)
    → read_bytes text msg 8 ≡ bytes "TESTeee!"
    → k.rsp ≡ args + 136
    → k.heap 8 ≡ true
    → IsValid k.console
    → Round text msg k
unfolding string_from
round text msg args k at room heap v =
    let (c, m, returns, out, other, above) = do_syscall_3-write text k args 1 msg 8 room v heap in
    let line : print k.console (bytes "TESTeee!\n") ≡ some c =
      ap (λ (t : List ℕ). print k.console (t ++ b'\n' ∷ [])) (sym at) ∙ out refl in
    let kept = print-Continues k.console (bytes "TESTeee!\n") v in
    let same : kept.out ≡ c = cc (kept.returns, line) in
    record {
      out = record k {
        registers = (load k (write_operands 1 msg 8)).registers;
        memory = m;
        console = c;
        acknowledged = 128 ∷ k.acknowledged;
      };
      returns = returns;
      line = line;
      valid = subst IsValid same kept.valid;
      same_rsp = refl;
      same_heap = refl;
      above = above;
    }

-- However long `test_fn` runs, it does not panic: on a valid console, with room on the stack, and
-- if the heap has room for eight bytes, each round prints the line "TESTeee!", and nothing else
-- happens to the console, to the stack pointer or to the stack above it.
pub test_fn-print_times :
    (text : ℕ → ℕ) (msg args n : ℕ) (k : Machine)
    → read_bytes text msg 8 ≡ bytes "TESTeee!"
    → k.rsp ≡ args + 136
    → k.heap 8 ≡ true
    → IsValid k.console
    → (k' : Machine) × (test_fn text msg n k ≡ some k')
      × (print_times n (bytes "TESTeee!\n") k.console ≡ some k'.console)
      × IsValid k'.console
      × (k'.rsp ≡ k.rsp)
      × ((a : ℕ) → k.rsp ≤ a → k'.memory a ≡ k.memory a)
unfolding test_fn print_times
test_fn-print_times text msg args zero k at room heap v = (k, refl, refl, v, refl, λ a above. refl)
test_fn-print_times text msg args (suc n) k at room heap v =
    let r = round text msg args k at room heap v in
    let (k', runs, lines, valid, same_rsp, above) =
      test_fn-print_times text msg args n r.out at (r.same_rsp ∙ room)
        (ap (λ (f : ℕ → Bool). f 8) r.same_heap ∙ heap) r.valid in
    (
      k',
      rw r.returns runs,
      rw r.line lines,
      valid,
      same_rsp ∙ r.same_rsp,
      λ a le. above a (omega (arith, r.same_rsp)) ∙ r.above a le,
    )
