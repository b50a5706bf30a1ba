-- ===== src/Paging/Identity.antt =====
-- What the processor reads from the tables that `init_paging` writes, with which the kernel starts.
use Prim.Native.Nat.{bit_or}
use ece391_mp.Base.{
  ℕ, zero, suc, ◌+◌, ◌*◌, ◌/◌, ◌≤◌, ◌<◌, ◌≡◌, ◌≢◌, ap, ◌∙◌, ◌==◌, update, arith, Bool-cases, inl,
  inr, ==_iff,
}
use ece391_mp.Kernel.{Paging}
use ece391_mp.Paging.{fill_table, num_proc}
use ece391_mp.Paging.Map.{fill_table-below}

-- Where the linker puts the kernel's table: on a page of its own.
pub record KernelPlaced (p : Paging) : Type 0 where
  pub aligned : p.pgtbl_addr ≡ p.pgtbl_addr / 4096 * 4096
  pub apart : (q : ℕ) → q < num_proc → p.pgtbl_proc_addr q / 4096 ≢ p.pgtbl_addr / 4096

-- An entry that `fill_table` writes.
pub fill_table-inside :
    (t : ℕ → ℕ) (size flags rounds i j : ℕ)
    → i ≤ j
    → j < i + rounds
    → fill_table t size flags rounds i j ≡ bit_or (j * size) flags
unfolding fill_table
fill_table-inside t size flags zero i j lo hi = absurd (omega arith)
fill_table-inside t size flags (suc rounds) i j lo hi = elim (Bool-cases (i == j)) [
  | inl here ↦
      let e = (==_iff i j).0 here in
      fill_table-below _ size flags rounds (i + 1) j (omega arith)
      ∙ rw here (ap (λ n. bit_or (n * size) flags) e)
  | inr other ↦
      fill_table-inside (update t i (bit_or (i * size) flags)) size flags rounds (i + 1) j
        (ground (arith, other)) (omega arith)
]
