-- ===== src/StatsVector/Loops.antt =====
-- An array of samples as a function of the index, and the loops of StatsVector that move its cells.
use topy.Prelude.{ℕ, zero, suc, ◌+◌, ◌-◌, ◌≡◌, ◌&&◌, arith, ℤ, pos, ltb, leb, ◌==◌, if◌then◌else◌}

abbrev pub Cells : Type 0
Cells = ℕ → ℤ

-- samples[i] = value
abbrev pub write : Cells → ℕ → ℤ → Cells
write c i value j = if j == i then value else c j

-- for (i = m - 1; i >= 0; i--) samples[i + delta] = samples[i];
unfoldable pub shift_loop : ℕ → ℕ → Cells → Cells
shift_loop delta zero c = c
shift_loop delta (suc i) c = shift_loop delta i (write c (i + delta) (c i))

-- for (i = from; i < from + n; i++) samples[i] = 0;
unfoldable pub fill_loop : ℕ → ℕ → Cells → Cells
fill_loop zero from c = c
fill_loop (suc n) from c = fill_loop n (from + 1) (write c from (pos 0))

-- for (i = from; i < from + n; i++) samples[i] = samples[i + 1];
unfoldable pub close_loop : ℕ → ℕ → Cells → Cells
close_loop zero from c = c
close_loop (suc n) from c = close_loop n (from + 1) (write c from (c (from + 1)))

pub shift_loop_at :
    (delta m : ℕ) (c : Cells) (j : ℕ)
    → shift_loop delta m c j ≡ (if leb delta j && ltb j (m + delta) then c (j - delta) else c j)
unfolding shift_loop
shift_loop_at delta zero c j = ground arith
shift_loop_at delta (suc i) c j =
    ground (arith, shift_loop_at delta i (write c (i + delta) (c i)) j)

pub fill_loop_at :
    (n from : ℕ) (c : Cells) (j : ℕ)
    → fill_loop n from c j ≡ (if leb from j && ltb j (from + n) then pos 0 else c j)
unfolding fill_loop
fill_loop_at zero from c j = ground arith
fill_loop_at (suc n) from c j = ground (arith, fill_loop_at n (from + 1) (write c from (pos 0)) j)

pub close_loop_at :
    (n from : ℕ) (c : Cells) (j : ℕ)
    → close_loop n from c j ≡ (if leb from j && ltb j (from + n) then c (j + 1) else c j)
unfolding close_loop
close_loop_at zero from c j = ground arith
close_loop_at (suc n) from c j =
    ground (arith, close_loop_at n (from + 1) (write c from (c (from + 1))) j)
