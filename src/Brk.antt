-- ===== src/Brk.antt =====
-- libc/brk.c and kernel/heap.c: the end of the heap, as the library and the kernel keep it.
--
-- Addresses are 16-bit words, and 2 ^ 16 - 1 is the pointer -1. The trap of `_brk` calls
-- `heap_brk`.
pub mod Grants
mod Tests
use i80k.Base.{ℕ, ◌+◌, ◌-◌, ◌^◌, Bool, ◌||◌, ◌==◌, ltb, if◌then◌else◌}
use i80k.Base.Word.{u16, Ret, ok, err}

-- `lib_brk` is the library's `_lib_brk`, 0 before it is set.
pub record Brk : Type 0 where
  pub heap_base : ℕ
  pub heap_max : ℕ
  pub heap : ℕ
  pub lib_brk : ℕ

abbrev pub minus_one : ℕ
minus_one = 2 ^ 16 - 1

pub heap_initialize : ℕ → ℕ → Brk → Brk
heap_initialize start end b = record b { heap_base = start; heap_max = end; heap = start }

pub heap_brk : ℕ → Brk → ℕ × Brk
heap_brk addr b =
    if addr == 0
    then (b.heap, b)
    else if ltb addr b.heap_base || ltb b.heap_max addr
    then (minus_one, b)
    else (addr, record b { heap = addr })

abbrev pub brk_set : ℕ → ℕ × Brk → Ret × Brk
brk_set addr (new_brk, b) =
    if new_brk == addr then (ok 0, record b { lib_brk = new_brk }) else (err 1, b)

pub brk : ℕ → Brk → Ret × Brk
unfolding heap_brk
brk addr b = brk_set addr (heap_brk addr b)

-- What `sbrk` makes of the answer of the kernel.
abbrev pub moved : ℕ → ℕ → ℕ × Brk → ℕ × Brk
moved start end (new_brk, b) =
    if new_brk == minus_one
    then (minus_one, b)
    else if ltb new_brk end
    then (minus_one, b)
    else (start, record b { lib_brk = new_brk })

abbrev pub known : Brk → ℕ × Brk → Brk
known b (now, b') = if b.lib_brk == 0 then record b' { lib_brk = now } else b

-- The increment is a 16-bit word.
pub sbrk : ℕ → Brk → ℕ × Brk
unfolding heap_brk
sbrk increment b =
    let b1 = known b (heap_brk 0 b) in
    let end = u16 (b1.lib_brk + increment) in moved b1.lib_brk end (heap_brk end b1)
