-- ===== src/Brk/Tests.antt =====
-- A heap of 16 KB at 16384.
use i80k.Base.{refl, ◌^◌, ◌≡◌, ◌≤◌, ◌<◌, ◌⊎◌, inl, arith}
use i80k.Brk.{Brk, minus_one, sbrk}
use i80k.Brk.Grants.{IsSound, sbrk-grants}

abbrev low_heap : Brk
low_heap = record { heap_base = 16384; heap_max = 32768; heap = 16384; lib_brk = 0 }

low_heap-IsSound : IsSound low_heap
low_heap-IsSound = record {
  some_base = omega arith;
  above = omega arith;
  below = omega arith;
  bounded = omega arith;
  agree = inl refl;
}

sbrk-grants_example :
    ((20480 ≤ 32768)
      × (sbrk 4096 low_heap ≡ (16384, record low_heap { heap = 20480; lib_brk = 20480 })))
    ⊎ ((32768 < 20480)
        × (20480 < 2 ^ 16)
        × (sbrk 4096 low_heap ≡ (minus_one, record low_heap { lib_brk = 16384 })))
    ⊎ ((20480 ≡ 2 ^ 16) × (sbrk 4096 low_heap ≡ (16384, record low_heap { lib_brk = 16384 })))
sbrk-grants_example = sbrk-grants 4096 low_heap low_heap-IsSound (omega arith)
