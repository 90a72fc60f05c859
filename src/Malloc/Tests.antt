-- ===== src/Malloc/Tests.antt =====
-- The heap from its start on, and a heap of one page that is handed out whole.
use i80k.Base.{ℕ, ◌≡◌, refl, arith, true, Option, none, some, List, [], ◌∷◌, ◌++◌}
use i80k.Malloc.{
  Heap, doublings, getindex, getbuddy, fb_add, find_free, divide, allocate, malloc, free,
}
use i80k.Malloc.Index.{enough, malloc-none}
use i80k.Malloc.Cover.{AllAligned}
use i80k.Malloc.Valid.{AllHeaded, IsValid}
use i80k.Malloc.Given.{Outcome, malloc-Outcome}
use i80k.Malloc.Free.{free-IsValid}

abbrev start : Heap
start = record { heap_size = 0; table = λ i. []; size_of = λ z. 0 }

start-IsValid : IsValid start []
start-IsValid = record {
  tiled = λ x. ground arith;
  aligned = λ i. AllAligned.nothing;
  headed = AllHeaded.nothing;
  pages = (0, refl);
}

-- A new page is cut: 1 KiB for 600 bytes, and its buddies of 1 KiB and 2 KiB.
abbrev table_of : Option (Option ℕ × Heap) → List (List ℕ)
table_of none = []
table_of (some (p, h)) = h.table 9 ∷ h.table 10 ∷ h.table 11 ∷ h.table 12 ∷ []

cuts : table_of (malloc 13 true 600 start) ≡ [] ∷ (1024 ∷ []) ∷ (2048 ∷ []) ∷ [] ∷ []
unfolding malloc getindex doublings allocate find_free divide fb_add getbuddy
cuts = refl

abbrev full : Heap
full = record { heap_size = 4096; table = λ i. []; size_of = λ z. 4000 }

full_live : IsValid full ([] ++ ((0, 12) ∷ []))
full_live = record {
  tiled = λ x. ground arith;
  aligned = λ i. AllAligned.nothing;
  headed =
      AllHeaded.more {z = 0} {i = 12} (0, refl)
        (record {
          low = omega arith;
          high = omega arith;
          fits = omega arith;
          tight = λ h. omega arith;
        })
        AllHeaded.nothing;
  pages = (1, refl);
}

malloc-Outcome_example : Outcome true 600 start [] (malloc enough true 600 start)
malloc-Outcome_example =
    malloc-Outcome true 600 start [] start-IsValid (omega arith) (omega arith) (omega arith)

free-IsValid_example : (h' : Heap) × (free enough (some 2) full ≡ some h') × IsValid h' []
free-IsValid_example = free-IsValid full [] [] 0 12 full_live

malloc-none_example : malloc 100 true 40000 start ≡ none
malloc-none_example = malloc-none 100 true 40000 start (omega arith) (omega arith)
