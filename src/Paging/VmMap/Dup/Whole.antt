-- ===== src/Paging/VmMap/Dup/Whole.antt =====
-- mm/vm_map.c, `vm_map_dup` of a whole map.
use raincloud.Prelude.{ℕ, ◌<◌, true, false, length, ◌≡◌, ◌⊎◌, [], ◌∷◌, ◌++◌}
use raincloud.Mm.Pages.{MmPool}
use raincloud.Paging.{Machine}
use raincloud.Paging.VmMap.{VmMap}
use raincloud.Paging.VmMap.Dup.{
  Dupped, dup_done, dup_halted, null_written, Grants, linked_entries, IsCopy, Kept, OutOfPages,
}

-- Entry by entry.
abbrev AllCopies : (m m' : Machine MmPool) → VmMap → VmMap → Type 0
AllCopies m m' [] [] = Unit {0}
AllCopies m m' [] (e' ∷ es') = ⊥
AllCopies m m' (e ∷ es) [] = ⊥
AllCopies m m' (e ∷ es) (e' ∷ es') = IsCopy m m' e e' × AllCopies m m' es es'

-- Every round gets its entry, or some round does not.
abbrev EntriesGranted : Grants → VmMap → Type 0
EntriesGranted grants es = (i : ℕ) → i < length es → (grants i).0 ≡ true

abbrev EntryRefused : Grants → VmMap → Type 0
EntryRefused grants es = (i : ℕ) × (i < length es) × ((grants i).0 ≡ false)

-- How the loop ends from a map on that has entries already.
abbrev pub DupCases : Grants → (new es : VmMap) → Machine MmPool → Dupped → Type 0
DupCases grants new es m result =
    ((result ≡ null_written) × EntryRefused grants es)
    ⊎ (((result ≡ dup_halted) × OutOfPages m es)
        ⊎ ((es' : VmMap) × (m' : Machine MmPool) × (result ≡ dup_done (new ++ es') m')
            × EntriesGranted grants es
            × AllCopies m m' (linked_entries grants es) es'
            × Kept m m'))
