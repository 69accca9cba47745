-- ===== src/Paging/Tests.antt =====
-- The theorems on paging.c at concrete inputs, and entries worked out by hand.
use spy.Base.{ℕ, ◌≡◌, refl, true, false, List, [], ◌∷◌, set, replicate, map}
use spy.Paging.{
  x86_64_entry_valid, x86_64_clear_entry, x86_64_set_terminal_l1, x86_64_set_terminal_l2,
  x86_64_set_terminal_l3, x86_64_get_phys_l1, x86_64_get_phys_l2, x86_64_get_phys_l3,
  x86_64_page_table_empty, arch_paging_init, Paging, invalid_phys_addr,
}
use spy.Paging.Terminal.{get_phys-set_terminal}

entry_l1 : x86_64_set_terminal_l1 0x123456789 3 ≡ 0x123456003
unfolding x86_64_set_terminal_l1
entry_l1 = refl

entry_l2 : x86_64_set_terminal_l2 0x123456789 3 ≡ 0x123400083
unfolding x86_64_set_terminal_l2
entry_l2 = refl

get_phys-set_terminal_example :
    (x86_64_get_phys_l1 (x86_64_set_terminal_l1 0x140000000 3) 0x7f0000abc ≡ 0x140000abc)
    × (x86_64_get_phys_l2 (x86_64_set_terminal_l2 0x140000000 3) 0x7f0000abc ≡ 0x140000abc)
    × (x86_64_get_phys_l3 (x86_64_set_terminal_l3 0x140000000 3) 0x7f0000abc ≡ 0x170000abc)
get_phys-set_terminal_example = get_phys-set_terminal 0x140000000 3 0x7f0000abc refl

abbrev high_half : ℕ
high_half = 0xffffff8000201abc

abbrev one_left : List ℕ
one_left = 0 ∷ 0x7003 ∷ replicate 510 x86_64_clear_entry

-- The table is found in use, and empty once its entry is cleared.
empty_runs :
    (x86_64_page_table_empty one_left ≡ false)
    × (x86_64_page_table_empty (set one_left 1 x86_64_clear_entry) ≡ true)
unfolding x86_64_page_table_empty x86_64_entry_valid x86_64_clear_entry
empty_runs = (refl, refl)

-- Without 1 GB pages in CPUID level 1 has no page size, and the others keep theirs.
sizes : List Paging → List ℕ
sizes = map (λ p. p.page_size)

init_runs :
    (sizes (arch_paging_init (λ _ _. invalid_phys_addr) 0) ≡ 0 ∷ 0 ∷ 0x200000 ∷ 0x1000 ∷ [])
    × (sizes (arch_paging_init (λ _ _. invalid_phys_addr) 0x4000000)
        ≡ 0 ∷ 0x40000000 ∷ 0x200000 ∷ 0x1000 ∷ [])
unfolding arch_paging_init sizes
init_runs = (refl, refl)
