-- ===== src/Paging/Empty.antt =====
-- `x86_64_page_table_empty` against the entries of the table.
use spy.Base.{
  ℕ, zero, suc, ◌+◌, ◌<◌, ◌≤◌, ◌≡◌, ◌≢◌, ◌↔◌, refl, arith, Bool, true, false, List, get_or, set,
  ℕ_discrete, length, get_or-set_ne, get_or-set_self, sym,
}
use spy.Paging.{
  empty_from, x86_64_page_table_empty, x86_64_entry_valid, page_flag_present, x86_64_clear_entry,
}

present : List ℕ → ℕ → Bool
present table n = x86_64_entry_valid (get_or table n 0) page_flag_present

empty_from_sound :
    (left n : ℕ) (table : List ℕ) (i : ℕ)
    → empty_from left n table ≡ true
    → n ≤ i
    → i < n + left
    → present table i ≡ false
unfolding empty_from present
empty_from_sound zero n table i h lo hi = absurd (omega arith)
empty_from_sound (suc left) n table i h lo hi =
    ground (arith, empty_from_sound left (n + 1) table i)

empty_from_complete :
    (left n : ℕ) (table : List ℕ)
    → ((i : ℕ) → i < n + left → present table i ≡ false)
    → empty_from left n table ≡ true
unfolding empty_from present
empty_from_complete zero n table h = refl
empty_from_complete (suc left) n table h =
    ground
      (arith, h n (omega arith), empty_from_complete left (n + 1) table (λ i lt. h i (omega arith)))

-- No entry of the 512, but entry `k` where one is set apart, is present.
abbrev pub NonePresent : List ℕ → Type 0
NonePresent table =
    (i : ℕ) → i < 512 → x86_64_entry_valid (get_or table i 0) page_flag_present ≡ false

abbrev pub NonePresentBut : ℕ → List ℕ → Type 0
NonePresentBut k table =
    (i : ℕ) → i < 512 → i ≢ k → x86_64_entry_valid (get_or table i 0) page_flag_present ≡ false

-- `page_table_empty` answers true exactly when none of the 512 entries is present.
page_table_empty_iff : (table : List ℕ) → (x86_64_page_table_empty table ≡ true) ↔ NonePresent table
unfolding x86_64_page_table_empty present
page_table_empty_iff table = (
  λ h i lt. empty_from_sound 512 0 table i h (omega arith) lt,
  λ h. empty_from_complete 512 0 table h,
)

-- Clearing entry `k`, at an index inside the table, leaves a table that is empty exactly when no
-- other entry of the 512 was present.
page_table_empty-clear_entry :
    (table : List ℕ) (k : ℕ)
    → k < length table
    → (x86_64_page_table_empty (set table k x86_64_clear_entry) ≡ true) ↔ NonePresentBut k table
unfolding x86_64_entry_valid x86_64_clear_entry
page_table_empty-clear_entry table k lt = (
  λ h i lt' ne.
      rw (get_or-set_ne table k i x86_64_clear_entry 0 (λ e. ne (sym e))) at
        ((page_table_empty_iff (set table k x86_64_clear_entry)).0 h i lt'),
  λ h. (page_table_empty_iff (set table k x86_64_clear_entry)).1 (after h),
)
  where
    after : NonePresentBut k table → NonePresent (set table k x86_64_clear_entry)
    after h i lt' = elim (ℕ_discrete k i) [
      | yes e ↦ rw (← e, get_or-set_self table k x86_64_clear_entry 0 lt) refl
      | no ne ↦ rw (get_or-set_ne table k i x86_64_clear_entry 0 ne) (h i lt' (λ e. ne (sym e)))
    ]
