-- ===== src/Vtd/Remap/Reserve.antt =====
-- `vtd_reserve_int_remap_region`: the first run of free entries, given to the device alone.
use spy.Base.{
  ℕ, zero, suc, ◌+◌, ◌^◌, ◌<◌, ◌≤◌, ◌≡◌, ◌≢◌, ◌⊎◌, inl, inr, refl, arith, Bool, true, false, Option,
  none, some, List, length, get_or, set, ◌==◌, Bool-cases, ℕ_discrete, dec_lt, ◌∙◌, sym, ap,
  length-set, get_or-set_self, get_or-set_ne, ==_ne, u16, false≢true,
}
use spy.Base.Result.{Result, ok, err, Errno, e2big}
use spy.Vtd.Remap.{
  Irte, zero_irte, start_at, find_from, find_int_remap_region, search_from, assign,
  reserve_int_remap_region,
}
use spy.Vtd.Remap.Find.{owns, find-none, Found-find, Result-cases}

-- Entry `i` is assigned to some device.
abbrev pub taken : List Irte → ℕ → Bool
taken table i = (get_or table i zero_irte).assigned

-- The `count` entries from `s` on are free.
abbrev pub IsFree : List Irte → ℕ → ℕ → Type 0
IsFree table s count = (i : ℕ) → s ≤ i → i < s + count → taken table i ≡ false

module _ (count limit : ℕ) (fits : limit + count < 2 ^ 32) (some_count : 0 < count)
    (table : List Irte) where
  search_from-ok :
      (left n : ℕ) (start : Option ℕ) {b : ℕ}
      → n + left ≤ limit
      → start_at start n ≤ n
      → n < start_at start n + count
      → ((i : ℕ) → start_at start n ≤ i → i < n → taken table i ≡ false)
      → search_from count left n start table ≡ ok b
      → (b + count ≤ limit) × IsFree table b count
  unfolding search_from
  search_from-ok zero n start in_table le lt run h = cc
  search_from-ok (suc left) n start {b} in_table le lt run h = elim (Bool-cases (taken table n)) [
    | inl used ↦
        search_from-ok left (n + 1) none (omega arith) (omega arith) (omega arith)
          (λ i lo hi. absurd (omega arith)) (rw (← h) (rw used refl))
    | inr free ↦
        let begin = start_at start n in
        let run' : (i : ℕ) → begin ≤ i → i < n + 1 → taken table i ≡ false =
          λ i lo hi. elim (ℕ_discrete i n) [ yes e ↦ rw e free | no ne ↦ run i lo (omega arith) ] in
        elim (ℕ_discrete (n + 1) (begin + count)) [
          | yes full ↦
              let e : begin ≡ b = ground arith in
              (omega arith, λ i lo hi. run' i (omega arith) (omega arith))
          | no more ↦
              search_from-ok left (n + 1) (some begin) (omega arith) (omega arith) (omega arith)
                run' (ground arith)
        ]
  ]

  -- The search ends at or before any run of free entries that begins at or after its own start.
  search_from-total :
      (left n : ℕ) (start : Option ℕ) (s : ℕ)
      → n + left ≤ limit
      → start_at start n ≤ n
      → n < start_at start n + count
      → start_at start n ≤ s
      → s + count ≤ n + left
      → IsFree table s count
      → (b : ℕ) × (search_from count left n start table ≡ ok b) × (b ≤ s)
  unfolding search_from
  search_from-total zero n start s in_table le lt from room free = absurd (omega arith)
  search_from-total (suc left) n start s in_table le lt from room free =
      let begin = start_at start n in
      elim (Bool-cases (taken table n)) [
        | inl used ↦
            let before : n < s = elim (dec_lt n s) [
              | yes p ↦ p
              | no q ↦ absurd (false≢true (sym (free n (omega arith) (omega arith)) ∙ used))
            ] in
            let (b, e, lo) =
              search_from-total left (n + 1) none s (omega arith) (omega arith) (omega arith)
                (omega arith) (omega arith) free in
            (b, rw used e, lo)
        | inr open_entry ↦ elim (ℕ_discrete (n + 1) (begin + count)) [
          | yes full ↦ (begin, ground arith, from)
          | no more ↦
              let (b, e, lo) =
                search_from-total left (n + 1) (some begin) s (omega arith) (omega arith)
                  (omega arith) from (omega arith) free in
              (b, ground arith, lo)
        ]
      ]

search_from-e2big :
    (count : ℕ) (table : List Irte) (left n : ℕ) (start : Option ℕ) {e : Errno}
    → search_from count left n start table ≡ err e
    → e ≡ e2big
unfolding search_from
search_from-e2big count table zero n start h = cc
search_from-e2big count table (suc left) n start {e} h = ground (
  arith,
  search_from-e2big count table left (n + 1) none {e = e},
  search_from-e2big count table left (n + 1) (some (start_at start n)) {e = e},
)

module _ (device_id : ℕ) where
  abbrev assigned_to : Irte → Irte
  assigned_to irte = record irte { assigned = true; sid = u16 device_id }

  length-assign :
      (left n : ℕ) (table : List Irte) → length (assign device_id left n table) ≡ length table
  unfolding assign
  length-assign zero n table = refl
  length-assign (suc left) n table =
      length-assign left (n + 1) (set table n (assigned_to (get_or table n zero_irte)))
      ∙ length-set table n (assigned_to (get_or table n zero_irte))

  assign_outside :
      (left n i : ℕ) (table : List Irte)
      → (i < n) ⊎ (n + left ≤ i)
      → get_or (assign device_id left n table) i zero_irte ≡ get_or table i zero_irte
  unfolding assign
  assign_outside zero n i table out = refl
  assign_outside (suc left) n i table out =
      assign_outside left (n + 1) i (set table n (assigned_to (get_or table n zero_irte)))
        (omega arith)
      ∙ get_or-set_ne table n i (assigned_to (get_or table n zero_irte)) zero_irte (omega arith)

  assign_inside :
      (left n i : ℕ) (table : List Irte)
      → n ≤ i
      → i < n + left
      → n + left ≤ length table
      → get_or (assign device_id left n table) i zero_irte ≡ assigned_to (get_or table i zero_irte)
  unfolding assign
  assign_inside zero n i table lo hi room = absurd (omega arith)
  assign_inside (suc left) n i table lo hi room =
      let v = assigned_to (get_or table n zero_irte) in
      elim (ℕ_discrete n i) [
        | yes e ↦ rw (← e) (
            assign_outside left (n + 1) n (set table n v) (inl (omega arith))
            ∙ get_or-set_self table n v zero_irte (omega arith))
        | no ne ↦
            assign_inside left (n + 1) i (set table n v) (omega arith) (omega arith)
              (omega (arith, length-set table n v))
            ∙ ap assigned_to (get_or-set_ne table n i v zero_irte ne)
      ]

-- What a successful reservation does: the entries lie below the limit, were free, are the first run
-- of free entries that is long enough, and belong to the device now; every other entry is as it was;
-- and the device's region is found at its start.
pub record Reserved (limit device_id count : ℕ) (before : List Irte) (start : ℕ) (after : List Irte)
    : Type 0 where
  pub room : start + count ≤ limit
  pub was_free : IsFree before start count
  pub earliest : (s : ℕ) → s + count ≤ limit → IsFree before s count → start ≤ s
  pub given : (i : ℕ) → start ≤ i → i < start + count → owns device_id after i ≡ true
  pub kept :
      (i : ℕ)
      → (i < start) ⊎ (start + count ≤ i)
      → get_or after i zero_irte ≡ get_or before i zero_irte
  pub found : find_int_remap_region limit device_id after ≡ ok start

module _ (limit device_id count : ℕ) (table : List Irte) (u16_id : device_id < 2 ^ 16)
    (some_count : 0 < count) (fits : limit + count < 2 ^ 32) (in_table : limit ≤ length table)
    {x : Errno} (unknown : find_int_remap_region limit device_id table ≡ err x) where
  searched : Result ℕ
  searched = search_from count limit 0 none table

  search-ok : {b : ℕ} → searched ≡ ok b → (b + count ≤ limit) × IsFree table b count
  unfolding searched
  search-ok e =
      search_from-ok count limit fits some_count table limit 0 none (omega arith) (omega arith)
        (omega arith) (λ i lo hi. absurd (omega arith)) e

  search-total :
      (s : ℕ) → s + count ≤ limit → IsFree table s count → (b : ℕ) × (searched ≡ ok b) × (b ≤ s)
  unfolding searched
  search-total s room free =
      search_from-total count limit fits some_count table limit 0 none s (omega arith) (omega arith)
        (omega arith) (omega arith) (omega arith) free

  assign-Reserved :
      {b : ℕ}
      → searched ≡ ok b
      → Reserved limit device_id count table b (assign device_id count b table)
  assign-Reserved {b} e =
      let (room, free) = search-ok e in
      let after = assign device_id count b table in
      let given : (i : ℕ) → b ≤ i → i < b + count → owns device_id after i ≡ true = λ i lo hi.
        rw (assign_inside device_id count b i table lo hi (omega arith)) (ground arith) in
      record {
        room = room;
        was_free = free;
        earliest = λ s room' free'. let (c, e', le) = search-total s room' free' in ground arith;
        given = given;
        kept = λ i out. assign_outside device_id count b i table out;
        found = Found-find limit device_id after (record {
          below = omega arith;
          owned = given b (omega arith) (omega arith);
          first = λ j lt.
              rw (assign_outside device_id count b j table (inl lt))
                (find-none limit device_id table j unknown (omega arith));
        });
      }

  search-e2big : {e : Errno} → searched ≡ err e → e ≡ e2big
  unfolding searched
  search-e2big h = search_from-e2big count table limit 0 none h

  -- For a device that has no region yet, with a 16-bit id, a count of at least one and sizes that fit
  -- 32 bits, a reservation either succeeds, with what `Reserved` says, or fails with -E2BIG and an
  -- unchanged table, and then no run of free entries below the limit is long enough.
  pub reserve-outcome :
      ((start : ℕ) × (after : List Irte) × (reserve_int_remap_region limit device_id count table
          ≡ (ok start, after))
        × Reserved limit device_id count table start after)
      ⊎ ((reserve_int_remap_region limit device_id count table ≡ (err e2big, table))
          × ((s : ℕ) → s + count ≤ limit → ¬ IsFree table s count))
  unfolding reserve_int_remap_region searched
  reserve-outcome =
      let nonzero : (count == 0) ≡ false = ==_ne count 0 (omega arith) in
      elim (Result-cases searched) [
        | inl (b, e) ↦
            inl
              (b, assign device_id count b table, rw (nonzero, unknown, e) refl, assign-Reserved e)
        | inr (x', e) ↦ inr (
          rw (nonzero, unknown, e, search-e2big e) refl,
          λ s room free. let (b, e', le) = search-total s room free in cc,
        )
      ]

find_from-cong :
    (device_id left n : ℕ) (table table' : List Irte)
    → ((j : ℕ) → owns device_id table j ≡ owns device_id table' j)
    → find_from device_id left n table ≡ find_from device_id left n table'
unfolding find_from
find_from-cong device_id zero n table table' h = refl
find_from-cong device_id (suc left) n table table' h =
    ground (arith, h n, find_from-cong device_id left (n + 1) table table' h)

-- The search for a device depends on the entries that it owns alone.
find-cong :
    (limit device_id : ℕ) (table table' : List Irte)
    → ((j : ℕ) → owns device_id table j ≡ owns device_id table' j)
    → find_int_remap_region limit device_id table ≡ find_int_remap_region limit device_id table'
unfolding find_int_remap_region
find-cong limit device_id table table' h = find_from-cong device_id limit 0 table table' h

Reserved-owns :
    {limit device_id count : ℕ} {table : List Irte} {start : ℕ} {after : List Irte} (other : ℕ)
    → other ≢ device_id
    → Reserved limit device_id count table start after
    → (j : ℕ) → owns other after j ≡ owns other table j
Reserved-owns {count = count} {start = start} other ne r j = elim (dec_lt j start) [
  | yes lt ↦ rw (r.kept j (inl lt)) refl
  | no ge ↦ elim (dec_lt j (start + count)) [
    | yes lt ↦ ground (arith, r.given j, r.was_free j)
    | no ge' ↦ rw (r.kept j (inr (omega arith))) refl
  ]
]

-- A reservation, whatever its outcome, moves no other device's region: the search for any other
-- 16-bit id answers as before.
reserve_keeps_others :
    (limit device_id count other : ℕ) (table : List Irte)
    → device_id < 2 ^ 16
    → limit + count < 2 ^ 32
    → limit ≤ length table
    → other ≢ device_id
    → find_int_remap_region limit other (reserve_int_remap_region limit device_id count table).1
      ≡ find_int_remap_region limit other table
unfolding reserve_int_remap_region
reserve_keeps_others limit device_id count other table u16_id fits in_table ne =
    elim (ℕ_discrete count 0) [
      | yes zero_count ↦ rw zero_count refl
      | no some_count ↦ elim (Result-cases (find_int_remap_region limit device_id table)) [
        | inl (pos, e) ↦ ground arith
        | inr (x, e) ↦
            elim (reserve-outcome limit device_id count table u16_id (omega arith) fits in_table
              e) [
                | inl (start, after, e', r) ↦
                    rw (e') (find-cong limit other after table (Reserved-owns other ne r))
                | inr (e', none_free) ↦ rw e' refl
              ]
      ]
    ]
