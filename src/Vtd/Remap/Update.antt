-- ===== src/Vtd/Remap/Update.antt =====
-- `vtd_update_irte` and `vtd_free_int_remap_region`: the order of the writes of an entry, and the
-- return of a region.
use spy.Base.{
  ℕ, zero, suc, ◌+◌, ◌<◌, ◌≤◌, ◌≡◌, ◌≢◌, ◌⊎◌, inl, inr, refl, arith, true, false, some, List, [],
  ◌∷◌, length, get_or, Bool-cases, Option-cases, ℕ_discrete, dec_lt, ◌∙◌, sym, ap, length-set,
  get_or-set_self, get_or-set_ne,
}
use spy.Base.Result.{ok, err, Errno, enoent}
use spy.Vtd.Queue.{Hardware}
use spy.Vtd.Remap.{
  Irte, zero_irte, Remap, write_upper, write_lower, irte_writes, last_of, write_irte,
  find_int_remap_region, update_irte, free_from, free_int_remap_region,
}
use spy.Vtd.Remap.Find.{owns, none-find, find-none, Found-find}
use spy.Vtd.Remap.Reserve.{taken, IsFree, Reserved}

-- The two halves of an entry agree.
abbrev pub SameUpper : Irte → Irte → Type 0
SameUpper a b =
    (a.sid ≡ b.sid)
    × (a.sq ≡ b.sq)
    × (a.svt ≡ b.svt)
    × (a.reserved3 ≡ b.reserved3)
    × (a.reserved4 ≡ b.reserved4)

-- Every value that the hardware can read from the entry is not present, or is one of the two.
abbrev pub Seen : Irte → Irte → List Irte → Type 0
Seen old new [] = Unit {0}
Seen old new (v ∷ vs) = ((v.p ≡ false) ⊎ ((v ≡ old) ⊎ (v ≡ new))) × Seen old new vs

module _ (old new : Irte) where
  writes_present :
      new.p ≡ true
      → irte_writes old new ≡ write_upper old new ∷ write_lower (write_upper old new) new ∷ []
  unfolding irte_writes
  writes_present h = ground arith

  writes_absent : new.p ≡ false → irte_writes old new ≡ write_lower old new ∷ []
  unfolding irte_writes
  writes_absent h = ground arith

  upper_first :
      (old.p ≡ false) ⊎ SameUpper old new
      → ((write_upper old new).p ≡ false)
        ⊎ ((write_upper old new ≡ old) ⊎ (write_upper old new ≡ new))
  unfolding write_upper
  upper_first (inl absent) = inl absent
  upper_first (inr same) = inr (
      inl (λ i. record old {
        sid = sym same.0 i;
        sq = sym same.1 i;
        svt = sym same.2 i;
        reserved3 = sym same.3 i;
        reserved4 = sym same.4 i;
      }))

  -- While an entry is updated the hardware never reads a present entry that mixes old and new: if
  -- the old entry was not present, or the new one keeps its upper half, then every value that the
  -- entry takes is not present, the old entry or the new one. The last value is present just if the
  -- new one is, and equals the new one then.
  pub irte_writes-Seen :
      (old.p ≡ false) ⊎ SameUpper old new
      → Seen old new (irte_writes old new)
        × ((last_of old (irte_writes old new)).p ≡ new.p)
        × ((new.p ≡ false) ⊎ (last_of old (irte_writes old new) ≡ new))
  unfolding last_of write_upper write_lower
  irte_writes-Seen h = elim (Bool-cases new.p) [
    | inl present ↦
        rw (writes_present present) ((upper_first h, (inr (inr refl), tt)), refl, inr refl)
    | inr absent ↦ rw (writes_absent absent) ((inl absent, tt), refl, inl absent)
  ]

-- What an update leaves in the table: the new entry in its place, with the old upper half unless it
-- is present, and no other entry changed.
module _ (table : List Irte) (index : ℕ) (content : Irte) where
  abbrev old : Irte
  old = get_or table index zero_irte

  write_irte_self :
      index < length table
      → get_or (write_irte table index content) index zero_irte
        ≡ last_of old (irte_writes old content)
  unfolding write_irte
  write_irte_self lt =
      get_or-set_self table index (last_of old (irte_writes old content)) zero_irte lt

  pub write_irte_ne :
      (j : ℕ)
      → index ≢ j
      → get_or (write_irte table index content) j zero_irte ≡ get_or table j zero_irte
  unfolding write_irte
  write_irte_ne j ne =
      get_or-set_ne table index j (last_of old (irte_writes old content)) zero_irte ne

  pub length-write_irte : length (write_irte table index content) ≡ length table
  unfolding write_irte
  length-write_irte = length-set table index (last_of old (irte_writes old content))

  pub write_irte_present :
      index < length table
      → content.p ≡ true
      → get_or (write_irte table index content) index zero_irte ≡ content
  unfolding last_of write_upper write_lower
  write_irte_present lt present = write_irte_self lt ∙ rw (writes_present old content present) refl

  pub write_irte_absent :
      index < length table
      → content.p ≡ false
      → get_or (write_irte table index content) index zero_irte ≡ write_lower old content
  unfolding last_of
  write_irte_absent lt absent = write_irte_self lt ∙ rw (writes_absent old content absent) refl

module _ (hw : Hardware) where
  pub update_irte-table :
      (index : ℕ) (content : Irte) (r : Remap) {r' : Remap}
      → update_irte hw index content r ≡ some r'
      → r'.table ≡ write_irte r.table index content
  unfolding update_irte
  update_irte-table index content r h = ground arith

  free_from-step :
      (count pos : ℕ) (r : Remap) {r' : Remap}
      → free_from hw (suc count) pos r ≡ some r'
      → (r1 : Remap) × (update_irte hw pos zero_irte r ≡ some r1)
        × (free_from hw count (pos + 1) r1 ≡ some r')
  unfolding free_from
  free_from-step count pos r h = elim (Option-cases (update_irte hw pos zero_irte r)) [
    | inl e ↦ absurd (ground arith)
    | inr (r1, e) ↦ (r1, e, ground arith)
  ]

  -- Freeing `count` entries from `pos` on takes away their assignment and touches no other entry.
  free_from-lem :
      (count pos : ℕ) (r : Remap) {r' : Remap}
      → pos + count ≤ length r.table
      → free_from hw count pos r ≡ some r'
      → (i : ℕ)
      → (length r'.table ≡ length r.table)
        × (((i < pos) ⊎ (pos + count ≤ i))
            → get_or r'.table i zero_irte ≡ get_or r.table i zero_irte)
        × (pos ≤ i → i < pos + count → taken r'.table i ≡ false)
  unfolding free_from write_lower
  free_from-lem zero pos r room h i = ground arith
  free_from-lem (suc count) pos r room h i =
      let (r1, e, h') = free_from-step count pos r h in
      let t = update_irte-table pos zero_irte r e in
      let len : length r1.table ≡ length r.table = rw t (length-write_irte r.table pos zero_irte) in
      let (l, out, inside) = free_from-lem count (pos + 1) r1 (omega arith) h' i in
      (
        l ∙ len,
        λ o. out (omega arith) ∙ rw t (write_irte_ne r.table pos zero_irte i (omega arith)),
        λ lo hi. elim (ℕ_discrete pos i) [
          | yes e' ↦
              ap (λ v. v.assigned) (out (omega arith))
              ∙ rw (t, ← e')
                  (ap (λ v. v.assigned)
                    (write_irte_absent r.table pos zero_irte (omega arith) refl))
          | no ne ↦ inside (omega arith) (omega arith)
        ],
      )

-- The entries below the limit that belong to the device are the `count` entries from `start` on, and
-- there is one.
pub record Region (limit device_id start count : ℕ) (table : List Irte) : Type 0 where
  pub room : start + count ≤ limit
  pub some_count : 0 < count
  pub inside : (j : ℕ) → start ≤ j → j < start + count → owns device_id table j ≡ true
  pub outside :
      (j : ℕ) → j < limit → (j < start) ⊎ (start + count ≤ j) → owns device_id table j ≡ false

Region-find :
    (limit device_id start count : ℕ) (table : List Irte)
    → Region limit device_id start count table
    → find_int_remap_region limit device_id table ≡ ok start
Region-find limit device_id start count table r = Found-find limit device_id table (record {
  below = omega (arith, r.room, r.some_count);
  owned = r.inside start (omega arith) (omega (arith, r.some_count));
  first = λ j lt. r.outside j (omega (arith, r.room)) (inl lt);
})

-- A device that had no region has exactly the reserved one after a reservation.
Reserved-Region :
    (limit device_id count : ℕ) (table : List Irte) {x : Errno} {start : ℕ} {after : List Irte}
    → 0 < count
    → find_int_remap_region limit device_id table ≡ err x
    → Reserved limit device_id count table start after
    → Region limit device_id start count after
Reserved-Region limit device_id count table some_count unknown r = record {
  room = r.room;
  some_count = some_count;
  inside = r.given;
  outside = λ j lt o. rw (r.kept j o) (find-none limit device_id table j unknown lt);
}

-- What freeing leaves of a region of `count` entries at `pos`: its entries are free, every other
-- entry is as it was, and the device has no region.
pub record Freed (limit device_id pos count : ℕ) (before after : List Irte) : Type 0 where
  pub freed : IsFree after pos count
  pub kept :
      (i : ℕ) → (i < pos) ⊎ (pos + count ≤ i) → get_or after i zero_irte ≡ get_or before i zero_irte
  pub gone : find_int_remap_region limit device_id after ≡ err enoent

module _ (limit : ℕ) (hw : Hardware) (device_id count start : ℕ) (r : Remap)
    (in_table : limit ≤ length r.table) (region : Region limit device_id start count r.table)
    {r' : Remap} where
  free-free_from :
      free_int_remap_region limit hw device_id count r ≡ some r'
      → free_from hw count start r ≡ some r'
  unfolding free_int_remap_region
  free-free_from h = ground (arith, Region-find limit device_id start count r.table region)

  -- A device whose region is the `count` entries from `start` on, in a table that holds all entries
  -- below the limit, frees `count` interrupts: where the call returns, it has freed the entries of the
  -- region and changed no other, and the device has no region.
  pub free-Freed :
      free_int_remap_region limit hw device_id count r ≡ some r'
      → Freed limit device_id start count r.table r'.table
  free-Freed h =
      let at = free_from-lem hw count start r (omega (arith, region.room)) (free-free_from h) in
      let inside : IsFree r'.table start count = λ i lo hi. (at i).2 lo hi in
      let out : (j : ℕ)
          → j < limit
          → (j < start) ⊎ (start + count ≤ j)
          → owns device_id r'.table j ≡ false =
        λ j lt o. rw ((at j).1 o) (region.outside j lt o) in
      record {
        freed = inside;
        kept = λ i o. (at i).1 o;
        gone = none-find limit device_id r'.table (λ j lt. elim (dec_lt j start) [
          | yes p ↦ out j lt (inl p)
          | no p ↦ elim (dec_lt j (start + count)) [
            | yes q ↦ rw (inside j (omega arith) q) refl
            | no q ↦ out j lt (inr (omega arith))
          ]
        ]);
      }
