-- ===== src/Vtd/Queue.antt =====
-- The invalidation queues of vtd.c: `inv_queue_write`, `vtd_submit_iq_request` and
-- `vtd_flush_domain_caches`.
pub mod Submit
mod Tests
use spy.Base.{
  ℕ, zero, suc, ◌+◌, ◌%◌, ◌/◌, ◌*◌, ◌^◌, Bool, true, false, Option, none, some, List, [], ◌∷◌,
  bit_or, ◌<<<◌, u32, set, if◌then◌else◌,
}
use spy.Vtd.{
  Entry, req_inv_context, inv_context_domain, inv_context_domain_shift, req_inv_iotlb,
  inv_iotlb_domain, inv_iotlb_dw, inv_iotlb_dr, inv_iotlb_domain_shift, req_inv_wait, inv_wait_sw,
  inv_wait_fn, inv_wait_sdata_shift,
}
use spy.Paging.{page_size}

-- One DMAR unit as its queue's writer sees it: the page of the queue and the field QT of the
-- unit's tail register.
pub record InvUnit : Type 0 where
  pub queue : List Entry
  pub tail : ℕ

-- The hardware: the value of `vtd_iq_completed` at each poll once the tail is written, the physical
-- address of that flag, and how many polls are followed.
pub record Hardware : Type 0 where
  pub completed : InvUnit → ℕ → Bool
  pub completed_phys : ℕ
  pub polls : ℕ

-- `PAGE_SIZE / sizeof(*entry)`
abbrev pub queue_entries : ℕ
queue_entries = page_size / 16

unfoldable pub inv_queue_write : List Entry → ℕ → Entry → List Entry × ℕ
inv_queue_write inv_queue index content = (set inv_queue index content, (index + 1) % queue_entries)

-- `while (!vtd_iq_completed) cpu_relax();` from poll `n` on: whether it ends within `left` polls.
unfoldable pub poll : (ℕ → Bool) → ℕ → ℕ → Bool
poll completed zero n = false
poll completed (suc left) n =
    let rest = poll completed left (n + 1) in if completed n then true else rest

-- The requests of `vtd_flush_domain_caches`. `did` is an unsigned int, so the shift is done at 32 bits.
abbrev pub inv_context : ℕ → Entry
inv_context did = record {
  lo_word =
      bit_or (bit_or req_inv_context inv_context_domain) (u32 (did <<< inv_context_domain_shift));
  hi_word = 0;
}

abbrev pub inv_iotlb : ℕ → Entry
inv_iotlb did = record {
  lo_word =
      bit_or (bit_or (bit_or (bit_or req_inv_iotlb inv_iotlb_domain) inv_iotlb_dw) inv_iotlb_dr)
        (u32 (did <<< inv_iotlb_domain_shift));
  hi_word = 0;
}

module _ (hw : Hardware) where
  unfoldable pub inv_wait : Entry
  inv_wait = record {
    lo_word =
        bit_or (bit_or (bit_or req_inv_wait inv_wait_sw) inv_wait_fn) (1 <<< inv_wait_sdata_shift);
    hi_word = hw.completed_phys;
  }

  -- The unit once its tail register is written.
  unfoldable pub enqueue : InvUnit → Option Entry → InvUnit
  unfolding inv_queue_write inv_wait
  enqueue unit none =
      let (queue, index) = inv_queue_write unit.queue unit.tail inv_wait in
      record { queue = queue; tail = index }
  enqueue unit (some request) =
      let (queue, index) = inv_queue_write unit.queue unit.tail request in
      let (queue', index') = inv_queue_write queue index inv_wait in
      record { queue = queue'; tail = index' }

  -- `none` is a call that still waits for the hardware after the polls that are followed.
  unfoldable pub submit_iq_request : InvUnit → Option Entry → Option InvUnit
  unfolding enqueue poll
  submit_iq_request unit request =
      let unit' = enqueue unit request in
      if poll (hw.completed unit') hw.polls 0 then some unit' else none

  -- A loop over the units that submits the same requests to each.
  unfoldable pub submit_each : List Entry → InvUnit → Option InvUnit
  unfolding submit_iq_request
  submit_each [] unit = some unit
  submit_each (r ∷ rs) unit = elim (submit_iq_request unit (some r)) [
    | none ↦ none
    | some unit' ↦ submit_each rs unit'
  ]

  unfoldable pub submit_all : List Entry → List InvUnit → Option (List InvUnit)
  unfolding submit_each
  submit_all requests [] = some []
  submit_all requests (unit ∷ units) = elim (submit_each requests unit) [
    | none ↦ none
    | some unit' ↦ elim (submit_all requests units) [
      | none ↦ none
      | some units' ↦ some (unit' ∷ units')
    ]
  ]

  unfoldable pub flush_domain_caches : ℕ → List InvUnit → Option (List InvUnit)
  unfolding submit_all
  flush_domain_caches did units = submit_all (inv_context did ∷ inv_iotlb did ∷ []) units
