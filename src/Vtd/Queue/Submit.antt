-- ===== src/Vtd/Queue/Submit.antt =====
-- What a request to a DMAR unit leaves in its queue.
use spy.Base.{
  ℕ, zero, suc, ◌+◌, ◌%◌, ◌<◌, ◌≤◌, ◌≡◌, ◌≢◌, refl, arith, Bool, true, some, length, get_or, set,
  length-set, get_or-set_self, get_or-set_ne, Bool-cases, inl, inr, sym, ℕ_discrete, ◌∙◌,
}
use spy.Vtd.{Entry, no_entry}
use spy.Vtd.Queue.{
  InvUnit, Hardware, queue_entries, inv_queue_write, poll, inv_wait, enqueue, submit_iq_request,
}

-- The queue fills its page and the tail is an index of it.
pub record IsReady (unit : InvUnit) : Type 0 where
  pub full_page : length unit.queue ≡ queue_entries
  pub in_page : unit.tail < queue_entries

abbrev pub at : InvUnit → ℕ → Entry
at unit i = get_or unit.queue i no_entry

pub poll-true :
    (completed : ℕ → Bool) (left n k : ℕ)
    → n ≤ k
    → k < n + left
    → completed k ≡ true
    → poll completed left n ≡ true
unfolding poll
poll-true completed zero n k lo hi c = absurd (omega arith)
poll-true completed (suc left) n k lo hi c = elim (ℕ_discrete n k) [
  | yes e ↦ rw (e, c) refl
  | no ne ↦ ground (arith, poll-true completed left (n + 1) k)
]

poll_sound :
    (completed : ℕ → Bool) (left n : ℕ)
    → poll completed left n ≡ true
    → (k : ℕ) × (k < n + left) × (completed k ≡ true)
unfolding poll
poll_sound completed zero n h = cc
poll_sound completed (suc left) n h = elim (Bool-cases (completed n)) [
  | inl now ↦ (n, omega arith, now)
  | inr later ↦
      let (k, lt, c) = poll_sound completed left (n + 1) (ground arith) in (k, omega arith, c)
]

-- What a request leaves: itself at the old tail, the wait descriptor behind it, round the end of
-- the page, the tail moved by two, and every other entry as it was.
pub record Submitted (hw : Hardware) (unit : InvUnit) (request : Entry) (unit' : InvUnit)
    : Type 0 where
  pub placed : at unit' unit.tail ≡ request
  pub waits : at unit' ((unit.tail + 1) % queue_entries) ≡ inv_wait hw
  pub moved : unit'.tail ≡ (unit.tail + 2) % queue_entries
  pub ready : IsReady unit'
  pub kept : (i : ℕ) → i ≢ unit.tail → i ≢ (unit.tail + 1) % queue_entries → at unit' i ≡ at unit i

module _ (hw : Hardware) (unit : InvUnit) (request : Entry) where
  enqueue-Submitted : IsReady unit → Submitted hw unit request (enqueue hw unit (some request))
  unfolding enqueue inv_queue_write
  enqueue-Submitted r =
      let t = unit.tail in
      let t' = (unit.tail + 1) % queue_entries in
      let q = set unit.queue t request in
      let w = inv_wait hw in
      let ne : t' ≢ t = omega (arith, r.in_page) in
      let full : length q ≡ queue_entries = length-set unit.queue t request ∙ r.full_page in
      record {
        placed =
            get_or-set_ne q t' t w no_entry ne
            ∙ get_or-set_self unit.queue t request no_entry (omega (arith, r.in_page, r.full_page));
        waits = get_or-set_self q t' w no_entry (omega (arith, full));
        moved = omega (arith, r.in_page);
        ready = record { full_page = length-set q t' w ∙ full; in_page = omega arith };
        kept = λ i p p'.
            get_or-set_ne q t' i w no_entry (λ e. p' (sym e))
            ∙ get_or-set_ne unit.queue t i request no_entry (λ e. p (sym e));
      }

  -- On a unit whose queue fills its page and whose tail is inside, where the hardware reports
  -- completion at a poll `k` among those that are followed, a request returns, and leaves what
  -- `Submitted` says.
  pub submit_iq_request-Submitted :
      (k : ℕ)
      → IsReady unit
      → k < hw.polls
      → hw.completed (enqueue hw unit (some request)) k ≡ true
      → (unit' : InvUnit) × (submit_iq_request hw unit (some request) ≡ some unit')
        × Submitted hw unit request unit'
  unfolding submit_iq_request
  submit_iq_request-Submitted k r lt c =
      let unit' = enqueue hw unit (some request) in
      (
        unit',
        rw (poll-true (hw.completed unit') hw.polls 0 k (omega arith) (omega arith) c) refl,
        enqueue-Submitted r,
      )

  -- The converse: a request that returns has been reported complete at a poll that is followed.
  submit_iq_request-completed :
      {unit' : InvUnit}
      → submit_iq_request hw unit (some request) ≡ some unit'
      → (k : ℕ) × (k < hw.polls) × (hw.completed unit' k ≡ true)
  unfolding submit_iq_request
  submit_iq_request-completed {unit'} e =
      let sent = enqueue hw unit (some request) in
      let same : sent ≡ unit' = ground arith in
      let (k, lt, c) = poll_sound (hw.completed sent) hw.polls 0 (ground arith) in
      (k, omega arith, rw (← same) c)
