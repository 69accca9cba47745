-- ===== src/Vtd/Commands/Status.antt =====
-- How the status register of a unit follows the commands, and what `vtd_update_gcmd_reg` then does.
use spy.Base.{
  ℕ, zero, suc, ◌<◌, ◌≡◌, inl, inr, refl, sym, ap, ◌∙◌, arith, Bool, false, Option, none, some,
  List, [], ◌∷◌, bit_and, bit_or, not32, if◌then◌else◌, ◌==◌, ==_iff, Bool-cases, true, not, ◌&&◌,
  has, bit_and_assoc, bit_and_comm, bit_and-zero, bit_and-bit_or, zero-bit_or,
}
use spy.Vtd.Setup.{gsts_used_ctrls}
use spy.Vtd.Commands.{
  Event, did_read, wrote, wrote_field, requested, DmarUnit, Answers, see, command, wait_status,
  update_gcmd_reg,
}
use spy.Vtd.{Entry}
use spy.Vtd.Registers.{
  gcmd_reg, gsts_reg, gcmd_te, gcmd_ire, gcmd_qie, gcmd_srtp, gcmd_sirtp, iqa_reg,
}

-- The controls of the last command, none before the first.
unfoldable pub told : List Event → ℕ
told [] = 0
told (did_read r ∷ log) = told log
told (wrote r v ∷ log) =
    let rest = told log in if r == gcmd_reg then bit_and v gsts_used_ctrls else rest
told (wrote_field r m v ∷ log) = told log
told (requested e ∷ log) = told log

-- The value written last to a register as a whole.
unfoldable pub newest : ℕ → List Event → Option ℕ
newest reg [] = none
newest reg (did_read r ∷ log) = newest reg log
newest reg (wrote r v ∷ log) = let rest = newest reg log in if r == reg then some v else rest
newest reg (wrote_field r m v ∷ log) = newest reg log
newest reg (requested e ∷ log) = newest reg log

-- The address of a table in use: what `reg` held at the last command with `bit`.
unfoldable pub latched : ℕ → ℕ → List Event → Option ℕ
latched bit reg [] = none
latched bit reg (did_read r ∷ log) = latched bit reg log
latched bit reg (wrote r v ∷ log) =
    let rest = latched bit reg log in if r == gcmd_reg && has v bit then newest reg log else rest
latched bit reg (wrote_field r m v ∷ log) = latched bit reg log
latched bit reg (requested e ∷ log) = latched bit reg log

-- The requests since the last command with `bit`, the last first.
unfoldable pub since : ℕ → List Event → List (Option Entry)
since bit [] = []
since bit (did_read r ∷ log) = since bit log
since bit (wrote r v ∷ log) =
    let rest = since bit log in if r == gcmd_reg && has v bit then [] else rest
since bit (wrote_field r m v ∷ log) = since bit log
since bit (requested e ∷ log) = e ∷ since bit log

-- The address of the queue in use: what its register held when the queue was last switched on.
unfoldable pub queue_in_use : List Event → Option ℕ
queue_in_use [] = none
queue_in_use (did_read r ∷ log) = queue_in_use log
queue_in_use (wrote r v ∷ log) =
    let rest = queue_in_use log in
    if r == gcmd_reg && has v gcmd_qie && not (has (told log) gcmd_qie)
    then newest iqa_reg log
    else rest
queue_in_use (wrote_field r m v ∷ log) = queue_in_use log
queue_in_use (requested e ∷ log) = queue_in_use log

abbrev pub is_command : Event → Bool
is_command (did_read r) = false
is_command (wrote r v) = r == gcmd_reg
is_command (wrote_field r m v) = false
is_command (requested e) = false

unfoldable pub reads : ℕ → List Event → List Event
reads zero log = log
reads (suc n) log = did_read gsts_reg ∷ reads n log

-- The next read of the status register shows the controls of the last command.
abbrev pub Steady : Answers → List Event → Type 0
Steady hw log = bit_and (hw.status log) gsts_used_ctrls ≡ told log

-- The events of `vtd_update_gcmd_reg` up to its loop.
abbrev pub commanded : Answers → ℕ → Bool → List Event → List Event
commanded hw mask on log =
    wrote gcmd_reg (command (hw.status log) mask on) ∷ did_read gsts_reg ∷ log

abbrev pub Confirmed : Answers → ℕ → Bool → List Event → ℕ → Type 0
Confirmed hw mask on log n =
    bit_and (hw.status (reads n (commanded hw mask on log))) mask
    ≡ bit_and (command (hw.status log) mask on) mask

-- The commands of the driver: each control is switched on and off, and the address of each table is set.
pub data IsCommand : ℕ → Bool → Type 0 where
  switches_te : (on : Bool) → IsCommand gcmd_te on
  switches_ire : (on : Bool) → IsCommand gcmd_ire on
  switches_qie : (on : Bool) → IsCommand gcmd_qie on
  sets_root : IsCommand gcmd_srtp true
  sets_table : IsCommand gcmd_sirtp true

-- What the manual says of the status register: nothing but a command changes its controls; a command of those
-- above to a unit whose status is steady is confirmed at one of the polls, and a status that confirms it is steady.
pub record Obeys (hw : Answers) : Type 0 where
  pub stays :
      (log : List Event) (e : Event) → Steady hw log → is_command e ≡ false → Steady hw (e ∷ log)
  pub confirms :
      (log : List Event) (mask : ℕ) (on : Bool)
      → IsCommand mask on
      → Steady hw log
      → (k : ℕ) × (k < hw.polls) × Confirmed hw mask on log k
  pub settles :
      (log : List Event) (mask : ℕ) (on : Bool) (n : ℕ)
      → IsCommand mask on
      → Steady hw log
      → Confirmed hw mask on log n
      → Steady hw (reads n (commanded hw mask on log))

reads-shift :
    (n : ℕ) (log : List Event) → reads n (did_read gsts_reg ∷ log) ≡ did_read gsts_reg ∷ reads n log
unfolding reads
reads-shift zero log = refl
reads-shift (suc n) log = ap (λ (l : List Event). did_read gsts_reg ∷ l) (reads-shift n log)

told-reads : (n : ℕ) (log : List Event) → told (reads n log) ≡ told log
unfolding reads told
told-reads zero log = refl
told-reads (suc n) log = told-reads n log

newest-reads : (reg n : ℕ) (log : List Event) → newest reg (reads n log) ≡ newest reg log
unfolding reads newest
newest-reads reg zero log = refl
newest-reads reg (suc n) log = newest-reads reg n log

latched-reads :
    (bit reg n : ℕ) (log : List Event) → latched bit reg (reads n log) ≡ latched bit reg log
unfolding reads latched
latched-reads bit reg zero log = refl
latched-reads bit reg (suc n) log = latched-reads bit reg n log

since-reads : (bit n : ℕ) (log : List Event) → since bit (reads n log) ≡ since bit log
unfolding reads since
since-reads bit zero log = refl
since-reads bit (suc n) log = since-reads bit n log

queue_in_use-reads : (n : ℕ) (log : List Event) → queue_in_use (reads n log) ≡ queue_in_use log
unfolding reads queue_in_use
queue_in_use-reads zero log = refl
queue_in_use-reads (suc n) log = queue_in_use-reads n log

module _ (hw : Answers) (mask val : ℕ) where
  -- The loop stops at the first read that confirms the command.
  wait_status-Stops :
      (left k : ℕ) (u : DmarUnit)
      → k < left
      → bit_and (hw.status (reads k u.log)) mask ≡ bit_and val mask
      → (n : ℕ) × (wait_status hw left mask val u ≡ some (record u { log = reads (suc n) u.log }))
        × (bit_and (hw.status (reads n u.log)) mask ≡ bit_and val mask)
  unfolding wait_status reads see
  wait_status-Stops zero k u lt h = absurd (omega arith)
  wait_status-Stops (suc left) zero u lt h = (zero, rw (wait_status, (==_iff _ _).1 h) refl, h)
  wait_status-Stops (suc left) (suc k) u lt h =
      elim (Bool-cases (bit_and (hw.status u.log) mask == bit_and val mask)) [
        | inl now ↦ (zero, rw (wait_status, now) refl, (==_iff _ _).0 now)
        | inr later ↦
            let u1 = see (did_read gsts_reg) u in
            let (n, e, c) =
              wait_status-Stops left k u1 (omega arith)
                (ap (λ (l : List Event). bit_and (hw.status l) mask) (reads-shift k u.log) ∙ h) in
            let same = reads-shift n u.log in
            (
              suc n,
              rw (wait_status, later)
                  (e
                    ∙ ap (λ (l : List Event). some (record u { log = did_read gsts_reg ∷ l }))
                        same),
              sym (ap (λ (l : List Event). bit_and (hw.status l) mask) same) ∙ c,
            )
      ]

-- The controls that a command leaves, from those before it.
abbrev pub next_controls : ℕ → ℕ → Bool → ℕ
next_controls controls mask on =
    bit_and (if on then bit_or controls mask else bit_and controls (not32 mask)) gsts_used_ctrls

-- What a command leaves: a steady unit with its control set or cleared. The table of a bit that is no control
-- is taken from its register by a command with that bit, and the queue by one that switches the queue on; all
-- else is as it was.
pub record Updated (hw : Answers) (mask : ℕ) (on : Bool) (u : DmarUnit) : Type 0 where
  pub final : DmarUnit
  pub result : update_gcmd_reg hw mask on u ≡ some final
  pub steady : Steady hw final.log
  pub now : told final.log ≡ next_controls (told u.log) mask on
  pub kept : (reg : ℕ) → (gcmd_reg == reg) ≡ false → newest reg final.log ≡ newest reg u.log
  pub table :
      (bit reg : ℕ)
      → bit_and gsts_used_ctrls bit ≡ 0
      → latched bit reg final.log
        ≡ (if on && has mask bit then newest reg u.log else latched bit reg u.log)
  pub requests :
      (bit : ℕ)
      → bit_and gsts_used_ctrls bit ≡ 0
      → since bit final.log ≡ (if on && has mask bit then [] else since bit u.log)
  pub queue_set :
      has (next_controls (told u.log) mask on) gcmd_qie ≡ true
      → has (told u.log) gcmd_qie ≡ false
      → queue_in_use final.log ≡ newest iqa_reg u.log
  pub queue_kept : has (told u.log) gcmd_qie ≡ true → queue_in_use final.log ≡ queue_in_use u.log
  pub same_queue : final.inv ≡ u.inv

told-commanded :
    (hw : Answers) (mask : ℕ) (on : Bool) (log : List Event)
    → Steady hw log
    → told (commanded hw mask on log) ≡ next_controls (told log) mask on
unfolding told command
told-commanded hw mask on log steady = rw (steady) refl

-- A bit that is no control is in the value that is written just if it is in the mask of a command that sets it.
used-other :
    (status bit : ℕ)
    → bit_and gsts_used_ctrls bit ≡ 0
    → bit_and (bit_and status gsts_used_ctrls) bit ≡ 0
used-other status bit none_of =
    bit_and_assoc status gsts_used_ctrls bit
    ∙ ap (λ (x : ℕ). bit_and status x) none_of
    ∙ bit_and-zero status

command-bit :
    (status mask bit : ℕ) (on : Bool)
    → bit_and gsts_used_ctrls bit ≡ 0
    → bit_and (command status mask on) bit ≡ (if on then bit_and mask bit else 0)
unfolding command
command-bit status mask bit true none_of =
    bit_and-bit_or (bit_and status gsts_used_ctrls) mask bit
    ∙ ap (λ (x : ℕ). bit_or x (bit_and mask bit)) (used-other status bit none_of)
    ∙ zero-bit_or (bit_and mask bit)
command-bit status mask bit false none_of =
    let val = bit_and status gsts_used_ctrls in
    ap (λ (x : ℕ). bit_and x bit) (bit_and_comm val (not32 mask))
    ∙ bit_and_assoc (not32 mask) val bit
    ∙ ap (λ (x : ℕ). bit_and (not32 mask) x) (used-other status bit none_of)
    ∙ bit_and-zero (not32 mask)

command-has :
    (status mask bit : ℕ) (on : Bool)
    → bit_and gsts_used_ctrls bit ≡ 0
    → has (command status mask on) bit ≡ (on && has mask bit)
command-has status mask bit true none_of =
    ap (λ (x : ℕ). not (x == 0)) (command-bit status mask bit true none_of)
command-has status mask bit false none_of =
    ap (λ (x : ℕ). not (x == 0)) (command-bit status mask bit false none_of)

command-qie :
    (hw : Answers) (mask : ℕ) (on : Bool) (log : List Event)
    → Steady hw log
    → has (command (hw.status log) mask on) gcmd_qie
      ≡ has (next_controls (told log) mask on) gcmd_qie
unfolding command
command-qie hw mask on log steady = rw (← steady) (
    sym (
      ap (λ (x : ℕ). not (x == 0))
        (bit_and_assoc (command (hw.status log) mask on) gsts_used_ctrls gcmd_qie)))

pub update_gcmd_reg-Updated :
    (hw : Answers) (mask : ℕ) (on : Bool) (u : DmarUnit)
    → IsCommand mask on
    → Obeys hw
    → Steady hw u.log
    → Updated hw mask on u
unfolding update_gcmd_reg see reads newest told latched since queue_in_use
update_gcmd_reg-Updated hw mask on u is obeys steady =
    let log = commanded hw mask on u.log in
    let (k, lt, c) = obeys.confirms u.log mask on is steady in
    let sent : DmarUnit = record u { log = log } in
    let val = command (hw.status u.log) mask on in
    let (n, e, c') = wait_status-Stops hw mask val hw.polls k sent lt c in
    record {
      final = record u { log = reads (suc n) log };
      result = e;
      steady =
          obeys.stays (reads n log) (did_read gsts_reg) (obeys.settles u.log mask on n is steady c')
            refl;
      now = told-reads (suc n) log ∙ told-commanded hw mask on u.log steady;
      kept = λ reg ne. newest-reads reg (suc n) log ∙ rw ne refl;
      table = λ bit reg none_of.
          latched-reads bit reg (suc n) log
          ∙ ap (λ b. if b then newest reg u.log else latched bit reg u.log)
              (command-has (hw.status u.log) mask bit on none_of);
      requests = λ bit none_of.
          since-reads bit (suc n) log
          ∙ ap (λ b. if b then [] else since bit u.log)
              (command-has (hw.status u.log) mask bit on none_of);
      queue_set = λ set off.
          queue_in_use-reads (suc n) log ∙ rw (command-qie hw mask on u.log steady ∙ set, off) refl;
      queue_kept = λ on_before. queue_in_use-reads (suc n) log ∙ rw on_before (ground arith);
      same_queue = refl;
    }
