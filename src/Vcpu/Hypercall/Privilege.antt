-- ===== src/Vcpu/Hypercall/Privilege.antt =====
-- Who may call the hypervisor, and what ends it.
use spy.Base.{
  ℕ, ◌-◌, ◌/◌, ◌%◌, ◌^◌, ◌≡◌, ◌≢◌, ◌⊎◌, ap, refl, arith, true, false, ◌||◌, Bool, ◌==◌, bit_and,
  bit_and_mask, u32, u64, has, Bool-cases, inl, inr, ==_iff,
}
use spy.Base.Flags.{has_none, has_some, has_bit, lacks_bit}
use spy.Cpu.{PerCpu, rax, rdi, rsi, set_reg, skip_emulated_instruction}
use spy.Vcpu.{get_efer, get_rflags, get_cs_attr}
use spy.Vmx.Init.{deactivate_vmm}
use spy.Vcpu.Hypercall.{
  Hypercalls, resumed, deactivated, long_mode, unprivileged, arg_mask, handle_hypercall,
}

-- Long mode is on, with a code segment of 64 bits: EFER.LMA and CS.L.
abbrev pub IsLong : PerCpu → Type 0
IsLong cpu = (get_efer cpu / 2 ^ 10 % 2 ≡ 1) × (get_cs_attr cpu / 2 ^ 13 % 2 ≡ 1)

abbrev pub IsLegacy : PerCpu → Type 0
IsLegacy cpu = (get_efer cpu / 2 ^ 10 % 2 ≡ 0) ⊎ (get_cs_attr cpu / 2 ^ 13 % 2 ≡ 0)

-- Ring 0, and not virtual-8086 mode, where RFLAGS.VM counts outside long mode.
abbrev pub IsRefused : PerCpu → Type 0
IsRefused cpu =
    (get_cs_attr cpu / 2 ^ 5 % 2 ^ 2 ≢ 0) ⊎ (IsLegacy cpu × (get_rflags cpu / 2 ^ 17 % 2 ≡ 1))

abbrev pub IsAllowed : PerCpu → Type 0
IsAllowed cpu =
    (get_cs_attr cpu / 2 ^ 5 % 2 ^ 2 ≡ 0) × (IsLong cpu ⊎ (get_rflags cpu / 2 ^ 17 % 2 ≡ 0))

-- The arguments of a call: RDI and RSI in long mode, EDI and ESI otherwise.
abbrev pub Arguments : PerCpu → ℕ → ℕ → Type 0
Arguments cpu a b =
    (IsLong cpu × (a ≡ u64 (cpu.guest_regs rdi)) × (b ≡ u64 (cpu.guest_regs rsi)))
    ⊎ (IsLegacy cpu × (a ≡ u32 (cpu.guest_regs rdi)) × (b ≡ u32 (cpu.guest_regs rsi)))

-- The state behind the instruction of the call, which is 3 bytes long.
abbrev pub behind : PerCpu → PerCpu
behind cpu = skip_emulated_instruction 3 cpu

mode_cases :
    (cpu : PerCpu)
    → ((long_mode cpu ≡ true) × IsLong cpu) ⊎ ((long_mode cpu ≡ false) × IsLegacy cpu)
unfolding long_mode
mode_cases cpu = elim (Bool-cases (has (get_efer cpu) (2 ^ 10))) [
  | inr off ↦ inr (rw off refl, inl (lacks_bit 10 (get_efer cpu) off))
  | inl lma ↦ elim (Bool-cases (has (get_cs_attr cpu) (2 ^ 13))) [
    | inr off ↦ inr (rw (lma, off) refl, inr (lacks_bit 13 (get_cs_attr cpu) off))
    | inl wide ↦
        inl
          (rw (lma, wide) refl, (has_bit 10 (get_efer cpu) lma, has_bit 13 (get_cs_attr cpu) wide))
  ]
]

arguments :
    (cpu : PerCpu)
    → Arguments cpu
        (bit_and (cpu.guest_regs rdi) (arg_mask cpu))
        (bit_and (cpu.guest_regs rsi) (arg_mask cpu))
unfolding arg_mask
arguments cpu =
    let a = cpu.guest_regs rdi in
    let b = cpu.guest_regs rsi in
    elim (mode_cases cpu) [
      | inl (e, long) ↦ inl (long, rw e (bit_and_mask 64 a), rw e (bit_and_mask 64 b))
      | inr (e, legacy) ↦ inr (legacy, rw e (bit_and_mask 32 a), rw e (bit_and_mask 32 b))
    ]

or_true : (a : Bool) → (a || true) ≡ true
or_true true = refl
or_true false = refl

privilege_cases :
    (cpu : PerCpu)
    → ((unprivileged cpu ≡ true) × IsRefused cpu) ⊎ ((unprivileged cpu ≡ false) × IsAllowed cpu)
unfolding unprivileged
privilege_cases cpu =
    let ar = get_cs_attr cpu in
    let flags = get_rflags cpu in
    elim (Bool-cases (has ar 0x60)) [
      | inl ring ↦ inl (rw ring (or_true _), inl (has_some 5 2 ar ring))
      | inr zero_ ↦
          let ring = has_none 5 2 ar zero_ in
          elim (mode_cases cpu) [
            | inl (e, long) ↦ inr (rw (e, zero_) refl, (ring, inl long))
            | inr (e, legacy) ↦ elim (Bool-cases (has flags (2 ^ 17))) [
              | inl vm ↦ inl (rw (e, vm) refl, inr (legacy, has_bit 17 flags vm))
              | inr off ↦ inr (rw (e, off, zero_) refl, (ring, inr (lacks_bit 17 flags off)))
            ]
          ]
    ]

-- What a call with given arguments does: the hypervisor leaves the CPU, or the caller goes on with the result.
abbrev pub Served : Hypercalls → PerCpu → ℕ → ℕ → Type 0
Served hypercall cpu a b =
    let code = cpu.guest_regs rax in
    let called = hypercall code a b (behind cpu) in
    let next = handle_hypercall hypercall cpu in
    let left = set_reg rax 0 called.1 in
    ((code ≡ 0) × (called.0 ≡ 0) × (next ≡ deactivated (deactivate_vmm left)))
    ⊎ (((code ≢ 0) ⊎ (called.0 ≢ 0)) × (next ≡ resumed (set_reg rax called.0 called.1)))

-- Every call of the hypervisor. A caller outside ring 0 or in virtual-8086 mode goes on with -EPERM, and the call
-- is not made. For any other, the call is made with the 64-bit arguments in long mode and with their low halves
-- otherwise. The hypervisor leaves the CPU just when the code is 0, to disable it, and the call returns 0; in all
-- other cases the caller goes on with the result. Either way the instruction is skipped.
pub handle_hypercall-Served :
    (hypercall : Hypercalls) (cpu : PerCpu)
    → (IsRefused cpu
        × (handle_hypercall hypercall cpu ≡ resumed (set_reg rax (2 ^ 64 - 1) (behind cpu))))
      ⊎ (IsAllowed cpu × (a : ℕ) × (b : ℕ) × Arguments cpu a b × Served hypercall cpu a b)
unfolding handle_hypercall
handle_hypercall-Served hypercall cpu =
    let code = cpu.guest_regs rax in
    let a = bit_and (cpu.guest_regs rdi) (arg_mask cpu) in
    let b = bit_and (cpu.guest_regs rsi) (arg_mask cpu) in
    let r = (hypercall code a b (behind cpu)).0 in
    elim (privilege_cases cpu) [
      | inl (e, refused) ↦ inl (refused, rw e refl)
      | inr (e, allowed) ↦
          let served : Served hypercall cpu a b = elim (Bool-cases (code == 0)) [
            | inr other ↦ inr (inl (λ z. absurd (ground arith)), rw (e, other) refl)
            | inl zero_ ↦ elim (Bool-cases (r == 0)) [
              | inr bad ↦ inr (inr (λ z. absurd (ground arith)), rw (e, zero_, bad) refl)
              | inl good ↦
                  let code_zero : code ≡ 0 = (==_iff code 0).0 zero_ in
                  let done : r ≡ 0 = (==_iff r 0).0 good in
                  let after = (hypercall code a b (behind cpu)).1 in
                  let leave = λ (x : ℕ). deactivated (deactivate_vmm (set_reg rax x after)) in
                  inl (code_zero, done, rw (e, zero_, good) (ap leave done))
            ]
          ] in
          inr (allowed, a, b, arguments cpu, served)
    ]
