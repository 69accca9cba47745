-- ===== src/Vmcs/Laws.antt =====
-- What sequences of VMCS writes leave.
use spy.Base.{ℕ, true, List, [], ◌∷◌, ◌==◌, if◌then◌else◌, ◌≡◌, refl, arith, ◌∙◌}
use spy.Vmcs.{Vmcs, Write, update, vmcs_write64, vmcs_writes, vmcs_writes_ok, vmcs_write_ok}

-- The value of a field after the writes.
abbrev pub last_write : List Write → ℕ → ℕ → ℕ
last_write [] g d = d
last_write (w ∷ ws) g d = last_write ws g (if g == w.field then w.value else d)

abbrev pub AllSupported : Vmcs → Type 0
AllSupported vmcs = (field : ℕ) → vmcs.supported field ≡ true

pub write-fields :
    (field value : ℕ) (vmcs : Vmcs) (g : ℕ)
    → vmcs.supported field ≡ true
    → (vmcs_write64 field value vmcs).fields g ≡ (if g == field then value else vmcs.fields g)
unfolding vmcs_write64 update
write-fields field value vmcs g h = rw h refl

pub write-supported :
    (field value : ℕ) (vmcs : Vmcs) (g : ℕ)
    → (vmcs_write64 field value vmcs).supported g ≡ vmcs.supported g
unfolding vmcs_write64
write-supported field value vmcs g = ground arith

pub writes-fields :
    (ws : List Write) (vmcs : Vmcs) (g : ℕ)
    → AllSupported vmcs
    → (vmcs_writes ws vmcs).fields g ≡ last_write ws g (vmcs.fields g)
unfolding vmcs_writes
writes-fields [] vmcs g all = refl
writes-fields (w ∷ ws) vmcs g all =
    rw
      (
        writes-fields ws (vmcs_write64 w.field w.value vmcs) g
            (λ f. write-supported w.field w.value vmcs f ∙ all f),
        write-fields w.field w.value vmcs g (all w.field),
      )
      refl

pub writes-supported :
    (ws : List Write) (vmcs : Vmcs) (g : ℕ) → (vmcs_writes ws vmcs).supported g ≡ vmcs.supported g
unfolding vmcs_writes
writes-supported [] vmcs g = refl
writes-supported (w ∷ ws) vmcs g =
    writes-supported ws (vmcs_write64 w.field w.value vmcs) g
    ∙ write-supported w.field w.value vmcs g

pub writes-ok : (ws : List Write) (vmcs : Vmcs) → AllSupported vmcs → vmcs_writes_ok ws vmcs ≡ true
unfolding vmcs_writes_ok vmcs_write_ok
writes-ok [] vmcs all = refl
writes-ok (w ∷ ws) vmcs all = rw (all w.field) (writes-ok ws vmcs all)
