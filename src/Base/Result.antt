-- ===== src/Base/Result.antt =====
-- The `int` results of the C functions: a value that is not negative, or a negative errno.

pub data Errno : Type 0 where
  enoent enomem e2big ebusy enodev einval erange eio eperm enosys efault : Errno

pub data Result {ℓ} (A : Type ℓ) : Type ℓ where
  ok : A → Result A
  err : Errno → Result A

infixl 5 ◌>>=◌ ◌>>◌
abbrev pub ◌>>=◌ {ℓ κ} : {A : Type ℓ} {B : Type κ} → Result A → (A → Result B) → Result B
ok a >>= f = f a
err e >>= f = err e

abbrev pub ◌>>◌ {ℓ κ} : {A : Type ℓ} {B : Type κ} → Result A → Result B → Result B
m >> k = m >>= λ _. k
