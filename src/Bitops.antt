-- ===== src/Bitops.antt =====
-- hypervisor/arch/include/spy/bitops.h and asm/bitops.h: single bits of an array of 64-bit words, and
-- of the same array addressed by bytes.
pub mod Laws
use spy.Base.{
  ℕ, ◌+◌, ◌*◌, ◌/◌, ◌%◌, ◌^◌, List, get_or, set, bit_and, bit_or, ◌<<<◌, u64, not64, not, Bool,
  ◌==◌,
}

abbrev pub bits_per_long : ℕ
bits_per_long = 64

unfoldable pub set_bit : ℕ → List ℕ → List ℕ
set_bit nr addr =
    let n = nr / bits_per_long in set addr n (bit_or (get_or addr n 0) (1 <<< (nr % bits_per_long)))

unfoldable pub clear_bit : ℕ → List ℕ → List ℕ
clear_bit nr addr =
    let n = nr / bits_per_long in
    set addr n (bit_and (get_or addr n 0) (not64 (1 <<< (nr % bits_per_long))))

unfoldable pub constant_test_bit : ℕ → List ℕ → Bool
constant_test_bit nr addr =
    not (bit_and (1 <<< (nr % bits_per_long)) (get_or addr (nr / bits_per_long) 0) == 0)

-- `bytes[n] |= v` and `bytes[n] &= ~v` on the bytes of the words, of which the first is the lowest.
unfoldable pub or_byte : ℕ → ℕ → List ℕ → List ℕ
or_byte n v addr = set addr (n / 8) (bit_or (get_or addr (n / 8) 0) (v <<< (n % 8 * 8)))

unfoldable pub clear_byte : ℕ → ℕ → List ℕ → List ℕ
clear_byte n v addr = set addr (n / 8) (bit_and (get_or addr (n / 8) 0) (not64 (v <<< (n % 8 * 8))))
