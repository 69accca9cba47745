-- ===== src/Tools/Hash.antt =====
-- `strhash` chooses a command by a number that other strings have too.
use spy.Base.{ℕ, ◌+◌, ◌-◌, ◌≤◌, ◌≡◌, refl, arith, [], ◌∷◌, ◌++◌, ap, u64, ◌<<<◌}
use spy.Tools.{Str, hash_from, strhash}

hash_from-append : (p s : Str) (hash : ℕ) → hash_from hash (p ++ s) ≡ hash_from (hash_from hash p) s
unfolding hash_from
hash_from-append [] s hash = refl
hash_from-append (c ∷ p) s hash = hash_from-append p s (u64 (u64 (u64 (hash <<< 5) + hash) + c))

-- Two neighbouring characters of a string, the first one more and the second 33 less, leave the hash as it
-- is, wherever they stand and whatever the string is.
strhash-collides :
    (p s : Str) (c d : ℕ)
    → 33 ≤ d
    → strhash (p ++ c ∷ d ∷ s) ≡ strhash (p ++ (c + 1) ∷ (d - 33) ∷ s)
unfolding strhash hash_from
strhash-collides p s c d le =
    let h = hash_from 5381 p in
    rw (hash_from-append p (c ∷ d ∷ s) 5381, hash_from-append p ((c + 1) ∷ (d - 33) ∷ s) 5381)
      (ap (λ x. hash_from x s) (omega arith))
