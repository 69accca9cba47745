-- ===== src/Tools.antt =====
-- The command line tool: the hash of lib/string.c, and the parse of a target of tools/functions/target.c.
pub mod Program
pub mod Hash
pub mod Target
pub mod Requests
mod Tests
use spy.Base.{
  ℕ, zero, suc, ◌+◌, ◌-◌, ◌*◌, ◌%◌, ◌^◌, Bool, true, false, not, ◌&&◌, ◌||◌, List, [], ◌∷◌, length,
  ltb, leb, ◌==◌, if◌then◌else◌, u32, u64, ◌<<<◌,
}
use spy.Base.Result.{Result, ok, err, einval}

-- A string without the zero at its end.
abbrev pub Str : Type 0
Str = List ℕ

-- The loop of `strhash` from a hash on.
unfoldable pub hash_from : ℕ → Str → ℕ
hash_from hash [] = hash
hash_from hash (c ∷ str) = hash_from (u64 (u64 (u64 (hash <<< 5) + hash) + c)) str

unfoldable pub strhash : Str → ℕ
unfolding hash_from
strhash str = hash_from 5381 str

abbrev pub str_enable : ℕ
str_enable = 6953475863468

abbrev pub str_disable : ℕ
str_disable = 229463237649593

abbrev pub str_target : ℕ
str_target = 6954048093548

abbrev pub str_version : ℕ
str_version = 249805560270004805

abbrev pub str_v : ℕ
str_v = 5861512

abbrev pub str_help : ℕ
str_help = 6951207451432

abbrev pub str_h : ℕ
str_h = 5861498

abbrev pub str_hardware : ℕ
str_hardware = 7572446949630323

abbrev pub str_create : ℕ
str_create = 6953402479289

abbrev pub str_list : ℕ
str_list = 6385440353

abbrev pub str_load : ℕ
str_load = 6385446277

abbrev pub str_start : ℕ
str_start = 210728208851

abbrev pub str_shutdown : ℕ
str_shutdown = 7572924928492385

abbrev pub str_eliminate : ℕ
str_eliminate = 249886987627671869

abbrev pub str_stats : ℕ
str_stats = 210728208916

-- `strcmp(a, b) == 0`
unfoldable pub same : Str → Str → Bool
same [] [] = true
same [] (d ∷ ds) = false
same (c ∷ cs) [] = false
same (c ∷ cs) (d ∷ ds) = let rest = same cs ds in c == d && rest

-- What `strtoll` gives: the value as 64 bits, whether it set `errno`, and whether it read the whole string.
pub record LongLong : Type 0 where
  pub value : ℕ
  pub failed : Bool
  pub at_end : Bool

-- `struct spy_target_id`, the id as the 32 bits of an int.
pub record TargetId : Type 0 where
  pub id : ℕ
  pub name : Str

abbrev pub no_id : TargetId
no_id = record { id = 0; name = [] }

-- `SPY_TARGET_ID_UNUSED`
abbrev pub target_id_unused : ℕ
target_id_unused = 2 ^ 32 - 1

abbrev pub target_id_namelen : ℕ
target_id_namelen = 32

abbrev pub long_name : Str
long_name = 45 ∷ 45 ∷ 110 ∷ 97 ∷ 109 ∷ 101 ∷ []

abbrev pub short_name : Str
short_name = 45 ∷ 110 ∷ []

unfoldable pub take : ℕ → Str → Str
take zero str = []
take (suc n) [] = []
take (suc n) (c ∷ str) = c ∷ take n str

abbrev pub named : Str → TargetId
named str = record { id = target_id_unused; name = take (target_id_namelen - 1) str }

-- The number of arguments used, and the target. A first argument is taken for the option as it is written
-- there: the comparison to `-n` has no `== 0`.
unfoldable pub parse_target_id : (Str → LongLong) → List Str → ℕ × TargetId
unfolding same take
parse_target_id strtoll [] = (0, no_id)
parse_target_id strtoll (a ∷ rest) =
    let number = strtoll a in
    let id = u32 number.value in
    let by_name : ℕ × TargetId = elim rest [ [] ↦ (0, no_id) | b ∷ more ↦ (2, named b) ] in
    if same a long_name || not (same a short_name)
    then by_name
    else if number.failed || not number.at_end || leb (2 ^ 31) id
    then (1, named a)
    else (1, record { id = id; name = [] })

unfoldable pub match_opt : Str → Str → Str → Bool
unfolding same
match_opt argv short_opt long_opt = same argv short_opt || same argv long_opt
