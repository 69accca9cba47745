-- ===== src/Tools/Tests.antt =====
-- The tool at work: the hashes of the commands, and some command lines.
use spy.Base.{ℕ, ◌<◌, ◌≤◌, ◌-◌, ◌^◌, ◌≡◌, ◌⊎◌, refl, true, false, List, [], ◌∷◌}
use spy.Base.Result.{err, einval}
use spy.Tools.{
  Str, LongLong, strhash, str_enable, str_start, str_shutdown, str_load, parse_target_id,
}
use spy.Tools.Program.{Calls, exits, undefined, main, spy_ioctl, target_shutdown_load}
use spy.Tools.Target.{Parsed, parse_target_id-Parsed, target_shutdown_load_lem}
use spy.Tools.Requests.{Sends, main-Sends}

-- enable
abbrev enable_word : Str
enable_word = 101 ∷ 110 ∷ 97 ∷ 98 ∷ 108 ∷ 101 ∷ []

-- fMable
abbrev other_word : Str
other_word = 102 ∷ 77 ∷ 97 ∷ 98 ∷ 108 ∷ 101 ∷ []

abbrev spy_word : Str
spy_word = 115 ∷ 112 ∷ 121 ∷ []

abbrev target_word : Str
target_word = 116 ∷ 97 ∷ 114 ∷ 103 ∷ 101 ∷ 116 ∷ []

abbrev start_word : Str
start_word = 115 ∷ 116 ∷ 97 ∷ 114 ∷ 116 ∷ []

abbrev shutdown_word : Str
shutdown_word = 115 ∷ 104 ∷ 117 ∷ 116 ∷ 100 ∷ 111 ∷ 119 ∷ 110 ∷ []

abbrev load_word : Str
load_word = 108 ∷ 111 ∷ 97 ∷ 100 ∷ []

-- 3
abbrev three : Str
three = 51 ∷ []

-- -n
abbrev dash_n : Str
dash_n = 45 ∷ 110 ∷ []

enable_hash : strhash enable_word ≡ str_enable
unfolding strhash
enable_hash = refl

shutdown_hash : strhash shutdown_word ≡ str_shutdown
unfolding strhash
shutdown_hash = refl

abbrev three_only : Str → LongLong
three_only str = record { value = 3; failed = false; at_end = true }

-- A host that keeps the calls of `ioctl`, each of which fails, as the device has no function for it. The pointer of
-- the image happens to point to memory.
abbrev host : Calls (List ℕ)
host = record {
  strtoll = three_only;
  can_open = λ log. true;
  can_read = λ name log. true;
  has_memory = λ log. true;
  ioctl = λ r a log. (2 ^ 32 - 1, r ∷ log);
  list_targets = λ log. (false, 0);
  image_writable = λ log. true;
}

parse_target_id-Parsed_example : Parsed (three ∷ []) (parse_target_id three_only (three ∷ []))
parse_target_id-Parsed_example = parse_target_id-Parsed three_only (three ∷ [])

-- A number is not taken for the target: the call is refused, and nothing is sent.
start_by_number : main host (spy_word ∷ target_word ∷ start_word ∷ three ∷ []) [] ≡ exits 1 []
unfolding main
start_by_number = refl

start_by_name :
    main host (spy_word ∷ target_word ∷ start_word ∷ dash_n ∷ []) [] ≡ exits 1 (str_start ∷ [])
unfolding main
start_by_name = refl

-- A word that is no command enables the hypervisor.
other_enables : main host (spy_word ∷ other_word ∷ three ∷ []) [] ≡ exits 1 (str_enable ∷ [])
unfolding main
other_enables = refl

no_shutdown : spy_ioctl str_shutdown ≡ err einval
unfolding spy_ioctl
no_shutdown = refl

-- A target named `-n` is loaded from a file.
load_by_name :
    main host (spy_word ∷ target_word ∷ load_word ∷ dash_n ∷ three ∷ []) []
    ≡ exits 1 (str_load ∷ [])
unfolding main
load_by_name = refl

target_shutdown_load_lem_example :
    let used = (parse_target_id three_only (dash_n ∷ [])).0 in
    let run = target_shutdown_load host (dash_n ∷ []) str_shutdown [] in
    (((used ≡ 0) ⊎ ((used < 1) ⊎ (true ≡ false))) × (run ≡ exits 1 []))
    ⊎ ((1 ≤ used) × (used ≡ 1) × (true ≡ true) × (run ≡ undefined))
target_shutdown_load_lem_example = target_shutdown_load_lem host (dash_n ∷ []) []

main-Sends_example : Sends [] (main host (spy_word ∷ target_word ∷ start_word ∷ dash_n ∷ []) [])
main-Sends_example =
    main-Sends host (λ r a log. refl) [] (spy_word ∷ target_word ∷ start_word ∷ dash_n ∷ [])
