-- ===== src/Tools/Target.antt =====
-- `parse_target_id`, `target_simple_cmd` and `target_shutdown_load` on every list of arguments.
use spy.Base.{
  false, ◌+◌, ◌==◌, ==_iff, ℕ, zero, suc, ◌^◌, ◌<◌, ◌≤◌, ◌≡◌, ◌⊎◌, inl, inr, refl, arith, true, not,
  ◌||◌, List, [], ◌∷◌, length, leb, u32, Bool-cases,
}
use spy.Tools.{
  str_shutdown, Str, LongLong, TargetId, no_id, named, take, same, long_name, short_name,
  target_id_namelen, parse_target_id,
}
use spy.Tools.Program.{load_image, exits, undefined, Calls, target_shutdown_load, arg_at}

length-take : (n : ℕ) (str : Str) → length (take n str) ≤ n
unfolding take
length-take zero str = omega arith
length-take (suc n) [] = omega arith
length-take (suc n) (c ∷ str) = omega (arith, length-take n str)

-- What a parse gives: it uses no more arguments than there are, the name leaves room for the zero at its
-- end, and there is no target, or one by the name that the second argument is, or the first is `-n` and
-- stands for a number that is not negative, or else for a name.
pub record Parsed (args : List Str) (result : ℕ × TargetId) : Type 0 where
  pub in_range : result.0 ≤ length args
  pub terminated : length result.1.name < target_id_namelen
  pub kind :
      ((result.0 ≡ 0) × (result.1 ≡ no_id))
      ⊎ (((result.0 ≡ 2) × (result.1 ≡ named (arg_at args 1)))
          ⊎ ((result.0 ≡ 1)
              × (same (arg_at args 0) short_name ≡ true)
              × ((result.1 ≡ named (arg_at args 0))
                  ⊎ ((result.1.id < 2 ^ 31) × (result.1.name ≡ [])))))

parse_name :
    (a : Str) (rest : List Str)
    → Parsed (a ∷ rest) (elim rest [ [] ↦ (0, no_id) | b ∷ more ↦ (2, named b) ])
unfolding arg_at
parse_name a [] = record {
  in_range = omega arith;
  terminated = omega arith;
  kind = inl (refl, refl);
}
parse_name a (b ∷ more) = record {
  in_range = omega arith;
  terminated = omega (arith, length-take 31 b);
  kind = inr (inl (refl, refl));
}

-- Each list of arguments has a parse of which `Parsed` holds: a first argument other than `-n` is never
-- itself the target.
pub parse_target_id-Parsed :
    (strtoll : Str → LongLong) (args : List Str) → Parsed args (parse_target_id strtoll args)
unfolding parse_target_id arg_at
parse_target_id-Parsed strtoll [] = record {
  in_range = omega arith;
  terminated = omega arith;
  kind = inl (refl, refl);
}
parse_target_id-Parsed strtoll (a ∷ rest) =
    let number = strtoll a in
    let by_number = number.failed || not number.at_end || leb (2 ^ 31) (u32 number.value) in
    elim (Bool-cases (same a long_name || not (same a short_name))) [
      | inl option ↦ rw (parse_target_id, option) (parse_name a rest)
      | inr first ↦
          let is_n : same a short_name ≡ true = ground arith in
          elim (Bool-cases by_number) [
            | inl name ↦
                rw (parse_target_id, first, name)
                  (record {
                    in_range = omega arith;
                    terminated = omega (arith, length-take 31 a);
                    kind = inr (inr (refl, is_n, inl refl));
                  })
            | inr id ↦
                rw (parse_target_id, first, id)
                  (record {
                    in_range = omega arith;
                    terminated = omega arith;
                    kind = inr (inr (refl, is_n, inr (ground arith, refl)));
                  })
          ]
    ]

-- The subcommand that shuts a target down never sends a request. Where the arguments name no target, there are
-- more than the name takes, or no memory is left, it prints the help or ends with an error. Where they name a
-- target and nothing else, which is how it is to be called, its behaviour is undefined.
pub target_shutdown_load_lem :
    {W : Type 0} (host : Calls W) (args : List Str) (w : W)
    → let used = (parse_target_id host.strtoll args).0 in
      let run = target_shutdown_load host args str_shutdown w in
      (((used ≡ 0) ⊎ ((used < length args) ⊎ (host.has_memory w ≡ false))) × (run ≡ exits 1 w))
      ⊎ ((1 ≤ used) × (used ≡ length args) × (host.has_memory w ≡ true) × (run ≡ undefined))
unfolding target_shutdown_load load_image
target_shutdown_load_lem host args w =
    let used = (parse_target_id host.strtoll args).0 in
    let range = (parse_target_id-Parsed host.strtoll args).in_range in
    elim (Bool-cases (used == 0)) [
      | inl none_named ↦
          inl (inl ((==_iff used 0).0 none_named), rw (target_shutdown_load, none_named) refl)
      | inr named ↦ elim (Bool-cases (3 + used == 3 + length args)) [
        | inr more ↦
            inl (inr (inl (ground (arith, range))), rw (target_shutdown_load, named, more) refl)
        | inl all ↦ elim (Bool-cases (host.has_memory w)) [
          | inr full ↦ inl (inr (inr full), rw (target_shutdown_load, named, all, full) refl)
          | inl room ↦
              let same : used ≡ length args = ground arith in
              let at_end : leb (length args) used ≡ true = ground arith in
              inr
                (ground arith, same, room, rw (target_shutdown_load, named, all, room, at_end) refl)
        ]
      ]
    ]
