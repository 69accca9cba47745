-- ===== src/Tools/Program.antt =====
-- tools/spy.c, tools/functions and `spy_ioctl` of module/device.c: from a command line to the requests for the
-- device.
use spy.Base.{
  ℕ, zero, suc, ◌+◌, Bool, not, ◌&&◌, ◌||◌, List, [], ◌∷◌, length, ltb, leb, ◌==◌, if◌then◌else◌,
}
use spy.Base.Result.{Result, ok, err, einval}
use spy.Tools.{
  LongLong, Str, TargetId, match_opt, parse_target_id, str_create, str_disable, str_eliminate,
  str_enable, str_h, str_hardware, str_help, str_list, str_load, str_shutdown, str_start, str_stats,
  str_target, str_v, str_version, strhash,
}

-- What a call does: it ends the program with a status, it returns, or its behaviour is undefined.
pub data Run (W : Type 0) : Type 0 where
  exits : ℕ → W → Run W
  returns : ℕ → W → Run W
  undefined : Run W

-- The third argument of `ioctl`.
pub data Argument : Type 0 where
  no_argument : Argument
  file_contents : Str → Argument
  target_of : TargetId → Argument
  load_of : TargetId → Argument

-- The system: `strtoll`, whether the device and a file can be opened and memory is left, the call of `ioctl` with
-- the number as the tool gives it and its result as an int, and the listing of targets: whether it ends the program,
-- and its status. `image_writable` is whether the pointer `image` of target_shutdown_load, which is never set,
-- happens to point to memory that can be written.
pub record Calls (W : Type 0) : Type 0 where
  pub strtoll : Str → LongLong
  pub can_open : W → Bool
  pub can_read : Str → W → Bool
  pub has_memory : W → Bool
  pub ioctl : ℕ → Argument → W → ℕ × W
  pub list_targets : W → Bool × ℕ
  pub image_writable : W → Bool

-- The argument at a place, none at or behind the last.
unfoldable pub arg_at : List Str → ℕ → Str
arg_at [] n = []
arg_at (a ∷ args) zero = a
arg_at (a ∷ args) (suc n) = arg_at args n

abbrev pub short_target : Str
short_target = 45 ∷ 116 ∷ []

abbrev pub long_target : Str
long_target = 45 ∷ 45 ∷ 116 ∷ 97 ∷ 114 ∷ 103 ∷ 101 ∷ 116 ∷ []

abbrev pub short_address : Str
short_address = 45 ∷ 97 ∷ []

abbrev pub long_address : Str
long_address = 45 ∷ 45 ∷ 97 ∷ 100 ∷ 100 ∷ 114 ∷ 101 ∷ 115 ∷ 115 ∷ []

-- The arguments from `argv[3]` on.
unfoldable pub drop3 : List Str → List Str
drop3 (a ∷ b ∷ c ∷ rest) = rest
drop3 argv = []

-- `return err ? 1 : 0;`
unfoldable pub finish : {W : Type 0} → Run W → Run W
finish (exits status w) = exits status w
finish (returns status w) = exits (if status == 0 then 0 else 1) w
finish undefined = undefined

module _ {W : Type 0} (host : Calls W) where
  -- `fd = open_dev(); err = ioctl(fd, command, argument); ... return err;`: the call as the tool makes it, with
  -- the number as an unsigned long.
  unfoldable pub request : ℕ → Argument → W → Run W
  request command argument w =
      let (status, w') = host.ioctl command argument w in
      if host.can_open w then returns status w' else exits 1 w

  unfoldable pub enable : List Str → W → Run W
  unfolding request arg_at
  enable argv w =
      let config = arg_at argv 2 in
      if not (length argv == 3)
      then exits 1 w
      else if not (host.can_read config w)
      then exits 1 w
      else request str_enable (file_contents config) w

  unfoldable pub target_create : List Str → W → Run W
  unfolding request arg_at
  target_create argv w =
      let config = arg_at argv 3 in
      if not (length argv == 4)
      then exits 1 w
      else if not (host.can_read config w)
      then exits 1 w
      else request str_create (file_contents config) w

  unfoldable pub target_list : List Str → W → Run W
  target_list argv w =
      let (ends, status) = host.list_targets w in
      if not (length argv == 3) then exits 1 w else if ends then exits 1 w else returns status w

  -- `args` are the arguments from `argv[3]` on, so that `argc` is three more than they are.
  unfoldable pub target_simple_cmd : List Str → ℕ → W → Run W
  unfolding parse_target_id request
  target_simple_cmd args command w =
      let (id_args, target_id) = parse_target_id host.strtoll args in
      if id_args == 0 || not (3 + id_args == 3 + length args)
      then exits 1 w
      else request command (target_of target_id) w

  -- From the option for the address on, at the place `pos` of `args`. Undefined is the parse of the argument
  -- behind the last, which is a null pointer.
  unfoldable pub send_load : List Str → TargetId → ℕ → W → Run W
  unfolding match_opt request arg_at
  send_load args target_id pos w =
      let address = host.strtoll (arg_at args (pos + 1)) in
      let sent = request str_load (load_of target_id) w in
      if not (ltb pos (length args) && match_opt (arg_at args pos) short_address long_address)
      then sent
      else if leb (length args) (pos + 1)
      then undefined
      else if address.failed || not address.at_end
      then exits 1 w
      else sent

  -- From the option for the image on: the place `pos` of `args` has it or a file. Undefined are the use of the
  -- argument behind the last, and the store through `image` where it does not go unnoticed.
  unfoldable pub load_image : List Str → TargetId → ℕ → W → Run W
  unfolding match_opt send_load arg_at
  load_image args target_id pos w =
      let stored = λ (next : ℕ).
        if host.image_writable w then send_load args target_id next w else undefined in
      if leb (length args) pos
      then undefined
      else if match_opt (arg_at args pos) short_target long_target
      then (if leb (length args) (pos + 1)
          then undefined
          else if not (host.has_memory w)
          then exits 1 w
          else stored (pos + 2))
      else if not (host.can_read (arg_at args pos) w)
      then exits 1 w
      else stored (pos + 1)

  unfoldable pub target_shutdown_load : List Str → ℕ → W → Run W
  unfolding parse_target_id load_image
  target_shutdown_load args mode w =
      let (id_args, target_id) = parse_target_id host.strtoll args in
      let arg_num = 3 + id_args in
      let argc = 3 + length args in
      if id_args == 0
        || mode == str_shutdown && not (arg_num == argc)
        || mode == str_load && arg_num == argc
      then exits 1 w
      else if not (host.has_memory w)
      then exits 1 w
      else load_image args target_id id_args w

  -- The function ends without a value, which its caller uses.
  unfoldable pub target_stats : List Str → W → Run W
  unfolding parse_target_id
  target_stats args w =
      let (id_args, target_id) = parse_target_id host.strtoll args in
      if id_args == 0 || not (3 + id_args == 3 + length args) then exits 1 w else undefined

  -- `args` are the arguments from `argv[3]` on, where there are any.
  unfoldable pub target_management : List Str → List Str → W → Run W
  unfolding strhash target_create target_list target_shutdown_load target_simple_cmd target_stats
      arg_at
  target_management argv args w =
      let op = strhash (arg_at argv 2) in
      if ltb (length argv) 3
      then exits 1 w
      else if op == str_create
      then target_create argv w
      else if op == str_list
      then target_list argv w
      else if op == str_load
      then target_shutdown_load args str_load w
      else if op == str_start
      then target_simple_cmd args str_start w
      else if op == str_shutdown
      then target_shutdown_load args str_shutdown w
      else if op == str_eliminate
      then target_simple_cmd args str_eliminate w
      else if op == str_stats
      then target_stats args w
      else exits 1 w

  -- The command `hardware` leaves `err` unset.
  unfoldable pub main : List Str → W → Run W
  unfolding strhash enable request target_management finish drop3 arg_at
  main argv w =
      let command = strhash (arg_at argv 1) in
      if ltb (length argv) 2
      then exits 1 w
      else if command == str_enable
      then finish (enable argv w)
      else if command == str_disable
      then finish (request str_disable no_argument w)
      else if command == str_target
      then finish (target_management argv (drop3 argv) w)
      else if command == str_version || command == str_v
      then exits 0 w
      else if command == str_help || command == str_h
      then exits 0 w
      else if command == str_hardware
      then undefined
      else exits 1 w

-- `spy_ioctl`, whose calls of ioctl.c all return 0.
unfoldable pub spy_ioctl : ℕ → Result ℕ
spy_ioctl ioctl =
    if ioctl == str_enable
      || ioctl == str_disable
      || ioctl == str_create
      || ioctl == str_load
      || ioctl == str_start
      || ioctl == str_eliminate
    then ok 0
    else err einval
