-- ===== src/Tools/Requests.antt =====
-- Which calls of `ioctl` the tool makes, and what the driver's switch makes of their numbers.
use spy.Base.{
  u32, not, leb, ◌+◌, ℕ, ◌≡◌, refl, Bool, true, false, ◌||◌, List, ◌∷◌, length, ltb, ◌==◌,
  if◌then◌else◌,
}
use spy.Base.Result.{ok, err, einval}
use spy.Tools.{
  TargetId, match_opt, parse_target_id, Str, str_enable, str_disable, str_create, str_start,
  str_eliminate, str_list, str_load, str_shutdown, str_stats, strhash, str_target, str_version,
  str_v, str_help, str_h, str_hardware,
}
use spy.Tools.Program.{
  short_target, long_target, load_of, send_load, load_image, Argument, no_argument, Run, exits,
  returns, undefined, Calls, request, enable, target_create, target_list, target_simple_cmd,
  target_shutdown_load, target_stats, target_management, finish, main, spy_ioctl, arg_at, drop3,
}

-- A number that the switch of the driver names, and whose low 32 bits it does not name.
pub record IsCut (r : ℕ) : Type 0 where
  pub named : spy_ioctl r ≡ ok 0
  pub refused : spy_ioctl (u32 r) ≡ err einval

-- What a run adds to the list of the calls of `ioctl`: nothing, or one call.
pub data Sends (log : List ℕ) : Run (List ℕ) → Type 0 where
  exits_silent : (status : ℕ) → Sends log (exits status log)
  returns_silent : (status : ℕ) → Sends log (returns status log)
  exits_sent : (status r : ℕ) → IsCut r → Sends log (exits status (r ∷ log))
  returns_sent : (status r : ℕ) → IsCut r → Sends log (returns status (r ∷ log))
  is_undefined : Sends log undefined

if-Sends :
    {log : List ℕ} (b : Bool) {x y : Run (List ℕ)}
    → Sends log x
    → Sends log y
    → Sends log (if b then x else y)
if-Sends true k l = k
if-Sends false k l = l

module _ (host : Calls (List ℕ))
    (logs : (r : ℕ) (a : Argument) (log : List ℕ) → (host.ioctl r a log).1 ≡ r ∷ log)
    (log : List ℕ) where
  request-Sends : (r : ℕ) (a : Argument) → IsCut r → Sends log (request host r a log)
  unfolding request
  request-Sends r a accepted =
      if-Sends (host.can_open log)
        (rw (logs r a log) (returns_sent (host.ioctl r a log).0 r accepted)) (exits_silent 1)

  enable-Sends : (argv : List Str) → Sends log (enable host argv log)
  unfolding enable spy_ioctl
  enable-Sends argv = if-Sends _ (exits_silent 1) (
      if-Sends _ (exits_silent 1)
        (request-Sends str_enable _ (record { named = refl; refused = refl })))

  create-Sends : (argv : List Str) → Sends log (target_create host argv log)
  unfolding target_create spy_ioctl
  create-Sends argv = if-Sends _ (exits_silent 1) (
      if-Sends _ (exits_silent 1)
        (request-Sends str_create _ (record { named = refl; refused = refl })))

  list-Sends : (argv : List Str) → Sends log (target_list host argv log)
  unfolding target_list
  list-Sends argv = if-Sends _ (exits_silent 1) (if-Sends _ (exits_silent 1) (returns_silent _))

  simple-Sends : (args : List Str) (r : ℕ) → IsCut r → Sends log (target_simple_cmd host args r log)
  unfolding target_simple_cmd
  simple-Sends args r accepted = if-Sends _ (exits_silent 1) (request-Sends r _ accepted)

  send_load-Sends :
      (args : List Str) (target_id : TargetId) (pos : ℕ)
      → Sends log (send_load host args target_id pos log)
  unfolding send_load spy_ioctl
  send_load-Sends args target_id pos =
      let sent =
        request-Sends str_load (load_of target_id) (record { named = refl; refused = refl }) in
      if-Sends _ sent (if-Sends _ is_undefined (if-Sends _ (exits_silent 1) sent))

  load_image-Sends :
      (args : List Str) (target_id : TargetId) (pos : ℕ)
      → Sends log (load_image host args target_id pos log)
  unfolding load_image
  load_image-Sends args target_id pos =
      let stored : (next : ℕ)
          → Sends log (
              if host.image_writable log
              then send_load host args target_id next log
              else undefined) =
        λ next.
          if-Sends (host.image_writable log) (send_load-Sends args target_id next) is_undefined in
      if-Sends (leb (length args) pos) is_undefined (
        if-Sends (match_opt (arg_at args pos) short_target long_target)
          (if-Sends (leb (length args) (pos + 1)) is_undefined
            (if-Sends (not (host.has_memory log)) (exits_silent 1) (stored (pos + 2))))
          (if-Sends (not (host.can_read (arg_at args pos) log)) (exits_silent 1)
            (stored (pos + 1))))

  load-Sends : (args : List Str) (mode : ℕ) → Sends log (target_shutdown_load host args mode log)
  unfolding target_shutdown_load
  load-Sends args mode =
      let (used, target_id) = parse_target_id host.strtoll args in
      if-Sends _ (exits_silent 1)
        (if-Sends _ (exits_silent 1) (load_image-Sends args target_id used))

  stats-Sends : (args : List Str) → Sends log (target_stats host args log)
  unfolding target_stats
  stats-Sends args = if-Sends _ (exits_silent 1) is_undefined

  management-Sends : (argv args : List Str) → Sends log (target_management host argv args log)
  unfolding target_management spy_ioctl
  management-Sends argv args =
      let op = strhash (arg_at argv 2) in
      if-Sends (ltb (length argv) 3) (exits_silent 1) (
        if-Sends (op == str_create) (create-Sends argv) (
          if-Sends (op == str_list) (list-Sends argv) (
            if-Sends (op == str_load) (load-Sends args str_load) (
              if-Sends (op == str_start)
                (simple-Sends args str_start (record { named = refl; refused = refl }))
                (if-Sends (op == str_shutdown) (load-Sends args str_shutdown) (
                  if-Sends (op == str_eliminate)
                    (simple-Sends args str_eliminate (record { named = refl; refused = refl }))
                    (if-Sends (op == str_stats) (stats-Sends args) (exits_silent 1))))))))

  finish-Sends : {o : Run (List ℕ)} → Sends log o → Sends log (finish o)
  unfolding finish
  finish-Sends (exits_silent status) = exits_silent status
  finish-Sends (returns_silent status) = exits_silent _
  finish-Sends (exits_sent status r e) = exits_sent status r e
  finish-Sends (returns_sent status r e) = exits_sent _ r e
  finish-Sends is_undefined = is_undefined

  -- Whatever the arguments are, a run of the tool calls `ioctl` at most once, or its behaviour is
  -- undefined. The number of the call is one that the switch of the driver names. Its low 32 bits,
  -- which are all that Linux passes to a driver, are none that it names: it refuses them with
  -- EINVAL. The world here is the list of the calls, to which each call of `ioctl` adds its number.
  pub main-Sends : (argv : List Str) → Sends log (main host argv log)
  unfolding main spy_ioctl
  main-Sends argv =
      let command = strhash (arg_at argv 1) in
      if-Sends (ltb (length argv) 2) (exits_silent 1) (
        if-Sends (command == str_enable) (finish-Sends (enable-Sends argv)) (
          if-Sends (command == str_disable)
            (finish-Sends
              (request-Sends str_disable no_argument (record { named = refl; refused = refl })))
            (if-Sends (command == str_target) (finish-Sends (management-Sends argv (drop3 argv))) (
              if-Sends (command == str_version || command == str_v) (exits_silent 0) (
                if-Sends (command == str_help || command == str_h) (exits_silent 0)
                  (if-Sends (command == str_hardware) is_undefined (exits_silent 1)))))))
