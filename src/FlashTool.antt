-- ===== src/FlashTool.antt =====
-- The firmware utility, src/flash.c. `getopt_long` is the list of its results, each with its
-- argument, and the operands that are left; files and the C library's texts are in `Host`.
pub mod Ending
pub mod Parse
pub mod Callback
pub mod Image
pub mod Actions
pub mod Work
pub mod Main
pub mod Fleet
pub mod Upgrade
use libfcd.Base.{
  ℕ, zero, suc, ◌+◌, ◌-◌, ◌^◌, bit_and, bit_or, Bool, true, false, ◌&&◌, not, Option, none, some,
  List, [], ◌∷◌, String, ◌<>◌, ℤ, pos, negsuc, minus, eq_ℤ, is_nonzero, ◌==◌, if◌then◌else◌, get_or,
  poke,
}
use libfcd.Word.{u32}
use libfcd.Platform.{
  Platform, Errno, Sys, Cmd, exit, pure, ◌>>=◌, ◌>>◌, skip, or_fault, print, Printed, alloc, free,
}
use libfcd.Device.{Fcd, Buf, bytes_of}
use libfcd.Discovery.{
  fcd_open, fcd_close, fcd_for_each, fcd_reset_bootloader, fcd_reset_application,
}
use libfcd.FlashOptions.{
  Opt, CommandLine, action_reset, action_erase, action_write, action_verify, has, without, act,
  flash_error_message, error_msg, usage_text,
}
use libfcd.Bootloader.{fcd_bl_erase_application, fcd_bl_flash_write, fcd_bl_flash_verify}

-- What the utility uses of the C library, and of config.h.
pub record Host (p : Platform) : Type 1 where
  pub File : Type 0
  pub fopen : String → p.World → Option File × p.World
  -- `fseek` to the end and to the start; whether it fails
  pub fseek_end : File → p.World → Bool × p.World
  pub fseek_set : File → p.World → Bool × p.World
  pub ftell : File → p.World → ℤ × p.World
  -- the count of items read, of one item of the size, and the bytes read
  pub fread : File → ℕ → p.World → (ℕ × List ℕ) × p.World
  pub fclose : File → p.World → p.World
  -- none where no digit was found
  pub strtoul : String → Option ℕ
  -- the text for `errno`: what the calls have left in it, or the program
  pub strerror : p.World → Errno → String
  pub package_name : String
  pub package_version : String

-- `flash_context`, and the `filename` that `main` keeps beside it.
pub record Context : Type 0 where
  pub actions : ℕ
  pub delay : ℕ
  pub data_read : Buf
  pub size : ℕ
  pub filename : Option String

-- The argument of `malloc` and `fread`, a `size_t`.
abbrev pub size_of : ℤ → ℕ
size_of (pos n) = n
size_of (negsuc n) = 2 ^ 64 - 1 - n

module _ (p : Platform) where
  abbrev pub exit_with : {A : Type 0} → ℕ → Cmd p A
  exit_with code s = exit code s

  abbrev pub print_all : List String → Cmd p (Unit {0})
  print_all [] = skip
  print_all (line ∷ lines) = do print (Printed.out line); print_all lines

  pub die : {A : Type 0} → Cmd p A
  die = do print (Printed.err "Try `fcd-flash --help' for more information.\n"); exit_with 1

  pub usage : {A : Type 0} → Cmd p A
  usage = do print_all usage_text; exit_with 0

  -- A failure of an action is reported, and its result handed on.
  abbrev pub report : (ℤ → String) → ℤ → Cmd p ℤ
  report message result = do
    if is_nonzero result then print (Printed.err (message result)) else skip
    pure result

  -- One action of `funcube_flash`: if it is chosen and nothing has failed, run it and report a failure.
  abbrev pub action_step : Bool → Cmd p ℤ → (ℤ → String) → ℤ → Cmd p ℤ
  action_step chosen run message result =
      if not (is_nonzero result) && chosen then (run >>= report message) else pure result

  abbrev pub erase_step : String → Context → Fcd → ℤ → Cmd p ℤ
  erase_step path ctx fcd =
      action_step (has ctx.actions action_erase) (fcd_bl_erase_application p (some fcd))
        (λ r. "[" <> path <> "] erase failed\n")

  abbrev pub write_step : String → Context → Fcd → ℤ → Cmd p ℤ
  write_step path ctx fcd =
      action_step (has ctx.actions action_write)
        (fcd_bl_flash_write p (some fcd) (bytes_of ctx.data_read) (u32 ctx.size))
        (λ r. "[" <> path <> "] write: " <> error_msg r <> "\n")

  abbrev pub verify_step : String → Context → Fcd → ℤ → Cmd p ℤ
  verify_step path ctx fcd =
      action_step (has ctx.actions action_verify)
        (fcd_bl_flash_verify p (some fcd) (bytes_of ctx.data_read) (u32 ctx.size))
        (λ r. "[" <> path <> "] verify: " <> error_msg r <> "\n")

  -- The three actions on an open device.
  pub perform : String → Context → Fcd → Cmd p ℤ
  perform path ctx fcd =
      erase_step path ctx fcd (pos 0) >>= write_step path ctx fcd >>= verify_step path ctx fcd

  pub funcube_flash : String → Context → Cmd p (ℤ × Context)
  funcube_flash path ctx = do
    fcd ← fcd_open p (some path)
    result ← elim fcd [ none ↦ pure (minus 1) | some dev ↦ perform path ctx dev ]
    fcd_close p fcd
    pure (result, ctx)

  module _ (host : Host p) where
    abbrev fopen : String → Cmd p (Option host.File)
    fopen name s = let (f, w) = host.fopen name s.world in pure f (record s { world = w })

    abbrev fseek_end : host.File → Cmd p Bool
    fseek_end f s = let (r, w) = host.fseek_end f s.world in pure r (record s { world = w })

    abbrev fseek_set : host.File → Cmd p Bool
    fseek_set f s = let (r, w) = host.fseek_set f s.world in pure r (record s { world = w })

    abbrev ftell : host.File → Cmd p ℤ
    ftell f s = let (r, w) = host.ftell f s.world in pure r (record s { world = w })

    abbrev pub fread : host.File → ℕ → Cmd p (ℕ × List ℕ)
    fread f n s = let (r, w) = host.fread f n s.world in pure r (record s { world = w })

    abbrev pub fclose : host.File → Cmd p (Unit {0})
    fclose f s = pure tt (record s { world = host.fclose f s.world })

    abbrev pub perror : String → Cmd p (Unit {0})
    perror text s = print (Printed.err (text <> ": " <> host.strerror s.world s.errno <> "\n")) s

    pub fsize : host.File → Cmd p ℤ
    fsize f = do
      failed ← fseek_end f
      if failed then pure (minus 1) else (do
        size ← ftell f
        if eq_ℤ size (minus 1)
            then pure (minus 1)
            else (do failed' ← fseek_set f; if failed' then pure (minus 1) else pure size))

    -- The buffer, and its length.
    pub fread_all : host.File → Cmd p (Option (List ℕ × ℕ))
    fread_all f = do
      size ← fsize f
      if eq_ℤ size (minus 1) then pure none else (do
        allocated ← alloc p (size_of size)
        elim allocated [
          | none ↦ pure none
          | some buffer ↦ do
            (count, bytes) ← fread f (size_of size)
            filled ← or_fault (poke buffer 0 bytes)
            if count == 1 then pure (some (filled, size_of size)) else (do free p; pure none)
        ])

    pub version : {A : Type 0} → Cmd p A
    version = do
      print
          (Printed.out ("fcd-flash (" <> host.package_name <> ") " <> host.package_version <> "\n"))
      print_all (
          "Copyright (C) 2012 Justin R. Cutler\n"
          ∷ "This is free software; see the source for copying conditions.  There is NO\n"
          ∷ "warranty; not even for MERCHANTABILITY or FITNESS FOR A PARTICULAR PURPOSE.\n" ∷ [])
      exit_with 0

    -- One turn of the `switch`.
    pub handle : Opt → Context → Cmd p Context
    handle (Opt.input name) ctx = pure (record ctx { filename = some name })
    handle (Opt.reset none) ctx = pure (record ctx { actions = act (Opt.reset none) ctx.actions })
    handle (Opt.reset (some text)) ctx = elim (host.strtoul text) [
      | none ↦ do print (Printed.err "Invalid reset delay\n"); die
      | some ms ↦ pure (record ctx { actions = act (Opt.reset none) ctx.actions; delay = u32 ms })
    ]
    handle (Opt.flash name) ctx =
        pure (record ctx { actions = act (Opt.flash name) ctx.actions; filename = some name })
    handle Opt.help ctx = usage
    handle Opt.version_info ctx = version
    handle Opt.unknown ctx = die
    handle o ctx = pure (record ctx { actions = act o ctx.actions })

    pub parse : List Opt → Context → Cmd p Context
    parse [] ctx = pure ctx
    parse (o ∷ os) ctx = handle o ctx >>= parse os

    -- The checks between the command line and the work.
    pub check : List String → Context → Cmd p (Unit {0})
    check (extra ∷ more) ctx = do print (Printed.err ("extra operand: " <> extra <> "\n")); die
    check [] ctx =
        if ctx.actions == 0
        then (do print (Printed.err "Nothing to do\n"); die)
        else if has ctx.actions (bit_or action_write action_verify)
        then elim ctx.filename [
          | none ↦ do print (Printed.err "No image file specfied\n"); die
          | some name ↦ skip
        ]
        else skip

    abbrev pub take_contents : Context → Option (List ℕ × ℕ) → Cmd p (Option Context)
    take_contents ctx none = do perror "read"; pure none
    take_contents ctx (some (bytes, size)) =
        pure (some (record ctx { data_read = some bytes; size = size }))

    -- Read the image; none where `main` returns EXIT_FAILURE.
    pub read_image : String → Context → Cmd p (Option Context)
    read_image name ctx = do
      opened ← fopen name
      elim opened [
        | none ↦ do perror "open"; pure none
        | some f ↦ do contents ← fread_all f; fclose f; take_contents ctx contents
      ]

    pub prepare_image : Context → Cmd p (Option Context)
    prepare_image ctx =
        if has ctx.actions (bit_or action_write action_verify)
        then (do name ← or_fault ctx.filename; read_image name ctx)
        else pure (some ctx)

    abbrev pub when_resetting : Context → Cmd p (Unit {0}) → Cmd p (Unit {0})
    when_resetting ctx run = if has ctx.actions action_reset then run else skip

    -- After the devices: restart them, and release the image.
    abbrev pub restart : ℤ × Context → Cmd p ℕ
    restart (failed, ctx) = do
      when_resetting ctx (fcd_reset_application p ctx.delay)
      elim ctx.data_read [ none ↦ skip | some bytes ↦ free p ]
      pure (if is_nonzero failed then 1 else 0)

    -- From the bootloader on, with the image read.
    pub flash_all : Context → Cmd p ℕ
    flash_all ctx = do
      when_resetting ctx (fcd_reset_bootloader p ctx.delay)
      outcome ← fcd_for_each p funcube_flash ctx
      restart outcome

    -- The exit status that `main` returns.
    pub main : CommandLine → Cmd p ℕ
    main args = do
      ctx ←
          parse args.options
            (record { actions = 0; delay = 2000; data_read = none; size = 0; filename = none })
      check args.operands ctx
      ready ← prepare_image ctx
      elim ready [ none ↦ pure 1 | some ctx' ↦ flash_all ctx' ]
