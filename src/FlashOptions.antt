-- ===== src/FlashOptions.antt =====
-- The options, the action flags and the texts of the firmware utility, src/flash.c.
pub mod Switches
use libfcd.Base.{
  ℕ, ◌-◌, ◌^◌, bit_and, bit_or, Bool, not, Option, List, [], ◌∷◌, String, ℤ, pos, negsuc, ◌==◌,
  if◌then◌else◌, get_or,
}

-- What `getopt_long` returns, with `optarg`. The last is the question mark.
pub data Opt : Type 0 where
  input : String → Opt
  reset : Option String → Opt
  no_reset erase no_erase write no_write verify no_verify : Opt
  flash : String → Opt
  help version_info unknown : Opt

pub record CommandLine : Type 0 where
  pub options : List Opt
  pub operands : List String

abbrev pub action_reset : ℕ
action_reset = 1

abbrev pub action_erase : ℕ
action_erase = 2

abbrev pub action_write : ℕ
action_write = 4

abbrev pub action_verify : ℕ
action_verify = 8

-- `actions & flag`, `actions |= flag` and `actions &= ~flag` on an `unsigned int`.
abbrev pub has : ℕ → ℕ → Bool
has actions flag = not (bit_and actions flag == 0)

abbrev pub without : ℕ → ℕ → ℕ
without actions flag = bit_and actions (2 ^ 32 - 1 - flag)

-- What an option makes of the action flags.
pub act : Opt → ℕ → ℕ
act (Opt.input name) actions = actions
act (Opt.reset delay) actions = bit_or actions action_reset
act Opt.no_reset actions = without actions action_reset
act Opt.erase actions = bit_or actions action_erase
act Opt.no_erase actions = without actions action_erase
act Opt.write actions = bit_or actions action_write
act Opt.no_write actions = without actions action_write
act Opt.verify actions = bit_or actions action_verify
act Opt.no_verify actions = without actions action_verify
act (Opt.flash name) actions =
    bit_or (bit_or (bit_or action_reset action_erase) action_write) action_verify
act Opt.help actions = actions
act Opt.version_info actions = actions
act Opt.unknown actions = actions

abbrev pub flash_error_message : List String
flash_error_message =
    "unknown error" ∷ "get_address_range failed" ∷ "invalid address range"
    ∷ "invalid firmware image" ∷ "set address failed" ∷ "write failed" ∷ "verify failed" ∷ []

-- `flash_error_message[-result]` for -1 to -6, and otherwise the first.
abbrev pub error_msg : ℤ → String
error_msg (pos n) = get_or flash_error_message 0 ""
error_msg (negsuc n) =
    if n == 0
    then get_or flash_error_message 1 ""
    else if n == 1
    then get_or flash_error_message 2 ""
    else if n == 2
    then get_or flash_error_message 3 ""
    else if n == 3
    then get_or flash_error_message 4 ""
    else if n == 4
    then get_or flash_error_message 5 ""
    else if n == 5
    then get_or flash_error_message 6 ""
    else get_or flash_error_message 0 ""

abbrev pub usage_text : List String
usage_text =
    "Usage: fcd-flash [OPTION]...\n"
    ∷ "Perform firmware operations on all present FUNcube dongles.\n" ∷ "\n"
    ∷ "Mandatory arguments to long options are mandatory for short options too.\n"
    ∷ "      --flash=FILE  perform a full flash upgrade from firmware image\n"
    ∷ "                    (equivalent to `-r -ewv -iFILE`)\n"
    ∷ "  -i, --input=FILE  read image from FILE\n"
    ∷ "  -r, --reset[=MS]  reset to/from bootloader with a MS millisecond\n"
    ∷ "                    delay (default is 2000 ms)\n" ∷ "  -R, --no-reset    do not reset\n"
    ∷ "  -e, --erase       erase flash\n" ∷ "  -E, --no-erase    do not erase flash\n"
    ∷ "  -w, --write       write image to flash\n" ∷ "  -W, --no-write    do not write to flash\n"
    ∷ "  -v, --verify      verify flash against image\n"
    ∷ "  -V, --no-verify   do not verify flash\n"
    ∷ "      --help        display this help and exit\n"
    ∷ "      --version     output version information and exit\n" ∷ "\n" ∷ "Examples:\n"
    ∷ "fcd-flash --flash=export18b.bin\n" ∷ "  Write `export18b.bin` to FUNcube dongle\n"
    ∷ "fcd-flash --flash=export18b.bin --no-erase --no-write\n"
    ∷ "  Reset and verify flash matches `export18b.bin`\n" ∷ "fcd-flash -r1000 -vi export18b.bin\n"
    ∷ "  Reset with 1 second delay and verify flash matches `export18b.bin`\n" ∷ []
