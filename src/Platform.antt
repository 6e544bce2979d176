-- ===== src/Platform.antt =====
-- What the library runs on: hidapi, the C library and the operating system, as parameters, and
-- the state and control flow of C code over them.
pub mod Returns
use libfcd.Base.{
  ℕ, zero, suc, ◌+◌, ◌-◌, Bool, true, false, Option, none, some, List, [], ◌∷◌, ◌++◌, String, ℤ,
  if◌then◌else◌,
}
use libfcd.Word.{Endian}

-- `struct hid_device_info`, less the fields that the code does not read; a list is its `next` chain.
pub record DeviceInfo : Type 0 where
  pub path : Option String

-- What the build found for short sleeps: HAVE_USLEEP, HAVE_NAP or neither.
pub data Sleeper : Type 0 where
  by_usleep by_nap unavailable : Sleeper

-- The calls out of the program. Each returns, may change the world, and has results that depend on
-- the world. A call that the operating system does not return from is not modelled, and neither is
-- what a call leaves in `errno`.
pub record Platform : Type 1 where
  pub World : Type 0
  pub Handle : Type 0
  pub endian : Endian
  pub sleeper : Sleeper
  -- the bytes of memory that nothing has been written to
  pub junk : ℕ → ℕ
  -- whether an allocation of a size succeeds, and whether one of a copy of a text does
  pub malloc : ℕ → World → Bool × World
  pub strdup : String → World → Bool × World
  pub hid_enumerate : ℕ → ℕ → World → List DeviceInfo × World
  pub hid_free_enumeration : List DeviceInfo → World → World
  pub hid_open_path : Option String → World → Option Handle × World
  -- the bytes from the buffer, in the length that is passed
  pub hid_write : Handle → List ℕ → World → ℤ × World
  -- the result, and the bytes that are put at the start of the buffer
  pub hid_read : Handle → ℕ → World → (ℤ × List ℕ) × World
  pub hid_close : Option Handle → World → World
  pub usleep : ℕ → World → World
  pub nap : ℕ → World → World

-- `errno`, as far as the program assigns it.
pub data Errno : Type 0 where
  efault enodev eio eoverflow einval : Errno
  other : ℕ → Errno

-- A text, or bytes, written to `stdout`, or a text written to `stderr`.
pub data Printed : Type 0 where
  out_bytes : List ℕ → Printed
  out : String → Printed
  err : String → Printed

-- `errno` is what the program has assigned to it last; `handles` and `blocks` count the open hidapi
-- handles and the live allocations.
pub record Sys (p : Platform) : Type 0 where
  pub world : p.World
  pub errno : Errno
  pub handles : ℕ
  pub blocks : ℕ
  pub printed : List Printed

-- `fault` is an access outside an object, which C leaves undefined; `exit` is the call of `exit`.
pub data Run (p : Platform) (A : Type 0) : Type 0 where
  ok : A → Sys p → Run p A
  exit : ℕ → Sys p → Run p A
  fault : Run p A
  out_of_fuel : Run p A

abbrev pub Cmd : Platform → Type 0 → Type 0
Cmd p A = Sys p → Run p A

abbrev pub and_then : {p : Platform} {A B : Type 0} → Run p A → (A → Cmd p B) → Run p B
and_then (ok a s) k = k a s
and_then (exit c s) k = exit c s
and_then fault k = fault
and_then out_of_fuel k = out_of_fuel

abbrev pub pure : {p : Platform} {A : Type 0} → A → Cmd p A
pure a s = ok a s

infixl 5 ◌>>=◌ ◌>>◌
abbrev pub ◌>>=◌ : {p : Platform} {A B : Type 0} → Cmd p A → (A → Cmd p B) → Cmd p B
◌>>=◌ m k s = and_then (m s) k

abbrev pub ◌>>◌ : {p : Platform} {A B : Type 0} → Cmd p A → Cmd p B → Cmd p B
m >> k = m >>= λ _. k

-- An access to memory, which may be out of bounds.
abbrev pub or_fault : {p : Platform} {A : Type 0} → Option A → Cmd p A
or_fault none s = fault
or_fault (some a) s = ok a s

abbrev pub skip : {p : Platform} → Cmd p (Unit {0})
skip s = ok tt s

abbrev pub set_errno : {p : Platform} → Errno → Cmd p (Unit {0})
set_errno e s = ok tt (record s { errno = e })

abbrev pub print : {p : Platform} → Printed → Cmd p (Unit {0})
print t s = ok tt (record s { printed = s.printed ++ t ∷ [] })

module _ (p : Platform) where
  -- An object of `n` bytes on the stack, before anything is stored in it.
  abbrev pub uninit : ℕ → List ℕ
  uninit zero = []
  uninit (suc n) = p.junk n ∷ uninit n

  -- The calls, with the count of what they hand out and take back.
  abbrev count_handle : Option p.Handle → ℕ → ℕ
  count_handle none n = n
  count_handle (some h) n = n + 1

  abbrev uncount_handle : Option p.Handle → ℕ → ℕ
  uncount_handle none n = n
  uncount_handle (some h) n = n - 1

  abbrev pub hid_open_path : Option String → Cmd p (Option p.Handle)
  hid_open_path path s =
      let (h, w) = p.hid_open_path path s.world in
      ok h (record s { world = w; handles = count_handle h s.handles })

  abbrev pub hid_write : p.Handle → List ℕ → Cmd p ℤ
  hid_write h bytes s = let (n, w) = p.hid_write h bytes s.world in ok n (record s { world = w })

  abbrev pub hid_read : p.Handle → ℕ → Cmd p (ℤ × List ℕ)
  hid_read h n s = let (r, w) = p.hid_read h n s.world in ok r (record s { world = w })

  abbrev pub hid_close : Option p.Handle → Cmd p (Unit {0})
  hid_close h s =
      ok tt (record s { world = p.hid_close h s.world; handles = uncount_handle h s.handles })

  abbrev pub hid_enumerate : ℕ → ℕ → Cmd p (List DeviceInfo)
  hid_enumerate vid pid s =
      let (devs, w) = p.hid_enumerate vid pid s.world in ok devs (record s { world = w })

  abbrev pub hid_free_enumeration : List DeviceInfo → Cmd p (Unit {0})
  hid_free_enumeration devs s = ok tt (record s { world = p.hid_free_enumeration devs s.world })

  abbrev count_block : Bool → ℕ → ℕ
  count_block done n = if done then n + 1 else n

  -- Whether the block was allocated.
  abbrev pub malloc : ℕ → Cmd p Bool
  malloc size s =
      let (done, w) = p.malloc size s.world in
      ok done (record s { world = w; blocks = count_block done s.blocks })

  -- The object that was allocated, before anything is stored in it, or NULL.
  abbrev pub alloc : ℕ → Cmd p (Option (List ℕ))
  alloc size = malloc size >>= λ done. pure (if done then some (uninit size) else none)

  abbrev pub free : Cmd p (Unit {0})
  free s = ok tt (record s { blocks = s.blocks - 1 })

  -- A copy of the text in a new block, or NULL.
  abbrev pub strdup : String → Cmd p (Option String)
  strdup text s =
      let (done, w) = p.strdup text s.world in
      ok (if done then some text else none)
        (record s { world = w; blocks = count_block done s.blocks })

  abbrev pub usleep : ℕ → Cmd p (Unit {0})
  usleep us s = ok tt (record s { world = p.usleep us s.world })

  abbrev pub nap : ℕ → Cmd p (Unit {0})
  nap ms s = ok tt (record s { world = p.nap ms s.world })
