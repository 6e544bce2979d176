-- ===== src/Command/Bytes.antt =====
-- The commands for the one-byte values do not collide with one another or with any other command.
use libfcd.Base.{ℕ, ◌+◌, ◌<◌, ◌≡◌, ◌≢◌, List, [], ◌∷◌, arith}
use libfcd.Command.{ValueId, value_id, cmd_set_value_offset, cmd_get_value_offset, fixed_commands}

-- The number is none of the list.
abbrev pub Avoids : ℕ → List ℕ → Type 0
Avoids n [] = Unit {0}
Avoids n (c ∷ cs) = (n ≢ c) × Avoids n cs

-- For identifiers below `FCD_VALUE_UNDEFINED`, the set and the get command fit a byte, differ from
-- each other and from every other command, and tell the identifiers apart.
pub value_commands_distinct :
    (id : ℕ)
    → id < value_id ValueId.undefined
    → (cmd_get_value_offset + id < 256)
      × Avoids (cmd_set_value_offset + id) fixed_commands
      × Avoids (cmd_get_value_offset + id) fixed_commands
      × ((j : ℕ)
          → j < value_id ValueId.undefined
          → cmd_set_value_offset + id ≢ cmd_get_value_offset + j)
      × ((j : ℕ) → cmd_set_value_offset + id ≡ cmd_set_value_offset + j → id ≡ j)
      × ((j : ℕ) → cmd_get_value_offset + id ≡ cmd_get_value_offset + j → id ≡ j)
value_commands_distinct id h = omega arith
