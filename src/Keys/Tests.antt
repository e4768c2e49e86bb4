-- ===== src/Keys/Tests.antt =====
-- Concrete key identifiers.
use deskflow_harmonyos.Base.{◌≡◌, ◌+◌, not, arith}
use deskflow_harmonyos.Keys.Facts.{is_mapped, shifted_symbols, mem, is_mapped-shifted_symbols}

-- The exclamation mark, 0x21.
is_mapped-shifted_symbols_example : is_mapped (0x20 + 1) ≡ not (mem (0x20 + 1) shifted_symbols)
is_mapped-shifted_symbols_example = is_mapped-shifted_symbols 1 (omega arith)
