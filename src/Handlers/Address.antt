-- ===== src/Handlers/Address.antt =====
-- The address and size fields that ReadMemoryByAddress and WriteMemoryByAddress parse with the
-- same text, in uds_handlers/src/rdba_handler.c and wrba_handler.c.
pub mod Value
use vdiag_server.Base.{ℕ, zero, suc, ◌+◌, ◌||◌, Bool, ltb, ◌==◌, bit_or, bit_and}
use vdiag_server.Base.Word.{u32, ◌<<<◌, ◌>>>◌}
use vdiag_server.Can.{CanMessage, byte}

-- `uaddrlen` and `uszlen`, the nibbles of the format byte.
pub addr_len : ℕ → ℕ
addr_len usubfnc = bit_and (usubfnc >>> 4) 0x0f

pub size_len : ℕ → ℕ
size_len usubfnc = bit_and usubfnc 0x0f

-- The test that refuses a format byte.
pub bad_format : ℕ → ℕ → Bool
bad_format uaddrlen uszlen = uaddrlen == 0 || (ltb 4 uaddrlen || (uszlen == 0 || ltb 4 uszlen))

-- The loop `acc = (acc << 8) | raw[i]`, with `n` rounds left and `raw[i]` at `pdata[i]`.
pub parse_field : CanMessage → ℕ → ℕ → ℕ → ℕ
parse_field req zero i acc = acc
parse_field req (suc n) i acc = parse_field req n (i + 1) (bit_or (u32 (acc <<< 8)) (byte req i))
