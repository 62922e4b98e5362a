-- ===== src/Can.antt =====
-- uds_server/inc/can.h: the message that the server and the handlers pass around.
pub mod Socket
pub mod Receive
use vdiag_server.Base.{ℕ, ◌≡◌, ◌<◌, List, length, get_or, take, overwrite, All}

abbrev pub max_message_size : ℕ
max_message_size = 4096

pub record CanMessage : Type 0 where
  pub pdata : List ℕ
  pub usz : ℕ

-- `m.pdata[i]`, for an index within the array.
abbrev pub byte : CanMessage → ℕ → ℕ
byte m i = get_or m.pdata i 0

-- The assignments `pdata[0] = b0; pdata[1] = b1; …` and `usz = n`.
abbrev pub put : CanMessage → List ℕ → ℕ → CanMessage
put m bs n = record { pdata = overwrite bs m.pdata; usz = n }

-- The bytes that `can_socket_write` sends of a message.
abbrev pub payload : CanMessage → List ℕ
payload m = take m.usz m.pdata

-- What the C type says of a message: an array of 4096 bytes and a `uint32_t`.
pub record IsMessage (m : CanMessage) : Type 0 where
  pub full : length m.pdata ≡ 4096
  pub bytes : All (λ b. b < 256) m.pdata
  pub word : m.usz < 4294967296
