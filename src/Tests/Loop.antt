-- ===== src/Tests/Loop.antt =====
-- Rounds of the server's loop, and the socket.
use vdiag_server.Base.{
  ℕ, ◌<◌, ◌≤◌, ◌≡◌, ◌≢◌, ◌⊎◌, refl, false, some, List, [], ◌∷◌, length, overwrite, replicate, arith,
}
use vdiag_server.Base.Word.{u32, is_negative, minus_one}
use vdiag_server.Base.Exec.{done, undefined}
use vdiag_server.Can.{CanMessage, IsMessage, payload}
use vdiag_server.Can.Socket.{
  CanError, SocketState, is_closed, can_socket_open, can_socket_read, can_socket_write,
}
use vdiag_server.Can.Receive.{
  can_socket_read-IsMessage, can_socket_read_failed, can_socket_write_sends, can_socket_open_lem,
}
use vdiag_server.Server.{World, zero_message}
use vdiag_server.Tests.Disk.{Disk}
use vdiag_server.Tests.Wire.{Bus, bus, broken_bus, bus-ReadsBytes, broken-ReadsBytes, open_socket}
use vdiag_server.Tests.Requests.{machine, message}

-- A world in which a message waits, and the message as it is received.
abbrev world_with : List ℕ → World Bus Disk
world_with waiting = record {
  wire = record { waiting = waiting; sent_bytes = [] };
  machine = machine 1;
}

abbrev received_message : List ℕ → CanMessage
received_message bs = record { pdata = overwrite bs (replicate 4096 0); usz = length bs }

abbrev quiet_wire : Bus
quiet_wire = record { waiting = []; sent_bytes = [] }

read_quiet :
    can_socket_read bus (some open_socket) (some zero_message) (world_with (0x3e ∷ 0x80 ∷ [])).wire
    ≡ done ((CanError.can_no_error, some (received_message (0x3e ∷ 0x80 ∷ []))), quiet_wire)
unfolding can_socket_read
read_quiet = refl

can_socket_read-IsMessage_example :
    IsMessage (received_message (0x3e ∷ 0x80 ∷ []))
    × (0 < (received_message (0x3e ∷ 0x80 ∷ [])).usz)
    × ((received_message (0x3e ∷ 0x80 ∷ [])).usz ≤ 4096)
can_socket_read-IsMessage_example =
    can_socket_read-IsMessage bus bus-ReadsBytes open_socket zero_message
      (received_message (0x3e ∷ 0x80 ∷ [])) (world_with (0x3e ∷ 0x80 ∷ [])).wire quiet_wire
      read_quiet

can_socket_read_failed_example :
    can_socket_read broken_bus (some open_socket) (some zero_message) quiet_wire ≡ undefined
can_socket_read_failed_example =
    can_socket_read_failed broken_bus broken-ReadsBytes open_socket zero_message 1 quiet_wire
      quiet_wire refl refl (omega arith) refl refl

-- The two bytes 7E 00 in a whole array.
abbrev reply : CanMessage
reply = message (0x7e ∷ 0x00 ∷ []) 4094

write_reply :
    (t : Bus) × (can_socket_write bus (some open_socket) (some reply) quiet_wire
      ≡ done (CanError.can_no_error, t))
unfolding can_socket_write
write_reply = (_, refl)

can_socket_write_sends_example :
    ((reply.usz ≡ 0) × (write_reply.0 ≡ quiet_wire))
    ⊎ ((is_closed open_socket.sockfd ≡ false)
        × ((is_negative 1 ≡ false)
            × (◌≢◌ {A = ℕ} 1 0)
            × (u32 (length (payload reply)) ≡ reply.usz)
            × (write_reply.0 ≡ record { waiting = []; sent_bytes = payload reply })))
can_socket_write_sends_example =
    can_socket_write_sends bus open_socket reply quiet_wire write_reply.0 write_reply.1

-- The socket that opening gives.
abbrev opened : SocketState
opened = record {
  sockfd = 5;
  proto = 6;
  uioto = 0;
  addr = record { can_family = 29; can_ifindex = 4; tx_id = 0x7e8; rx_id = 0x7e0 };
}

can_socket_open_lem_example :
    ((◌≢◌ {A = ℕ} 2 minus_one)
      × (◌≢◌ {A = ℕ} 0 minus_one)
      × (◌≡◌ {A = ℕ} 0 0)
      × (can_socket_open bus [] 0x7e8 0x7e0 CanError.can_no_error quiet_wire
          ≡ done ((some opened, CanError.can_no_error), quiet_wire)))
    ⊎ (((◌≡◌ {A = ℕ} 2 minus_one) ⊎ ((◌≡◌ {A = ℕ} 0 minus_one) ⊎ (◌≢◌ {A = ℕ} 0 0)))
        × (can_socket_open bus [] 0x7e8 0x7e0 CanError.can_no_error quiet_wire ≡ undefined))
can_socket_open_lem_example =
    can_socket_open_lem bus [] 0x7e8 0x7e0 CanError.can_no_error quiet_wire refl refl
