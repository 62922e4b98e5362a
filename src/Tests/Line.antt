-- ===== src/Tests/Line.antt =====
-- A line on which each round finds what was laid down, as an instance of the socket calls, and the
-- client of `Tests.Client` on it.
use vdiag_server.Base.{
  Bool, false, if◌then◌else◌, ℕ, ◌≡◌, refl, true, inl, List, [], ◌∷◌, ◌++◌, length, replicate,
  arith,
}
use vdiag_server.Base.Exec.{done}
use vdiag_server.Base.Word.{minus_one}
use vdiag_server.Can.Socket.{Net}
use vdiag_server.Handlers.Address.Value.{field_value}
use vdiag_server.Memory.{check_memrange}
use vdiag_server.Memory.Result.{check_memrange_iff}
use vdiag_server.Server.{World, rounds}
use vdiag_server.Uds.Interface.{Locals}
use vdiag_server.Ecu.Requests.{HasRegion}
use vdiag_server.Ecu.Wire.{
  message_of, Arrival, timeout, interrupted, message, Line, Delivers, Arrive,
}
use vdiag_server.Ecu.Round.{Reached}
use vdiag_server.Ecu.Rounds.{rounds-answer_all}
use vdiag_server.Handlers.Std.{std_handlers}
use vdiag_server.Tests.Client.{
  client_machine, commands, ecu, ecu_after, responses, promised, machine-Stands,
}
use vdiag_server.Tests.Disk.{Disk, disk_os, disk_view, disk-IsRegular}
use vdiag_server.Tests.Requests.{config, config-HasEntries, locals, still}
use vdiag_server.Tests.Wire.{open_socket}

pub record Wire : Type 0 where
  pub due : List Arrival
  pub sent : List (List ℕ)
  pub is_clear : Bool

abbrev poll : Wire → ℕ × Wire
poll s = elim (s.due) [
  | [] ↦ (0, s)
  | timeout ∷ rest ↦ (0, record { due = rest; sent = s.sent; is_clear = s.is_clear })
  | interrupted ∷ rest ↦ (minus_one, record { due = rest; sent = s.sent; is_clear = s.is_clear })
  | message m clear ∷ rest ↦ (1, s)
]

abbrev take_message : Wire → ℕ × List ℕ × Wire
take_message s = elim (s.due) [
  | message m clear ∷ rest ↦ (length m, m, record { due = rest; sent = s.sent; is_clear = clear })
  | _ ↦ (0, [], s)
]

abbrev pub wire_net : Net
wire_net = record {
  State = Wire;
  can_isotp = 6;
  af_can = 29;
  o_nonblock = 2048;
  fd_setsize = 1024;
  calloc = λ s. (true, s);
  socket = λ s. (5, s);
  if_nametoindex = λ name s. (4, s);
  get_flags = λ fd s. (2, s);
  set_flags = λ fd flags s. (0, s);
  bind = λ fd addr s. (0, s);
  select_read = λ fd sec usec s. poll s;
  select_write = λ fd sec usec s. (if s.is_clear then 1 else 0, s);
  read = λ fd n s. take_message s;
  write = λ fd bs s.
      (length bs, record { due = s.due; sent = s.sent ++ (bs ∷ []); is_clear = s.is_clear });
  close = λ fd s. s;
}

abbrev pub wire_line : Line wire_net
wire_line = record { due = λ s. s.due; sent = λ s. s.sent; is_clear = λ s. s.is_clear }

pub wire-Delivers : Delivers wire_net wire_line 5
wire-Delivers = record {
  watched = omega arith;
  select_timeout = λ sec usec s rest next.
      (ground (arith, next), record { due = ground (arith, next); sent = ground (arith, next) });
  select_interrupted = λ sec usec s rest next.
      (ground (arith, next), record { due = ground (arith, next); sent = ground (arith, next) });
  select_message = λ sec usec s m clear rest next.
      (ground (arith, next), record { due = ground (arith, next); sent = ground (arith, next) });
  read_ok = λ n s m clear rest next short. (
    ground (arith, next),
    ground (arith, next),
    ground (arith, next),
    record { due = ground (arith, next); sent = ground (arith, next) },
  );
  select_write_timeout =
      λ sec usec s blocked. (ground (arith, blocked), record { due = refl; sent = refl });
  select_write_ok = λ sec usec s clear. (ground (arith, clear), record { due = refl; sent = refl });
  write_ok = λ bs s. (refl, refl, refl);
}

-- Eight messages in ten rounds.
abbrev arrivals : List Arrival
arrivals =
    timeout
    ∷ message (0x10 ∷ 0x03 ∷ []) true
    ∷ message (0x3d ∷ 0x11 ∷ 4 ∷ 2 ∷ 0xaa ∷ 0xbb ∷ []) false
    ∷ interrupted
    ∷ message (0x23 ∷ 0x11 ∷ 4 ∷ 2 ∷ []) true
    ∷ message (0x27 ∷ 0x01 ∷ []) true
    ∷ message (0x22 ∷ 0xf1 ∷ 0x00 ∷ []) true
    ∷ message (0x2e ∷ 0xf1 ∷ 0x00 ∷ 1 ∷ 2 ∷ 3 ∷ 4 ∷ []) true
    ∷ message (0x3e ∷ 0x07 ∷ []) true
    ∷ message (0x22 ∷ 0xf1 ∷ []) true
    ∷ []

abbrev round_locals : List Locals
round_locals = replicate 10 locals

pub two_at_four : (sid : ℕ) (rest : List ℕ) → HasRegion (message_of (sid ∷ 0x11 ∷ 4 ∷ 2 ∷ rest)) 4 2
unfolding field_value replicate
two_at_four sid rest = record {
  addr_some = omega arith;
  addr_fits = omega arith;
  size_some = omega arith;
  size_fits = omega arith;
  complete = omega arith;
  at_addr = refl;
  of_size = refl;
}

-- A range of no bytes at 0 lies in the memory.
initial_range : check_memrange 0 16 locals.wrbi_param.uaddr locals.wrbi_param.usz ≡ true
initial_range = (check_memrange_iff 0 16 0 0 (omega arith)).1 (omega arith, omega arith)

arrivals-Arrive : Arrive config round_locals arrivals commands
unfolding field_value replicate
arrivals-Arrive = (
  record {
    some_byte = omega arith;
    short = omega arith;
    whole = ground arith;
    asks = (refl, refl, refl);
  },
  tt,
  (
    record {
      some_byte = omega arith;
      short = omega arith;
      whole = ground arith;
      asks = (refl, two_at_four 0x3d (0xaa ∷ 0xbb ∷ []), omega arith, omega arith, refl);
    },
    tt,
    (
      record {
        some_byte = omega arith;
        short = omega arith;
        whole = ground arith;
        asks = (refl, two_at_four 0x23 []);
      },
      tt,
      (
        record {
          some_byte = omega arith;
          short = omega arith;
          whole = ground arith;
          asks = (refl, omega arith);
        },
        tt,
        (
          record {
            some_byte = omega arith;
            short = omega arith;
            whole = ground arith;
            asks = (refl, omega arith, refl, refl);
          },
          tt,
          (
            record {
              some_byte = omega arith;
              short = omega arith;
              whole = ground arith;
              asks = (refl, refl, refl, refl, refl);
            },
            initial_range,
            (
              record {
                some_byte = omega arith;
                short = omega arith;
                whole = ground arith;
                asks = (refl, refl, refl);
              },
              tt,
              (
                record {
                  some_byte = omega arith;
                  short = omega arith;
                  whole = ground arith;
                  asks = (refl, omega arith, inl (inl refl, omega arith));
                },
                tt,
                tt,
              ),
            ),
          ),
        ),
      ),
    ),
  ),
)

abbrev pub start : World Wire Disk
start = record {
  wire = record { due = arrivals; sent = []; is_clear = true };
  machine = client_machine;
}

-- The response to the write by address is lost.
abbrev all_heard : List (List ℕ)
all_heard =
    (0x50 ∷ 0x03 ∷ 0x00 ∷ 0x32 ∷ 0x13 ∷ 0x88 ∷ [])
    ∷ (0x63 ∷ 0xaa ∷ 0xbb ∷ [])
    ∷ (0x62 ∷ 0xf1 ∷ 0x00 ∷ 0xaa ∷ 0xbb ∷ 6 ∷ 7 ∷ [])
    ∷ (0x6e ∷ 0xf1 ∷ 0x00 ∷ [])
    ∷ (0x7f ∷ 0x3e ∷ 0x12 ∷ [])
    ∷ (0x7f ∷ 0x22 ∷ 0x13 ∷ [])
    ∷ []

rounds-answer_all_example :
    (w : World Wire Disk) × (rounds wire_net disk_os
        (std_handlers disk_os still)
        open_socket
        round_locals
        start
      ≡ done (tt, w))
    × Reached wire_net wire_line disk_os disk_view config start ecu_after [] all_heard w
unfolding replicate
rounds-answer_all_example =
    rounds-answer_all wire_net wire_line disk_os disk_view disk-IsRegular still (λ p. refl) config
      open_socket wire-Delivers refl (omega arith) (config-HasEntries 16) round_locals arrivals []
      commands start ecu ecu_after responses machine-Stands refl arrivals-Arrive promised
