-- ===== src/Tests/Wire.antt =====
-- A network with one message to deliver, as an instance of the socket calls.
use vdiag_server.Base.{
  ℕ, ◌<◌, ◌≡◌, ◌%◌, inl, inr, refl, true, List, [], ◌∷◌, length, take, All, arith, length-take,
}
use vdiag_server.Base.Word.{minus_one64}
use vdiag_server.Can.Socket.{Net, SocketState}
use vdiag_server.Can.Receive.{ReadsBytes}

-- What is waiting, and what was sent.
pub record Bus : Type 0 where
  pub waiting : List ℕ
  pub sent_bytes : List ℕ

abbrev pub bytes_of : List ℕ → List ℕ
bytes_of [] = []
bytes_of (b ∷ bs) = b % 256 ∷ bytes_of bs

length-bytes_of : (bs : List ℕ) → length (bytes_of bs) ≡ length bs
length-bytes_of [] = refl
length-bytes_of (b ∷ bs) = omega (arith, length-bytes_of bs)

pub bytes_of-All : (bs : List ℕ) → All (λ b. b < 256) (bytes_of bs)
bytes_of-All [] = tt
bytes_of-All (b ∷ bs) = (omega arith, bytes_of-All bs)

-- `select` reports the descriptor ready, whatever waits.
abbrev pub bus_with : (List ℕ → ℕ × List ℕ) → Net
bus_with deliver = record {
  State = Bus;
  can_isotp = 6;
  af_can = 29;
  o_nonblock = 2048;
  fd_setsize = 1024;
  calloc = λ s. (true, s);
  socket = λ s. (5, s);
  if_nametoindex = λ name s. (4, s);
  get_flags = λ fd s. (2, s);
  set_flags = λ fd flags s. (0, s);
  bind = λ fd addr s. (0, s);
  select_read = λ fd sec usec s. (1, s);
  select_write = λ fd sec usec s. (1, s);
  read = λ fd n s.
      let (r, out) = deliver (take n s.waiting) in
      (r, out, record { waiting = []; sent_bytes = s.sent_bytes });
  write = λ fd bs s. (length bs, record { waiting = s.waiting; sent_bytes = bs });
  close = λ fd s. s;
}

-- It delivers what waits, or its reads fail.
abbrev pub bus : Net
bus = bus_with (λ out. (length (bytes_of out), bytes_of out))

abbrev pub broken_bus : Net
broken_bus = bus_with (λ out. (minus_one64, []))

pub bus-ReadsBytes : ReadsBytes bus
bus-ReadsBytes = record {
  result = λ fd n s.
      inr (refl, omega (arith, length-bytes_of (take n s.waiting), length-take n s.waiting));
  bytes = λ fd n s. bytes_of-All (take n s.waiting);
}

pub broken-ReadsBytes : ReadsBytes broken_bus
broken-ReadsBytes = record { result = λ fd n s. inl (refl, refl); bytes = λ fd n s. tt }

abbrev pub open_socket : SocketState
open_socket = record {
  sockfd = 5;
  proto = 6;
  uioto = 10;
  addr = record { can_family = 29; can_ifindex = 4; tx_id = 0x7e8; rx_id = 0x7e0 };
}
