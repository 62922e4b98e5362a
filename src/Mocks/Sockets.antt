-- ===== src/Mocks/Sockets.antt =====
-- src/mocks: the stand-ins for the calls on sockets, as the network that the code then runs on.
use vdiag_server.Base.{ℕ, ◌≡◌, List, arith}
use vdiag_server.Base.Word.{minus_one}
use vdiag_server.Base.Exec.{done}
use vdiag_server.Can.Socket.{Net, SockaddrCan, CanError, set_nonblocking}
use vdiag_server.Mocks.{Mocked, passed_on, wrap_read, wrap_write, wrap_close, wrap_calloc}

pub data SocketStatus : Type 0 where
  socket_no_error socket_fail socket_spec : SocketStatus

pub data BindStatus : Type 0 where
  bind_no_error bind_fail bind_real : BindStatus

pub data FcntlStatus : Type 0 where
  fcntl_no_error fcntl_fail : FcntlStatus

pub data IfNametoindexStatus : Type 0 where
  if_nametoindex_no_error if_nametoindex_fail if_nametoindex_spec : IfNametoindexStatus

-- The global variables of these stand-ins, which only the tests assign.
pub record NetMocks : Type 0 where
  pub socket_status : SocketStatus
  pub mock_sockfd : ℕ
  pub bind_status : BindStatus
  pub fcntl_status : FcntlStatus
  pub if_nametoindex_status : IfNametoindexStatus
  pub mock_ifindex : ℕ

-- `left_over` is what the real `fcntl` finds in place of its third argument, which the stand-in does
-- not pass on.
module _ (net : Net) (mocks : NetMocks) (left_over : ℕ) where
  abbrev wrap_socket : Mocked net.State → ℕ × Mocked net.State
  wrap_socket s = elim mocks.socket_status [
    | socket_no_error ↦ passed_on net.socket s
    | socket_fail ↦ (minus_one, s)
    | socket_spec ↦ (mocks.mock_sockfd, s)
  ]

  abbrev wrap_bind : ℕ → SockaddrCan → Mocked net.State → ℕ × Mocked net.State
  wrap_bind fd addr s = elim mocks.bind_status [
    | bind_no_error ↦ (0, s)
    | bind_fail ↦ (minus_one, s)
    | bind_real ↦ passed_on (net.bind fd addr) s
  ]

  -- `fcntl` with F_GETFL, and with F_SETFL.
  abbrev wrap_get_flags : ℕ → Mocked net.State → ℕ × Mocked net.State
  wrap_get_flags fd s = elim mocks.fcntl_status [
    | fcntl_no_error ↦ passed_on (net.get_flags fd) s
    | fcntl_fail ↦ (0, s)
  ]

  abbrev wrap_set_flags : ℕ → ℕ → Mocked net.State → ℕ × Mocked net.State
  wrap_set_flags fd flags s = elim mocks.fcntl_status [
    | fcntl_no_error ↦ passed_on (net.set_flags fd left_over) s
    | fcntl_fail ↦ (0, s)
  ]

  abbrev wrap_if_nametoindex : List ℕ → Mocked net.State → ℕ × Mocked net.State
  wrap_if_nametoindex name s = elim mocks.if_nametoindex_status [
    | if_nametoindex_no_error ↦ passed_on (net.if_nametoindex name) s
    | if_nametoindex_fail ↦ (minus_one, s)
    | if_nametoindex_spec ↦ (mocks.mock_ifindex, s)
  ]

  -- The network that the tests run on. `select` has no stand-in.
  abbrev pub mocked_net : Net
  mocked_net = record {
    State = Mocked net.State;
    can_isotp = net.can_isotp;
    af_can = net.af_can;
    o_nonblock = net.o_nonblock;
    fd_setsize = net.fd_setsize;
    calloc = wrap_calloc net.calloc;
    socket = wrap_socket;
    if_nametoindex = wrap_if_nametoindex;
    get_flags = wrap_get_flags;
    set_flags = wrap_set_flags;
    bind = wrap_bind;
    select_read = λ fd sec usec. passed_on (net.select_read fd sec usec);
    select_write = λ fd sec usec. passed_on (net.select_write fd sec usec);
    read = wrap_read net.read;
    write = wrap_write;
    close = wrap_close net.close;
  }

  -- Whatever the stand-in for `fcntl` is set to refuse, no refusal is ever seen: the socket counts as
  -- made non-blocking, and nothing is called.
  pub set_nonblocking-fcntl_fail :
      (fd : ℕ) (s : Mocked net.State)
      → mocks.fcntl_status ≡ fcntl_fail
      → set_nonblocking mocked_net fd s ≡ done (CanError.can_no_error, s)
  unfolding set_nonblocking
  set_nonblocking-fcntl_fail fd s fails = ground arith
