-- ===== src/Can/Socket.antt =====
-- uds_server/src/can.c: the ISO-TP socket. The network is a parameter, the constants of the Linux
-- headers among it; results are bit patterns (`Base.Word`).
use vdiag_server.Base.{
  ℕ, ◌*◌, ◌/◌, ◌%◌, Bool, not, ◌||◌, Option, none, some, List, length, take, replicate, overwrite,
  ltb, leb, ◌==◌, bit_or, if◌then◌else◌,
}
use vdiag_server.Base.Word.{u32, is_negative, minus_one}
use vdiag_server.Base.Exec.{done, Exec, pure, fault, ◌>>=◌, sys}
use vdiag_server.Can.{CanMessage, max_message_size}

pub data CanError : Type 0 where
  can_no_error can_error_common can_error_socket_init can_error_malloc can_error_connect
        can_error_bind can_error_invalid_param can_error_socket_closed can_error_timeout
        can_error_read can_error_write can_error_ioctl :
      CanError

-- `struct sockaddr_can`, as far as it is assigned.
pub record SockaddrCan : Type 0 where
  pub can_family : ℕ
  pub can_ifindex : ℕ
  pub tx_id : ℕ
  pub rx_id : ℕ

pub record SocketState : Type 0 where
  pub sockfd : ℕ
  pub proto : ℕ
  pub uioto : ℕ
  pub addr : SockaddrCan

pub record Net : Type 1 where
  pub State : Type 0
  pub can_isotp : ℕ
  pub af_can : ℕ
  pub o_nonblock : ℕ
  -- FD_SETSIZE: `FD_SET` of a descriptor from there on is undefined.
  pub fd_setsize : ℕ
  pub calloc : State → Bool × State
  -- `socket(PF_CAN, SOCK_DGRAM, CAN_ISOTP)`
  pub socket : State → ℕ × State
  pub if_nametoindex : List ℕ → State → ℕ × State
  -- `fcntl` with F_GETFL and with F_SETFL.
  pub get_flags : ℕ → State → ℕ × State
  pub set_flags : ℕ → ℕ → State → ℕ × State
  pub bind : ℕ → SockaddrCan → State → ℕ × State
  -- `select` on one descriptor to read or to write, with the seconds and microseconds to wait.
  pub select_read : ℕ → ℕ → ℕ → State → ℕ × State
  pub select_write : ℕ → ℕ → ℕ → State → ℕ × State
  -- `read` of at most so many bytes: its result, and the bytes that it stores.
  pub read : ℕ → ℕ → State → ℕ × List ℕ × State
  pub write : ℕ → List ℕ → State → ℕ × State
  pub close : ℕ → State → State

-- `psock_state->sockfd <= 0`
abbrev pub is_closed : ℕ → Bool
is_closed fd = is_negative fd || fd == 0

module _ (net : Net) where
  unfoldable pub set_nonblocking : ℕ → Exec net.State CanError
  set_nonblocking sockfd = do
    flags ← sys (net.get_flags sockfd)
    if flags == minus_one then pure CanError.can_error_ioctl else do
      r ← sys (net.set_flags sockfd (bit_or flags net.o_nonblock))
      if r == minus_one then pure CanError.can_error_ioctl else pure CanError.can_no_error

  -- The label `err` with a socket: the state is freed, and then read for the descriptor to close.
  abbrev close_freed : {A : Type 0} → Exec net.State A
  close_freed = fault

  -- From `bind` on.
  abbrev bind_socket : ℕ → SockaddrCan → CanError → Exec net.State (Option SocketState × CanError)
  bind_socket sockfd addr perr = do
    r ← sys (net.bind sockfd addr)
    if not (r == 0)
        then close_freed
        else pure
            (some (record { sockfd = sockfd; proto = net.can_isotp; uioto = 0; addr = addr }), perr)

  -- From the socket on.
  abbrev configure : List ℕ → ℕ → ℕ → ℕ → CanError → Exec net.State (Option SocketState × CanError)
  configure ifname utx urx sockfd perr = do
    ifindex ← sys (net.if_nametoindex ifname)
    nb ← set_nonblocking sockfd
    elim nb [
      | CanError.can_no_error ↦
          bind_socket sockfd
            (record { can_family = net.af_can; can_ifindex = ifindex; tx_id = utx; rx_id = urx })
            perr
      | _ ↦ close_freed
    ]

  -- The socket, and what `*perr` holds afterwards, from what it held before.
  unfoldable pub can_socket_open :
      List ℕ → ℕ → ℕ → CanError → Exec net.State (Option SocketState × CanError)
  can_socket_open ifname utx urx perr = do
    got ← sys net.calloc
    if not got then pure (none, CanError.can_error_malloc) else do
      sockfd ← sys net.socket
      if is_negative sockfd
          then pure (none, CanError.can_error_socket_init)
          else configure ifname utx urx sockfd perr

  -- What is left in the caller's pointer.
  unfoldable pub can_socket_close : Option SocketState → Exec net.State (Option SocketState)
  can_socket_close none s = done (none, s)
  can_socket_close (some st) s = done (none, net.close st.sockfd s)

  -- What follows a `read` with result `n` that stored `out`: the test `usz_io < 0` on a `uint32_t`,
  -- and `print_hex`, which reads so many bytes of the array.
  abbrev received : ℕ → List ℕ → CanMessage → Exec net.State (CanError × Option CanMessage)
  received usz_io out msg =
      if ltb max_message_size (length out)
      then fault
      else if ltb usz_io 0
      then pure (CanError.can_error_read, some (record msg { pdata = overwrite out msg.pdata }))
      else if usz_io == 0
      then pure
          (CanError.can_error_socket_closed, some (record msg { pdata = overwrite out msg.pdata }))
      else if ltb max_message_size usz_io
      then fault
      else pure
          (CanError.can_no_error, some (record { pdata = overwrite out msg.pdata; usz = usz_io }))

  abbrev receive : SocketState → CanMessage → Exec net.State (CanError × Option CanMessage)
  receive st msg =
      if is_closed st.sockfd
      then pure (CanError.can_error_socket_closed, some msg)
      else if leb net.fd_setsize st.sockfd
      then fault
      else do
        irc ← sys (net.select_read st.sockfd (st.uioto / 1000) (st.uioto % 1000 * 1000))
        if irc == 0
            then pure (CanError.can_error_timeout, some msg)
            else if is_negative irc
            then pure (CanError.can_error_read, some msg)
            else do
              (n, out) ←
                  sys
                    (λ s. let (n, out, t) = net.read st.sockfd max_message_size s in ((n, out), t))
              received (u32 n) out msg

  unfoldable pub can_socket_read :
      Option SocketState → Option CanMessage → Exec net.State (CanError × Option CanMessage)
  can_socket_read none pmsg = pure (CanError.can_error_invalid_param, pmsg)
  can_socket_read (some st) none = pure (CanError.can_error_invalid_param, none)
  can_socket_read (some st) (some msg) =
      receive st (record msg { pdata = replicate max_message_size 0 })

  -- The tests on the result of `write`.
  abbrev sent : ℕ → ℕ → Exec net.State CanError
  sent usz_io usz =
      if ltb usz_io 0
      then pure CanError.can_error_write
      else if not (usz_io == usz)
      then pure CanError.can_error_write
      else pure CanError.can_no_error

  abbrev send : SocketState → CanMessage → Exec net.State CanError
  send st msg = if leb net.fd_setsize st.sockfd then fault else do
    irc ← sys (net.select_write st.sockfd (st.uioto / 1000) (st.uioto % 1000 * 1000))
    if irc == 0
        then pure CanError.can_error_timeout
        else if is_negative irc
        then pure CanError.can_error_write
        else if ltb max_message_size msg.usz
        then fault
        else do n ← sys (net.write st.sockfd (take msg.usz msg.pdata)); sent (u32 n) msg.usz

  unfoldable pub can_socket_write : Option SocketState → Option CanMessage → Exec net.State CanError
  can_socket_write none pmsg = pure CanError.can_error_invalid_param
  can_socket_write (some st) none = pure CanError.can_error_invalid_param
  can_socket_write (some st) (some msg) =
      if msg.usz == 0
      then pure CanError.can_no_error
      else if is_closed st.sockfd
      then pure CanError.can_error_socket_closed
      else send st msg
