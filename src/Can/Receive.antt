-- ===== src/Can/Receive.antt =====
-- What `can.c` gives to the server, and when its functions are undefined.
use vdiag_server.Base.{
  ℕ, suc, zero, ◌≤◌, ◌<◌, ◌≡◌, ◌≢◌, ◌⊎◌, true, false, some, List, [], ◌∷◌, length, replicate,
  overwrite, All, arith, length-overwrite, length-replicate, sym, bit_or, ◌/◌, ◌%◌, ◌*◌,
}
use mathlib.Core.Path.{subst}
use vdiag_server.Base.Word.{u32, is_negative, minus_one, minus_one64}
use vdiag_server.Base.Exec.{done, undefined}
use vdiag_server.Can.{CanMessage, IsMessage, payload}
use vdiag_server.Can.Socket.{
  SockaddrCan, CanError, SocketState, Net, is_closed, set_nonblocking, can_socket_open,
  can_socket_read, can_socket_write,
}

-- The documented results of `read`: -1 with nothing stored, or the number of bytes stored.
pub record ReadsBytes (net : Net) : Type 0 where
  pub result :
      (fd n : ℕ) (s : net.State)
      → let (r, out, t) = net.read fd n s in
        ((r ≡ minus_one64) × (out ≡ [])) ⊎ ((r ≡ length out) × (length out ≤ n))
  pub bytes : (fd n : ℕ) (s : net.State) → All (λ b. b < 256) (net.read fd n s).1

pub All-replicate : (n : ℕ) → All (λ b. b < 256) (replicate n 0)
unfolding replicate
All-replicate zero = tt
All-replicate (suc n) = (omega arith, All-replicate n)

pub All-overwrite :
    (out buf : List ℕ)
    → All (λ b. b < 256) out
    → All (λ b. b < 256) buf
    → All (λ b. b < 256) (overwrite out buf)
All-overwrite [] buf a b = b
All-overwrite (x ∷ out) [] a b = tt
All-overwrite (x ∷ out) (_ ∷ buf) a b = (a.0, All-overwrite out buf a.1 b.1)

module _ (net : Net) (reads : ReadsBytes net) where
  -- Where `read` returns what it documents, a message that is received without an error is one to
  -- 4096 bytes in a whole array of bytes.
  pub can_socket_read-IsMessage :
      (st : SocketState) (msg msg' : CanMessage) (s t : net.State)
      → can_socket_read net (some st) (some msg) s ≡ done ((CanError.can_no_error, some msg'), t)
      → IsMessage msg' × (0 < msg'.usz) × (msg'.usz ≤ 4096)
  unfolding can_socket_read
  can_socket_read-IsMessage st msg msg' s t ran =
      let s1 = (net.select_read st.sockfd (st.uioto / 1000) (st.uioto % 1000 * 1000) s).1 in
      let zeros = replicate {A = ℕ} 4096 0 in
      let out = (net.read st.sockfd 4096 s1).1 in
      let how = reads.result st.sockfd 4096 s1 in
      let zlen = length-replicate {A = ℕ} 4096 0 in
      let olen = length-overwrite out zeros in
      let whole : All (λ b. b < 256) (overwrite out zeros) =
        All-overwrite out zeros (reads.bytes st.sockfd 4096 s1) (All-replicate 4096) in
      let same : msg'.pdata ≡ overwrite out zeros = ground arith in
      (
        record {
          full = ground arith;
          bytes = subst (All (λ b. b < 256)) (sym same) whole;
          word = ground arith;
        },
        ground arith,
        ground arith,
      )

  -- Where `read` returns what it documents, a `read` of an open socket that fails once `select` has
  -- reported a message is undefined: its -1 passes the tests of an unsigned number, and is taken
  -- for the length of the message to print.
  pub can_socket_read_failed :
      (st : SocketState) (msg : CanMessage) (ready : ℕ) (s s1 : net.State)
      → is_closed st.sockfd ≡ false
      → net.select_read st.sockfd (st.uioto / 1000) (st.uioto % 1000 * 1000) s ≡ (ready, s1)
      → ready ≢ 0
      → is_negative ready ≡ false
      → (net.read st.sockfd 4096 s1).0 ≡ minus_one64
      → can_socket_read net (some st) (some msg) s ≡ undefined
  unfolding can_socket_read
  can_socket_read_failed st msg ready s s1 alive polled some_ready answered failed = ground arith

module _ (net : Net) where
  -- A message that is sent without an error was empty, and nothing was called; or its bytes went
  -- whole to one `write` after one `select`, and the network is as these two calls leave it.
  pub can_socket_write_sends :
      (st : SocketState) (msg : CanMessage) (s t : net.State)
      → can_socket_write net (some st) (some msg) s ≡ done (CanError.can_no_error, t)
      → ((msg.usz ≡ 0) × (t ≡ s))
        ⊎ ((is_closed st.sockfd ≡ false)
            × (let (ready, s1) =
                  net.select_write st.sockfd (st.uioto / 1000) (st.uioto % 1000 * 1000) s in
                let (n, s2) = net.write st.sockfd (payload msg) s1 in
                (is_negative ready ≡ false) × (ready ≢ 0) × (u32 n ≡ msg.usz) × (t ≡ s2)))
  unfolding can_socket_write
  can_socket_write_sends st msg s t ran = ground arith

  -- Once memory and a socket are given, opening either gives the socket, configured for the
  -- interface and the two identifiers, with `*perr` as it was; or the flags could not be read or set
  -- or the address not be bound, and then it is undefined: the state is freed, and then read for the
  -- descriptor to close. What C promises ends there, whatever a run of test_can_socket_open_bind_fail
  -- goes on to observe.
  pub can_socket_open_lem :
      (ifname : List ℕ) (utx urx : ℕ) (perr : CanError) (s : net.State)
      → (net.calloc s).0 ≡ true
      → is_negative (net.socket (net.calloc s).1).0 ≡ false
      → let (sockfd, s1) = net.socket (net.calloc s).1 in
        let (ifindex, s2) = net.if_nametoindex ifname s1 in
        let (flags, s3) = net.get_flags sockfd s2 in
        let (set, s4) = net.set_flags sockfd (bit_or flags net.o_nonblock) s3 in
        let addr : SockaddrCan = record {
          can_family = net.af_can;
          can_ifindex = ifindex;
          tx_id = utx;
          rx_id = urx;
        } in
        let (bound, s5) = net.bind sockfd addr s4 in
        ((flags ≢ minus_one)
          × (set ≢ minus_one)
          × (bound ≡ 0)
          × (can_socket_open net ifname utx urx perr s
              ≡ done (
                (
                  some (record { sockfd = sockfd; proto = net.can_isotp; uioto = 0; addr = addr }),
                  perr,
                ),
                s5,
              )))
        ⊎ (((flags ≡ minus_one) ⊎ ((set ≡ minus_one) ⊎ (bound ≢ 0)))
            × (can_socket_open net ifname utx urx perr s ≡ undefined))
  unfolding can_socket_open set_nonblocking
  can_socket_open_lem ifname utx urx perr s got opened = grind arith
