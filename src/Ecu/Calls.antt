-- ===== src/Ecu/Calls.antt =====
-- can_socket_read and can_socket_write of uds_server/src/can.c on a line.
use vdiag_server.Base.{
  ℕ, ◌≤◌, ◌<◌, ◌≡◌, ◌∙◌, sym, ap, refl, false, true, Bool, Bool-cases, some, List, [], ◌∷◌, ◌++◌,
  length, arith, inl, inr, length-take, ◌⊎◌, zero, suc, ◌/◌, ◌%◌, ◌*◌,
}
use mathlib.Core.List.{append-nil}
use vdiag_server.Base.Exec.{done}
use vdiag_server.Can.{CanMessage, payload}
use vdiag_server.Can.Socket.{
  CanError, SocketState, Net, is_closed, can_socket_read, can_socket_write,
}
use vdiag_server.Server.{zero_message}
use vdiag_server.Ecu.Requests.{Fits}
use vdiag_server.Ecu.Wire.{
  Arrival, timeout, interrupted, message, Line, Polled, Delivers, message_of, heard_of,
}

heard_some : (bs : List ℕ) → 0 < length bs → heard_of true bs ≡ bs ∷ []
heard_some [] h = absurd (omega arith)
heard_some (b ∷ bs) h = refl

heard_none : (bs : List ℕ) → heard_of false bs ≡ []
heard_none [] = refl
heard_none (b ∷ bs) = refl

zero_or_some : (n : ℕ) → (n ≡ 0) ⊎ (0 < n)
zero_or_some zero = inl refl
zero_or_some (suc n) = inr (omega arith)

module _ (net : Net) (line : Line net) (st : SocketState) (delivers : Delivers net line st.sockfd)
    (alive : is_closed st.sockfd ≡ false) where
  pub read_timeout :
      (s : net.State) (rest : List Arrival)
      → line.due s ≡ timeout ∷ rest
      → (t : net.State) × (can_socket_read net (some st) (some zero_message) s
          ≡ done ((CanError.can_error_timeout, some zero_message), t))
        × Polled net line s t rest
  unfolding can_socket_read
  read_timeout s rest next =
      let (zero_ready, left) =
        delivers.select_timeout (st.uioto / 1000) (st.uioto % 1000 * 1000) s rest next in
      (_, ground (arith, zero_ready), left)

  pub read_interrupted :
      (s : net.State) (rest : List Arrival)
      → line.due s ≡ interrupted ∷ rest
      → (t : net.State) × (can_socket_read net (some st) (some zero_message) s
          ≡ done ((CanError.can_error_read, some zero_message), t))
        × Polled net line s t rest
  unfolding can_socket_read
  read_interrupted s rest next =
      let (failed, left) =
        delivers.select_interrupted (st.uioto / 1000) (st.uioto % 1000 * 1000) s rest next in
      (_, ground (arith, failed), left)

  pub read_message :
      (s : net.State) (m : List ℕ) (clear : Bool) (rest : List Arrival)
      → line.due s ≡ message m clear ∷ rest
      → 0 < length m
      → length m ≤ 4096
      → (t : net.State) × (can_socket_read net (some st) (some zero_message) s
          ≡ done ((CanError.can_no_error, some (message_of m)), t))
        × (line.is_clear t ≡ clear)
        × Polled net line s t rest
  unfolding can_socket_read
  read_message s m clear rest next some_byte short =
      let s1 = (net.select_read st.sockfd (st.uioto / 1000) (st.uioto % 1000 * 1000) s).1 in
      let (one, same) =
        delivers.select_message (st.uioto / 1000) (st.uioto % 1000 * 1000) s m clear rest next in
      let (n, out, writable, left) = delivers.read_ok 4096 s1 m clear rest same.due short in
      (
        _,
        ground (arith, one, n, out),
        writable,
        record { due = left.due; sent = left.sent ∙ same.sent },
      )

  send_payload :
      (out : CanMessage) (s : net.State)
      → Fits out
      → 0 < out.usz
      → line.is_clear s ≡ true
      → (t : net.State) × (can_socket_write net (some st) (some out) s
          ≡ done (CanError.can_no_error, t))
        × (line.due t ≡ line.due s)
        × (line.sent t ≡ line.sent s ++ (payload out ∷ []))
  unfolding can_socket_write
  send_payload out s (full, fits) some_byte clear =
      let s1 = (net.select_write st.sockfd (st.uioto / 1000) (st.uioto % 1000 * 1000) s).1 in
      let (one, same) =
        delivers.select_write_ok (st.uioto / 1000) (st.uioto % 1000 * 1000) s clear in
      let (n, due, sent) = delivers.write_ok (payload out) s1 in
      let len = length-take out.usz out.pdata in
      (
        _,
        ground (arith, one, n, len),
        due ∙ same.due,
        sent ∙ ap (λ r. r ++ (payload out ∷ [])) same.sent,
      )

  jammed :
      (out : CanMessage) (s : net.State)
      → 0 < out.usz
      → line.is_clear s ≡ false
      → (t : net.State) × (can_socket_write net (some st) (some out) s
          ≡ done (CanError.can_error_timeout, t))
        × Polled net line s t (line.due s)
  unfolding can_socket_write
  jammed out s some_byte blocked =
      let (zero_ready, same) =
        delivers.select_write_timeout (st.uioto / 1000) (st.uioto % 1000 * 1000) s blocked in
      (_, ground (arith, zero_ready), same)

  -- A response is sent whole where the socket can be written to, and an empty one not at all.
  pub write_response :
      (out : CanMessage) (s : net.State)
      → Fits out
      → (err : CanError) × (t : net.State) × (can_socket_write net (some st) (some out) s
          ≡ done (err, t))
        × (line.due t ≡ line.due s)
        × (line.sent t ≡ line.sent s ++ heard_of (line.is_clear s) (payload out))
  unfolding can_socket_write
  write_response out s (full, fits) = elim (zero_or_some out.usz) [
    | inl none_ ↦ (
      CanError.can_no_error,
      s,
      ground (arith, none_),
      refl,
      rw (none_) (sym (append-nil (line.sent s))),
    )
    | inr some_byte ↦ elim (Bool-cases (line.is_clear s)) [
      | inl clear ↦
          let (t, ran, due, sent) = send_payload out s (full, fits) some_byte clear in
          let len = length-take out.usz out.pdata in
          (
            CanError.can_no_error,
            t,
            ran,
            due,
            sent
                ∙ ap (λ r. line.sent s ++ r) (sym (heard_some (payload out) (omega arith)))
                ∙ ap (λ (b : Bool). line.sent s ++ heard_of b (payload out)) (sym clear),
          )
      | inr blocked ↦
          let (t, ran, same) = jammed out s some_byte blocked in
          (
            CanError.can_error_timeout,
            t,
            ran,
            same.due,
            same.sent
                ∙ sym (append-nil (line.sent s))
                ∙ ap (λ r. line.sent s ++ r) (sym (heard_none (payload out)))
                ∙ ap (λ (b : Bool). line.sent s ++ heard_of b (payload out)) (sym blocked),
          )
    ]
  ]
