-- ===== src/Ecu/Wire.antt =====
-- The ECU behind its socket: what arrives in the rounds of uds_server/src/uds_server.c and what is
-- sent. The network is the parameter, with what the server relies on when no call of it fails but
-- `select`.
use vdiag_server.Base.{ℕ, ◌≤◌, ◌<◌, ◌≡◌, false, true, Bool, List, [], ◌∷◌, ◌++◌, length, All}
use vdiag_server.Base.Word.{is_negative}
use vdiag_server.Can.{CanMessage, put}
use vdiag_server.Can.Socket.{Net}
use vdiag_server.Server.{zero_message}
use vdiag_server.Config.{EcuConfig}
use vdiag_server.Uds.Interface.{Locals}
use vdiag_server.Ecu.{Command}
use vdiag_server.Ecu.Requests.{Asks, Ready}

-- What a round finds: nothing before the timeout, an error of `select`, or a message, and then whether
-- the socket can be written to before the timeout.
pub data Arrival : Type 0 where
  timeout interrupted : Arrival
  message : List ℕ → Bool → Arrival

pub record Line (net : Net) : Type 0 where
  -- What the next rounds find, and the messages that were sent.
  pub due : net.State → List Arrival
  pub sent : net.State → List (List ℕ)
  -- Whether the socket can be written to.
  pub is_clear : net.State → Bool

pub record Polled (net : Net) (line : Line net) (s t : net.State) (rest : List Arrival)
    : Type 0 where
  pub due : line.due t ≡ rest
  pub sent : line.sent t ≡ line.sent s

-- The documented behaviour of `select`, `read` and `write` on one connected socket, whose
-- descriptor `select` can watch.
pub record Delivers (net : Net) (line : Line net) (fd : ℕ) : Type 0 where
  pub watched : fd < net.fd_setsize
  pub select_timeout :
      (sec usec : ℕ) (s : net.State) (rest : List Arrival)
      → line.due s ≡ timeout ∷ rest
      → ((net.select_read fd sec usec s).0 ≡ 0)
        × Polled net line s (net.select_read fd sec usec s).1 rest
  pub select_interrupted :
      (sec usec : ℕ) (s : net.State) (rest : List Arrival)
      → line.due s ≡ interrupted ∷ rest
      → (is_negative (net.select_read fd sec usec s).0 ≡ true)
        × Polled net line s (net.select_read fd sec usec s).1 rest
  pub select_message :
      (sec usec : ℕ) (s : net.State) (m : List ℕ) (clear : Bool) (rest : List Arrival)
      → line.due s ≡ message m clear ∷ rest
      → ((net.select_read fd sec usec s).0 ≡ 1)
        × Polled net line s (net.select_read fd sec usec s).1 (message m clear ∷ rest)
  pub read_ok :
      (n : ℕ) (s : net.State) (m : List ℕ) (clear : Bool) (rest : List Arrival)
      → line.due s ≡ message m clear ∷ rest
      → length m ≤ n
      → let (r, out, t) = net.read fd n s in
        (r ≡ length m) × (out ≡ m) × (line.is_clear t ≡ clear) × Polled net line s t rest
  pub select_write_timeout :
      (sec usec : ℕ) (s : net.State)
      → line.is_clear s ≡ false
      → ((net.select_write fd sec usec s).0 ≡ 0)
        × Polled net line s (net.select_write fd sec usec s).1 (line.due s)
  pub select_write_ok :
      (sec usec : ℕ) (s : net.State)
      → line.is_clear s ≡ true
      → ((net.select_write fd sec usec s).0 ≡ 1)
        × Polled net line s (net.select_write fd sec usec s).1 (line.due s)
  pub write_ok :
      (bs : List ℕ) (s : net.State)
      → let (r, t) = net.write fd bs s in
        (r ≡ length bs) × (line.due t ≡ line.due s) × (line.sent t ≡ line.sent s ++ (bs ∷ []))

-- The message as the server holds it.
abbrev pub message_of : List ℕ → CanMessage
message_of bs = put zero_message bs (length bs)

-- A message of one to 4096 bytes that stands for a command.
pub record Carries (bs : List ℕ) (c : Command) : Type 0 where
  pub some_byte : 0 < length bs
  pub short : length bs ≤ 4096
  pub whole : All (λ b. b < 256) bs
  pub asks : Asks (message_of bs) c

-- What arrives in the rounds stands for the commands, in order, each with what it asks of the
-- uninitialised variables of its round; where nothing arrives, none is asked.
abbrev pub Arrive : EcuConfig → List Locals → List Arrival → List Command → Type 0
Arrive config [] [] [] = Unit
Arrive config [] [] (c ∷ cs) = ⊥
Arrive config [] (a ∷ next) cs = ⊥
Arrive config (l ∷ ls) [] cs = ⊥
Arrive config (l ∷ ls) (timeout ∷ next) cs = Arrive config ls next cs
Arrive config (l ∷ ls) (interrupted ∷ next) cs = Arrive config ls next cs
Arrive config (l ∷ ls) (message bs clear ∷ next) [] = ⊥
Arrive config (l ∷ ls) (message bs clear ∷ next) (c ∷ cs) =
    Carries bs c × Ready config l c × Arrive config ls next cs

-- What is heard of a response: all of it, but nothing of an empty one, or of one that cannot be
-- written.
abbrev pub heard_of : Bool → List ℕ → List (List ℕ)
heard_of clear [] = []
heard_of true (b ∷ bs) = (b ∷ bs) ∷ []
heard_of false (b ∷ bs) = []

-- And of the responses to what arrives.
abbrev pub heard : List Arrival → List (List ℕ) → List (List ℕ)
heard [] rs = []
heard (timeout ∷ next) rs = heard next rs
heard (interrupted ∷ next) rs = heard next rs
heard (message bs clear ∷ next) [] = []
heard (message bs clear ∷ next) (r ∷ rs) = heard_of clear r ++ heard next rs
