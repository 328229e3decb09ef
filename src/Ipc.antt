-- ===== src/Ipc.antt =====
-- What src/startup.rs uses of the crate ipc-channel, as a parameter: channels between processes, and the
-- one-shot server by which a process finds another one. A world is the state of all channels; a call
-- says whether it failed, and the calls that wait are polled.
use profiler_rs.Prelude.{
  ◌≡◌, ◌≢◌, List, [], ◌∷◌, ◌++◌, Bool, true, false, Option, none, some, String,
}

-- What a call that waits finds.
pub data Poll (A : Type 0) : Type 0 where
  arrived : A → Poll A
  not_yet broken : Poll A

pub record Ipc (Message : Type 0) : Type 1 where
  pub World : Type 0
  pub Server : Type 0
  pub Bootstrap : Type 0
  pub Sender : Type 0
  pub Receiver : Type 0
  -- `IpcOneShotServer::new` and `accept`, `IpcSender::connect` and the `send` of a sender on what it
  -- returns, `ipc::channel`, `IpcSender::send`, `IpcReceiver::recv`.
  pub new_server : World → Option (Server × String) × World
  pub accept : Server → World → Poll Sender × World
  pub connect : String → World → Option Bootstrap × World
  pub introduce : Bootstrap → Sender → World → Bool × World
  pub channel : World → Option (Sender × Receiver) × World
  pub send : Sender → Message → World → Bool × World
  pub recv : Receiver → World → Poll Message × World

-- What the documentation promises: a channel is a queue, and a token names one server. A call that
-- fails, or that finds nothing yet, leaves the queues as they are.
pub record IsDocumented {Message : Type 0} (I : Ipc Message) : Type 0 where
  pub token_of : I.Server → String
  pub server_of : I.Bootstrap → I.Server
  pub receiver_of : I.Sender → I.Receiver
  -- The senders that a server has been sent and the messages sent on a channel, not yet taken.
  pub offered : I.Server → I.World → List I.Sender
  pub queued : I.Receiver → I.World → List Message
  pub tokens : (s t : I.Server) → token_of s ≡ token_of t → s ≡ t
  pub new_server-some :
      (w w' : I.World) (s : I.Server) (token : String)
      → I.new_server w ≡ (some (s, token), w')
      → (token_of s ≡ token) × (offered s w' ≡ [])
  pub channel-some :
      (w w' : I.World) (tx : I.Sender) (rx : I.Receiver)
      → I.channel w ≡ (some (tx, rx), w')
      → (receiver_of tx ≡ rx) × (queued rx w' ≡ []) × ((s : I.Server) → offered s w' ≡ offered s w)
  pub channel-none :
      (w w' : I.World) → I.channel w ≡ (none, w') → (s : I.Server) → offered s w' ≡ offered s w
  pub connect-some :
      (token : String) (w w' : I.World) (b : I.Bootstrap)
      → I.connect token w ≡ (some b, w')
      → token_of (server_of b) ≡ token
  pub connect_quiet :
      (token : String) (w w' : I.World) (o : Option I.Bootstrap)
      → I.connect token w ≡ (o, w')
      → ((s : I.Server) → offered s w' ≡ offered s w)
        × ((r : I.Receiver) → queued r w' ≡ queued r w)
  pub introduce-offered :
      (b : I.Bootstrap) (x : I.Sender) (w w' : I.World)
      → I.introduce b x w ≡ (true, w')
      → offered (server_of b) w' ≡ offered (server_of b) w ++ x ∷ []
  pub introduce_quiet :
      (b : I.Bootstrap) (x : I.Sender) (w w' : I.World) (sent : Bool)
      → I.introduce b x w ≡ (sent, w')
      → (r : I.Receiver) → queued r w' ≡ queued r w
  pub accept-arrived :
      (s : I.Server) (w w' : I.World) (x : I.Sender)
      → I.accept s w ≡ (arrived x, w')
      → offered s w ≡ x ∷ offered s w'
  pub accept-not_yet :
      (s : I.Server) (w w' : I.World)
      → I.accept s w ≡ (not_yet, w')
      → (offered s w ≡ []) × (offered s w' ≡ [])
  pub accept_quiet :
      (s : I.Server) (w w' : I.World) (p : Poll I.Sender)
      → I.accept s w ≡ (p, w')
      → (r : I.Receiver) → queued r w' ≡ queued r w
  pub send-queued :
      (x : I.Sender) (m : Message) (w w' : I.World)
      → I.send x m w ≡ (true, w')
      → queued (receiver_of x) w' ≡ queued (receiver_of x) w ++ m ∷ []
  pub send-failed :
      (x : I.Sender) (m : Message) (w w' : I.World)
      → I.send x m w ≡ (false, w')
      → (r : I.Receiver) → queued r w' ≡ queued r w
  pub recv-arrived :
      (r : I.Receiver) (w w' : I.World) (m : Message)
      → I.recv r w ≡ (arrived m, w')
      → queued r w ≡ m ∷ queued r w'
  pub recv-not_yet :
      (r : I.Receiver) (w w' : I.World)
      → I.recv r w ≡ (not_yet, w')
      → (queued r w ≡ []) × (queued r w' ≡ [])
  pub recv_quiet :
      (r : I.Receiver) (w w' : I.World) (p : Poll Message)
      → I.recv r w ≡ (p, w')
      → (s : I.Server) → offered s w' ≡ offered s w

-- No call fails that need not fail: a process can connect to a server that nobody has been
-- introduced to.
pub record NeverFails {Message : Type 0} (I : Ipc Message) (d : IsDocumented I) : Type 0 where
  pub serves :
      (w : I.World)
      → (s : I.Server) × (token : String) × (w' : I.World) × (I.new_server w
          ≡ (some (s, token), w'))
  pub opens :
      (w : I.World)
      → (tx : I.Sender) × (rx : I.Receiver) × (w' : I.World) × (I.channel w ≡ (some (tx, rx), w'))
  pub connects :
      (s : I.Server) (w : I.World)
      → d.offered s w ≡ []
      → (b : I.Bootstrap) × (w' : I.World) × (I.connect (d.token_of s) w ≡ (some b, w'))
  pub introduces :
      (b : I.Bootstrap) (x : I.Sender) (w : I.World)
      → (w' : I.World) × (I.introduce b x w ≡ (true, w'))
  pub accepts : (s : I.Server) (w : I.World) → (I.accept s w).0 ≢ broken
  pub sends :
      (x : I.Sender) (m : Message) (w : I.World) → (w' : I.World) × (I.send x m w ≡ (true, w'))
  pub receives : (r : I.Receiver) (w : I.World) → (I.recv r w).0 ≢ broken
