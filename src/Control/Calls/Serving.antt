-- ===== src/Control/Calls/Serving.antt =====
-- A runtime that is a connection to a daemon: bytes that were sent wait until they are a whole
-- message, and the bytes of the answers wait until they are read.
use swupdate_rs.Wire.Message.Serial.{length-ipc_message_to_bytes, ipc_message_from_bytes-to_bytes}
use swupdate_rs.Wire.Message.{
  ipc_message_from_bytes, RawIpcMessage, IsMessage, ipc_message_to_bytes,
}
use swupdate_rs.Common.{
  zero, suc, true, ◌∷◌, ℕ, refl, ap, ◌≡◌, none, some, [], ◌++◌, true, Bytes, Option, drop, take,
  if◌then◌else◌, leb, length, ◌≤◌, arith, take-all,
}
use swupdate_rs.Error.{done, fault, IoResult}
use swupdate_rs.Runtime.{Runtime}
use swupdate_rs.Control.Calls.{Daemon, Carries}
use swupdate_rs.Text.{Text, codes}

drop-all : (n : ℕ) (xs : Bytes) → length xs ≤ n → drop n xs ≡ []
drop-all zero [] h = refl
drop-all zero (x ∷ xs) h = elim h [ ]
drop-all (suc n) [] h = refl
drop-all (suc n) (x ∷ xs) h = drop-all n xs (omega arith)

leb_refl : (m n : ℕ) → m ≤ n → leb m n ≡ true
leb_refl m n h = ground arith

module _ (D : Daemon) where
  pub record Connection : Type 0 where
    pub peer : D.State
    pub inbox : Bytes
    pub outbox : Bytes

  -- The daemon handles one whole message, if there is one.
  unfoldable pub serve_one : Option RawIpcMessage → Connection → Connection
  serve_one none w = w
  serve_one (some m) w =
      let (reply, peer) = D.respond m w.peer in
      record {
        peer = peer;
        inbox = drop 3120 w.inbox;
        outbox = w.outbox ++ ipc_message_to_bytes reply;
      }

  unfoldable pub serve : Connection → Connection
  unfolding serve_one
  serve w = serve_one (ipc_message_from_bytes (take 3120 w.inbox)) w

  abbrev pub fetch : ℕ → Connection → IoResult Bytes × Connection
  fetch n w =
      if leb n (length w.outbox)
      then (done (take n w.outbox), record w { outbox = drop n w.outbox })
      else (fault (codes "early eof"), w)

  abbrev pub serving : Runtime
  serving = record {
    World = Connection;
    Stream = Text;
    Reader = Text;
    env_var = λ (name : Text) (w : Connection). none;
    exists = λ (path : Text) (w : Connection). true;
    connect = λ path w. (done path, w);
    write_all = λ s bs w. (done tt, serve (record w { inbox = w.inbox ++ bs }));
    read_exact = λ s n w. fetch n w;
    shutdown = λ s w. (done tt, w);
    try_write = λ s bs w. (done (length bs), serve (record w { inbox = w.inbox ++ bs }));
    within = λ A d m w. let (a, w') = m w in (some a, w');
    open_file = λ path w. (fault (codes "No such file or directory"), w);
    stdin = codes "stdin";
    read = λ r n w. (done [], w);
    version_output = λ w. (none, w);
  }

  pub served :
      (msg : RawIpcMessage) (w : Connection)
      → IsMessage msg
      → w.inbox ≡ []
      → w.outbox ≡ []
      → serve (record w { inbox = w.inbox ++ ipc_message_to_bytes msg }) ≡ record {
        peer = (D.respond msg w.peer).1;
        inbox = [];
        outbox = ipc_message_to_bytes (D.respond msg w.peer).0;
      }
  unfolding serve serve_one
  served msg w h qi qo =
      let sized = length-ipc_message_to_bytes msg h in
      let whole = take-all 3120 (ipc_message_to_bytes msg) (omega (arith, sized)) in
      rw (qi, qo)
        (rw (whole, ipc_message_from_bytes-to_bytes msg h)
          (ap
            (λ inbox. record {
              peer = (D.respond msg w.peer).1;
              inbox = inbox;
              outbox = ipc_message_to_bytes (D.respond msg w.peer).0;
            })
            (drop-all 3120 (ipc_message_to_bytes msg) (omega (arith, sized)))))

  pub fetched :
      (bytes : Bytes) (peer : D.State)
      → length bytes ≡ 3120
      → fetch 3120 (record { peer = peer; inbox = []; outbox = bytes })
        ≡ (done bytes, record { peer = peer; inbox = []; outbox = [] })
  fetched bytes peer h =
      rw (leb_refl 3120 (length bytes) (omega (arith, h)))
        (cc (take-all 3120 bytes (omega (arith, h)), drop-all 3120 bytes (omega (arith, h))))

  abbrev pub IsQuiet : Connection → Type 0
  IsQuiet w = (w.inbox ≡ []) × (w.outbox ≡ [])

  -- The connection carries messages to its daemon and back.
  abbrev pub serving_carries : Carries serving D
  serving_carries = record {
    view = λ w. w.peer;
    Quiet = IsQuiet;
    carried = λ c msg w h k.
        let (reply, peer) = D.respond msg w.peer in
        (
          record { peer = peer; inbox = []; outbox = [] },
          record {
            between = record { peer = peer; inbox = []; outbox = ipc_message_to_bytes reply };
            written = ap (λ w'. (done tt, w')) (served msg w h k.0 k.1);
            answered =
                fetched (ipc_message_to_bytes reply) peer
                  (length-ipc_message_to_bytes reply (D.respond-IsMessage msg w.peer h));
          },
          refl,
          (refl, refl),
        );
  }
