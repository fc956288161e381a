-- ===== src/Examples/Stores.antt =====
-- Values that are set on a daemon and asked for, over a connection to it.
use swupdate_rs.Common.{All, refl, ◌≡◌, [], ◌∷◌, List, replicate, arith}
use swupdate_rs.Error.{ok}
use swupdate_rs.Text.{codes}
use swupdate_rs.Text.Lossy.{fit}
use swupdate_rs.Control.Client.{ControlClient}
use swupdate_rs.Control.Calls.{acknowledged, var, Daemon, session}
use swupdate_rs.Control.Calls.Serving.{Connection, serving, serving_carries}
use swupdate_rs.Control.Calls.Store.{Keeps, session-set_swupdate_var}
use swupdate_rs.Control.Messages.{set_swupdate_var_message, get_swupdate_var_message}
use swupdate_rs.Control.Messages.Formed.{edited-Accepted, with_body}
use swupdate_rs.Control.Messages.Formed as Call
use swupdate_rs.Control.Messages.Seen.{set_swupdate_var_fields}
use swupdate_rs.Wire.Layout.Slots.{msg_data_size}
use swupdate_rs.Wire.Message.{msg_type, new, zeroed}
use swupdate_rs.Wire.Message.Edits.{Edit, IsEdit, perform_all}
use swupdate_rs.Wire.Message.Texts.{texts}
use swupdate_rs.Wire.MsgType.{MsgType}
use swupdate_rs.Wire.MsgType as MsgType

-- The daemon has one variable, and answers by an acknowledgement that carries it.
abbrev fields : List Edit
fields = texts (set_swupdate_var_fields (codes "u-boot") (codes "slot") (codes "a"))

fields-IsEdit : All IsEdit fields
fields-IsEdit = omega arith

abbrev single : Daemon
single = record {
  State = Unit {0};
  respond = λ m d. (with_body MsgType.ack (perform_all fields (replicate msg_data_size 0)), d);
  respond-IsMessage = λ m d h. (edited-Accepted MsgType.ack fields fields-IsEdit).0;
}

keeps :
    Keeps single
      (set_swupdate_var_message (codes "u-boot") (codes "slot") (codes "a"))
      (get_swupdate_var_message (codes "u-boot") (codes "slot"))
unfolding set_swupdate_var_message new zeroed msg_type
keeps = record { confirmed = λ d. MsgType.from_i32-as_i32 MsgType.ack; given_back = λ d. refl }

abbrev client : ControlClient (serving single)
client = record {
  stream = codes "/tmp/sockinstctrl";
  config = record { ctrl_path = []; progress_path = []; connect_timeout = 5_000 };
}

abbrev quiet : Connection single
quiet = record { peer = tt; inbox = []; outbox = [] }

session-set_swupdate_var_example :
    (session
      (serving single)
      client
      (Call.set_swupdate_var (codes "u-boot") (codes "slot") (codes "a")
        ∷ Call.get_swupdate_var (codes "u-boot") (codes "slot")
        ∷ [])
      quiet).0
    ≡ ok acknowledged
      ∷ ok (
          var (record {
            namespace = fit 255 (codes "u-boot");
            name = fit 255 (codes "slot");
            value = fit 255 (codes "a");
          }))
      ∷ []
session-set_swupdate_var_example =
    session-set_swupdate_var (serving single) single (serving_carries single) client
      (codes "u-boot") (codes "slot") (codes "a") quiet keeps (omega arith) (refl, refl)
