-- ===== src/Examples/Sockets.antt =====
-- Where the sockets are looked for.
use swupdate_rs.Common.{refl}
use swupdate_rs.Error.{err, invalid_path}
use swupdate_rs.Socket.{connect_progress}
use swupdate_rs.Runtime.Memory.{memory, World}
use swupdate_rs.Text.{Text, codes}
use swupdate_rs.Progress.Client.{bytes_eq}
use swupdate_rs.Common.{◌≡◌, if◌then◌else◌, some, none, false, []}
use swupdate_rs.Error.{ok}
use swupdate_rs.Socket.{default, connect_socket}

-- Only TMPDIR is set, and only one file exists.
abbrev machine : World
machine = record {
  env = λ (name : Text). if bytes_eq name (codes "TMPDIR") then some (codes "/var/tmp") else none;
  present = λ (path : Text). bytes_eq path (codes "/var/tmp/sockinstctrl");
  slow = false;
  sent = [];
  answers = [];
  input = [];
  version = none;
}

abbrev ctrl : Text
ctrl = codes "/var/tmp/sockinstctrl"

abbrev progress : Text
progress = codes "/var/tmp/swupdateprog"

-- Both are looked for in TMPDIR, and one of them is there.
found : connect_socket memory (default memory machine) ctrl machine ≡ (ok ctrl, machine)
unfolding connect_socket bytes_eq
found = refl

missing :
    connect_progress memory (default memory machine) machine
    ≡ (err (invalid_path progress), machine)
unfolding connect_progress default bytes_eq
missing = refl
