-- ===== src/Tests/Agents.antt =====
-- A state file, disks, and agents of the small host.
use rook_servicechannel_agen.Common.{String, none, some, []}
use rook_servicechannel_agen.Session.Store.{State, Store, boot_id_path, encode_state}
use rook_servicechannel_agen.Runtime.State.{Agent, new}
use rook_servicechannel_agen.Tests.Toy.{Disk, toy, put, sample}

abbrev pub store : Store
store = record { file = "/var/lib/rook/session.json" }

abbrev pub empty_disk : Disk
empty_disk path = none

abbrev pub boot_disk : String → Disk
boot_disk id = put boot_id_path (some id) empty_disk

abbrev pub saved_state : State
saved_state = record { session = sample; boot_id = "b1" }

abbrev pub agent : Disk → Agent Disk
agent disk = record {
  manager = new toy "http://console" "/var/lib/rook/session.json";
  world = disk;
  loops = [];
  next_loop = 0;
  delivered = [];
}

abbrev pub fresh_agent : Agent Disk
fresh_agent = agent (boot_disk "b1\n")

-- The agent after a boot with the given id, where a session is stored.
abbrev pub resumed : String → Agent Disk
resumed id =
    agent (put store.file (some (toy.print_indented (encode_state saved_state))) (boot_disk id))
