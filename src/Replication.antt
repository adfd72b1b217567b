-- ===== src/Replication.antt =====
-- ReplicationManager (RediCraft-Server/src/replication.cpp, include/replication.h). Sockets and
-- threads are outside the model: starting a listener or a connection reports whether it threw, and
-- the threads of master_threads_ are counted. The detached threads that the accept loop makes for its
-- connections are not counted, and a join is taken to return.
pub mod Snapshot
pub mod Slave
pub mod Master
use redi_craft.Prelude.{
  ℕ, ◌+◌, Bool, true, false, [], ◌∷◌, ◌++◌, ◌==◌, ltb, Option, none, some, if◌then◌else◌, take,
  Bytes, codes, bytes_eq,
}
use redi_craft.Prelude.Int.{ℤ, pos}
use redi_craft.Number.{to_string}
use redi_craft.Storage.{Storage}

pub data ReplicationRole : Type 0 where
  master slave : ReplicationRole

pub record ReplicationManager : Type 0 where
  pub role : ReplicationRole
  pub master_running : Bool
  pub master_threads : ℕ
  pub slave_connected : Bool
  pub master_host : Bytes
  pub master_port : ℤ

-- the constructor
abbrev pub new_manager : ReplicationRole → ReplicationManager
new_manager role = record {
  role = role;
  master_running = false;
  master_threads = 0;
  slave_connected = false;
  master_host = [];
  master_port = pos 0;
}

unfoldable pub set_replication_role : ReplicationRole → ReplicationManager → ReplicationManager
set_replication_role role m = record m { role = role }

-- startMaster behind its test of the role: `listens` is whether nothing threw, `cores` is
-- hardware_concurrency(). A start makes num_threads + 1 threads; `made` is how many of them were made
-- before an exception, so num_threads at most. A start over threads that a failed one has left
-- replaces the io_context that they run on, which is undefined; here it adds to them.
unfoldable pub start_as_master :
    ReplicationRole → Bool → ℕ → ℕ → ReplicationManager → ReplicationManager
start_as_master slave listens cores made m = m
start_as_master master listens cores made m =
    if m.master_running
    then m
    else (let num_threads = if cores == 0 then 4 else cores in
        if listens
        then record m { master_running = true; master_threads = m.master_threads + 1 + num_threads }
        else record m {
          master_running = false;
          master_threads = m.master_threads + (if ltb made num_threads then made else num_threads);
        })

unfoldable pub start_master : Bool → ℕ → ℕ → ReplicationManager → ReplicationManager
unfolding start_as_master
start_master listens cores made m = start_as_master m.role listens cores made m

unfoldable pub stop_master : ReplicationManager → ReplicationManager
stop_master m =
    if m.master_running then record m { master_running = false; master_threads = 0 } else m

-- startSlave behind its test of the role; `opens` is whether socket and thread were made
unfoldable pub start_as_slave :
    ReplicationRole → Bool → Bytes → ℤ → ReplicationManager → ReplicationManager
start_as_slave master opens host port m = m
start_as_slave slave opens host port m =
    if m.slave_connected
    then m
    else record m { master_host = host; master_port = port; slave_connected = opens }

unfoldable pub start_slave : Bool → Bytes → ℤ → ReplicationManager → ReplicationManager
unfolding start_as_slave
start_slave opens host port m = start_as_slave m.role opens host port m

unfoldable pub stop_slave : ReplicationManager → ReplicationManager
stop_slave m = if m.slave_connected then record m { slave_connected = false } else m

unfoldable pub get_replication_role : ReplicationManager → ReplicationRole
get_replication_role m = m.role

-- the destructor with that of the members: the threads that are still in master_threads_ behind
-- stopMaster and stopSlave have not been joined, and their destructor calls std::terminate, `none`.
-- slave_thread_ is joinable only while slave_connected_ is set, so it is not behind stopSlave.
unfoldable pub destroy : ReplicationManager → Option ReplicationManager
unfolding stop_master stop_slave
destroy m = let m' = stop_slave (stop_master m) in if m'.master_threads == 0 then some m' else none

-- what processReplicationCommand reports
pub data Verdict : Type 0 where
  applying_set applying_del applying_hset applying_lpush unknown_command : Verdict

-- the report, and the storage that the call leaves
unfoldable pub process_replication_command : Bytes → Storage → Verdict × Storage
process_replication_command command s =
    if bytes_eq (take 3 command) (codes "SET")
    then (applying_set, s)
    else if bytes_eq (take 3 command) (codes "DEL")
    then (applying_del, s)
    else if bytes_eq (take 4 command) (codes "HSET")
    then (applying_hset, s)
    else if bytes_eq (take 5 command) (codes "LPUSH")
    then (applying_lpush, s)
    else (unknown_command, s)

-- `now` is the clock in milliseconds
unfoldable generate_replication_log : ℤ → Bytes → Bytes
generate_replication_log now command = codes "REPL:" ++ (to_string now ++ (codes ":" ++ command))

unfoldable pub generate_storage_snapshot : Storage → Bytes
generate_storage_snapshot s =
    (codes "SNAPSHOT_START" ++ 13 ∷ 10 ∷ [])
    ++ ((codes "SNAPSHOT_DATA:placeholder" ++ 13 ∷ 10 ∷ [])
        ++ (codes "SNAPSHOT_END" ++ 13 ∷ 10 ∷ []))
