-- ===== src/Replication/Snapshot.antt =====
-- What reaches a slave (RediCraft-Server/src/replication.cpp).
use redi_craft.Prelude.{◌≡◌, refl, bytes_eq}
use redi_craft.Storage.{Storage}
use redi_craft.Replication.{process_replication_command, generate_storage_snapshot, unknown_command}

-- A slave that receives a whole snapshot of a master in one read reports an unknown command and keeps
-- the storage that it had, whatever the master holds.
snapshot_ignored :
    (from to : Storage)
    → process_replication_command (generate_storage_snapshot from) to ≡ (unknown_command, to)
unfolding process_replication_command generate_storage_snapshot bytes_eq
snapshot_ignored from to = refl
