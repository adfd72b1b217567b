-- ===== src/Replication/Slave.antt =====
-- The slave's side of replication (RediCraft-Server/src/replication.cpp): the loop that connects to
-- the master and the loop that reads its commands. What the network answers in each round is an
-- argument; a list ends where slave_connected_ is found cleared.
use redi_craft.Prelude.{ℕ, ◌+◌, ◌*◌, ◌≡◌, refl, List, [], ◌∷◌, ◌++◌, map, map-append, arith, Bytes}
use redi_craft.Sockets.{Read, received, got, ended, failed, threw}
use redi_craft.Storage.{Storage, init}
use redi_craft.Replication.{Verdict, process_replication_command}

-- handleMasterCommands: the reports of the commands, and the storage that they leave
unfoldable pub handle_master_commands : List Read → Storage → List Verdict × Storage
handle_master_commands [] s = ([], s)
handle_master_commands (got command ∷ rest) s =
    let (v, s') = process_replication_command command s in
    let (vs, s'') = handle_master_commands rest s' in (v ∷ vs, s'')
handle_master_commands (ended ∷ rest) s = ([], s)
handle_master_commands (failed ∷ rest) s = ([], s)
handle_master_commands (threw ∷ rest) s = ([], s)

-- one round of slaveConnectLoop: the step that fails, or the reads of the connection
pub data Attempt : Type 0 where
  unresolved refused broken : Attempt
  connected : List Read → Attempt

-- what the loop has done: the reports, the seconds slept and the storage
pub record SlaveRun : Type 0 where
  pub reports : List Verdict
  pub slept : ℕ
  pub storage : Storage

abbrev reported : List Verdict → SlaveRun → SlaveRun
reported vs run = record run { reports = vs ++ run.reports }

abbrev after_sleep : SlaveRun → SlaveRun
after_sleep run = record run { slept = 5 + run.slept }

unfoldable pub slave_connect_loop : List Attempt → Storage → SlaveRun
unfolding handle_master_commands
slave_connect_loop [] s = record { reports = []; slept = 0; storage = s }
slave_connect_loop (unresolved ∷ rest) s = after_sleep (slave_connect_loop rest s)
slave_connect_loop (refused ∷ rest) s = after_sleep (slave_connect_loop rest s)
slave_connect_loop (broken ∷ rest) s = after_sleep (slave_connect_loop rest s)
slave_connect_loop (connected reads ∷ rest) s =
    let (vs, s') = handle_master_commands reads s in reported vs (slave_connect_loop rest s')

abbrev failures : List Attempt → ℕ
failures [] = 0
failures (connected reads ∷ rest) = failures rest
failures (_ ∷ rest) = 1 + failures rest

abbrev commands : List Attempt → List Bytes
commands [] = []
commands (connected reads ∷ rest) = received reads ++ commands rest
commands (_ ∷ rest) = commands rest

process-storage : (command : Bytes) (s : Storage) → (process_replication_command command s).1 ≡ s
unfolding process_replication_command
process-storage command s = ground arith

-- what the slave reports of a command, whatever it holds
abbrev report_of : Bytes → Verdict
report_of command = (process_replication_command command init).0

process-report :
    (command : Bytes) (s : Storage) → (process_replication_command command s).0 ≡ report_of command
unfolding process_replication_command
process-report command s = ground arith

pub handle_master_commands_lem :
    (reads : List Read) (s : Storage)
    → handle_master_commands reads s ≡ (map report_of (received reads), s)
unfolding handle_master_commands
handle_master_commands_lem [] s = refl
handle_master_commands_lem (got command ∷ rest) s =
    rw (process-storage command s, process-report command s, handle_master_commands_lem rest s) refl
handle_master_commands_lem (ended ∷ rest) s = refl
handle_master_commands_lem (failed ∷ rest) s = refl
handle_master_commands_lem (threw ∷ rest) s = refl

times_suc : (n : ℕ) → 5 + 5 * n ≡ 5 * (1 + n)
times_suc n = omega arith

-- Whatever the network answers and the master sends: the slave sleeps five seconds for each attempt
-- that fails, and for no other; it reports each command that it reads before a read fails; and its
-- storage is what it was when replication began.
pub slave_connect_loop_lem :
    (attempts : List Attempt) (s : Storage)
    → slave_connect_loop attempts s ≡ record {
      reports = map report_of (commands attempts);
      slept = 5 * failures attempts;
      storage = s;
    }
unfolding slave_connect_loop
slave_connect_loop_lem [] s = refl
slave_connect_loop_lem (unresolved ∷ rest) s =
    rw (slave_connect_loop_lem rest s, times_suc (failures rest)) refl
slave_connect_loop_lem (refused ∷ rest) s =
    rw (slave_connect_loop_lem rest s, times_suc (failures rest)) refl
slave_connect_loop_lem (broken ∷ rest) s =
    rw (slave_connect_loop_lem rest s, times_suc (failures rest)) refl
slave_connect_loop_lem (connected reads ∷ rest) s =
    rw
      (
        handle_master_commands_lem reads s,
        slave_connect_loop_lem rest s,
        map-append report_of (received reads) (commands rest),
      )
      refl
