-- ===== src/Server/Main.antt =====
-- main (RediCraft-Server/src/main.cpp) as a whole: the configuration, the port that the server
-- listens at, and the threads that run the io_context. `binds` is whether the acceptor can be made at
-- a port, `cores` is hardware_concurrency(), and `room` is how many threads can be made for the
-- io_context before making one throws.
use redi_craft.Prelude.{
  ℕ, ◌-◌, ◌%◌, ◌^◌, Bool, Option, none, some, ltb, leb, ◌==◌, if◌then◌else◌, Bytes,
}
use redi_craft.Prelude.Int.{ℤ, pos, negsuc}
use redi_craft.Config.{Config, default_config, load}
use redi_craft.Config.Accessors.{get_port, Setting, port_key, number}
use redi_craft.Server.{Host, Server, destroy}
use redi_craft.Server.Startup.{configure}

-- modulo 65536
abbrev pub word16 : ℤ → ℕ
word16 (pos n) = n % 2 ^ 16
word16 (negsuc n) = 2 ^ 16 - 1 - n % 2 ^ 16

abbrev signed16 : ℕ → ℤ
signed16 w = if ltb w (2 ^ 15) then pos w else negsuc (2 ^ 16 - 1 - w)

-- the port of the configuration as the `short` of Server's constructor
unfoldable to_short : ℤ → ℤ
to_short n = signed16 (word16 n)

-- and that as the unsigned short of tcp::endpoint
unfoldable listening_port : ℤ → ℕ
unfolding to_short
listening_port port = word16 (to_short port)

-- where main has come: its threads run the io_context, which the work guard keeps going, so that main
-- never returns; or it has returned an exit code; or std::terminate has ended the process
pub data Course : Type 0 where
  running returned : ℕ → Course
  terminated : Course

pub record Process : Type 0 where
  pub loaded : Bool
  pub listening : Option ℕ
  pub server : Option Server
  pub course : Course

-- the process behind the end of the `try` block, with no server left
stopped : Bool → Course → Process
stopped loaded course = record { loaded = loaded; listening = none; server = none; course = course }

-- An exception while the threads are made. Those that there are stand in `threads`, whose destructor
-- comes first and terminates the process if they have not been joined. With none, the server is
-- destroyed, and main catches the exception and returns.
unfoldable unwind : ℕ → Bool → Server → Process
unfolding stopped
unwind made loaded server =
    stopped loaded
      (if made == 0 then (if destroy server then returned 0 else terminated) else terminated)

-- main behind the reading of the file, at a port
unfoldable launch : Host → (ℕ → Bool) → ℕ → ℕ → Bool → Config → ℕ → Process
unfolding stopped unwind
launch host binds cores room loaded config port =
    let num_threads = if cores == 0 then 4 else cores in
    if binds port
    then (if leb num_threads room
        then record {
          loaded = loaded;
          listening = some port;
          server = some (configure host config);
          course = running num_threads;
        }
        else unwind room loaded (configure host config))
    else stopped loaded (returned 0)

unfoldable pub main : Host → (ℕ → Bool) → ℕ → ℕ → Option Bytes → Process
unfolding launch listening_port
main host binds cores room file =
    let (loaded, config) = load file default_config in
    launch host binds cores room loaded config (listening_port (get_port config))

-- a setting that is not the port
abbrev pub IsOther : Setting → Type 0
IsOther (number port_key n) = ⊥
IsOther _ = Unit
