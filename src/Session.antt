-- ===== src/Session.antt =====
-- Session (RediCraft-Server/src/session.cpp): handle_command, and the alternation of reads and
-- writes of a connection. Sockets, buffers and the strand are asio's: here a connection receives
-- the outcome of each read and write, and the strand's promise is that it takes them in turn.
pub mod Replies
pub mod Calls
pub mod Cases
pub mod Keeps
pub mod Framing
pub mod Errors
pub mod EndToEnd
pub mod Order
pub mod Types
pub mod Decode
use redi_craft.Prelude.{
  ℕ, Bool, true, false, Option, none, some, List, [], ◌∷◌, ◌==◌, if◌then◌else◌, Bytes,
}
use redi_craft.Parser.{CommandType, parse}
use redi_craft.Storage.{Storage}
use redi_craft.Session.Replies.{Clock}
use redi_craft.Session.Calls.{Methods}
use redi_craft.Session.Cases.{respond_with}
use redi_craft.Storage.Strings
use redi_craft.Storage.Hashes
use redi_craft.Storage.Lists
use redi_craft.Storage.Sets
use redi_craft.Storage.Expiry

-- Storage, as the session calls it
abbrev pub storage_methods : Methods Storage
storage_methods = record {
  set = Strings.set;
  get = Strings.get;
  incr = Strings.incr;
  decr = Strings.decr;
  incrby = Strings.incrby;
  hset = Hashes.hset;
  hget = Hashes.hget;
  hgetall = Hashes.hgetall;
  lpush = Lists.lpush;
  rpop = Lists.rpop;
  lrange = Lists.lrange;
  sadd = Sets.sadd;
  srem = Sets.srem;
  sismember = Sets.sismember;
  smembers = Sets.smembers;
  scard = Sets.scard;
  expire = Expiry.expire;
  ttl = Expiry.ttl;
}

-- the switch of handle_command, on the storage
unfoldable pub respond : Clock → CommandType → List Bytes → Storage → Bytes × Storage
unfolding respond_with
respond c t args s = respond_with storage_methods c t args s

unfoldable pub handle_command : Clock → Bytes → Storage → Bytes × Storage
handle_command c text s = let cmd = parse text in respond c cmd.type cmd.args s

-- A connection waits for a read or for a write, or has been dropped with its last handler.
pub data Phase : Type 0 where
  reading writing closed : Phase

pub record Session : Type 0 where
  pub phase : Phase
  pub response : Bytes

-- start()
abbrev pub start : Session
start = record { phase = reading; response = [] }

-- std::remove of one byte, with erase
unfoldable pub remove_byte : ℕ → Bytes → Bytes
remove_byte b [] = []
remove_byte b (c ∷ s) = let rest = remove_byte b s in if c == b then rest else c ∷ rest

-- the handler of do_read; `none` is an error code
unfoldable pub on_read : Clock → Option Bytes → Session → Storage → Session × Storage
on_read c none session s = (record session { phase = closed }, s)
on_read c (some received) session s =
    let (r, s') = handle_command c (remove_byte 13 (remove_byte 10 received)) s in
    (record { phase = writing; response = r }, s')

-- the handler of do_write; `false` is an error code
unfoldable pub on_write : Bool → Session → Session
on_write false session = record session { phase = closed }
on_write true session = record { phase = reading; response = [] }
