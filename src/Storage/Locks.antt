-- ===== src/Storage/Locks.antt =====
-- The mutexes of Storage (RediCraft-Server/src/storage.cpp): the calls of std::shared_mutex that each
-- method makes, in order, with those of its lock guards. The other modules model what the bodies do
-- to the tables; here is the order of their locks, for one thread that no other thread disturbs.
-- The standard leaves it undefined to lock a mutex that the thread owns in any mode, and to release
-- one in a mode in which the thread does not own it: `none`.
pub mod Faults
pub mod Threads
pub mod Guards
pub mod Liveness
use redi_craft.Prelude.{Bool, true, false, Option, none, some, List, [], ◌∷◌, ◌++◌, if◌then◌else◌}
use redi_craft.Storage.{Kind, strings, hashes, lists, sets}

pub data Mode : Type 0 where
  exclusive shared : Mode

-- lock and unlock in a mode: lock(), lock_shared(), unlock(), unlock_shared()
pub data Call : Type 0 where
  acquire release : Mode → Kind → Call

-- what the thread owns of the four mutexes
abbrev pub Owned : Type 0
Owned = Kind → Option Mode

abbrev pub nothing_owned : Owned
nothing_owned k = none

unfoldable pub same_kind : Kind → Kind → Bool
same_kind strings strings = true
same_kind hashes hashes = true
same_kind lists lists = true
same_kind sets sets = true
same_kind _ _ = false

unfoldable pub own : Kind → Option Mode → Owned → Owned
unfolding same_kind
own k m owned j = if same_kind k j then m else owned j

-- an acquisition, by what the thread owns of the mutex
unfoldable pub acquired : Option Mode → Mode → Kind → Owned → Option Owned
unfolding own
acquired none m k owned = some (own k (some m) owned)
acquired (some _) m k owned = none

unfoldable pub released : Option Mode → Mode → Kind → Owned → Option Owned
unfolding own
released (some exclusive) exclusive k owned = some (own k none owned)
released (some shared) shared k owned = some (own k none owned)
released _ m k owned = none

unfoldable pub call : Call → Owned → Option Owned
unfolding acquired released
call (acquire m k) owned = acquired (owned k) m k owned
call (release m k) owned = released (owned k) m k owned

unfoldable pub run : List Call → Owned → Option Owned
unfolding call
run [] owned = some owned
run (c ∷ cs) owned = elim (call c owned) [ none ↦ none | some owned' ↦ run cs owned' ]

-- A block that has found an expired item: string_mutex_.unlock(), a unique_lock, and the ends of
-- both guards. Otherwise only the shared guard ends.
unfoldable pub guard_end : Bool → Kind → List Call
guard_end true k =
    release exclusive k ∷ acquire exclusive k ∷ release exclusive k ∷ release shared k ∷ []
guard_end false k = release shared k ∷ []

-- one block of remove_expired
unfoldable purge_calls : (Kind → Bool) → Kind → List Call
unfolding guard_end
purge_calls expired k = acquire shared k ∷ guard_end (expired k) k

unfoldable pub remove_expired_calls : (Kind → Bool) → List Call
unfolding purge_calls
remove_expired_calls expired =
    purge_calls expired strings
    ++ (purge_calls expired hashes ++ (purge_calls expired lists ++ purge_calls expired sets))

-- the methods that lock one mutex for their whole body and call remove_expired
pub data Method : Type 0 where
  set get incr decr incrby hset hget hgetall : Method
  lpush rpop lrange sadd srem sismember smembers scard : Method

-- the guard at the head of the method
unfoldable guard_of : Method → Mode × Kind
guard_of set = (exclusive, strings)
guard_of get = (shared, strings)
guard_of incr = (exclusive, strings)
guard_of decr = (exclusive, strings)
guard_of incrby = (exclusive, strings)
guard_of hset = (exclusive, hashes)
guard_of hget = (shared, hashes)
guard_of hgetall = (shared, hashes)
guard_of lpush = (exclusive, lists)
guard_of rpop = (exclusive, lists)
guard_of lrange = (shared, lists)
guard_of sadd = (exclusive, sets)
guard_of srem = (exclusive, sets)
guard_of sismember = (shared, sets)
guard_of smembers = (shared, sets)
guard_of scard = (shared, sets)

unfoldable pub method_calls : Method → (Kind → Bool) → List Call
unfolding remove_expired_calls guard_of
method_calls method expired =
    let (m, k) = guard_of method in acquire m k ∷ (remove_expired_calls expired ++ release m k ∷ [])

-- expire: one guard a table, up to the first table that has the key
unfoldable pub expire_calls : (Kind → Bool) → List Kind → List Call
expire_calls found [] = []
expire_calls found (k ∷ ks) =
    let later = expire_calls found ks in
    acquire exclusive k ∷ release exclusive k ∷ (if found k then [] else later)

-- ttl: a shared guard a table, up to the first table that has the key
unfoldable pub ttl_calls : (Kind → Bool) → (Kind → Bool) → List Kind → List Call
unfolding guard_end
ttl_calls found expired [] = []
ttl_calls found expired (k ∷ ks) =
    let later = ttl_calls found expired ks in
    acquire shared k ∷ (if found k then guard_end (expired k) k else release shared k ∷ later)

abbrev pub all_kinds : List Kind
all_kinds = strings ∷ hashes ∷ lists ∷ sets ∷ []
