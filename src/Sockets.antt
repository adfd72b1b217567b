-- ===== src/Sockets.antt =====
-- What the loops of RediCraft-Server/src/cluster.cpp and src/replication.cpp get from asio: the
-- outcome of accept and of read_some. A loop is a function of the outcomes of its rounds.
use redi_craft.Prelude.{Bool, true, List, [], ◌∷◌, Bytes}

-- the outcome of read_some: bytes, the end of the stream, another error code, an exception
pub data Read : Type 0 where
  got : Bytes → Read
  ended failed threw : Read

-- the outcome of accept: a connection, an error code, an exception
pub data Accept (A : Type 0) : Type 0 where
  accepted : A → Accept A
  unaccepted crashed : Accept A

-- the bytes that came before the first read that is none
abbrev pub received : List Read → List Bytes
received (got command ∷ rest) = command ∷ received rest
received _ = []

-- The connections that were accepted before the listener was told to stop; each round has the flag
-- that the loop finds behind accept.
abbrev pub connections : {A : Type 0} → List (Accept A × Bool) → List A
connections ((accepted x, true) ∷ rounds) = x ∷ connections rounds
connections ((unaccepted, true) ∷ rounds) = connections rounds
connections ((crashed, true) ∷ rounds) = connections rounds
connections _ = []
