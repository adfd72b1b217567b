-- ===== src/Persistence/Commands.antt =====
-- Saving a storage that the commands of a session have filled, and loading it again
-- (RediCraft-Server/src/persistence.cpp, session.cpp, parser.cpp).
use redi_craft.Prelude.{◌≡◌, true, Option, List, [], ◌∷◌, Bytes}
use redi_craft.Table.{find}
use redi_craft.Parser.Tokens.Laws.{IsToken}
use redi_craft.Storage.{Storage, init, Readings, strings}
use redi_craft.Storage.Invariant.{IsClosed, IsStoreOf}
use redi_craft.Storage.Strings.{get}
use redi_craft.Session.Replies.{Clock}
use redi_craft.Session.{handle_command}
use redi_craft.Session.Keeps.{handle_command-IsStoreOf}
use redi_craft.Persistence.{SaveClock, save_to_file, load_from_file}
use redi_craft.Persistence.Texts.{PlainKeys}
use redi_craft.Persistence.OneLine.{
  IsOneLine-IsClosed, IsToken-IsOneLine, init-IsStoreOf, saved_lines-IsOneLine,
}
use redi_craft.Persistence.RoundTrip.{saved_text, IsSavable, get-load_from_file}

-- the storage behind texts that sessions hand to handle_command, each at its clock
unfoldable pub handle_commands : List (Clock × Bytes) → Storage → Storage
handle_commands [] s = s
handle_commands ((c, text) ∷ rest) s = handle_commands rest (handle_command c text s).1

handle_commands-IsStoreOf :
    {Q : Bytes → Type 0} (closed : IsClosed Q) (commands : List (Clock × Bytes)) (s : Storage)
    → ((t : Bytes) → IsToken t → Q t)
    → IsStoreOf Q s
    → IsStoreOf Q (handle_commands commands s)
unfolding handle_commands
handle_commands-IsStoreOf closed [] s q w = w
handle_commands-IsStoreOf closed ((c, text) ∷ rest) s q w =
    handle_commands-IsStoreOf closed rest _ q (handle_command-IsStoreOf closed c text s q w)

-- handle_command is called with any texts, one after the other, on a storage that was empty, and a
-- PersistenceManager saves that storage to a file that can be opened and loads the file into an empty
-- one: GET of a key then returns, at any time, the text that the key had when it was saved, unless it
-- had an expiry that was not in the future. No key of a text has a '=', or a '[' at its head; that no
-- text holds a line break, and that no key is there twice, comes from the parser and the methods, and
-- need not be asked.
pub get-handle_commands :
    (commands : List (Clock × Bytes)) (old : Option Bytes) (at : SaveClock)
    (loading : List Bytes → Readings) (later : Readings) (j : Bytes)
    → PlainKeys (handle_commands commands init).string_data
    → let s = handle_commands commands init in
      (get later j (load_from_file loading (save_to_file at true s old).1 init).1).0
      ≡ saved_text (at strings j) (find j s.string_data)
get-handle_commands commands old at loading later j plain =
    let s = handle_commands commands init in
    let held =
      handle_commands-IsStoreOf IsOneLine-IsClosed commands init IsToken-IsOneLine
        (init-IsStoreOf _) in
    let savable : IsSavable at s = record {
      keys = held.texts.keys;
      plain = plain;
      one_line = saved_lines-IsOneLine at s held;
    } in
    get-load_from_file loading at s old later j savable
