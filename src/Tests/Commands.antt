-- ===== src/Tests/Commands.antt =====
-- A storage that commands fill, saved and loaded (RediCraft-Server/src/persistence.cpp, session.cpp),
-- at a concrete run.
use redi_craft.Prelude.{
  ℕ, ◌≡◌, refl, ap, some, none, List, [], ◌∷◌, true, arith, get_or, Bytes, codes, bytes_eq,
  is_space, toupper,
}
use redi_craft.Table.{find, assign}
use redi_craft.Lines.Laws.{lacks, lacks-Lacks}
use redi_craft.Storage.{init, has_expired, purge, remove_expired}
use redi_craft.Storage.Lists.{back, pop_back, lpush}
use redi_craft.Storage.Strings.{get, set}
use redi_craft.Parser.{is_command, first_half, parse_tokens, parse}
use redi_craft.Parser.Tokens.{tokenize}
use redi_craft.Session.Replies.{Clock}
use redi_craft.Session.{handle_command, respond}
use redi_craft.Persistence.{is_saved, save_to_file, load_from_file}
use redi_craft.Persistence.Texts.{PlainKeys}
use redi_craft.Persistence.Commands.{handle_commands, get-handle_commands}
use redi_craft.Tests.{later, clock, key, other}
use redi_craft.Tests.Files.{saving, loading}

abbrev commands : List (Clock × Bytes)
commands = (clock, codes "set k 41") ∷ (clock, codes "lpush k a b") ∷ (clock, codes "SET j 8") ∷ []

commands-PlainKeys : PlainKeys (handle_commands commands init).string_data
unfolding find bytes_eq assign lacks has_expired purge remove_expired back pop_back lpush set
    is_command first_half parse_tokens parse tokenize handle_command handle_commands respond
    is_space toupper
commands-PlainKeys = (
  (lacks-Lacks 61 key refl, λ e. omega (arith, ap {B = ℕ} (λ t. get_or t 0 0) e)),
  ((lacks-Lacks 61 other refl, λ e. omega (arith, ap {B = ℕ} (λ t. get_or t 0 0) e)), tt),
)

get-handle_commands_example :
    (get later other
      (load_from_file loading
        (save_to_file saving true (handle_commands commands init) none).1
        init).1).0
    ≡ some (codes "8")
unfolding find bytes_eq assign has_expired purge remove_expired back pop_back lpush set is_command
    first_half parse_tokens parse tokenize handle_command handle_commands respond is_space toupper
    is_saved
get-handle_commands_example =
    get-handle_commands commands none saving loading later other commands-PlainKeys
