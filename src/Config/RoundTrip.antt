-- ===== src/Config/RoundTrip.antt =====
-- What Config::load (RediCraft-Server/src/config.cpp) reads of a file of settings, one to a line.
use redi_craft.Prelude.{
  ◌≡◌, refl, ap, ◌∙◌, ◌≢◌, Bool, true, false, none, some, List, [], ◌∷◌, ◌++◌, map, arith, ◌==◌,
  if◌then◌else◌, All, All-append, Bytes, codes, bytes_eq,
}
use redi_craft.Prelude.Int.{ℤ, IsInt32}
use redi_craft.Table.{assign}
use redi_craft.Number.{to_string, stoi}
use redi_craft.Number.RoundTrip.{stoi-to_string, to_string-All}
use redi_craft.Lines.{cut, unlines}
use redi_craft.Lines.Laws.{Lacks, lines-unlines}
use redi_craft.Config.{
  Config, is_blank, trim_left, is_nil, trim_right, trim, is_true, int_or, update, load_pair,
  load_line, load_lines, load,
}
use redi_craft.Config.Accessors.{
  NumberKey, TextKey, FlagKey, Setting, apply, settings_of, port_key, persistence_interval_key,
  replication_port_key, master_port_key, cluster_port_key, host_key, persistence_file_key,
  replication_role_key, master_host_key, persistence_enabled_key, replication_enabled_key,
  clustering_enabled_key, number, text, flag,
}

-- the words of a configuration file
abbrev pub number_word : NumberKey → Bytes
number_word port_key = codes "port"
number_word persistence_interval_key = codes "persistence_interval"
number_word replication_port_key = codes "replication_port"
number_word master_port_key = codes "master_port"
number_word cluster_port_key = codes "cluster_port"

abbrev text_word : TextKey → Bytes
text_word host_key = codes "host"
text_word persistence_file_key = codes "persistence_file"
text_word replication_role_key = codes "replication_role"
text_word master_host_key = codes "master_host"

abbrev flag_word : FlagKey → Bytes
flag_word persistence_enabled_key = codes "persistence_enabled"
flag_word replication_enabled_key = codes "replication_enabled"
flag_word clustering_enabled_key = codes "clustering_enabled"

-- key=value
abbrev key_of : Setting → Bytes
key_of (number k n) = number_word k
key_of (text k s) = text_word k
key_of (flag k b) = flag_word k

abbrev pub value_of : Setting → Bytes
value_of (number k n) = to_string n
value_of (text k s) = s
value_of (flag k b) = if b then codes "true" else codes "false"

abbrev pub setting_line : Setting → Bytes
setting_line x = key_of x ++ (b'=' ∷ value_of x)

-- A number is an `int`; a text has no line break and no blank at its ends.
abbrev pub IsWritable : Setting → Type 0
IsWritable (number k n) = IsInt32 n
IsWritable (text k s) = Lacks 10 s × (trim s ≡ s)
IsWritable (flag k b) = Unit

-- the setter, and the entry in config_values_
abbrev pub enter : Setting → Config → Config
enter x c = apply x (record c { config_values = assign (key_of x) (value_of x) c.config_values })

abbrev pub enter_all : List Setting → Config → Config
enter_all [] c = c
enter_all (x ∷ rest) c = enter_all rest (enter x c)

trim_left-solid : (s : Bytes) → All (λ c. is_blank c ≡ false) s → trim_left s ≡ s
unfolding trim_left
trim_left-solid [] h = refl
trim_left-solid (c ∷ s) (h, hs) = rw h refl

trim_right-solid : (s : Bytes) → All (λ c. is_blank c ≡ false) s → trim_right s ≡ s
unfolding trim_right
trim_right-solid [] h = refl
trim_right-solid (c ∷ s) (h, hs) = rw (h, trim_right-solid s hs) refl

trim-to_string : (n : ℤ) → trim (to_string n) ≡ to_string n
unfolding trim
trim-to_string n =
    let solid =
      to_string-All (λ c. is_blank c ≡ false) refl (λ d lt. unfold is_blank in ground arith) n in
    ap trim_right (trim_left-solid (to_string n) solid) ∙ trim_right-solid (to_string n) solid

Lacks-to_string : (n : ℤ) → Lacks 10 (to_string n)
Lacks-to_string n =
    to_string-All (λ c. c ≢ 10) (λ e. omega (arith, e)) (λ d lt e. omega (arith, e)) n

load_line-setting :
    (x : Setting) (c : Config) → IsWritable x → load_line (setting_line x) c ≡ enter x c
unfolding load_line cut load_pair update apply trim is_blank is_nil bytes_eq int_or is_true
load_line-setting (number port_key n) c h = rw (trim-to_string n, stoi-to_string n h) refl
load_line-setting (number persistence_interval_key n) c h =
    rw (trim-to_string n, stoi-to_string n h) refl
load_line-setting (number replication_port_key n) c h =
    rw (trim-to_string n, stoi-to_string n h) refl
load_line-setting (number master_port_key n) c h = rw (trim-to_string n, stoi-to_string n h) refl
load_line-setting (number cluster_port_key n) c h = rw (trim-to_string n, stoi-to_string n h) refl
load_line-setting (text host_key s) c (h, t) = rw t refl
load_line-setting (text persistence_file_key s) c (h, t) = rw t refl
load_line-setting (text replication_role_key s) c (h, t) = rw t refl
load_line-setting (text master_host_key s) c (h, t) = rw t refl
load_line-setting (flag persistence_enabled_key true) c h = refl
load_line-setting (flag persistence_enabled_key false) c h = refl
load_line-setting (flag replication_enabled_key true) c h = refl
load_line-setting (flag replication_enabled_key false) c h = refl
load_line-setting (flag clustering_enabled_key true) c h = refl
load_line-setting (flag clustering_enabled_key false) c h = refl

load_lines-settings :
    (xs : List Setting) (c : Config)
    → All IsWritable xs
    → load_lines (map setting_line xs) c ≡ enter_all xs c
unfolding load_lines
load_lines-settings [] c h = refl
load_lines-settings (x ∷ xs) c (h, hs) =
    ap (load_lines (map setting_line xs)) (load_line-setting x c h)
    ∙ load_lines-settings xs (enter x c) hs

Lacks-word :
    (word value : Bytes) → Lacks 10 word → Lacks 10 value → Lacks 10 (word ++ (b'=' ∷ value))
Lacks-word word value h k = All-append _ word (b'=' ∷ value) h ((λ e. omega (arith, e)), k)

-- whether a text has a line break
abbrev has_break : Bytes → Bool
has_break [] = false
has_break (c ∷ s) = if c == 10 then true else has_break s

number_word-plain : (k : NumberKey) → has_break (number_word k) ≡ false
number_word-plain port_key = refl
number_word-plain persistence_interval_key = refl
number_word-plain replication_port_key = refl
number_word-plain master_port_key = refl
number_word-plain cluster_port_key = refl

text_word-plain : (k : TextKey) → has_break (text_word k) ≡ false
text_word-plain host_key = refl
text_word-plain persistence_file_key = refl
text_word-plain replication_role_key = refl
text_word-plain master_host_key = refl

flag_word-plain : (k : FlagKey) → has_break (flag_word k) ≡ false
flag_word-plain persistence_enabled_key = refl
flag_word-plain replication_enabled_key = refl
flag_word-plain clustering_enabled_key = refl

Lacks-plain : (word : Bytes) → has_break word ≡ false → Lacks 10 word
Lacks-plain [] h = tt
Lacks-plain (c ∷ word) h = ((λ e. ground (arith, e)), Lacks-plain word (ground arith))

true_plain : Lacks 10 (codes "true")
true_plain = Lacks-plain (codes "true") refl

false_plain : Lacks 10 (codes "false")
false_plain = Lacks-plain (codes "false") refl

setting_line-Lacks : (x : Setting) → IsWritable x → Lacks 10 (setting_line x)
setting_line-Lacks (number k n) h =
    Lacks-word (number_word k) (to_string n) (Lacks-plain _ (number_word-plain k))
      (Lacks-to_string n)
setting_line-Lacks (text k s) (h, t) =
    Lacks-word (text_word k) s (Lacks-plain _ (text_word-plain k)) h
setting_line-Lacks (flag k true) h =
    Lacks-word (flag_word k) (codes "true") (Lacks-plain _ (flag_word-plain k)) true_plain
setting_line-Lacks (flag k false) h =
    Lacks-word (flag_word k) (codes "false") (Lacks-plain _ (flag_word-plain k)) false_plain

setting_lines-Lacks : (xs : List Setting) → All IsWritable xs → All (Lacks 10) (map setting_line xs)
setting_lines-Lacks [] h = tt
setting_lines-Lacks (x ∷ xs) (h, hs) = (setting_line-Lacks x h, setting_lines-Lacks xs hs)

-- Loading a file of settings, one to a line as `key=value`, does what calling their setters in turn
-- does, and records each value in config_values_. The settings are writable: a number is an `int`,
-- and a text has no line break and no blank at its ends.
pub load-settings :
    (xs : List Setting) (c : Config)
    → All IsWritable xs
    → load (some (unlines (map setting_line xs))) c ≡ (true, enter_all xs c)
unfolding load
load-settings xs c h =
    ap (λ ls. (true, load_lines ls c))
      (lines-unlines (map setting_line xs) (setting_lines-Lacks xs h))
    ∙ ap (λ d. (true, d)) (load_lines-settings xs c h)

-- A configuration whose settings are written to a file, one to a line, gives the same settings when
-- the file is loaded into any other configuration. The settings are writable: a number is an `int`,
-- and a text has no line break and no blank at its ends.
pub settings_of-load :
    (c d : Config)
    → All IsWritable (settings_of c)
    → settings_of (load (some (unlines (map setting_line (settings_of c)))) d).1 ≡ settings_of c
settings_of-load c d h =
    ap (λ (r : Bool × Config). settings_of r.1) (load-settings (settings_of c) d h)
    ∙ (unfold settings_of apply in refl)

-- A line with the word of a number and a value that std::stoi rejects leaves every setting as it was:
-- it is recorded in config_values_ only.
pub load_line-invalid :
    (k : NumberKey) (value : Bytes) (c : Config)
    → stoi (trim value) ≡ none
    → load_line (number_word k ++ (b'=' ∷ value)) c
      ≡ record c { config_values = assign (number_word k) (trim value) c.config_values }
unfolding load_line cut load_pair update trim trim_left trim_right is_blank is_nil bytes_eq int_or
load_line-invalid port_key value c h = rw h refl
load_line-invalid persistence_interval_key value c h = rw h refl
load_line-invalid replication_port_key value c h = rw h refl
load_line-invalid master_port_key value c h = rw h refl
load_line-invalid cluster_port_key value c h = rw h refl
