-- ===== src/Tests/Settings.antt =====
-- The theorems on configuration files (RediCraft-Server/src/config.cpp) at concrete inputs.
use redi_craft.Prelude.{◌≡◌, refl, true, some, [], ◌∷◌, ◌++◌, map, arith, All, Bytes, codes}
use redi_craft.Prelude.Int.{pos}
use redi_craft.Table.{assign}
use redi_craft.Lines.{unlines}
use redi_craft.Number.{stoi}
use redi_craft.Config.{Config, default_config, trim, load_line, load}
use redi_craft.Config.Accessors.{
  set_port, set_replication_role, TextKey, settings_of, cluster_port_key, host_key,
  persistence_file_key, replication_role_key, master_host_key, text,
}
use redi_craft.Config.RoundTrip.{
  number_word, setting_line, IsWritable, settings_of-load, load_line-invalid,
}
use redi_craft.Lines.Laws.{lacks, lacks-Lacks}

-- A configuration that differs from the default one.
abbrev changed : Config
changed = set_port (pos 9000) (set_replication_role (codes "slave") default_config)

-- Its texts have no line break.
text-IsWritable : (k : TextKey) (s : Bytes) → lacks 10 s ≡ true → trim s ≡ s → IsWritable (text k s)
text-IsWritable k s h t = (lacks-Lacks 10 s h, t)

changed-IsWritable : All IsWritable (settings_of changed)
unfolding settings_of set_port set_replication_role trim lacks
changed-IsWritable = (
  (omega arith, omega arith),
  (
    text-IsWritable host_key (codes "localhost") refl refl,
    (
      tt,
      (
        text-IsWritable persistence_file_key (codes "redicraft.rdb") refl refl,
        (
          (omega arith, omega arith),
          (
            tt,
            (
              text-IsWritable replication_role_key (codes "slave") refl refl,
              (
                (omega arith, omega arith),
                (
                  text-IsWritable master_host_key (codes "localhost") refl refl,
                  ((omega arith, omega arith), (tt, ((omega arith, omega arith), tt))),
                ),
              ),
            ),
          ),
        ),
      ),
    ),
  ),
)

settings_of-load_example :
    settings_of (load (some (unlines (map setting_line (settings_of changed)))) default_config).1
    ≡ settings_of changed
settings_of-load_example = settings_of-load changed default_config changed-IsWritable

load_line-invalid_example :
    load_line (number_word cluster_port_key ++ (b'=' ∷ codes " none")) default_config
    ≡ record default_config { config_values = (codes "cluster_port", codes "none") ∷ [] }
unfolding trim assign
load_line-invalid_example =
    load_line-invalid cluster_port_key (codes " none") default_config (unfold stoi in refl)
