-- ===== src/Config/Valid.antt =====
-- The configurations that are read back.
use rsh.Prelude.{◌<◌, ◌^◌, List, [], ◌∷◌}
use rsh.Config.{HostConfig, Config}
use rsh.Config.Values.{IsClean}
use rsh.Config.Fields.{IfSome, IsList, IsPath}
use rsh.Config.HostBlock.{IsValidHost}

abbrev pub AllValid : List HostConfig → Type 0
AllValid [] = Unit
AllValid (h ∷ hosts) = IsValidHost h × AllValid hosts

pub record IsValid (cfg : Config) : Type 0 where
  pub hosts : AllValid cfg.hosts
  pub device_id : IfSome IsClean cfg.device_id
  pub rendezvous_server : IfSome IsClean cfg.rendezvous_server
  pub rendezvous_servers : IsList cfg.rendezvous_servers
  pub rendezvous_key : IfSome IsClean cfg.rendezvous_key
  pub enrollment_token : IfSome IsClean cfg.enrollment_token
  pub session_log_dir : IfSome IsClean cfg.session_log_dir
  pub session_log_dir_path : IfSome IsPath cfg.session_log_dir
  pub session_log_retain : cfg.session_log_retain < 2 ^ 32
  pub fs_spool : IfSome IsClean cfg.fs_spool
  pub fs_spool_path : IfSome IsPath cfg.fs_spool
