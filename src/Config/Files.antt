-- ===== src/Config/Files.antt =====
-- `load` and `save` of src/config.rs. What the file system answers and the JSON codec are parameters; the
-- texts of the errors, which name the path, are left out.
use llm_rate_limit_proxy.Base.{
  Bool, true, false, Option, none, some, Result, ok, err, Text, ltb, if◌then◌else◌,
}
use llm_rate_limit_proxy.Config.{StoredConfig, store_version}

pub data Read : Type 0 where
  bytes : Text → Read
  not_found read_failed : Read

pub data LoadError : Type 0 where
  reading corrupt newer : LoadError

unfoldable pub check_version : StoredConfig → Result (Option StoredConfig) LoadError
check_version sc = if ltb store_version sc.version then err newer else ok (some sc)

unfoldable pub load : (Text → Option StoredConfig) → Read → Result (Option StoredConfig) LoadError
unfolding check_version
load parse not_found = ok none
load parse read_failed = err reading
load parse (bytes text) = elim (parse text) [ none ↦ err corrupt | some sc ↦ check_version sc ]

-- The store's file and the temporary one beside it, as what they hold.
pub record Dir : Type 0 where
  pub target : Option Text
  pub temp : Option Text

-- How far the calls of one save get; a failing write may leave any text behind.
pub data Calls : Type 0 where
  write_fails : Option Text → Calls
  chmod_fails rename_fails succeeds : Calls

unfoldable pub save : Text → Calls → Dir → Dir × Bool
save json (write_fails left) d = (record d { temp = left }, false)
save json chmod_fails d = (record d { temp = some json }, false)
save json rename_fails d = (record d { temp = some json }, false)
save json succeeds d = (record { target = some json; temp = none }, true)
