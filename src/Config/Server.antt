-- ===== src/Config/Server.antt =====
-- `ServerConfig` of src/config.rs, and `get_config` of src/bin/beerus.rs. The environment, the files
-- and the parsers of numbers, addresses and TOML are parameters; an address is an `A`.
use beerus.Prelude.{
  subst, ℕ, ◌≤◌, ◌≡◌, true, false, ◌&&◌, Bool-cases, Option, Option-cases, none, some, leb, arith,
  if◌then◌else◌, Str, text, Outcome, ok, err, inl, inr, ◌>>=◌, >>=-inv, ok_or,
}
use beerus.Config.{Config, Files, check_data_dir}
use beerus.Feeder.{Report, said}

pub record ServerConfig (A : Type 0) : Type 0 where
  pub client : Config
  pub poll_secs : ℕ
  pub rpc_addr : A

abbrev pub default_data_dir : Str
default_data_dir = text "tmp"

abbrev pub default_poll_secs : ℕ
default_poll_secs = 30

-- `std::env::var(..).ok()` and the first argument, files, and the parsers, whose errors are reports.
pub record Surroundings (A : Type 0) : Type 0 where
  pub var : Str → Option Str
  pub argument : Option Str
  pub read_to_string : Str → Outcome Report Str
  pub parse_u64 : Str → Outcome Report ℕ
  pub parse_addr : Str → Outcome Report A
  pub parse_toml : Str → Outcome Report (ServerConfig A)
  pub default_rpc_addr : A
  pub range_report : Report
  pub files : Files

module _ {A : Type 0} (around : Surroundings A) where
  open around use {
    var, argument, read_to_string, parse_u64, parse_addr, parse_toml, default_rpc_addr,
    range_report, files,
  }

  -- A variable that is parsed, or a default.
  unfoldable pub parsed_or :
      {B : Type 0} → (Str → Outcome Report B) → B → Option Str → Outcome Report B
  parsed_or parse default none = ok default
  parsed_or parse default (some s) = parse s

  unfoldable pub text_or : Str → Option Str → Str
  text_or default none = default
  text_or default (some s) = s

  unfoldable pub from_env : Outcome Report (ServerConfig A)
  unfolding parsed_or text_or
  from_env = do
    poll_secs ← parsed_or parse_u64 default_poll_secs (var (text "POLL_SECS"))
    rpc_addr ← parsed_or parse_addr default_rpc_addr (var (text "RPC_ADDR"))
    starknet_rpc ← ok_or (said (text "STARKNET_RPC env var missing")) (var (text "STARKNET_RPC"))
    ok (record {
      client = record {
        starknet_rpc = starknet_rpc;
        gateway_url = var (text "GATEWAY_URL");
        data_dir = text_or default_data_dir (var (text "DATA_DIR"));
      };
      poll_secs = poll_secs;
      rpc_addr = rpc_addr;
    })

  unfoldable pub from_file : Str → Outcome Report (ServerConfig A)
  from_file path = do content ← read_to_string path; parse_toml content

  -- `validate` checks the fields that have a rule: of these, `client` is none.
  unfoldable pub validate_server : ServerConfig A → Outcome Report (Unit {0})
  validate_server config =
      if leb 1 config.poll_secs && leb config.poll_secs 3600 then ok tt else err range_report

  unfoldable pub read_config : Option Str → Outcome Report (ServerConfig A)
  read_config none = from_env
  read_config (some path) = from_file path

  unfoldable pub get_config : Outcome Report (ServerConfig A)
  unfolding read_config
  get_config = do
    config ← read_config argument
    _ ← validate_server config
    _ ← check_data_dir files config.client.data_dir
    ok config

  -- What is known of a configuration that the server starts with.
  pub record Configured (config : ServerConfig A) : Type 0 where
    pub source : read_config argument ≡ ok config
    pub at_least : 1 ≤ config.poll_secs
    pub at_most : config.poll_secs ≤ 3600
    pub there : files.exists config.client.data_dir ≡ true
    pub writable : files.read_only config.client.data_dir ≡ some false

  data_dir-inv :
      (path : Str) {u : Unit {0}}
      → check_data_dir files path ≡ ok u
      → (files.exists path ≡ true) × (files.read_only path ≡ some false)
  unfolding check_data_dir
  data_dir-inv path h = elim (Bool-cases (files.exists path)) [
    | inr e ↦ absurd (ground arith)
    | inl e ↦ elim (Option-cases (files.read_only path)) [
      | inl e' ↦ absurd (ground arith)
      | inr (flag, e') ↦ (e, ground arith)
    ]
  ]

  validate_server-inv :
      (config : ServerConfig A) {u : Unit {0}}
      → validate_server config ≡ ok u
      → (1 ≤ config.poll_secs) × (config.poll_secs ≤ 3600)
  unfolding validate_server
  validate_server-inv config h = (ground arith, ground arith)

  -- The server starts with a configuration only if it was read from the file that is its argument or,
  -- without one, from the environment, its period is 1 to 3600 seconds, and its data directory is there
  -- and can be written.
  pub get_config-Configured : (config : ServerConfig A) → get_config ≡ ok config → Configured config
  unfolding get_config
  get_config-Configured config h =
      let (c, e, h₁) = >>=-inv (read_config argument) _ h in
      let (u, e', h₂) = >>=-inv (validate_server c) _ h₁ in
      let (u', e'', h₃) = >>=-inv (check_data_dir files c.client.data_dir) _ h₂ in
      let (there, writable) = data_dir-inv c.client.data_dir e'' in
      let same : c ≡ config = ground arith in
      let range = validate_server-inv c e' in
      subst Configured same (record {
        source = e;
        at_least = range.0;
        at_most = range.1;
        there = there;
        writable = writable;
      })
