-- ===== src/Replacement/SampleWorld.antt =====
-- A world on which the workflow runs: plain answers, plain settings, and filled tables.
use aso_node_recovery.Prelude.{Table, [], false, none, put, some, true, ◌+◌}
use aso_node_recovery.Errors.{ok}
use aso_node_recovery.Models.EventEnums.{SecretReferenceBackend}
use aso_node_recovery.Models.NodeEnums.{NodeOperationMode, NodeState, ProviderType, SshAuthMethod}
use aso_node_recovery.Models.Rows.{Node, NodeCredential, Provider, ReplacementJob}
use aso_node_recovery.Outside.{
  MasterNode, Outside, ProviderServer, ProviderServerStatus, ReachabilityDecision, ThreeXUiConfig,
}
use aso_node_recovery.Replacement.Samples.{new_server, old_server, sample_deployment}
use aso_node_recovery.Runtime.{Db, World}
use aso_node_recovery.Settings.{Settings}

-- A world that answers every question in the plainest way.
abbrev plain_server : ProviderServer
plain_server = record {
  provider_server_id = "srv-new";
  name = "aso-100-1";
  status = ProviderServerStatus.running;
  ipv4 = some "203.0.113.9";
  region = none;
  server_type = none;
  image = none;
}

abbrev plain_config : ThreeXUiConfig
plain_config = record {
  username = "admin";
  password = "password";
  panel_port = 2053;
  web_base_path = "panel";
  access_url = "http://203.0.113.9:2053/panel";
  api_token = "token";
  db_type = "sqlite";
}

abbrev pub plain_master : MasterNode
plain_master = record {
  name = "node-1";
  remark = "";
  scheme = "http";
  address = "198.51.100.7";
  port = 2053;
  base_path = "panel";
  has_api_token = false;
  enable = true;
  allow_private_address = false;
  tls_verify_mode = "verify";
  pinned_cert_sha256 = "";
  inbound_sync_mode = "all";
  inbound_tags = [];
  outbound_tag = "";
  transitive = false;
}

abbrev pub plain_outside : Outside
plain_outside = record {
  now = λ n. 1000 + n;
  new_id = λ n. 500 + n;
  is_paused = λ _. false;
  effective_dry_run = λ _. false;
  monitoring_enabled = λ _. true;
  replacement_enabled = λ _. true;
  new_token = λ _. "token-1";
  admission_lock = λ _. true;
  find_server_by_name = λ _ _ _. ok none;
  create_server = λ _ _ _. ok plain_server;
  wait_until_ready = λ _ _ _. ok plain_server;
  get_server = λ _ _ server_id.
      ok (record plain_server { provider_server_id = server_id; ipv4 = some "198.51.100.7" });
  delete_server = λ _ _ _. ok tt;
  verify = λ _ _. ok ReachabilityDecision.reachable;
  verify_external = λ _ _. ok ReachabilityDecision.reachable;
  get_node = λ _ _. ok plain_master;
  test_node = λ _ _. ok ("online", "running");
  update_node = λ _ _ _. ok tt;
  verify_node = λ _ _ _. ok tt;
  certificate_fingerprint = λ _ _. ok "fingerprint";
  resolve_secret = λ _ _ ref. ok ref;
  create_ssh = λ _ _ _. ok tt;
  delete_reference = λ _ _. ok tt;
  validate_provider_secret = λ _ _ _. ok tt;
  write_secret = λ _ name _. ok name;
  wait_ssh = λ _ _. ok tt;
  bootstrap = λ _ _. ok tt;
  verify_installation = λ _ _. ok tt;
  install = λ _ _. ok tt;
  read_configuration = λ _ _. ok plain_config;
  verify_api = λ _ _. ok tt;
  rollback = λ _ _. ok tt;
  replacement_server_name = λ _ _ _. "aso-100-1";
  lower = λ text. text;
  in_name_order = λ nodes. nodes;
  parse_int = λ _. some 7;
  url_scheme = λ _. "http";
  ip_text = λ text. some text;
  dry_run_url = λ _. "http://203.0.113.9:2053/dry-run-panel";
}

abbrev pub plain_settings : Settings
plain_settings = record {
  dry_run = false;
  allow_real_infrastructure_mutation = true;
  allow_old_vps_deletion = true;
  replacement_emergency_stop = false;
  max_replacement_attempts = 5;
  max_temporary_servers = 3;
  max_concurrent_replacements = 2;
  failure_threshold = 3;
  recovery_threshold = 2;
  check_host_nodes = [];
  check_host_max_nodes = 5;
  check_host_min_success_nodes = 1;
  check_host_result_timeout_ms = 10000;
  check_host_poll_interval_ms = 1000;
  monitoring_lease_seconds = 45;
  replacement_worker_enabled = true;
  provider_reconcile_grace_seconds = 120;
  replacement_job_lease_seconds = 90;
  replacement_vps_boot_grace_thirds = 90;
  replacement_reachability_rounds = 3;
  replacement_reachability_required_consensus = 2;
  replacement_reachability_round_interval_thirds = 30;
}

abbrev pub plain_node : Node
plain_node = record {
  id = 1;
  name = "node-1";
  master_node_id = "7";
  provider_id = 1;
  current_host = "198.51.100.7";
  current_port = 2053;
  state = NodeState.verifying;
  state_changed_at = 5;
  operation_mode = NodeOperationMode.auto_repair;
  monitoring_enabled = true;
  consecutive_failures = 3;
  consecutive_successes = 0;
  last_checked_at = none;
  last_successful_check_at = none;
  monitoring_lease_token = none;
  monitoring_lease_until = none;
}

abbrev plain_credential : NodeCredential
plain_credential = record {
  node_id = 1;
  ssh_username = "root";
  ssh_port = 22;
  ssh_auth_method = SshAuthMethod.private_key;
  secret_backend = SecretReferenceBackend.file;
  ssh_secret_ref = "ssh-ref";
  ssh_public_key = some "ssh-ed25519 AAAA";
  panel_username = some "admin";
  panel_password_ref = none;
  panel_password_backend = none;
  panel_base_path = some "panel";
  api_token_ref = some "old-token-ref";
  api_token_backend = some SecretReferenceBackend.file;
}

abbrev plain_provider : Provider
plain_provider = record {
  id = 1;
  key = "hetzner";
  display_name = "Cloud";
  provider_type = ProviderType.hetzner;
  is_active = true;
  credential_backend = SecretReferenceBackend.file;
  credential_ref = "provider-token";
  default_region = some "r1";
  default_server_type = some "s1";
  default_image = some "i1";
}

abbrev pub no_rows : {R : Type 0} → Table R
no_rows = record { keys = []; row = λ _. none }

-- The tables without a job, and with one.
abbrev pub jobless_db : Db
jobless_db = record {
  jobs = no_rows;
  nodes = put no_rows 1 plain_node;
  vps = put (put no_rows 10 old_server) 11 new_server;
  deployments = put no_rows 20 sample_deployment;
  credentials = put no_rows 1 plain_credential;
  providers = put no_rows 1 plain_provider;
  events = [];
  checks = [];
}

abbrev pub sample_db : ReplacementJob → Db
sample_db job = record jobless_db { jobs = put jobless_db.jobs job.id job }

abbrev pub sample_world : ReplacementJob → World
sample_world job = record { db = sample_db job; effects = []; calls = 0 }
