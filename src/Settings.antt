-- ===== src/Settings.antt =====
-- settings/soft.go and the constants of drummer.go, election.go and db.go.
use drummer.Base.{ℕ, ◌*◌, Bytes, bytes}

pub record Soft : Type 0 where
  pub local_raft_request_timeout_ms : ℕ
  pub get_connected_timeout_second : ℕ
  pub max_drummer_server_msg_size : ℕ
  pub unknown_region_name : Bytes
  pub max_drummer_client_msg_size : ℕ
  pub drummer_client_name : Bytes
  pub node_host_info_report_second : ℕ
  pub node_host_ttl : ℕ
  pub node_to_start_max_wait : ℕ
  pub drummer_loop_interval_factor : ℕ
  pub persistent_log_report_cycle : ℕ

abbrev pub default_soft_settings : Soft
default_soft_settings = record {
  local_raft_request_timeout_ms = 10000;
  get_connected_timeout_second = 5;
  max_drummer_server_msg_size = 256 * 1024 * 1024;
  unknown_region_name = bytes "UNKNOWN";
  max_drummer_client_msg_size = 256 * 1024 * 1024;
  drummer_client_name = bytes "drummer-client";
  node_host_info_report_second = 20;
  node_host_ttl = 20 * 3;
  node_to_start_max_wait = 20 * 12;
  drummer_loop_interval_factor = 1;
  persistent_log_report_cycle = 3;
}

abbrev pub node_host_ttl : ℕ
node_host_ttl = default_soft_settings.node_host_ttl

abbrev pub unknown_region : Bytes
unknown_region = default_soft_settings.unknown_region_name

abbrev pub launch_deadline_tick : ℕ
launch_deadline_tick = 24

abbrev pub tick_interval_second : ℕ
tick_interval_second = 5

abbrev pub loop_interval_second : ℕ
loop_interval_second =
    default_soft_settings.node_host_info_report_second
    * default_soft_settings.drummer_loop_interval_factor
