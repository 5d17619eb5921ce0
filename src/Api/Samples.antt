-- ===== src/Api/Samples.antt =====
-- Data for the runs of api/server.py: a demo node over the house and the grant of
-- Grants/Authority/Samples. Times of the interlock are numbers.
use threshold_node.Base.{eqb, ℕ, ◌-◌, String, Bool, true, false, none, some, []}
use threshold_node.Api.Node.{local, Server, Node, Fate}
use threshold_node.Api.Origin.{Request}
use threshold_node.Grants.Authority.Samples.{
  kitchen_house, plain_env, issued_disk, good_ends, new_authority, second_attempt,
}
use threshold_node.Hardware.Estop.{armed}
use threshold_node.Hardware.Display.{fresh_display}
use threshold_node.Core.Ledger.{written}
use threshold_node.Core.QuietHours.{aware_clock}
use threshold_node.Core.Config.{Settings}

abbrev pub owner_text : String
owner_text = "owner-token-0123456789abcdef0123456789"

abbrev pub demo_settings : Settings
demo_settings = record {
  owner_token = some owner_text;
  demo_grant_token = some "demo-token-0123456789abcdef0123456789";
  bind = "127.0.0.1:8471";
  ledger_path = "data/ledger.jsonl";
  grant_store_path = "data/grants.json";
  esp32_serial = "SIMULATED";
  demo_mode = true;
  allow_network_bind = false;
}

abbrev pub demo_server : Server
demo_server = record {
  env = plain_env;
  settings = demo_settings;
  file = kitchen_house;
  local_clock = λ zone t. local (aware_clock 12 0);
  nfkc = λ r. r;
  is_space = λ c. eqb c b' ';
  is_control = λ c. false;
}

abbrev pub demo_node : Node ℕ
demo_node = record {
  authority = new_authority;
  disk = issued_disk;
  display = fresh_display;
  interlock = record { state = armed; last_report = none; calls = [] };
}

abbrev pub good_fate : Fate
good_fate = record {
  reload = good_ends;
  attempt = second_attempt;
  log_safe = true;
  log_end = written;
}

abbrev pub never_before : ℕ → ℕ → Bool
never_before a b = false

abbrev pub difference : ℕ → ℕ → ℕ
difference a b = b - a

abbrev pub console_request : Request
console_request = record {
  method = "POST";
  path = "/grants";
  origin = some "http://127.0.0.1:5173";
  own_origin = "http://127.0.0.1:8471";
  requested_method = "";
  requested_headers = [];
  owner_header = some owner_text;
}
