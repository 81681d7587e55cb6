-- ===== src/Examples/Fixtures.antt =====
-- A provider that obeys, one that is down, an installation and its requests.
use stagepilot_beta.Common.{
  String, List, [], ◌∷◌, true, false, Option, none, some, ◌==◌, str_eq, if◌then◌else◌,
}
use stagepilot_beta.Registry.Names.{codes}
use stagepilot_beta.Registry.Rows.{code_before}
use stagepilot_beta.Registry.Forms.{Input, empty_input}
use stagepilot_beta.Registry.Access.{post, Request, Route, on_installation, to_provision}
use stagepilot_beta.Registry.Data.{
  IngressRule, World, Env, disabled, enabling, Installation, RegistryStats, Tunnel, DnsRecord,
  CfCall, list_tunnels, create_tunnel, list_connections, delete_tunnel, get_token, get_config,
  put_config, list_records, create_record, delete_record, tunnels, records, text, connections,
  config, other, Fetched, unreachable, result, normal,
}

abbrev pub generation_1 : String
generation_1 = "11111111-1111-1111-8111-111111111111"

abbrev pub tunnel_1 : String
tunnel_1 = "aaaaaaaa-aaaa-4aaa-8aaa-aaaaaaaaaaaa"

-- What a provider that obeys holds after the requests of a log.
abbrev pub made_tunnel : List CfCall → Option String
made_tunnel [] = none
made_tunnel (create_tunnel name ∷ log) = some name
made_tunnel (delete_tunnel id ∷ log) = none
made_tunnel (_ ∷ log) = made_tunnel log

abbrev pub made_record : List CfCall → Option DnsRecord
made_record [] = none
made_record (create_record hostname content comment ∷ log) = some (record {
  id = "r1";
  name = some hostname;
  kind = some "CNAME";
  content = some content;
  comment = some comment;
  proxied = true;
})
made_record (delete_record id ∷ log) = none
made_record (_ ∷ log) = made_record log

abbrev pub put_rules : List CfCall → List IngressRule
put_rules [] = []
put_rules (put_config id rules ∷ log) = rules
put_rules (_ ∷ log) = put_rules log

abbrev pub listed_tunnel : Option String → List Tunnel
listed_tunnel none = []
listed_tunnel (some name) =
    record { id = tunnel_1; name = name; config_src = "cloudflare"; is_deleted = false } ∷ []

abbrev pub listed_record : Option DnsRecord → List DnsRecord
listed_record none = []
listed_record (some r) = r ∷ []

abbrev pub wrapped : List IngressRule → List (Option IngressRule)
wrapped [] = []
wrapped (r ∷ rs) = some r ∷ wrapped rs

abbrev pub obeys : List CfCall → CfCall → Fetched
obeys log (list_tunnels name) = result (tunnels (listed_tunnel (made_tunnel log)))
obeys log (list_records hostname) = result (records (listed_record (made_record log)))
obeys log (get_token id) = result (text "a-token-of-some-length")
obeys log (get_config id) = result (config (some (wrapped (put_rules log))) true)
obeys log (list_connections id) = result (connections 0)
obeys log _ = result other

abbrev pub env_with : (List CfCall → CfCall → Fetched) → Env
env_with answer = record {
  installation_limit = 2;
  enrollment_enabled = true;
  remote_port = "8787";
  host_suffix = "example.com";
  answer = answer;
  seconds = λ log moment. 1000;
  timestamp = λ log moment. "now";
  admin_token = "an-operator-token-of-32-characters";
  signature = λ s. s;
  digest = codes;
  random_id = λ log moment n. "mixer";
  locale_before = λ s t. code_before (codes s) (codes t);
  decimal = λ n. if n == 0 then "0" else "1";
  random_hex = λ bytes moment. if moment == 0 then "0a" else "1b";
  enrollment_window = 86400;
  exempt_sources = none;
  written = λ text. "source";
  has_bucket = true;
  bucket_takes = λ key. true;
  bucket_holds = λ key. true;
  milliseconds = λ log moment. 3000000000;
  time_of = λ at. if str_eq at "now" then 3000000000 else 0;
}

abbrev pub env_1 : Env
env_1 = env_with obeys

-- A provider that is down.
abbrev pub env_down : Env
env_down = env_with (λ log call. unreachable)

abbrev pub booth_token : String
booth_token = "spi_booth.stagepilot-installation:booth:0"

abbrev pub booth : Installation
booth = record {
  id = "booth";
  hostname = "sp-booth.example.com";
  label = "";
  phase = disabled;
  desired_enabled = false;
  generation = none;
  last_generation = none;
  tunnel_id = none;
  revoked = false;
  created_at = "then";
  updated_at = "then";
  status_rate = none;
  mutation_rate = none;
  provider_confirmed_at = none;
  credential_generation = none;
  last_city = none;
  last_region = none;
  last_country = none;
  archived = none;
  device_name = none;
  ever_provisioned = none;
  diagnostics_rate = none;
}

abbrev pub booth_on : Installation
booth_on = record booth { phase = enabling; desired_enabled = true; generation = some generation_1 }

abbrev pub counts_1 : RegistryStats
counts_1 = record {
  active_installations = 1;
  enrollments = 1;
  enrollment_denied = 0;
  status_denied = 0;
  mutation_denied = 0;
  provider_denied = 0;
  diagnostics_bytes_used = some 0;
}

abbrev pub world_of : Installation → World
world_of i = record {
  installations = ("booth", i) ∷ [];
  stats = some counts_1;
  provider_budget = none;
  pending = [];
  token_cache = [];
  lane = normal;
  log = [];
  moment = 0;
  enrollments = ("a-nonce-of-booth", "booth") ∷ [];
  quotas = [];
  quota_index = none;
  approvals = [];
  alerts = [];
  bundles = [];
}

abbrev pub ask : Route → String → Option Input → Request
ask route bearer input = record {
  method = post;
  route = route;
  id = "booth";
  bearer = bearer;
  input = input;
  city = none;
  region = none;
  country = none;
  device_query = none;
  status_query = none;
  source = [];
  declared_length = 0;
  body_length = 0;
}

abbrev pub ask_provision : Request
ask_provision =
    ask (on_installation to_provision) booth_token (
      some (record empty_input { generation = some generation_1; device_name = some "front desk" }))
