-- ===== src/Tests/Sample.antt =====
-- A cluster that holds one object or none, and a release whose source is ready and whose render gives
-- that object.
use poc_controller.Prelude.{
  Bool, true, false, none, some, List, [], ◌∷◌, ◌==◌, Error, ok, err, not_found, if◌then◌else◌,
}
use poc_controller.Api.{Condition, InventoryEntry, ReleaseStatus, Release, is_true}
use poc_controller.Core.{Unstructured, label_managed_by}
use poc_controller.Inventory.{Encoding}
use poc_controller.Status.Conditions.{condition, ready_condition}
use poc_controller.Status.Conditions.Memory.{memory}
use poc_controller.Apply.Ssa.{ResourceManager, created}
use poc_controller.Apply.Prune.{Client}
use poc_controller.Source.{SourceObject}
use poc_controller.Reconcile.World.{World, St, directory}
use poc_controller.Reconcile.Release.Deletion.{finalizer_name}

abbrev pub missing : Error
missing = record { msg = "not found"; status = some not_found; sentinel = none }

abbrev pub entry : InventoryEntry
entry = record {
  group = "";
  kind = "ConfigMap";
  namespace = "team";
  name = "settings";
  version = "v1";
  component = "web";
}

abbrev pub old_entry : InventoryEntry
old_entry = record entry { name = "legacy" }

abbrev pub live : Unstructured
live = record {
  group = "";
  version = "v1";
  kind = "ConfigMap";
  namespace = "team";
  name = "settings";
  labels = (label_managed_by, "opm-controller") ∷ [];
}

abbrev pub client : Client Bool
client = record { get = λ e c. if c then ok live else err missing; delete = λ o c. (none, false) }

abbrev pub resource_manager : ResourceManager Bool
resource_manager = record {
  apply_all_staged = λ rs force c. (ok (created ∷ []), true);
  diff = λ r c. ok created;
}

abbrev pub ready : List Condition
ready = condition ready_condition is_true "Ready" "ready" ∷ []

abbrev pub encoding : Encoding
encoding = record {
  sha256_hex = λ s. s;
  marshal_entries = λ es. none;
  print_entries = λ es. "entries";
}

abbrev pub source_object : SourceObject
source_object = record {
  conditions = ready;
  artifact = some (record { url = "http://artifact"; revision = "1"; digest = "sha256:1" });
}

abbrev pub status : ReleaseStatus
status = record {
  observed_generation = 0;
  conditions = [];
  source = none;
  last_attempted_action = "";
  last_attempted_at = none;
  last_attempted_duration = none;
  last_attempted_source_digest = "";
  last_attempted_config_digest = "";
  last_attempted_render_digest = "";
  last_applied_at = none;
  last_applied_source_digest = "";
  last_applied_config_digest = "";
  last_applied_render_digest = "";
  failure_counters = none;
  inventory =
      some (record { revision = 4; digest = "sha256:old"; count = 1; entries = old_entry ∷ [] });
  history = [];
  next_retry_at = none;
}

abbrev pub release : Release
release = record {
  metadata = record {
    name = "app";
    namespace = "team";
    generation = 3;
    deletion_timestamp = none;
    finalizers = finalizer_name ∷ [];
    annotations = [];
  };
  spec = record {
    source_ref = record { kind = "OCIRepository"; name = "app"; namespace = "" };
    path = "";
    interval = 0;
    prune = true;
    suspend = false;
    depends_on = [];
    service_account_name = "";
    rollout = none;
  };
  status = status;
}

abbrev pub world : World Bool
world = record {
  conditions = memory;
  encoding = encoding;
  quote = λ s. s;
  get_release = λ ns name.
      if name == "app"
      then ok (record release { status = record status { conditions = ready } })
      else err missing;
  get_source = λ kind ns name. ok source_object;
  patch_metadata = λ rel. none;
  patch_status = λ rel. none;
  mkdir_temp = ok "/tmp/app";
  fetch = λ url digest dir opts. none;
  stat = λ path. directory;
  render = λ dir.
      ok
        ("ModuleRelease", record { resources = []; inventory_entries = entry ∷ []; warnings = [] });
  start = 1;
  now = 2;
  history_now = 2;
  retry_now = 2;
  since = 1;
  client = client;
  resource_manager = resource_manager;
  default_service_account = "";
  has_rest_config = false;
  read_service_account = λ ns name. none;
  new_client = λ config. ok client;
  new_resource_manager = λ c. resource_manager;
}

abbrev pub state : St Bool
state = record { rel = release; cluster = true; log = [] }
