-- ===== src/Status/History.antt =====
-- internal/status/history.go: the bounded history of a release.
pub mod Laws
use poc_controller.Prelude.{
  ℕ, String, List, [], ◌∷◌, none, some, inc64, lt64, ltb, length, take, if◌then◌else◌,
}
use poc_controller.Api.{HistoryEntry}
use poc_controller.Status.Digests.{DigestSet}

abbrev pub max_history_entries : ℕ
max_history_entries = 10

-- NewSuccessEntry; `now` is the clock's reading
unfoldable pub new_success_entry : ℕ → String → String → DigestSet → ℕ → HistoryEntry
new_success_entry now action phase digests inventory_count = record {
  sequence = 0;
  action = action;
  phase = phase;
  started_at = some now;
  finished_at = some now;
  source_digest = digests.source;
  config_digest = digests.config;
  render_digest = digests.render;
  inventory_digest = digests.inventory;
  inventory_count = inventory_count;
  message = "";
}

-- NewFailureEntry
unfoldable pub new_failure_entry : ℕ → String → String → DigestSet → HistoryEntry
new_failure_entry now action message digests = record {
  sequence = 0;
  action = action;
  phase = "";
  started_at = some now;
  finished_at = some now;
  source_digest = digests.source;
  config_digest = digests.config;
  render_digest = digests.render;
  inventory_digest = digests.inventory;
  inventory_count = 0;
  message = message;
}

-- the loop of nextSequence
max_sequence : ℕ → List HistoryEntry → ℕ
max_sequence max [] = max
max_sequence max (e ∷ history) =
    max_sequence (if lt64 max e.sequence then e.sequence else max) history

unfoldable pub next_sequence : List HistoryEntry → ℕ
unfolding max_sequence
next_sequence [] = 1
next_sequence (e ∷ history) = inc64 (max_sequence 0 (e ∷ history))

-- recordHistoryEntry, which RecordHistory and RecordReleaseHistory call
unfoldable pub record_history_entry : List HistoryEntry → HistoryEntry → List HistoryEntry
record_history_entry history entry =
    let history' = record entry { sequence = next_sequence history } ∷ history in
    if ltb max_history_entries (length history')
    then take max_history_entries history'
    else history'
