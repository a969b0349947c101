-- ===== src/Status/History/Laws.antt =====
-- recordHistoryEntry of internal/status/history.go against an unbounded, numbered log.
use poc_controller.Prelude.{
  ℕ, zero, suc, All, All-map, inc64, ◌+◌, ◌-◌, ◌^◌, ◌≤◌, ◌<◌, ◌≡◌, refl, List, [], ◌∷◌, arith, lt64,
  inc64, length, take, length-take, take_all, take-take-suc, if◌then◌else◌,
}
use poc_controller.Api.{HistoryEntry}
use poc_controller.Status.History.{
  max_history_entries, max_sequence, next_sequence, record_history_entry,
}

-- The trim, on both branches.
record_history_entry-take :
    (history : List HistoryEntry) (e : HistoryEntry)
    → record_history_entry history e
      ≡ take max_history_entries (record e { sequence = next_sequence history } ∷ history)
unfolding record_history_entry
record_history_entry-take history e = ground (arith, take_all 9 history)

-- Recording one entry after another.
unfoldable pub record_all : List HistoryEntry → List HistoryEntry → List HistoryEntry
record_all history [] = history
record_all history (e ∷ entries) = record_all (record_history_entry history e) entries

-- The log that forgets nothing: entries numbered from n + 1 on, the newest first.
abbrev pub journal : ℕ → List HistoryEntry → List HistoryEntry → List HistoryEntry
journal n log [] = log
journal n log (e ∷ entries) = journal (suc n) (record e { sequence = suc n } ∷ log) entries

-- A log numbered n, n - 1, ..., 1.
abbrev Numbered : ℕ → List HistoryEntry → Type 0
Numbered n [] = n ≡ 0
Numbered n (e ∷ log) = (e.sequence ≡ n) × (0 < n) × Numbered (n - 1) log

max_sequence-take :
    (k m n : ℕ) (log : List HistoryEntry)
    → Numbered n log
    → n ≤ m
    → m < 2 ^ 63
    → max_sequence m (take k log) ≡ m
unfolding max_sequence
max_sequence-take zero m n log h le lt = refl
max_sequence-take (suc k) m n [] h le lt = refl
max_sequence-take (suc k) m n (e ∷ log) h le lt = ground (arith, max_sequence-take k m (n - 1) log)

next_sequence-take :
    (k n : ℕ) (log : List HistoryEntry)
    → Numbered n log
    → n < 2 ^ 63
    → next_sequence (take (suc k) log) ≡ suc n
unfolding next_sequence
next_sequence-take k n [] h lt = omega arith
next_sequence-take k n (e ∷ log) h lt = ground (arith, max_sequence-take k n (n - 1) log)

pred_suc : (n : ℕ) → suc n - 1 ≡ n
pred_suc n = omega arith

record_all-journal :
    (n : ℕ) (log entries : List HistoryEntry)
    → Numbered n log
    → n + length entries < 2 ^ 63
    → record_all (take max_history_entries log) entries
      ≡ take max_history_entries (journal n log entries)
unfolding record_all
record_all-journal n log [] h lt = refl
record_all-journal n log (e ∷ entries) h lt =
    rw (record_history_entry-take, next_sequence-take 9 n log h (omega arith), take-take-suc 9 log)
      (record_all-journal (suc n) (record e { sequence = suc n } ∷ log) entries
        (refl, omega arith, rw (pred_suc n) h) (omega arith))

-- Fewer than 2 ^ 63 entries recorded from an empty history leave the last ten of the log that forgets
-- nothing: the newest first, numbered in the order of recording without a gap.
pub record_all-take :
    (entries : List HistoryEntry)
    → length entries < 2 ^ 63
    → record_all [] entries ≡ take max_history_entries (journal 0 [] entries)
record_all-take entries lt = record_all-journal 0 [] entries refl (omega arith)

max_sequence-ge :
    (m : ℕ) (history : List HistoryEntry)
    → m < 2 ^ 63 - 1
    → All (λ e. e.sequence < 2 ^ 63 - 1) history
    → (max_sequence m history < 2 ^ 63 - 1)
      × (m ≤ max_sequence m history)
      × All (λ e. e.sequence ≤ max_sequence m history) history
unfolding max_sequence
max_sequence-ge m [] lt h = (lt, omega arith, tt)
max_sequence-ge m (e ∷ history) lt h =
    let m' : ℕ = if lt64 m e.sequence then e.sequence else m in
    let (below, grows, all) = max_sequence-ge m' history (ground arith) h.1 in
    (below, ground arith, (ground arith, all))

next_sequence-gt :
    (history : List HistoryEntry)
    → All (λ e. e.sequence < 2 ^ 63 - 1) history
    → All (λ e. e.sequence < next_sequence history) history
unfolding next_sequence
next_sequence-gt [] h = tt
next_sequence-gt (e ∷ history) h =
    let (below, _, all) = max_sequence-ge 0 (e ∷ history) (omega arith) h in
    All-map (λ o. o.sequence ≤ max_sequence 0 (e ∷ history))
      (λ o. o.sequence < inc64 (max_sequence 0 (e ∷ history))) (e ∷ history) (λ o le. omega arith)
      all

-- For any history, however it came about, whose sequence numbers leave room below the largest int64:
-- recording puts the entry first, with a number above every number there, in front of what fits of
-- the history into ten entries.
record_history_entry_lem :
    (history : List HistoryEntry) (e : HistoryEntry)
    → All (λ o. o.sequence < 2 ^ 63 - 1) history
    → (n : ℕ) × (record_history_entry history e ≡ record e { sequence = n } ∷ take 9 history)
      × All (λ o. o.sequence < n) history
      × (length (record_history_entry history e) ≤ max_history_entries)
record_history_entry_lem history e h = (
  next_sequence history,
  record_history_entry-take history e,
  next_sequence-gt history h,
  rw record_history_entry-take (omega (arith, length-take 9 history)),
)
