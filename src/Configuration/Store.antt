-- ===== src/Configuration/Store.antt =====
-- `configStore` (config.go), which serves the current snapshot of the configuration: from a file that
-- may be replaced at any time, or, once the control API has made one live, from a pushed bundle. The
-- mutex makes `Current` one step. What it observes of the outside is an argument: the answer of the
-- bundle source, of `os.Stat` and of `readDocument`. Parameters: `os.SameFile`, `sha256.Sum256`, the
-- decoder, and the configuration behind a pointer of the bundle source; a pointer stands for one
-- allocation, which the store keeps alive while it compares against it. Of a remembered file the
-- source also keeps the size and the time apart; here they are those of its `FileInfo`.
pub mod Generations
pub mod Fallback
use mihomo_extension_sidecar.Common.{
  ℕ, ◌+◌, ◌%◌, ◌^◌, ◌==◌, Bool, true, false, not, ◌&&◌, List, [], ◌∷◌, Option, some, none, Bytes,
  bytes_eq, if◌then◌else◌,
}

pub record FileInfo : Type 0 where
  pub size : ℕ
  pub mod_time : ℕ
  pub identity : ℕ

pub record Snapshot (C : Type 0) : Type 0 where
  pub generation : ℕ
  pub document : C

pub record ConfigStore (C : Type 0) : Type 0 where
  pub good_file : Option FileInfo
  pub bad_file : Option FileInfo
  pub read_error_file : Option FileInfo
  pub read_error_unstatable : Bool
  pub content_digest : Bytes
  pub cfg : Snapshot C
  pub bundle : Option ℕ
  pub generation : ℕ

-- What one call of `Current` finds: the bundle source's pointer and whether one was ever live, where
-- a source is set; the answer of `os.Stat`; what `readDocument` reads.
pub record Observed : Type 0 where
  pub source : Option (Option ℕ × Bool)
  pub stat : Option FileInfo
  pub read : Option (Bytes × Option FileInfo)

-- The lines of the engine log.
pub data Report : Type 0 where
  read_failed : Report
  replacement_rejected : Report
  reloaded : Report

-- What `Current` returns, no snapshot for `errNoActiveBundle`, with what it reports.
pub record Outcome (C : Type 0) : Type 0 where
  pub snapshot : Option (Snapshot C)
  pub reports : List Report
  pub store : ConfigStore C

unfoldable pub next_generation : ℕ → ℕ
next_generation g = (g + 1) % 2 ^ 64

module _ (same_file : FileInfo → FileInfo → Bool) where
  -- The three tests of a `FileInfo` against a remembered one.
  unfoldable pub matches_file : Option FileInfo → FileInfo → Bool
  matches_file none info = false
  matches_file (some known) info =
      info.size == known.size && info.mod_time == known.mod_time && same_file info known

  -- What the three `remember` functions keep; a nil `FileInfo` is no file.
  unfoldable pub remembered : Option FileInfo → Option FileInfo
  remembered none = none
  remembered (some info) = if same_file info info then some info else none

  -- The read failed: the two suppressions of the log.
  unfoldable pub read_failure : {C : Type 0} → ConfigStore C → Option FileInfo → Outcome C
  unfolding matches_file remembered
  read_failure s (some info) =
      if matches_file s.read_error_file info
      then record { snapshot = some s.cfg; reports = []; store = s }
      else record {
        snapshot = some s.cfg;
        reports = read_failed ∷ [];
        store = record s { read_error_file = remembered (some info) };
      }
  read_failure s none =
      if s.read_error_unstatable
      then record { snapshot = some s.cfg; reports = []; store = s }
      else record {
        snapshot = some s.cfg;
        reports = read_failed ∷ [];
        store = record s { read_error_file = none; read_error_unstatable = true };
      }

  -- Whether the stat shows a file that needs no reading.
  unfoldable pub is_known : {C : Type 0} → ConfigStore C → Option FileInfo → Bool
  unfolding matches_file
  is_known s none = false
  is_known s (some info) =
      if matches_file s.good_file info then true else matches_file s.bad_file info

  module _ {C : Type 0} (sha256 : Bytes → Bytes) (decode : Bytes → Option C) where
    -- A document that was read, where the read succeeded.
    unfoldable pub consider : ConfigStore C → Bytes → Option FileInfo → Outcome C
    unfolding remembered next_generation
    consider s body info =
        if bytes_eq (sha256 body) s.content_digest
        then record {
          snapshot = some s.cfg;
          reports = [];
          store = record s { good_file = remembered info; bad_file = none };
        }
        else elim (decode body) [
          | none ↦ record {
            snapshot = some s.cfg;
            reports = replacement_rejected ∷ [];
            store = record s { bad_file = remembered info };
          }
          | some document ↦
              let generation = next_generation s.generation in
              let cfg : Snapshot C = record { generation = generation; document = document } in
              record {
                snapshot = some cfg;
                reports = reloaded ∷ [];
                store = record s {
                  generation = generation;
                  cfg = cfg;
                  good_file = remembered info;
                  bad_file = none;
                  content_digest = sha256 body;
                };
              }
        ]

    -- The part of `Current` that serves the file.
    unfoldable pub current_file :
        ConfigStore C → Option FileInfo → Option (Bytes × Option FileInfo) → Outcome C
    unfolding is_known read_failure consider
    current_file s info read =
        if is_known s info
        then record { snapshot = some s.cfg; reports = []; store = s }
        else elim read [
          | none ↦ read_failure s info
          | some (body, read_info) ↦
              consider (record s { read_error_file = none; read_error_unstatable = false }) body
                (elim read_info [ none ↦ info | some i ↦ some i ])
        ]

    module _ (contents : ℕ → C) where
      -- The part that serves a live bundle.
      unfoldable pub current_bundle : ConfigStore C → ℕ → Outcome C
      unfolding next_generation
      current_bundle s b =
          let known : Bool = elim s.bundle [ none ↦ false | some a ↦ b == a ] in
          let q : ConfigStore C =
            if known
            then s
            else record s { bundle = some b; generation = next_generation s.generation } in
          record {
            snapshot = some (record { generation = q.generation; document = contents b });
            reports = [];
            store = q;
          }

      -- `Current`.
      unfoldable pub current : ConfigStore C → Observed → Outcome C
      unfolding current_bundle current_file
      current s o = elim o.source [
        | none ↦ current_file s o.stat o.read
        | some (some b, migrated) ↦ current_bundle s b
        | some (none, migrated) ↦
            if migrated
            then record { snapshot = none; reports = []; store = record s { bundle = none } }
            else current_file s o.stat o.read
      ]

      -- The answers of a sequence of calls.
      unfoldable pub answers : ConfigStore C → List Observed → List (Option (Snapshot C))
      unfolding current
      answers s [] = []
      answers s (o ∷ os) = (current s o).snapshot ∷ answers (current s o).store os

    -- `newConfigStore`, on what it read.
    unfoldable pub new_config_store : Bytes → Option FileInfo → Option (ConfigStore C)
    unfolding remembered
    new_config_store body info = elim (decode body) [
      | none ↦ none
      | some document ↦ some (record {
        good_file = remembered info;
        bad_file = none;
        read_error_file = none;
        read_error_unstatable = false;
        content_digest = sha256 body;
        cfg = record { generation = 1; document = document };
        bundle = none;
        generation = 1;
      })
    ]
