-- ===== src/Storage.antt =====
-- pkg/storage/plugin.go and deduplicatable.go: the contract of a storage backend, as a record of
-- its methods over the state `S` that the backend's object and its remote store keep.
pub mod Retry
use extend_game_telemetry_co.Prelude.{◌++◌, Bool, Option, none, some, List, Text}
use extend_game_telemetry_co.Prelude.Int.{ℤ}
use extend_game_telemetry_co.Runtime.{Context}

-- An `error` is its message; `none` is nil.
abbrev pub Error : Type 0
Error = Option Text

-- `fmt.Errorf("<context>: %w", err)`
abbrev pub wrap_error : Text → Error → Error
wrap_error context none = none
wrap_error context (some failure) = some (context ++ failure)

-- `storage.StoragePlugin[T]`.
pub record StoragePlugin (S T : Type 0) : Type 0 where
  pub name : Text
  pub initialize : Context → S → Error × S
  pub filter : S → T → Bool
  pub write_batch : Context → List T → S → (ℤ × Error) × S
  pub close : S → Error × S
  pub health_check : Context → S → Error

-- A plugin object: its methods and its state.
pub record Plugin (S T : Type 0) : Type 0 where
  pub methods : StoragePlugin S T
  pub state : S

-- `storage.Deduplicatable`, an instance for each event type.
pub record Deduplicatable (T : Type 0) : Type 0 where
  pub deduplication_key : T → Text
