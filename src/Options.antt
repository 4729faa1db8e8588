-- ===== src/Options.antt =====
-- include/options.hpp, and `ClipToRange` and `SanitizeOptions` of db/dp_impl.cpp. An `int` is its
-- pattern of 32 bits. `none` is a null pointer.
pub mod Range
pub mod Tests
use level_db.Prelude.{
  ℕ, ◌%◌, ◌^◌, Bool, true, false, ◌&&◌, ◌||◌, Option, none, some, Bytes, ltb, leb, if◌then◌else◌,
}
use level_db.Status.{Status, ok}
use level_db.FileName.{info_log_file_name, old_info_log_file_name}
use level_db.Env.{Env}

pub data CompressionType : Type 0 where
  no_compression snappy_compression : CompressionType

-- The environment is the parameter of the functions that use it.
pub record Options (Logger Cache Comparator Filter : Type 0) : Type 0 where
  pub comparator : Comparator
  pub create_if_missing : Bool
  pub error_if_exists : Bool
  pub paranoid_checks : Bool
  pub info_log : Option Logger
  pub write_buffer_size : ℕ
  pub max_open_files : ℕ
  pub block_cache : Option Cache
  pub block_size : ℕ
  pub block_restart_interval : ℕ
  pub max_file_size : ℕ
  pub compression : CompressionType
  pub reuse_logs : Bool
  pub filter_policy : Option Filter

pub record ReadOptions (Snapshot : Type 0) : Type 0 where
  pub verify_checksums : Bool
  pub fill_cache : Bool
  pub snapshot : Option Snapshot

abbrev pub default_read_options : {Snapshot : Type 0} → ReadOptions Snapshot
default_read_options = record { verify_checksums = false; fill_cache = true; snapshot = none }

pub record WriteOptions : Type 0 where
  pub sync : Bool

abbrev pub default_write_options : WriteOptions
default_write_options = record { sync = false }

-- `static_cast<int>(x) > maxval` and `static_cast<int>(x) < minval`, for bounds that are not
-- negative.
abbrev pub is_above : ℕ → ℕ → Bool
is_above x maxval = let low = x % 2 ^ 32 in ltb low (2 ^ 31) && ltb maxval low

abbrev pub is_below : ℕ → ℕ → Bool
is_below x minval = let low = x % 2 ^ 32 in leb (2 ^ 31) low || ltb low minval

pub clip_to_range : ℕ → ℕ → ℕ → ℕ
clip_to_range x minval maxval =
    let x' = if is_above x maxval then maxval else x in if is_below x' minval then minval else x'

-- The old log of messages is renamed, and a new one is opened, if there is none yet.
pub open_info_log :
    {W File Lock Logger : Type 0}
    → Env W File Lock Logger
    → Bytes
    → Option Logger
    → W
    → Option Logger × W
open_info_log env dbname (some logger) w = (some logger, w)
open_info_log env dbname none w =
    let w₁ = (env.create_dir dbname w).1 in
    let w₂ = (env.rename_file (info_log_file_name dbname) (old_info_log_file_name dbname) w₁).1 in
    let (s, logger, w₃) = env.new_logger (info_log_file_name dbname) w₂ in
    (if ok s then logger else none, w₃)

pub cache_or_new : {Cache : Type 0} → (ℕ → Cache) → Option Cache → Option Cache
cache_or_new new_lru_cache none = some (new_lru_cache 8388608)
cache_or_new new_lru_cache (some cache) = some cache

pub policy_or_null : {Filter : Type 0} → Filter → Option Filter → Option Filter
policy_or_null ipolicy none = none
policy_or_null ipolicy (some policy) = some ipolicy

module _ {W File Lock Logger Cache Comparator Filter : Type 0} (env : Env W File Lock Logger)
    (new_lru_cache : ℕ → Cache) where
  pub sanitize_options :
      Bytes
      → Comparator
      → Filter
      → Options Logger Cache Comparator Filter
      → W
      → Options Logger Cache Comparator Filter × W
  unfolding clip_to_range open_info_log cache_or_new policy_or_null
  sanitize_options dbname icmp ipolicy src w =
      let (logger, w') = open_info_log env dbname src.info_log w in
      (
        record src {
          comparator = icmp;
          filter_policy = policy_or_null ipolicy src.filter_policy;
          max_open_files = clip_to_range src.max_open_files 74 50000;
          write_buffer_size = clip_to_range src.write_buffer_size 65536 1073741824;
          max_file_size = clip_to_range src.max_file_size 1048576 1073741824;
          block_size = clip_to_range src.block_size 1024 4194304;
          info_log = logger;
          block_cache = cache_or_new new_lru_cache src.block_cache;
        },
        w',
      )
