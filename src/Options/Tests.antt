-- ===== src/Options/Tests.antt =====
-- The theorems on options at concrete sizes.
use level_db.Prelude.{ℕ, ◌≡◌, refl, true, false, none, some, codes, arith}
use level_db.Db.Sample.{sample_env, sample_db}
use level_db.Options.{Options, CompressionType, clip_to_range, sanitize_options}
use level_db.Options.Range.{InRange, sanitize_options-InRange}

-- A block of four gigabytes and 4096 bytes is kept.
not_clipped : clip_to_range 4294971392 1024 4194304 ≡ 4294971392
unfolding clip_to_range
not_clipped = refl

abbrev small : Options ℕ ℕ ℕ ℕ
small = record {
  comparator = 0;
  create_if_missing = true;
  error_if_exists = false;
  paranoid_checks = false;
  info_log = none;
  write_buffer_size = 1;
  max_open_files = 1000;
  block_cache = none;
  block_size = 4096;
  block_restart_interval = 16;
  max_file_size = 2147483648;
  compression = CompressionType.snappy_compression;
  reuse_logs = false;
  filter_policy = none;
}

abbrev sanitized : Options ℕ ℕ ℕ ℕ
sanitized = (sanitize_options sample_env (λ n. n) (codes "/db") 1 2 small sample_db.world).0

sanitize_options-InRange_example :
    InRange 74 50000 sanitized.max_open_files
    × InRange 65536 1073741824 sanitized.write_buffer_size
    × InRange 1048576 1073741824 sanitized.max_file_size
    × InRange 1024 4194304 sanitized.block_size
    × ((c : ℕ) × (sanitized.block_cache ≡ some c))
    × (sanitized.create_if_missing ≡ true)
    × (sanitized.error_if_exists ≡ false)
    × (sanitized.paranoid_checks ≡ false)
    × (sanitized.reuse_logs ≡ false)
    × (sanitized.block_restart_interval ≡ 16)
    × (sanitized.compression ≡ CompressionType.snappy_compression)
    × (sanitized.comparator ≡ 1)
sanitize_options-InRange_example =
    sanitize_options-InRange sample_env (λ n. n) (codes "/db") 1 2 small sample_db.world
      (omega arith) (omega arith) (omega arith) (omega arith)
