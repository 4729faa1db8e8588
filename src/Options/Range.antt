-- ===== src/Options/Range.antt =====
-- The sizes that `SanitizeOptions` leaves.
use level_db.Prelude.{
  ℕ, ◌%◌, ◌^◌, ◌≤◌, ◌<◌, ◌≡◌, ◌⊎◌, ◌↔◌, Option, some, Bytes, arith, refl, inl, none,
}
use level_db.Env.{Env}
use level_db.Options.{Options, clip_to_range, sanitize_options, cache_or_new}

abbrev pub InRange : ℕ → ℕ → ℕ → Type 0
InRange minval maxval x = (minval ≤ x) × (x ≤ maxval)

-- `ClipToRange` leaves a value in the range exactly when the value fits 32 bits, or its lowest 32
-- bits are out of the range: a larger value whose lowest 32 bits are in the range is not clipped.
clip_to_range_iff :
    (x minval maxval : ℕ)
    → minval ≤ maxval
    → maxval < 2 ^ 31
    → InRange minval maxval (clip_to_range x minval maxval)
      ↔ ((x < 2 ^ 32) ⊎ ¬ InRange minval maxval (x % 2 ^ 32))
unfolding clip_to_range
clip_to_range_iff x minval maxval h k = ground arith

has_cache :
    {Cache : Type 0} (new_lru_cache : ℕ → Cache) (cache : Option Cache)
    → (c : Cache) × (cache_or_new new_lru_cache cache ≡ some c)
unfolding cache_or_new
has_cache new_lru_cache none = (new_lru_cache 8388608, refl)
has_cache new_lru_cache (some c) = (c, refl)

module _ {W File Lock Logger Cache Comparator Filter : Type 0} (env : Env W File Lock Logger)
    (new_lru_cache : ℕ → Cache) where
  -- If the three sizes fit 32 bits, and the number of open files is a pattern of 32 bits, then
  -- `SanitizeOptions` leaves each of them in its range, sets a block cache, keeps the four flags
  -- (`create_if_missing`, `error_if_exists`, `paranoid_checks` and `reuse_logs`), the restart
  -- interval and the compression, and takes the internal comparator.
  pub sanitize_options-InRange :
      (dbname : Bytes) (icmp : Comparator) (ipolicy : Filter)
      (src : Options Logger Cache Comparator Filter) (w : W)
      → src.max_open_files < 2 ^ 32
      → src.write_buffer_size < 2 ^ 32
      → src.max_file_size < 2 ^ 32
      → src.block_size < 2 ^ 32
      → InRange 74 50000
          (sanitize_options env new_lru_cache dbname icmp ipolicy src w).0.max_open_files
        × InRange 65536 1073741824
            (sanitize_options env new_lru_cache dbname icmp ipolicy src w).0.write_buffer_size
        × InRange 1048576 1073741824
            (sanitize_options env new_lru_cache dbname icmp ipolicy src w).0.max_file_size
        × InRange 1024 4194304
            (sanitize_options env new_lru_cache dbname icmp ipolicy src w).0.block_size
        × ((c : Cache) × ((sanitize_options env new_lru_cache dbname icmp ipolicy src
                w).0.block_cache
              ≡ some c))
        × ((sanitize_options env new_lru_cache dbname icmp ipolicy src w).0.create_if_missing
            ≡ src.create_if_missing)
        × ((sanitize_options env new_lru_cache dbname icmp ipolicy src w).0.error_if_exists
            ≡ src.error_if_exists)
        × ((sanitize_options env new_lru_cache dbname icmp ipolicy src w).0.paranoid_checks
            ≡ src.paranoid_checks)
        × ((sanitize_options env new_lru_cache dbname icmp ipolicy src w).0.reuse_logs
            ≡ src.reuse_logs)
        × ((sanitize_options env new_lru_cache dbname icmp ipolicy src w).0.block_restart_interval
            ≡ src.block_restart_interval)
        × ((sanitize_options env new_lru_cache dbname icmp ipolicy src w).0.compression
            ≡ src.compression)
        × ((sanitize_options env new_lru_cache dbname icmp ipolicy src w).0.comparator ≡ icmp)
  unfolding sanitize_options
  sanitize_options-InRange dbname icmp ipolicy src w a b c d = (
    (clip_to_range_iff src.max_open_files 74 50000 (omega arith) (omega arith)).1 (inl a),
    (clip_to_range_iff src.write_buffer_size 65536 1073741824 (omega arith) (omega arith)).1
        (inl b),
    (clip_to_range_iff src.max_file_size 1048576 1073741824 (omega arith) (omega arith)).1 (inl c),
    (clip_to_range_iff src.block_size 1024 4194304 (omega arith) (omega arith)).1 (inl d),
    has_cache new_lru_cache src.block_cache,
    refl,
    refl,
    refl,
    refl,
    refl,
    refl,
    refl,
  )
