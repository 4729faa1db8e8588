-- ===== src/Env.antt =====
-- include/env.hpp: the environment, through which the database reaches files and threads, as an
-- interface over the state `W` of the world. A method returns its status, its result and the new
-- world; a file, a lock and a logger are handles of the environment.
use level_db.Prelude.{ℕ, Bool, List, Option, Bytes}
use level_db.Status.{Status}

pub record Env (W File Lock Logger : Type 0) : Type 0 where
  pub new_sequential_file : Bytes → W → Status × Option File × W
  pub new_random_access_file : Bytes → W → Status × Option File × W
  pub new_writable_file : Bytes → W → Status × Option File × W
  pub new_appendable_file : Bytes → W → Status × Option File × W
  pub file_exists : Bytes → W → Bool
  pub get_children : Bytes → W → Status × List Bytes × W
  pub delete_file : Bytes → W → Status × W
  pub create_dir : Bytes → W → Status × W
  pub delete_dir : Bytes → W → Status × W
  pub get_file_size : Bytes → W → Status × ℕ × W
  pub rename_file : Bytes → Bytes → W → Status × W
  pub lock_file : Bytes → W → Status × Option Lock × W
  pub unlock_file : Lock → W → Status × W
  -- `Schedule(BGWork, db)`: one more call of `BGWork` will be made.
  pub schedule : W → W
  -- `StartThread`: one more thread runs the function.
  pub start_thread : W → W
  pub get_test_directory : W → Status × Bytes × W
  pub new_logger : Bytes → W → Status × Option Logger × W
  pub now_micros : W → ℕ
  pub sleep_for_microseconds : ℕ → W → W
  -- `WritableFile` and `SequentialFile`.
  pub append : File → Bytes → W → Status × W
  pub close : File → W → Status × W
  pub flush : File → W → Status × W
  pub sync : File → W → Status × W
  pub read : File → ℕ → W → Status × Bytes × W
  pub skip : File → ℕ → W → Status × W

-- `EnvWrapper`: an environment that forwards every call to its target.
pub env_wrapper : {W File Lock Logger : Type 0} → Env W File Lock Logger → Env W File Lock Logger
env_wrapper target = record {
  new_sequential_file = λ f w. target.new_sequential_file f w;
  new_random_access_file = λ f w. target.new_random_access_file f w;
  new_writable_file = λ f w. target.new_writable_file f w;
  new_appendable_file = λ f w. target.new_appendable_file f w;
  file_exists = λ f w. target.file_exists f w;
  get_children = λ d w. target.get_children d w;
  delete_file = λ f w. target.delete_file f w;
  create_dir = λ d w. target.create_dir d w;
  delete_dir = λ d w. target.delete_dir d w;
  get_file_size = λ f w. target.get_file_size f w;
  rename_file = λ s t w. target.rename_file s t w;
  lock_file = λ f w. target.lock_file f w;
  unlock_file = λ l w. target.unlock_file l w;
  schedule = λ w. target.schedule w;
  start_thread = λ w. target.start_thread w;
  get_test_directory = λ w. target.get_test_directory w;
  new_logger = λ f w. target.new_logger f w;
  now_micros = λ w. target.now_micros w;
  sleep_for_microseconds = λ n w. target.sleep_for_microseconds n w;
  append = target.append;
  close = target.close;
  flush = target.flush;
  sync = target.sync;
  read = target.read;
  skip = target.skip;
}
