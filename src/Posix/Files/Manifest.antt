-- ===== src/Posix/Files/Manifest.antt =====
-- Paths, mapped files, and what `Sync` brings to the disk.
use level_db.Prelude.{
  from_some, ℕ, ◌+◌, ◌-◌, ◌^◌, ◌≤◌, ◌<◌, ◌≡◌, ◌↔◌, ◌⊎◌, inl, inr, refl, ap, ◌∙◌, true, false, [],
  ◌∷◌, ◌++◌, Option, none, some, Bytes, codes, Bool-cases, arith,
}
use level_db.Status.{Status, ok}
use level_db.Slice.{starts_with}
use level_db.Posix.{System}
use level_db.Posix.Files.{
  MmapFile, WritableFile, has_slash, split_last, split_path, mmap_read, sync_opened,
  sync_dir_if_manifest, sync_data, writable_sync,
}

split_last_lem :
    (f : Bytes)
    → has_slash f ≡ true
    → (f ≡ (split_last f).0 ++ codes "/" ++ (split_last f).1) × (has_slash (split_last f).1 ≡ false)
unfolding split_last
split_last_lem [] h = absurd (cc)
split_last_lem (c ∷ s) h = elim (Bool-cases (has_slash s)) [
  | inl e ↦ let (whole, plain) = split_last_lem s e in rw e (ap (λ t. c ∷ t) whole, plain)
  | inr e ↦ rw e (ground arith, e)
]

-- `SyncDirIfManifest` splits a path with a slash into the directory before its last slash and a
-- last part without a slash; a path without a slash is a last part in the directory ".".
pub split_path_lem :
    (f : Bytes)
    → ((f ≡ (split_path f).0 ++ codes "/" ++ (split_path f).1)
        ⊎ ((split_path f).0 ≡ codes ".") × ((split_path f).1 ≡ f))
      × (has_slash (split_path f).1 ≡ false)
unfolding split_path
split_path_lem f = elim (Bool-cases (has_slash f)) [
  | inl e ↦ rw e (inl (split_last_lem f e).0, (split_last_lem f e).1)
  | inr e ↦ rw e (inr (refl, refl), e)
]

module _ {W Stream Dir : Type 0} (sys : System W Stream Dir) where
  -- A read of a mapped file succeeds exactly when it ends in the region, or when its end is at
  -- least 2^64 and lies in the region once the sum of offset and length has wrapped around.
  mmap_read_iff :
      (strerror : ℕ → Bytes) (f : MmapFile) (offset n : ℕ) (w : W)
      → offset < 2 ^ 64
      → n < 2 ^ 64
      → f.length_of < 2 ^ 64
      → (ok (mmap_read sys strerror f offset n w).0 ≡ true) ↔ (
          (offset + n ≤ f.length_of)
          ⊎ ((2 ^ 64 ≤ offset + n) × (offset + n - 2 ^ 64 ≤ f.length_of)))
  unfolding mmap_read
  mmap_read_iff strerror f offset n w a b c = ground arith

  -- The directory was opened, and brought to the disk.
  abbrev pub DirSynced : Bytes → W → Type 0
  DirSynced dir w =
      (fd : ℕ) × ((sys.open_file dir w).0 ≡ some fd)
      × ((sys.fsync fd (sys.open_file dir w).1).0 ≡ true)

  sync_opened-success :
      (filename dir : Bytes) (r : Option ℕ × W)
      → ok (sync_opened sys filename dir r).0 ≡ true
      → (fd : ℕ) × (r.0 ≡ some fd) × ((sys.fsync fd r.1).0 ≡ true)
  unfolding sync_opened
  sync_opened-success filename dir (none, w) h = absurd (cc)
  sync_opened-success filename dir (some fd, w) h = (fd, refl, ground arith)

  sync_dir-success :
      (f : WritableFile Stream) (w : W)
      → ok (sync_dir_if_manifest sys f w).0 ≡ true
      → (starts_with (split_path f.filename).1 (codes "MANIFEST") ≡ false)
        ⊎ DirSynced (split_path f.filename).0 w
  unfolding sync_dir_if_manifest
  sync_dir-success f w h =
      let (dir, base) = split_path f.filename in
      elim (Bool-cases (starts_with base (codes "MANIFEST"))) [
        | inr e ↦ inl e
        | inl e ↦ inr (sync_opened-success f.filename dir (sys.open_file dir w) (rw e at h))
      ]

  sync_data-success :
      (filename : Bytes) (file : Stream) (w : W)
      → ok (sync_data sys filename file w).0 ≡ true
      → ((sys.fflush file w).0 ≡ true) × ((sys.fdatasync file (sys.fflush file w).1).0 ≡ true)
  unfolding sync_data
  sync_data-success filename file w h = ground arith

  -- If `Sync` of an open file succeeds, then the file was flushed and its data brought to the disk
  -- in this order, and before that, if the last part of the path begins with MANIFEST, the
  -- directory that holds the file was brought to the disk.
  pub writable_sync_success :
      (filename : Bytes) (file : Stream) (w w' : W) (s : Status)
      → writable_sync sys (record { filename = filename; file = some file }) w ≡ some (s, w')
      → ok s ≡ true
      → ((starts_with (split_path filename).1 (codes "MANIFEST") ≡ false)
          ⊎ DirSynced (split_path filename).0 w)
        × ((v : W) × (v
              ≡ (sync_dir_if_manifest sys (record { filename = filename; file = some file }) w).1)
            × ((sys.fflush file v).0 ≡ true)
            × ((sys.fdatasync file (sys.fflush file v).1).0 ≡ true))
  unfolding writable_sync
  writable_sync_success filename file w w' s h good =
      let f : WritableFile Stream = record { filename = filename; file = some file } in
      let (t, v) = sync_dir_if_manifest sys f w in
      elim (Bool-cases (ok t)) [
        | inl e ↦
            let same = from_some (sync_data sys filename file v) (s, w') (rw e at h) in
            let (flushed, synced) =
              sync_data-success filename file v (ap (λ r. ok r.0) same ∙ good) in
            (sync_dir-success f w e, (v, refl, flushed, synced))
        | inr e ↦ absurd (cc (e, good, ap (λ r. ok r.0) (from_some (t, v) (s, w') (rw e at h))))
      ]
