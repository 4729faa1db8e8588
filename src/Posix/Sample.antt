-- ===== src/Posix/Sample.antt =====
-- A small world for the tests: a table of open descriptors over one file of five bytes.
pub mod Tests
use level_db.Prelude.{
  ℕ, ◌+◌, ◌≡◌, refl, sym, ap, ◌∙◌, Bool, true, false, ◌||◌, List, [], ◌∷◌, Option, none, some,
  from_some, Bytes, codes, length, ◌==◌, ==_iff, if◌then◌else◌, arith,
}
use level_db.Status.{ok_status}
use level_db.Posix.{System}
use level_db.Posix.Files.Descriptors.{Descriptors}

pub record World : Type 0 where
  pub fds : ℕ → Bool
  pub next : ℕ

abbrev pub empty_world : World
empty_world = record { fds = λ i. false; next = 3 }

abbrev pub contents : Bytes
contents = codes "hello"

-- The next number, unless it is in use.
abbrev pub opened : Bool → World → Option ℕ × World
opened true w = (none, w)
opened false w =
    (some w.next, record { fds = λ i. if i == w.next then true else w.fds i; next = w.next + 1 })

abbrev pub pread_of : Bool → Option Bytes
pread_of true = some contents
pread_of false = none

abbrev pub sample_system : System World ℕ ℕ
sample_system = record {
  last_error = λ w. codes "no such file";
  open_file = λ f w. opened (w.fds w.next) w;
  close = λ fd w. record w { fds = λ i. if i == fd then false else w.fds i };
  pread = λ fd n offset w. (pread_of (w.fds fd), w);
  fsync = λ fd w. (w.fds fd, w);
  mmap = λ size fd w. (some 4096, w);
  munmap = λ base size w. w;
  mapped = λ base offset n w. contents;
  fopen = λ f mode w. (some 7, w);
  fclose = λ f w. (true, w);
  fread = λ f n w. (contents, w);
  feof = λ f w. true;
  fseek = λ f n w. (true, w);
  fwrite = λ f bytes w. (length bytes, w);
  fflush = λ f w. (true, w);
  fdatasync = λ f w. (true, w);
  access = λ f w. true;
  opendir = λ f w. (some 9, w);
  entries = λ d w. codes "CURRENT" ∷ [];
  closedir = λ d w. w;
  unlink = λ f w. (true, w);
  mkdir = λ f w. (true, w);
  get_file_size = λ f w. (ok_status, 5, w);
}

pub opened_new :
    (b : Bool) (fd : ℕ) (w : World)
    → w.fds w.next ≡ b
    → (opened b w).0 ≡ some fd
    → (w.fds fd ≡ false) × ((opened b w).1.fds fd ≡ true)
opened_new true fd w e h = absurd (cc)
opened_new false fd w e h =
    let same = from_some w.next fd h in (ap w.fds (sym same) ∙ e, ground (arith, same))

pub opened_others :
    (b : Bool) (fd other : ℕ) (w : World)
    → (opened b w).0 ≡ some fd
    → (other == fd) ≡ false
    → (opened b w).1.fds other ≡ w.fds other
opened_others true fd other w h d = refl
opened_others false fd other w h d = ground (arith, from_some w.next fd h)

pub opened-none :
    (b : Bool) (other : ℕ) (w : World)
    → (opened b w).0 ≡ none
    → (opened b w).1.fds other ≡ w.fds other
opened-none true other w h = refl
opened-none false other w h = absurd (cc)

abbrev pub sample_descriptors : Descriptors sample_system
sample_descriptors = record {
  is_open = λ fd w. w.fds fd;
  close_lem = λ fd other w. refl;
  open_new = λ f fd w h. opened_new (w.fds w.next) fd w refl h;
  open_others = λ f fd other w h d. opened_others (w.fds w.next) fd other w h d;
  open_none = λ f other w h. opened-none (w.fds w.next) other w h;
  pread_keeps = λ fd n offset other w. refl;
  pread_closed = λ fd n offset w h. ap pread_of h;
}
