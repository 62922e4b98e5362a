-- ===== src/Os.antt =====
-- The operating system as the handlers call it: files by descriptor, and `calloc`.
-- It is a parameter of the model. Results are bit patterns, -1 among them (`Base.Word`).
pub mod Files
use vdiag_server.Base.{ℕ, Bool, List}

-- The character array that is passed as the file's name.
abbrev pub FileName : Type 0
FileName = List ℕ

-- `O_RDONLY` and `O_WRONLY`
pub data Mode : Type 0 where
  rdonly wronly : Mode

pub record Os : Type 1 where
  pub State : Type 0
  pub open_file : FileName → Mode → State → ℕ × State
  pub lseek : ℕ → ℕ → State → ℕ × State
  -- `read(fd, buf, n)`: its result, and the bytes that it stores at `buf`.
  pub read : ℕ → ℕ → State → ℕ × List ℕ × State
  pub write : ℕ → List ℕ → State → ℕ × State
  pub close : ℕ → State → State
  -- Whether `calloc` of so many bytes returns memory.
  pub calloc : ℕ → State → Bool × State
