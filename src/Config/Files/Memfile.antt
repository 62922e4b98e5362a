-- ===== src/Config/Files/Memfile.antt =====
-- `create_memfile` on a host that suffers no error.
use vdiag_server.Base.{
  ℕ, ◌+◌, ◌-◌, ◌%◌, ◌<◌, ◌≡◌, ◌≢◌, ◌∙◌, refl, ap, true, Option, none, some, List, [], ◌∷◌, ◌++◌,
  length, replicate, length-replicate, arith, inl, inr, ltb, Bool-cases,
}
use vdiag_server.Base.Exec.{done}
use vdiag_server.Os.{FileName}
use vdiag_server.Config.Files.{Host, create_memfile, grow}

-- What can be observed: the content of a file, what is still in a stream's buffer included, and the
-- file behind a stream.
pub record Streams {S : Type 0} (host : Host S) : Type 0 where
  pub content : S → FileName → Option (List ℕ)
  pub stream : S → ℕ → Option FileName

-- The content of a file, or that of the one that `fopen` creates.
abbrev pub or_empty : Option (List ℕ) → List ℕ
or_empty none = []
or_empty (some bs) = bs

-- The documented behaviour of the calls where none of them fails.
pub record IsHealthy {S : Type 0} (host : Host S) (v : Streams host) : Type 0 where
  pub fopen_ok :
      (name : FileName) (s : S)
      → let (fd, t) = host.fopen name s in
        (fd ≢ 0)
        × (v.stream t fd ≡ some name)
        × (v.content t name ≡ some (or_empty (v.content s name)))
        × ((other : FileName) → other ≢ name → v.content t other ≡ v.content s other)
  pub seek_end_ok :
      (fd : ℕ) (s : S) (name : FileName) (bs : List ℕ)
      → v.stream s fd ≡ some name
      → v.content s name ≡ some bs
      → length bs < 9223372036854775808
      → let (n, t) = host.ftell fd (host.seek_end fd s) in
        (n ≡ length bs)
        × (v.stream t fd ≡ some name)
        × ((other : FileName) → v.content t other ≡ v.content s other)
  pub fwrite_ok :
      (fd : ℕ) (new : List ℕ) (s : S) (name : FileName) (bs : List ℕ)
      → v.stream s fd ≡ some name
      → v.content s name ≡ some bs
      → let (n, t) = host.fwrite fd new s in
        (n ≡ length new)
        × (v.stream t fd ≡ some name)
        × (v.content t name ≡ some (bs ++ new))
        × ((other : FileName) → other ≢ name → v.content t other ≡ v.content s other)
  pub fclose_ok :
      (fd : ℕ) (s : S) (name : FileName)
      → v.stream s fd ≡ some name
      → (other : FileName) → v.content (host.fclose fd s) other ≡ v.content s other
  pub calloc_ok :
      (n fd : ℕ) (s : S)
      → 0 < n
      → let (got, t) = host.calloc n s in
        (got ≡ true)
        × (v.stream t fd ≡ v.stream s fd)
        × ((other : FileName) → v.content t other ≡ v.content s other)

append_nil : (xs : List ℕ) → xs ++ [] ≡ xs
append_nil [] = refl
append_nil (x ∷ xs) = ap (λ r. x ∷ r) (append_nil xs)

replicate_zero : replicate {A = ℕ} 0 0 ≡ []
unfolding replicate
replicate_zero = refl

-- The file with the zeros that are missing.
abbrev pub padded : List ℕ → ℕ → List ℕ
padded bs usz = bs ++ replicate (usz - length bs) 0

module _ {S : Type 0} (host : Host S) (v : Streams host) where
  -- What is there, or nothing, with zeros up to the size.
  pub record Padded (name : FileName) (usz : ℕ) (s t : S) : Type 0 where
    pub content : v.content t name ≡ some (padded (or_empty (v.content s name)) usz)
    pub others : (other : FileName) → other ≢ name → v.content t other ≡ v.content s other

module _ {S : Type 0} (host : Host S) (v : Streams host) (healthy : IsHealthy host v) where
  grow_ok :
      (fd n : ℕ) (s : S) (name : FileName) (bs : List ℕ)
      → v.stream s fd ≡ some name
      → v.content s name ≡ some bs
      → 0 < n
      → (t : S) × (grow host fd n s ≡ done (0, t))
        × (v.content t name ≡ some (bs ++ replicate n 0))
        × ((other : FileName) → other ≢ name → v.content t other ≡ v.content s other)
  unfolding grow
  grow_ok fd n s name bs str con pos =
      let got = healthy.calloc_ok n fd s pos in
      let s1 = (host.calloc n s).1 in
      let zeros = replicate {A = ℕ} n 0 in
      let wrote = healthy.fwrite_ok fd zeros s1 name bs (got.1 ∙ str) (got.2 name ∙ con) in
      let s2 = (host.fwrite fd zeros s1).1 in
      let closed = healthy.fclose_ok fd s2 name wrote.1 in
      let len = length-replicate {A = ℕ} n 0 in
      (
        host.fclose fd s2,
        ground arith,
        closed name ∙ wrote.2,
        λ other ne. closed other ∙ wrote.3 other ne ∙ got.2 other,
      )

  -- On a host where no call fails, for a 32-bit size and a file shorter than 2 ^ 63, the call
  -- reports 0. The file then holds what it held, or nothing where there was none, followed by as
  -- many zeros as it lacks; other files are as they were.
  pub create_memfile_lem :
      (name : FileName) (usz : ℕ) (s : S)
      → usz < 4294967296
      → length (or_empty (v.content s name)) < 9223372036854775808
      → (t : S) × (create_memfile host name usz s ≡ done (0, t)) × Padded host v name usz s t
  unfolding create_memfile
  create_memfile_lem name usz s word short =
      let bs = or_empty (v.content s name) in
      let opened = healthy.fopen_ok name s in
      let fd = (host.fopen name s).0 in
      let s1 = (host.fopen name s).1 in
      let told = healthy.seek_end_ok fd s1 name bs opened.1 opened.2 short in
      let s2 = (host.ftell fd (host.seek_end fd s1)).1 in
      elim (Bool-cases (ltb (length bs) usz)) [
        | inl less ↦
            let less_than : length bs < usz = ground arith in
            let size : (usz + 18446744073709551616 - length bs) % 18446744073709551616
                ≡ usz - length bs =
              omega arith in
            let (t, grown, con, oth) =
              grow_ok fd (usz - length bs) s2 name bs told.1 (told.2 name ∙ opened.2)
                (ground arith) in
            (
              t,
              ground (arith, size, grown),
              record {
                content = con;
                others = λ other ne. oth other ne ∙ told.2 other ∙ opened.3 other ne;
              },
            )
        | inr enough ↦
            let closed = healthy.fclose_ok fd s2 name told.1 in
            let none_left : usz - length bs ≡ 0 = ground arith in
            let same : bs ≡ padded bs usz = rw (none_left, replicate_zero, append_nil bs) refl in
            (
              host.fclose fd s2,
              ground arith,
              record {
                content = closed name ∙ told.2 name ∙ opened.2 ∙ ap (λ r. some r) same;
                others = λ other ne. closed other ∙ told.2 other ∙ opened.3 other ne;
              },
            )
      ]
