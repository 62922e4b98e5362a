-- ===== src/Handlers/Std/Faults.antt =====
-- Requests on which ReadMemoryByAddress does what C leaves undefined.
use vdiag_server.Base.{
  ℕ, ◌+◌, ◌≤◌, ◌<◌, ◌≡◌, ◌∙◌, ◌⊎◌, inl, inr, true, false, none, some, List, length, take, drop,
  replicate, length-replicate, length-overwrite, arith, Bool-cases, ltb,
}
use vdiag_server.Base.Exec.{done, undefined}
use vdiag_server.Base.Ptr.{Ptr, wild, block}
use vdiag_server.Can.{CanMessage, byte, IsMessage}
use vdiag_server.Os.{Os}
use vdiag_server.Os.Files.{View, IsRegular}
use vdiag_server.Base.Word.{minus_one}
use vdiag_server.Memory.{read_memory}
use vdiag_server.Memory.Short.{read_memory_short}
use vdiag_server.Memory.Read.{read_memory_ok, read_memory_fails, read_memory_overflow}
use vdiag_server.Uds.Codes.{Nrc, code, is_positive}
use vdiag_server.Uds.Interface.{Locals}
use vdiag_server.Uds.Dispatch.{handle_msg}
use vdiag_server.Uds.Dispatch.Cases.{read_by_address}
use vdiag_server.Handlers.Region.{IsRegion, region_addr, region_size, rdba_setup_iff}
use vdiag_server.Handlers.Rdba.{rdba_setup, rdba, rdba_pack}
use vdiag_server.Handlers.Std.{Machine, std_handlers}
use vdiag_server.Handlers.Std.Write.{memory_file}

module _ (os : Os) (stale : Ptr → Ptr) (l : Locals) where
  -- While the result that is never assigned holds a wild pointer, a request of at least one byte
  -- that the setup refuses is undefined.
  pub read_refused_undefined :
      (m : Machine os.State) (req presp : CanMessage)
      → 0 < req.usz
      → byte req 0 ≡ 0x23
      → l.rdba_res.pdata ≡ wild
      → is_positive (rdba_setup (some m.uds) req (some l.rdba_param)).0 ≡ false
      → handle_msg (std_handlers os stale) l true req (some presp) m ≡ undefined
  unfolding rdba_pack
  read_refused_undefined m req presp some_byte sid garbage refused =
      rw (read_by_address (std_handlers os stale) l req presp some_byte m sid) (ground arith)

module _ (os : Os) (v : View os) (reg : IsRegular os v) (stale : Ptr → Ptr) (l : Locals) where
  -- A memory file that is missing or ends before a region of 1 to 4096 bytes, or no descriptor
  -- that is left.
  abbrev pub FailsToRead : Machine os.State → ℕ → ℕ → Type 0
  FailsToRead m addr size =
      (v.content m.globals.fs (memory_file m) ≡ none)
      ⊎ ((v.spare m.globals.fs ≡ 0)
          ⊎ ((bs : List ℕ) × (v.content m.globals.fs (memory_file m) ≡ some bs)
              × (0 < v.spare m.globals.fs)
              × (length bs < addr + size)
              × (0 < size)
              × (size ≤ 4096)))

  -- The call of the handler then reports -1 as a size.
  read_reports :
      (m : Machine os.State) (addr size : ℕ)
      → FailsToRead m addr size
      → addr < 4294967296
      → let zeros = replicate {A = ℕ} 4096 0 in
        let fs = (os.calloc 4096 m.globals.fs).1 in
        (left : List ℕ) × (t : os.State) × (read_memory os
            (memory_file m)
            addr
            size
            (block zeros)
            fs
          ≡ done ((minus_one, block left), t))
        × (length left ≡ 4096)
  read_reports m addr size why word =
      let zeros = replicate {A = ℕ} 4096 0 in
      let zlen = length-replicate {A = ℕ} 4096 0 in
      let (got, same) = reg.calloc_ok 4096 m.globals.fs (omega arith) in
      let fs = (os.calloc 4096 m.globals.fs).1 in
      let fails = read_memory_fails os v reg addr size (block zeros) (memory_file m) fs in
      elim why [
        | inl e ↦
            let (t, ran, same_files) = fails (inl (same.content (memory_file m) ∙ e)) in
            (zeros, t, ran, zlen)
        | inr (inl e) ↦
            let (t, ran, same_files) = fails (inr (same.spare ∙ e)) in (zeros, t, ran, zlen)
        | inr (inr (bs, con, spare, short, pos, fits)) ↦
            let (left, t, ran, len) =
              read_memory_short os v reg addr size zeros bs (memory_file m) fs
                (same.content (memory_file m) ∙ con) (omega (arith, same.spare, spare))
                (omega (arith, zlen, fits)) short pos word (omega arith) in
            (left, t, ran, len ∙ zlen)
      ]

  -- The call passes the -1 on as a size, which is too long for the response.
  call_reports :
      (m : Machine os.State) (addr size : ℕ) (left : List ℕ) (t : os.State)
      → let zeros = replicate {A = ℕ} 4096 0 in
        read_memory os (memory_file m) addr size (block zeros) (os.calloc 4096 m.globals.fs).1
          ≡ done ((minus_one, block left), t)
        → rdba os (some m.uds) (record { usz = size; uaddr = addr }) m.globals.fs
          ≡ done (record { rc = Nrc.positive_response; pdata = block left; usz = minus_one }, t)
  unfolding rdba
  call_reports m addr size left t ran =
      let (got, same) = reg.calloc_ok 4096 m.globals.fs (omega arith) in ground (arith, got, ran)

  too_long_to_pack :
      {S : Type 0} (left : List ℕ) (presp : CanMessage) (s : S)
      → length left ≡ 4096
      → rdba_pack
          (record { rc = Nrc.positive_response; pdata = block left; usz = minus_one })
          presp
          s
        ≡ undefined
  unfolding rdba_pack code
  too_long_to_pack left presp s len = ground (arith, len)

  reported_undefined :
      (m : Machine os.State) (req presp : CanMessage) (left : List ℕ) (t : os.State)
      → IsMessage req
      → byte req 0 ≡ 0x23
      → IsRegion m.uds req
      → m.uds.ecucfg.memory.end_addr < 4294967296
      → rdba os
          (some m.uds)
          (record { usz = region_size req; uaddr = region_addr req })
          m.globals.fs
        ≡ done (record { rc = Nrc.positive_response; pdata = block left; usz = minus_one }, t)
      → length left ≡ 4096
      → handle_msg (std_handlers os stale) l true req (some presp) m ≡ undefined
  unfolding code
  reported_undefined m req presp left t msg sid w end ran len =
      let below = w.below in
      let accepted = (rdba_setup_iff m.uds req msg l.rdba_param (omega arith)).1 w in
      let some_byte : 0 < req.usz = omega (arith, w.complete) in
      let m' : Machine os.State = record {
        uds = m.uds;
        globals = record { fs = t; dids = m.globals.dids };
      } in
      let packed = too_long_to_pack left presp m' len in
      rw (read_by_address (std_handlers os stale) l req presp some_byte m sid)
        (ground (arith, accepted, ran, packed))

  -- An accepted request, with 32-bit addresses configured, whose memory file is missing or ends
  -- before the region, which has 1 to 4096 bytes, or for which no descriptor is left, is undefined:
  -- the -1 of the failed read is taken for the length of the response.
  pub read_failed_undefined :
      (m : Machine os.State) (req presp : CanMessage)
      → IsMessage req
      → byte req 0 ≡ 0x23
      → IsRegion m.uds req
      → m.uds.ecucfg.memory.end_addr < 4294967296
      → FailsToRead m (region_addr req) (region_size req)
      → handle_msg (std_handlers os stale) l true req (some presp) m ≡ undefined
  read_failed_undefined m req presp msg sid w end why =
      let below = w.below in
      let (left, t, ran, len) =
        read_reports m (region_addr req) (region_size req) why (omega (arith, below)) in
      reported_undefined m req presp left t msg sid w end
        (call_reports m (region_addr req) (region_size req) left t ran) len

  -- An accepted request to read 4096 bytes or more, over a regular memory file that holds them,
  -- with addresses below 2 ^ 31 configured and a descriptor to spare, is undefined: they do not fit
  -- the buffer, or the response behind its first byte.
  pub read_too_long_undefined :
      (m : Machine os.State) (req presp : CanMessage) (bs : List ℕ)
      → IsMessage req
      → byte req 0 ≡ 0x23
      → IsRegion m.uds req
      → m.uds.ecucfg.memory.end_addr < 2147483648
      → 4096 ≤ region_size req
      → v.content m.globals.fs (memory_file m) ≡ some bs
      → 0 < v.spare m.globals.fs
      → region_addr req + region_size req ≤ length bs
      → handle_msg (std_handlers os stale) l true req (some presp) m ≡ undefined
  unfolding rdba rdba_pack code
  read_too_long_undefined m req presp bs msg sid w end many con spare room =
      let zeros = replicate {A = ℕ} 4096 0 in
      let (got, same) = reg.calloc_ok 4096 m.globals.fs (omega arith) in
      let fs = (os.calloc 4096 m.globals.fs).1 in
      let below = w.below in
      let len = length-replicate {A = ℕ} 4096 0 in
      let con1 = same.content (memory_file m) ∙ con in
      let accepted = (rdba_setup_iff m.uds req msg l.rdba_param (omega arith)).1 w in
      let some_byte : 0 < req.usz = omega (arith, w.complete) in
      let found = take (region_size req) (drop (region_addr req) bs) in
      let len' = length-overwrite found zeros in
      rw (read_by_address (std_handlers os stale) l req presp some_byte m sid)
        (elim (Bool-cases (ltb 4096 (region_size req))) [
          | inl more ↦
              let ran =
                read_memory_overflow os v reg (region_addr req) (region_size req) zeros bs
                  (memory_file m) fs con1 (omega (arith, same.spare)) (ground arith) room
                  (omega arith) (omega arith) in
              ground (arith, accepted, got, ran)
          | inr equal ↦
              let (t, ran, _) =
                read_memory_ok os v reg (region_addr req) (region_size req) zeros bs (memory_file m)
                  fs con1 (omega (arith, same.spare)) (omega arith) (ground arith) room
                  (omega arith) (omega arith) in
              ground (arith, accepted, got, ran)
        ])
