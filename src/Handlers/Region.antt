-- ===== src/Handlers/Region.antt =====
-- Which ReadMemoryByAddress and WriteMemoryByAddress requests the setups accept, in terms of the
-- region of memory that a request names.
use vdiag_server.Base.{
  ℕ, ◌+◌, ◌/◌, ◌%◌, ◌≤◌, ◌<◌, ◌≡◌, ◌↔◌, true, false, some, drop, arith, ◌⊎◌, inl, inr, Bool-cases,
}
use vdiag_server.Base.Ptr.{block}
use vdiag_server.Can.{CanMessage, byte, IsMessage}
use vdiag_server.Memory.{check_memrange}
use vdiag_server.Memory.Result.{check_memrange_iff}
use vdiag_server.Uds.{UdsState}
use vdiag_server.Uds.Codes.{Nrc, code, is_positive}
use vdiag_server.Uds.Interface.{RdbaParams, WrbaParams}
use vdiag_server.Handlers.Address.{addr_len, size_len, bad_format}
use vdiag_server.Handlers.Address.Value.{
  field_value, parse_field_lem, addr_len_lem, size_len_lem, bad_format_iff, byte-lt,
}
use vdiag_server.Handlers.Rdba.{rdba_setup}
use vdiag_server.Handlers.Wrba.{wrba_setup}

-- The high nibble of the format byte is the length of the address, the low one that of the size.
abbrev pub region_addr : CanMessage → ℕ
region_addr req = field_value req (byte req 1 / 16) 2

abbrev pub region_size : CanMessage → ℕ
region_size req = field_value req (byte req 1 % 16) (2 + byte req 1 / 16)

abbrev pub header_size : CanMessage → ℕ
header_size req = 2 + byte req 1 / 16 + byte req 1 % 16

pub record IsRegion (puds : UdsState) (req : CanMessage) : Type 0 where
  pub addr_some : 0 < byte req 1 / 16
  pub addr_fits : byte req 1 / 16 ≤ 4
  pub size_some : 0 < byte req 1 % 16
  pub size_fits : byte req 1 % 16 ≤ 4
  pub complete : header_size req ≤ req.usz
  pub above : puds.ecucfg.memory.start_addr ≤ region_addr req
  pub below : region_addr req + region_size req ≤ puds.ecucfg.memory.end_addr

-- What a write needs besides.
pub record IsWrite (puds : UdsState) (req : CanMessage) : Type 0 where
  pub region : IsRegion puds req
  pub extended : puds.uses ≡ 3
  pub has_data : header_size req + region_size req ≤ req.usz

module _ (puds : UdsState) (req : CanMessage) (m : IsMessage req) where
  -- The facts about the format byte and the fields that both setups rest on.
  format_bytes :
      (addr_len (byte req 1) ≡ byte req 1 / 16) × (size_len (byte req 1) ≡ byte req 1 % 16)
  format_bytes = (addr_len_lem (byte req 1) (byte-lt m 1), size_len_lem (byte req 1))

  -- Both ways to read the test of the format byte.
  format_ok : (bad_format (byte req 1 / 16) (byte req 1 % 16) ≡ false) ↔ (
      (0 < byte req 1 / 16) × (byte req 1 / 16 ≤ 4) × (0 < byte req 1 % 16) × (byte req 1 % 16 ≤ 4))
  format_ok = bad_format_iff (byte req 1 / 16) (byte req 1 % 16)

  in_memory :
      region_addr req + region_size req < 4294967296
      → (check_memrange puds.ecucfg.memory.start_addr puds.ecucfg.memory.end_addr
            (region_addr req)
            (region_size req)
          ≡ true)
        ↔ ((puds.ecucfg.memory.start_addr ≤ region_addr req)
            × (region_addr req + region_size req ≤ puds.ecucfg.memory.end_addr))
  in_memory small = check_memrange_iff _ _ (region_addr req) (region_size req) small

  -- For a well-formed message whose region ends below 2 ^ 32, the setup of ReadMemoryByAddress
  -- accepts a request exactly if it is complete and its region lies in the configured memory, and
  -- hands the region on.
  pub rdba_setup_iff :
      (p : RdbaParams)
      → region_addr req + region_size req < 4294967296
      → ((rdba_setup (some puds) req (some p)).0 ≡ Nrc.positive_response → IsRegion puds req)
        × (IsRegion puds req
            → rdba_setup (some puds) req (some p) ≡ (
              Nrc.positive_response,
              some (record { usz = region_size req; uaddr = region_addr req }),
            ))
  unfolding rdba_setup
  rdba_setup_iff p small =
      let addr = parse_field_lem req (byte req 1 / 16) 2 m in
      let size = parse_field_lem req (byte req 1 % 16) (2 + byte req 1 / 16) m in
      rw format_bytes.0 (
        rw format_bytes.1 (
          (λ ok. ground (arith, format_ok, in_memory small, addr, size)),
          (λ r. ground (arith, format_ok, in_memory small, addr, size)),
        ))

  -- For a well-formed message whose region ends below 2 ^ 32 and has a size to which the header can
  -- be added, the setup of WriteMemoryByAddress accepts a request exactly if the session is the
  -- extended one, the region lies in the configured memory, and all its data is there; and it hands
  -- region and data on.
  pub wrba_setup_iff :
      (p : WrbaParams)
      → region_addr req + region_size req < 4294967296
      → header_size req + region_size req < 4294967296
      → ((wrba_setup (some puds) req (some p)).0 ≡ Nrc.positive_response → IsWrite puds req)
        × (IsWrite puds req
            → wrba_setup (some puds) req (some p) ≡ (
              Nrc.positive_response,
              some (record {
                uaddr = region_addr req;
                usz = region_size req;
                pdata = block (drop (header_size req) req.pdata);
              }),
            ))
  unfolding wrba_setup
  wrba_setup_iff p small fits =
      let addr = parse_field_lem req (byte req 1 / 16) 2 m in
      let size = parse_field_lem req (byte req 1 % 16) (2 + byte req 1 / 16) m in
      rw format_bytes.0 (
        rw format_bytes.1 (
          (λ ok. ground (arith, format_ok, in_memory small, addr, size)),
          (λ r. ground (arith, format_ok, in_memory small, addr, size)),
        ))

  -- In the extended session a complete write request for a region outside the configured memory is
  -- refused as out of range.
  pub wrba_setup_outside :
      (p : WrbaParams)
      → region_addr req + region_size req < 4294967296
      → puds.uses ≡ 3
      → (0 < byte req 1 / 16)
        × (byte req 1 / 16 ≤ 4)
        × (0 < byte req 1 % 16)
        × (byte req 1 % 16 ≤ 4)
      → header_size req ≤ req.usz
      → check_memrange puds.ecucfg.memory.start_addr puds.ecucfg.memory.end_addr
          (region_addr req)
          (region_size req)
        ≡ false
      → wrba_setup (some puds) req (some p) ≡ (Nrc.request_out_of_range, some p)
  unfolding wrba_setup
  wrba_setup_outside p small extended format complete outside =
      let addr = parse_field_lem req (byte req 1 / 16) 2 m in
      let size = parse_field_lem req (byte req 1 % 16) (2 + byte req 1 / 16) m in
      rw (format_bytes.0, format_bytes.1) (ground (arith, format_ok, addr, size, outside))

  -- Every other outcome of the setup of WriteMemoryByAddress: a refusal that leaves the parameters,
  -- or what is accepted is there, wherever the region ends.
  pub wrba_setup_cases :
      (p : WrbaParams)
      → header_size req + region_size req < 4294967296
      → ((rc : Nrc) × (is_positive rc ≡ false)
          × (wrba_setup (some puds) req (some p) ≡ (rc, some p)))
        ⊎ ((header_size req + region_size req ≤ req.usz)
            × (wrba_setup (some puds) req (some p) ≡ (
              Nrc.positive_response,
              some (record {
                uaddr = region_addr req;
                usz = region_size req;
                pdata = block (drop (header_size req) req.pdata);
              }),
            )))
  unfolding wrba_setup code
  wrba_setup_cases p fits =
      let addr = parse_field_lem req (byte req 1 / 16) 2 m in
      let size = parse_field_lem req (byte req 1 % 16) (2 + byte req 1 / 16) m in
      elim (Bool-cases (is_positive (wrba_setup (some puds) req (some p)).0)) [
        | inl accepted ↦
            let ok = rw (format_bytes.0, format_bytes.1) at accepted in
            inr (rw (format_bytes.0, format_bytes.1) (ground (arith, format_ok, addr, size, ok)))
        | inr refused ↦
            inl ((wrba_setup (some puds) req (some p)).0, refused, ground (arith, refused))
      ]
